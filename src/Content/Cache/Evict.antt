-- ===== src/Content/Cache/Evict.antt =====
-- internal/content/cache.go, `evictOldest` and the loop around it: what is evicted.
use libfossil.Base.{
  ℕ, zero, suc, ◌+◌, ◌-◌, ◌≤◌, ◌<◌, ◌≡◌, refl, ap, sym, ◌∙◌, arith, true, false, none, some, List,
  [], ◌∷◌, ltb, leb, if◌then◌else◌, Bytes, length, Bool-cases, Option-cases, inl, inr, ltb→lt,
}
use libfossil.Content.Cache.{
  Cache, find_item, back, remove_back, evict_oldest, evict_loop, expand_end,
}

-- The bytes that are held.
unfoldable pub total : List (ℕ × Bytes) → ℕ
total [] = 0
total (e ∷ es) = length e.1 + total es

-- The longest front part of a list that is within a bound.
unfoldable pub fits : ℕ → List (ℕ × Bytes) → List (ℕ × Bytes)
fits bound [] = []
fits bound (e ∷ es) =
    let rest = fits (bound - length e.1) es in if leb (length e.1) bound then e ∷ rest else []

fits_all : (bound : ℕ) (es : List (ℕ × Bytes)) → total es ≤ bound → fits bound es ≡ es
unfolding fits total
fits_all bound [] h = refl
fits_all bound (e ∷ es) h =
    let short : leb (length e.1) bound ≡ true = ground arith in
    rw short (ap (◌∷◌ e) (fits_all (bound - length e.1) es (omega arith)))

fits-remove_back :
    (bound : ℕ) (es : List (ℕ × Bytes))
    → bound < total es
    → fits bound (remove_back es) ≡ fits bound es
unfolding fits total remove_back
fits-remove_back bound [] h = absurd (omega arith)
fits-remove_back bound (e ∷ []) h =
    let long : leb (length e.1) bound ≡ false = ground arith in rw long refl
fits-remove_back bound (x ∷ e ∷ es) h = elim (Bool-cases (leb (length x.1) bound)) [
  | inl y ↦ rw y (ap (◌∷◌ x) (fits-remove_back (bound - length x.1) (e ∷ es) (ground arith)))
  | inr n0 ↦ rw n0 refl
]

total-back :
    (es : List (ℕ × Bytes)) (e : ℕ × Bytes)
    → back es ≡ some e
    → total (remove_back es) + length e.1 ≡ total es
unfolding total remove_back back
total-back [] e h = absurd (cc)
total-back (x ∷ []) e h = grind arith
total-back (x ∷ y ∷ ys) e h = omega (arith, total-back (y ∷ ys) e h)

length-back :
    (es : List (ℕ × Bytes)) (e : ℕ × Bytes)
    → back es ≡ some e
    → suc (length (remove_back es)) ≡ length es
unfolding remove_back back
length-back [] e h = absurd (cc)
length-back (x ∷ []) e h = refl
length-back (x ∷ y ∷ ys) e h = ap suc (length-back (y ∷ ys) e h)

back-none : (es : List (ℕ × Bytes)) → back es ≡ none → es ≡ []
unfolding back
back-none [] h = refl
back-none (x ∷ []) h = absurd (cc)
back-none (x ∷ y ∷ ys) h = absurd (let r = back-none (y ∷ ys) h in cc)

length-zero : (es : List (ℕ × Bytes)) → length es ≡ 0 → es ≡ []
length-zero [] h = refl
length-zero (x ∷ xs) h = absurd (omega arith)

-- What the loop makes of a cache whose size is right.
abbrev pub Evicted : Cache → Cache → Type 0
Evicted c c' =
    (c'.order ≡ fits c.max_size c.order)
    × (c'.cur_size ≡ total c'.order)
    × (c'.max_size ≡ c.max_size)

-- A round of the loop removes an entry.
abbrev Shrunk : Cache → Cache → Type 0
Shrunk c c' =
    (c'.order ≡ remove_back c.order)
    × (c'.cur_size ≡ total c'.order)
    × (c'.max_size ≡ c.max_size)
    × (suc (length c'.order) ≡ length c.order)

evict_oldest-Shrunk :
    (c : Cache) → c.max_size < c.cur_size → c.cur_size ≡ total c.order → Shrunk c (evict_oldest c)
unfolding evict_oldest total
evict_oldest-Shrunk c h s = elim (Option-cases (back c.order)) [
  | inl n0 ↦
      absurd (let empty = back-none c.order n0 in none_held (omega arith) (s ∙ rw empty refl))
  | inr (x, b) ↦
      rw (b, evict_oldest)
        (refl, omega (arith, total-back c.order x b), refl, length-back c.order x b)
]
  where
    none_held : 0 < c.cur_size → c.cur_size ≡ total [] → ⊥
    none_held h e = omega arith

evict_loop-Evicted :
    (n : ℕ) (c : Cache)
    → length c.order ≤ n
    → c.cur_size ≡ total c.order
    → Evicted c (evict_loop n c)
unfolding evict_loop total
evict_loop-Evicted zero c h s =
    let empty = length-zero c.order (omega arith) in
    (sym (fits_all c.max_size c.order (rw empty (omega arith))), s, refl)
evict_loop-Evicted (suc n) c h s = elim (Bool-cases (ltb c.max_size c.cur_size)) [
  | inl y ↦
      let full = ltb→lt _ _ y in
      let (o, z, m, l) = evict_oldest-Shrunk c full s in
      let (o', z', m') = evict_loop-Evicted n (evict_oldest c) (omega arith) z in
      let front = rw (m, o) at o' in
      rw y (front ∙ fits-remove_back c.max_size c.order (omega arith), z', m' ∙ m)
  | inr n0 ↦ rw n0 (sym (fits_all c.max_size c.order (ground arith)), s, refl)
]

-- A new entry at the front.
abbrev pub pushed : Cache → ℕ → Bytes → Cache
pushed c rid text = record c { order = (rid, text) ∷ c.order; cur_size = c.cur_size + length text }

pub pushed-Evicted :
    (c : Cache) (rid : ℕ) (text : Bytes)
    → c.cur_size ≡ total c.order
    → Evicted (pushed c rid text) (evict_loop (suc (length c.order)) (pushed c rid text))
unfolding total
pushed-Evicted c rid text s =
    evict_loop-Evicted (suc (length c.order)) (pushed c rid text) (omega arith) (omega arith)

-- In a cache that counts its bytes right, a miss puts the new entry in front and keeps, of the
-- list with it, the longest front part that is within the bound: what was used longest ago goes
-- first, and no more goes than has to.
pub expand_end-Evicted :
    (c : Cache) (rid : ℕ) (text : Bytes)
    → c.cur_size ≡ total c.order
    → find_item c.order rid ≡ none
    → (expand_end c rid text).order ≡ fits c.max_size ((rid, text) ∷ c.order)
unfolding expand_end total
expand_end-Evicted c rid text s h = rw (h, expand_end) (pushed-Evicted c rid text s).0
