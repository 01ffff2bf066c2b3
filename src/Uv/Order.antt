-- ===== src/Uv/Order.antt =====
-- internal/uv/status.go: the two sides of a sync come to matching actions.
use libfossil.Base.{
  ◌≡◌, refl, ap, sym, arith, true, false, [], ◌∷◌, Bytes, Bool-cases, inl, inr, ◌↔◌,
}
use libfossil.Base.Int.{ℤ, pos, negsuc}
use libfossil.Uv.{
  less, less_int, Sign, minus, none, plus, cmp_str, mtime_cmp, same_hash_status, other_hash_status,
  is_zero_time, status_of, status,
}

-- The sign of the comparison the other way round.
abbrev opposite : Sign → Sign
opposite minus = plus
opposite none = none
opposite plus = minus

less-asym : (a b : Bytes) → less a b ≡ true → less b a ≡ false
unfolding less
less-asym [] [] h = refl
less-asym [] (d ∷ ds) h = refl
less-asym (c ∷ cs) [] h = sym h
less-asym (c ∷ cs) (d ∷ ds) h = ground (arith, less-asym cs ds)

less_total : (a b : Bytes) → less a b ≡ false → less b a ≡ false → a ≡ b
unfolding less
less_total [] [] h k = refl
less_total [] (d ∷ ds) h k = cc
less_total (c ∷ cs) [] h k = cc
less_total (c ∷ cs) (d ∷ ds) h k = grind (arith, less_total cs ds)

less_int-asym : (a b : ℤ) → less_int a b ≡ true → less_int b a ≡ false
unfolding less_int
less_int-asym (pos a) (pos b) h = ground arith
less_int-asym (pos a) (negsuc b) h = cc
less_int-asym (negsuc a) (pos b) h = refl
less_int-asym (negsuc a) (negsuc b) h = ground arith

less_int_total : (a b : ℤ) → less_int a b ≡ false → less_int b a ≡ false → a ≡ b
unfolding less_int
less_int_total (pos a) (pos b) h k = ap pos (ground arith)
less_int_total (pos a) (negsuc b) h k = cc
less_int_total (negsuc a) (pos b) h k = cc
less_int_total (negsuc a) (negsuc b) h k = ap negsuc (ground arith)

less_irrefl : (a : Bytes) → less a a ≡ false
less_irrefl a = elim (Bool-cases (less a a)) [ inl y ↦ less-asym a a y | inr n ↦ n ]

less_int_irrefl : (a : ℤ) → less_int a a ≡ false
less_int_irrefl a = elim (Bool-cases (less_int a a)) [ inl y ↦ less_int-asym a a y | inr n ↦ n ]

cmp_str_same : (a : Bytes) → cmp_str a a ≡ none
unfolding cmp_str
cmp_str_same a = rw (less_irrefl a)

mtime_cmp_same : (a : ℤ) → mtime_cmp a a ≡ none
unfolding mtime_cmp
mtime_cmp_same a = rw (less_int_irrefl a)

cmp_str_none : (a b : Bytes) → cmp_str a b ≡ none → a ≡ b
unfolding cmp_str
cmp_str_none a b h = grind (arith, less_total a b)

mtime_cmp_none : (a b : ℤ) → mtime_cmp a b ≡ none → a ≡ b
unfolding mtime_cmp
mtime_cmp_none a b h = grind (arith, less_int_total a b)

status_of_three : (h m : Sign) (s t : Bytes) → status_of h m s t ≡ 3 → (h ≡ none) × (m ≡ none)
unfolding status_of other_hash_status same_hash_status
status_of_three none none s t e = (refl, refl)
status_of_three none minus s t e = absurd (omega arith)
status_of_three none plus s t e = absurd (omega arith)
status_of_three minus m s t e = absurd (ground arith)
status_of_three plus m s t e = absurd (ground arith)

-- A side with a file finds nothing to do exactly where the times and the hashes are the same.
pub status_three :
    (a b : ℤ) (s t : Bytes) → is_zero_time a ≡ false → (status a s b t ≡ 3) ↔ ((a ≡ b) × (s ≡ t))
unfolding status
status_three a b s t p = rw p (
  (λ e.
      let (h, m) = status_of_three (cmp_str s t) (mtime_cmp a b) s t e in
      (mtime_cmp_none a b m, cmp_str_none s t h)),
  (λ same. rw (same.0, same.1, cmp_str_same t, mtime_cmp_same b) (unfold status_of in refl)),
)
