-- ===== src/Content/Expansion.antt =====
-- internal/content/content.go, `Expand`: what an artifact's content is, and that it is found.
use libfossil.Base.{
  ℕ, zero, suc, ◌<◌, ◌≡◌, ◌↔◌, refl, arith, false, none, some, List, [], ◌∷◌, length, Bytes, All,
  ok, ◌>>=◌, >>=-ok, trans_iff, Option-cases, inl, inr,
}
use libfossil.Delta.{apply}
use libfossil.Blob.{Db, Tools, has_rid, load, from_delta}
use libfossil.Blob.Tables.{find_source, IsValid}
use libfossil.Content.{walk_loop, walk_delta_chain, apply_deltas, expand_chain, expand}
use libfossil.Content.Walk.{unvisited, unvisited-lt, unvisited-le_length}

-- The content of an artifact: its stored bytes, or what its delta makes of the content of its source.
pub data Expands (t : Tools) (db : Db) : ℕ → Bytes → Type 0 where
  full :
      {rid : ℕ} {s : Bytes}
      → find_source db.deltas rid ≡ none
      → load t db rid ≡ ok s
      → Expands t db rid s
  delta :
      {rid src : ℕ} {s d s' : Bytes}
      → find_source db.deltas rid ≡ some src
      → Expands t db src s
      → load t db rid ≡ ok d
      → from_delta (apply t.max_cap s d) ≡ ok s'
      → Expands t db rid s'

source-lt :
    (es : List (ℕ × ℕ)) (n k src : ℕ)
    → All (λ e. (e.1 < e.0) × (e.0 < n)) es
    → find_source es k ≡ some src
    → src < k
unfolding find_source
source-lt [] n k src a h = absurd (cc)
source-lt (e ∷ es) n k src (x, a) h = ground (arith, source-lt es n k src a)

has_rid-above : (chain : List ℕ) (c : ℕ) → All (λ r. c < r) chain → has_rid chain c ≡ false
unfolding has_rid
has_rid-above [] c a = refl
has_rid-above (r ∷ rs) c (x, a) = ground (arith, has_rid-above rs c a)

above_mono : (chain : List ℕ) (b c : ℕ) → b < c → All (λ r. c < r) chain → All (λ r. b < r) chain
above_mono [] b c h a = tt
above_mono (r ∷ rs) b c h (x, a) = (omega arith, above_mono rs b c h a)

module _ (t : Tools) (db : Db) where
  -- What the loops make of a rid, with the deltas of `chain` still to be applied.
  abbrev ResultIs : ℕ → List ℕ → Bytes → Type 0
  ResultIs rid chain out = (s : Bytes) × Expands t db rid s × (apply_deltas t db s chain ≡ ok out)

  expand-root :
      (current : ℕ) (chain : List ℕ) (out : Bytes)
      → find_source db.deltas current ≡ none
      → (expand_chain t db (current ∷ chain) ≡ ok out) ↔ ResultIs current chain out
  unfolding expand_chain
  expand-root current chain out root = (forth, back)
    where
      forth : expand_chain t db (current ∷ chain) ≡ ok out → ResultIs current chain out
      forth h =
          let (s, e, f) = >>=-ok (load t db current) (λ c. apply_deltas t db c chain) out h in
          (s, full root e, f)

      back : ResultIs current chain out → expand_chain t db (current ∷ chain) ≡ ok out
      back (s, full _ e, f) = rw e f
      back (s, delta e _ _ _, f) = absurd (cc)

  expand-source :
      (current src : ℕ) (chain : List ℕ) (out : Bytes)
      → find_source db.deltas current ≡ some src
      → ResultIs src (current ∷ chain) out ↔ ResultIs current chain out
  unfolding apply_deltas
  expand-source current src chain out h = (forth, back)
    where
      forth : ResultIs src (current ∷ chain) out → ResultIs current chain out
      forth (s, x, f) =
          let (d, e, g) = >>=-ok (load t db current) _ out f in
          let (s', a, k) =
            >>=-ok (from_delta (apply t.max_cap s d)) (λ c. apply_deltas t db c chain) out g in
          (s', delta h x e a, k)

      back : ResultIs current chain out → ResultIs src (current ∷ chain) out
      back (s, full e _, f) = absurd (cc)
      back (s, delta {src = src'} e x l a, f) =
          let same : src' ≡ src = cc in (_, rw same at x, rw (l, a) f)

  walk_loop-expand :
      (fuel : ℕ) (chain : List ℕ) (current : ℕ) (out : Bytes)
      → IsValid db
      → unvisited chain db.deltas < fuel
      → All (λ r. current < r) chain
      → (walk_loop db.deltas fuel chain current >>= expand_chain t db ≡ ok out)
        ↔ ResultIs current chain out
  unfolding walk_loop
  walk_loop-expand zero chain current out v h a = absurd (omega arith)
  walk_loop-expand (suc fuel) chain current out v h a =
      let new = has_rid-above chain current a in
      elim (Option-cases (find_source db.deltas current)) [
        | inl root ↦ rw (new, root) (expand-root current chain out root)
        | inr (src, s) ↦
            let older = source-lt db.deltas _ current src v.older s in
            let shorter = unvisited-lt current src chain db.deltas new s in
            rw (new, s)
              (trans_iff
                (walk_loop-expand fuel (current ∷ chain) src out v (omega arith)
                  (older, above_mono chain src current older a))
                (expand-source current src chain out s))
      ]

-- On valid tables `Expand` of a positive rid finds just the content: its result is the bytes that
-- are stored for a rid with no source, and otherwise what the delta that is stored makes of the
-- content of the source.
pub expand-Expands :
    (t : Tools) (db : Db) (rid : ℕ) (out : Bytes)
    → IsValid db
    → 0 < rid
    → (expand t db rid ≡ ok out) ↔ Expands t db rid out
unfolding expand walk_delta_chain apply_deltas
expand-Expands t db zero out v h = absurd (omega arith)
expand-Expands t db (suc rid) out v h =
    let bound = unvisited-le_length [] db.deltas in
    trans_iff (walk_loop-expand t db (suc (length db.deltas)) [] (suc rid) out v (omega arith) tt)
      (forth, back)
  where
    forth : ResultIs t db (suc rid) [] out → Expands t db (suc rid) out
    forth (s, x, e) = let same : s ≡ out = cc in rw same at x

    back : Expands t db (suc rid) out → ResultIs t db (suc rid) [] out
    back x = (out, x, refl)
