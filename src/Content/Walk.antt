-- ===== src/Content/Walk.antt =====
-- internal/content/content.go, `walkDeltaChain`: the loop ends, on every table.
use libfossil.Base.{
  ℕ, zero, suc, ◌≤◌, ◌<◌, ◌≡◌, ◌≢◌, refl, ap, sym, ◌∙◌, subst, arith, false, Option, none, some,
  List, [], ◌∷◌, if◌then◌else◌, length, All, ok, err, Returns, Bool-cases, Option-cases, inl, inr,
}
use libfossil.Blob.{Error, has_rid}
use libfossil.Blob.Tables.{find_source}
use libfossil.Content.{walk_loop, walk_delta_chain}

-- The number of rows of the table whose rid is not in the chain.
pub unvisited : List ℕ → List (ℕ × ℕ) → ℕ
unvisited chain [] = 0
unvisited chain ((r, src) ∷ es) =
    let rest = unvisited chain es in if has_rid chain r then rest else suc rest

pub unvisited-le_length : (chain : List ℕ) (es : List (ℕ × ℕ)) → unvisited chain es ≤ length es
unfolding unvisited
unvisited-le_length chain [] = omega arith
unvisited-le_length chain ((r, src) ∷ es) = ground (arith, unvisited-le_length chain es)

unvisited-le :
    (c : ℕ) (chain : List ℕ) (es : List (ℕ × ℕ)) → unvisited (c ∷ chain) es ≤ unvisited chain es
unfolding unvisited has_rid
unvisited-le c chain [] = omega arith
unvisited-le c chain ((r, src) ∷ es) = ground (arith, unvisited-le c chain es)

-- Following a row visits it.
pub unvisited-lt :
    (c src : ℕ) (chain : List ℕ) (es : List (ℕ × ℕ))
    → has_rid chain c ≡ false
    → find_source es c ≡ some src
    → unvisited (c ∷ chain) es < unvisited chain es
unfolding unvisited has_rid find_source
unvisited-lt c src chain [] h e = absurd (cc)
unvisited-lt c src chain ((r, s) ∷ es) h e =
    ground (arith, unvisited-le c chain es, unvisited-lt c src chain es)

pub last : List ℕ → Option ℕ
last [] = none
last (x ∷ []) = some x
last (_ ∷ y ∷ ys) = last (y ∷ ys)

-- Each rid is the source of the one behind it.
abbrev pub IsLinked : List (ℕ × ℕ) → List ℕ → Type 0
IsLinked deltas (x ∷ y ∷ ys) = (find_source deltas y ≡ some x) × IsLinked deltas (y ∷ ys)
IsLinked deltas _ = Unit

abbrev HasRoot : List (ℕ × ℕ) → List ℕ → Type 0
HasRoot deltas [] = ⊥
HasRoot deltas (x ∷ _) = find_source deltas x ≡ none

-- A chain of sources from a rid that is no delta to `rid`.
abbrev pub IsChain : List (ℕ × ℕ) → ℕ → List ℕ → Type 0
IsChain deltas rid chain = HasRoot deltas chain × IsLinked deltas chain × (last chain ≡ some rid)

walk_loop-Returns :
    (deltas : List (ℕ × ℕ)) (rid fuel : ℕ) (chain : List ℕ) (current : ℕ)
    → unvisited chain deltas < fuel
    → IsLinked deltas (current ∷ chain)
    → last (current ∷ chain) ≡ some rid
    → Returns (IsChain deltas rid) (walk_loop deltas fuel chain current)
unfolding walk_loop last
walk_loop-Returns deltas rid zero chain current h l e = absurd (omega arith)
walk_loop-Returns deltas rid (suc fuel) chain current h l e =
    elim (Bool-cases (has_rid chain current)) [
      | inl seen ↦ rw seen tt
      | inr new ↦ elim (Option-cases (find_source deltas current)) [
        | inl root ↦ rw (new, root) (root, l, e)
        | inr (src, s) ↦
            rw (new, s)
              (let shorter = unvisited-lt current src chain deltas new s in
                walk_loop-Returns deltas rid fuel (current ∷ chain) src (omega arith) (s, l) e)
      ]
    ]

-- From a rid, `n` sources lead to a rid that is no delta.
abbrev IsDeep : List (ℕ × ℕ) → ℕ → ℕ → Type 0
IsDeep deltas zero rid = find_source deltas rid ≡ none
IsDeep deltas (suc n) rid = (src : ℕ) × (find_source deltas rid ≡ some src) × IsDeep deltas n src

IsDeep-unique :
    (deltas : List (ℕ × ℕ)) (m n rid : ℕ) → IsDeep deltas m rid → IsDeep deltas n rid → m ≡ n
IsDeep-unique deltas zero zero rid h k = refl
IsDeep-unique deltas zero (suc n) rid h (src, e, k) = absurd (cc)
IsDeep-unique deltas (suc m) zero rid (src, e, h) k = absurd (cc)
IsDeep-unique deltas (suc m) (suc n) rid (src, e, h) (src', e', k) =
    let same : src ≡ src' = cc in
    ap suc (IsDeep-unique deltas m n src h (subst (IsDeep deltas n) (sym same) k))

linked_depth :
    (deltas : List (ℕ × ℕ)) (rid k x : ℕ) (xs : List ℕ)
    → IsDeep deltas k x
    → IsLinked deltas (x ∷ xs)
    → last (x ∷ xs) ≡ some rid
    → (n : ℕ) × IsDeep deltas n rid
unfolding last
linked_depth deltas rid k x [] h l e =
    let same : x ≡ rid = cc in (k, subst (IsDeep deltas k) same h)
linked_depth deltas rid k x (y ∷ ys) h (s, l) e = linked_depth deltas rid (suc k) y ys (x, s, h) l e

chain_depth :
    (deltas : List (ℕ × ℕ)) (rid : ℕ) (chain : List ℕ)
    → IsChain deltas rid chain
    → (n : ℕ) × IsDeep deltas n rid
chain_depth deltas rid [] (h, l, e) = absurd h
chain_depth deltas rid (x ∷ xs) (h, l, e) = linked_depth deltas rid 0 x xs h l e

-- The rids of the chain are farther from their root than `n` sources.
abbrev Above : List (ℕ × ℕ) → ℕ → List ℕ → Type 0
Above deltas n chain = All (λ r. (m : ℕ) × IsDeep deltas m r × (n < m)) chain

Above-mono :
    (deltas : List (ℕ × ℕ)) (k n : ℕ) (chain : List ℕ)
    → k < n
    → Above deltas n chain
    → Above deltas k chain
Above-mono deltas k n [] h a = tt
Above-mono deltas k n (r ∷ rs) h ((m, d, l), a) =
    ((m, d, omega arith), Above-mono deltas k n rs h a)

Above-seen :
    (deltas : List (ℕ × ℕ)) (n : ℕ) (chain : List ℕ) (current : ℕ)
    → Above deltas n chain
    → IsDeep deltas n current
    → has_rid chain current ≡ false
unfolding has_rid
Above-seen deltas n [] current a d = refl
Above-seen deltas n (r ∷ rs) current ((m, d', l), a) d =
    let later = Above-seen deltas n rs current a d in
    let differ : r ≢ current = λ same.
      let e = IsDeep-unique deltas m n current (subst (IsDeep deltas m) same d') d in omega arith in
    ground arith

-- From a rid with a root the walk meets no rid twice.
walk_loop-rooted :
    (deltas : List (ℕ × ℕ)) (fuel n current : ℕ) (chain : List ℕ) (e : Error)
    → IsDeep deltas n current
    → Above deltas n chain
    → walk_loop deltas fuel chain current ≢ err e
unfolding walk_loop
walk_loop-rooted deltas zero n current chain e d a h = cc
walk_loop-rooted deltas (suc fuel) zero current chain e d a h =
    let new = Above-seen deltas 0 chain current a d in
    let found : walk_loop deltas (suc fuel) chain current ≡ ok (current ∷ chain) =
      rw (new, d) refl in
    cc
walk_loop-rooted deltas (suc fuel) (suc n) current chain e (src, s, d) a h =
    let new = Above-seen deltas (suc n) chain current a (src, s, d) in
    let onward : walk_loop deltas (suc fuel) chain current
        ≡ walk_loop deltas fuel (current ∷ chain) src =
      rw (new, s) refl in
    walk_loop-rooted deltas fuel n src (current ∷ chain) e d
      ((suc n, (src, s, d), omega arith), Above-mono deltas n (suc n) chain (omega arith) a)
      (sym onward ∙ h)

-- On every table delta, one with a cycle included, and from every rid but 0, `walkDeltaChain`
-- returns: with a chain that leads from a rid that is no delta, source by source, to the rid that
-- it was given, or with an error, and then there is no such chain.
pub walk_delta_chain-Returns :
    (deltas : List (ℕ × ℕ)) (rid : ℕ)
    → 0 < rid
    → Returns (IsChain deltas rid) (walk_delta_chain deltas rid)
      × ((e : Error) (chain : List ℕ)
          → walk_delta_chain deltas rid ≡ err e
          → IsChain deltas rid chain
          → ⊥)
unfolding walk_delta_chain last
walk_delta_chain-Returns deltas zero p = absurd (omega arith)
walk_delta_chain-Returns deltas (suc rid) p = (
  let bound = unvisited-le_length [] deltas in
      walk_loop-Returns deltas (suc rid) (suc (length deltas)) [] (suc rid) (omega arith) tt refl,
  λ e chain h c.
      let (n, d) = chain_depth deltas (suc rid) chain c in
      walk_loop-rooted deltas (suc (length deltas)) n (suc rid) [] e d tt h,
)
