-- ===== src/Path/Search/Level.antt =====
-- internal/path/path.go: the search from one level to the next, and at its start.
use libfossil.Base.{
  ℕ, suc, ◌≤◌, ◌≡◌, ◌≢◌, ◌⊎◌, inl, inr, refl, sym, ◌∙◌, subst⁻¹, arith, Bool, true, false, List, [],
  ◌∷◌, length, All, append-nil,
}
use libfossil.Blob.{has_rid}
use libfossil.Path.{Edge, PathNode, start, rid_of, depth_of, chain}
use libfossil.Path.Routes.{IsTrail}
use libfossil.Path.Search.{
  IsQueued, IsAt, IsDone, IsLevel, has_rid-head, has_rid-tail, has_rid_cons, has_rid_other,
}

module _ (es : List Edge) (direct : Bool) (skip : List ℕ) (from to : ℕ) where
  queued-far :
      (d v : ℕ) (qs : List PathNode) (rest : List ℕ)
      → All (IsAt es direct skip from (suc d)) qs
      → IsTrail es direct skip from (v ∷ rest)
      → length rest ≤ d
      → IsQueued v qs
      → ⊥
  queued-far d v [] rest a t l q = elim q [ ]
  queued-far d v (q ∷ qs) rest ((b, e), a) t l (inl same) =
      omega (arith, b.least rest (subst⁻¹ (λ x. IsTrail es direct skip from (x ∷ rest)) same t), e)
  queued-far d v (q ∷ qs) rest (x, a) t l (inr later) = queued-far d v qs rest a t l later

  -- When the nodes of depth `d` have been taken, the others are the next level.
  pub next-IsLevel :
      (d : ℕ) (qs : List PathNode) (visited : List ℕ)
      → IsLevel es direct skip from to d [] qs visited
      → IsLevel es direct skip from to (suc d) qs [] visited
  next-IsLevel d qs visited k = record {
    sound = record { near = near'; skips = k.sound.skips; goal = k.sound.goal };
    nears = k.fars;
    fars = tt;
    closed = rw (append-nil qs) k.closed;
  }
    where
      near' :
          (v : ℕ) (rest : List ℕ)
          → IsTrail es direct skip from (v ∷ rest)
          → length rest ≤ suc d
          → has_rid visited v ≡ true
      near' v [] t l = k.sound.near v [] t (omega arith)
      near' v (u ∷ rest) (s, t) l = elim (k.closed u rest t (k.sound.near u rest t (omega arith))) [
        | inl queued ↦ absurd (queued-far d u qs rest k.fars t (omega arith) queued)
        | inr done ↦ done v s
      ]

  -- A trail leads to the start, or to a rid that is not skipped.
  trail_end :
      (v : ℕ) (rest : List ℕ)
      → IsTrail es direct skip from (v ∷ rest)
      → (v ≡ from) ⊎ (has_rid skip v ≡ false)
  trail_end v [] t = inl t
  trail_end v (u ∷ rest) (s, t) = inr s.1

  pub first-IsLevel :
      from ≢ to → IsLevel es direct skip from to 0 (start from ∷ []) [] (from ∷ skip)
  unfolding rid_of depth_of chain
  first-IsLevel other = record {
    sound = record { near = near'; skips = λ v h. has_rid-tail from v skip h; goal = goal' };
    nears = ((record { leads = refl; deep = refl; least = λ rest t. omega arith }, refl), tt);
    fars = tt;
    closed = closed';
  }
    where
      near' :
          (v : ℕ) (rest : List ℕ)
          → IsTrail es direct skip from (v ∷ rest)
          → length rest ≤ 0
          → has_rid (from ∷ skip) v ≡ true
      near' v [] t l = subst⁻¹ (λ x. has_rid (from ∷ skip) x ≡ true) t (has_rid-head from skip)
      near' v (u ∷ rest) t l = absurd (omega arith)

      goal' :
          (rest : List ℕ)
          → IsTrail es direct skip from (to ∷ rest)
          → has_rid (from ∷ skip) to ≡ false
      goal' rest t = elim (trail_end to rest t) [
        | inl same ↦ absurd (other (sym same))
        | inr free ↦ has_rid_other from to skip other free
      ]

      closed' :
          (v : ℕ) (rest : List ℕ)
          → IsTrail es direct skip from (v ∷ rest)
          → has_rid (from ∷ skip) v ≡ true
          → IsQueued v (start from ∷ []) ⊎ IsDone es direct skip from (from ∷ skip) v
      closed' v rest t h = elim (trail_end v rest t) [
        | inl same ↦ inl (inl (sym same))
        | inr free ↦ elim (has_rid_cons from v skip h) [
          | inl same ↦ inl (inl same)
          | inr skipped ↦ absurd (let both : true ≡ false = sym skipped ∙ free in cc)
        ]
      ]
