-- ===== src/Content/Cache/Shared/Items.antt =====
-- internal/content/cache.go: what the critical sections do to entries that are right.
use libfossil.Base.{
  ℕ, zero, suc, ◌-◌, ◌<◌, ◌≡◌, refl, ◌∙◌, arith, some, List, [], ◌∷◌, ◌==◌, leb, Bytes, length,
  get_elem?, All, ok, err, panicked, stuck, Bool-cases, Option-cases, inl, inr,
}
use libfossil.Blob.{Db, Tools, Result}
use libfossil.Blob.Tables.{IsValid}
use libfossil.Content.{expand, walk_delta_chain}
use libfossil.Content.Cache.{
  Cache, find_item, remove_item, move_to_front, expand_begin, expand_end, invalidate,
}
use libfossil.Content.Cache.Evict.{fits, expand_end-Evicted}
use libfossil.Content.Cache.Bounds.{IsBounded}
use libfossil.Content.Cache.Shared.{
  Goroutine, expanding, expanded, System, expand_one, expand_at, remove_at,
}

-- What is cached, and what a goroutine has expanded, is the content.
abbrev pub IsRight : Tools → Db → ℕ × Bytes → Type 0
IsRight t db e = expand t db e.0 ≡ ok e.1

abbrev pub HasRightResult : Tools → Db → Goroutine → Type 0
HasRightResult t db (expanding rid) = Unit
HasRightResult t db (expanded rid (ok text)) = IsRight t db (rid, text)
HasRightResult t db (expanded rid _) = Unit

pub record IsCoherent (t : Tools) (s : System) : Type 0 where
  pub tables : IsValid s.db
  pub bounds : IsBounded s.cache
  pub cached : All (IsRight t s.db) s.cache.order
  pub results : All (HasRightResult t s.db) s.running

pub positive_rid :
    (t : Tools) (db : Db) (rid : ℕ) (text : Bytes) → expand t db rid ≡ ok text → 0 < rid
unfolding expand walk_delta_chain
positive_rid t db zero text h = absurd (cc)
positive_rid t db (suc rid) text h = omega arith

module _ (t : Tools) (db : Db) where
  found-IsRight :
      (es : List (ℕ × Bytes)) (rid : ℕ) (text : Bytes)
      → All (IsRight t db) es
      → find_item es rid ≡ some text
      → expand t db rid ≡ ok text
  unfolding find_item
  found-IsRight [] rid text a h = absurd (cc)
  found-IsRight ((r, d) ∷ es) rid text (x, a) h = grind (arith, x, found-IsRight es rid text a)

  remove_item-IsRight :
      (es : List (ℕ × Bytes)) (rid : ℕ)
      → All (IsRight t db) es
      → All (IsRight t db) (remove_item es rid)
  unfolding remove_item
  remove_item-IsRight [] rid a = tt
  remove_item-IsRight (e ∷ es) rid (x, a) = elim (Bool-cases (e.0 == rid)) [
    | inl y ↦ rw y a
    | inr n0 ↦ rw n0 (x, remove_item-IsRight es rid a)
  ]

  fits-IsRight :
      (bound : ℕ) (es : List (ℕ × Bytes))
      → All (IsRight t db) es
      → All (IsRight t db) (fits bound es)
  unfolding fits
  fits-IsRight bound [] a = tt
  fits-IsRight bound (e ∷ es) (x, a) = elim (Bool-cases (leb (length e.1) bound)) [
    | inl y ↦ rw y (x, fits-IsRight (bound - length e.1) es a)
    | inr n0 ↦ rw n0 tt
  ]

  module _ (c : Cache) (a : All (IsRight t db) c.order) (rid : ℕ) where
    pub expand_begin-IsRight : All (IsRight t db) (expand_begin c rid).0.order
    unfolding expand_begin move_to_front
    expand_begin-IsRight = elim (Option-cases (find_item c.order rid)) [
      | inl e ↦ rw (e, expand_begin) a
      | inr (text, e) ↦
          rw (e, expand_begin)
            (found-IsRight c.order rid text a e, remove_item-IsRight c.order rid a)
    ]

    pub expand_begin-answer :
        (text : Bytes) → (expand_begin c rid).1 ≡ some text → expand t db rid ≡ ok text
    unfolding expand_begin
    expand_begin-answer text h = elim (Option-cases (find_item c.order rid)) [
      | inl e ↦ absurd (let h' = rw (e, expand_begin) at h in cc)
      | inr (cached, e) ↦ found-IsRight c.order rid text a (e ∙ (rw (e, expand_begin) at h))
    ]

    pub expand_end-IsRight :
        (text : Bytes)
        → IsBounded c
        → expand t db rid ≡ ok text
        → All (IsRight t db) (expand_end c rid text).order
    unfolding expand_end move_to_front
    expand_end-IsRight text b h = elim (Option-cases (find_item c.order rid)) [
      | inl e ↦
          rw (expand_end-Evicted c rid text b.sized e)
            (fits-IsRight c.max_size ((rid, text) ∷ c.order) (h, a))
      | inr (cached, e) ↦
          rw (e, expand_end)
            (found-IsRight c.order rid cached a e, remove_item-IsRight c.order rid a)
    ]

    pub invalidate-IsRight : All (IsRight t db) (invalidate c rid).order
    unfolding invalidate
    invalidate-IsRight = elim (Option-cases (find_item c.order rid)) [
      | inl e ↦ rw (e, invalidate) a
      | inr (text, e) ↦ rw (e, invalidate) (remove_item-IsRight c.order rid a)
    ]

  expand_one-HasRightResult :
      (g : Goroutine) → HasRightResult t db g → HasRightResult t db (expand_one t db g)
  unfolding expand_one
  expand_one-HasRightResult (expanding rid) h = result (expand t db rid) refl
    where
      result : (o : Result Bytes) → expand t db rid ≡ o → HasRightResult t db (expanded rid o)
      result (ok text) e = e
      result (err _) e = tt
      result panicked e = tt
      result stuck e = tt
  expand_one-HasRightResult (expanded rid o) h = h

  pub expand_at-HasRightResult :
      (gs : List Goroutine) (n : ℕ)
      → All (HasRightResult t db) gs
      → All (HasRightResult t db) (expand_at t db gs n)
  unfolding expand_at
  expand_at-HasRightResult [] n a = tt
  expand_at-HasRightResult (g ∷ gs) zero (x, a) = (expand_one-HasRightResult g x, a)
  expand_at-HasRightResult (g ∷ gs) (suc n) (x, a) = (x, expand_at-HasRightResult gs n a)

  pub remove_at-HasRightResult :
      (gs : List Goroutine) (n : ℕ)
      → All (HasRightResult t db) gs
      → All (HasRightResult t db) (remove_at gs n)
  unfolding remove_at
  remove_at-HasRightResult [] n a = tt
  remove_at-HasRightResult (g ∷ gs) zero (x, a) = a
  remove_at-HasRightResult (g ∷ gs) (suc n) (x, a) = (x, remove_at-HasRightResult gs n a)

  pub get-HasRightResult :
      (gs : List Goroutine) (n : ℕ) (g : Goroutine)
      → All (HasRightResult t db) gs
      → get_elem? gs n ≡ some g
      → HasRightResult t db g
  get-HasRightResult [] n g a h = absurd (cc)
  get-HasRightResult (x ∷ xs) zero g (p, a) h = let same : x ≡ g = cc in rw same at p
  get-HasRightResult (x ∷ xs) (suc n) g (p, a) h = get-HasRightResult xs n g a h
