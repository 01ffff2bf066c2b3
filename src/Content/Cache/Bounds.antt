-- ===== src/Content/Cache/Bounds.antt =====
-- internal/content/cache.go: the cache stays within its bound.
use libfossil.Base.{
  ℕ, zero, suc, ◌+◌, ◌-◌, ◌≤◌, ◌≡◌, refl, ap, sym, arith, none, some, List, [], ◌∷◌, ◌==◌, leb,
  Bytes, length, Bool-cases, Option-cases, inl, inr, ok,
}
use libfossil.Content.Cache.{
  Cache, new_cache, find_item, remove_item, move_to_front, expand_begin, expand_end, invalidate,
  clear,
}
use libfossil.Content.Cache.Evict.{total, fits, Evicted, pushed, pushed-Evicted}

abbrev pub HasDistinctItems : List (ℕ × Bytes) → Type 0
HasDistinctItems [] = Unit
HasDistinctItems (e ∷ es) = (find_item es e.0 ≡ none) × HasDistinctItems es

-- `curSize` is the number of bytes held, it is within the bound, and no rid is held twice.
pub record IsBounded (c : Cache) : Type 0 where
  pub sized : c.cur_size ≡ total c.order
  pub bounded : c.cur_size ≤ c.max_size
  pub distinct : HasDistinctItems c.order

total-fits : (bound : ℕ) (es : List (ℕ × Bytes)) → total (fits bound es) ≤ bound
unfolding fits total
total-fits bound [] = omega arith
total-fits bound (e ∷ es) = ground (arith, total-fits (bound - length e.1) es)

find_item-fits :
    (bound : ℕ) (es : List (ℕ × Bytes)) (rid : ℕ)
    → find_item es rid ≡ none
    → find_item (fits bound es) rid ≡ none
unfolding fits find_item
find_item-fits bound [] rid h = refl
find_item-fits bound (e ∷ es) rid h = ground (arith, find_item-fits (bound - length e.1) es rid)

fits-HasDistinctItems :
    (bound : ℕ) (es : List (ℕ × Bytes)) → HasDistinctItems es → HasDistinctItems (fits bound es)
unfolding fits
fits-HasDistinctItems bound [] h = tt
fits-HasDistinctItems bound (e ∷ es) (x, h) = elim (Bool-cases (leb (length e.1) bound)) [
  | inl y ↦ rw y (
    find_item-fits (bound - length e.1) es e.0 x,
    fits-HasDistinctItems (bound - length e.1) es h,
  )
  | inr n0 ↦ rw n0 tt
]

Evicted-IsBounded : (c c' : Cache) → Evicted c c' → HasDistinctItems c.order → IsBounded c'
Evicted-IsBounded c c' (o, z, m) h = record {
  sized = z;
  bounded = omega (arith, total-fits c.max_size c.order, ap total o);
  distinct = rw o (fits-HasDistinctItems c.max_size c.order h);
}

find_item-remove_item :
    (es : List (ℕ × Bytes)) (rid k : ℕ)
    → find_item es k ≡ none
    → find_item (remove_item es rid) k ≡ none
unfolding find_item remove_item
find_item-remove_item [] rid k h = refl
find_item-remove_item (e ∷ es) rid k h = ground (arith, find_item-remove_item es rid k)

find_item-removed :
    (es : List (ℕ × Bytes)) (rid : ℕ)
    → HasDistinctItems es
    → find_item (remove_item es rid) rid ≡ none
unfolding find_item remove_item
find_item-removed [] rid h = refl
find_item-removed (e ∷ es) rid (x, h) = ground (arith, find_item-removed es rid h)

remove_item-HasDistinctItems :
    (es : List (ℕ × Bytes)) (rid : ℕ) → HasDistinctItems es → HasDistinctItems (remove_item es rid)
unfolding remove_item
remove_item-HasDistinctItems [] rid h = tt
remove_item-HasDistinctItems (e ∷ es) rid (x, h) = elim (Bool-cases (e.0 == rid)) [
  | inl y ↦ rw y h
  | inr n0 ↦ rw n0 (find_item-remove_item es rid e.0 x, remove_item-HasDistinctItems es rid h)
]

total-remove_item :
    (es : List (ℕ × Bytes)) (rid : ℕ) (text : Bytes)
    → find_item es rid ≡ some text
    → length text + total (remove_item es rid) ≡ total es
unfolding find_item remove_item total
total-remove_item [] rid text h = absurd (cc)
total-remove_item (e ∷ es) rid text h = ground (arith, total-remove_item es rid text)

module _ (c : Cache) (b : IsBounded c) (rid : ℕ) where
  pub expand_begin-IsBounded : IsBounded (expand_begin c rid).0
  unfolding expand_begin move_to_front total
  expand_begin-IsBounded = elim (Option-cases (find_item c.order rid)) [
    | inl e ↦
        rw (e, expand_begin)
          (record { sized = b.sized; bounded = b.bounded; distinct = b.distinct })
    | inr (text, e) ↦
        rw (e, expand_begin)
          (record {
            sized = omega (arith, b.sized, total-remove_item c.order rid text e);
            bounded = b.bounded;
            distinct = (
              find_item-removed c.order rid b.distinct,
              remove_item-HasDistinctItems c.order rid b.distinct,
            );
          })
  ]

  pub expand_end-IsBounded : (text : Bytes) → IsBounded (expand_end c rid text)
  unfolding expand_end move_to_front total
  expand_end-IsBounded text = elim (Option-cases (find_item c.order rid)) [
    | inl e ↦
        rw (e, expand_end)
          (Evicted-IsBounded (pushed c rid text) _ (pushed-Evicted c rid text b.sized)
            (e, b.distinct))
    | inr (cached, e) ↦
        rw (e, expand_end)
          (record {
            sized = omega (arith, b.sized, total-remove_item c.order rid cached e);
            bounded = b.bounded;
            distinct = (
              find_item-removed c.order rid b.distinct,
              remove_item-HasDistinctItems c.order rid b.distinct,
            );
          })
  ]

  pub invalidate-IsBounded : IsBounded (invalidate c rid)
  unfolding invalidate total
  invalidate-IsBounded = elim (Option-cases (find_item c.order rid)) [
    | inl e ↦ rw (e, invalidate) b
    | inr (text, e) ↦
        rw (e, invalidate)
          (record {
            sized = omega (arith, b.sized, total-remove_item c.order rid text e);
            bounded = omega (arith, b.bounded);
            distinct = remove_item-HasDistinctItems c.order rid b.distinct;
          })
  ]

pub clear-IsBounded : (c : Cache) → IsBounded (clear c)
unfolding clear total
clear-IsBounded c = record { sized = refl; bounded = omega arith; distinct = tt }

pub new_cache-IsBounded : (n : ℕ) (c : Cache) → new_cache n ≡ ok c → IsBounded c × (c.order ≡ [])
unfolding new_cache total
new_cache-IsBounded zero c e = absurd (cc)
new_cache-IsBounded (suc n) c e =
    let start : Cache = record {
      order = [];
      cur_size = 0;
      max_size = suc n;
      hits = 0;
      misses = 0;
    } in
    let same : start ≡ c = cc in
    let b : IsBounded start = record { sized = refl; bounded = omega arith; distinct = tt } in
    (rw same at b, ap (λ (x : Cache). x.order) (sym same))
