-- ===== src/Base/Sort.antt =====
-- Go's order on strings, and `sort.Slice` as an insertion sort, which keeps elements of equal keys in
-- their order; Go leaves their order open.
pub mod Reordered
use mathlib.Core.Path.{◌≡◌, refl, subst}
use mathlib.Core.Bool.{Bool, true, false, ◌&&◌, ◌||◌}
use mathlib.Core.Logic.{inl, inr}
use mathlib.Core.List.{List, [], ◌∷◌}
use native.Mathlib.Omega.{arith}
use Prim.Native.Nat.{suc}
use libfossil.Base.Tests.{ltb, ◌==◌, if◌then◌else◌, Bool-cases}
use libfossil.Base.Lists.{Bytes, length, All}

unfoldable pub less_bytes : Bytes → Bytes → Bool
less_bytes _ [] = false
less_bytes [] (y ∷ ys) = true
less_bytes (x ∷ xs) (y ∷ ys) = ltb x y || (x == y && less_bytes xs ys)

pub less_bytes_asym : (a b : Bytes) → less_bytes a b ≡ true → less_bytes b a ≡ false
unfolding less_bytes
less_bytes_asym _ [] h = absurd (cc)
less_bytes_asym [] (y ∷ b) h = refl
less_bytes_asym (x ∷ a) (y ∷ b) h = ground (arith, less_bytes_asym a b)

module _ {ℓ} {A : Type ℓ} where
  unfoldable pub insert : (A → A → Bool) → A → List A → List A
  insert less x [] = x ∷ []
  insert less x (y ∷ ys) = let rest = insert less x ys in if less y x then y ∷ rest else x ∷ y ∷ ys

  unfoldable pub sort : (A → A → Bool) → List A → List A
  sort less [] = []
  sort less (x ∷ xs) = insert less x (sort less xs)

  -- No element is less than the one in front of it.
  abbrev pub IsSorted : (A → A → Bool) → List A → Type 0
  IsSorted less [] = Unit
  IsSorted less (x ∷ []) = Unit
  IsSorted less (x ∷ y ∷ ys) = (less y x ≡ false) × IsSorted less (y ∷ ys)

  abbrev pub IsAsym : (A → A → Bool) → Type ℓ
  IsAsym less = (x y : A) → less x y ≡ true → less y x ≡ false

  insert-All {κ} :
      (P : A → Type κ) (less : A → A → Bool) (x : A) (ys : List A)
      → P x
      → All P ys
      → All P (insert less x ys)
  unfolding insert
  insert-All P less x [] hx h = (hx, tt)
  insert-All P less x (y ∷ ys) hx (hy, h) = elim (Bool-cases (less y x)) [
    | inl e ↦ rw e (hy, insert-All P less x ys hx h)
    | inr e ↦ rw e (hx, (hy, h))
  ]

  pub sort-All {κ} :
      (P : A → Type κ) (less : A → A → Bool) (xs : List A) → All P xs → All P (sort less xs)
  unfolding sort
  sort-All P less [] h = tt
  sort-All P less (x ∷ xs) (hx, h) = insert-All P less x (sort less xs) hx (sort-All P less xs h)

  pub insert_less :
      (less : A → A → Bool) (x y : A) (ys : List A)
      → less y x ≡ true
      → insert less x (y ∷ ys) ≡ y ∷ insert less x ys
  unfolding insert
  insert_less less x y ys e = rw e refl

  pub insert_stop :
      (less : A → A → Bool) (x y : A) (ys : List A)
      → less y x ≡ false
      → insert less x (y ∷ ys) ≡ x ∷ y ∷ ys
  unfolding insert
  insert_stop less x y ys e = rw e refl

  insert-IsSorted :
      (less : A → A → Bool) (x : A) (ys : List A)
      → IsAsym less
      → IsSorted less ys
      → IsSorted less (insert less x ys)
  unfolding insert
  insert-IsSorted less x [] asym h = tt
  insert-IsSorted less x (y ∷ []) asym h = elim (Bool-cases (less y x)) [
    | inl e ↦ rw e (asym y x e, tt)
    | inr e ↦ rw e (e, tt)
  ]
  insert-IsSorted less x (y ∷ z ∷ ys) asym (hy, h) = elim (Bool-cases (less y x)) [
    | inl e ↦
        let more : IsSorted less (insert less x (z ∷ ys)) =
          insert-IsSorted less x (z ∷ ys) asym h in
        elim (Bool-cases (less z x)) [
          | inl f ↦
              rw (insert_less less x y (z ∷ ys) e, insert_less less x z ys f)
                (hy, subst (λ (l : List A). IsSorted less l) (insert_less less x z ys f) more)
          | inr f ↦
              rw (insert_less less x y (z ∷ ys) e, insert_stop less x z ys f) (asym y x e, (f, h))
        ]
    | inr e ↦ rw (insert_stop less x y (z ∷ ys) e) (e, (hy, h))
  ]

  pub sort-IsSorted :
      (less : A → A → Bool) (xs : List A) → IsAsym less → IsSorted less (sort less xs)
  unfolding sort
  sort-IsSorted less [] asym = tt
  sort-IsSorted less (x ∷ xs) asym =
      insert-IsSorted less x (sort less xs) asym (sort-IsSorted less xs asym)

  insert_front :
      (less : A → A → Bool) (x : A) (ys : List A)
      → IsSorted less (x ∷ ys)
      → insert less x ys ≡ x ∷ ys
  unfolding insert
  insert_front less x [] h = refl
  insert_front less x (y ∷ ys) (e, h) = rw e refl

  sort_sorted : (less : A → A → Bool) (xs : List A) → IsSorted less xs → sort less xs ≡ xs
  unfolding sort
  sort_sorted less [] h = refl
  sort_sorted less (x ∷ []) h = unfold insert in refl
  sort_sorted less (x ∷ y ∷ ys) (e, h) =
      rw (sort_sorted less (y ∷ ys) h) (insert_front less x (y ∷ ys) (e, h))

  -- Sorting twice is sorting once.
  pub sort-sort :
      (less : A → A → Bool) (xs : List A) → IsAsym less → sort less (sort less xs) ≡ sort less xs
  sort-sort less xs asym = sort_sorted less (sort less xs) (sort-IsSorted less xs asym)

  length-insert :
      (less : A → A → Bool) (x : A) (ys : List A) → length (insert less x ys) ≡ suc (length ys)
  unfolding insert
  length-insert less x [] = refl
  length-insert less x (y ∷ ys) = ground (arith, length-insert less x ys)

  pub length-sort : (less : A → A → Bool) (xs : List A) → length (sort less xs) ≡ length xs
  unfolding sort
  length-sort less [] = refl
  length-sort less (x ∷ xs) =
      omega (arith, length-sort less xs, length-insert less x (sort less xs))
