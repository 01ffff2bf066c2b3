-- ===== src/Base/Sort/Reordered.antt =====
-- Sorting by a key: the order of what is sorted makes no difference where elements of one key are
-- equal, so that Go's choice between them makes none either.
use mathlib.Core.Path.{◌≡◌, refl, sym, ap, ◌∙◌, subst}
use mathlib.Core.Bool.{Bool, true, false}
use mathlib.Core.Logic.{◌⊎◌, inl, inr}
use mathlib.Core.List.{List, [], ◌∷◌, Permᴰ}
use native.Mathlib.Omega.{arith}
use libfossil.Base.Tests.{Bool-cases}
use libfossil.Base.Lists.{Bytes, All}
use libfossil.Base.Sort.{
  less_bytes, less_bytes_asym, insert, sort, IsAsym, insert_less, insert_stop,
}

module _ {ℓ} {A : Type ℓ} where
  -- What stands behind an element that is no later than another comes behind that other too.
  abbrev pub IsNegTrans : (A → A → Bool) → Type ℓ
  IsNegTrans less = (x y z : A) → less z y ≡ false → less z x ≡ true → less y x ≡ true

  abbrev pub Comparable : (A → A → Bool) → A → A → Type ℓ
  Comparable less x y = (less x y ≡ true) ⊎ ((less y x ≡ true) ⊎ (x ≡ y))

  -- Any two elements are comparable.
  abbrev pub AreComparable : (A → A → Bool) → List A → Type ℓ
  AreComparable less xs = All (λ x. All (Comparable less x) xs) xs

  -- Elements of one key are equal.
  abbrev pub HasOneEach : {K : Type ℓ} → (A → K) → List A → Type ℓ
  HasOneEach key xs = All (λ x. All (λ y. key x ≡ key y → x ≡ y) xs) xs

  All-Perm {κ} : (P : A → Type κ) (xs ys : List A) → Permᴰ xs ys → All P xs → All P ys
  All-Perm P _ _ Permᴰ.nil a = tt
  All-Perm P _ _ (Permᴰ.cons {l₁ = xs} {l₂ = ys} e p) (h, a) = (subst P e h, All-Perm P xs ys p a)
  All-Perm P _ _ (Permᴰ.swap e f) (h, (k, a)) = (subst P f k, (subst P e h, a))
  All-Perm P _ _ (Permᴰ.trans {l₁ = xs} {l₂ = ys} {l₃ = zs} p q) a =
      All-Perm P ys zs q (All-Perm P xs ys p a)

  pub All-implies {κ μ} :
      (P : A → Type κ) (Q : A → Type μ) (xs : List A) → ((x : A) → P x → Q x) → All P xs → All Q xs
  All-implies P Q [] f a = tt
  All-implies P Q (x ∷ xs) f (h, a) = (f x h, All-implies P Q xs f a)

  AreComparable-Perm :
      (less : A → A → Bool) (xs ys : List A)
      → Permᴰ xs ys
      → AreComparable less xs
      → AreComparable less ys
  AreComparable-Perm less xs ys p a =
      All-implies (λ x. All (Comparable less x) xs) (λ x. All (Comparable less x) ys) ys
        (λ x. All-Perm (Comparable less x) xs ys p)
        (All-Perm (λ x. All (Comparable less x) xs) xs ys p a)

  module _ (less : A → A → Bool) (asym : IsAsym less) (neg : IsNegTrans less) where
    swap_inserted :
        (x y : A) (zs : List A)
        → less x y ≡ true
        → insert less x (insert less y zs) ≡ insert less y (insert less x zs)
    swap_inserted x y [] h =
        unfold insert in (insert_stop less x y [] (asym x y h) ∙ sym (insert_less less y x [] h))
    swap_inserted x y (z ∷ zs) h = elim (Bool-cases (less z y)) [
      | inl b ↦ elim (Bool-cases (less z x)) [
        | inl a ↦
            rw
              (
                insert_less less y z zs b,
                insert_less less x z zs a,
                insert_less less x z (insert less y zs) a,
                insert_less less y z (insert less x zs) b,
                swap_inserted x y zs h,
              )
              refl
        | inr a ↦
            rw
              (
                insert_less less y z zs b,
                insert_stop less x z zs a,
                insert_stop less x z (insert less y zs) a,
                insert_less less y x (z ∷ zs) h,
                insert_less less y z zs b,
              )
              refl
      ]
      | inr b ↦ elim (Bool-cases (less z x)) [
        | inl a ↦ let back = neg x y z b a in let forth = asym x y h in absurd (cc)
        | inr a ↦
            rw
              (
                insert_stop less y z zs b,
                insert_stop less x z zs a,
                insert_stop less x y (z ∷ zs) (asym x y h),
                insert_less less y x (z ∷ zs) h,
                insert_stop less y z zs b,
              )
              refl
      ]
    ]

    insert_comm :
        (x y : A) (zs : List A)
        → Comparable less x y
        → insert less x (insert less y zs) ≡ insert less y (insert less x zs)
    insert_comm x y zs (inl h) = swap_inserted x y zs h
    insert_comm x y zs (inr (inl h)) = sym (swap_inserted y x zs h)
    insert_comm x y zs (inr (inr e)) =
        subst (λ w. insert less x (insert less w zs) ≡ insert less w (insert less x zs)) e refl

    pub sort-Perm :
        (xs ys : List A) → Permᴰ xs ys → AreComparable less xs → sort less xs ≡ sort less ys
    unfolding sort
    sort-Perm _ _ Permᴰ.nil a = refl
    sort-Perm _ _ (Permᴰ.cons {a = x} {b = x'} {l₁ = xs} {l₂ = ys} e p) (_, a) =
        let rest : AreComparable less xs =
          All-implies (λ y. All (Comparable less y) (x ∷ xs)) (λ y. All (Comparable less y) xs) xs
            (λ y (_, h). h) a in
        ap (insert less x) (sort-Perm xs ys p rest) ∙ ap (λ w. insert less w (sort less ys)) e
    sort-Perm _ _ (Permᴰ.swap {a = x} {b = y} {a' = y'} {b' = x'} {l = zs} e f) ((_, (h, _)), _) =
        insert_comm x y (sort less zs) h
        ∙ ap (λ w. insert less w (insert less x (sort less zs))) f
        ∙ ap (λ w. insert less y' (insert less w (sort less zs))) e
    sort-Perm _ _ (Permᴰ.trans {l₁ = xs} {l₂ = ys} {l₃ = zs} p q) a =
        sort-Perm xs ys p a ∙ sort-Perm ys zs q (AreComparable-Perm less xs ys p a)

pub less_bytes_total : (a b : Bytes) → Comparable less_bytes a b
unfolding less_bytes
less_bytes_total [] [] = inr (inr refl)
less_bytes_total [] (y ∷ b) = inl refl
less_bytes_total (x ∷ a) [] = inr (inl refl)
less_bytes_total (x ∷ a) (y ∷ b) = elim (less_bytes_total a b) [
  | inl h ↦ grind (arith, inl, inr)
  | inr (inl h) ↦ grind (arith, inl, inr)
  | inr (inr h) ↦ grind (arith, inl, inr)
]

pub less_bytes_neg : IsNegTrans less_bytes
unfolding less_bytes
less_bytes_neg [] [] z h k = cc
less_bytes_neg (a ∷ x) [] z h k = refl
less_bytes_neg x (b ∷ y) [] h k = absurd (cc)
less_bytes_neg [] (b ∷ y) (c ∷ z) h k = absurd (cc)
less_bytes_neg (a ∷ x) (b ∷ y) (c ∷ z) h k = ground (arith, less_bytes_neg x y z)

module _ {A : Type 0} (key : A → Bytes) where
  -- Elements with keys in Go's order on strings.
  abbrev pub by_key : A → A → Bool
  by_key x y = less_bytes (key x) (key y)

  one_key-Comparable : (x y : A) → (key x ≡ key y → x ≡ y) → Comparable by_key x y
  one_key-Comparable x y one = elim (less_bytes_total (key x) (key y)) [
    | inl h ↦ inl h
    | inr (inl h) ↦ inr (inl h)
    | inr (inr h) ↦ inr (inr (one h))
  ]

  -- Sorted by a key that no two different elements share, a list in another order is the same.
  pub sort-by_key :
      (xs ys : List A) → Permᴰ xs ys → HasOneEach key xs → sort by_key xs ≡ sort by_key ys
  sort-by_key xs ys p one =
      sort-Perm by_key (λ x y. less_bytes_asym (key x) (key y))
        (λ x y z. less_bytes_neg (key x) (key y) (key z)) xs ys p
        (All-implies (λ x. All (λ y. key x ≡ key y → x ≡ y) xs) (λ x. All (Comparable by_key x) xs)
          xs
          (λ x.
            All-implies (λ y. key x ≡ key y → x ≡ y) (Comparable by_key x) xs
              (one_key-Comparable x))
          one)

-- Strings are their own keys.
strings-HasOneEach : (xs ys : List Bytes) → All (λ x. All (λ y. x ≡ y → x ≡ y) ys) xs
strings-HasOneEach [] ys = tt
strings-HasOneEach (x ∷ xs) ys = (itself ys, strings-HasOneEach xs ys)
  where
    itself : (ys : List Bytes) → All (λ y. x ≡ y → x ≡ y) ys
    itself [] = tt
    itself (y ∷ ys) = (λ e. e, itself ys)

pub sort-less_bytes : (xs ys : List Bytes) → Permᴰ xs ys → sort less_bytes xs ≡ sort less_bytes ys
sort-less_bytes xs ys p = sort-by_key (λ x. x) xs ys p (strings-HasOneEach xs xs)
