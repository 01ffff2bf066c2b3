-- ===== src/Base/Cuts.antt =====
-- Lists that are cut at two places.
use libfossil.Base.{
  ℕ, zero, suc, ◌+◌, ◌-◌, ◌≤◌, ◌≡◌, refl, ap, ◌∙◌, sym, arith, List, [], ◌∷◌, ◌++◌, length,
  get_elem?, take, drop, take-append-drop,
}

module _ {ℓ} {A : Type ℓ} where
  drop-drop : (k i : ℕ) (xs : List A) → drop i (drop k xs) ≡ drop (k + i) xs
  drop-drop zero i xs = ap (λ n. drop n xs) (omega arith)
  drop-drop (suc k) zero [] =
      ap (λ n. drop n []) (let e : suc (k + 0) ≡ suc k + 0 = omega arith in e)
  drop-drop (suc k) (suc i) [] =
      ap (λ n. drop n []) (let e : suc (k + suc i) ≡ suc k + suc i = omega arith in e)
  drop-drop (suc k) i (x ∷ xs) =
      drop-drop k i xs
      ∙ ap (λ n. drop n (x ∷ xs)) (let e : suc (k + i) ≡ suc k + i = omega arith in e)

  pub drop_all : (n : ℕ) (xs : List A) → length xs ≤ n → drop n xs ≡ []
  drop_all zero [] h = refl
  drop_all (suc n) [] h = refl
  drop_all zero (x ∷ xs) h = absurd (omega arith)
  drop_all (suc n) (x ∷ xs) h = drop_all n xs (omega arith)

  drop_to : (k n : ℕ) (xs : List A) → k ≤ n → drop (n - k) (drop k xs) ≡ drop n xs
  drop_to k n xs h = drop-drop k (n - k) xs ∙ ap (λ i. drop i xs) (omega arith)

  -- A suffix is cut at a later place.
  pub drop_cut : (k n : ℕ) (xs : List A) → k ≤ n → take (n - k) (drop k xs) ++ drop n xs ≡ drop k xs
  drop_cut k n xs h =
      ap (λ r. take (n - k) (drop k xs) ++ r) (sym (drop_to k n xs h))
      ∙ take-append-drop (n - k) (drop k xs)

  pub take_sum : (a b : ℕ) (xs : List A) → take a xs ++ take b (drop a xs) ≡ take (a + b) xs
  take_sum zero b xs = ap (λ n. take n xs) (omega arith)
  take_sum (suc a) zero [] =
      ap (λ n. take n []) (let e : suc (a + 0) ≡ suc a + 0 = omega arith in e)
  take_sum (suc a) (suc b) [] =
      ap (λ n. take n []) (let e : suc (a + suc b) ≡ suc a + suc b = omega arith in e)
  take_sum (suc a) b (x ∷ xs) =
      ap (λ r. x ∷ r) (take_sum a b xs)
      ∙ ap (λ n. take n (x ∷ xs)) (let e : suc (a + b) ≡ suc a + b = omega arith in e)

  pub take_cut :
      (k m n : ℕ) (xs : List A)
      → k ≤ m
      → m ≤ n
      → take (m - k) (drop k xs) ++ take (n - m) (drop m xs) ≡ take (n - k) (drop k xs)
  take_cut k m n xs h g =
      ap (λ r. take (m - k) (drop k xs) ++ take (n - m) r) (sym (drop_to k m xs h))
      ∙ take_sum (m - k) (n - m) (drop k xs)
      ∙ ap (λ i. take i (drop k xs)) (omega arith)

  -- What is known at an index that has an element.
  pub drop-cons :
      (i : ℕ) (xs : List A) (a : A) (rest : List A)
      → drop i xs ≡ a ∷ rest
      → (take 1 (drop i xs) ≡ a ∷ []) × (drop (suc i) xs ≡ rest)
  drop-cons zero xs a rest h = (rw h, rw h)
  drop-cons (suc i) [] a rest h = cc
  drop-cons (suc i) (x ∷ xs) a rest h = drop-cons i xs a rest h

  pub get_elem?-drop :
      (p : ℕ) (xs : List A) (i : ℕ) → get_elem? (drop p xs) i ≡ get_elem? xs (p + i)
  get_elem?-drop zero xs i = let e : i ≡ 0 + i = omega arith in ap (λ n. get_elem? xs n) e
  get_elem?-drop (suc p) [] i = refl
  get_elem?-drop (suc p) (x ∷ xs) i =
      let e : suc (p + i) ≡ suc p + i = omega arith in
      get_elem?-drop p xs i ∙ ap (λ n. get_elem? (x ∷ xs) n) e
