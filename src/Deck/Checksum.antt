-- ===== src/Deck/Checksum.antt =====
-- internal/deck/zcard.go: `VerifyZ`, which accepts a text just if it ends in the card of its checksum.
use libfossil.Base.{
  ◌≤◌, subst, sym, le→ltb, length-drop, take-append-drop, ℕ, zero, suc, refl, arith, ap, ◌∙◌,
  length-append, take_append_length, drop_append_length, equal_iff, ◌-◌, ◌≡◌, Bool, true, false,
  not, ◌||◌, ◌↔◌, Option, none, some, [], ◌∷◌, ◌++◌, ltb, ◌==◌, if◌then◌else◌, Bytes, length, take,
  drop, get_elem?, equal,
}
use libfossil.Deck.Artifact.{Environment, Error, too_short, bad_z_card, mismatch}
use libfossil.Deck.Marshal.{compute_z, z_card, line_of}

unfoldable pub byte_is : Bytes → ℕ → ℕ → Bool
byte_is s i c = elim (get_elem? s i) [ none ↦ false | some x ↦ x == c ]

-- `nil` is `none`.
unfoldable pub verify_z : {T : Type 0} → Environment T → Bytes → Option Error
verify_z env text =
    let body = take (length text - 35) text in
    let tail = drop (length text - 35) text in
    if ltb (length text) 35
    then some too_short
    else if not (byte_is tail 0 b'Z') || not (byte_is tail 1 b' ') || not (byte_is tail 34 b'\n')
    then some bad_z_card
    else if not (equal (compute_z env body) (take 32 (drop 2 tail)))
    then some mismatch
    else none

pub length-z_card :
    {T : Type 0} (env : Environment T) (body : Bytes) → length (z_card env body) ≡ 35
unfolding z_card line_of compute_z
length-z_card env body =
    omega (arith, length-append (env.md5_hex body) (b'\n' ∷ []), env.length-md5_hex body)

-- The text in front of the card Z, and the card.
pub cut_body :
    {T : Type 0} (env : Environment T) (body : Bytes)
    → take (length (body ++ z_card env body) - 35) (body ++ z_card env body) ≡ body
cut_body env body =
    let e : length (body ++ z_card env body) - 35 ≡ length body =
      omega (arith, length-append body (z_card env body), length-z_card env body) in
    rw e (take_append_length body (z_card env body))

cut_tail :
    {T : Type 0} (env : Environment T) (body : Bytes)
    → drop (length (body ++ z_card env body) - 35) (body ++ z_card env body) ≡ z_card env body
cut_tail env body =
    let e : length (body ++ z_card env body) - 35 ≡ length body =
      omega (arith, length-append body (z_card env body), length-z_card env body) in
    rw e (drop_append_length body (z_card env body))

byte_is_last : (s : Bytes) (c : ℕ) → byte_is (s ++ c ∷ []) (length s) c ≡ true
unfolding byte_is
byte_is_last [] c = ground arith
byte_is_last (x ∷ s) c = byte_is_last s c

last_of_byte :
    (n : ℕ) (s : Bytes) (c : ℕ) → length s ≡ suc n → byte_is s n c ≡ true → s ≡ take n s ++ c ∷ []
unfolding byte_is
last_of_byte n [] c l h = absurd (omega arith)
last_of_byte zero (x ∷ []) c l h = ground arith
last_of_byte zero (x ∷ y ∷ s) c l h = absurd (omega arith)
last_of_byte (suc n) (x ∷ s) c l h = ap (◌∷◌ x) (last_of_byte n s c (omega arith) h)

line_of_tail :
    (t : Bytes)
    → length t ≡ 35
    → byte_is t 0 b'Z' ≡ true
    → byte_is t 1 b' ' ≡ true
    → byte_is t 34 b'\n' ≡ true
    → t ≡ line_of b'Z' (take 32 (drop 2 t))
unfolding line_of byte_is
line_of_tail [] l a b c = absurd (omega arith)
line_of_tail (x ∷ []) l a b c = absurd (omega arith)
line_of_tail (x ∷ y ∷ s) l a b c =
    let ex : x ≡ b'Z' = ground arith in
    let ey : y ≡ b' ' = ground arith in
    let e : s ≡ take 32 s ++ b'\n' ∷ [] = last_of_byte 32 s b'\n' (omega arith) c in
    rw (ex, ey) (ap (λ (r : Bytes). b'Z' ∷ b' ' ∷ r) e)

-- The bytes that `VerifyZ` looks at, and the checksum.
z_card_bytes :
    {T : Type 0} (env : Environment T) (body : Bytes)
    → (byte_is (z_card env body) 0 b'Z' ≡ true)
      × (byte_is (z_card env body) 1 b' ' ≡ true)
      × (byte_is (z_card env body) 34 b'\n' ≡ true)
      × (take 32 (drop 2 (z_card env body)) ≡ compute_z env body)
unfolding z_card line_of byte_is compute_z
z_card_bytes env body = (
  refl,
  refl,
  subst (λ (n : ℕ). byte_is (env.md5_hex body ++ b'\n' ∷ []) n b'\n' ≡ true)
      (env.length-md5_hex body) (byte_is_last (env.md5_hex body) b'\n'),
  subst (λ (n : ℕ). take n (env.md5_hex body ++ b'\n' ∷ []) ≡ env.md5_hex body)
      (env.length-md5_hex body) (take_append_length (env.md5_hex body) (b'\n' ∷ [])),
)

pub verify_z-z_card :
    {T : Type 0} (env : Environment T) (body : Bytes)
    → verify_z env (body ++ z_card env body) ≡ none
unfolding verify_z
verify_z-z_card env body =
    let (a, b, c, s) = z_card_bytes env body in
    let long : ltb (length (body ++ z_card env body)) 35 ≡ false =
      le→ltb (length (body ++ z_card env body)) 35
        (omega (arith, length-append body (z_card env body), length-z_card env body)) in
    rw
      (
        cut_body env body,
        cut_tail env body,
        long,
        a,
        b,
        c,
        s,
        (equal_iff (compute_z env body) (compute_z env body)).1 refl,
      )
      refl

tests_passed :
    (a b c d e : Bool)
    → (if a
        then some too_short
        else if not b || not c || not d
        then some bad_z_card
        else if not e
        then some mismatch
        else none)
      ≡ none
    → (a ≡ false) × (b ≡ true) × (c ≡ true) × (d ≡ true) × (e ≡ true)
tests_passed a b c d e h = ground arith

verify_z-split :
    {T : Type 0} (env : Environment T) (text : Bytes)
    → verify_z env text ≡ none
    → text ≡ take (length text - 35) text ++ z_card env (take (length text - 35) text)
unfolding verify_z
verify_z-split env text h =
    let body : Bytes = take (length text - 35) text in
    let tail : Bytes = drop (length text - 35) text in
    let (s, a, b, c, e) =
      tests_passed (ltb (length text) 35) (byte_is tail 0 b'Z') (byte_is tail 1 b' ')
        (byte_is tail 34 b'\n') (equal (compute_z env body) (take 32 (drop 2 tail))) h in
    let long : 35 ≤ length text = ground arith in
    let t : tail ≡ line_of b'Z' (take 32 (drop 2 tail)) =
      line_of_tail tail (omega (arith, length-drop (length text - 35) text)) a b c in
    let z : z_card env body ≡ tail =
      unfold z_card in
      ap (line_of b'Z') ((equal_iff (compute_z env body) (take 32 (drop 2 tail))).0 e) ∙ sym t in
    sym (take-append-drop (length text - 35) text) ∙ ap (λ (r : Bytes). body ++ r) (sym z)

-- `VerifyZ` accepts just the texts that end in the card Z with the checksum of what is in front of it.
pub verify_z_iff :
    {T : Type 0} (env : Environment T) (text : Bytes)
    → (verify_z env text ≡ none) ↔ ((body : Bytes) × (text ≡ body ++ z_card env body))
verify_z_iff env text = (
  λ h. (take (length text - 35) text, verify_z-split env text h),
  λ (body, e). rw e (verify_z-z_card env body),
)
