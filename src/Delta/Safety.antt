-- ===== src/Delta/Safety.antt =====
-- `Apply` of internal/delta/delta.go on any input, well formed or not.
use libfossil.Base.{
  ℕ, zero, suc, ◌+◌, ◌*◌, ◌%◌, ◌^◌, ◌≤◌, ◌<◌, ◌≡◌, inl, inr, refl, ◌∙◌, arith, true, false, Bool,
  [], ◌∷◌, ◌++◌, not, ltb, ◌==◌, if◌then◌else◌, Bytes, length, length-drop, ok, err, panicked,
  le→ltb, lt→ltb, suc-==-zero, Returns, Returns->>=_eq, Returns->>=, Returns-mono, Returns-if,
  Option-cases,
}
use libfossil.Delta.{
  invalid, Result, Reader, get_char_of, copy_slice, command, digits, get_int_loop, get_int,
  get_char, int_exceeds, slice, Round, done, more, copy_command, insert_command, end_command,
  apply_round, has_more, apply_loop, apply,
}
use libfossil.Delta.Ints.{int_text, get_int-int_text}
use libfossil.Delta.Apply.{length-header}
use libfossil.Delta.Commands.{InMemory, not_digit}

-- The reader has moved on by `n` bytes at least.
abbrev Moved : ℕ → ℕ → ℕ → Reader → Type 0
Moved size len n r = (r.size ≡ size) × (length r.rest + n ≤ len)

-- What `getInt` and `getChar` return: a value, and the reader behind it.
abbrev Reads : ℕ → ℕ → ℕ → ℕ × Reader → Type 0
Reads size len n p = Moved size len n p.1

stop-Reads :
    (size v : ℕ) (cs : Bytes) (started : Bool)
    → Returns (Reads size (length cs) (if started then 0 else 1)) (
        if◌then◌else◌ {A = Result (ℕ × Reader)} started
          (ok (v, record { size = size; rest = cs }))
          (err invalid))
stop-Reads size v cs true = (refl, omega arith)
stop-Reads size v cs false = tt

get_int_loop-Reads :
    (size : ℕ) (cs : Bytes) (v : ℕ) (started : Bool)
    → Returns (Reads size (length cs) (if started then 0 else 1)) (get_int_loop size cs v started)
unfolding get_int_loop
get_int_loop-Reads size [] v started = stop-Reads size v [] started
get_int_loop-Reads size (c ∷ cs) v started = elim (Option-cases (digits c)) [
  | inl e ↦ rw (e, get_int_loop) (stop-Reads size v (c ∷ cs) started)
  | inr (d, e) ↦
      rw (e, get_int_loop)
        (Returns-mono (Reads size (length cs) 0)
          (Reads size (suc (length cs)) (if started then 0 else 1))
          (get_int_loop size cs ((v * 64 + d) % 2 ^ 64) true) (λ a h. ground arith)
          (get_int_loop-Reads size cs ((v * 64 + d) % 2 ^ 64) true))
]

get_int-Reads : (r : Reader) → Returns (Reads r.size (length r.rest) 1) (get_int r)
unfolding get_int
get_int-Reads r = get_int_loop-Reads r.size r.rest 0 false

get_char_of-Reads : (size : ℕ) (s : Bytes) → Returns (Reads size (length s) 1) (get_char_of size s)
unfolding get_char_of
get_char_of-Reads size [] = tt
get_char_of-Reads size (c ∷ cs) = (refl, omega arith)

get_char-Reads : (r : Reader) → Returns (Reads r.size (length r.rest) 1) (get_char r)
unfolding get_char
get_char-Reads r = get_char_of-Reads r.size r.rest

-- What a round of the loop returns: the output as it stands, at the length that the header names,
-- or a reader that has moved on.
abbrev RoundOk : ℕ → ℕ → ℕ → Bytes → Round → Type 0
RoundOk size len n out (done text) = (text ≡ out) × (length text ≡ n)
RoundOk size len n out (more _ r) = Moved size len 1 r

ltb-false : (a b : ℕ) → ltb a b ≡ false → b ≤ a
ltb-false a b h = ground arith

copy_slice-RoundOk :
    (source out : Bytes) (offset cnt n : ℕ) (r : Reader)
    → InMemory source
    → Returns (RoundOk r.size (length r.rest + 1) n out) (copy_slice source out offset cnt r)
unfolding copy_slice slice int_exceeds
copy_slice-RoundOk source out offset cnt n r m = ground arith

insert_command-RoundOk :
    (out : Bytes) (cnt n : ℕ) (r : Reader)
    → r.size < 2 ^ 62
    → length r.rest ≤ r.size
    → Returns (RoundOk r.size (length r.rest + 1) n out) (insert_command out cnt r)
unfolding insert_command slice int_exceeds
insert_command-RoundOk out cnt n r s h = ground (arith, length-drop cnt r.rest)

end_command-RoundOk :
    (out : Bytes) (cnt n size len : ℕ) → Returns (RoundOk size len n out) (end_command n out cnt)
unfolding end_command
end_command-RoundOk out cnt n size len = ground arith

RoundOk-mono :
    (size len len' n : ℕ) (out : Bytes) (m : Result Round)
    → len ≤ len'
    → Returns (RoundOk size len n out) m
    → Returns (RoundOk size len' n out) m
RoundOk-mono size len len' n out m h =
    Returns-mono (RoundOk size len n out) (RoundOk size len' n out) m λ round r. step round r
  where
    step : (round : Round) → RoundOk size len n out round → RoundOk size len' n out round
    step (done text) r = r
    step (more _ r') r = ground arith

module _ (source : Bytes) (n : ℕ) (m : InMemory source) where
  copy_command-RoundOk :
      (out : Bytes) (cnt : ℕ) (r : Reader)
      → Returns (RoundOk r.size (length r.rest) n out) (copy_command source out cnt r)
  unfolding copy_command
  copy_command-RoundOk out cnt r = Returns->>= _ _ (get_int r) _ (get_int-Reads r) λ p h.
      Returns->>= _ _ (get_char p.1) _ (get_char-Reads p.1) λ q k.
        Returns-if (RoundOk r.size (length r.rest) n out) (not (q.0 == b',')) _ _ tt (
          RoundOk-mono r.size (length q.1.rest + 1) (length r.rest) n out _ (omega arith)
            (moved_on out p.0 r.size q.1 (k.0 ∙ h.0)))
    where
      moved_on :
          (out : Bytes) (offset size : ℕ) (r : Reader)
          → r.size ≡ size
          → Returns (RoundOk size (length r.rest + 1) n out) (copy_slice source out offset cnt r)
      moved_on out offset size r e = rw (← e) (copy_slice-RoundOk source out offset cnt n r m)

  command-RoundOk :
      (out : Bytes) (cnt cmd : ℕ) (r : Reader)
      → r.size < 2 ^ 62
      → length r.rest ≤ r.size
      → Returns (RoundOk r.size (length r.rest + 1) n out) (command source n out cnt cmd r)
  unfolding command
  command-RoundOk out cnt cmd r s h =
      Returns-if P (cmd == b'@') _ _
        (RoundOk-mono r.size (length r.rest) _ n out _ (omega arith)
          (copy_command-RoundOk out cnt r))
        (Returns-if P (cmd == b':') _ _ (insert_command-RoundOk out cnt n r s h) (
          Returns-if P (cmd == b';') _ _ (end_command-RoundOk out cnt n r.size (length r.rest + 1))
            tt))
    where
      P : Round → Type 0
      P = RoundOk r.size (length r.rest + 1) n out

  -- A round returns the output, or moves on, or fails with an error; it never panics.
  apply_round-RoundOk :
      (out : Bytes) (r : Reader)
      → r.size < 2 ^ 62
      → length r.rest ≤ r.size
      → Returns (RoundOk r.size (length r.rest) n out) (apply_round source n out r)
  unfolding apply_round
  apply_round-RoundOk out r s h = Returns->>= _ _ (get_int r) _ (get_int-Reads r) λ p h1.
      Returns->>= _ _ (get_char p.1) _ (get_char-Reads p.1) λ q h2.
        RoundOk-mono r.size (length q.1.rest + 1) (length r.rest) n out _ (omega arith)
          (at_size out p.0 q.0 r.size q.1 (h2.0 ∙ h1.0) s (omega arith))
    where
      at_size :
          (out : Bytes) (cnt cmd size : ℕ) (r : Reader)
          → r.size ≡ size
          → size < 2 ^ 62
          → length r.rest ≤ size
          → Returns (RoundOk size (length r.rest + 1) n out) (command source n out cnt cmd r)
      at_size out cnt cmd size r e s h =
          rw (← e) (command-RoundOk out cnt cmd r (omega arith) (omega arith))

  -- The loop ends, for every reader, with a text of the length that the header names or an error.
  apply_loop-Returns :
      (fuel : ℕ) (out : Bytes) (r : Reader)
      → r.size < 2 ^ 62
      → length r.rest ≤ r.size
      → length r.rest < fuel
      → Returns (λ text. length text ≡ n) (apply_loop source n fuel out r)
  unfolding apply_loop
  apply_loop-Returns zero out r s h f = absurd (omega arith)
  apply_loop-Returns (suc fuel) out r s h f = Returns-if _ (not (has_more r.rest)) _ _ tt (
      Returns->>= (RoundOk r.size (length r.rest) n out) _ (apply_round source n out r) _
        (apply_round-RoundOk out r s h) (step (apply_loop-Returns fuel)))
    where
      step :
          ((out : Bytes) (r : Reader)
            → r.size < 2 ^ 62
            → length r.rest ≤ r.size
            → length r.rest < fuel
            → Returns (λ text. length text ≡ n) (apply_loop source n fuel out r))
          → (round : Round) → RoundOk r.size (length r.rest) n out round
          → Returns
              (λ text. length text ≡ n)
              (elim round [ done text ↦ ok text | more text r' ↦ apply_loop source n fuel text r' ])
      step later (done text) ended = ended.1
      step later (more text r') moved = later text r' (omega arith) (omega arith) (omega arith)

-- The header of a delta names the length of a text.
abbrev pub HeaderSays : Bytes → ℕ → Type 0
HeaderSays delta n =
    (r : Reader) × (get_int (record { size = length delta; rest = delta }) ≡ ok (n, r))

-- On every source and delta in memory whose header names a length that can be allocated, `Apply`
-- ends with an error or with a text of just that length: no panic, no read out of bounds.
pub apply-Returns :
    (max_cap : ℕ) (source delta : Bytes)
    → InMemory source
    → InMemory delta
    → ((n : ℕ) → HeaderSays delta n → n ≤ max_cap)
    → Returns (λ text. HeaderSays delta (length text)) (apply max_cap source delta)
unfolding apply
apply-Returns max_cap source delta ms md fits = Returns-if _ (length delta == 0) _ _ tt (
    Returns->>=_eq _ _ (get_int start) _ (get_int-Reads start) λ p e h.
      Returns->>= _ _ (get_char p.1) _ (get_char-Reads p.1) λ q h2.
        Returns-if _ (not (q.0 == b'\n')) _ _ tt (
          rw (le→ltb max_cap p.0 (fits p.0 (p.1, e))) (
            Returns-mono (λ text. length text ≡ p.0) _ _ (λ text l. rw l (p.1, e))
              (apply_loop-Returns source p.0 ms (suc (length delta)) [] q.1 (omega arith)
                (omega arith) (omega arith)))))
  where
    start : Reader
    start = record { size = length delta; rest = delta }

-- A header that names a uint64 beyond what can be allocated makes `Apply` panic, whatever the source
-- and whatever follows.
pub apply_huge_header :
    (max_cap n : ℕ) (source rest : Bytes)
    → n < 2 ^ 64
    → max_cap < n
    → apply max_cap source (int_text n ++ b'\n' ∷ rest) ≡ panicked
unfolding apply get_char
apply_huge_header max_cap n source rest h cap =
    rw (length-header n rest, get_int-int_text _ n (b'\n' ∷ rest) h not_digit.4)
      (rw (lt→ltb max_cap n cap))

-- No delta begins with the byte 0.
pub apply_zero : (max_cap : ℕ) (source rest : Bytes) → apply max_cap source (0 ∷ rest) ≡ err invalid
unfolding apply get_int get_int_loop digits
apply_zero max_cap source rest = rw (suc-==-zero (length rest)) refl
