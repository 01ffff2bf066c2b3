-- ===== src/Bisect/Ends.antt =====
-- internal/bisect/bisect.go: the two ends in the table vvar.
use libfossil.Base.{
  ℕ, zero, suc, ◌^◌, ◌<◌, ◌≡◌, inl, inr, refl, ap, ◌∙◌, subst, arith, false, ◌==◌, length, ok,
  >>=-ok, Bool-cases,
}
use libfossil.Base.Int.{ℤ, pos, negsuc}
use libfossil.Text.{format_nat, format_int}
use libfossil.Text.Decimal.{format_nat-IsDigit, parse_int-format_int}
use libfossil.Bisect.{Session, mark_good, mark_bad, append_log_entry, load_endpoints, parse_rid}

-- Both variables are set, and they are numbers.
pub AreEnds : Session → ℤ → ℤ → Type 0
AreEnds s g b =
    ((length s.good == 0) ≡ false)
    × ((length s.bad == 0) ≡ false)
    × (parse_rid s.good ≡ ok g)
    × (parse_rid s.bad ≡ ok b)

pub load_endpoints-AreEnds : (s : Session) (g b : ℤ) → load_endpoints s ≡ ok (g, b) → AreEnds s g b
unfolding load_endpoints AreEnds
load_endpoints-AreEnds s g b h = elim (Bool-cases (length s.good == 0)) [
  | inl y ↦ absurd (let h' = rw (y, load_endpoints) at h in cc)
  | inr n0 ↦ elim (Bool-cases (length s.bad == 0)) [
    | inl y ↦ absurd (let h' = rw (n0, y, load_endpoints) at h in cc)
    | inr n1 ↦
        let h' = rw (n0, n1, load_endpoints) at h in
        let (g', eg, k) = >>=-ok (parse_rid s.good) _ (g, b) h' in
        let (b', eb, l) = >>=-ok (parse_rid s.bad) _ (g, b) k in
        let sg : g' ≡ g = cc in let sb : b' ≡ b = cc in (n0, n1, eg ∙ ap ok sg, eb ∙ ap ok sb)
  ]
]

pub AreEnds-load_endpoints : (s : Session) (g b : ℤ) → AreEnds s g b → load_endpoints s ≡ ok (g, b)
unfolding load_endpoints AreEnds
AreEnds-load_endpoints s g b (n0, n1, eg, eb) = rw (n0, n1, eg, eb, load_endpoints) refl

parse_rid-format_nat :
    (n : ℕ)
    → n < 2 ^ 63
    → ((length (format_nat n) == 0) ≡ false) × (parse_rid (format_nat n) ≡ ok (pos n))
unfolding parse_rid format_int
parse_rid-format_nat n h =
    let l = (format_nat-IsDigit n).1 in
    (nonzero _ l, rw (parse_int-format_int (pos n) h, parse_rid) refl)
  where
    nonzero : (k : ℕ) → 0 < k → (k == 0) ≡ false
    nonzero k h = ground arith

pub mark_good-AreEnds :
    (s s' : Session) (r : ℕ) (g b : ℤ)
    → r < 2 ^ 63
    → mark_good s r ≡ ok s'
    → AreEnds s g b
    → (0 < r) × AreEnds s' (pos r) b
unfolding mark_good AreEnds
mark_good-AreEnds s s' zero g b f h e = absurd (cc)
mark_good-AreEnds s s' (suc n) g b f h (_, n1, _, eb) =
    let t : Session = record s {
      good = format_nat (suc n);
      log = append_log_entry s.log (format_nat (suc n));
    } in
    let same : t ≡ s' = cc in
    let (l, p) = parse_rid-format_nat (suc n) f in
    (omega arith, subst (λ z. AreEnds z (pos (suc n)) b) same (l, n1, p, eb))

pub mark_bad-AreEnds :
    (s s' : Session) (r : ℕ) (g b : ℤ)
    → r < 2 ^ 63
    → mark_bad s r ≡ ok s'
    → AreEnds s g b
    → (0 < r) × AreEnds s' g (pos r)
unfolding mark_bad AreEnds
mark_bad-AreEnds s s' zero g b f h e = absurd (cc)
mark_bad-AreEnds s s' (suc n) g b f h (n0, _, eg, _) =
    let t : Session = record s {
      bad = format_nat (suc n);
      log = append_log_entry s.log (format_int (negsuc n));
    } in
    let same : t ≡ s' = cc in
    let (l, p) = parse_rid-format_nat (suc n) f in
    (omega arith, subst (λ z. AreEnds z g (pos (suc n))) same (n0, l, eg, p))
