-- ===== src/Spec/Version/Decimal.antt =====
-- Decimal numbers: what `%d` prints is one or more digits, and `Sscanf` reads the number back.
use event_spec.Prelude.{
  ℕ, zero, suc, ◌+◌, ◌/◌, ◌%◌, ◌<◌, ◌≡◌, refl, Text, [], ◌∷◌, some, true, All, arith, ltb, ap,
  subst, Bool-cases, inl, inr,
}
use event_spec.Prelude.Int.{pos, int_limit}
use event_spec.Spec.Version.{
  is_digit, is_space, skip_space, scan_value, scan_number, positive, scan_signed, sscanf_d,
  decimal_digits, decimal,
}

abbrev pub IsDigit : ℕ → Type 0
IsDigit c = is_digit c ≡ true

decimal_digits-IsDigit :
    (fuel n : ℕ) (out : Text) → All IsDigit out → All IsDigit (decimal_digits fuel n out)
unfolding decimal_digits
decimal_digits-IsDigit zero n out h = h
decimal_digits-IsDigit (suc fuel) n out h = elim (Bool-cases (ltb n 10)) [
  | inl small ↦ rw small (ground arith, h)
  | inr large ↦
      rw large (decimal_digits-IsDigit fuel (n / 10) ((b'0' + n % 10) ∷ out) (ground arith, h))
]

pub decimal-IsDigit : (n : ℕ) → All IsDigit (decimal n)
unfolding decimal
decimal-IsDigit n = decimal_digits-IsDigit (suc n) n [] tt

scan-decimal_digits :
    (fuel n : ℕ) (out : Text)
    → n < fuel
    → scan_value (decimal_digits fuel n out) 0 ≡ scan_value out n
unfolding decimal_digits scan_value
scan-decimal_digits zero n out h = elim h [ ]
scan-decimal_digits (suc fuel) n out h = elim (Bool-cases (ltb n 10)) [
  | inl small ↦ rw small (ground arith)
  | inr large ↦ rw large (ground (arith, scan-decimal_digits fuel (n / 10) ((b'0' + n % 10) ∷ out)))
]

-- Printing and reading back the value of the digits.
pub scan-decimal : (n : ℕ) → scan_value (decimal n) 0 ≡ n
unfolding decimal scan_value
scan-decimal n = scan-decimal_digits (suc n) n [] (omega arith)

decimal_digits-cons :
    (fuel n : ℕ) (c : ℕ) (out : Text)
    → (d : ℕ) × (s : Text) × (decimal_digits fuel n (c ∷ out) ≡ d ∷ s)
unfolding decimal_digits
decimal_digits-cons zero n c out = (c, out, refl)
decimal_digits-cons (suc fuel) n c out = elim (Bool-cases (ltb n 10)) [
  | inl small ↦ (b'0' + n, c ∷ out, rw small refl)
  | inr large ↦
      let (d, s, e) = decimal_digits-cons fuel (n / 10) (b'0' + n % 10) (c ∷ out) in
      (d, s, rw large e)
]

pub decimal-cons : (n : ℕ) → (d : ℕ) × (s : Text) × (decimal n ≡ d ∷ s)
unfolding decimal decimal_digits
decimal-cons n = elim (Bool-cases (ltb n 10)) [
  | inl small ↦ (b'0' + n, [], rw small refl)
  | inr large ↦
      let (d, s, e) = decimal_digits-cons n (n / 10) (b'0' + n % 10) [] in (d, s, rw large e)
]

skip_space-digit : (d : ℕ) (s : Text) → IsDigit d → skip_space (d ∷ s) ≡ some (d ∷ s)
unfolding skip_space is_space
skip_space-digit d s h = ground arith

-- A text that begins with a digit is read up to its last leading digit.
sscanf_d-digit :
    (d : ℕ) (s : Text)
    → IsDigit d
    → scan_value (d ∷ s) 0 < int_limit
    → sscanf_d (d ∷ s) ≡ some (pos (scan_value (d ∷ s) 0))
unfolding sscanf_d scan_signed scan_number positive
sscanf_d-digit d s h fits = ground (arith, skip_space-digit d s h)

pub sscanf_d-decimal : (n : ℕ) → n < int_limit → sscanf_d (decimal n) ≡ some (pos n)
sscanf_d-decimal n fits =
    let (d, s, e) = decimal-cons n in
    rw e (
      ground (
        arith,
        sscanf_d-digit d s (subst (All IsDigit) e (decimal-IsDigit n)).0,
        scan-decimal n,
        ap (λ t. scan_value t 0) e,
      ))
