-- ===== src/Encoding/Decimal/RoundTrip.antt =====
-- Scanning a number behind its digits.
use strato.Prelude.{
  ℕ, zero, suc, ◌+◌, ◌-◌, ◌*◌, ◌/◌, ◌%◌, ◌<◌, ◌≡◌, refl, ◌∙◌, true, false, List, [], ◌∷◌, ◌++◌,
  some, arith, ltb, Bool-cases, inl, inr, All,
}
use strato.Encoding.Decimal.{digits, format, is_digit, scan_digits, scan}

-- The text behind a number does not go on with a digit.
abbrev pub Stops : List ℕ → Type 0
Stops [] = Unit {0}
Stops (c ∷ s) = is_digit c ≡ false

scan_digits-Stops : (n : ℕ) (s : List ℕ) → Stops s → scan_digits n s ≡ (n, s)
unfolding scan_digits
scan_digits-Stops n [] h = refl
scan_digits-Stops n (c ∷ s) h = rw h refl

scan_digits-digit :
    (m d n : ℕ) (s : List ℕ)
    → d < 10
    → m * 10 + d ≡ n
    → scan_digits m ((b'0' + d) ∷ s) ≡ scan_digits n s
unfolding scan_digits
scan_digits-digit m d n s h e =
    let same : m * 10 + (b'0' + d - b'0') ≡ n = omega arith in
    let digit : is_digit (b'0' + d) ≡ true = ground arith in rw (digit, same) refl

-- The digits of `n` before `out` are read as those of `out` behind the number `n`.
scan_digits-digits :
    (fuel n : ℕ) (out rest : List ℕ)
    → n < fuel
    → scan_digits 0 (digits fuel n out ++ rest) ≡ scan_digits n (out ++ rest)
unfolding digits
scan_digits-digits zero n out rest h = absurd (omega arith)
scan_digits-digits (suc fuel) n out rest h = elim (Bool-cases (ltb n 10)) [
  | inl last ↦ rw last (scan_digits-digit 0 n n (out ++ rest) (ground arith) (omega arith))
  | inr more ↦ rw more (
      scan_digits-digits fuel (n / 10) ((b'0' + n % 10) ∷ out) rest (ground arith)
      ∙ scan_digits-digit (n / 10) (n % 10) n (out ++ rest) (omega arith) (omega arith))
]

-- A text that begins with a digit.
abbrev pub Starts : List ℕ → Type 0
Starts [] = ⊥
Starts (c ∷ s) = is_digit c ≡ true

digits-Starts : (fuel n : ℕ) (out rest : List ℕ) → n < fuel → Starts (digits fuel n out ++ rest)
unfolding digits
digits-Starts zero n out rest h = absurd (omega arith)
digits-Starts (suc fuel) n out rest h = elim (Bool-cases (ltb n 10)) [
  | inl last ↦ rw last (ground arith)
  | inr more ↦ rw more (digits-Starts fuel (n / 10) ((b'0' + n % 10) ∷ out) rest (ground arith))
]

scan-Starts :
    (bound n : ℕ) (s rest : List ℕ)
    → Starts s
    → scan_digits 0 s ≡ (n, rest)
    → n < bound
    → scan bound s ≡ some (n, rest)
unfolding scan
scan-Starts bound n [] rest h e k = absurd h
scan-Starts bound n (c ∷ s) rest h e k =
    let small : ltb n bound ≡ true = ground arith in rw (e, h, small) refl

-- A number is read from its digits.
pub scan_digits-format :
    (n : ℕ) (rest : List ℕ) → Stops rest → scan_digits 0 (format n ++ rest) ≡ (n, rest)
unfolding format
scan_digits-format n rest h =
    scan_digits-digits (suc n) n [] rest (omega arith) ∙ scan_digits-Stops n rest h

-- A number below the limit is read back, with the text behind it.
pub scan-format :
    (bound n : ℕ) (rest : List ℕ)
    → Stops rest
    → n < bound
    → scan bound (format n ++ rest) ≡ some (n, rest)
unfolding format
scan-format bound n rest h k =
    scan-Starts bound n _ rest (digits-Starts (suc n) n [] rest (omega arith))
      (scan_digits-digits (suc n) n [] rest (omega arith) ∙ scan_digits-Stops n rest h) k

pub format-Starts : (n : ℕ) (rest : List ℕ) → Starts (format n ++ rest)
unfolding format
format-Starts n rest = digits-Starts (suc n) n [] rest (omega arith)

digits-All :
    (fuel n : ℕ) (out : List ℕ)
    → All (λ c. is_digit c ≡ true) out
    → All (λ c. is_digit c ≡ true) (digits fuel n out)
unfolding digits
digits-All zero n out h = h
digits-All (suc fuel) n out h = elim (Bool-cases (ltb n 10)) [
  | inl last ↦ rw last (ground arith, h)
  | inr more ↦ rw more (digits-All fuel (n / 10) ((b'0' + n % 10) ∷ out) (ground arith, h))
]

pub format-All : (n : ℕ) → All (λ c. is_digit c ≡ true) (format n)
unfolding format
format-All n = digits-All (suc n) n [] tt
