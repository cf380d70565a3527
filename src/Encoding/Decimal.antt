-- ===== src/Encoding/Decimal.antt =====
-- Decimal numbers: strconv.FormatInt and ParseInt of numbers that are not negative, the verb %d of
-- fmt.Sprintf and fmt.Sscanf.
pub mod RoundTrip
use strato.Prelude.{
  ℕ, zero, suc, ◌+◌, ◌-◌, ◌*◌, ◌/◌, ◌%◌, ◌^◌, Bool, ◌&&◌, List, [], ◌∷◌, Option, none, some, ltb,
  leb, ◌==◌, if◌then◌else◌,
}

-- The digits of a number before those that are made: each round takes one off, so that one more than the
-- number is fuel enough.
unfoldable pub digits : ℕ → ℕ → List ℕ → List ℕ
digits zero n out = out
digits (suc fuel) n out =
    let more = digits fuel (n / 10) ((b'0' + n % 10) ∷ out) in
    if ltb n 10 then (b'0' + n) ∷ out else more

unfoldable pub format : ℕ → List ℕ
unfolding digits
format n = digits (suc n) n []

abbrev pub is_digit : ℕ → Bool
is_digit c = leb b'0' c && leb c b'9'

-- The longest run of digits at the head of a text, with its number and the text behind it.
unfoldable pub scan_digits : ℕ → List ℕ → ℕ × List ℕ
scan_digits n [] = (n, [])
scan_digits n (c ∷ s) =
    let more = scan_digits (n * 10 + (c - b'0')) s in if is_digit c then more else (n, c ∷ s)

-- A run of one digit or more, below the limit of its type.
unfoldable pub scan : ℕ → List ℕ → Option (ℕ × List ℕ)
unfolding scan_digits
scan bound [] = none
scan bound (c ∷ s) =
    let (n, rest) = scan_digits 0 (c ∷ s) in
    if is_digit c && ltb n bound then some (n, rest) else none

-- A whole text of digits.
whole : Option (ℕ × List ℕ) → Option ℕ
whole none = none
whole (some (n, [])) = some n
whole (some (n, c ∷ rest)) = none

minus_zero : Option ℕ → Option ℕ
minus_zero none = none
minus_zero (some zero) = some 0
minus_zero (some (suc n)) = none

-- strconv.ParseInt of base 10 and 64 bits, and strconv.Atoi, where the number is not negative; none for a
-- text that is no number or a negative one.
unfoldable pub parse_int64 : List ℕ → Option ℕ
unfolding whole minus_zero
parse_int64 [] = none
parse_int64 (c ∷ t) =
    if c == b'-'
    then minus_zero (whole (scan (2 ^ 63 + 1) t))
    else (if c == b'+' then whole (scan (2 ^ 63) t) else whole (scan (2 ^ 63) (c ∷ t)))
