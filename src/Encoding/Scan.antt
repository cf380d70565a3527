-- ===== src/Encoding/Scan.antt =====
-- fmt.Sscanf: the verb %d and the literals of a format. What stands behind the last item is not looked
-- at.
use strato.Prelude.{
  ℕ, zero, suc, ◌+◌, arith, ==_iff, ◌^◌, ◌<◌, ◌≡◌, refl, Bool, true, false, List, [], ◌∷◌, ◌++◌,
  Option, none, some, length, drop, ◌==◌, if◌then◌else◌, and_then,
}
use strato.Encoding.Space.{leading_space}
use strato.Encoding.Decimal.{format, scan, is_digit}
use strato.Encoding.Decimal.RoundTrip.{Stops, Starts, format-Starts, scan-format}

-- Spaces before a number are skipped, but for a line break. A round takes a byte, so that the length is
-- fuel enough.
skip : ℕ → List ℕ → Option (List ℕ)
skip zero s = some s
skip (suc fuel) [] = some []
skip (suc fuel) (c ∷ s) =
    let width = leading_space (c ∷ s) in
    let rest = skip fuel (drop width (c ∷ s)) in
    if c == 10 then none else if width == 0 then some (c ∷ s) else rest

-- %d for an unsigned type with values below `bound`.
unfoldable pub scan_uint : ℕ → List ℕ → Option (ℕ × List ℕ)
unfolding skip
scan_uint bound s = and_then (skip (length s) s) (scan bound)

-- A sign, and whether it is a minus.
sign : List ℕ → Bool × List ℕ
sign [] = (false, [])
sign (c ∷ s) = if c == b'-' then (true, s) else if c == b'+' then (false, s) else (false, c ∷ s)

-- %d for an int: whether the number has a minus, and its amount, which may reach 2^63 with one.
unfoldable pub scan_int : List ℕ → Option ((Bool × ℕ) × List ℕ)
unfolding skip sign
scan_int s = and_then (skip (length s) s) λ t.
    let (minus, u) = sign t in
    and_then (scan (if minus then 2 ^ 63 + 1 else 2 ^ 63) u) λ r. some ((minus, r.0), r.1)

-- A literal of the format.
unfoldable pub literal : List ℕ → List ℕ → Option (List ℕ)
literal [] s = some s
literal (c ∷ l) [] = none
literal (c ∷ l) (d ∷ s) = let rest = literal l s in if c == d then rest else none

pub literal-append : (l s : List ℕ) → literal l (l ++ s) ≡ some s
unfolding literal
literal-append [] s = refl
literal-append (c ∷ l) s = rw ((==_iff c c).1 refl) (literal-append l s)

space-Starts : (c : ℕ) (s : List ℕ) → is_digit c ≡ true → leading_space (c ∷ s) ≡ 0
unfolding leading_space
space-Starts c [] h = ground arith
space-Starts c (b ∷ []) h = ground arith
space-Starts c (b ∷ a ∷ s) h = ground arith

skip-Starts : (s : List ℕ) → Starts s → skip (length s) s ≡ some s
unfolding skip
skip-Starts [] h = absurd h
skip-Starts (c ∷ s) h =
    let solid : (c == 10) ≡ false = ground arith in rw (solid, space-Starts c s h) refl

sign-Starts : (s : List ℕ) → Starts s → sign s ≡ (false, s)
unfolding sign
sign-Starts [] h = absurd h
sign-Starts (c ∷ s) h =
    let plain : (c == b'-') ≡ false = ground arith in
    let plain' : (c == b'+') ≡ false = ground arith in rw (plain, plain') refl

pub scan_uint-format :
    (bound n : ℕ) (rest : List ℕ)
    → Stops rest
    → n < bound
    → scan_uint bound (format n ++ rest) ≡ some (n, rest)
unfolding scan_uint
scan_uint-format bound n rest h k =
    rw (skip-Starts (format n ++ rest) (format-Starts n rest)) (scan-format bound n rest h k)

pub scan_int-format :
    (n : ℕ) (rest : List ℕ)
    → Stops rest
    → n < 2 ^ 63
    → scan_int (format n ++ rest) ≡ some ((false, n), rest)
unfolding scan_int
scan_int-format n rest h k =
    rw
      (
        skip-Starts (format n ++ rest) (format-Starts n rest),
        sign-Starts (format n ++ rest) (format-Starts n rest),
      )
      (rw (scan-format (2 ^ 63) n rest h k) refl)
