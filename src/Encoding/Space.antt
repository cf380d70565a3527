-- ===== src/Encoding/Space.antt =====
-- The white space of Go's unicode.IsSpace at the ends of a UTF-8 text, and strings.TrimSpace.
use mathlib.Core.List.{reverse}
use strato.Prelude.{
  ℕ, zero, suc, Bool, ◌&&◌, ◌||◌, List, [], ◌∷◌, length, drop, leb, ◌==◌, if◌then◌else◌,
}

abbrev ascii_space : ℕ → Bool
ascii_space b = (leb 9 b && leb b 13) || b == 32

-- Of the runes of three bytes that unicode.IsSpace takes: U+1680, U+2000 to U+200A, U+2028, U+2029,
-- U+202F, U+205F and U+3000.
abbrev wide_space : ℕ → ℕ → ℕ → Bool
wide_space a b c =
    (a == 0xe1 && (b == 0x9a && c == 0x80))
    || ((a == 0xe2
          && ((b == 0x80 && ((leb 0x80 c && leb c 0x8a) || (c == 0xa8 || (c == 0xa9 || c == 0xaf))))
              || (b == 0x81 && c == 0x9f)))
        || (a == 0xe3 && (b == 0x80 && c == 0x80)))

abbrev narrow_space : ℕ → ℕ → Bool
narrow_space a b = a == 0xc2 && (b == 0x85 || b == 0xa0)

-- The bytes of the space that a text begins with, 0 if it begins with none.
unfoldable pub leading_space : List ℕ → ℕ
leading_space (a ∷ b ∷ c ∷ _) =
    if ascii_space a then 1 else if narrow_space a b then 2 else if wide_space a b c then 3 else 0
leading_space (a ∷ b ∷ []) = if ascii_space a then 1 else if narrow_space a b then 2 else 0
leading_space (a ∷ []) = if ascii_space a then 1 else 0
leading_space [] = 0

-- The same of a text that is read from its end.
trailing_space : List ℕ → ℕ
trailing_space (c ∷ b ∷ a ∷ _) =
    if ascii_space c then 1 else if narrow_space b c then 2 else if wide_space a b c then 3 else 0
trailing_space (b ∷ a ∷ []) = if ascii_space b then 1 else if narrow_space a b then 2 else 0
trailing_space (a ∷ []) = if ascii_space a then 1 else 0
trailing_space [] = 0

-- Spaces are dropped while there are any: each round takes a byte, so the length is fuel enough.
strip : ℕ → (List ℕ → ℕ) → List ℕ → List ℕ
strip zero width s = s
strip (suc fuel) width s = elim (width s) [ zero ↦ s | suc n ↦ strip fuel width (drop (suc n) s) ]

-- strings.TrimSpace.
unfoldable pub trim_space : List ℕ → List ℕ
unfolding strip leading_space trailing_space
trim_space s =
    let front = strip (length s) leading_space s in
    reverse (strip (length front) trailing_space (reverse front))
