-- ===== src/Usecase/Names.antt =====
-- `validateName` and `parseOptionalID` of internal/usecase/access.go, and the hexadecimal digest of
-- `InitUpload`.
use strato.Prelude.{
  ℕ, ◌+◌, ◌-◌, ◌*◌, Bool, true, false, ◌&&◌, ◌||◌, [], ◌∷◌, Option, none, some, length, ltb, leb,
  ◌==◌, if◌then◌else◌, any_row, bytes_equal,
}
use strato.Encoding.Space.{trim_space}
use strato.Entity.Account.{Text}
use strato.Domain.Error.{Result, ok, err, invalid_argument}
use strato.Outside.{Env}

-- The bytes of "/\\\x00", and those below 0x20.
abbrev pub forbidden : ℕ → Bool
forbidden b = b == b'/' || (b == 92 || ltb b 0x20)

-- The checks of `validateName` on a trimmed name.
unfoldable pub check_name : Text → Result Text
check_name name =
    if name_empty || ltb 255 (length name)
    then err invalid_argument
    else (if bytes_equal name (b'.' ∷ []) || bytes_equal name (b'.' ∷ b'.' ∷ [])
        then err invalid_argument
        else (if any_row forbidden name then err invalid_argument else ok name))
  where
    name_empty : Bool
    name_empty = elim name [ [] ↦ true | _ ∷ _ ↦ false ]

-- `validateName`.
unfoldable pub validate_name : Text → Result Text
unfolding check_name
validate_name name = check_name (trim_space name)

-- `parseOptionalID`: an empty text is no id.
unfoldable pub parse_optional_id : Env → Text → Result (Option ℕ)
parse_optional_id env [] = ok none
parse_optional_id env (c ∷ s) = elim (env.parse_uuid (c ∷ s)) [
  | none ↦ err invalid_argument
  | some id ↦ ok (some id)
]

hex_digit : ℕ → Option ℕ
hex_digit c =
    if leb b'0' c && leb c b'9'
    then some (c - b'0')
    else (if leb b'a' c && leb c b'f'
        then some (c - b'a' + 10)
        else (if leb b'A' c && leb c b'F' then some (c - b'A' + 10) else none))

hex_value : ℕ → Text → Option ℕ
hex_value acc [] = some acc
hex_value acc (c ∷ s) = elim (hex_digit c) [ none ↦ none | some d ↦ hex_value (acc * 16 + d) s ]

-- hex.DecodeString and the test of its length: 64 hexadecimal digits.
unfoldable pub hex_digest : Text → Result ℕ
unfolding hex_value hex_digit
hex_digest s =
    if length s == 64
    then (elim (hex_value 0 s) [ none ↦ err invalid_argument | some v ↦ ok v ])
    else err invalid_argument
