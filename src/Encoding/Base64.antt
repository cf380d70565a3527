-- ===== src/Encoding/Base64.antt =====
-- base64 with no padding: RawURLEncoding of pkg/crypto/random.go, internal/service/signer.go and
-- pkg/pagination/pagination.go, RawStdEncoding of pkg/crypto/password.go.
pub mod RoundTrip
use strato.Prelude.{
  ℕ, ◌+◌, ◌-◌, ◌*◌, ◌/◌, ◌%◌, Bool, ◌&&◌, ◌||◌, List, [], ◌∷◌, Option, none, some, map, ltb, leb,
  ◌==◌, if◌then◌else◌,
}

-- The last two digits of the alphabet; the others are A-Z, a-z and 0-9.
pub record Alphabet : Type 0 where
  pub d62 : ℕ
  pub d63 : ℕ

abbrev pub std_encoding : Alphabet
std_encoding = record { d62 = b'+'; d63 = b'/' }

abbrev pub url_encoding : Alphabet
url_encoding = record { d62 = b'-'; d63 = b'_' }

-- The groups of six bits of a sequence of bytes, the last one filled with zeros.
unfoldable pub sextets : List ℕ → List ℕ
sextets [] = []
sextets (a ∷ []) = (a / 4) ∷ (a % 4 * 16) ∷ []
sextets (a ∷ b ∷ []) = (a / 4) ∷ (a % 4 * 16 + b / 16) ∷ (b % 16 * 4) ∷ []
sextets (a ∷ b ∷ c ∷ bs) =
    (a / 4) ∷ (a % 4 * 16 + b / 16) ∷ (b % 16 * 4 + c / 64) ∷ (c % 64) ∷ sextets bs

abbrev cons {ℓ} : {A : Type ℓ} → A → Option (List A) → Option (List A)
cons a none = none
cons a (some xs) = some (a ∷ xs)

-- The bytes of groups of six bits: bits left over are dropped, and one group alone is no byte.
unfoldable pub bytes_of : List ℕ → Option (List ℕ)
bytes_of [] = some []
bytes_of (a ∷ []) = none
bytes_of (a ∷ b ∷ []) = some ((a * 4 + b / 16) ∷ [])
bytes_of (a ∷ b ∷ c ∷ []) = some ((a * 4 + b / 16) ∷ (b % 16 * 16 + c / 4) ∷ [])
bytes_of (a ∷ b ∷ c ∷ d ∷ ds) =
    cons (a * 4 + b / 16) (cons (b % 16 * 16 + c / 4) (cons (c % 4 * 64 + d) (bytes_of ds)))

unfoldable pub groups : Option (List ℕ) → Option (List ℕ)
unfolding bytes_of
groups none = none
groups (some vs) = bytes_of vs

module _ (α : Alphabet) where
  unfoldable pub digit : ℕ → ℕ
  digit n =
      if ltb n 26
      then n + b'A'
      else (if ltb n 52
          then n - 26 + b'a'
          else (if ltb n 62 then n - 52 + b'0' else (if n == 62 then α.d62 else α.d63)))

  unfoldable pub value : ℕ → Option ℕ
  value c =
      if leb b'A' c && leb c b'Z'
      then some (c - b'A')
      else (if leb b'a' c && leb c b'z'
          then some (c - b'a' + 26)
          else (if leb b'0' c && leb c b'9'
              then some (c - b'0' + 52)
              else (if c == α.d62 then some 62 else (if c == α.d63 then some 63 else none))))

  -- Line breaks in the text are skipped.
  unfoldable pub values : List ℕ → Option (List ℕ)
  unfolding value
  values [] = some []
  values (c ∷ s) =
      let rest = values s in
      if c == 10 || c == 13 then rest else (elim (value c) [ none ↦ none | some v ↦ cons v rest ])

  -- EncodeToString.
  unfoldable pub encode : List ℕ → List ℕ
  unfolding sextets digit
  encode bs = map digit (sextets bs)

  -- DecodeString.
  unfoldable pub decode : List ℕ → Option (List ℕ)
  unfolding values groups
  decode s = groups (values s)
