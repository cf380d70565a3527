-- ===== src/Encoding/Base64/RoundTrip.antt =====
-- Decoding inverts encoding.
use strato.Prelude.{
  ℕ, ◌<◌, ◌≡◌, refl, false, List, [], ◌∷◌, some, map, arith, All, All-map, All-mapped, ◌||◌, ◌==◌,
}
use strato.Encoding.Base64.{
  Alphabet, std_encoding, url_encoding, sextets, groups, bytes_of, digit, value, values, encode,
  decode,
}

abbrev pub IsByte : ℕ → Type 0
IsByte b = b < 256

sextets-lt : (bs : List ℕ) → All IsByte bs → All (λ n. n < 64) (sextets bs)
unfolding sextets
sextets-lt [] h = tt
sextets-lt (a ∷ []) h = (omega arith, (omega arith, tt))
sextets-lt (a ∷ b ∷ []) h = (omega arith, (omega arith, (omega arith, tt)))
sextets-lt (a ∷ b ∷ c ∷ bs) h =
    (omega arith, (omega arith, (omega arith, (omega arith, sextets-lt bs h.1.1.1))))

bytes_of-sextets : (bs : List ℕ) → All IsByte bs → bytes_of (sextets bs) ≡ some bs
unfolding sextets bytes_of
bytes_of-sextets [] h = refl
bytes_of-sextets (a ∷ []) h = ground arith
bytes_of-sextets (a ∷ b ∷ []) h = ground arith
bytes_of-sextets (a ∷ b ∷ c ∷ bs) h = ground (arith, bytes_of-sextets bs)

-- The digits of an alphabet can be told apart, and none is a line break.
abbrev pub Readable : Alphabet → Type 0
Readable α =
    (n : ℕ)
    → n < 64
    → (value α (digit α n) ≡ some n) × ((digit α n == 10 || digit α n == 13) ≡ false)

pub std_encoding-Readable : Readable std_encoding
unfolding value digit
std_encoding-Readable n h = ground arith

pub url_encoding-Readable : Readable url_encoding
unfolding value digit
url_encoding-Readable n h = ground arith

module _ (α : Alphabet) (readable : Readable α) where
  values-map : (ns : List ℕ) → All (λ n. n < 64) ns → values α (map (digit α) ns) ≡ some ns
  unfolding values
  values-map [] h = refl
  values-map (n ∷ ns) h =
      let (back, solid) = readable n h.0 in rw (solid, back, values-map ns h.1) refl

  -- What EncodeToString makes of bytes, DecodeString reads back.
  pub decode-encode : (bs : List ℕ) → All IsByte bs → decode α (encode α bs) ≡ some bs
  unfolding decode encode groups
  decode-encode bs h = rw (values-map (sextets bs) (sextets-lt bs h)) (bytes_of-sextets bs h)

  -- The text of base64 has none of the characters that stand outside of its alphabet.
  pub digits-Avoid :
      (P : ℕ → Type 0)
      → ((n : ℕ) → n < 64 → P (digit α n))
      → (bs : List ℕ) → All IsByte bs
      → All P (encode α bs)
  unfolding encode
  digits-Avoid P h bs k =
      All-mapped P (digit α) (sextets bs) (All-map _ _ (sextets bs) h (sextets-lt bs k))
