-- ===== src/Crypto/Password.antt =====
-- pkg/crypto/password.go: the PHC strings of Argon2id hashes. `IdKey` is argon2.IDKey.
pub mod RoundTrip
use strato.Prelude.{
  ℕ, ◌%◌, ◌+◌, ◌*◌, ◌^◌, Bool, true, false, ◌||◌, ◌&&◌, List, [], ◌∷◌, ◌++◌, Option, none, some,
  length, ltb, ◌==◌, if◌then◌else◌, bytes_equal, and_then,
}
use strato.Encoding.Base64.{std_encoding, encode, decode}
use strato.Encoding.Decimal.{format}
use strato.Encoding.Scan.{scan_uint, scan_int, literal}
use strato.Encoding.Split.{split, join}
use strato.Crypto.Cipher.{Bytes}

-- `Argon2Params`: uint32 but for `parallelism`, a uint8.
pub record Argon2Params : Type 0 where
  pub memory : ℕ
  pub iterations : ℕ
  pub parallelism : ℕ
  pub salt_length : ℕ
  pub key_length : ℕ

-- `DefaultArgon2Params`.
abbrev pub default_argon2_params : Argon2Params
default_argon2_params = record {
  memory = 64 * 1024;
  iterations = 3;
  parallelism = 2;
  salt_length = 16;
  key_length = 32;
}

-- argon2.Version.
abbrev pub version : ℕ
version = 0x13

-- argon2.IDKey of a password, a salt, iterations, memory, parallelism and the length of the key.
abbrev pub IdKey : Type 0
IdKey = Bytes → Bytes → ℕ → ℕ → ℕ → ℕ → Bytes

-- "argon2id"
abbrev pub argon2id : Bytes
argon2id = b'a' ∷ b'r' ∷ b'g' ∷ b'o' ∷ b'n' ∷ b'2' ∷ b'i' ∷ b'd' ∷ []

abbrev pub version_text : Bytes
version_text = b'v' ∷ b'=' ∷ format version

abbrev pub params_text : Argon2Params → Bytes
params_text p =
    b'm'
    ∷ b'='
    ∷ (format p.memory
        ++ b',' ∷ b't' ∷ b'=' ∷ (format p.iterations ++ b',' ∷ b'p' ∷ b'=' ∷ format p.parallelism))

-- The Sprintf of `HashPassword`.
unfoldable pub encode_hash : Argon2Params → Bytes → Bytes → Bytes
encode_hash p salt hash = join b'$' [] (
    argon2id
    ∷ version_text
    ∷ params_text p
    ∷ encode std_encoding salt
    ∷ encode std_encoding hash
    ∷ [])

-- `HashPassword`, with the salt that is drawn for it.
unfoldable pub hash_password : IdKey → Bytes → Argon2Params → Bytes → Bytes
unfolding encode_hash
hash_password id_key password p salt =
    encode_hash p salt (id_key password salt p.iterations p.memory p.parallelism p.key_length)

-- What a PHC string holds; the lengths of its parameters are not set.
pub record Decoded : Type 0 where
  pub params : Argon2Params
  pub salt : Bytes
  pub hash : Bytes

-- Sscanf with "v=%d", and the test of the version.
unfoldable pub version_ok : Bytes → Bool
version_ok s = elim (and_then (literal (b'v' ∷ b'=' ∷ []) s) scan_int) [
  | none ↦ false
  | some ((true, n), rest) ↦ false
  | some ((false, n), rest) ↦ n == version
]

-- Sscanf with "m=%d,t=%d,p=%d".
unfoldable pub scan_params : Bytes → Option Argon2Params
scan_params s = and_then (literal (b'm' ∷ b'=' ∷ []) s) λ s1. and_then (scan_uint (2 ^ 32) s1) λ m.
    and_then (literal (b',' ∷ b't' ∷ b'=' ∷ []) m.1) λ s2. and_then (scan_uint (2 ^ 32) s2) λ t.
      and_then (literal (b',' ∷ b'p' ∷ b'=' ∷ []) t.1) λ s3. and_then (scan_uint (2 ^ 8) s3) λ p.
        some (record {
          memory = m.0;
          iterations = t.0;
          parallelism = p.0;
          salt_length = 0;
          key_length = 0;
        })

-- `decodeHash` of the parts between the dollar signs. The first one is not looked at.
unfoldable pub decode_parts : List Bytes → Option Decoded
unfolding version_ok scan_params
decode_parts (_ ∷ name ∷ v ∷ params ∷ salt ∷ hash ∷ []) =
    if bytes_equal name argon2id && version_ok v
    then (and_then (scan_params params) λ p. and_then (decode std_encoding salt) λ s.
        and_then (decode std_encoding hash) λ h. some (record { params = p; salt = s; hash = h }))
    else none
decode_parts _ = none

-- `decodeHash`.
unfoldable pub decode_hash : Bytes → Option Decoded
unfolding decode_parts
decode_hash encoded = decode_parts (split b'$' encoded)

-- `VerifyPassword`; none is its error.
unfoldable pub verify_password : IdKey → Bytes → Bytes → Option Bool
unfolding decode_hash
verify_password id_key password encoded = and_then (decode_hash encoded) λ d. some (
    bytes_equal d.hash (
      id_key password d.salt d.params.iterations d.params.memory d.params.parallelism
        (length d.hash % 2 ^ 32)))

weaker : Argon2Params → Option Decoded → Bool
weaker current none = true
weaker current (some d) =
    ltb d.params.memory current.memory
    || (ltb d.params.iterations current.iterations || ltb d.params.parallelism current.parallelism)

-- `NeedsRehash`.
unfoldable pub needs_rehash : Bytes → Argon2Params → Bool
unfolding decode_hash weaker
needs_rehash encoded current = weaker current (decode_hash encoded)
