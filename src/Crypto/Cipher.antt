-- ===== src/Crypto/Cipher.antt =====
-- The AEAD of crypto/cipher as pkg/crypto uses it, and `newGCM` of pkg/crypto/aesgcm.go.
-- AES-GCM is Go's: an interface whose laws are what crypto/cipher documents of it.
use strato.Prelude.{ℕ, ◌+◌, ◌≡◌, Bool, List, Option, some, length, ◌==◌}

abbrev pub Bytes : Type 0
Bytes = List ℕ

-- `KeySize`.
abbrev pub key_size : ℕ
key_size = 32

-- `Overhead()` of GCM with its standard tag.
abbrev pub overhead : ℕ
overhead = 16

-- `Seal` and `Open` under a key, a nonce and additional data: what was sealed opens to itself, and is
-- longer by the tag.
pub record Aead : Type 0 where
  pub seal : Bytes → Bytes → Bytes → Bytes → Bytes
  pub unseal : Bytes → Bytes → Bytes → Bytes → Option Bytes
  pub unseal-seal : (k n ad pt : Bytes) → unseal k n ad (seal k n ad pt) ≡ some pt
  pub length-seal : (k n ad pt : Bytes) → length (seal k n ad pt) ≡ length pt + overhead

-- `newGCM`: the key's length is checked first; of a good key aes.NewCipher and cipher.NewGCM make
-- a cipher.
unfoldable pub new_gcm : Bytes → Bool
new_gcm key = length key == key_size
