-- ===== src/Storage.antt =====
-- internal/storage/keys.go.
pub mod Distinct
use strato.Prelude.{ℕ, zero, suc, ◌-◌, List, [], ◌∷◌, ◌++◌, length, take, drop}
use strato.Encoding.Decimal.{format}
use strato.Entity.Account.{Text}
use strato.Entity.Storage.{Key, blob_key, chunk_key}

zeros : ℕ → Text → Text
zeros zero s = s
zeros (suc n) s = b'0' ∷ zeros n s

-- The verb %06d.
unfoldable pub padded : ℕ → Text
unfolding zeros
padded n = zeros (6 - length (format n)) (format n)

abbrev pub blobs : Text
blobs = b'b' ∷ b'l' ∷ b'o' ∷ b'b' ∷ b's' ∷ b'/' ∷ []

abbrev pub staging : Text
staging = b's' ∷ b't' ∷ b'a' ∷ b'g' ∷ b'i' ∷ b'n' ∷ b'g' ∷ b'/' ∷ []

-- The key of an object: `BlobKey` and `ChunkKey`, with the hexadecimal text of a digest and the text of a
-- UUID.
unfoldable pub key_text : (ℕ → Text) → (ℕ → Text) → Key → Text
key_text hex uuid_text (blob_key checksum) =
    let h = hex checksum in blobs ++ take 2 h ++ b'/' ∷ take 2 (drop 2 h) ++ b'/' ∷ h
key_text hex uuid_text (chunk_key session_id index) =
    staging ++ uuid_text session_id ++ b'/' ∷ padded index
