-- ===== src/Pagination/Token.antt =====
-- The page tokens of pkg/pagination/pagination.go.
use strato.Prelude.{ℕ, ◌<◌, ◌≡◌, refl, ◌∙◌, List, [], ◌∷◌, some, All, length, arith}
use strato.Encoding.Base64.{url_encoding, encode, decode}
use strato.Encoding.Base64.RoundTrip.{IsByte, decode-encode, url_encoding-Readable}
use strato.Pagination.{Cursor, Json, encode_cursor, decode_cursor}

decode_cursor-decode :
    (json : Json) (t raw : List ℕ)
    → decode url_encoding t ≡ some raw
    → 0 < length raw
    → decode_cursor json t ≡ json.unmarshal raw
unfolding decode_cursor decode
decode_cursor-decode json [] [] e h = absurd (omega arith)
decode_cursor-decode json [] (b ∷ raw) e h = cc
decode_cursor-decode json (c ∷ t) raw e h = rw e refl

-- encoding/json writes the cursor as some bytes, and reads it back from them.
pub record Marshals (json : Json) (c : Cursor) : Type 0 where
  pub raw : List ℕ
  pub written : json.marshal c ≡ some raw
  pub parsed : json.unmarshal raw ≡ some c
  pub bytes : All IsByte raw
  pub long : 0 < length raw

-- A cursor that encoding/json reads back is read back by `Decode` from what `Encode` wrote.
pub decode_cursor-encode_cursor :
    (json : Json) (c : Cursor)
    → Marshals json c
    → decode_cursor json (encode_cursor json c) ≡ some c
unfolding encode_cursor
decode_cursor-encode_cursor json c m = rw (m.written) (
    decode_cursor-decode json (encode url_encoding m.raw) m.raw
      (decode-encode url_encoding url_encoding-Readable m.raw m.bytes) m.long
    ∙ m.parsed)
