-- ===== src/Pagination.antt =====
-- pkg/pagination/pagination.go, and the pages that the repositories cut with it.
pub mod Token
pub mod Keyset
use strato.Prelude.{
  ℕ, zero, suc, ◌^◌, Bool, true, false, ◌&&◌, ◌||◌, List, [], ◌∷◌, Option, none, some, ltb, leb,
  ◌==◌, if◌then◌else◌, take, length, select_rows,
}
use strato.Crypto.Cipher.{Bytes}
use strato.Encoding.Base64.{url_encoding, encode, decode}
use strato.Entity.Account.{Text}

-- `Cursor`: the zero time and uuid.Nil are 0.
pub record Cursor : Type 0 where
  pub created_at : ℕ
  pub id : ℕ

abbrev pub zero_cursor : Cursor
zero_cursor = record { created_at = 0; id = 0 }

-- `Cursor.IsZero`.
unfoldable pub is_zero : Cursor → Bool
is_zero c = c.created_at == 0 && c.id == 0

abbrev pub default_page_size : ℕ
default_page_size = 50

abbrev pub max_page_size : ℕ
max_page_size = 200

-- `ClampPageSize` of an int32, by its 32 bits: from 2 ^ 31 on it is negative.
unfoldable pub clamp_page_size : ℕ → ℕ
clamp_page_size n =
    if n == 0 || leb (2 ^ 31) n
    then default_page_size
    else if ltb max_page_size n
    then max_page_size
    else n

-- encoding/json of a cursor: a time of a year past 9999 is an error.
pub record Json : Type 0 where
  pub marshal : Cursor → Option Bytes
  pub unmarshal : Bytes → Option Cursor

module _ (json : Json) where
  abbrev pub raw_of : Option Bytes → Bytes
  raw_of none = []
  raw_of (some raw) = raw

  -- `Cursor.Encode`: the error of Marshal is dropped, with no bytes beside it.
  unfoldable pub encode_cursor : Cursor → Text
  encode_cursor c = encode url_encoding (raw_of (json.marshal c))

  unmarshalled : Option Bytes → Option Cursor
  unmarshalled none = none
  unmarshalled (some raw) = json.unmarshal raw

  -- `Decode`: none is `ErrInvalidCursor`.
  unfoldable pub decode_cursor : Text → Option Cursor
  unfolding unmarshalled
  decode_cursor [] = some zero_cursor
  decode_cursor (c ∷ token) = unmarshalled (decode url_encoding (c ∷ token))

-- The order of (created_at, id) in SQL.
abbrev pub less : Cursor → Cursor → Bool
less a b = ltb a.created_at b.created_at || (a.created_at == b.created_at && ltb a.id b.id)

-- `b` comes after `a`, in ascending or descending order.
unfoldable pub after : Bool → Cursor → Cursor → Bool
after false a b = less a b
after true a b = less b a

module _ {ℓ} {A : Type ℓ} (key : A → Cursor) (descending : Bool) where
  unfoldable pub insert : A → List A → List A
  insert r [] = r ∷ []
  insert r (x ∷ xs) =
      let rest = insert r xs in if after descending (key r) (key x) then r ∷ x ∷ xs else x ∷ rest

  -- ORDER BY created_at, id.
  unfoldable pub ordered : List A → List A
  ordered [] = []
  ordered (x ∷ xs) = insert x (ordered xs)

  -- The condition on the cursor, the order and the limit.
  unfoldable pub page : Cursor → ℕ → List A → List A
  page cur limit rows =
      take limit (
        ordered
          (if is_zero cur then rows else select_rows (λ r. after descending cur (key r)) rows))

  abbrev pub last_key : List A → Option Cursor
  last_key [] = none
  last_key (x ∷ []) = some (key x)
  last_key (x ∷ y ∷ xs) = last_key (y ∷ xs)

  -- The cursor of the next page, as the handlers tell it from a page: there is one if the page is full.
  unfoldable pub next_cursor : ℕ → List A → Option Cursor
  next_cursor limit rows = if length rows == limit then last_key rows else none
