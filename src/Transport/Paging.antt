-- ===== src/Transport/Paging.antt =====
-- What a client meets that follows the page tokens of `ListFiles` (internal/transport/grpc).
use strato.Prelude.{
  ℕ, zero, suc, ◌<◌, ◌≡◌, refl, sym, ap, ◌∙◌, Bool, false, List, [], ◌∷◌, ◌++◌, Option, none, some,
  map, length, All, arith, append-nil, ◌==◌, ltb, Bool-cases, inl, inr,
}
use strato.Encoding.Base64.{url_encoding, sextets, encode}
use strato.Entity.Account.{Text}
use strato.Entity.Access.{Identity}
use strato.Entity.Storage.{File}
use strato.Domain.Action.{pure, query, outside, ◌>>=◌}
use strato.Domain.World.{World}
use strato.Outside.{Env}
use strato.Middleware.{Context, Reply, answer, status, panic}
use strato.Pagination.{
  Cursor, zero_cursor, is_zero, clamp_page_size, ordered, last_key, encode_cursor, decode_cursor,
  next_cursor,
}
use strato.Pagination.Token.{Marshals, decode_cursor-encode_cursor}
use strato.Pagination.Keyset.{Distinct, Holds, next_cursor-Holds}
use strato.Pagination.Keyset.Walk.{walk, follow, walk-whole}
use strato.Postgres.Listings
use strato.Postgres.Listings.{file_key, folder_files, list_page}
use strato.Usecase.File.Listing
use strato.Transport.Messages.{
  Wire, last_row, FileMetadata, files_to_proto, page_token, page_from_proto, next_page_token,
}
use strato.Transport.Rpc.{respond, with_identity, with_optional_id, with_page}
use strato.Transport.Files.{FilePage, file_page, list_files}

module _ (env : Env) (wire : Wire) (ctx : Context) (include_deleted descending : Bool) (size : ℕ)
    (w : World) where
  -- The answer to the request of the top folder with a page token.
  unfoldable pub ask : Text → Reply FilePage × World
  ask token =
      list_files env wire ctx [] include_deleted descending
        (some (record { page_token = token; page_size = size })) w

  gathered : (Text → List FileMetadata) → Reply FilePage → List FileMetadata
  gathered more (status c) = []
  gathered more panic = []
  gathered more (answer p) = elim p.next_page_token [
    | [] ↦ p.files
    | c ∷ t ↦ p.files ++ more (c ∷ t)
  ]

  -- The files of up to `n` pages, each asked for with the token of the one before, until there is none.
  unfoldable pub client : ℕ → Text → List FileMetadata
  unfolding gathered
  client zero token = []
  client (suc n) token = gathered (client n) (ask token).0

  gathered-last :
      (more : Text → List FileMetadata) (files : List FileMetadata)
      → gathered more (answer (record { files = files; next_page_token = [] })) ≡ files
  unfolding gathered
  gathered-last more files = refl

  gathered-more :
      (more : Text → List FileMetadata) (files : List FileMetadata) (t : Text)
      → 0 < length t
      → gathered more (answer (record { files = files; next_page_token = t })) ≡ files ++ more t
  unfolding gathered
  gathered-more more files [] h = absurd (omega arith)
  gathered-more more files (c ∷ t) h = refl

map-append : {A B : Type 0} (f : A → B) (xs ys : List A) → map f (xs ++ ys) ≡ map f xs ++ map f ys
map-append f [] ys = refl
map-append f (x ∷ xs) ys = ap (λ zs. f x ∷ zs) (map-append f xs ys)

encode-long : (bs : List ℕ) → 0 < length bs → 0 < length (encode url_encoding bs)
unfolding encode sextets
encode-long [] h = absurd (omega arith)
encode-long (a ∷ []) h = omega arith
encode-long (a ∷ b ∷ []) h = omega arith
encode-long (a ∷ b ∷ c ∷ bs) h = omega arith

module _ (wire : Wire) (parses : (id : ℕ) → wire.parse_uuid (wire.uuid_text id) ≡ some id) where
  token_text : Option Cursor → Text
  token_text none = []
  token_text (some c) = encode_cursor wire.json c

  last_key-last_row :
      (d : Bool) (f : File) (fs : List File)
      → last_key file_key d (f ∷ fs) ≡ some (file_key (last_row wire f fs))
  last_key-last_row d f [] = refl
  last_key-last_row d f (g ∷ fs) = last_key-last_row d g fs

  page_token-next_cursor :
      (d : Bool) (l : ℕ) (fs : List File)
      → page_token wire file_key (suc l) fs ≡ token_text (next_cursor file_key d (suc l) fs)
  unfolding page_token next_page_token next_cursor token_text
  page_token-next_cursor d l [] = let other : (0 == suc l) ≡ false = ground arith in rw other refl
  page_token-next_cursor d l (f ∷ fs) = elim (Bool-cases (length (f ∷ fs) == suc l)) [
    | inl full ↦
        let whole : ltb (length (f ∷ fs)) (suc l) ≡ false = ground arith in
        rw (full, last_key-last_row d f fs, whole, parses (last_row wire f fs).id) refl
    | inr short ↦ rw short refl
  ]

module _ (env : Env) (wire : Wire) (ident : Identity) (ctx : Context)
    (named : ctx.identity ≡ some ident) (include_deleted descending : Bool) (size l : ℕ)
    (clamped : clamp_page_size size ≡ suc l) (w : World) (quiet : w.faults ≡ []) where
  ask-answer :
      (token : Text) (cur : Cursor)
      → decode_cursor wire.json token ≡ some cur
      → (ask env wire ctx include_deleted descending size w token).0
        ≡ answer (
            file_page env wire
              (suc l)
              (list_page ident.user_id none include_deleted descending w.db (suc l) cur))
  unfolding ask list_files with_identity with_page page_from_proto with_optional_id respond
      Listing.list Listings.list list_page pure query outside ◌>>=◌
  ask-answer token cur e = rw (named, e, clamped, quiet) (rw clamped refl)

  module _ (parses : (id : ℕ) → wire.parse_uuid (wire.uuid_text id) ≡ some id)
      (marshals : All
        (λ f. Marshals wire.json (file_key f))
        (folder_files ident.user_id none include_deleted w.db)) where
    fetched : Cursor → List File
    fetched = list_page ident.user_id none include_deleted descending w.db (suc l)

    gathered-next :
        (more : Text → List FileMetadata) (k : Cursor → List File) (cur : Cursor)
        (o : Option Cursor)
        → next_cursor file_key descending (suc l) (fetched cur) ≡ o
        → Holds file_key descending (Marshals wire.json) o
        → ((c : Cursor)
            → Marshals wire.json c
            → more (encode_cursor wire.json c) ≡ files_to_proto wire (k c))
        → gathered env wire ctx include_deleted descending size w more
            (answer (file_page env wire (suc l) (fetched cur)))
          ≡ files_to_proto wire (fetched cur ++ follow file_key descending k o)
    unfolding token_text files_to_proto encode_cursor
    gathered-next more k cur none e m h =
        let last : page_token wire file_key (suc l) (fetched cur) ≡ [] =
          page_token-next_cursor wire parses descending l (fetched cur)
          ∙ ap (token_text wire parses) e in
        rw (last, append-nil (fetched cur))
          (gathered-last env wire ctx include_deleted descending size w more
            (files_to_proto wire (fetched cur)))
    gathered-next more k cur (some c) e m h =
        let next : page_token wire file_key (suc l) (fetched cur) ≡ encode_cursor wire.json c =
          page_token-next_cursor wire parses descending l (fetched cur)
          ∙ ap (token_text wire parses) e in
        rw next (
          gathered-more env wire ctx include_deleted descending size w more
            (files_to_proto wire (fetched cur)) (encode_cursor wire.json c)
            (rw m.written (encode-long m.raw m.long)))
        ∙ ap (λ ys. files_to_proto wire (fetched cur) ++ ys) (h c m)
        ∙ sym (map-append _ (fetched cur) (k c))

    client-walk :
        (n : ℕ) (token : Text) (cur : Cursor)
        → decode_cursor wire.json token ≡ some cur
        → client env wire ctx include_deleted descending size w n token
          ≡ files_to_proto wire (walk file_key descending n (suc l) fetched cur)
    unfolding client walk files_to_proto list_page fetched
    client-walk zero token cur e = refl
    client-walk (suc n) token cur e = rw (ask-answer token cur e) (
        gathered-next (client env wire ctx include_deleted descending size w n)
          (walk file_key descending n (suc l) fetched) cur _ refl
          (next_cursor-Holds file_key descending (Marshals wire.json) cur (suc l)
            (folder_files ident.user_id none include_deleted w.db) marshals)
          (λ c m.
            client-walk n (encode_cursor wire.json c) c
              (decode_cursor-encode_cursor wire.json c m)))

-- A client that asks `ListFiles` for the top folder, page by page, each with the token of the answer before,
-- gets the metadata of all the files of its user there, in the order asked for, each as often as it is
-- there, and comes to the end within one more page than there are files: with any page size that is clamped
-- to one of at least 1, while no call fails and the tables stay as they are. UUIDs, and in JSON the cursors
-- of these files, are read back as they were written, ids are unique, and no file has the zero time and the
-- zero id.
pub list_files-Whole :
    (env : Env) (wire : Wire) (ident : Identity) (ctx : Context) (include_deleted descending : Bool)
    (size l n : ℕ) (w : World)
    → ctx.identity ≡ some ident
    → clamp_page_size size ≡ suc l
    → w.faults ≡ []
    → ((id : ℕ) → wire.parse_uuid (wire.uuid_text id) ≡ some id)
    → All
        (λ f. Marshals wire.json (file_key f))
        (folder_files ident.user_id none include_deleted w.db)
    → Distinct file_key descending (folder_files ident.user_id none include_deleted w.db)
    → All (λ f. is_zero (file_key f) ≡ false) (folder_files ident.user_id none include_deleted w.db)
    → length (folder_files ident.user_id none include_deleted w.db) < n
    → client env wire ctx include_deleted descending size w n []
      ≡ files_to_proto wire
          (ordered file_key descending (folder_files ident.user_id none include_deleted w.db))
unfolding list_page fetched
list_files-Whole env wire ident ctx include_deleted descending size l n w named clamped quiet parses
      marshals distinct nonzero enough =
    client-walk env wire ident ctx named include_deleted descending size l clamped w quiet parses
      marshals n [] zero_cursor (unfold decode_cursor in refl)
    ∙ ap (files_to_proto wire) (
        walk-whole file_key descending l (folder_files ident.user_id none include_deleted w.db)
          distinct nonzero n enough)
