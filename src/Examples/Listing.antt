-- ===== src/Examples/Listing.antt =====
-- The listings and the signed downloads of internal/usecase/file_uc.go on small tables.
use strato.Prelude.{
  ℕ, zero, suc, ◌+◌, ◌*◌, ◌≡◌, ap, refl, true, List, [], ◌∷◌, Option, none, some, arith, length,
  All, ◌++◌, ◌==◌, if◌then◌else◌, ◌∙◌, ◌<◌,
}
use strato.Entity.Account.{role_admin}
use strato.Entity.Access.{Identity}
use strato.Domain.Error.{ok, err, not_found}
use strato.Domain.Ends.{Ends}
use strato.Encoding.Base64.RoundTrip.{IsByte}
use strato.Pagination.{Cursor, is_zero, Json, zero_cursor}
use strato.Pagination.Token.{Marshals}
use strato.Pagination.Keyset.Walk.{walk, Listing}
use strato.Postgres.FileRepo.{selected}
use strato.Postgres.Listings.{file_key, folder_files, list_page}
use strato.Postgres.Listings.Whole.{list_page-Listing}
use strato.Service.Signer.{Query, sign}
use strato.Usecase.File.Signed.{signed_download_query, verify_signed_download}
use strato.Usecase.File.Signed.Checked.{
  Checked, verify_signed_download-Checked, signed_download-AdminRefused,
}
use strato.Examples.Storage.{repeat, env, tables, world, live_file}
use strato.Examples.Crypto.{key, stream}
use strato.Crypto.Toy.{toy}
use strato.Entity.Storage.{blob_key}
use strato.Domain.World.{World}
use strato.Examples.Signer.{signer, second, letters, count, count-letters}

-- Two files, on pages of one.
list_page-Listing_example :
    Listing file_key true
      (walk file_key true 3 1 (list_page 1 none true true tables 1) zero_cursor)
      (λ f. f.is_deleted)
      (folder_files 1 none true tables)
unfolding selected is_zero
list_page-Listing_example =
    list_page-Listing 1 none true true tables 3 0 (λ f. f.is_deleted) ((refl, tt), (tt, tt))
      (refl, (refl, tt)) (omega arith)

unfoldable pub read : ℕ → List ℕ → Option Cursor
read n [] = none
read n (b ∷ bs) =
    let rest = read (suc n) bs in
    if b == 0 then some (record { created_at = n; id = count bs }) else rest

-- The two numbers as so many letters.
abbrev pub json : Json
json = record { marshal = λ c. some (letters c.created_at ++ 0 ∷ letters c.id); unmarshal = read 0 }

read-letters :
    (k n m : ℕ) → read k (letters n ++ 0 ∷ letters m) ≡ some (record { created_at = k + n; id = m })
unfolding read
read-letters k zero m =
    ap (λ i. some (record { created_at = k; id = i })) (count-letters m) ∙ ground arith
read-letters k (suc n) m = read-letters (suc k) n m ∙ ground arith

marshal-IsByte : (n m : ℕ) → All IsByte (letters n ++ 0 ∷ letters m)
marshal-IsByte zero zero = (omega arith, tt)
marshal-IsByte zero (suc m) = (omega arith, (omega arith, (marshal-IsByte zero m).1))
marshal-IsByte (suc n) m = (omega arith, marshal-IsByte n m)

marshal-long : (n m : ℕ) → 0 < length (letters n ++ 0 ∷ letters m)
marshal-long zero m = omega arith
marshal-long (suc n) m = omega arith

pub json-Marshals : (x : Cursor) → Marshals json x
json-Marshals x = record {
  raw = letters x.created_at ++ 0 ∷ letters x.id;
  written = refl;
  parsed =
      read-letters 0 x.created_at x.id
      ∙ ap (λ i. some (record { created_at = i; id = x.id })) (omega arith);
  bytes = marshal-IsByte x.created_at x.id;
  long = marshal-long x.created_at x.id;
}

-- The live file with a version whose content is `stream`.
abbrev stocked : World
stocked = record (world []) {
  clock = 4 * second;
  db = record tables {
    files = record live_file { current_version_id = some 9 } ∷ [];
    blobs =
        record {
          id = 7;
          checksum = 8;
          size_bytes = 9;
          storage_key = blob_key 8;
          wrapped_dek = repeat 12 5 ++ toy.seal env.kek (repeat 12 5) [] key;
          ref_count = 1;
          created_at = 0;
        }
        ∷ [];
  };
  objects = (blob_key 8, stream) ∷ [];
}

-- A query that user 1 was given a second before, for a link of ten seconds.
abbrev link : Query
link = sign signer (3 * second) 4 1 (10 * second)

verify_signed_download-Checked_example :
    Ends
      (verify_signed_download env signer 4 link stocked)
      (λ r _. Checked signer 4 link stocked r.1)
verify_signed_download-Checked_example = verify_signed_download-Checked env signer 4 link stocked

abbrev root : Identity
root = record { user_id = 2; email = []; role = role_admin }

signed_download-AdminRefused_example :
    ((signed_download_query signer second root 4 (record (world []) { faults = [] })).0
      ≡ ok (sign signer (world []).clock 4 2 second, second))
    × ((verify_signed_download env signer 4
          (sign signer (world []).clock 4 2 second)
          (record (world []) { faults = []; clock = 8 })).0
        ≡ err not_found)
unfolding selected
signed_download-AdminRefused_example =
    signed_download-AdminRefused env signer second 8 root 4 (selected live_file tables) (world [])
      (λ id. ap some (count-letters id)) (ground arith) (ground arith) refl refl refl refl
