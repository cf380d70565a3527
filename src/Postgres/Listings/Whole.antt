-- ===== src/Postgres/Listings/Whole.antt =====
-- That the pages of the listings of internal/repository/postgres are the listings.
use strato.Prelude.{ℕ, suc, ◌<◌, ◌≡◌, Bool, false, true, Option, All, length}
use strato.Entity.Storage.{File, Version}
use strato.Domain.World.{Db}
use strato.Pagination.{zero_cursor, is_zero}
use strato.Pagination.Keyset.{Distinct}
use strato.Pagination.Keyset.Walk.{walk, Listing, walk-Listing}
use strato.Postgres.Listings.{
  file_key, version_key, folder_files, list_page, file_versions, version_page,
}

-- The pages of `List`, each of up to `l` + 1 files and asked for with the cursor of the last file of the
-- one before until one is not full, are together all the files that it lists, each as often as it is
-- there, in the order asked for, and end within one more page than there are files. The tables stay as
-- they are meanwhile; ids are unique, and no file has the zero time and the zero id.
pub list_page-Listing :
    (owner_id : ℕ) (folder_id : Option ℕ) (include_deleted descending : Bool) (db : Db) (n l : ℕ)
    (p : File → Bool)
    → Distinct file_key descending (folder_files owner_id folder_id include_deleted db)
    → All (λ f. is_zero (file_key f) ≡ false) (folder_files owner_id folder_id include_deleted db)
    → length (folder_files owner_id folder_id include_deleted db) < n
    → Listing file_key descending
        (walk file_key descending n
          (suc l)
          (list_page owner_id folder_id include_deleted descending db (suc l))
          zero_cursor)
        p
        (folder_files owner_id folder_id include_deleted db)
unfolding list_page
list_page-Listing owner_id folder_id include_deleted descending db n l p distinct nonzero enough =
    walk-Listing file_key descending n l p (folder_files owner_id folder_id include_deleted db)
      distinct nonzero enough

-- The same of `ListByFile`: the pages are all the versions of the file, the newest first.
version_page-Listing :
    (file_id : ℕ) (db : Db) (n l : ℕ) (p : Version → Bool)
    → Distinct version_key true (file_versions file_id db)
    → All (λ v. is_zero (version_key v) ≡ false) (file_versions file_id db)
    → length (file_versions file_id db) < n
    → Listing version_key true
        (walk version_key true n (suc l) (version_page file_id db (suc l)) zero_cursor)
        p
        (file_versions file_id db)
unfolding version_page
version_page-Listing file_id db n l p distinct nonzero enough =
    walk-Listing version_key true n l p (file_versions file_id db) distinct nonzero enough
