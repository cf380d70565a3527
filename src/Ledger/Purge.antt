-- ===== src/Ledger/Purge.antt =====
-- The removal of a file with its versions, references and usage (`sweepTrash` of
-- internal/service/gc.go) balances.
use strato.Prelude.{
  ℕ, ◌+◌, ◌-◌, ◌≤◌, ◌≡◌, refl, ◌∙◌, false, List, arith, ltb, ◌==◌, if◌then◌else◌, update_rows,
  delete_rows, count_rows, All, All-map, All-both, All-update_rows, All-delete_rows,
}
use strato.Entity.Account.{Quota}
use strato.Entity.Storage.{File, Version, Blob}
use strato.Domain.World.{Db}
use strato.Postgres.QuotaRepo.{of_user, fits}
use strato.Postgres.VersionRepo.{of_file, total_of}
use strato.Postgres.FileRepo
use strato.Postgres.BlobRepo
use strato.Ledger.Balance.{
  owned, usage_of, Counted, Used, Stored, Ledger, owned-update_rows, any_row-update_rows,
  count_rows-update_rows, sum_rows-agree,
}
use strato.Ledger.Deletion.{
  count_rows-delete_rows, sum_rows-delete_rows, count_rows-fewer, delete_rows-rest,
  owned-delete_rows, any_row-delete_rows, usage-gone,
}

module _ (db : Db) (id owner_id : ℕ) (touch : File → File) (hi : (x : File) → (touch x).id ≡ x.id)
    (ho : (x : File) → (touch x).owner_id ≡ x.owner_id)
    (own : (u : ℕ) → owned u id db.files ≡ (owner_id == u)) where
  unfoldable pub left_versions : List Version
  left_versions = delete_rows (of_file id) db.versions

  unfoldable pub left_files : List File
  left_files = delete_rows (FileRepo.by_id id) (update_rows (FileRepo.by_id id) touch db.files)

  unfoldable pub lessened : Blob → Blob
  lessened b = record b { ref_count = b.ref_count - BlobRepo.refs_of id b.id db.versions }

  unfoldable pub left_blobs : List Blob
  unfolding lessened
  left_blobs = update_rows (λ b. ltb 0 (BlobRepo.refs_of id b.id db.versions)) lessened db.blobs

  left-refs : All (Counted db.versions) db.blobs → All (Counted left_versions) left_blobs
  unfolding left_versions left_blobs lessened
  left-refs h =
      All-update_rows (Counted db.versions) (Counted left_versions) _ lessened db.blobs
        (λ b c hit.
          ground (arith, count_rows-delete_rows (λ v. v.blob_id == b.id) (of_file id) db.versions))
        (λ b c miss.
          ground (arith, count_rows-delete_rows (λ v. v.blob_id == b.id) (of_file id) db.versions))
        h

  left-owned :
      (u : ℕ) → All (λ v. owned u v.file_id left_files ≡ owned u v.file_id db.files) left_versions
  unfolding left_files left_versions
  left-owned u =
      All-map (λ v. of_file id v ≡ false)
        (λ v. owned u v.file_id left_files ≡ owned u v.file_id db.files) left_versions
        (λ v other.
          owned-delete_rows u v.file_id id _ other
          ∙ owned-update_rows u v.file_id _ touch db.files hi ho)
        (delete_rows-rest (of_file id) db.versions)

  left-usage :
      (u : ℕ)
      → usage_of u left_files left_versions + (if owner_id == u then total_of id db else 0)
        ≡ usage_of u db.files db.versions
  unfolding left_versions
  left-usage u =
      let kept =
        sum_rows-agree (λ v. owned u v.file_id left_files) (λ v. owned u v.file_id db.files)
          (λ v. v.size_bytes) left_versions (left-owned u) in
      let split =
        sum_rows-delete_rows (λ v. owned u v.file_id db.files) (of_file id) (λ v. v.size_bytes)
          db.versions in
      let gone = usage-gone id owner_id db.files own u db.versions in
      grind (arith, kept, split, gone)

  left-Stored :
      All (Stored db.files db.blobs) db.versions → All (Stored left_files left_blobs) left_versions
  unfolding left_files left_versions left_blobs lessened
  left-Stored h =
      All-map (λ v. Stored db.files db.blobs v × (of_file id v ≡ false))
        (Stored left_files left_blobs) left_versions
        (λ v k. (
          any_row-delete_rows v.file_id id _ k.1
              ∙ any_row-update_rows (FileRepo.by_id v.file_id) _ touch db.files
                  (λ x. rw (hi x) refl)
              ∙ k.0.0,
          any_row-update_rows (BlobRepo.by_id v.blob_id) _ lessened db.blobs (λ b. refl) ∙ k.0.1,
        ))
        (All-both _ _ left_versions (All-delete_rows _ (of_file id) db.versions h)
          (delete_rows-rest (of_file id) db.versions))

  left-one_file :
      ((j : ℕ) → count_rows (FileRepo.by_id j) db.files ≤ 1)
      → (j : ℕ) → count_rows (FileRepo.by_id j) left_files ≤ 1
  unfolding left_files
  left-one_file h j =
      let fewer =
        count_rows-fewer (FileRepo.by_id j) (FileRepo.by_id id)
          (update_rows (FileRepo.by_id id) touch db.files) in
      let same =
        count_rows-update_rows (FileRepo.by_id j) (FileRepo.by_id id) touch db.files
          (λ x. rw (hi x) refl) in
      let one = h j in grind (arith, fewer, same, one)

  -- The accounts once the quota has given the bytes back, which it holds.
  pub left-Ledger :
      (quotas : List Quota)
      → All (Used left_files left_versions) quotas
      → ((u : ℕ) → count_rows (of_user u) quotas ≤ 1)
      → Ledger db
      → Ledger (record db {
        versions = left_versions;
        blobs = left_blobs;
        files = left_files;
        quotas = quotas;
      })
  left-Ledger quotas used one l = record {
    refs = left-refs l.refs;
    usage = used;
    one_quota = one;
    one_file = left-one_file l.one_file;
    stored = left-Stored l.stored;
  }

  unfoldable pub released : Quota → Quota
  released q = record q { used_bytes = q.used_bytes - total_of id db }

  pub released-usage :
      All (Used db.files db.versions) db.quotas
      → All (Used left_files left_versions) (update_rows (of_user owner_id) released db.quotas)
  unfolding released
  released-usage h =
      All-update_rows (Used db.files db.versions) (Used left_files left_versions) (of_user owner_id)
        released db.quotas (λ q c hit. ground (arith, left-usage q.user_id))
        (λ q c miss. ground (arith, left-usage q.user_id)) h

  -- Nothing is given back for a file without bytes: the charge of 0 leaves the usage.
  unfoldable pub uncharged : Quota → Quota
  uncharged q = record q { used_bytes = q.used_bytes + 0 }

  pub uncharged-usage :
      total_of id db ≡ 0
      → All (Used db.files db.versions) db.quotas
      → All (Used left_files left_versions) (update_rows (fits owner_id 0) uncharged db.quotas)
  unfolding uncharged
  uncharged-usage none_left h =
      All-update_rows (Used db.files db.versions) (Used left_files left_versions) (fits owner_id 0)
        uncharged db.quotas (λ q c hit. ground (arith, left-usage q.user_id))
        (λ q c miss. ground (arith, left-usage q.user_id)) h
