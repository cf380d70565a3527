-- ===== src/Ledger/Grown.antt =====
-- Tables with one more version, its reference and its charge (`attachVersion` of
-- internal/usecase/upload_uc.go, `RestoreVersion` of internal/usecase/file_uc.go).
use strato.Prelude.{
  ◌∙◌, All-every, All-both, ℕ, ◌+◌, ◌≤◌, ◌≡◌, refl, Bool, true, List, [], ◌∷◌, ◌++◌, arith, ◌==◌,
  if◌then◌else◌, any_row, update_rows, count_rows, All, All-update_rows, All-append, All-map,
  count_rows-append, sum_rows-append, sym, subst,
}
use strato.Entity.Account.{Quota}
use strato.Entity.Storage.{File, Version, Blob}
use strato.Domain.World.{Db}
use strato.Postgres.QuotaRepo.{of_user, fits}
use strato.Postgres.FileRepo
use strato.Postgres.BlobRepo
use strato.Ledger.Balance.{
  owned, refs_to, usage_of, Counted, Used, Stored, Ledger, owned-update_rows, any_row-update_rows,
  count_rows-update_rows, sum_rows-agree, All-only,
}

-- Of a user's one quota, if any row takes a charge it is that one.
fits-All :
    (user_id n : ℕ) (qs : List Quota)
    → count_rows (of_user user_id) qs ≤ 1
    → any_row (fits user_id n) qs ≡ true
    → All (λ q. of_user user_id q ≡ true → fits user_id n q ≡ true) qs
fits-All user_id n qs one hit =
    All-only (of_user user_id) (fits user_id n) qs (λ q h. ground arith) one hit

module _ (versions : List Version) (row : Version) where
  refs_to-grown :
      (blob_id : ℕ)
      → refs_to blob_id (versions ++ row ∷ [])
        ≡ refs_to blob_id versions + (if row.blob_id == blob_id then 1 else 0)
  refs_to-grown blob_id = count_rows-append (λ x. x.blob_id == blob_id) versions row

  -- The usage of a user with one more version.
  usage_of-grown :
      (user_id owner_id : ℕ) (fs : List File)
      → (owned user_id row.file_id fs ≡ (owner_id == user_id))
      → usage_of user_id fs (versions ++ row ∷ [])
        ≡ usage_of user_id fs versions + (if owner_id == user_id then row.size_bytes else 0)
  usage_of-grown user_id owner_id fs own =
      rw (sum_rows-append (λ x. owned user_id x.file_id fs) (λ x. x.size_bytes) versions row)
        (rw own refl)

-- The usage reads of a file its id and its owner only.
pub usage_of-update_rows :
    (user_id : ℕ) (p : File → Bool) (f : File → File) (fs : List File) (versions : List Version)
    → ((x : File) → (f x).id ≡ x.id)
    → ((x : File) → (f x).owner_id ≡ x.owner_id)
    → usage_of user_id (update_rows p f fs) versions ≡ usage_of user_id fs versions
usage_of-update_rows user_id p f fs versions hi ho =
    sum_rows-agree (λ x. owned user_id x.file_id (update_rows p f fs))
      (λ x. owned user_id x.file_id fs) (λ x. x.size_bytes) versions
      (All-every _ versions (λ x. owned-update_rows user_id x.file_id p f fs hi ho))

module _ (db : Db) (row : Version) (owner_id : ℕ) (touch : File → File) where
  unfoldable pub one_more : Blob → Blob
  one_more b = record b { ref_count = b.ref_count + 1 }

  unfoldable pub charge_quota : Quota → Quota
  charge_quota q = record q { used_bytes = q.used_bytes + row.size_bytes }

  unfoldable pub grown : List Version
  grown = db.versions ++ row ∷ []

  unfoldable pub counted : List Blob
  unfolding one_more
  counted = update_rows (BlobRepo.by_id row.blob_id) one_more db.blobs

  unfoldable pub touched : List File
  touched = update_rows (FileRepo.by_id row.file_id) touch db.files

  unfoldable pub charged : List Quota
  unfolding charge_quota
  charged = update_rows (fits owner_id row.size_bytes) charge_quota db.quotas

  grown-refs : All (Counted db.versions) db.blobs → All (Counted grown) counted
  unfolding grown counted one_more
  grown-refs h =
      All-update_rows (Counted db.versions) (Counted grown) (BlobRepo.by_id row.blob_id) one_more
        db.blobs (λ b c hit. ground (arith, refs_to-grown db.versions row b.id))
        (λ b c miss. ground (arith, refs_to-grown db.versions row b.id)) h

  module _ (hi : (x : File) → (touch x).id ≡ x.id)
      (ho : (x : File) → (touch x).owner_id ≡ x.owner_id)
      (own : (u : ℕ) → owned u row.file_id db.files ≡ (owner_id == u)) where
    usage-after :
        (u : ℕ)
        → usage_of u touched grown
          ≡ usage_of u db.files db.versions + (if owner_id == u then row.size_bytes else 0)
    unfolding touched grown
    usage-after u =
        usage_of-update_rows u _ touch db.files _ hi ho
        ∙ usage_of-grown db.versions row u owner_id db.files (own u)

    grown-usage :
        count_rows (of_user owner_id) db.quotas ≤ 1
        → any_row (fits owner_id row.size_bytes) db.quotas ≡ true
        → All (Used db.files db.versions) db.quotas
        → All (Used touched grown) charged
    unfolding charged charge_quota
    grown-usage one taken h =
        let Fits =
          λ (q : Quota). of_user owner_id q ≡ true → fits owner_id row.size_bytes q ≡ true in
        All-update_rows (λ q. Used db.files db.versions q × Fits q) (Used touched grown)
          (fits owner_id row.size_bytes) charge_quota db.quotas
          (λ q c hit. ground (arith, usage-after q.user_id))
          (λ q c miss. ground (arith, usage-after q.user_id))
          (All-both _ _ db.quotas h (fits-All owner_id row.size_bytes db.quotas one taken))

    grown-Stored :
        any_row (FileRepo.by_id row.file_id) db.files ≡ true
        → any_row (BlobRepo.by_id row.blob_id) db.blobs ≡ true
        → All (Stored db.files db.blobs) db.versions
        → All (Stored touched counted) grown
    unfolding touched counted grown one_more
    grown-Stored file blob h =
        let same_file = λ (id : ℕ).
          any_row-update_rows (FileRepo.by_id id) (FileRepo.by_id row.file_id) touch db.files
            (λ x. rw (hi x) refl) in
        let same_blob = λ (id : ℕ).
          any_row-update_rows (BlobRepo.by_id id) (BlobRepo.by_id row.blob_id) one_more db.blobs
            (λ x. refl) in
        All-append (Stored touched counted) db.versions row
          (All-map (Stored db.files db.blobs) (Stored touched counted) db.versions
            (λ x k. (same_file x.file_id ∙ k.0, same_blob x.blob_id ∙ k.1)) h)
          (same_file row.file_id ∙ file, same_blob row.blob_id ∙ blob)

    pub append-Ledger :
        any_row (FileRepo.by_id row.file_id) db.files ≡ true
        → any_row (BlobRepo.by_id row.blob_id) db.blobs ≡ true
        → any_row (fits owner_id row.size_bytes) db.quotas ≡ true
        → Ledger db
        → Ledger
            (record db { versions = grown; blobs = counted; files = touched; quotas = charged })
    unfolding charged charge_quota touched
    append-Ledger file blob taken l = record {
      refs = grown-refs l.refs;
      usage = grown-usage (l.one_quota owner_id) taken l.usage;
      one_quota = λ u.
          subst (λ (n : ℕ). n ≤ 1)
            (sym (
              count_rows-update_rows (of_user u) (fits owner_id row.size_bytes) charge_quota
                db.quotas (λ q. refl)))
            (l.one_quota u);
      one_file = λ id.
          subst (λ (n : ℕ). n ≤ 1)
            (sym (
              count_rows-update_rows (FileRepo.by_id id) (FileRepo.by_id row.file_id) touch db.files
                (λ x. rw (hi x) refl)))
            (l.one_file id);
      stored = grown-Stored file blob l.stored;
    }
