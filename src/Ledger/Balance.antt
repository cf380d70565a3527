-- ===== src/Ledger/Balance.antt =====
-- What the comments of internal/repository/postgres/blob_repo.go and quota_repo.go promise of the
-- counters: `ref_count` counts the versions of a blob, `used_bytes` sums the versions of the files
-- of a user.
use strato.Prelude.{
  inl, inr, Bool-cases, All-map, ℕ, ◌≤◌, ◌≡◌, refl, Bool, true, false, List, [], ◌∷◌, arith, ◌==◌,
  if◌then◌else◌, any_row, update_rows, count_rows, sum_rows, All,
}
use strato.Entity.Account.{Quota}
use strato.Entity.Storage.{File, Version, Blob}
use strato.Domain.World.{Db}
use strato.Postgres.QuotaRepo.{of_user}
use strato.Postgres.FileRepo
use strato.Postgres.BlobRepo

-- The file of that id is a user's.
abbrev pub owned : ℕ → ℕ → List File → Bool
owned user_id file_id [] = false
owned user_id file_id (f ∷ fs) =
    if f.id == file_id then f.owner_id == user_id else owned user_id file_id fs

-- The versions of a blob.
abbrev pub refs_to : ℕ → List Version → ℕ
refs_to blob_id versions = count_rows (λ v. v.blob_id == blob_id) versions

-- The bytes of the versions of a user's files.
abbrev pub usage_of : ℕ → List File → List Version → ℕ
usage_of user_id files versions =
    sum_rows (λ v. owned user_id v.file_id files) (λ v. v.size_bytes) versions

abbrev pub Counted : List Version → Blob → Type 0
Counted versions b = b.ref_count ≡ refs_to b.id versions

abbrev pub Used : List File → List Version → Quota → Type 0
Used files versions q =
    (q.used_bytes ≡ usage_of q.user_id files versions) × (q.used_bytes ≤ q.quota_bytes)

abbrev pub Stored : List File → List Blob → Version → Type 0
Stored files blobs v =
    (any_row (FileRepo.by_id v.file_id) files ≡ true)
    × (any_row (BlobRepo.by_id v.blob_id) blobs ≡ true)

-- The counters are right and within their quotas, each user has one quota at most and each id one
-- file, and the file and the blob of each version exist.
pub record Ledger (db : Db) : Type 0 where
  pub refs : All (Counted db.versions) db.blobs
  pub usage : All (Used db.files db.versions) db.quotas
  pub one_quota : (user_id : ℕ) → count_rows (of_user user_id) db.quotas ≤ 1
  pub one_file : (id : ℕ) → count_rows (FileRepo.by_id id) db.files ≤ 1
  pub stored : All (Stored db.files db.blobs) db.versions

-- Updates that keep what the ledger reads.
pub owned-update_rows :
    (user_id id : ℕ) (p : File → Bool) (f : File → File) (fs : List File)
    → ((x : File) → (f x).id ≡ x.id)
    → ((x : File) → (f x).owner_id ≡ x.owner_id)
    → owned user_id id (update_rows p f fs) ≡ owned user_id id fs
owned-update_rows user_id id p f [] hi ho = refl
owned-update_rows user_id id p f (x ∷ fs) hi ho =
    ground (arith, owned-update_rows user_id id p f fs hi ho, hi x, ho x)

module _ {ℓ} {A : Type ℓ} where
  pub any_row-update_rows :
      (q p : A → Bool) (f : A → A) (xs : List A)
      → ((x : A) → q (f x) ≡ q x)
      → any_row q (update_rows p f xs) ≡ any_row q xs
  any_row-update_rows q p f [] h = refl
  any_row-update_rows q p f (x ∷ xs) h =
      let rest = any_row-update_rows q p f xs h in ground (arith, rest, h x)

  pub count_rows-update_rows :
      (q p : A → Bool) (f : A → A) (xs : List A)
      → ((x : A) → q (f x) ≡ q x)
      → count_rows q (update_rows p f xs) ≡ count_rows q xs
  count_rows-update_rows q p f [] h = refl
  count_rows-update_rows q p f (x ∷ xs) h =
      let rest = count_rows-update_rows q p f xs h in ground (arith, rest, h x)

  -- Two tests that agree on the rows have the same sum.
  pub sum_rows-agree :
      (p q : A → Bool) (f : A → ℕ) (xs : List A)
      → All (λ x. p x ≡ q x) xs
      → sum_rows p f xs ≡ sum_rows q f xs
  sum_rows-agree p q f [] h = refl
  sum_rows-agree p q f (x ∷ xs) h = ground (arith, sum_rows-agree p q f xs h.1, h.0)

  pub count_rows-none :
      (p : A → Bool) (xs : List A) → count_rows p xs ≡ 0 → All (λ x. p x ≡ false) xs
  count_rows-none p [] h = tt
  count_rows-none p (x ∷ xs) h = ground (arith, count_rows-none p xs)

  any_row-weaker :
      (p q : A → Bool) (xs : List A)
      → ((x : A) → q x ≡ true → p x ≡ true)
      → any_row q xs ≡ true
      → 1 ≤ count_rows p xs
  any_row-weaker p q [] k h = absurd (ground arith)
  any_row-weaker p q (x ∷ xs) k h = ground (arith, k x, any_row-weaker p q xs k)

  -- Where one row at most fits `p`, and some row fits the stronger `q`, that row does.
  pub All-only :
      (p q : A → Bool) (xs : List A)
      → ((x : A) → q x ≡ true → p x ≡ true)
      → count_rows p xs ≤ 1
      → any_row q xs ≡ true
      → All (λ x. p x ≡ true → q x ≡ true) xs
  All-only p q [] k one hit = tt
  All-only p q (x ∷ xs) k one hit = elim (Bool-cases (q x)) [
    | inl e ↦
        let none_left = count_rows-none p xs (ground (arith, k x)) in
        (λ _. e, All-map _ _ xs (λ y n h. cc) none_left)
    | inr e ↦
        let later : any_row q xs ≡ true = ground arith in
        let more = any_row-weaker p q xs k later in
        (λ h. absurd (ground arith), All-only p q xs k (ground arith) later)
  ]
