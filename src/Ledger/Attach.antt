-- ===== src/Ledger/Attach.antt =====
-- A new version with its reference and its charge (`attachVersion` of internal/usecase/upload_uc.go,
-- `RestoreVersion` of internal/usecase/file_uc.go) balances.
use strato.Prelude.{
  ap, ◌∙◌, some, ℕ, ◌+◌, ◌≡◌, refl, Bool, true, false, [], ◌∷◌, ◌++◌, arith, ◌==◌, any_row,
  update_rows,
}
use strato.Entity.Storage.{Version}
use strato.Domain.Error.{ok}
use strato.Domain.Action.{pure}
use strato.Domain.Ends.{Ends, Ends-bind, Ends-fail, Ends-statement, Ends-always}
use strato.Usecase.Upload.Attach.{append_version}
use strato.Domain.World.{Db, World}
use strato.Postgres.QuotaRepo
use strato.Postgres.QuotaRepo.{of_user, fits, charge_row}
use strato.Postgres.VersionRepo
use strato.Postgres.FileRepo
use strato.Postgres.BlobRepo
use strato.Ledger.Balance.{owned, Ledger}
use strato.Ledger.Grown.{grown, counted, touched, charged, one_more, charge_quota, append-Ledger}

create_row-ok :
    (v row : Version) (w : World) (db d : Db)
    → VersionRepo.create_row v w db ≡ ok (row, d)
    → (d ≡ record db { versions = db.versions ++ row ∷ [] })
      × (row.file_id ≡ v.file_id)
      × (row.blob_id ≡ v.blob_id)
      × (row.size_bytes ≡ v.size_bytes)
      × (any_row (FileRepo.by_id v.file_id) db.files ≡ true)
      × (any_row (BlobRepo.by_id v.blob_id) db.blobs ≡ true)
unfolding VersionRepo.create_row
create_row-ok v row w db d e = ground arith

increment_row-ok :
    (id : ℕ) (db d : Db)
    → BlobRepo.increment_row id db ≡ ok (tt, d)
    → d ≡ record db {
      blobs =
          update_rows (BlobRepo.by_id id) (λ b. record b { ref_count = b.ref_count + 1 }) db.blobs;
    }
unfolding BlobRepo.increment_row
increment_row-ok id db d e = ground arith

set_current_row-ok :
    (file_id version_id : ℕ) (w : World) (db d : Db)
    → FileRepo.set_current_row file_id version_id w db ≡ ok (tt, d)
    → d ≡ record db {
      files =
          update_rows
            (FileRepo.by_id file_id)
            (λ f. record f { current_version_id = some version_id; updated_at = w.db_clock })
            db.files;
    }
unfolding FileRepo.set_current_row
set_current_row-ok file_id version_id w db d e = ground arith

charge_row-ok :
    (user_id n : ℕ) (db d : Db)
    → charge_row user_id n db ≡ ok (true, d)
    → (d ≡ record db {
      quotas =
          update_rows (fits user_id n) (λ q. record q { used_bytes = q.used_bytes + n }) db.quotas;
    })
      × (any_row (fits user_id n) db.quotas ≡ true)
unfolding charge_row
charge_row-ok user_id n db d e = ground arith

-- The transaction balances where the version's file is the owner's and all its statements succeed.
module _ (owner_id : ℕ) (v : Version) where
  balance :
      (w1 w3 : World) (db d1 d2 d3 d4 : Db) (row : Version)
      → Ledger db
      → ((u : ℕ) → owned u v.file_id db.files ≡ (owner_id == u))
      → VersionRepo.create_row v w1 db ≡ ok (row, d1)
      → BlobRepo.increment_row v.blob_id d1 ≡ ok (tt, d2)
      → FileRepo.set_current_row v.file_id v.id w3 d2 ≡ ok (tt, d3)
      → charge_row owner_id v.size_bytes d3 ≡ ok (true, d4)
      → Ledger d4
  unfolding grown counted touched charged one_more charge_quota
  balance w1 w3 db d1 d2 d3 d4 row l own e1 e2 e3 e4 =
      let (s1, file_id, blob_id, size, file, blob) = create_row-ok v row w1 db d1 e1 in
      let s2 = increment_row-ok v.blob_id d1 d2 e2 in
      let s3 = set_current_row-ok v.file_id v.id w3 d2 d3 e3 in
      let (s4, taken) = charge_row-ok owner_id v.size_bytes d3 d4 e4 in
      let same : d3.quotas ≡ db.quotas =
        ap (λ (d : Db). d.quotas) s3
        ∙ ap (λ (d : Db). d.quotas) s2
        ∙ ap (λ (d : Db). d.quotas) s1 in
      rw (s4, s3, s2, s1, ← size, ← file_id, ← blob_id)
        (append-Ledger db row owner_id
          (λ f. record f { current_version_id = some v.id; updated_at = w3.db_clock }) (λ x. refl)
          (λ x. refl) (λ u. rw file_id (own u)) (rw file_id file) (rw blob_id blob)
          (rw (size, ← same) taken) l)

  charged-Ends :
      (taken : Bool) (w1 w3 x : World) (db d1 d2 d3 d4 : Db) (row : Version)
      → Ledger db
      → ((u : ℕ) → owned u v.file_id db.files ≡ (owner_id == u))
      → VersionRepo.create_row v w1 db ≡ ok (row, d1)
      → BlobRepo.increment_row v.blob_id d1 ≡ ok (tt, d2)
      → FileRepo.set_current_row v.file_id v.id w3 d2 ≡ ok (tt, d3)
      → charge_row owner_id v.size_bytes d3 ≡ ok (taken, d4)
      → Ends (QuotaRepo.after_charge owner_id taken (record x { db = d4 })) (λ _ z. Ledger z.db)
  unfolding QuotaRepo.after_charge Ends pure
  charged-Ends true w1 w3 x db d1 d2 d3 d4 row l own e1 e2 e3 e4 =
      balance w1 w3 db d1 d2 d3 d4 row l own e1 e2 e3 e4
  charged-Ends false w1 w3 x db d1 d2 d3 d4 row l own e1 e2 e3 e4 =
      Ends-bind _ _ _ _ (Ends-always _ _ (λ a w. Ends-fail _ _ _))

  pub append_version-Ends :
      (w : World)
      → Ledger w.db
      → ((u : ℕ) → owned u v.file_id w.db.files ≡ (owner_id == u))
      → Ends (append_version v owner_id w) (λ _ x. Ledger x.db)
  unfolding append_version VersionRepo.create BlobRepo.increment_ref FileRepo.set_current_version
      QuotaRepo.add_usage
  append_version-Ends w l own = Ends-bind _ _ _ _ (
      Ends-statement _ _ _ λ v1 row d1 e1. Ends-bind _ _ _ _ (
        Ends-statement _ _ _ λ v2 _ d2 e2. Ends-bind _ _ _ _ (
          Ends-statement _ _ _ λ v3 _ d3 e3. Ends-bind _ _ _ _ (
            Ends-statement _ _ _ λ v4 taken d4 e4.
              charged-Ends taken v1 v3 v4 w.db d1 d2 d3 d4 row l own e1 e2 e3 e4))))
