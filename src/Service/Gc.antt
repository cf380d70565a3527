-- ===== src/Service/Gc.antt =====
-- internal/service/gc.go: the four sweeps of the garbage collector. The pool runs the cleanups of
-- one sweep in the order of their submission here (pkg/workerpool), with no shutdown in between.
use strato.Prelude.{ℕ, zero, suc, ◌-◌, List, [], ◌∷◌, length, if◌then◌else◌}
use strato.Entity.Storage.{File, Blob}
use strato.Domain.Error.{ok, err, is_not_found}
use strato.Domain.Action.{Action, pure, fail, gets, attempt, ignore, within_tx, ◌>>=◌, ◌>>◌}
use strato.Outside
use strato.Postgres.QuotaRepo
use strato.Postgres.QuotaRepo.{negated}
use strato.Postgres.FileRepo
use strato.Postgres.VersionRepo
use strato.Postgres.BlobRepo
use strato.Postgres.UploadRepo
use strato.Postgres.SessionRepo
use strato.Usecase.Upload.Session.{cleanup_session}

-- `GCConfig`, with the batch size that `NewGC` settles.
pub record GcConfig : Type 0 where
  pub trash_retention : ℕ
  pub orphan_grace : ℕ
  pub batch_size : ℕ

-- The default that `NewGC` puts for a batch size that is not positive.
unfoldable pub settled : GcConfig → GcConfig
settled cfg = elim cfg.batch_size [ zero ↦ record cfg { batch_size = 100 } | suc _ ↦ cfg ]

-- The count of the items of a sweep for which `item` succeeds: an error is logged, and the sweep
-- goes on with the next one.
unfoldable pub sweep_each {ℓ} : {A : Type ℓ} → (A → Action (Unit {0})) → List A → Action ℕ
sweep_each item [] = pure 0
sweep_each item (x ∷ xs) =
    attempt (item x) >>= λ r. sweep_each item xs >>= λ n. pure (elim r [ ok _ ↦ suc n | err _ ↦ n ])

-- `sweepExpiredUploads`.
unfoldable pub sweep_expired_uploads : GcConfig → Action ℕ
sweep_expired_uploads cfg = gets (λ w. w.clock) >>= λ now.
    attempt (UploadRepo.list_expired now cfg.batch_size) >>= λ r. elim r [
      | err _ ↦ pure 0
      | ok expired ↦ sweep_each cleanup_session expired >>= λ _. pure (length expired)
    ]

-- The transaction of `sweepTrash` for a file.
unfoldable pub purge_file : File → Action (Unit {0})
purge_file f = within_tx (
    VersionRepo.total_bytes f.id >>= λ total.
    BlobRepo.decrement_refs_for_file f.id
    >> (QuotaRepo.add_usage f.owner_id (negated total) >> FileRepo.purge f.id))

-- `sweepTrash`: a cutoff before the epoch takes no file.
unfoldable pub sweep_trash : GcConfig → Action ℕ
sweep_trash cfg = gets (λ w. w.clock) >>= λ now.
    attempt (FileRepo.list_deleted_before (now - cfg.trash_retention) cfg.batch_size) >>= λ r.
    elim r [ err _ ↦ pure 0 | ok files ↦ sweep_each purge_file files ]

-- A blob of `sweepOrphanedBlobs`: its object first, then its row, which may be gone or in use again.
unfoldable pub reclaim_blob : Blob → Action (Unit {0})
reclaim_blob b =
    Outside.delete b.storage_key
    >> (attempt (BlobRepo.delete b.id) >>= λ r. elim r [
      | ok _ ↦ pure tt
      | err e ↦ if is_not_found e then pure tt else fail e
    ])

-- `sweepOrphanedBlobs`.
unfoldable pub sweep_orphaned_blobs : GcConfig → Action ℕ
sweep_orphaned_blobs cfg = gets (λ w. w.clock) >>= λ now.
    attempt (BlobRepo.list_orphaned (now - cfg.orphan_grace) cfg.batch_size) >>= λ r. elim r [
      | err _ ↦ pure 0
      | ok orphans ↦ sweep_each reclaim_blob orphans
    ]

-- `Sweep`, with the counts that it logs.
unfoldable pub sweep : GcConfig → Action (ℕ × ℕ × ℕ)
sweep cfg = sweep_expired_uploads cfg >>= λ uploads. sweep_trash cfg >>= λ files.
    sweep_orphaned_blobs cfg >>= λ blobs. gets (λ w. w.clock) >>= λ now.
    ignore (SessionRepo.delete_expired now) >> pure (uploads, files, blobs)
