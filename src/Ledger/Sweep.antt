-- ===== src/Ledger/Sweep.antt =====
-- The sweeps of internal/service/gc.go keep the accounts.
use strato.Prelude.{
  map, take, order_by, select_rows, All-mapped, ℕ, ◌≤◌, ◌≡◌, subst, List, [], ◌∷◌, arith,
  count_rows, All, All-map, All-take, All-order_by, All-select_rows,
}
use strato.Entity.Storage.{File}
use strato.Entity.Upload.{UploadSession, expired}
use strato.Domain.Error.{ok, ok-injective}
use strato.Domain.World.{Db, World}
use strato.Domain.Action.{Action, pure, gets, ◌>>=◌}
use strato.Domain.Ends.{attempt_query-leads}
use strato.Domain.Keeps.{
  Keeps, attempt-then, Keeps-after, Keeps-bind, Keeps-statement, Keeps-query, Keeps-pure,
  Keeps-gets, Keeps-ignore, Keeps-attempt_bind, Keeps-attempt, kept,
}
use strato.Postgres.FileRepo
use strato.Postgres.BlobRepo
use strato.Postgres.UploadRepo
use strato.Postgres.SessionRepo
use strato.Usecase.Upload.Session.{cleanup_session}
use strato.Usecase.Upload.Accounts.{cleanup_staging-Keeps}
use strato.Service.Gc.{
  GcConfig, sweep_each, sweep_expired_uploads, purge_file, sweep_trash, reclaim_blob,
  sweep_orphaned_blobs, sweep,
}
use strato.Ledger.Balance.{Ledger}
use strato.Ledger.Steps.{Ledger-same, update_status-Keeps, selected-id, selected-owner_id}
use strato.Ledger.Trash.{Known, purge_file-Ledger}
use strato.Ledger.Orphans.{reclaim_blob-Keeps}
use strato.Ledger.Owners.{purge_file-Known, rows-owned}

-- The purge of each of the files of a list, of which each is its owner's or gone.
sweep_each-Ledger :
    (fs : List File) (w : World)
    → Ledger w.db
    → All (λ f. Known f w.db) fs
    → Ledger (sweep_each purge_file fs w).1.db
unfolding sweep_each
sweep_each-Ledger [] w l k = kept Ledger _ w (Keeps-pure _ _) l
sweep_each-Ledger (f ∷ fs) w l k =
    let after = (purge_file f w).1 in
    let l' : Ledger after.db = purge_file-Ledger f w l k.0 in
    let k' : All (λ g. Known g after.db) fs =
      All-map _ _ fs (λ g h. kept (Known g) (purge_file f) w (purge_file-Known g f) h) k.1 in
    attempt-then Ledger _ _ w
      (Keeps-after Ledger _ _ after (sweep_each-Ledger fs after l' k') (λ n. Keeps-pure _ _))

-- Each file of the listing is its owner's.
listed-Known :
    (older_than limit : ℕ) (db : Db) (fs : List File)
    → ((id : ℕ) → count_rows (FileRepo.by_id id) db.files ≤ 1)
    → ok (
        map
          (λ f. FileRepo.selected f db)
          (take limit (
            order_by FileRepo.deletion_time
              (select_rows (FileRepo.deleted_before older_than) db.files))))
      ≡ ok fs
    → All (λ f. Known f db) fs
listed-Known older_than limit db fs one e = subst (All (λ f. Known f db)) (ok-injective e) (
    All-mapped (λ f. Known f db) (λ f. FileRepo.selected f db) _
      (All-take _ limit _ (
        All-order_by _ FileRepo.deletion_time _ (
          All-select_rows _ _ db.files (
            All-map _ (λ f. Known (FileRepo.selected f db) db) db.files
              (λ f k _ u. rw (selected-id f db, selected-owner_id f db) (k u))
              (rows-owned db.files one))))))

sweep_trash-Ledger : (cfg : GcConfig) (w : World) → Ledger w.db → Ledger (sweep_trash cfg w).1.db
unfolding sweep_trash FileRepo.list_deleted_before
sweep_trash-Ledger cfg w l =
    unfold ◌>>=◌ gets in
    attempt_query-leads (λ r. Ledger r.1.db) _ _ w
      (λ v fs same e.
        sweep_each-Ledger fs v (rw same l)
          (rw same (listed-Known _ cfg.batch_size w.db fs l.one_file e)))
      (λ v e same. kept {A = ℕ} Ledger (pure 0) v (Keeps-pure _ _) (rw same l))

sweep_trash-Keeps : (cfg : GcConfig) → Keeps Ledger (sweep_trash cfg)
unfolding Keeps
sweep_trash-Keeps cfg w l = sweep_trash-Ledger cfg w l

cleanup_session-Keeps : (s : UploadSession) → Keeps Ledger (cleanup_session s)
unfolding cleanup_session
cleanup_session-Keeps s =
    Keeps-bind _ _ _ (update_status-Keeps s.id expired) λ _. cleanup_staging-Keeps Ledger s

sweep_each-Keeps {ℓ} :
    {A : Type ℓ} (I : Db → Type 0) (item : A → Action (Unit {0}))
    → ((a : A) → Keeps I (item a))
    → (xs : List A) → Keeps I (sweep_each item xs)
unfolding sweep_each
sweep_each-Keeps I item h [] = Keeps-pure _ _
sweep_each-Keeps I item h (x ∷ xs) =
    Keeps-bind _ _ _ (Keeps-attempt _ _ (h x))
      λ r. Keeps-bind _ _ _ (sweep_each-Keeps I item h xs) λ n. Keeps-pure _ _

sweep_expired_uploads-Keeps : (cfg : GcConfig) → Keeps Ledger (sweep_expired_uploads cfg)
unfolding sweep_expired_uploads UploadRepo.list_expired
sweep_expired_uploads-Keeps cfg = Keeps-bind _ _ _ (Keeps-gets _ _) λ now.
    Keeps-attempt_bind _ _ _ (Keeps-query _ _)
      (λ ss.
        Keeps-bind _ _ _ (sweep_each-Keeps Ledger cleanup_session cleanup_session-Keeps ss)
          λ _. Keeps-pure _ _)
      (λ _. Keeps-pure _ _)

sweep_orphaned_blobs-Keeps : (cfg : GcConfig) → Keeps Ledger (sweep_orphaned_blobs cfg)
unfolding sweep_orphaned_blobs BlobRepo.list_orphaned
sweep_orphaned_blobs-Keeps cfg = Keeps-bind _ _ _ (Keeps-gets _ _) λ now.
    Keeps-attempt_bind _ _ _ (Keeps-query _ _)
      (sweep_each-Keeps Ledger reclaim_blob reclaim_blob-Keeps) (λ _. Keeps-pure _ _)

delete_expired-Keeps : (now : ℕ) → Keeps Ledger (SessionRepo.delete_expired now)
unfolding SessionRepo.delete_expired
delete_expired-Keeps now =
    Keeps-statement _ _
      λ w d d' a e l. Ledger-same d d' (ground arith) (ground arith) (ground arith) (ground arith) l

-- A whole sweep of the collector, at any world and whatever calls fail: tables whose counters are
-- right, with each quota's usage within it, are tables of that kind afterwards.
pub sweep-Ledger : (cfg : GcConfig) (w : World) → Ledger w.db → Ledger (sweep cfg w).1.db
unfolding sweep
sweep-Ledger cfg w l =
    kept Ledger _ w
      (Keeps-bind _ _ _ (sweep_expired_uploads-Keeps cfg) λ _.
        Keeps-bind _ _ _ (sweep_trash-Keeps cfg) λ _.
          Keeps-bind _ _ _ (sweep_orphaned_blobs-Keeps cfg) λ _.
            Keeps-bind _ _ _ (Keeps-gets _ _) λ now.
              Keeps-bind _ _ _ (Keeps-ignore _ _ (delete_expired-Keeps now)) λ _. Keeps-pure _ _)
      l
