-- ===== src/Ledger/Orphans.antt =====
-- The reclaiming of blobs without references (`reclaimBlob` of internal/service/gc.go).
use strato.Prelude.{
  ap, ℕ, ◌≤◌, ◌≡◌, sym, subst, ap, ◌∙◌, Bool, true, List, [], ◌∷◌, arith, inl, inr, Bool-cases,
  ==_iff, ◌==◌, any_row, delete_rows, All, All-map, All-delete_rows, All-both,
}
use strato.Entity.Storage.{Version, Blob}
use strato.Domain.Error.{ok, is_not_found}
use strato.Domain.World.{Db}
use strato.Domain.Keeps.{
  Keeps, Keeps-bind, Keeps-statement, Keeps-if, Keeps-pure, Keeps-fail, Keeps-attempt_bind,
}
use strato.Outside.Tables.{delete-Keeps}
use strato.Postgres.BlobRepo
use strato.Service.Gc.{reclaim_blob}
use strato.Ledger.Balance.{refs_to, Counted, Ledger}

-- A blob with a version has a counter above zero, and stays.
referenced-stays :
    (id j : ℕ) (vs : List Version) (bs : List Blob)
    → All (Counted vs) bs
    → 1 ≤ refs_to j vs
    → any_row (BlobRepo.by_id j) bs ≡ true
    → any_row (BlobRepo.by_id j) (delete_rows (BlobRepo.unreferenced id) bs) ≡ true
referenced-stays id j vs [] c some_ref there = there
referenced-stays id j vs (b ∷ bs) c some_ref there = elim (Bool-cases (b.id == j)) [
  | inl e ↦
      let same : b.id ≡ j = (==_iff b.id j).0 e in
      let counted : b.ref_count ≡ refs_to j vs = c.0 ∙ ap (λ (i : ℕ). refs_to i vs) same in
      ground arith
  | inr e ↦
      let later : any_row (BlobRepo.by_id j) bs ≡ true = ground arith in
      let rest = referenced-stays id j vs bs c.1 some_ref later in ground arith
]

-- The blob of each version has a version.
versions-refs : (vs : List Version) → All (λ v. 1 ≤ refs_to v.blob_id vs) vs
versions-refs [] = tt
versions-refs (v ∷ vs) = (ground arith, All-map _ _ vs (λ x h. ground arith) (versions-refs vs))

deleted_blob-Ledger :
    (id : ℕ) (db : Db)
    → Ledger db
    → Ledger (record db { blobs = delete_rows (BlobRepo.unreferenced id) db.blobs })
deleted_blob-Ledger id db l = record {
  refs = All-delete_rows _ (BlobRepo.unreferenced id) db.blobs l.refs;
  usage = l.usage;
  one_quota = l.one_quota;
  one_file = l.one_file;
  stored =
      All-map _ _ db.versions
        (λ v k. (k.0.0, referenced-stays id v.blob_id db.versions db.blobs l.refs k.1 k.0.1))
        (All-both _ _ db.versions l.stored (versions-refs db.versions));
}

exec_one-ok : (taken : Bool) (db d : Db) → BlobRepo.exec_one taken db ≡ ok (tt, d) → d ≡ db
exec_one-ok taken db d e = ground arith

delete_blob-Keeps : (id : ℕ) → Keeps Ledger (BlobRepo.delete id)
unfolding BlobRepo.delete
delete_blob-Keeps id =
    Keeps-statement _ _
      λ w db d a e l. subst Ledger (sym (exec_one-ok _ _ d e)) (deleted_blob-Ledger id db l)

pub reclaim_blob-Keeps : (b : Blob) → Keeps Ledger (reclaim_blob b)
unfolding reclaim_blob
reclaim_blob-Keeps b = Keeps-bind _ _ _ (delete-Keeps Ledger b.storage_key) λ _.
    Keeps-attempt_bind _ _ _ (delete_blob-Keeps b.id) (λ _. Keeps-pure _ _)
      (λ e. Keeps-if _ (is_not_found e) _ _ (Keeps-pure _ _) (Keeps-fail _ _ _))
