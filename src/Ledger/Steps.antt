-- ===== src/Ledger/Steps.antt =====
-- The calls of the ports that keep the accounts: those that read, and the statements that leave what
-- the accounts read as it is.
use mathlib.Core.Bool.{true≢false}
use mathlib.Core.Option.{none-ne-some}
use strato.Prelude.{
  count_rows-append, ==_iff, ℕ, ◌≤◌, ◌≡◌, refl, sym, subst, ◌∙◌, Bool, true, false, List, [], ◌∷◌,
  ◌++◌, Option, some, arith, inl, inr, Bool-cases, ◌==◌, any_row, find_row, update_rows, count_rows,
  All, All-map, All-append, any_row-append,
}
use strato.Entity.Storage.{File, Version, Blob}
use strato.Entity.Upload.{UploadStatus}
use strato.Domain.Error.{ok}
use strato.Domain.World.{Db, World, AuditAction}
use strato.Domain.Keeps.{Keeps, Keeps-statement, Keeps-ignore}
use strato.Postgres.FileRepo
use strato.Postgres.BlobRepo
use strato.Postgres.UploadRepo
use strato.Usecase.Audit.{audit}
use strato.Postgres.AuditRepo
use strato.Ledger.Balance.{
  owned, refs_to, Counted, Used, Stored, Ledger, any_row-update_rows, count_rows-update_rows,
  sum_rows-agree,
}
use strato.Ledger.Grown.{usage_of-update_rows}

-- What the accounts read of the tables.
pub Ledger-same :
    (db d : Db)
    → d.blobs ≡ db.blobs
    → d.versions ≡ db.versions
    → d.files ≡ db.files
    → d.quotas ≡ db.quotas
    → Ledger db
    → Ledger d
Ledger-same db d eb ev ef eq l = record {
  refs = rw (eb, ev) l.refs;
  usage = rw (ef, ev, eq) l.usage;
  one_quota = rw eq l.one_quota;
  one_file = rw ef l.one_file;
  stored = rw (ef, eb, ev) l.stored;
}

-- The files may change in all but their id and owner.
pub Ledger-files :
    (db : Db) (p : File → Bool) (f : File → File)
    → ((x : File) → (f x).id ≡ x.id)
    → ((x : File) → (f x).owner_id ≡ x.owner_id)
    → Ledger db
    → Ledger (record db { files = update_rows p f db.files })
Ledger-files db p f hi ho l = record {
  refs = l.refs;
  usage =
      All-map (Used db.files db.versions) (Used (update_rows p f db.files) db.versions) db.quotas
        (λ q u. (u.0 ∙ sym (usage_of-update_rows q.user_id p f db.files db.versions hi ho), u.1))
        l.usage;
  one_quota = l.one_quota;
  one_file = λ id.
      subst (λ (n : ℕ). n ≤ 1)
        (sym (count_rows-update_rows (FileRepo.by_id id) p f db.files (λ x. rw (hi x) refl)))
        (l.one_file id);
  stored =
      All-map (Stored db.files db.blobs) (Stored (update_rows p f db.files) db.blobs) db.versions
        (λ v s. (
          any_row-update_rows (FileRepo.by_id v.file_id) p f db.files (λ x. rw (hi x) refl) ∙ s.0,
          s.1,
        ))
        l.stored;
}

pub audit-Keeps :
    (user_id : Option ℕ) (action : AuditAction) (id : ℕ) → Keeps Ledger (audit user_id action id)
unfolding audit AuditRepo.insert
audit-Keeps user_id action id = Keeps-ignore _ _ (
    Keeps-statement _ _ λ w d d' a e l.
      Ledger-same d d' (ground arith) (ground arith) (ground arith) (ground arith) l)

pub update_status-Keeps :
    (id : ℕ) (status : UploadStatus) → Keeps Ledger (UploadRepo.update_status id status)
unfolding UploadRepo.update_status UploadRepo.update_status_row
update_status-Keeps id status =
    Keeps-statement _ _
      λ w d d' a e l. Ledger-same d d' (ground arith) (ground arith) (ground arith) (ground arith) l

-- A version's blob exists, so that none refers to an id that is not taken.
unreferenced :
    (id : ℕ) (files : List File) (blobs : List Blob) (versions : List Version)
    → any_row (BlobRepo.by_id id) blobs ≡ false
    → All (Stored files blobs) versions
    → refs_to id versions ≡ 0
unreferenced id files blobs [] free h = refl
unreferenced id files blobs (v ∷ vs) free h =
    let rest = unreferenced id files blobs vs free h.1 in
    elim (Bool-cases (v.blob_id == id)) [
      | inl e ↦
          let same : v.blob_id ≡ id = (==_iff v.blob_id id).0 e in
          absurd (true≢false (sym h.0.1 ∙ rw same free))
      | inr e ↦ rw (e, count_rows) rest
    ]

create_blob-ok :
    (b : Blob) (w : World) (db d : Db)
    → BlobRepo.create_row b w db ≡ ok (tt, d)
    → (d ≡ record db { blobs = db.blobs ++ record b { created_at = w.db_clock } ∷ [] })
      × (any_row (BlobRepo.by_id b.id) db.blobs ≡ false)
unfolding BlobRepo.create_row
create_blob-ok b w db d e = ground arith

-- A new blob has no version yet.
pub create_blob-Keeps : (b : Blob) → b.ref_count ≡ 0 → Keeps Ledger (BlobRepo.create b)
unfolding BlobRepo.create
create_blob-Keeps b zero_refs = Keeps-statement _ _ λ w db d a e l.
    let (s, free) = create_blob-ok b w db d e in
    let row = record b { created_at = w.db_clock } in
    rw s (record {
      refs =
          All-append (Counted db.versions) db.blobs row l.refs
            (zero_refs ∙ sym (unreferenced b.id db.files db.blobs db.versions free l.stored));
      usage = l.usage;
      one_quota = l.one_quota;
      one_file = l.one_file;
      stored =
          All-map (Stored db.files db.blobs) (Stored db.files (db.blobs ++ row ∷ [])) db.versions
            (λ v h.
              (h.0, any_row-append (BlobRepo.by_id v.blob_id) db.blobs row ∙ ground (arith, h.1)))
            l.stored;
    })

find_row-counted :
    (p : File → Bool) (files : List File) (f : File)
    → find_row p files ≡ some f
    → 1 ≤ count_rows (FileRepo.by_id f.id) files
find_row-counted p [] f e = absurd (none-ne-some f e)
find_row-counted p (x ∷ fs) f e = ground (arith, find_row-counted p fs f)

-- Where one row at most has an id, a row that is found tells whose it is.
pub find_row-owned :
    (p : File → Bool) (files : List File) (f : File) (u : ℕ)
    → count_rows (FileRepo.by_id f.id) files ≤ 1
    → find_row p files ≡ some f
    → owned u f.id files ≡ (f.owner_id == u)
find_row-owned p [] f u one e = absurd (none-ne-some f e)
find_row-owned p (x ∷ fs) f u one e =
    ground (arith, find_row-counted p fs f, find_row-owned p fs f u)

create_file-ok :
    (f : File) (w : World) (db d : Db)
    → FileRepo.create_row f w db ≡ ok (tt, d)
    → (d ≡ record db { files = db.files ++ FileRepo.inserted f w ∷ [] })
      × (any_row (FileRepo.by_id f.id) db.files ≡ false)
unfolding FileRepo.create_row
create_file-ok f w db d e = ground arith

-- A new file changes the owner of no file that is there.
owned-append :
    (u id : ℕ) (files : List File) (f : File)
    → any_row (FileRepo.by_id id) files ≡ true
    → owned u id (files ++ f ∷ []) ≡ owned u id files
owned-append u id [] f h = absurd (true≢false (sym h))
owned-append u id (x ∷ fs) f h = ground (arith, owned-append u id fs f)

pub owned-new :
    (u : ℕ) (files : List File) (f : File)
    → any_row (FileRepo.by_id f.id) files ≡ false
    → owned u f.id (files ++ f ∷ []) ≡ (f.owner_id == u)
owned-new u [] f h = ground arith
owned-new u (x ∷ fs) f h = ground (arith, owned-new u fs f)

any_row-count_rows :
    (p : File → Bool) (files : List File) → any_row p files ≡ false → count_rows p files ≡ 0
any_row-count_rows p [] h = refl
any_row-count_rows p (x ∷ fs) h = ground (arith, any_row-count_rows p fs)

-- A new id is the id of one row.
count_rows-fresh :
    (id : ℕ) (files : List File) (row : File)
    → any_row (FileRepo.by_id row.id) files ≡ false
    → count_rows (FileRepo.by_id id) files ≤ 1
    → count_rows (FileRepo.by_id id) (files ++ row ∷ []) ≤ 1
count_rows-fresh id files row free one =
    let sum = count_rows-append (FileRepo.by_id id) files row in
    elim (Bool-cases (row.id == id)) [
      | inl e ↦
          let none_yet = any_row-count_rows (FileRepo.by_id id) files (
            subst (λ (n : ℕ). any_row (FileRepo.by_id n) files ≡ false) ((==_iff row.id id).0 e)
              free) in
          ground arith
      | inr e ↦ ground arith
    ]

-- A new file has no version yet.
pub create_file-Ledger :
    (f : File) (w : World) (db d : Db)
    → FileRepo.create_row f w db ≡ ok (tt, d)
    → Ledger db
    → Ledger d × ((u : ℕ) → owned u f.id d.files ≡ (f.owner_id == u))
create_file-Ledger f w db d e l =
    let (s, free) = create_file-ok f w db d e in
    let row = FileRepo.inserted f w in
    rw s (
      record {
        refs = l.refs;
        usage =
            All-map (Used db.files db.versions) (Used (db.files ++ row ∷ []) db.versions) db.quotas
              (λ q h. (
                h.0
                    ∙ sym (
                        sum_rows-agree (λ v. owned q.user_id v.file_id (db.files ++ row ∷ []))
                          (λ v. owned q.user_id v.file_id db.files) (λ v. v.size_bytes) db.versions
                          (All-map (Stored db.files db.blobs)
                            (λ v.
                              owned q.user_id v.file_id (db.files ++ row ∷ [])
                              ≡ owned q.user_id v.file_id db.files)
                            db.versions (λ v k. owned-append q.user_id v.file_id db.files row k.0)
                            l.stored)),
                h.1,
              ))
              l.usage;
        one_quota = l.one_quota;
        one_file = λ id. count_rows-fresh id db.files row free (l.one_file id);
        stored =
            All-map (Stored db.files db.blobs) (Stored (db.files ++ row ∷ []) db.blobs) db.versions
              (λ v k.
                (any_row-append (FileRepo.by_id v.file_id) db.files row ∙ ground (arith, k.0), k.1))
              l.stored;
      },
      λ u. owned-new u db.files row free,
    )

-- The joins of a file's row change neither its id nor its owner.
pub selected-id : (r : File) (db : Db) → (FileRepo.selected r db).id ≡ r.id
unfolding FileRepo.selected
selected-id r db = ground arith

pub selected-owner_id : (r : File) (db : Db) → (FileRepo.selected r db).owner_id ≡ r.owner_id
unfolding FileRepo.selected
selected-owner_id r db = ground arith
