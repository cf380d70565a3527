-- ===== src/Usecase/Upload/Accounts.antt =====
-- `Complete` of internal/usecase/upload_uc.go keeps the accounts, whatever fails on its way.
use strato.Prelude.{
  ℕ, ◌≡◌, refl, sym, ap, ◌∙◌, List, [], ◌∷◌, Option, some, none, arith, ◌==◌, find_row,
  find_row-fits,
}
use strato.Entity.Access.{Identity}
use strato.Entity.Storage.{File, Blob}
use strato.Entity.Upload.{UploadSession, Chunk, completed}
use strato.Domain.Error.{ok, ok-injective, is_not_found, is_already_exists}
use strato.Domain.World.{Db, World}
use strato.Domain.Action.{Action}
use strato.Domain.Ends.{
  Ends, Ends-bind, Ends-statement, Ends-pure, Ends-fail, Ends-fail_if, Ends-attempt_query, Ends-if,
  Ends-weaken,
}
use strato.Domain.Keeps.{
  Keeps, Keeps-attempt_bind, Keeps-lift, Keeps-gets, Keeps-if, Keeps-fail, Keeps-fail_if,
  Keeps-bind, Keeps-query, Keeps-pure, Keeps-attempt, Keeps-ignore, Keeps-within_tx,
}
use strato.Crypto.KeyWrap.{Wrapped}
use strato.Outside.Tables.{
  new_id-Ends, new_id-Keeps, random_bytes-Keeps, put-Keeps, get-Keeps, delete-Keeps, try_lock-Keeps,
  unlock-Keeps,
}
use strato.Outside.{Env}
use strato.Postgres.FileRepo
use strato.Postgres.BlobRepo
use strato.Postgres.UploadRepo
use strato.Usecase.Upload.Session.{owned_session, active_session, delete_chunks, cleanup_staging}
use strato.Usecase.Upload.Assemble.{copy_chunks, wrapped, seal_chunks, record_blob, assemble_blob}
use strato.Usecase.Upload.Attach.{target_file, attach_version, new_file, new_version}
use strato.Usecase.Upload.Complete.{content_blob, complete_locked, releasing, complete}
use strato.Ledger.Balance.{Ledger, owned}
use strato.Ledger.Attach.{append_version-Ends}
use strato.Ledger.Steps.{
  audit-Keeps, update_status-Keeps, create_blob-Keeps, create_file-Ledger, find_row-owned,
  selected-id,
}

-- The file of the upload is one of its user's.
abbrev Target : UploadSession → File → World → Type 0
Target s f w = Ledger w.db × ((u : ℕ) → owned u f.id w.db.files ≡ (s.user_id == u))

found-owned :
    (s : UploadSession) (f : File) (db : Db) (r : Option File)
    → Ledger db
    → find_row (FileRepo.named s.user_id s.folder_id s.name) db.files ≡ r
    → FileRepo.joined r db ≡ ok f
    → (u : ℕ) → owned u f.id db.files ≡ (s.user_id == u)
found-owned s f db none l e h u = absurd (ground arith)
found-owned s f db (some r) l e h u =
    let fits = find_row-fits (FileRepo.named s.user_id s.folder_id s.name) db.files r e in
    let same : f.id ≡ r.id = ap (λ (x : File). x.id) (sym (ok-injective h)) ∙ selected-id r db in
    let whose = find_row-owned _ db.files r u (l.one_file r.id) e in rw same (whose ∙ ground arith)

target_file-Ends :
    (env : Env) (s : UploadSession) (w : World)
    → Ledger w.db
    → Ends (target_file env s w) (Target s)
unfolding target_file FileRepo.get_by_name FileRepo.create
target_file-Ends env s w l =
    Ends-attempt_query _ _ _ _
      (λ v f same e.
        Ends-fail_if _ _ _ _ _
          λ _. Ends-pure _ _ _ (rw same l, λ u. rw same (found-owned s f w.db _ l refl e u)))
      (λ v e same.
        Ends-if _ (is_not_found e) _ _ v
          (Ends-bind _ _ _ _ (
            new_id-Ends env _ v (
              Ends-bind _ _ _ _ (
                Ends-statement _ _ _ λ x _ d c.
                  Ends-pure _ _ _ (create_file-Ledger (new_file _ s) x v.db d c (rw same l))))))
          (Ends-fail _ _ _))

attach_version-Keeps :
    (env : Env) (s : UploadSession) (b : Blob) → Keeps Ledger (attach_version env s b)
unfolding attach_version
attach_version-Keeps env s b = Keeps-within_tx _ _ λ w l. Ends-bind _ _ _ _ (
    Ends-weaken _ _ _
      (λ f v t. Ends-bind _ _ _ _ (
        new_id-Ends env _ v (
          Ends-bind _ _ _ _ (
            Ends-weaken _ _ _ (λ _ x k. Ends-pure _ _ _ k)
              (append_version-Ends s.user_id (new_version _ f.id b.id s.size_bytes s.user_id) _ t.0
                t.1)))))
      (target_file-Ends env s w l))

copy_chunks-Keeps : (I : Db → Type 0) (cs : List Chunk) → Keeps I (copy_chunks cs)
unfolding copy_chunks
copy_chunks-Keeps I [] = Keeps-pure _ _
copy_chunks-Keeps I (c ∷ cs) =
    Keeps-bind _ _ _ (get-Keeps I c.storage_key)
      λ part. Keeps-bind _ _ _ (copy_chunks-Keeps I cs) λ parts. Keeps-pure _ _

delete_chunks-Keeps : (I : Db → Type 0) (cs : List Chunk) → Keeps I (delete_chunks cs)
unfolding delete_chunks
delete_chunks-Keeps I [] = Keeps-pure _ _
delete_chunks-Keeps I (c ∷ cs) =
    Keeps-bind _ _ _ (Keeps-ignore _ _ (delete-Keeps I c.storage_key)) λ _. delete_chunks-Keeps I cs

pub cleanup_staging-Keeps : (I : Db → Type 0) (s : UploadSession) → Keeps I (cleanup_staging s)
unfolding cleanup_staging UploadRepo.list_chunks
cleanup_staging-Keeps I s =
    Keeps-attempt_bind _ _ _ (Keeps-query _ _) (delete_chunks-Keeps I) (λ e. Keeps-pure _ _)

wrapped-Keeps : (I : Db → Type 0) (k : Wrapped) → Keeps I (wrapped k)
unfolding wrapped
wrapped-Keeps I (Wrapped.ok b) = Keeps-pure _ _
wrapped-Keeps I (Wrapped.err e) = Keeps-fail _ _ _

seal_chunks-Keeps : (I : Db → Type 0) (env : Env) (cs : List Chunk) → Keeps I (seal_chunks env cs)
unfolding seal_chunks
seal_chunks-Keeps I env cs = Keeps-bind _ _ _ (random_bytes-Keeps I env _) λ dek.
    Keeps-bind _ _ _ (random_bytes-Keeps I env _) λ nonce.
      Keeps-bind _ _ _ (wrapped-Keeps I _) λ wrapped_dek.
        Keeps-bind _ _ _ (random_bytes-Keeps I env _) λ prefix.
          Keeps-bind _ _ _ (copy_chunks-Keeps I cs)
            λ parts. Keeps-bind _ _ _ (Keeps-lift _ _) λ stream. Keeps-pure _ _

record_blob-Keeps : (b : Blob) → b.ref_count ≡ 0 → Keeps Ledger (record_blob b)
unfolding record_blob BlobRepo.get_by_checksum
record_blob-Keeps b none_yet =
    Keeps-attempt_bind _ _ _ (create_blob-Keeps b none_yet) (λ _. Keeps-pure _ _)
      (λ e. Keeps-if _ (is_already_exists e) _ _ (Keeps-query _ _) (Keeps-fail _ _ _))

assemble_blob-Keeps : (env : Env) (s : UploadSession) → Keeps Ledger (assemble_blob env s)
unfolding assemble_blob UploadRepo.list_chunks
assemble_blob-Keeps env s = Keeps-bind _ _ _ (Keeps-query _ _) λ chunks.
    Keeps-bind _ _ _ (Keeps-fail_if _ _ _) λ _. Keeps-bind _ _ _ (Keeps-fail_if _ _ _) λ _.
      Keeps-bind _ _ _ (seal_chunks-Keeps Ledger env chunks) λ sealed.
        Keeps-bind _ _ _ (put-Keeps Ledger _ _ _) λ _.
          Keeps-if _ (sealed.2 == s.checksum) _ _
            (Keeps-bind _ _ _ (new_id-Keeps Ledger env) λ id. record_blob-Keeps _ refl)
            (Keeps-bind _ _ _ (Keeps-ignore _ _ (delete-Keeps Ledger _)) λ _. Keeps-fail _ _ _)

content_blob-Keeps : (env : Env) (s : UploadSession) → Keeps Ledger (content_blob env s)
unfolding content_blob BlobRepo.get_by_checksum
content_blob-Keeps env s =
    Keeps-attempt_bind _ _ _ (Keeps-query _ _) (λ b. Keeps-pure _ _)
      (λ e. Keeps-if _ (is_not_found e) _ _ (assemble_blob-Keeps env s) (Keeps-fail _ _ _))

complete_locked-Keeps :
    (env : Env) (ident : Identity) (s : UploadSession) → Keeps Ledger (complete_locked env ident s)
unfolding complete_locked FileRepo.get_by_id
complete_locked-Keeps env ident s = Keeps-bind _ _ _ (content_blob-Keeps env s) λ b.
    Keeps-bind _ _ _ (attach_version-Keeps env s b) λ f.
      Keeps-bind _ _ _ (update_status-Keeps s.id completed) λ _.
        Keeps-bind _ _ _ (cleanup_staging-Keeps Ledger s)
          λ _. Keeps-bind _ _ _ (audit-Keeps _ _ _) λ _. Keeps-query _ _

owned_session-Keeps :
    (I : Db → Type 0) (ident : Identity) (id : ℕ) → Keeps I (owned_session ident id)
unfolding owned_session UploadRepo.get_session
owned_session-Keeps I ident id =
    Keeps-attempt_bind _ _ _ (Keeps-query _ _)
      (λ s. Keeps-if _ (s.user_id == ident.user_id) _ _ (Keeps-pure _ _) (Keeps-fail _ _ _))
      (λ e. Keeps-fail _ _ _)

active_session-Keeps :
    (I : Db → Type 0) (ident : Identity) (id : ℕ) → Keeps I (active_session ident id)
unfolding active_session
active_session-Keeps I ident id = Keeps-bind _ _ _ (owned_session-Keeps I ident id) λ s.
    Keeps-bind _ _ _ (Keeps-fail_if _ _ _) λ _.
      Keeps-bind _ _ _ (Keeps-gets _ _)
        λ now. Keeps-bind _ _ _ (Keeps-fail_if _ _ _) λ _. Keeps-pure _ _

releasing-Keeps :
    (I : Db → Type 0) (id : ℕ) (m : Action File) → Keeps I m → Keeps I (releasing id m)
unfolding releasing
releasing-Keeps I id m h =
    Keeps-bind _ _ _ (Keeps-attempt _ _ h)
      λ r. Keeps-bind _ _ _ (unlock-Keeps I id) λ _. Keeps-lift _ _

complete-Keeps : (env : Env) (ident : Identity) (id : ℕ) → Keeps Ledger (complete env ident id)
unfolding complete
complete-Keeps env ident id = Keeps-bind _ _ _ (active_session-Keeps Ledger ident id) λ s.
    Keeps-bind _ _ _ (try_lock-Keeps Ledger s.id) λ free.
      Keeps-bind _ _ _ (Keeps-fail_if _ _ _)
        λ _. releasing-Keeps Ledger s.id _ (complete_locked-Keeps env ident s)

-- Whatever world `Complete` starts in, with whatever calls of the database, the object store or the
-- lock failing, and whether it returns a file or an error: tables whose counters are right, with each
-- quota's usage within it, are tables of that kind afterwards.
pub complete-Ledger :
    (env : Env) (ident : Identity) (session_id : ℕ) (w : World)
    → Ledger w.db
    → Ledger (complete env ident session_id w).1.db
complete-Ledger env ident session_id w l = unfold Keeps in complete-Keeps env ident session_id w l
