-- ===== src/Usecase/File/Accounts.antt =====
-- `RestoreVersion` of internal/usecase/file_uc.go keeps the accounts.
use strato.Prelude.{ℕ, ◌≡◌, refl, sym, ◌||◌, Option, some, none, ◌==◌, find_row, arith}
use strato.Entity.Account.{is_admin_role}
use strato.Entity.Access.{Identity, Permission, editor}
use strato.Entity.Storage.{File}
use strato.Domain.Error.{ok, ok-injective}
use strato.Domain.World.{Db, World}
use strato.Domain.Ends.{
  Ends, Ends-bind, Ends-gets, Ends-pure, Ends-fail, Ends-fail_if, Ends-attempt_query, Ends-if,
  Ends-weaken,
}
use strato.Domain.Keeps.{
  Keeps, Keeps-attempt_bind, Keeps-gets, Keeps-if, Keeps-fail, Keeps-fail_if, Keeps-bind,
  Keeps-query, Keeps-pure, Keeps-then, Ends-then, Keeps-after, within_tx-leads,
}
use strato.Outside.{Env}
use strato.Outside.Tables.{new_id-Keeps}
use strato.Postgres.FileRepo
use strato.Postgres.VersionRepo
use strato.Postgres.ShareRepo
use strato.Usecase.Access.{authorize_file, authorize_grantee, mutable_file}
use strato.Usecase.File.Change.{old_version, restore_version}
use strato.Usecase.Upload.Attach.{new_version}
use strato.Ledger.Balance.{Ledger, owned}
use strato.Ledger.Attach.{append_version-Ends}
use strato.Ledger.Steps.{audit-Keeps, find_row-owned, selected-id, selected-owner_id}

-- The tables are in order, and the file is its owner's.
abbrev Own : File → Db → Type 0
Own f db = Ledger db × ((u : ℕ) → owned u f.id db.files ≡ (f.owner_id == u))

joined-Own :
    (id : ℕ) (f : File) (db : Db) (r : Option File)
    → Ledger db
    → find_row (FileRepo.by_id id) db.files ≡ r
    → FileRepo.joined r db ≡ ok f
    → Own f db
joined-Own id f db none l e h = absurd (ground arith)
joined-Own id f db (some r) l e h =
    let row : f ≡ FileRepo.selected r db = sym (ok-injective h) in
    (
      l,
      λ u.
          rw (row, selected-id r db, selected-owner_id r db)
            (find_row-owned _ db.files r u (l.one_file r.id) e),
    )

authorize_file-Own :
    (ident : Identity) (id : ℕ) (need : Permission) (w : World)
    → Ledger w.db
    → Ends (authorize_file ident id need w) (λ f v. Own f v.db)
unfolding authorize_file authorize_grantee FileRepo.get_by_id ShareRepo.find_grant
authorize_file-Own ident id need w l = Ends-bind _ _ _ _ (
    Ends-gets _ _ _ (
      Ends-attempt_query _ _ _ _
        (λ v f same e.
          let here : Own f v.db = rw same (joined-Own id f w.db _ l refl e) in
          Ends-if _ (f.owner_id == ident.user_id || is_admin_role ident.role) _ _ v
            (Ends-pure _ _ _ here)
            (Ends-if _ f.is_deleted _ _ v (Ends-fail _ _ _) (
              Ends-attempt_query _ _ _ _
                (λ x grant same' _.
                  Ends-fail_if _ _ _ _ _
                    λ _. Ends-fail_if _ _ _ _ _ λ _. Ends-pure _ _ _ (rw same' here))
                (λ _ _ _. Ends-fail _ _ _))))
        (λ _ _ _. Ends-fail _ _ _)))

authorize_file-Keeps :
    (I : Db → Type 0) (ident : Identity) (id : ℕ) (need : Permission)
    → Keeps I (authorize_file ident id need)
unfolding authorize_file authorize_grantee FileRepo.get_by_id ShareRepo.find_grant
authorize_file-Keeps I ident id need = Keeps-bind _ _ _ (Keeps-gets _ _) λ now.
    Keeps-attempt_bind _ _ _ (Keeps-query _ _)
      (λ f.
        Keeps-if _ (f.owner_id == ident.user_id || is_admin_role ident.role) _ _ (Keeps-pure _ _) (
          Keeps-if _ f.is_deleted _ _ (Keeps-fail _ _ _) (
            Keeps-attempt_bind _ _ _ (Keeps-query _ _)
              (λ grant.
                Keeps-bind _ _ _ (Keeps-fail_if _ _ _)
                  λ _. Keeps-bind _ _ _ (Keeps-fail_if _ _ _) λ _. Keeps-pure _ _)
              (λ _. Keeps-fail _ _ _))))
      (λ _. Keeps-fail _ _ _)

mutable_file-Keeps :
    (I : Db → Type 0) (ident : Identity) (id : ℕ) (need : Permission)
    → Keeps I (mutable_file ident id need)
unfolding mutable_file
mutable_file-Keeps I ident id need = Keeps-bind _ _ _ (authorize_file-Keeps I ident id need) λ f.
    Keeps-bind _ _ _ (Keeps-fail_if _ _ _)
      λ _. Keeps-bind _ _ _ (Keeps-fail_if _ _ _) λ _. Keeps-pure _ _

mutable_file-Own :
    (ident : Identity) (id : ℕ) (need : Permission) (w : World)
    → Ledger w.db
    → Ends (mutable_file ident id need w) (λ f v. Own f v.db)
unfolding mutable_file
mutable_file-Own ident id need w l = Ends-bind _ _ _ _ (
    Ends-weaken _ _ _
      (λ f v own. Ends-fail_if _ _ _ _ _ λ _. Ends-fail_if _ _ _ _ _ λ _. Ends-pure _ _ _ own)
      (authorize_file-Own ident id need w l))

old_version-Keeps : (I : Db → Type 0) (f : File) (id : ℕ) → Keeps I (old_version f id)
unfolding old_version VersionRepo.get_by_id
old_version-Keeps I f id =
    Keeps-attempt_bind _ _ _ (Keeps-query _ _)
      (λ v. Keeps-if _ (v.file_id == f.id) _ _ (Keeps-pure _ _) (Keeps-fail _ _ _))
      (λ _. Keeps-fail _ _ _)

-- Whatever world `RestoreVersion` starts in and whatever call fails: tables whose counters are right,
-- with each quota's usage within it, are tables of that kind afterwards.
pub restore_version-Ledger :
    (env : Env) (ident : Identity) (file_id version_id : ℕ) (w : World)
    → Ledger w.db
    → Ledger (restore_version env ident file_id version_id w).1.db
unfolding restore_version FileRepo.get_by_id
restore_version-Ledger env ident file_id version_id w l =
    Ends-then Ledger _ _ w (mutable_file-Keeps Ledger ident file_id editor) l (
      Ends-weaken _ _ _
        (λ f v own.
          Keeps-then (Own f) Ledger _ _ v (λ d k. k.0) (old_version-Keeps (Own f) f version_id)
            (λ old x here.
              Keeps-then (Own f) Ledger _ _ x (λ d k. k.0) (new_id-Keeps (Own f) env)
                (λ id y there.
                  Keeps-after Ledger _ _ y
                    (within_tx-leads Ledger _ y there.0 λ z same.
                      append_version-Ends f.owner_id
                        (new_version id f.id old.blob_id old.size_bytes ident.user_id) z
                        (rw same there.0) (rw same there.1))
                    (λ _. Keeps-bind _ _ _ (audit-Keeps _ _ _) λ _. Keeps-query _ _))
                here)
            own)
        (mutable_file-Own ident file_id editor w l))
