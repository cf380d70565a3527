-- ===== src/Usecase/Share/Row.antt =====
-- The rows of files and shares behind a share (internal/usecase/share_uc.go).
use strato.Prelude.{
  ℕ, true, false, ◌||◌, ◌≡◌, refl, sym, ◌∙◌, ap, [], ◌∷◌, ◌++◌, Option, none, some, ◌==◌, ==_iff,
  find_row, any_row, arith, find_row-fits,
}
use strato.Entity.Account.{is_admin_role}
use strato.Entity.Access.{owner, Permission, Share, share_active, Identity}
use strato.Entity.Storage.{File, Version}
use strato.Domain.Error.{ok, ok-injective}
use strato.Domain.World.{Db, World}
use strato.Domain.Ends.{
  Ends, Ends-bind, Ends-fail, Ends-fail_if, Ends-attempt_query, Ends-gets, Ends-weaken, Ends-pure,
  Ends-cases,
}
use strato.Postgres.FileRepo
use strato.Postgres.ShareRepo
use strato.Postgres.ShareRepo.{grants, same_grant, later_than}
use strato.Ledger.Steps.{selected-id}
use strato.Usecase.Access.{authorize_file, authorize_grantee}
use strato.Usecase.Share.{past, shared_file}

-- The row that `GetByID` gives.
abbrev pub Row : ℕ → Db → File → Type 0
Row id db f = FileRepo.joined (find_row (FileRepo.by_id id) db.files) db ≡ ok f

pub authorize_file-Row :
    (ident : Identity) (file_id : ℕ) (need : Permission) (w : World)
    → Ends (authorize_file ident file_id need w) (λ f v. (v.db ≡ w.db) × Row file_id w.db f)
unfolding authorize_file authorize_grantee FileRepo.get_by_id ShareRepo.find_grant
authorize_file-Row ident file_id need w = Ends-bind _ _ _ _ (
    Ends-gets _ _ _ (
      Ends-attempt_query _ _ _ _
        (λ v f same e.
          Ends-cases _ (f.owner_id == ident.user_id || is_admin_role ident.role) _ _ v
            (λ h. Ends-pure _ _ _ (same, e))
            (λ _.
              Ends-cases _ f.is_deleted _ _ v (λ _. Ends-fail _ _ _)
                (λ live.
                  Ends-attempt_query _ _ _ _
                    (λ x grant same' e'.
                      Ends-fail_if _ _ _ _ _ λ active.
                        Ends-fail_if _ _ _ _ _ λ allowed. Ends-pure _ _ _ (same' ∙ same, e))
                    (λ _ _ _. Ends-fail _ _ _))))
        (λ _ _ _. Ends-fail _ _ _)))

joined-id :
    (id : ℕ) (o : Option File) (db : Db) (f : File)
    → ((g : File) → o ≡ some g → g.id ≡ id)
    → FileRepo.joined o db ≡ ok f
    → f.id ≡ id
joined-id id none db f h e = cc
joined-id id (some g) db f h e =
    ap (λ (x : File). x.id) (sym (ok-injective e)) ∙ selected-id g db ∙ h g refl

pub Row-id : (id : ℕ) (db : Db) (f : File) → Row id db f → f.id ≡ id
Row-id id db f r =
    joined-id id (find_row (FileRepo.by_id id) db.files) db f
      (λ g e. (==_iff g.id id).0 (find_row-fits (FileRepo.by_id id) db.files g e)) r

pub created_share :
    (s : Share) (v : World) (db d : Db)
    → ShareRepo.create_row s v db ≡ ok (tt, d)
    → (d.shares ≡ db.shares ++ record s { created_at = v.db_clock; revoked_at = none } ∷ [])
      × (any_row (ShareRepo.taken s) db.shares ≡ false)
      × (d.files ≡ db.files)
      × (d.versions ≡ db.versions)
      × (d.blobs ≡ db.blobs)
unfolding ShareRepo.create_row
created_share s v db d e = ground arith

version-same :
    (o : Option ℕ) (db d : Db)
    → d.versions ≡ db.versions
    → FileRepo.version_row o d ≡ FileRepo.version_row o db
version-same none db d b = refl
version-same (some id) db d b = rw b refl

joined-same :
    (g : File) (o : Option Version) (db d : Db)
    → d.blobs ≡ db.blobs
    → FileRepo.joined_version g o d ≡ FileRepo.joined_version g o db
joined-same g none db d c = refl
joined-same g (some v) db d c = rw c refl

selected-same :
    (o : Option File) (db d : Db)
    → d.versions ≡ db.versions
    → d.blobs ≡ db.blobs
    → FileRepo.joined o d ≡ FileRepo.joined o db
unfolding FileRepo.selected
selected-same none db d b c = refl
selected-same (some g) db d b c = ap ok (
    rw (version-same g.current_version_id db d b)
      (joined-same g (FileRepo.version_row g.current_version_id db) db d c))

pub Row-same :
    (file_id : ℕ) (db d : Db) (f : File)
    → d.files ≡ db.files
    → d.versions ≡ db.versions
    → d.blobs ≡ db.blobs
    → Row file_id db f
    → Row file_id d f
Row-same file_id db d f a b c r = rw (selected-same _ db d b c, a) r

pub new-active :
    (s : Share) (created now : ℕ)
    → past s.expires_at now ≡ false
    → share_active (record s { created_at = created; revoked_at = none }) now ≡ true
unfolding share_active
new-active s created now h = rw h refl

pub shared_file-Ends :
    (Q : File → World → Type 0) (ident : Identity) (file_id : ℕ) (w : World)
    → ((f : File) (v : World) → v.db ≡ w.db → Row file_id w.db f → f.is_deleted ≡ false → Q f v)
    → Ends (shared_file ident file_id w) Q
unfolding shared_file
shared_file-Ends Q ident file_id w h = Ends-bind _ _ _ _ (
    Ends-weaken _ _ _ (λ f v r. Ends-fail_if _ _ _ _ _ λ live. Ends-pure _ _ _ (h f v r.0 r.1 live))
      (authorize_file-Row ident file_id owner w))
