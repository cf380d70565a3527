-- ===== src/Usecase/Share/Granting.antt =====
-- What `CreateShare` of internal/usecase/share_uc.go gives its grantee.
use strato.Prelude.{
  Bool-cases, inl, inr, ℕ, true, false, ◌||◌, ◌≡◌, refl, ap, List, [], ◌∷◌, Option, none, some,
  ◌==◌, ==_iff, find_row, any_row, arith, find_row-append,
}
use strato.Encoding.Space.{trim_space}
use strato.Entity.Account.{Text, User, Role, is_admin_role}
use strato.Entity.Access.{Permission, Share, Identity, allows}
use strato.Entity.Storage.{File}
use strato.Domain.Error.{ok}
use strato.Domain.World.{Db, World, AuditAction}
use strato.Domain.Ends.{
  Ends, Ends-bind, Ends-fail_if, Ends-statement, Ends-gets, Ends-weaken, Ends-pure,
  Ends-fail_if_last,
}
use strato.Domain.Keeps.{Keeps, Keeps-Ends, Keeps-ignore, Keeps-statement}
use strato.Domain.Action.{attempt, query, ◌>>=◌, outside, gets, fail, fail_if, pure}
use strato.Outside.{Env}
use strato.Outside.Tables.{new_id-Ends}
use strato.Postgres.BlobRepo.{found-ok}
use strato.Postgres.FileRepo
use strato.Postgres.ShareRepo
use strato.Postgres.ShareRepo.{grants, same_grant, later_than}
use strato.Postgres.AuditRepo
use strato.Postgres.UserRepo
use strato.Usecase.Access.{authorize_file, authorize_grantee}
use strato.Usecase.Audit.{audit}
use strato.Usecase.Auth.Token.{AuthEnv}
use strato.Usecase.Auth.Account.{to_lower}
use strato.Usecase.Auth.Login.{named}
use strato.Usecase.Share.{past, private_share, validate_expiry, create_share}
use strato.Usecase.Share.Row.{Row, Row-same, created_share, new-active, shared_file-Ends}
use strato.Usecase.Share.Access.{Ends-or_error}

-- What the tables hold after a share of a file was made for a user.
record Shared (file_id : ℕ) (f : File) (s : Share) (user_id : ℕ) (db : Db) : Type 0 where
  pub row : Row file_id db f
  pub live : f.is_deleted ≡ false
  pub created : ℕ
  pub grant :
      (now : ℕ)
      → later_than now s.expires_at ≡ true
      → find_row (grants f.id user_id now) db.shares
        ≡ some (record s { created_at = created; revoked_at = none })

grants-taken :
    (s t : Share) (user_id now : ℕ)
    → s.grantee_id ≡ some user_id
    → ShareRepo.taken s t ≡ false
    → grants s.file_id user_id now t ≡ false
grants-taken s t user_id now e h = ground (arith, rw e at h)

none-grants :
    (s : Share) (user_id now : ℕ) (ss : List Share)
    → s.grantee_id ≡ some user_id
    → any_row (ShareRepo.taken s) ss ≡ false
    → any_row (grants s.file_id user_id now) ss ≡ false
none-grants s user_id now [] e h = refl
none-grants s user_id now (t ∷ ts) e h =
    let miss : grants s.file_id user_id now t ≡ false =
      grants-taken s t user_id now e (ground arith) in
    rw (miss) (none-grants s user_id now ts e (ground arith))

Shared-same :
    (file_id : ℕ) (f : File) (s : Share) (user_id : ℕ) (d d' : Db)
    → d'.shares ≡ d.shares
    → d'.files ≡ d.files
    → d'.versions ≡ d.versions
    → d'.blobs ≡ d.blobs
    → Shared file_id f s user_id d
    → Shared file_id f s user_id d'
Shared-same file_id f s user_id d d' e a b c r = record {
  row = Row-same file_id d d' f a b c r.row;
  live = r.live;
  created = r.created;
  grant = λ now h. rw e (r.grant now h);
}

audit-Shared :
    (file_id : ℕ) (f : File) (s : Share) (user_id : ℕ) (who : Option ℕ) (action : AuditAction)
    (resource_id : ℕ)
    → Keeps (Shared file_id f s user_id) (audit who action resource_id)
unfolding audit AuditRepo.insert
audit-Shared file_id f s user_id who action resource_id = Keeps-ignore _ _ (
    Keeps-statement _ _ λ w d d' a e r.
      Shared-same file_id f s user_id d d' (ground arith) (ground arith) (ground arith)
        (ground arith) r)

created-Shared :
    (file_id : ℕ) (f : File) (s : Share) (user_id : ℕ) (v : World) (db d : Db)
    → s.grantee_id ≡ some user_id
    → s.file_id ≡ f.id
    → f.is_deleted ≡ false
    → Row file_id db f
    → ShareRepo.create_row s v db ≡ ok (tt, d)
    → Shared file_id f s user_id d
created-Shared file_id f s user_id v db d to of live row e =
    let (shares, free, files, versions, blobs) = created_share s v db d e in
    record {
      row = Row-same file_id db d f files versions blobs row;
      live = live;
      created = v.db_clock;
      grant = λ now h.
          let own : (f.id == f.id) ≡ true = (==_iff f.id f.id).1 refl in
          let same : (user_id == user_id) ≡ true = (==_iff user_id user_id).1 refl in
          let none' = none-grants s user_id now db.shares to free in
          rw
            (
              shares,
              find_row-append (grants f.id user_id now) db.shares _,
              rw of at none',
              to,
              of,
              h,
              own,
              same,
            )
            refl;
    }

-- Someone the file was shared with meets it.
authorize_file-Shared :
    (file_id : ℕ) (f : File) (s : Share) (ident : Identity) (need : Permission) (now db_now : ℕ)
    (v : World)
    → allows s.permission need ≡ true
    → past s.expires_at now ≡ false
    → later_than db_now s.expires_at ≡ true
    → Shared file_id f s ident.user_id v.db
    → (authorize_file ident file_id need
        (record v { faults = []; clock = now; db_clock = db_now })).0
      ≡ ok f
unfolding authorize_file authorize_grantee FileRepo.get_by_id ShareRepo.find_grant ◌>>=◌ attempt
    gets fail fail_if pure query outside
authorize_file-Shared file_id f s ident need now db_now v a b c r =
    elim (Bool-cases (f.owner_id == ident.user_id || is_admin_role ident.role)) [
      | inl own ↦ rw (r.row, own) refl
      | inr other ↦
          rw (r.row, other, r.live, r.grant db_now c, new-active s r.created now b, a)
            (ap (λ x. ok (record f { is_deleted = x })) r.live)
    ]

-- What the share of a file for the account of an address comes to: the account is that of a user of the
-- tables, and `authorizeFile` gives that user the file.
pub record Admits (auth : AuthEnv) (email : Text) (db : Db) (file_id : ℕ) (who : ℕ → Identity)
    (need : Permission) (later : World) : Type 0 where
  pub grantee : User
  pub at : find_row (named (to_lower auth (trim_space email))) db.users ≡ some grantee
  pub file : File
  pub given : (authorize_file (who grantee.id) file_id need later).0 ≡ ok file

-- Whenever `CreateShare` makes a share of a file for an address, in any world and whatever calls failed: the
-- address, in lower case and without the spaces round it, is that of a live account, and whoever is
-- signed in to that account, with any role, is given the file by `authorizeFile` while no call fails,
-- for whatever the share's permission allows, at any time at which the share has not expired by the
-- program's clock and by the database's.
pub create_share-Admits :
    (env : Env) (auth : AuthEnv) (ident : Identity) (file_id : ℕ) (email : Text)
    (perm need : Permission) (expires_at : Option ℕ) (address : Text) (role : Role) (now db_now : ℕ)
    (w : World)
    → allows perm need ≡ true
    → past expires_at now ≡ false
    → later_than db_now expires_at ≡ true
    → Ends (create_share env auth ident file_id email perm expires_at w) (λ s v.
      Admits auth email w.db file_id
        (λ id. record { user_id = id; email = address; role = role })
        need
        (record v { faults = []; clock = now; db_clock = db_now }))
unfolding create_share validate_expiry UserRepo.get_by_email ShareRepo.create
create_share-Admits env auth ident file_id email perm need expires_at address role now db_now w a b
      c =
    Ends-fail_if _ _ _ _ _ λ _. Ends-bind _ _ _ _ (
      Ends-bind _ _ _ _ (
        Ends-gets _ _ _ (
          Ends-fail_if_last _ _ _ _ λ _. Ends-bind _ _ _ _ (
            shared_file-Ends _ ident file_id w λ f v same row live. Ends-bind _ _ _ _ (
              Ends-or_error _ _ _ v λ gs grantee e.
                let share = private_share ident f grantee.id perm expires_at (env.uuid v.drawn) in
                Ends-fail_if _ _ _ _ _ λ _. Ends-bind _ _ _ _ (
                  new_id-Ends env _ _ (
                    Ends-bind _ _ _ _ (
                      Ends-statement _ _ _ λ x _ d e'. Ends-bind _ _ _ _ (
                        Ends-weaken _ _ _
                          (λ _ y still. Ends-pure _ _ _ (record {
                            grantee = grantee;
                            at = found-ok _ grantee (rw same at e);
                            file = f;
                            given =
                                authorize_file-Shared file_id f _ _ need now db_now y a b c still;
                          }))
                          (Keeps-Ends (Shared file_id f share grantee.id) _ _
                            (audit-Shared file_id f share grantee.id _ _ _)
                            (created-Shared file_id f _ grantee.id x v.db d refl refl live
                              (rw same row) e')))))))))))
