-- ===== src/Usecase/Authorized.antt =====
-- Who `authorizeFile` and `mutableFile` let through (internal/usecase/access.go and file_uc.go).
use strato.Prelude.{
  ℕ, ◌≡◌, ◌↔◌, refl, ap, [], Bool-cases, true, false, ◌||◌, ◌⊎◌, inl, inr, some, ◌==◌, find_row,
  arith,
}
use strato.Domain.Error.{ok}
use strato.Domain.Action.{attempt, query, ◌>>=◌, outside, gets, fail, fail_if, pure}
use strato.Usecase.Share.Row.{Row, Row-id}
use strato.Entity.Account.{is_admin_role}
use strato.Entity.Access.{Permission, Share, allows, share_active, Identity}
use strato.Entity.Storage.{File, is_locked_by_other}
use strato.Domain.World.{World}
use strato.Domain.Ends.{
  Ends, Ends-bind, Ends-gets, Ends-pure, Ends-fail, Ends-fail_if, Ends-attempt_query_at, Ends-cases,
  Ends-ok, Ends-weaken,
}
use strato.Postgres.BlobRepo.{found-ok}
use strato.Postgres.FileRepo
use strato.Postgres.ShareRepo
use strato.Postgres.ShareRepo.{grants}
use strato.Usecase.Access.{authorize_file, authorize_grantee, mutable_file}

-- A share of the table, made out to the caller for the file and not over by the database's clock, that is
-- active by the program's clock and grants what is asked.
abbrev pub Granted : Identity → Permission → World → File → Type 0
Granted ident need w f =
    (f.is_deleted ≡ false)
    × (grant : Share) × (find_row (grants f.id ident.user_id w.db_clock) w.db.shares ≡ some grant)
    × (share_active grant w.clock ≡ true)
    × (allows grant.permission need ≡ true)

abbrev pub Authorized : Identity → Permission → World → File → Type 0
Authorized ident need w f =
    ((f.owner_id == ident.user_id || is_admin_role ident.role) ≡ true) ⊎ Granted ident need w f

-- The row of the file is in the tables, and its caller may have it.
abbrev pub Allowed : Identity → ℕ → Permission → World → File → Type 0
Allowed ident file_id need w f = Row file_id w.db f × (f.id ≡ file_id) × Authorized ident need w f

pub authorize_file-Ends :
    (ident : Identity) (file_id : ℕ) (need : Permission) (w : World)
    → Ends (authorize_file ident file_id need w) (λ f _. Allowed ident file_id need w f)
unfolding authorize_file authorize_grantee FileRepo.get_by_id ShareRepo.find_grant
authorize_file-Ends ident file_id need w = Ends-bind _ _ _ _ (
    Ends-gets _ _ _ (
      Ends-attempt_query_at _ _ _ _
        (λ gs f e.
          Ends-cases _ (f.owner_id == ident.user_id || is_admin_role ident.role) _ _ _
            (λ h. Ends-pure _ _ _ (e, Row-id file_id w.db f e, inl h))
            (λ _.
              Ends-cases _ f.is_deleted _ _ _ (λ _. Ends-fail _ _ _)
                (λ live.
                  Ends-attempt_query_at _ _ _ _
                    (λ hs grant e'. Ends-fail_if _ _ _ _ _ λ active.
                      Ends-fail_if _ _ _ _ _ λ allowed. Ends-pure _ _ _ (
                        e,
                        Row-id file_id w.db f e,
                        inr (live, grant, found-ok _ grant e', ground arith, ground arith),
                      ))
                    (λ _ _. Ends-fail _ _ _))))
        (λ _ _. Ends-fail _ _ _)))

authorize_file-Allowed :
    (ident : Identity) (file_id : ℕ) (need : Permission) (f : File) (w : World)
    → w.faults ≡ []
    → Allowed ident file_id need w f
    → (authorize_file ident file_id need w).0 ≡ ok f
unfolding authorize_file authorize_grantee FileRepo.get_by_id ShareRepo.find_grant ◌>>=◌ attempt
    gets fail fail_if pure query outside
authorize_file-Allowed ident file_id need f w quiet (row, _, inl own) = rw (quiet, row, own) refl
authorize_file-Allowed ident file_id need f w quiet
      (row, _, inr (live, grant, at, active, allowed)) =
    elim (Bool-cases (f.owner_id == ident.user_id || is_admin_role ident.role)) [
      | inl own ↦ rw (quiet, row, own) refl
      | inr other ↦
          rw (quiet, row, other, live, at, active, allowed)
            (ap (λ x. ok (record f { is_deleted = x })) live)
    ]

-- Whatever calls fail, a file that `authorizeFile` gives is the one of that id in the tables, and the caller
-- is its owner or an admin, or the file is not in the trash and the caller has a grant of it: a share in the
-- table that is not over by the database's clock, is active by the program's, and whose permission allows
-- what was asked. While no call fails, exactly the file of which that holds is given.
pub authorize_file-Authorized :
    (ident : Identity) (file_id : ℕ) (need : Permission) (f : File) (w : World)
    → Ends (authorize_file ident file_id need w) (λ g _. Allowed ident file_id need w g)
      × (((authorize_file ident file_id need (record w { faults = [] })).0 ≡ ok f)
          ↔ Allowed ident file_id need w f)
authorize_file-Authorized ident file_id need f w =
    let quiet = record w { faults = [] } in
    (
      authorize_file-Ends ident file_id need w,
      (
        Ends-ok (λ g _. Allowed ident file_id need w g) (authorize_file ident file_id need quiet) f
            (authorize_file-Ends ident file_id need quiet),
        authorize_file-Allowed ident file_id need f quiet refl,
      ),
    )

-- Whenever `mutableFile` gives a file, its caller is authorized as above, the file is not in the
-- trash, and no one else holds its lock.
pub mutable_file-Authorized :
    (ident : Identity) (file_id : ℕ) (need : Permission) (w : World)
    → Ends (mutable_file ident file_id need w) (λ f _.
      Authorized ident need w f
      × (f.is_deleted ≡ false)
      × (is_locked_by_other f ident.user_id ≡ false))
unfolding mutable_file
mutable_file-Authorized ident file_id need w = Ends-bind _ _ _ _ (
    Ends-weaken _ _ _
      (λ f v a.
        Ends-fail_if _ _ _ _ _
          λ live. Ends-fail_if _ _ _ _ _ λ free. Ends-pure _ _ _ (a.2, live, free))
      (authorize_file-Ends ident file_id need w))
