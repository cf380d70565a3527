-- ===== src/Usecase/File/Signed/Checked.antt =====
-- Whom a signed query gives a file (internal/usecase/file_uc.go).
use strato.Prelude.{
  Bool-cases, inl, inr, ℕ, ◌+◌, ◌^◌, ◌<◌, ◌≡◌, refl, true, false, [], none, some, ltb, ◌==◌,
  find_row,
}
use strato.Entity.Account.{is_admin_role}
use strato.Entity.Access.{Identity, viewer}
use strato.Entity.Storage.{File}
use strato.Domain.Error.{ok, err, not_found}
use strato.Domain.World.{World}
use strato.Domain.Action.{attempt, query, ◌>>=◌, outside, gets, fail, pure, lift}
use strato.Domain.Ends.{
  Ends, Ends-bind, Ends-fail_if, Ends-gets, Ends-lift, Ends-weaken, Ends-pure, Ends-always,
}
use strato.Outside.{Env}
use strato.Postgres.FileRepo
use strato.Postgres.ShareRepo
use strato.Postgres.ShareRepo.{grants}
use strato.Service.Signer.{UrlSigner, Query, unix, sign, verify}
use strato.Service.Signer.Binding.{verify-sign}
use strato.Usecase.Access.{authorize_file, authorize_grantee}
use strato.Usecase.Authorized.{Authorized, authorize_file-Ends}
use strato.Usecase.Share.Row.{Row}
use strato.Usecase.File.Change.{get}
use strato.Usecase.File.Content.{open_download}
use strato.Usecase.File.Signed.{bare, signed_download_query, verify_signed_download}

-- The query is signed for the file and a user, who may read it now without being an admin.
pub record Checked (signer : UrlSigner) (file_id : ℕ) (q : Query) (w : World) (f : File)
    : Type 0 where
  pub user_id : ℕ
  pub verified : verify signer w.clock file_id q ≡ ok user_id
  pub allowed : Authorized (bare user_id) viewer w f
  pub named : f.id ≡ file_id
  pub live : f.is_deleted ≡ false

-- Whenever `VerifySignedDownload` gives a file, it is the file asked for and not in the trash, `Verify`
-- accepts the query for a user by the program's clock, and that user owns the file or holds a share of it
-- that is active at the time of the download.
pub verify_signed_download-Checked :
    (env : Env) (signer : UrlSigner) (file_id : ℕ) (q : Query) (w : World)
    → Ends (verify_signed_download env signer file_id q w) (λ r _. Checked signer file_id q w r.1)
unfolding verify_signed_download open_download
verify_signed_download-Checked env signer file_id q w = Ends-bind _ _ _ _ (
    Ends-gets _ _ _ (
      Ends-bind _ _ _ _ (
        Ends-lift _ _ _ λ user_id e. Ends-bind _ _ _ _ (
          Ends-weaken _ _ _
            (λ f v h. Ends-fail_if _ _ _ _ _ λ live. Ends-bind _ _ _ _ (
              Ends-always _ _ λ reader _. Ends-bind _ _ _ _ (
                Ends-always _ _ λ _ _. Ends-pure _ _ _ (record {
                  user_id = user_id;
                  verified = e;
                  allowed = h.2;
                  named = h.1;
                  live = live;
                }))))
            (authorize_file-Ends (bare user_id) file_id viewer w)))))

granted-Refused :
    (env : Env) (user_id file_id : ℕ) (f : File) (w : World)
    → Row file_id w.db f
    → (f.owner_id == user_id) ≡ false
    → find_row (grants f.id user_id w.db_clock) w.db.shares ≡ none
    → w.faults ≡ []
    → (open_download env (bare user_id) file_id w).0 ≡ err not_found
unfolding open_download authorize_file authorize_grantee FileRepo.get_by_id ShareRepo.find_grant
    ◌>>=◌ attempt gets fail pure query outside
granted-Refused env user_id file_id f w row other none' quiet = elim (Bool-cases f.is_deleted) [
  | inl gone ↦ rw (quiet, row, other, gone) refl
  | inr live ↦ rw (quiet, row, other, live, none') refl
]

-- An admin who neither owns a file nor holds a share of it is given a signed query for it, and
-- `VerifySignedDownload` then refuses that query as not found, before it expires and though no call fails:
-- it asks for the user of the query without the role.
pub signed_download-AdminRefused :
    (env : Env) (signer : UrlSigner) (ttl later : ℕ) (ident : Identity) (file_id : ℕ) (f : File)
    (w : World)
    → ((id : ℕ) → signer.parse_uuid (signer.uuid_text id) ≡ some id)
    → unix (w.clock + ttl) < 2 ^ 63
    → ltb (unix (w.clock + ttl)) (unix later) ≡ false
    → Row file_id w.db f
    → is_admin_role ident.role ≡ true
    → (f.owner_id == ident.user_id) ≡ false
    → find_row (grants f.id ident.user_id w.db_clock) w.db.shares ≡ none
    → ((signed_download_query signer ttl ident file_id (record w { faults = [] })).0
        ≡ ok (sign signer w.clock file_id ident.user_id ttl, ttl))
      × ((verify_signed_download env signer file_id
            (sign signer w.clock file_id ident.user_id ttl)
            (record w { faults = []; clock = later })).0
          ≡ err not_found)
unfolding signed_download_query verify_signed_download get authorize_file FileRepo.get_by_id ◌>>=◌
    attempt gets fail pure query outside lift
signed_download-AdminRefused env signer ttl later ident file_id f w parses fits alive row admin
      other none' =
    (
      rw (row, other, admin) refl,
      rw (verify-sign signer w.clock later file_id ident.user_id ttl parses fits, alive)
          (granted-Refused env ident.user_id file_id f (record w { faults = []; clock = later }) row
            other none' refl),
    )
