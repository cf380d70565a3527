-- ===== src/Usecase/File/Signed.antt =====
-- The signed downloads of internal/usecase/file_uc.go.
pub mod Checked
use strato.Prelude.{ℕ, ◌≡◌, false, [], refl, ◌||◌, ◌==◌, some}
use strato.Crypto.Stream.Reader.{Reader}
use strato.Entity.Account.{other_role, is_admin_role}
use strato.Entity.Access.{Identity, viewer}
use strato.Entity.Storage.{File}
use strato.Domain.Error.{Result, ok, err}
use strato.Domain.World.{World}
use strato.Domain.Action.{Action, pure, gets, lift, ◌>>=◌}
use strato.Outside.{Env}
use strato.Service.Signer.{UrlSigner, Query, sign, verify}
use strato.Usecase.File.Change.{get}
use strato.Usecase.File.Content.{open_download}

-- `SignedDownloadQuery`, with the time to live of the policy.
unfoldable pub signed_download_query : UrlSigner → ℕ → Identity → ℕ → Action (Query × ℕ)
signed_download_query signer ttl ident file_id = get ident file_id >>= λ _.
    gets (λ w. w.clock) >>= λ now. pure (sign signer now file_id ident.user_id ttl, ttl)

-- `domain.Identity` of a user alone: its role is the empty string.
abbrev pub bare : ℕ → Identity
bare user_id = record { user_id = user_id; email = []; role = other_role }

-- `VerifySignedDownload`.
unfoldable pub verify_signed_download : Env → UrlSigner → ℕ → Query → Action (Reader × File)
verify_signed_download env signer file_id q = gets (λ w. w.clock) >>= λ now.
    lift (verify signer now file_id q) >>= λ user_id. open_download env (bare user_id) file_id
