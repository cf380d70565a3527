-- ===== src/Usecase/Upload/Session.antt =====
-- The upload sessions of internal/usecase/upload_uc.go: their lookup, `Status`, `Abort`,
-- `CleanupSession` and `cleanupStaging`.
use strato.Prelude.{ℕ, List, [], ◌∷◌, map, not, ◌==◌, if◌then◌else◌}
use strato.Entity.Access.{Identity}
use strato.Entity.Upload.{UploadSession, Chunk, aborted, expired, is_pending, upload_active}
use strato.Domain.Error.{ok, err, not_found, invalid_argument, upload_expired}
use strato.Domain.Action.{Action, pure, fail, gets, attempt, ignore, fail_if, ◌>>=◌, ◌>>◌}
use strato.Outside
use strato.Postgres.UploadRepo

-- `ownedSession`: any error of the lookup, and another user's session, is `not_found`.
unfoldable pub owned_session : Identity → ℕ → Action UploadSession
owned_session ident id = attempt (UploadRepo.get_session id) >>= λ r. elim r [
  | err _ ↦ fail not_found
  | ok s ↦ if s.user_id == ident.user_id then pure s else fail not_found
]

-- `activeSession`.
unfoldable pub active_session : Identity → ℕ → Action UploadSession
active_session ident id = owned_session ident id >>= λ s.
    fail_if (not (is_pending s.status)) invalid_argument
    >> (gets (λ w. w.clock) >>= λ now. fail_if (not (upload_active s now)) upload_expired >> pure s)

-- `Status`: the session and the indices received.
unfoldable pub status : Identity → ℕ → Action (UploadSession × List ℕ)
status ident id = owned_session ident id >>= λ s.
    UploadRepo.list_chunks s.id >>= λ chunks. pure (s, map (λ c. c.index) chunks)

unfoldable pub delete_chunks : List Chunk → Action (Unit {0})
delete_chunks [] = pure tt
delete_chunks (c ∷ cs) = ignore (Outside.delete c.storage_key) >> delete_chunks cs

-- `cleanupStaging`: best effort.
unfoldable pub cleanup_staging : UploadSession → Action (Unit {0})
cleanup_staging s = attempt (UploadRepo.list_chunks s.id) >>= λ r. elim r [
  | err _ ↦ pure tt
  | ok chunks ↦ delete_chunks chunks
]

-- `Abort`: a session that is no longer pending is left as it is.
unfoldable pub abort : Identity → ℕ → Action (Unit {0})
abort ident id = owned_session ident id >>= λ s.
    if is_pending s.status
    then UploadRepo.update_status s.id aborted >> cleanup_staging s
    else pure tt

-- `CleanupSession`.
unfoldable pub cleanup_session : UploadSession → Action (Unit {0})
cleanup_session s = UploadRepo.update_status s.id expired >> cleanup_staging s
