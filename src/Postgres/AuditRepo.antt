-- ===== src/Postgres/AuditRepo.antt =====
-- internal/repository/postgres/audit_repo.go.
use strato.Prelude.{◌++◌, ◌∷◌, []}
use strato.Domain.Error.{ok}
use strato.Domain.World.{AuditEntry}
use strato.Domain.Action.{Action, statement}

-- `Insert`.
unfoldable pub insert : AuditEntry → Action (Unit {0})
insert e = statement (λ w db. ok (tt, record db { audit = db.audit ++ e ∷ [] }))
