-- ===== src/Entity/Grants.antt =====
-- The order of permissions, and when a share grants (internal/entity/share.go).
use strato.Prelude.{◌≡◌, ◌↔◌, true, arith}
use strato.Entity.Access.{Permission, valid, allows}

-- On the known permissions `Allows` is an order: it goes on from `q` to what `q` allows, and two
-- permissions that allow each other are the same.
allows-order :
    (p q r : Permission)
    → valid p ≡ true
    → valid q ≡ true
    → allows p q ≡ true
    → allows q r ≡ true
    → (allows p r ≡ true) × ((allows q p ≡ true) ↔ (p ≡ q))
unfolding valid allows
allows-order p q r hp hq h k = ground arith
