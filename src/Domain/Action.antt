-- ===== src/Domain/Action.antt =====
-- How the use cases run: an action changes the world and returns or fails. What was done before a
-- failure stays done, but for a transaction (`WithinTx` of internal/repository/postgres/db.go).
use strato.Prelude.{Bool, true, false, List, [], ◌∷◌, if◌then◌else◌}
use strato.Domain.Error.{Error, Result, ok, err, infra}
use strato.Domain.World.{Db, World}

abbrev pub Action {ℓ} : Type ℓ → Type ℓ
Action A = World → Result A × World

module _ {ℓ} {A : Type ℓ} where
  unfoldable pub pure : A → Action A
  pure a w = (ok a, w)

  unfoldable pub fail : Error → Action A
  fail e w = (err e, w)

  unfoldable pub gets : (World → A) → Action A
  gets f w = (ok (f w), w)

  -- A result computed with no effect.
  unfoldable pub lift : Result A → Action A
  lift r w = (r, w)

  -- The action, with its result as a value for a caller that looks at it.
  unfoldable pub attempt : Action A → Action (Result A)
  attempt m w = let (r, w') = m w in (ok r, w')

module _ {ℓ κ} {A : Type ℓ} {B : Type κ} where
  abbrev pub resume : (A → Action B) → Result A × World → Result B × World
  resume f (ok a, w) = f a w
  resume f (err e, w) = (err e, w)

  infixl 5 ◌>>=◌
  unfoldable pub ◌>>=◌ : Action A → (A → Action B) → Action B
  ◌>>=◌ m f w = resume f (m w)

module _ {κ} {B : Type κ} where
  infixl 5 ◌>>◌
  abbrev pub ◌>>◌ : Action (Unit {0}) → Action B → Action B
  m >> k = m >>= λ _. k

-- `if b { return e }`.
unfoldable pub fail_if : Bool → Error → Action (Unit {0})
fail_if b e w = (if b then err e else ok tt, w)

-- `if b { m }`, for an action with no result.
unfoldable pub when : Bool → Action (Unit {0}) → Action (Unit {0})
when b m w = if b then m w else (ok tt, w)

-- `_ = m`: the error is dropped.
unfoldable pub ignore {ℓ} : {A : Type ℓ} → Action A → Action (Unit {0})
ignore m w = let (r, w') = m w in (ok tt, w')

-- One call of something outside the process: it fails if the next fault says so.
abbrev pub met {ℓ} : {A : Type ℓ} → List Bool → Action A → Action A
met [] m w = m w
met (true ∷ fs) m w = (err infra, record w { faults = fs })
met (false ∷ fs) m w = m (record w { faults = fs })

unfoldable pub outside {ℓ} : {A : Type ℓ} → Action A → Action A
outside m w = met w.faults m w

abbrev pub run_statement {ℓ} : {A : Type ℓ} → Result (A × Db) → World → Result A × World
run_statement (ok (a, d)) w = (ok a, record w { db = d })
run_statement (err e) w = (err e, w)

-- One SQL statement: it fails with no effect, or changes the tables.
unfoldable pub statement {ℓ} : {A : Type ℓ} → (World → Db → Result (A × Db)) → Action A
unfolding outside
statement f = outside (λ w. run_statement (f w w.db) w)

-- One SQL query.
unfoldable pub query {ℓ} : {A : Type ℓ} → (World → Db → Result A) → Action A
unfolding outside
query f = outside (λ w. (f w w.db, w))

-- A call that does nothing: BEGIN, or COMMIT of what is done already.
unfoldable pub reach : Action (Unit {0})
unfolding outside pure
reach = outside (pure tt)

module _ {ℓ} {A : Type ℓ} where
  abbrev pub committed : Db → A → Result (Unit {0}) × World → Result A × World
  committed before a (ok _, w) = (ok a, w)
  committed before a (err e, w) = (err e, record w { db = before })

  -- The end of a transaction: ROLLBACK to the tables at BEGIN, or COMMIT, which may fail.
  abbrev pub finish : Db → Result A × World → Result A × World
  finish before (err e, w) = (err e, record w { db = before })
  finish before (ok a, w) = committed before a (reach w)

-- `WithinTx`, by whether the context carries a transaction: then `fn` joins it, and what it changes before an
-- error is left to the outer one. If not, BEGIN may fail; after an error of `fn`, or if COMMIT fails, the
-- tables are what they were at BEGIN.
abbrev pub within_tx_of {ℓ} : {A : Type ℓ} → Bool → Action A → Action A
within_tx_of true fn w = fn w
within_tx_of false fn w = resume (λ _ w0. finish w.db (fn w0)) (reach w)

-- `WithinTx` as the use cases call it, which never nest it.
unfoldable pub within_tx {ℓ} : {A : Type ℓ} → Action A → Action A
unfolding reach
within_tx fn = within_tx_of false fn
