-- ===== src/Domain/Ends.antt =====
-- What holds where an action succeeds: rules by the shape of the action.
use strato.Prelude.{if◌then◌else◌, sym, ◌≡◌, refl, Bool, true, false, List, [], ◌∷◌}
use strato.Domain.Error.{Error, Result, ok, err, infra, ok-injective}
use strato.Domain.World.{Db, World}
use strato.Domain.Action.{
  Action, gets, lift, attempt, pure, fail, fail_if, ◌>>=◌, ◌>>◌, resume, met, run_statement,
  outside, statement, query,
}

-- The postcondition `Q`, if the action gave a result.
unfoldable pub Ends {ℓ} : {A : Type ℓ} → Result A × World → (A → World → Type 0) → Type 0
Ends (ok a, w) Q = Q a w
Ends (err e, w) Q = Unit {0}

resume-Ends {ℓ κ} :
    {A : Type ℓ} {B : Type κ} (Q : B → World → Type 0) (k : A → Action B) (r : Result A × World)
    → Ends r (λ a w. Ends (k a w) Q)
    → Ends (resume k r) Q
unfolding Ends
resume-Ends Q k (ok a, w) h = h
resume-Ends Q k (err e, w) h = tt

module _ {ℓ} {A : Type ℓ} (Q : A → World → Type 0) where
  -- A call outside sees the world of the caller, but for the faults.
  met-Ends :
      (fs : List Bool) (m : Action A) (w : World)
      → ((gs : List Bool) → Ends (m (record w { faults = gs })) Q)
      → Ends (met fs m w) Q
  unfolding Ends
  met-Ends [] m w h = h w.faults
  met-Ends (true ∷ fs) m w h = tt
  met-Ends (false ∷ fs) m w h = h fs

  run_statement-Ends :
      (r : Result (A × Db)) (w : World)
      → ((a : A) (d : Db) → r ≡ ok (a, d) → Q a (record w { db = d }))
      → Ends (run_statement r w) Q
  unfolding Ends
  run_statement-Ends (ok (a, d)) w h = h a d refl
  run_statement-Ends (err e) w h = tt

  result-Ends : (r : Result A) (w : World) → ((a : A) → r ≡ ok a → Q a w) → Ends (r, w) Q
  unfolding Ends
  result-Ends (ok a) w h = h a refl
  result-Ends (err e) w h = tt

  fail_if-Ends :
      (b : Bool) (e : Error) (k : Action A) (w : World)
      → (b ≡ false → Ends (k w) Q)
      → Ends ((fail_if b e >> k) w) Q
  unfolding Ends fail_if ◌>>=◌
  fail_if-Ends true e k w h = tt
  fail_if-Ends false e k w h = h refl

  always-Ends : (r : Result A × World) → ((a : A) (w : World) → Q a w) → Ends r Q
  unfolding Ends
  always-Ends (ok a, w) h = h a w
  always-Ends (err e, w) h = tt

module _ {ℓ} {A : Type ℓ} (Q : A → World → Type 0) where
  pub Ends-bind {κ} :
      {B : Type κ} (m : Action B) (k : B → Action A) (w : World)
      → Ends (m w) (λ a v. Ends (k a v) Q)
      → Ends ((m >>= k) w) Q
  Ends-bind m k w h = unfold ◌>>=◌ in resume-Ends Q k (m w) h

  pub Ends-outside :
      (m : Action A) (w : World)
      → ((gs : List Bool) → Ends (m (record w { faults = gs })) Q)
      → Ends (outside m w) Q
  Ends-outside m w h = unfold outside in met-Ends Q w.faults m w h

  pub Ends-statement :
      (f : World → Db → Result (A × Db)) (w : World)
      → ((v : World) (a : A) (d : Db) → f v w.db ≡ ok (a, d) → Q a (record v { db = d }))
      → Ends (statement f w) Q
  Ends-statement f w h =
      unfold statement outside in
      met-Ends Q w.faults (λ v. run_statement (f v v.db) v) w
        λ gs. let v = record w { faults = gs } in run_statement-Ends Q (f v w.db) v (h v)

  pub Ends-query :
      (f : World → Db → Result A) (w : World)
      → ((v : World) (a : A) → v.db ≡ w.db → f v w.db ≡ ok a → Q a v)
      → Ends (query f w) Q
  Ends-query f w h =
      unfold query outside in
      met-Ends Q w.faults (λ v. (f v v.db, v)) w
        λ gs. let v = record w { faults = gs } in result-Ends Q (f v w.db) v (λ a e. h v a refl e)

  pub Ends-pure : (a : A) (w : World) → Q a w → Ends (pure a w) Q
  Ends-pure a w h = unfold Ends pure in h

  pub Ends-lift : (r : Result A) (w : World) → ((a : A) → r ≡ ok a → Q a w) → Ends (lift r w) Q
  Ends-lift r w h = unfold lift in result-Ends Q r w h

  pub Ends-fail : (e : Error) (w : World) → Ends (fail e w) Q
  Ends-fail e w = unfold Ends fail in tt

  -- A branch that fails has no postcondition to meet.
  pub Ends-fail_if :
      (b : Bool) (e : Error) (k : Action A) (w : World)
      → (b ≡ false → Ends (k w) Q)
      → Ends ((fail_if b e >> k) w) Q
  Ends-fail_if b e k w h = fail_if-Ends Q b e k w h

  pub Ends-always : (r : Result A × World) → ((a : A) (w : World) → Q a w) → Ends r Q
  Ends-always r h = always-Ends Q r h

-- The ends of a call outside, its fault included.
met-ends {ℓ} :
    {A : Type ℓ} (R : Result A × World → Type 0) (fs : List Bool) (m : Action A) (w : World)
    → ((gs : List Bool) → R (m (record w { faults = gs })))
    → ((gs : List Bool) → R (err infra, record w { faults = gs }))
    → R (met fs m w)
met-ends R [] m w h g = h w.faults
met-ends R (true ∷ fs) m w h g = g fs
met-ends R (false ∷ fs) m w h g = h fs

queried {ℓ} :
    {A : Type ℓ} (R : Result A × World → Type 0) (r : Result A) (v : World)
    → ((a : A) → r ≡ ok a → R (ok a, v))
    → ((e : Error) → R (err e, v))
    → R (r, v)
queried R (ok a) v h g = h a refl
queried R (err e) v h g = g e

-- Where a query leads whose error is looked at: the tables are as they were.
pub attempt_query-leads {ℓ κ} :
    {A : Type ℓ} {B : Type κ} (R : Result A × World → Type 0) (f : World → Db → Result B)
    (k : Result B → Action A) (w : World)
    → ((v : World) (b : B) → v.db ≡ w.db → f v w.db ≡ ok b → R (k (ok b) v))
    → ((v : World) (e : Error) → v.db ≡ w.db → R (k (err e) v))
    → R ((attempt (query f) >>= k) w)
attempt_query-leads R f k w h g =
    unfold attempt ◌>>=◌ query outside in
    met-ends (λ r. R (k r.0 r.1)) w.faults (λ v. (f v v.db, v)) w
      (λ gs.
        let v = record w { faults = gs } in
        queried (λ r. R (k r.0 r.1)) (f v w.db) v (λ b e. h v b refl e) (λ e. g v e refl))
      (λ gs. g (record w { faults = gs }) infra refl)

-- The same, where the world matters besides its tables: only the faults change.
pub Ends-attempt_query_at {ℓ κ} :
    {A : Type ℓ} {B : Type κ} (Q : A → World → Type 0) (f : World → Db → Result B)
    (k : Result B → Action A) (w : World)
    → ((gs : List Bool) (b : B)
        → f (record w { faults = gs }) w.db ≡ ok b
        → Ends (k (ok b) (record w { faults = gs })) Q)
    → ((gs : List Bool) (e : Error) → Ends (k (err e) (record w { faults = gs })) Q)
    → Ends ((attempt (query f) >>= k) w) Q
Ends-attempt_query_at Q f k w h g =
    unfold attempt ◌>>=◌ query outside in
    met-ends (λ r. Ends (k r.0 r.1) Q) w.faults (λ v. (f v v.db, v)) w
      (λ gs.
        let v = record w { faults = gs } in
        queried (λ r. Ends (k r.0 r.1) Q) (f v w.db) v (λ b e. h gs b e) (λ e. g gs e))
      (λ gs. g gs infra)

pub Ends-query_at {ℓ} :
    {A : Type ℓ} (Q : A → World → Type 0) (f : World → Db → Result A) (w : World)
    → ((gs : List Bool) (a : A)
        → f (record w { faults = gs }) w.db ≡ ok a
        → Q a (record w { faults = gs }))
    → Ends (query f w) Q
Ends-query_at Q f w h =
    unfold query outside in
    met-Ends Q w.faults (λ v. (f v v.db, v)) w
      λ gs. let v = record w { faults = gs } in result-Ends Q (f v w.db) v (h gs)

-- A query whose error is looked at.
pub Ends-attempt_query {ℓ κ} :
    {A : Type ℓ} {B : Type κ} (Q : A → World → Type 0) (f : World → Db → Result B)
    (k : Result B → Action A) (w : World)
    → ((v : World) (b : B) → v.db ≡ w.db → f v w.db ≡ ok b → Ends (k (ok b) v) Q)
    → ((v : World) (e : Error) → v.db ≡ w.db → Ends (k (err e) v) Q)
    → Ends ((attempt (query f) >>= k) w) Q
Ends-attempt_query Q f k w h g = attempt_query-leads (λ r. Ends r Q) f k w h g

ran {ℓ} :
    {A : Type ℓ} (R : Result A × World → Type 0) (r : Result (A × Db)) (v : World)
    → ((a : A) (d : Db) → r ≡ ok (a, d) → R (ok a, record v { db = d }))
    → ((e : Error) → r ≡ err e → R (err e, v))
    → R (run_statement r v)
ran R (ok (a, d)) v h g = h a d refl
ran R (err e) v h g = g e refl

-- A statement whose error is looked at: its own, or a fault, and the tables are as they were.
pub Ends-attempt_statement {ℓ κ} :
    {A : Type ℓ} {B : Type κ} (Q : A → World → Type 0) (f : World → Db → Result (B × Db))
    (k : Result B → Action A) (w : World)
    → ((v : World) (b : B) (d : Db)
        → f v w.db ≡ ok (b, d)
        → Ends (k (ok b) (record v { db = d })) Q)
    → ((v : World) (e : Error) → v.db ≡ w.db → f v w.db ≡ err e → Ends (k (err e) v) Q)
    → ((v : World) → v.db ≡ w.db → Ends (k (err infra) v) Q)
    → Ends ((attempt (statement f) >>= k) w) Q
Ends-attempt_statement Q f k w h g i =
    unfold attempt ◌>>=◌ statement outside in
    met-ends (λ r. Ends (k r.0 r.1) Q) w.faults (λ v. run_statement (f v v.db) v) w
      (λ gs.
        let v = record w { faults = gs } in
        ran (λ r. Ends (k r.0 r.1) Q) (f v w.db) v (λ b d e. h v b d e) (λ e x. g v e refl x))
      (λ gs. i (record w { faults = gs }) refl)

pub Ends-attempt_statement_at {ℓ κ} :
    {A : Type ℓ} {B : Type κ} (Q : A → World → Type 0) (f : World → Db → Result (B × Db))
    (k : Result B → Action A) (w : World)
    → ((gs : List Bool) (b : B) (d : Db) → Ends (k (ok b) (record w { faults = gs; db = d })) Q)
    → ((gs : List Bool) (e : Error) → Ends (k (err e) (record w { faults = gs })) Q)
    → Ends ((attempt (statement f) >>= k) w) Q
Ends-attempt_statement_at Q f k w h g =
    unfold attempt ◌>>=◌ statement outside in
    met-ends (λ r. Ends (k r.0 r.1) Q) w.faults (λ v. run_statement (f v v.db) v) w
      (λ gs.
        let v = record w { faults = gs } in
        ran (λ r. Ends (k r.0 r.1) Q) (f v w.db) v (λ b d e. h gs b d) (λ e x. g gs e))
      (λ gs. g gs infra)

pub Ends-if {ℓ} :
    {A : Type ℓ} (Q : A → World → Type 0) (b : Bool) (m n : Action A) (w : World)
    → Ends (m w) Q
    → Ends (n w) Q
    → Ends ((if b then m else n) w) Q
Ends-if Q true m n w h g = h
Ends-if Q false m n w h g = g

pub Ends-weaken {ℓ} :
    {A : Type ℓ} (Q R : A → World → Type 0) (r : Result A × World)
    → ((a : A) (w : World) → Q a w → R a w)
    → Ends r Q
    → Ends r R
unfolding Ends
Ends-weaken Q R (ok a, w) h q = h a w q
Ends-weaken Q R (err e, w) h q = tt

pub Ends-both {ℓ} :
    {A : Type ℓ} (P Q : A → World → Type 0) (r : Result A × World)
    → Ends r P
    → Ends r Q
    → Ends r (λ a w. P a w × Q a w)
unfolding Ends
Ends-both P Q (ok a, w) p q = (p, q)
Ends-both P Q (err e, w) p q = tt

-- The branch that is taken, with what its test says.
pub Ends-cases {ℓ} :
    {A : Type ℓ} (Q : A → World → Type 0) (b : Bool) (m n : Action A) (w : World)
    → (b ≡ true → Ends (m w) Q)
    → (b ≡ false → Ends (n w) Q)
    → Ends ((if b then m else n) w) Q
Ends-cases Q true m n w h g = h refl
Ends-cases Q false m n w h g = g refl

pub Ends-fail_if_last :
    (Q : Unit {0} → World → Type 0) (b : Bool) (e : Error) (w : World)
    → (b ≡ false → Q tt w)
    → Ends (fail_if b e w) Q
unfolding Ends fail_if
Ends-fail_if_last Q true e w h = tt
Ends-fail_if_last Q false e w h = h refl

-- What is returned meets the postcondition.
pub Ends-ok {ℓ} :
    {A : Type ℓ} (Q : A → World → Type 0) (r : Result A × World) (a : A)
    → Ends r Q
    → r.0 ≡ ok a
    → Q a r.1
unfolding Ends
Ends-ok Q (ok b, w) a h e = rw (sym (ok-injective e)) h
Ends-ok Q (err x, w) a h e = cc

pub Ends-gets {ℓ} :
    {A : Type ℓ} (Q : A → World → Type 0) (f : World → A) (w : World)
    → Q (f w) w
    → Ends (gets f w) Q
unfolding Ends gets
Ends-gets Q f w h = h
