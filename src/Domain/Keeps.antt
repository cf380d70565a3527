-- ===== src/Domain/Keeps.antt =====
-- What an action keeps of the tables whichever way it ends: rules by the shape of the action.
use strato.Prelude.{subst, sym, if◌then◌else◌, ◌≡◌, refl, Bool, true, false, List, [], ◌∷◌}
use strato.Domain.Error.{Error, Result, ok, err}
use strato.Domain.World.{Db, World}
use strato.Domain.Ends.{Ends, Ends-weaken}
use strato.Domain.Action.{
  Action, pure, fail, gets, lift, fail_if, attempt, ignore, resume, met, run_statement, finish,
  committed, reach, within_tx, ◌>>=◌, outside, statement, query,
}

-- `m` leads from tables with `I` to tables with `I`, with a result or with an error.
unfoldable pub Keeps {ℓ} : {A : Type ℓ} → (Db → Type 0) → Action A → Type 0
Keeps I m = (w : World) → I w.db → I (m w).1.db

module _ {ℓ} {A : Type ℓ} (I : Db → Type 0) where
  resume-Keeps {κ} :
      {B : Type κ} (k : B → Action A) (r : Result B × World)
      → ((b : B) → Keeps I (k b))
      → I r.1.db
      → I (resume k r).1.db
  unfolding Keeps
  resume-Keeps k (ok a, w) h i = h a w i
  resume-Keeps k (err e, w) h i = i

  met-Keeps : (fs : List Bool) (m : Action A) → Keeps I m → Keeps I (met fs m)
  unfolding Keeps
  met-Keeps [] m h w i = h w i
  met-Keeps (true ∷ fs) m h w i = i
  met-Keeps (false ∷ fs) m h w i = h (record w { faults = fs }) i

  run_statement-Keeps :
      (r : Result (A × Db)) (w : World)
      → ((d : Db) (a : A) → r ≡ ok (a, d) → I d)
      → I w.db
      → I (run_statement r w).1.db
  run_statement-Keeps (ok (a, d)) w h i = h d a refl
  run_statement-Keeps (err e) w h i = i

attempted {ℓ κ} :
    {A : Type ℓ} {B : Type κ} (I : Db → Type 0) (k : Result B → Action A) (r : Result B × World)
    → ((b : B) → Keeps I (k (ok b)))
    → ((e : Error) → Keeps I (k (err e)))
    → I r.1.db
    → I (k r.0 r.1).1.db
unfolding Keeps
attempted I k (ok b, w) t u i = t b w i
attempted I k (err e, w) t u i = u e w i

reach-Keeps : (I : Db → Type 0) → Keeps I reach
unfolding Keeps reach pure outside
reach-Keeps I w i = met-Keeps I w.faults (pure tt) (λ v j. j) w i

module _ {ℓ} {A : Type ℓ} (I : Db → Type 0) where
  committed-Keeps :
      (before : Db) (a : A) (r : Result (Unit {0}) × World)
      → I before
      → I r.1.db
      → I (committed before a r).1.db
  committed-Keeps before a (ok t, w) b i = i
  committed-Keeps before a (err e, w) b i = b

  finish-Keeps :
      (before : Db) (r : Result A × World)
      → I before
      → Ends r (λ a w. I w.db)
      → I (finish before r).1.db
  unfolding Ends Keeps
  finish-Keeps before (err e, w) b h = b
  finish-Keeps before (ok a, w) b h = committed-Keeps before a (reach w) b (reach-Keeps I w h)

  within_tx-Keeps :
      (m : Action A) → ((w : World) → I w.db → Ends (m w) (λ a v. I v.db)) → Keeps I (within_tx m)
  unfolding within_tx Keeps
  within_tx-Keeps m h w i =
      resume-Keeps I (λ t w0. finish w.db (m w0)) (reach w)
        (λ t w0 j. finish-Keeps w.db (m w0) i (h w0 j)) (reach-Keeps I w i)

module _ {ℓ} {A : Type ℓ} (I : Db → Type 0) where
  pub Keeps-bind {κ} :
      {B : Type κ} (m : Action B) (k : B → Action A)
      → Keeps I m
      → ((b : B) → Keeps I (k b))
      → Keeps I (m >>= k)
  Keeps-bind m k h t = unfold Keeps ◌>>=◌ in λ w i. resume-Keeps I k (m w) t (h w i)

  pub Keeps-outside : (m : Action A) → Keeps I m → Keeps I (outside m)
  Keeps-outside m h = unfold Keeps outside in λ w i. met-Keeps I w.faults m h w i

  -- A statement, for which it is enough to look at its success.
  pub Keeps-statement :
      (f : World → Db → Result (A × Db))
      → ((w : World) (d d' : Db) (a : A) → f w d ≡ ok (a, d') → I d → I d')
      → Keeps I (statement f)
  Keeps-statement f h =
      unfold Keeps statement outside in
      λ w i.
        met-Keeps I w.faults (λ v. run_statement (f v v.db) v)
          (λ v j. run_statement-Keeps I (f v v.db) v (λ d a e. h v v.db d a e j) j) w i

  pub Keeps-query : (f : World → Db → Result A) → Keeps I (query f)
  Keeps-query f =
      unfold Keeps query outside in λ w i. met-Keeps I w.faults (λ v. (f v v.db, v)) (λ v j. j) w i

  pub Keeps-pure : (a : A) → Keeps I (pure a)
  Keeps-pure a = unfold Keeps pure in λ w i. i

  pub Keeps-gets : (f : World → A) → Keeps I (gets f)
  Keeps-gets f = unfold Keeps gets in λ w i. i

  pub Keeps-lift : (r : Result A) → Keeps I (lift r)
  Keeps-lift r = unfold Keeps lift in λ w i. i

  pub Keeps-attempt : (m : Action A) → Keeps I m → Keeps I (attempt m)
  Keeps-attempt m h = unfold Keeps attempt in λ w i. h w i

  -- An action whose error is looked at.
  pub Keeps-attempt_bind {κ} :
      {B : Type κ} (m : Action B) (k : Result B → Action A)
      → Keeps I m
      → ((b : B) → Keeps I (k (ok b)))
      → ((e : Error) → Keeps I (k (err e)))
      → Keeps I (attempt m >>= k)
  Keeps-attempt_bind m k h t u =
      unfold Keeps attempt ◌>>=◌ in λ w i. attempted I k (m w) t u (h w i)

  pub Keeps-ignore : (m : Action A) → Keeps I m → Keeps I (ignore m)
  Keeps-ignore m h = unfold Keeps ignore in λ w i. h w i

  pub Keeps-if : (b : Bool) (m n : Action A) → Keeps I m → Keeps I n → Keeps I (if b then m else n)
  Keeps-if true m n h k = h
  Keeps-if false m n h k = k

  -- A transaction keeps what its body keeps whenever the body succeeds.
  pub Keeps-within_tx :
      (m : Action A) → ((w : World) → I w.db → Ends (m w) (λ a v. I v.db)) → Keeps I (within_tx m)
  Keeps-within_tx m h = within_tx-Keeps I m h

pub Keeps-fail_if : (I : Db → Type 0) (b : Bool) (e : Error) → Keeps I (fail_if b e)
Keeps-fail_if I b e = unfold Keeps fail_if in λ w i. i

pub Keeps-fail {ℓ} : (A : Type ℓ) (I : Db → Type 0) (e : Error) → Keeps I (fail {A = A} e)
Keeps-fail A I e = unfold Keeps fail in λ w i. i

kept-Ends {ℓ} :
    {A : Type ℓ} (I : Db → Type 0) (r : Result A × World) → I r.1.db → Ends r (λ _ x. I x.db)
unfolding Ends
kept-Ends I (ok a, w) i = i
kept-Ends I (err e, w) i = tt

-- What an action keeps, at a world.
pub kept {ℓ} :
    {A : Type ℓ} (I : Db → Type 0) (m : Action A) (w : World) → Keeps I m → I w.db → I (m w).1.db
unfolding Keeps
kept I m w h i = h w i

pub Keeps-Ends {ℓ} :
    {A : Type ℓ} (I : Db → Type 0) (m : Action A) (w : World)
    → Keeps I m
    → I w.db
    → Ends (m w) (λ _ x. I x.db)
unfolding Keeps
Keeps-Ends I m w h i = kept-Ends I (m w) (h w i)

begun-leads {ℓ} :
    {A : Type ℓ} (J : Db → Type 0) (m : Action A) (before : Db) (r : Result (Unit {0}) × World)
    → J before
    → r.1.db ≡ before
    → ((v : World) → v.db ≡ before → Ends (m v) (λ _ x. J x.db))
    → J (resume (λ _ w0. finish before (m w0)) r).1.db
begun-leads J m before (ok t, w) j e h = finish-Keeps J before (m w) j (h w e)
begun-leads J m before (err x, w) j e h = subst J (sym e) j

-- Of a transaction, started on tables with `J`, that its body leaves with `J` where it succeeds.
pub within_tx-leads {ℓ} :
    {A : Type ℓ} (J : Db → Type 0) (m : Action A) (w : World)
    → J w.db
    → ((v : World) → v.db ≡ w.db → Ends (m v) (λ _ x. J x.db))
    → J (within_tx m w).1.db
unfolding within_tx Keeps
within_tx-leads J m w j h = begun-leads J m w.db (reach w) j (reach-Keeps (λ d. d ≡ w.db) w refl) h

then-resumed {ℓ κ} :
    {A : Type ℓ} {B : Type κ} (I : Db → Type 0) (k : B → Action A) (r : Result B × World)
    → I r.1.db
    → Ends r (λ b v. I (k b v).1.db)
    → I (resume k r).1.db
unfolding Ends
then-resumed I k (ok b, v) i h = h
then-resumed I k (err e, v) i h = i

-- An action that keeps `J`, and one that leads from `J` to `I`.
pub Keeps-then {ℓ κ} :
    {A : Type ℓ} {B : Type κ} (J I : Db → Type 0) (m : Action B) (k : B → Action A) (w : World)
    → ((d : Db) → J d → I d)
    → Keeps J m
    → ((b : B) (v : World) → J v.db → I (k b v).1.db)
    → J w.db
    → I ((m >>= k) w).1.db
Keeps-then J I m k w i h t j =
    unfold ◌>>=◌ in
    then-resumed I k (m w) (i (m w).1.db (kept J m w h j))
      (Ends-weaken _ _ (m w) (λ b v. t b v) (Keeps-Ends J m w h j))

-- An action that keeps `I`, and what follows from what holds where it succeeds.
pub Ends-then {ℓ κ} :
    {A : Type ℓ} {B : Type κ} (I : Db → Type 0) (m : Action B) (k : B → Action A) (w : World)
    → Keeps I m
    → I w.db
    → Ends (m w) (λ b v. I (k b v).1.db)
    → I ((m >>= k) w).1.db
Ends-then I m k w h i t = unfold ◌>>=◌ in then-resumed I k (m w) (kept I m w h i) t

-- What holds after an action is kept by the rest.
pub Keeps-after {ℓ κ} :
    {A : Type ℓ} {B : Type κ} (I : Db → Type 0) (m : Action B) (k : B → Action A) (w : World)
    → I (m w).1.db
    → ((b : B) → Keeps I (k b))
    → I ((m >>= k) w).1.db
Keeps-after I m k w i t = unfold ◌>>=◌ in resume-Keeps I k (m w) t i

pub attempt-then {ℓ κ} :
    {A : Type ℓ} {B : Type κ} (I : Db → Type 0) (m : Action B) (k : Result B → Action A) (w : World)
    → I (k (m w).0 (m w).1).1.db
    → I ((attempt m >>= k) w).1.db
unfolding attempt ◌>>=◌
attempt-then I m k w i = i

module _ {ℓ} {A : Type ℓ} (J : Db → Type 0) where
  committed-Ends :
      (before : Db) (a : A) (r : Result (Unit {0}) × World)
      → J r.1.db
      → Ends (committed before a r) (λ _ x. J x.db)
  unfolding Ends
  committed-Ends before a (ok t, w) i = i
  committed-Ends before a (err e, w) i = tt

  finish-Ends :
      (before : Db) (r : Result A × World)
      → Ends r (λ _ x. J x.db)
      → Ends (finish before r) (λ _ x. J x.db)
  unfolding Ends
  finish-Ends before (ok a, w) i =
      committed-Ends before a (reach w) (kept J reach w (reach-Keeps J) i)
  finish-Ends before (err e, w) i = tt

  begun-Ends :
      (m : Action A) (before : Db) (r : Result (Unit {0}) × World)
      → r.1.db ≡ before
      → ((v : World) → v.db ≡ before → Ends (m v) (λ _ x. J x.db))
      → Ends (resume (λ _ w0. finish before (m w0)) r) (λ _ x. J x.db)
  begun-Ends m before (ok t, w) e h = finish-Ends before (m w) (h w e)
  begun-Ends m before (err x, w) e h = unfold Ends in tt

  -- What the body of a transaction establishes where it succeeds is committed.
  pub Ends-within_tx :
      (m : Action A) (w : World)
      → ((v : World) → v.db ≡ w.db → Ends (m v) (λ _ x. J x.db))
      → Ends (within_tx m w) (λ _ x. J x.db)
  unfolding within_tx Keeps
  Ends-within_tx m w h = begun-Ends m w.db (reach w) (reach-Keeps (λ d. d ≡ w.db) w refl) h
