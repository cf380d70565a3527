-- ===== src/Outside/Tables.antt =====
-- The calls of the object store, the locks and the random source leave the tables as they are.
use strato.Prelude.{
  ℕ, suc, ◌≡◌, refl, sym, ap, Bool, true, List, [], ◌∷◌, Option, none, some, find_row, length, take,
  leb, arith, delete_rows,
}
use strato.Crypto.Cipher.{Bytes}
use strato.Entity.Storage.{Key}
use strato.Domain.Error.{ok, err, not_found}
use strato.Domain.World.{Db, World}
use strato.Domain.Ends.{Ends, Ends-outside}
use strato.Domain.Keeps.{Keeps, Keeps-outside, Keeps-ignore}
use strato.Outside.{
  Env, new_id, holds, random_bytes, put, get, delete, try_lock, release_lock, unlock,
}

take-length : (xs : Bytes) → take (length xs) xs ≡ xs
take-length [] = refl
take-length (x ∷ xs) = ap (λ ys. x ∷ ys) (take-length xs)

pub new_id-Ends :
    (env : Env) (Q : ℕ → World → Type 0) (w : World)
    → Q (env.uuid w.drawn) (record w { drawn = suc w.drawn })
    → Ends (new_id env w) Q
unfolding new_id Ends
new_id-Ends env Q w h = h

-- Random bytes are those of the draw; only the draws and the faults change.
pub random_bytes-Ends :
    (env : Env) (n : ℕ) (Q : Bytes → World → Type 0) (w : World)
    → ((v : World) → v.db ≡ w.db → Q (env.random v.drawn n) (record v { drawn = suc v.drawn }))
    → Ends (random_bytes env n w) Q
random_bytes-Ends env n Q w h =
    unfold random_bytes in
    Ends-outside Q _ w (λ gs. unfold Ends in h (record w { faults = gs }) refl)

pub Ends-random_bytes :
    (env : Env) (n : ℕ) (Q : Bytes → World → Type 0) (w : World)
    → ((gs : List Bool) → Q (env.random w.drawn n) (record w { faults = gs; drawn = suc w.drawn }))
    → Ends (random_bytes env n w) Q
Ends-random_bytes env n Q w h =
    unfold random_bytes in Ends-outside Q _ w (λ gs. unfold Ends in h gs)

found-Ends :
    (Q : Bytes → World → Type 0) (o : Option (Key × Bytes)) (w : World)
    → ((k : Key) (body : Bytes) → o ≡ some (k, body) → Q body w)
    → Ends ((elim o [ none ↦ err not_found | some (_, body) ↦ ok body ]), w) Q
unfolding Ends
found-Ends Q none w h = tt
found-Ends Q (some (k, body)) w h = h k body refl

pub Ends-get :
    (key : Key) (Q : Bytes → World → Type 0) (w : World)
    → ((gs : List Bool) (k : Key) (body : Bytes)
        → find_row (holds key) w.objects ≡ some (k, body)
        → Q body (record w { faults = gs }))
    → Ends (get key w) Q
Ends-get key Q w h =
    unfold get in
    Ends-outside Q _ w
      (λ gs. found-Ends Q (find_row (holds key) w.objects) (record w { faults = gs }) (h gs))

-- A body of the size that is announced is kept whole.
pub Ends-put :
    (key : Key) (body : Bytes) (size : ℕ) (Q : Unit {0} → World → Type 0) (w : World)
    → length body ≡ size
    → ((gs : List Bool) (objects : List (Key × Bytes))
        → objects ≡ (key, body) ∷ delete_rows (holds key) w.objects
        → Q tt (record w { faults = gs; objects = objects }))
    → Ends (put key body size w) Q
Ends-put key body size Q w e h =
    let fits : leb size (length body) ≡ true = ground arith in
    let whole : take size body ≡ body = rw (sym e) (take-length body) in
    unfold put in Ends-outside Q _ w (λ gs. rw (fits, whole) (unfold Ends in h gs _ refl))

module _ (I : Db → Type 0) where
  pub new_id-Keeps : (env : Env) → Keeps I (new_id env)
  unfolding Keeps new_id
  new_id-Keeps env w i = i

  pub random_bytes-Keeps : (env : Env) (n : ℕ) → Keeps I (random_bytes env n)
  random_bytes-Keeps env n = unfold random_bytes in Keeps-outside _ _ (unfold Keeps in λ w i. i)

  pub put-Keeps : (key : Key) (body : Bytes) (size : ℕ) → Keeps I (put key body size)
  put-Keeps key body size = unfold put in Keeps-outside _ _ (unfold Keeps in λ w i. i)

  pub get-Keeps : (key : Key) → Keeps I (get key)
  get-Keeps key = unfold get in Keeps-outside _ _ (unfold Keeps in λ w i. i)

  pub delete-Keeps : (key : Key) → Keeps I (delete key)
  delete-Keeps key = unfold delete in Keeps-outside _ _ (unfold Keeps in λ w i. i)

  pub try_lock-Keeps : (key : ℕ) → Keeps I (try_lock key)
  try_lock-Keeps key = unfold try_lock in Keeps-outside _ _ (unfold Keeps in λ w i. i)

  release_lock-Keeps : (key : ℕ) → Keeps I (release_lock key)
  release_lock-Keeps key = unfold release_lock in Keeps-outside _ _ (unfold Keeps in λ w i. i)

  pub unlock-Keeps : (key : ℕ) → Keeps I (unlock key)
  unlock-Keeps key = unfold unlock in Keeps-ignore _ _ (release_lock-Keeps key)
