-- ===== src/Examples/Service.antt =====
-- pkg/retry, pkg/workerpool and internal/repository/redis on small inputs.
use strato.Prelude.{
  ℕ, suc, ◌+◌, ◌-◌, ◌≤◌, ◌≡◌, refl, true, false, List, [], ◌∷◌, none, some, arith, ltb, ◌==◌,
  if◌then◌else◌,
}
use strato.Retry.{Policy, Trial, window, run}
use strato.Retry.Attempts.{Meets, run-Meets}
use strato.Redis.RateLimiter.{allow}
use strato.Redis.RateLimiter.Bounded
use strato.Redis.RateLimiter.Bounded.{Request, recent, last_at, recent-le-limit}
use strato.Redis.Lock.{holder, locks, releases, try_lock, play, try_lock-Excludes}
use strato.Pool.{
  Pool, new, Reach, here, next, seen_open, sent, took, finishes, ends, closes, Stopped,
}
use strato.Pool.Delivery.{times, Stopped-delivered}
use strato.Pool.Progress.{closed-Stops, submitting-Panics}

abbrev policy : Policy ℕ
policy = record {
  max_attempts = 3;
  base_delay = 10;
  max_delay = 15;
  retry_if = some (λ e. ltb e 5);
}

-- Two errors to retry, then success.
abbrev trial : Trial ℕ
trial = record {
  fn = λ i. if i == 2 then none else some 1;
  ended = λ _. false;
  int63n = λ _ n. n - 1;
}

run-Meets_example : Meets policy trial (suc (policy.max_attempts - 1)) (run policy trial)
run-Meets_example = run-Meets policy trial (λ a n h. omega arith)

run_sleeps : (run policy trial).sleeps ≡ 10 ∷ 15 ∷ []
unfolding run window
run_sleeps = refl

abbrev requests : List Request
requests =
    record { at = 5; member = 1 }
    ∷ record { at = 6; member = 2 }
    ∷ record { at = 7; member = 3 }
    ∷ record { at = 17; member = 4 }
    ∷ []

recent-le-limit_example :
    recent 2 10
      (last_at 2 10 0 requests + 0)
      (Bounded.run 2 10 requests (record { entries = []; expires_at = 0 }) []).1
    ≤ 2
recent-le-limit_example = recent-le-limit 2 10 requests 0 (omega arith) (ground arith)

run_passed :
    (Bounded.run 2 10 requests (record { entries = []; expires_at = 0 }) []).1 ≡ 5 ∷ 6 ∷ 17 ∷ []
unfolding Bounded.run allow
run_passed = refl

try_lock-Excludes_example :
    play (locks 12 30 8 ∷ releases 13 8 ∷ []) (try_lock 10 5 7 none).1
    ≡ (false, some (record { token = 7; expires_at = 15 }))
unfolding try_lock holder
try_lock-Excludes_example =
    try_lock-Excludes none 10 5 7 (locks 12 30 8 ∷ releases 13 8 ∷ []) refl (ground arith)

-- One worker takes one task; then the pool is shut down.
unfoldable shut_down : Pool
unfolding new
shut_down = record (new 1 1) { queue = 4 ∷ []; accepted = 4 ∷ []; closed = true }

shut_down-Reach : Reach (new 1 1) shut_down
unfolding new shut_down
shut_down-Reach =
    next (next (next here (seen_open 4 refl)) (sent [] [] 4 refl refl (omega arith))) (closes refl)

-- The worker runs the task and ends.
unfoldable stopped : Pool
unfolding shut_down
stopped = record shut_down { queue = []; idle = 0; ended = 1; finished = 4 ∷ [] }

stopped-Reach : Reach (new 1 1) stopped
unfolding stopped shut_down new
stopped-Reach =
    next (next (next shut_down-Reach (took 4 0 [] refl refl)) (finishes [] [] 4 refl))
      (ends 0 refl refl refl)

Stopped-delivered_example : times 4 stopped.finished ≡ times 4 stopped.accepted
unfolding stopped
Stopped-delivered_example = Stopped-delivered 1 1 stopped 4 stopped-Reach (refl, refl, refl)

closed-Stops_example : (q : Pool) × Reach shut_down q × Stopped q
unfolding shut_down
closed-Stops_example = closed-Stops 1 1 shut_down shut_down-Reach refl

-- A caller of `Submit` that has seen the pool open.
submitting-Panics_example :
    (q : Pool) × Reach (record (new 1 1) { submitting = 4 ∷ [] }) q × (q.panicked ≡ true)
unfolding new
submitting-Panics_example =
    submitting-Panics (record (new 1 1) { submitting = 4 ∷ [] }) 4 [] refl refl
