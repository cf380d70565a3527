-- ===== src/Retry.antt =====
-- pkg/retry/retry.go: `Do` under a policy. What `fn` returns at each attempt, whether the context ends
-- in the wait before it, and the random number that is drawn for it are given by the attempt's number.
pub mod Attempts
use strato.Prelude.{
  ℕ, zero, suc, ◌+◌, ◌-◌, ◌*◌, ◌%◌, ◌^◌, Bool, true, false, ◌||◌, not, List, [], ◌∷◌, Option, none,
  some, ltb, leb, ◌==◌, if◌then◌else◌,
}

module _ {ℓ} (E : Type ℓ) where
  -- `Policy`, with durations in nanoseconds, below 2^63. A `max_attempts` below 1 counts as 1.
  pub record Policy : Type ℓ where
    pub max_attempts : ℕ
    pub base_delay : ℕ
    pub max_delay : ℕ
    pub retry_if : Option (E → Bool)

  -- What the attempts meet.
  pub record Trial : Type ℓ where
    pub fn : ℕ → Option E
    pub ended : ℕ → Bool
    pub int63n : ℕ → ℕ → ℕ

  -- nil, an error of `fn`, or the context's error joined with the last one of `fn`.
  pub data Outcome : Type ℓ where
    success : Outcome
    failure : E → Outcome
    interrupted : E → Outcome

  -- The outcome, with the number of the calls of `fn` and the waits.
  pub record Run : Type ℓ where
    pub outcome : Outcome
    pub calls : ℕ
    pub sleeps : List ℕ

-- `DefaultPolicy`.
unfoldable pub default_policy {ℓ} : (E : Type ℓ) → Policy E
default_policy E = record {
  max_attempts = 4;
  base_delay = 100 * 1_000_000;
  max_delay = 2 * 1_000_000_000;
  retry_if = none;
}

module _ {ℓ} {E : Type ℓ} where
  -- The window of an attempt after the first: `base_delay << (attempt - 1)` is an int64, whose bit
  -- patterns from 2^63 on are negative.
  unfoldable pub window : Policy E → ℕ → ℕ
  window p attempt =
      let shifted = p.base_delay * 2 ^ (attempt - 1) % 2 ^ 64 in
      if ltb p.max_delay shifted || (shifted == 0 || leb (2 ^ 63) shifted)
      then p.max_delay
      else shifted

  abbrev pub retryable : Policy E → E → Bool
  retryable p e = elim p.retry_if [ none ↦ true | some f ↦ f e ]

  unfoldable pub slept : ℕ → Run E → Run E
  slept n r = record r { sleeps = n ∷ r.sleeps }

  -- The rest of the loop at an attempt, of which `left` may follow.
  unfoldable pub tried : Policy E → (E → Run E) → ℕ → Option E → Run E
  tried p again attempt none = record { outcome = success; calls = suc attempt; sleeps = [] }
  tried p again attempt (some e) =
      if retryable p e
      then again e
      else record { outcome = failure e; calls = suc attempt; sleeps = [] }

  -- The loop at `attempt`, after the error `last`, with `left` attempts left.
  unfoldable pub retry_loop : Policy E → Trial E → ℕ → ℕ → E → Run E
  unfolding slept tried
  retry_loop p t zero attempt last = record { outcome = failure last; calls = attempt; sleeps = [] }
  retry_loop p t (suc left) attempt last =
      let rest = tried p (retry_loop p t left (suc attempt)) attempt (t.fn attempt) in
      if t.ended attempt
      then record { outcome = interrupted last; calls = attempt; sleeps = [] }
      else slept (t.int63n attempt (window p attempt + 1)) rest

  -- `Do`.
  unfoldable pub run : Policy E → Trial E → Run E
  unfolding retry_loop
  run p t = tried p (retry_loop p t (p.max_attempts - 1) 1) 0 (t.fn 0)
