-- ===== src/Retry/Attempts.antt =====
-- What `Do` of pkg/retry/retry.go returns, and how often and how long it waits.
use strato.Prelude.{
  ℕ, zero, suc, ◌+◌, ◌-◌, ◌≤◌, ◌<◌, ◌≡◌, ◌⊎◌, inl, inr, refl, true, false, Option, none, some,
  arith, All, Bool-cases,
}
use strato.Retry.{
  Policy, Trial, Outcome, success, failure, interrupted, Run, window, retryable, slept, tried,
  retry_loop, run,
}

module _ {ℓ} {E : Type ℓ} (p : Policy E) (t : Trial E) where
  pub window-le : (attempt : ℕ) → window p attempt ≤ p.max_delay
  unfolding window
  window-le attempt = ground arith

  -- Attempt `i` failed with an error to retry.
  abbrev pub Retried : ℕ → Type ℓ
  Retried i = (e : E) × (t.fn i ≡ some e) × (retryable p e ≡ true)

  -- What an outcome says of the attempts up to `last`, the last one that was made.
  abbrev pub Explains : ℕ → ℕ → Outcome E → Type ℓ
  Explains most last success = t.fn last ≡ none
  Explains most last (failure e) =
      (t.fn last ≡ some e) × ((suc last ≡ most) ⊎ (retryable p e ≡ false))
  Explains most last (interrupted e) =
      (t.fn last ≡ some e) × (suc last < most) × (t.ended (suc last) ≡ true)

  abbrev pub Before : ℕ → Type ℓ
  Before zero = Unit {ℓ}
  Before (suc n) = Before n × Retried n

  -- An account of a run with at most `most` calls: every call but the last failed with an error to
  -- retry, the outcome is what the last one says, and no wait is longer than the policy allows.
  abbrev pub Meets : ℕ → Run E → Type ℓ
  Meets most r =
      (last : ℕ) × (r.calls ≡ suc last)
      × (last < most)
      × Before last
      × Explains most last r.outcome
      × All (λ n. n ≤ p.max_delay) r.sleeps

  module _ (draws : (a n : ℕ) → 0 < n → t.int63n a n < n) where
    slept-le : (attempt : ℕ) → t.int63n attempt (window p attempt + 1) ≤ p.max_delay
    slept-le attempt =
        omega (arith, draws attempt (window p attempt + 1) (omega arith), window-le attempt)

    tried-Meets :
        (most left a : ℕ)
        → suc a + left ≡ most
        → Before a
        → ((last : E)
            → Before (suc a)
            → t.fn a ≡ some last
            → Meets most (retry_loop p t left (suc a) last))
        → (o : Option E) → t.fn a ≡ o
        → Meets most (tried p (retry_loop p t left (suc a)) a o)
    unfolding tried
    tried-Meets most left a n before again none e = (a, refl, omega arith, before, e, tt)
    tried-Meets most left a n before again (some x) e = elim (Bool-cases (retryable p x)) [
      | inl more ↦ rw more (again x (before, (x, e, more)) e)
      | inr stop ↦ rw stop (a, refl, omega arith, before, (e, inr stop), tt)
    ]

    slept-Meets : (most n : ℕ) (r : Run E) → n ≤ p.max_delay → Meets most r → Meets most (slept n r)
    unfolding slept
    slept-Meets most n r h (last, c, b, before, explained, short) =
        (last, c, b, before, explained, (h, short))

    loop-Meets :
        (most left a : ℕ) (last : E)
        → suc a + left ≡ most
        → Before (suc a)
        → t.fn a ≡ some last
        → Meets most (retry_loop p t left (suc a) last)
    unfolding retry_loop
    loop-Meets most zero a last n before e =
        (a, refl, omega arith, before.0, (e, inl (omega arith)), tt)
    loop-Meets most (suc left) a last n before e =
        let rest =
          tried-Meets most left (suc a) (omega arith) before
            (λ x b e'. loop-Meets most left (suc a) x (omega arith) b e') (t.fn (suc a)) refl in
        elim (Bool-cases (t.ended (suc a))) [
          | inl over ↦ rw over (a, refl, omega arith, before.0, (e, omega arith, over), tt)
          | inr on ↦ rw on (slept-Meets most _ _ (slept-le (suc a)) rest)
        ]

    -- For every policy and whatever the attempts meet, where a draw below `n` is below `n`: `Do`
    -- calls `fn` at least once and at most `max_attempts` times (once if that is 0); every call but
    -- the last failed with an error to retry; it returns nil only if the last call did, and an error
    -- of `fn` only if it is the last call's and no attempt is left or the error is not to retry; it is
    -- interrupted only where an attempt was left and the context ended; and no wait is longer than
    -- `max_delay`.
    pub run-Meets : Meets (suc (p.max_attempts - 1)) (run p t)
    unfolding run
    run-Meets =
        tried-Meets _ (p.max_attempts - 1) 0 (omega arith) tt
          (λ x b e. loop-Meets _ (p.max_attempts - 1) 0 x (omega arith) b e) (t.fn 0) refl
