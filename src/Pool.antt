-- ===== src/Pool.antt =====
-- pkg/workerpool/pool.go: the pool as a step relation. A step is one access of the channel, the flag or a
-- context, by a caller of `Submit` or `Shutdown` or by a worker, in any order.
pub mod Delivery
pub mod Progress
use strato.Prelude.{
  ℕ, zero, suc, ◌+◌, ◌<◌, ◌≤◌, ◌≡◌, Bool, true, false, List, [], ◌∷◌, ◌++◌, length, ltb, leb,
  if◌then◌else◌,
}

-- Tasks are numbers. Workers that wait for a task are alike, and so are those that have ended.
pub record Pool : Type 0 where
  pub depth : ℕ
  pub queue : List ℕ
  pub idle : ℕ
  pub running : List ℕ
  pub ended : ℕ
  pub closed : Bool
  pub canceled : Bool
  -- Callers of `Submit` that have seen the pool open, each with its task.
  pub submitting : List ℕ
  -- Tasks whose `Submit` returned nil, and tasks that were run to their end.
  pub accepted : List ℕ
  pub finished : List ℕ
  -- A send on the closed channel.
  pub panicked : Bool

-- `New`: at least one worker; a depth below 0 is 0.
unfoldable pub new : ℕ → ℕ → Pool
new workers depth = record {
  depth = depth;
  queue = [];
  idle = if ltb workers 1 then 1 else workers;
  running = [];
  ended = 0;
  closed = false;
  canceled = false;
  submitting = [];
  accepted = [];
  finished = [];
  panicked = false;
}

-- The select of `Submit` has its places in the middle of `submitting` and `running`.
pub data Step (p : Pool) : Pool → Type 0 where
  -- `Submit` up to Unlock; if the pool is closed it returns `ErrClosed`, which changes nothing.
  seen_open : (t : ℕ) → p.closed ≡ false → Step p (record p { submitting = t ∷ p.submitting })
  -- The select of `Submit`: a free place, or a worker that waits.
  sent :
      (before after : List ℕ) (t : ℕ)
      → p.submitting ≡ before ++ t ∷ after
      → p.closed ≡ false
      → length p.queue < p.depth
      → Step p (record p {
        submitting = before ++ after;
        queue = p.queue ++ t ∷ [];
        accepted = t ∷ p.accepted;
      })
  handed :
      (before after : List ℕ) (t n : ℕ)
      → p.submitting ≡ before ++ t ∷ after
      → p.closed ≡ false
      → p.queue ≡ []
      → p.idle ≡ suc n
      → Step p (record p {
        submitting = before ++ after;
        idle = n;
        running = t ∷ p.running;
        accepted = t ∷ p.accepted;
      })
  -- Its caller's context ends, or that of the pool.
  gave_up :
      (before after : List ℕ) (t : ℕ)
      → p.submitting ≡ before ++ t ∷ after
      → Step p (record p { submitting = before ++ after })
  -- The channel is closed: the send panics.
  sent_closed :
      (before after : List ℕ) (t : ℕ)
      → p.submitting ≡ before ++ t ∷ after
      → p.closed ≡ true
      → Step p (record p { submitting = before ++ after; panicked = true })
  -- A worker's turn of `range p.tasks`.
  took :
      (t n : ℕ) (rest : List ℕ)
      → p.queue ≡ t ∷ rest
      → p.idle ≡ suc n
      → Step p (record p { queue = rest; idle = n; running = t ∷ p.running })
  finishes :
      (before after : List ℕ) (t : ℕ)
      → p.running ≡ before ++ t ∷ after
      → Step p
          (record p { running = before ++ after; idle = suc p.idle; finished = t ∷ p.finished })
  ends :
      (n : ℕ)
      → p.queue ≡ []
      → p.closed ≡ true
      → p.idle ≡ suc n
      → Step p (record p { idle = n; ended = suc p.ended })
  -- `Shutdown`: the first call closes the channel; the end of its context, or of its wait, cancels.
  closes : p.closed ≡ false → Step p (record p { closed = true })
  cancels : p.closed ≡ true → Step p (record p { canceled = true })

pub data Reach (p : Pool) : Pool → Type 0 where
  here : Reach p p
  next : {q r : Pool} → Reach p q → Step q r → Reach p r

-- The wait of `Shutdown` is over.
abbrev pub Stopped : Pool → Type 0
Stopped p = (p.closed ≡ true) × (p.idle ≡ 0) × (p.running ≡ [])
