-- ===== src/Redis/RateLimiter.antt =====
-- internal/repository/redis/rate_limiter.go: the sliding window of one key.
pub mod Bounded
use strato.Prelude.{
  ℕ, ◌+◌, Bool, true, false, List, [], ◌∷◌, ◌++◌, leb, ◌==◌, if◌then◌else◌, length, delete_rows,
}

-- A member of the sorted set, with its score. The member stands for the text of time and random digits.
pub record Entry : Type 0 where
  pub score : ℕ
  pub member : ℕ

-- The sorted set of a key; from `expires_at` on the server has no such key.
pub record Log : Type 0 where
  pub entries : List Entry
  pub expires_at : ℕ

-- What the server finds under the key.
abbrev pub found_at : ℕ → Log → List Entry
found_at now log = if leb log.expires_at now then [] else log.entries

-- `Allow`'s script: ZREMRANGEBYSCORE up to `now - window`, ZCARD, and below the limit ZADD, which
-- moves a member that is there, and PEXPIRE.
module _ (limit window : ℕ) where
  abbrev pub trimmed : ℕ → Log → List Entry
  trimmed now log = delete_rows (λ e. leb (e.score + window) now) (found_at now log)

  unfoldable pub allow : ℕ → ℕ → Log → Bool × Log
  allow now member log =
      let kept = trimmed now log in
      if leb limit (length kept) then (false, record log { entries = kept }) else (
        true,
        record {
          entries =
              delete_rows (λ e. e.member == member) kept
              ++ record { score = now; member = member } ∷ [];
          expires_at = now + window;
        },
      )

-- What `Allow` returns, with whether it returns an error: a script that could not be run fails open.
unfoldable pub answer : Bool → Bool → Bool × Bool
answer reached allowed = if reached then (allowed, false) else (true, true)
