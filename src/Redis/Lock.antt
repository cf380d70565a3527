-- ===== src/Redis/Lock.antt =====
-- internal/repository/redis/lock.go: the lock of one key. A token stands for its random text.
use strato.Prelude.{
  ℕ, ◌+◌, ◌<◌, ◌≡◌, refl, Bool, true, false, List, [], ◌∷◌, Option, none, some, leb, ◌==◌,
  if◌then◌else◌, arith, All,
}

-- The value under the key, which the server drops when its time to live is over.
pub record Held : Type 0 where
  pub token : ℕ
  pub expires_at : ℕ

abbrev pub Lock : Type 0
Lock = Option Held

unfoldable pub holder : ℕ → Lock → Lock
holder now none = none
holder now (some h) = if leb h.expires_at now then none else some h

-- `TryLock`: SET NX with the time to live.
unfoldable pub try_lock : ℕ → ℕ → ℕ → Lock → Bool × Lock
try_lock now ttl token l = elim (holder now l) [
  | none ↦ (true, some (record { token = token; expires_at = now + ttl }))
  | some h ↦ (false, some h)
]

-- `release`: the script deletes the key if it holds the token.
unfoldable pub release : ℕ → ℕ → Lock → Lock
release now token l = elim (holder now l) [
  | none ↦ none
  | some h ↦ if h.token == token then none else some h
]

-- What the clients of the lock do, each with its token.
pub data Event : Type 0 where
  locks : (at ttl token : ℕ) → Event
  releases : (at token : ℕ) → Event

abbrev pub at_of : Event → ℕ
at_of (locks at ttl token) = at
at_of (releases at token) = at

abbrev pub releases_by : ℕ → Event → Bool
releases_by mine (locks at ttl token) = false
releases_by mine (releases at token) = token == mine

unfoldable pub apply : Event → Lock → Bool × Lock
unfolding try_lock release holder
apply (locks at ttl token) l = try_lock at ttl token l
apply (releases at token) l = (false, release at token l)

-- Whether some event of the list took the lock, and the lock at the end.
pub play : List Event → Lock → Bool × Lock
play [] l = (false, l)
play (e ∷ es) l =
    let rest = play es (apply e l).1 in (if (apply e l).0 then true else rest.0, rest.1)

apply-held :
    (h : Held) (e : Event)
    → at_of e < h.expires_at
    → releases_by h.token e ≡ false
    → apply e (some h) ≡ (false, some h)
unfolding apply
apply-held h (locks at ttl token) early other = ground arith
apply-held h (releases at token) early other = ground arith

try_lock-taken :
    (l : Lock) (at ttl token : ℕ)
    → (try_lock at ttl token l).0 ≡ true
    → (try_lock at ttl token l).1 ≡ some (record { token = token; expires_at = at + ttl })
unfolding try_lock
try_lock-taken l at ttl token h = ground arith

play-held :
    (h : Held) (es : List Event)
    → All (λ e. (at_of e < h.expires_at) × (releases_by h.token e ≡ false)) es
    → play es (some h) ≡ (false, some h)
unfolding play
play-held h [] others = refl
play-held h (e ∷ es) others = rw (apply-held h e others.0.0 others.0.1) (play-held h es others.1)

-- From a `TryLock` that succeeds until its time to live is over, whatever is tried by then but a
-- release with its own token, by clients whose time is over included: no one else takes the lock, and
-- it is held as before.
pub try_lock-Excludes :
    (l : Lock) (at ttl token : ℕ) (es : List Event)
    → (try_lock at ttl token l).0 ≡ true
    → All (λ e. (at_of e < at + ttl) × (releases_by token e ≡ false)) es
    → play es (try_lock at ttl token l).1
      ≡ (false, some (record { token = token; expires_at = at + ttl }))
try_lock-Excludes l at ttl token es taken others =
    rw (try_lock-taken l at ttl token taken)
      (play-held (record { token = token; expires_at = at + ttl }) es others)
