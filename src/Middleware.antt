-- ===== src/Middleware.antt =====
-- internal/middleware/interceptors.go, with the context of internal/auth/context.go and the chain of
-- internal/transport/grpc/server.go. What is logged or counted is left out.
pub mod Guarded
pub mod Http
use strato.Prelude.{
  ℕ, zero, suc, ◌+◌, Bool, true, false, not, ◌&&◌, ◌||◌, List, [], ◌∷◌, ◌++◌, Option, none, some,
  map, length, ltb, leb, ◌==◌, if◌then◌else◌, take, drop, bytes_equal,
}
use mathlib.Core.List.{reverse}
use strato.Encoding.Space.{trim_space}
use strato.Encoding.Split.{split}
use strato.Entity.Account.{Text}
use strato.Entity.Access.{Identity}
use strato.Domain.Error.{Result, ok, err}
use strato.Usecase.Auth.Session.{RequestMeta}

-- What the context of a request carries.
pub record Context : Type 0 where
  pub identity : Option Identity
  pub meta : RequestMeta

-- The methods that the interceptors know by name.
pub data Method : Type 0 where
  register login refresh_token logout other_method : Method

-- A unary call: its method, the values of its metadata and the address of its peer.
pub record Call : Type 0 where
  pub method : Method
  pub authorization : List Text
  pub user_agent : List Text
  pub forwarded_for : List Text
  pub peer : Option Text

-- The status codes of google.golang.org/grpc/codes that the program answers with.
pub data Code : Type 0 where
  not_found already_exists invalid_argument unauthenticated permission_denied resource_exhausted
        failed_precondition canceled deadline_exceeded internal :
      Code

-- What a handler comes to: an answer, a status, or a panic.
pub data Reply {ℓ} (A : Type ℓ) : Type ℓ where
  answer : A → Reply A
  status : Code → Reply A
  panic : Reply A

-- `publicMethods`.
unfoldable pub is_public : Method → Bool
is_public other_method = false
is_public _ = true

-- `authRateLimited`.
unfoldable pub auth_rate_limited : Method → Bool
auth_rate_limited register = true
auth_rate_limited login = true
auth_rate_limited _ = false

-- strings.LastIndex of a byte.
last_index : ℕ → Text → Option ℕ
last_index b [] = none
last_index b (c ∷ s) =
    let rest = last_index b s in
    elim rest [ some i ↦ some (suc i) | none ↦ if c == b then some 0 else none ]

-- The brackets that a text begins with are dropped.
trim_left : Text → Text
trim_left [] = []
trim_left (c ∷ s) = let rest = trim_left s in if c == b'[' || c == b']' then rest else c ∷ s

host_before : Text → Option ℕ → Text
unfolding trim_left
host_before addr none = addr
host_before addr (some zero) = addr
host_before addr (some (suc i)) = reverse (trim_left (reverse (trim_left (take (suc i) addr))))

-- `hostOnly`.
unfoldable pub host_only : Text → Text
unfolding host_before last_index
host_only addr = host_before addr (last_index b':' addr)

abbrev pub first : List Text → Text
first [] = []
first (t ∷ ts) = t

peer_ip : Option Text → Text
peer_ip none = []
peer_ip (some addr) = host_only addr

client_ip : Text → Text → Text
client_ip ip [] = ip
client_ip ip (c ∷ forwarded) = trim_space (first (split b',' (c ∷ forwarded)))

-- The metadata of a call that `RequestMeta` finds.
unfoldable pub meta_of : Call → RequestMeta
unfolding peer_ip client_ip
meta_of call = record {
  ip = client_ip (peer_ip call.peer) (first call.forwarded_for);
  user_agent = first call.user_agent;
}

unfoldable pub fold_case : ℕ → ℕ
fold_case c = if leb b'A' c && leb c b'Z' then c + 32 else c

abbrev pub bearer_prefix : Text
bearer_prefix = b'b' ∷ b'e' ∷ b'a' ∷ b'r' ∷ b'e' ∷ b'r' ∷ b' ' ∷ []

-- `bearerFromMD`.
unfoldable pub bearer_from_md : List Text → Option Text
unfolding fold_case
bearer_from_md [] = none
bearer_from_md (v ∷ vs) =
    if leb (length v) 7 || not (bytes_equal (map fold_case (take 7 v)) bearer_prefix)
    then none
    else some (drop 7 v)

key_of : Option Text → RequestMeta → Text
key_of none meta = b'i' ∷ b'p' ∷ b':' ∷ meta.ip
key_of (some token) meta =
    if ltb 16 (length token)
    then b't' ∷ b'o' ∷ b'k' ∷ b':' ∷ take 16 token
    else b'i' ∷ b'p' ∷ b':' ∷ meta.ip

-- `callerKey`.
unfoldable pub caller_key : Call → RequestMeta → Text
unfolding key_of
caller_key call meta = key_of (bearer_from_md call.authorization) meta

-- `config.RateLimit`.
pub record RateLimit : Type 0 where
  pub enabled : Bool
  pub requests_per_minute : ℕ
  pub auth_requests_per_minute : ℕ

-- The key and the limit of a call.
unfoldable pub budget : RateLimit → Call → RequestMeta → Text × ℕ
budget cfg call meta =
    if auth_rate_limited call.method
    then (b'a' ∷ b'u' ∷ b't' ∷ b'h' ∷ b':' ∷ caller_key call meta, cfg.auth_requests_per_minute)
    else (caller_key call meta, cfg.requests_per_minute)

module _ {ℓ} {A : Type ℓ} where
  -- `RequestMeta`.
  unfoldable pub request_meta : Call → (Context → Reply A) → Context → Reply A
  request_meta call handler ctx = handler (record ctx { meta = meta_of call })

  -- What `Recovery` makes of a reply.
  recovered : Reply A → Reply A
  recovered panic = status internal
  recovered (answer a) = answer a
  recovered (status c) = status c

  -- `Recovery`.
  unfoldable pub recovery : (Context → Reply A) → Context → Reply A
  unfolding recovered
  recovery handler ctx = recovered (handler ctx)

  -- `RateLimit`; `allow` says whether the limiter allows a request of a key under a limit in a minute. An
  -- error of the limiter is logged, and its answer is taken all the same.
  unfoldable pub rate_limit :
      RateLimit → (Text → ℕ → Bool) → Call → (Context → Reply A) → Context → Reply A
  rate_limit cfg allow call handler ctx =
      if not cfg.enabled
      then handler ctx
      else (let (key, limit) = budget cfg call ctx.meta in
          if not (allow key limit) then status resource_exhausted else handler ctx)

  with_token : (Text → Result Identity) → Option Text → (Context → Reply A) → Context → Reply A
  with_token parse none handler ctx = status unauthenticated
  with_token parse (some token) handler ctx = elim (parse token) [
    | err _ ↦ status unauthenticated
    | ok ident ↦ handler (record ctx { identity = some ident })
  ]

  -- `Authentication`; `parse` is ParseAccessToken.
  unfoldable pub authentication :
      (Text → Result Identity) → Call → (Context → Reply A) → Context → Reply A
  unfolding with_token
  authentication parse call handler ctx =
      if is_public call.method
      then handler ctx
      else with_token parse (bearer_from_md call.authorization) handler ctx

  -- The chain of `NewServer`, round a handler, from the context of a new call.
  unfoldable pub unary :
      RateLimit
      → (Text → ℕ → Bool)
      → (Text → Result Identity)
      → Call
      → (Context → Reply A)
      → Reply A
  unary cfg allow parse call handler =
      request_meta call (recovery (rate_limit cfg allow call (authentication parse call handler)))
        (record { identity = none; meta = record { ip = []; user_agent = [] } })
