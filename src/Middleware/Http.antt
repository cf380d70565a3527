-- ===== src/Middleware/Http.antt =====
-- internal/middleware/http.go: what the HTTP endpoints ask before a handler runs. What is logged or counted
-- is left out.
use strato.Prelude.{
  ℕ, Bool, not, ◌&&◌, [], ◌∷◌, Option, none, some, map, length, ltb, if◌then◌else◌, take, drop,
  bytes_equal,
}
use strato.Encoding.Space.{trim_space}
use strato.Encoding.Split.{split}
use strato.Entity.Account.{Text}
use strato.Entity.Access.{Identity}
use strato.Domain.Error.{Result, ok, err}
use strato.Middleware.{Context, RateLimit, bearer_prefix, fold_case, first}

-- A request: its headers, empty where they are missing, and the address of its peer.
pub record Request : Type 0 where
  pub authorization : Text
  pub user_agent : Text
  pub forwarded_for : Text
  pub remote_addr : Text

-- What a handler comes to: an answer, or an error with its status code.
pub data Response {ℓ} (A : Type ℓ) : Type ℓ where
  sent : A → Response A
  failed : ℕ → Response A
  panicked : Response A

-- `bearerFromHeader`.
unfoldable pub bearer_from_header : Text → Text
bearer_from_header h =
    if ltb 7 (length h) && bytes_equal (map (λ c. fold_case c) (take 7 h)) bearer_prefix
    then drop 7 h
    else []

host_or : Text → Option Text → Text
host_or addr none = addr
host_or addr (some host) = host

address : (Text → Option Text) → Text → Text → Text
unfolding host_or
address split_host addr [] = host_or addr (split_host addr)
address split_host addr (c ∷ fwd) = trim_space (first (split b',' (c ∷ fwd)))

-- `clientIP`; `split_host` is the host that net.SplitHostPort gives.
unfoldable pub client_ip : (Text → Option Text) → Request → Text
unfolding address
client_ip split_host r = address split_host r.remote_addr r.forwarded_for

module _ {ℓ} {A : Type ℓ} where
  -- `HTTPRequestMeta`.
  unfoldable pub request_meta :
      (Text → Option Text) → Request → (Context → Response A) → Context → Response A
  request_meta split_host r next ctx =
      next (record ctx { meta = record { ip = client_ip split_host r; user_agent = r.user_agent } })

  recovered : Response A → Response A
  recovered panicked = failed 500
  recovered (sent a) = sent a
  recovered (failed c) = failed c

  -- `HTTPRecovery`.
  unfoldable pub recovery : (Context → Response A) → Context → Response A
  unfolding recovered
  recovery next ctx = recovered (next ctx)

  -- `HTTPRateLimit`.
  unfoldable pub rate_limit :
      (Text → Option Text)
      → RateLimit
      → (Text → ℕ → Bool)
      → Request
      → (Context → Response A)
      → Context
      → Response A
  rate_limit split_host cfg allow r next ctx =
      if not cfg.enabled
      then next ctx
      else (let token = bearer_from_header r.authorization in
          let key =
            if ltb 16 (length token)
            then b't' ∷ b'o' ∷ b'k' ∷ b':' ∷ take 16 token
            else b'i' ∷ b'p' ∷ b':' ∷ client_ip split_host r in
          if not (allow key cfg.requests_per_minute) then failed 429 else next ctx)

  identified : Result Identity → (Context → Response A) → Context → Response A
  identified (err _) next ctx = failed 401
  identified (ok ident) next ctx = next (record ctx { identity = some ident })

  with_bearer :
      (Text → Result Identity) → Bool → Text → (Context → Response A) → Context → Response A
  unfolding identified
  with_bearer parse allow_anonymous [] next ctx = if allow_anonymous then next ctx else failed 401
  with_bearer parse allow_anonymous (c ∷ token) next ctx = identified (parse (c ∷ token)) next ctx

  -- `HTTPAuthenticate`.
  unfoldable pub authenticate :
      (Text → Result Identity) → Bool → Request → (Context → Response A) → Context → Response A
  unfolding with_bearer
  authenticate parse allow_anonymous r next ctx =
      with_bearer parse allow_anonymous (bearer_from_header r.authorization) next ctx
