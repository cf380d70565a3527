-- ===== src/Examples/Transport.antt =====
-- The interceptors and `ListFiles` on small inputs.
use strato.Prelude.{
  ℕ, zero, suc, ◌+◌, ◌-◌, length, ◌∙◌, ◌≡◌, refl, ap, true, [], ◌∷◌, ◌++◌, none, some, arith,
  Option,
}
use strato.Entity.Account.{Text}
use strato.Entity.Access.{Identity}
use strato.Domain.Error.{ok}
use strato.Pagination.{ordered, is_zero, clamp_page_size}
use strato.Postgres.FileRepo.{selected}
use strato.Postgres.Listings.{file_key, folder_files}
use strato.Middleware.{
  Context, Call, Reply, RateLimit, answer, other_method, unary, bearer_prefix, caller_key,
  bearer_from_md, is_public, rate_limit, recovery, authentication, request_meta,
}
use strato.Middleware.Guarded.{Guarded, unary-Guarded, caller_key-Shared}
use strato.Transport.Messages.{Wire, files_to_proto}
use strato.Transport.Paging.{client, list_files-Whole}
use strato.Encoding.Split.{Lacks}
use strato.Entity.Storage.{chunk_key}
use strato.Storage.Distinct.{key_text-injective}
use strato.Examples.Signer.{letters, count, count-letters}
use strato.Examples.Listing.{json, json-Marshals}
use strato.Examples.Storage.{env, ann, tables, world}

abbrev wire : Wire
wire = record { uuid_text = letters; parse_uuid = λ t. some (count t); hex = letters; json = json }

abbrev ctx : Context
ctx = record { identity = some ann; meta = record { ip = []; user_agent = [] } }

list_files-Whole_example :
    client env wire ctx true true 1 (world []) 3 []
    ≡ files_to_proto wire (ordered file_key true (folder_files 1 none true tables))
unfolding selected is_zero clamp_page_size
list_files-Whole_example =
    list_files-Whole env wire ann ctx true true 1 0 3 (world []) refl refl refl
      (λ id. ap some (count-letters id)) (json-Marshals _, (json-Marshals _, tt))
      ((refl, tt), (tt, tt)) (refl, (refl, tt)) (omega arith)

-- A call with a token of 19 bytes, and one of the same first 16 from elsewhere.
abbrev header : Text
header = letters 16

abbrev call : Call
call = record {
  method = other_method;
  authorization = (bearer_prefix ++ header ++ b'x' ∷ b'y' ∷ b'z' ∷ []) ∷ [];
  user_agent = [];
  forwarded_for = [];
  peer = some (b'1' ∷ b':' ∷ b'2' ∷ []);
}

abbrev other_call : Call
other_call = record call {
  authorization = (bearer_prefix ++ header ++ b'w' ∷ []) ∷ [];
  peer = some (b'3' ∷ b':' ∷ b'2' ∷ []);
}

caller_key-Shared_example :
    caller_key call (record { ip = b'1' ∷ []; user_agent = [] })
    ≡ caller_key other_call (record { ip = b'3' ∷ []; user_agent = [] })
caller_key-Shared_example =
    caller_key-Shared call other_call (record { ip = b'1' ∷ []; user_agent = [] })
      (record { ip = b'3' ∷ []; user_agent = [] }) header (b'x' ∷ b'y' ∷ b'z' ∷ []) (b'w' ∷ []) refl
      refl (omega arith) (omega arith) (omega arith)

abbrev limits : RateLimit
limits = record { enabled = true; requests_per_minute = 5; auth_requests_per_minute = 2 }

abbrev handler : Context → Reply (Option Identity)
handler c = answer c.identity

unary-Guarded_example : Guarded limits (λ key limit. true) (λ token. ok ann) call handler (some ann)
unfolding unary request_meta recovery rate_limit authentication bearer_from_md is_public
unary-Guarded_example =
    unary-Guarded limits (λ key limit. true) (λ token. ok ann) call handler (some ann) refl

-- Digests are written with four letters more than they are.
abbrev hex : ℕ → Text
hex d = letters (d + 4)

count_hex : (d : ℕ) → some (count (hex d) - 4) ≡ some d
count_hex d = ap (λ n. some (n - 4)) (count-letters (d + 4)) ∙ ap some (omega arith)

length-letters : (n : ℕ) → length (letters n) ≡ n
length-letters zero = refl
length-letters (suc n) = ap suc (length-letters n)

letters-plain : (n : ℕ) → Lacks b'/' (letters n)
letters-plain zero = tt
letters-plain (suc n) = (refl, letters-plain n)

key_text-injective_example : chunk_key 1 2 ≡ chunk_key 1 2
key_text-injective_example =
    key_text-injective hex letters (λ t. some (count t - 4)) (λ t. some (count t)) (chunk_key 1 2)
      (chunk_key 1 2) count_hex (λ d. let long = length-letters (d + 4) in omega arith)
      (λ id. ap some (count-letters id)) letters-plain refl
