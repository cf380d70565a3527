-- ===== src/Examples/Auth.antt =====
-- internal/usecase/auth_uc.go on a user with one session.
use strato.Prelude.{
  ℕ, ◌≡◌, refl, zero, suc, ◌<◌, some, true, All, arith, bytes_equal, length, ◌%◌, [], ◌∷◌, none,
}
use strato.Entity.Account.{Text}
use strato.Domain.Error.{ok}
use strato.Domain.World.{World}
use strato.Domain.Ends.{Ends}
use strato.Encoding.Base64.RoundTrip.{IsByte}
use strato.Encoding.Space.{trim_space}
use strato.Crypto.Cipher.{Bytes}
use strato.Crypto.Password.{default_argon2_params, hash_password, verify_password, needs_rehash}
use strato.Crypto.Password.RoundTrip.{verify_password-hash_password}
use strato.Usecase.Auth.Account.{to_lower, register, login}
use strato.Usecase.Auth.Login.{Verified, Registered, login-Verified}
use strato.Usecase.Auth.Admission.{register-Admitted}
use strato.Usecase.Auth.Token.{AuthEnv, Claims, hash_token}
use strato.Usecase.Auth.Session.{RequestMeta, TokenPair, refresh}
use strato.Usecase.Auth.Replay.{Caught, refresh-Caught}
use strato.Examples.Storage.{repeat, env, tables, world}

abbrev pub auth : AuthEnv
auth = record {
  sign = λ c. ok (c.subject ∷ []);
  issuer = [];
  ttl = 5;
  refresh_token_ttl = 50;
  default_quota_bytes = 100;
  id_key = λ pw salt t m p n. repeat n (length pw % 256);
  unicode_lower = λ s. s;
}

abbrev meta : RequestMeta
meta = record { ip = []; user_agent = [] }

abbrev token : Text
token = 66 ∷ []

abbrev signed_in : World
signed_in = record (world []) {
  db = record tables {
    sessions =
        record {
          id = 20;
          user_id = 1;
          family_id = 21;
          token_hash = 66;
          user_agent = [];
          ip = [];
          expires_at = 60;
          created_at = 0;
          revoked_at = none;
          replaced_by = none;
        }
        ∷ [];
  };
}

refresh-Caught_example : Ends (refresh env auth meta token signed_in) (λ pair v.
    Caught
      (hash_token env pair.refresh_token)
      (refresh env auth meta token (record v { faults = []; clock = 30 })))
refresh-Caught_example = refresh-Caught env auth meta meta token 30 signed_in

abbrev pub email : Text
email = b'b' ∷ b'@' ∷ b'c' ∷ []

abbrev pub password : Text
password = repeat 12 b'p'

pub repeat-IsByte : (n b : ℕ) → b < 256 → All IsByte (repeat n b)
repeat-IsByte zero b h = tt
repeat-IsByte (suc n) b h = (h, repeat-IsByte n b h)

length-repeat : (n b : ℕ) → length (repeat n b) ≡ n
length-repeat zero b = refl
length-repeat (suc n) b = omega (arith, length-repeat n b)

pub key-IsByte : (pw salt : Bytes) (t m p n : ℕ) → All IsByte (auth.id_key pw salt t m p n)
key-IsByte pw salt t m p n = repeat-IsByte n (length pw % 256) (omega arith)

pub length-key : (pw salt : Bytes) (t m p n : ℕ) → length (auth.id_key pw salt t m p n) ≡ n
length-key pw salt t m p n = length-repeat n (length pw % 256)

abbrev token_of : Claims → Text
token_of c = c.subject ∷ []

register-Admitted_example : Ends (register env auth email password [] (world [])) (λ user v.
    Registered env auth (to_lower auth (trim_space email)) password user.id [] v.db
    × (pair : TokenPair) × ((login env auth meta email password
          (record v { faults = []; clock = 20 })).0
        ≡ ok pair))
register-Admitted_example =
    register-Admitted env auth token_of meta email password [] 20 (world []) key-IsByte length-key
      (λ d n. repeat-IsByte n 0 (omega arith)) (λ c. refl)
      (record { ids = λ d. refl; tokens = λ d. refl })

login-Verified_example :
    Ends
      (login env auth meta email password (register env auth email password [] (world [])).1)
      (λ _ _.
        Verified env auth
          (to_lower auth (trim_space email))
          password
          (register env auth email password [] (world [])).1.db)
login-Verified_example =
    login-Verified env auth meta email password (register env auth email password [] (world [])).1

verify_password-hash_password_example :
    (verify_password auth.id_key password
        (hash_password auth.id_key password default_argon2_params (repeat 16 200))
      ≡ some true)
    × (verify_password auth.id_key email
          (hash_password auth.id_key password default_argon2_params (repeat 16 200))
        ≡ some (bytes_equal (repeat 32 12) (repeat 32 3)))
    × (needs_rehash
          (hash_password auth.id_key password default_argon2_params (repeat 16 200))
          (record default_argon2_params { iterations = 4 })
        ≡ true)
verify_password-hash_password_example =
    verify_password-hash_password auth.id_key key-IsByte length-key password email (repeat 16 200)
      default_argon2_params (record default_argon2_params { iterations = 4 })
      (omega arith, omega arith, omega arith) (omega arith) (repeat-IsByte 16 200 (omega arith))
