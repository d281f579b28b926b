-- ===== src/Login.antt =====
-- The login of an administrator: EnsureBootstrapAdmin and AuthenticateAdmin of
-- backend/internal/store/store.go and handleLogin of backend/internal/httpapi/handler.go. The audit log
-- of a login is left out: its error is dropped.
pub mod Sound
pub mod Bootstrap
pub mod Steps
pub mod Overlap
pub mod Guesses
pub mod Tests
use hsgram_admin.Prelude.{
  ℕ, suc, ◌≡◌, Bool, true, false, not, ◌||◌, Option, none, some, List, [], ◌∷◌, if◌then◌else◌,
}
use hsgram_admin.Prelude.Lists.{first_where}
use hsgram_admin.Prelude.Text.{Text, codes, trim, is_empty}
use hsgram_admin.Sql.{
  Result, ok, err, fault, World, Sql, pure, raise, query, exec, or_raise, ◌>>=◌, ◌>>◌,
}
use hsgram_admin.LoginLimiter.{Limiter, allow, record_failure, record_success, login_attempt_key}

-- A row of admin_users.
pub record AdminRow : Type 0 where
  pub id : ℕ
  pub username : Text
  pub password_hash : Text
  pub role : Text
  pub is_active : Bool

pub record AdminTables : Type 0 where
  pub admins : List AdminRow
  pub next_admin_id : ℕ

pub record AdminUser : Type 0 where
  pub id : ℕ
  pub username : Text
  pub role : Text

-- ErrInvalidCredentials.
pub data LoginError : Type 0 where
  invalid_credentials : LoginError

abbrev pub Action : Type 0 → Type 0
Action A = Sql AdminTables (Unit {0}) LoginError A

-- The collation of the names, lower case, and bcrypt: `hash` of a password, if it returns no error,
-- and whether a hash belongs to a password. `issue` says that a token can be signed.
pub record Outside : Type 0 where
  pub same_text : Text → Text → Bool
  pub lower : Text → Text
  pub hash : Text → Option Text
  pub compare : Text → Text → Bool
  pub issue : AdminUser → Bool

abbrev pub super_admin : Text
super_admin = codes "super_admin"

abbrev pub admin_of : AdminRow → AdminUser
admin_of r = record { id = r.id; username = r.username; role = r.role }

module _ (o : Outside) where
  -- INSERT … ON DUPLICATE KEY UPDATE, on the unique name.
  unfoldable pub upsert_admin : ℕ → Text → Text → List AdminRow → List AdminRow
  upsert_admin i username hash [] =
      record {
        id = i;
        username = username;
        password_hash = hash;
        role = super_admin;
        is_active = true;
      }
      ∷ []
  upsert_admin i username hash (r ∷ rs) =
      if o.same_text r.username username
      then record r { password_hash = hash; role = super_admin; is_active = true } ∷ rs
      else r ∷ upsert_admin i username hash rs

  abbrev pub upsert_hash : Text → Option Text → Action (Unit {0})
  upsert_hash name none w = (fault, w)
  upsert_hash name (some hash) w =
      exec
        (λ t. record t {
          admins = upsert_admin t.next_admin_id name hash t.admins;
          next_admin_id = suc t.next_admin_id;
        })
        w

  unfoldable pub ensure_bootstrap_admin : Text → Text → Action (Unit {0})
  unfolding upsert_admin
  ensure_bootstrap_admin username password =
      let name = trim username in
      if is_empty name || is_empty password then pure tt else upsert_hash name (o.hash password)

  unfoldable pub authenticate_admin : Text → Text → Action AdminUser
  authenticate_admin username password = do
    row ← query (λ t. first_where (λ (r : AdminRow). o.same_text r.username username) t.admins)
    r ← or_raise invalid_credentials row
    if not r.is_active
        then raise invalid_credentials
        else if not (o.compare r.password_hash password)
        then raise invalid_credentials
        else pure (admin_of r)

-- The body of a login request, and the address of the client.
pub record LoginRequest : Type 0 where
  pub method_post : Bool
  pub decoded : Bool
  pub username : Text
  pub password : Text
  pub ip : Text

-- What the handler answers: the status codes 405, 400, 429, 401, 500 and 200.
pub data LoginAnswer : Type 0 where
  bad_method bad_body wrong_credentials failed no_token : LoginAnswer
  too_many : ℕ → LoginAnswer
  logged_in : AdminUser → LoginAnswer

-- The limiter and the database behind a request.
abbrev pub Backend : Type 0
Backend = Limiter × World AdminTables (Unit {0})

module _ (o : Outside) (now : ℕ) where
  abbrev pub after_authenticate :
      Text
      → Limiter
      → Result LoginError AdminUser × World AdminTables (Unit {0})
      → LoginAnswer × Backend
  after_authenticate key l (ok a, w) =
      (if o.issue a then logged_in a else no_token, (record_success now key l, w))
  after_authenticate key l (err invalid_credentials, w) =
      (wrong_credentials, (record_failure now key l, w))
  after_authenticate key l (fault, w) = (failed, (l, w))

  abbrev pub after_allow :
      LoginRequest
      → Text
      → Limiter × ℕ × Bool
      → World AdminTables (Unit {0})
      → LoginAnswer × Backend
  after_allow r key (l, wait, allowed) w =
      if allowed
      then after_authenticate key l (authenticate_admin o (trim r.username) r.password w)
      else (too_many wait, (l, w))

  -- One instant stands for the readings of the clock, and no other request overlaps this one (Steps has
  -- the two steps between which others can come).
  unfoldable pub handle_login :
      LoginRequest → Limiter → World AdminTables (Unit {0}) → LoginAnswer × Backend
  unfolding authenticate_admin
  handle_login r l w =
      let key = login_attempt_key o.lower r.ip r.username in
      if not r.method_post
      then (bad_method, (l, w))
      else if not r.decoded
      then (bad_body, (l, w))
      else after_allow r key (allow now now key l) w
