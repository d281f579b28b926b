-- ===== src/Login/Tests.antt =====
-- Logins against a table of administrators, and the theorems at them.
use hsgram_admin.Prelude.{List, ◌<◌, ◌+◌, arith, ◌≡◌, refl, true, false, some, [], ◌∷◌}
use mathlib.Core.Option.{some_inj}
use hsgram_admin.Prelude.Text.{Text, codes, text_eq, text_eq_refl, trim}
use hsgram_admin.Sql.{World, quiet, run_sql}
use hsgram_admin.LoginLimiter.{
  Limiter, new_limiter, allow, sweep_expired, record_failure, next_attempt, login_attempt_key,
}
use hsgram_admin.Login.{
  AdminTables, AdminUser, Outside, super_admin, ensure_bootstrap_admin, authenticate_admin,
  LoginRequest, wrong_credentials, logged_in, handle_login,
}
use hsgram_admin.Login.Sound.{Proper, handle_login-Proper}
use hsgram_admin.Login.Steps.{key_of, enter_login, finish_login}
use hsgram_admin.Login.Overlap.{Event, Server, arrives, leaves, take_turn, guesses, AtMost}
use hsgram_admin.Login.Guesses.{guesses-new_limiter}
use hsgram_admin.Login.Bootstrap.{bootstrap-logged_in}

abbrev outside : Outside
outside = record {
  same_text = text_eq;
  lower = λ s. s;
  hash = λ p. some p;
  compare = text_eq;
  issue = λ a. true;
}

-- One administrator who may not log in any more, and one who may.
abbrev tables : AdminTables
tables = record {
  admins =
      record {
        id = 1;
        username = codes "ann";
        password_hash = codes "old";
        role = codes "viewer";
        is_active = false;
      }
      ∷ record {
        id = 2;
        username = codes "bob";
        password_hash = codes "pw";
        role = codes "viewer";
        is_active = true;
      }
      ∷ [];
  next_admin_id = 3;
}

abbrev request : Text → Text → LoginRequest
request username password = record {
  method_post = true;
  decoded = true;
  username = username;
  password = password;
  ip = codes "10.0.0.1";
}

abbrev fresh : Limiter
fresh = new_limiter 5 100 100

abbrev world : World AdminTables Unit
world = quiet tables []

answer_bob :
    (handle_login outside 10 (request (codes " bob ") (codes "pw")) fresh world).0
    ≡ logged_in (record { id = 2; username = codes "bob"; role = codes "viewer" })
unfolding run_sql handle_login authenticate_admin allow sweep_expired new_limiter login_attempt_key
    text_eq trim codes
answer_bob = refl

answer_ann :
    (handle_login outside 10 (request (codes "ann") (codes "old")) fresh world).0
    ≡ wrong_credentials
unfolding run_sql handle_login authenticate_admin allow sweep_expired new_limiter login_attempt_key
    text_eq trim codes
answer_ann = refl

handle_login-Proper_example :
    Proper outside 10
      (request (codes " bob ") (codes "pw"))
      fresh
      tables
      (handle_login outside 10 (request (codes " bob ") (codes "pw")) fresh world).0
handle_login-Proper_example =
    handle_login-Proper outside 10 (request (codes " bob ") (codes "pw")) fresh world

belongs : (p h : Text) → outside.hash p ≡ some h → outside.compare h p ≡ true
belongs p h e = let eq : p ≡ h = some_inj.0 e in rw eq (text_eq_refl h)

-- Ann is there, and inactive.
bootstrap-logged_in_example :
    (a : AdminUser) × ((handle_login outside 10
        (request (codes "ann ") (codes "new"))
        fresh
        (ensure_bootstrap_admin outside (codes "ann") (codes "new") world).1).0
      ≡ logged_in a)
    × (text_eq a.username (trim (codes "ann")) ≡ true)
    × (a.role ≡ super_admin)
unfolding run_sql allow sweep_expired new_limiter login_attempt_key text_eq trim codes
bootstrap-logged_in_example =
    bootstrap-logged_in outside 10 (codes "ann") (codes "new")
      (request (codes "ann ") (codes "new")) fresh tables [] text_eq_refl belongs (λ a. refl) refl
      refl refl refl refl refl refl

-- Three wrong passwords for bob where two are the limit, and then the right one.
abbrev bob : Text
bob = key_of outside (request (codes "bob") [])

-- Two requests are let in before the first of them is answered.
abbrev tries : List Event
tries =
    record { now = 10; turn = arrives (request (codes "bob") (codes "a")) }
    ∷ record { now = 11; turn = arrives (request (codes "bob") (codes "b")) }
    ∷ record { now = 12; turn = leaves 1 }
    ∷ record { now = 13; turn = leaves 0 }
    ∷ record { now = 14; turn = arrives (request (codes "bob") (codes "pw")) }
    ∷ []

abbrev server : Server
server = ([], (new_limiter 1 100 100, world))

serving : Unit {0}
unfolding guesses take_turn enter_login finish_login run_sql authenticate_admin allow sweep_expired
    record_failure next_attempt new_limiter login_attempt_key text_eq trim codes
serving = tt

-- More wrong passwords than the limit are answered.
tries_run : guesses outside bob tries server ≡ 2
unfolding serving
tries_run = refl

tries-AtMost : AtMost outside bob 2 tries server
unfolding serving
tries-AtMost = (omega arith, (omega arith, (omega arith, (omega arith, (omega arith, tt)))))

guesses-new_limiter_example : guesses outside bob tries server < 1 + 2
guesses-new_limiter_example =
    guesses-new_limiter outside 1 100 100 10 bob 2 tries world (omega arith) (omega arith)
      (omega arith, (omega arith, (omega arith, (omega arith, (omega arith, tt)))))
      (
        (omega arith, omega arith, omega arith),
        (
          (omega arith, omega arith, omega arith),
          (
            (omega arith, omega arith, omega arith),
            (
              (omega arith, omega arith, omega arith),
              ((omega arith, omega arith, omega arith), tt),
            ),
          ),
        ),
      )
      tries-AtMost
