-- ===== src/Users/Tests.antt =====
-- Pages of users and a ban, and the theorems at them.
use hsgram_admin.Prelude.{
  ℕ, suc, ◌+◌, ◌≤◌, ◌≡◌, refl, true, false, none, some, List, [], ◌∷◌, map, arith,
}
use mathlib.Core.List.{Perm}
use hsgram_admin.Prelude.Lists.{AllPairs, length, rows_where}
use hsgram_admin.Prelude.Text.{Text, is_empty, codes, text_eq, trim}
use hsgram_admin.Sql.{ok, World, quiet, run_sql}
use hsgram_admin.Users.Types.{UserRow, SessionRow, AdminUser, Tables, Filter, Database}
use hsgram_admin.Users.Store.{
  no_device, summary_of, user_where, list_users, restrict_row, set_user_restricted,
  kick_user_sessions, create_audit_log,
}
use hsgram_admin.Users.Pages.{total_of, size_of, at_page, listed, IsInOrder, list_users-pages}
use hsgram_admin.Users.Sessions.{
  Event, popup, reset_all, push_reset, disconnect, Services, done, not_found, Request, tell,
  merge_auth_key_ids, revoke_user_sessions, cut_off,
}
use hsgram_admin.Users.Moderation.{handle_ban}
use hsgram_admin.Users.Barred.{Barred}
use hsgram_admin.Users.Banned.{Full, handle_ban-Banned}

-- Runs a ban.
banning : Unit {0}
unfolding run_sql handle_ban cut_off revoke_user_sessions tell merge_auth_key_ids
    set_user_restricted restrict_row kick_user_sessions create_audit_log text_eq trim codes
banning = tt

abbrev user : ℕ → ℕ → UserRow
user i updated_at = record {
  profile = record {
    id = i;
    first_name = [];
    last_name = [];
    username = [];
    phone = [];
    country_code = [];
    verified = false;
    support = false;
    scam = false;
    fake = false;
    is_bot = false;
    state = 0;
    restricted = false;
    restriction_reason = [];
    deleted = false;
    delete_reason = [];
    created_at = 1;
    updated_at = updated_at;
  };
  about = [];
  account_days_ttl = 180;
  photo_id = 0;
}

abbrev session : ℕ → SessionRow
session i = record {
  id = i;
  user_id = 2;
  auth_key_id = 70 + i;
  hash = 0;
  device = no_device;
  date_created = 1;
  date_active = 5;
  deleted = false;
}

abbrev tables : Tables
tables = record {
  users = user 1 10 ∷ user 2 30 ∷ user 3 10 ∷ [];
  sessions = session 1 ∷ session 2 ∷ [];
  logs = [];
  next_log_id = 1;
}

abbrev database : Database
database = record { like = text_eq; found_rows = false; stamp = λ t. t + 1; has_device = false }

abbrev filter : Filter
filter = record { query = []; page = 0; page_size = 2; restricted = some false; deleted = none }

abbrev services : Services
services = record {
  has_status = true;
  has_sync = true;
  has_gateway = true;
  has_authsessions = true;
  has_risk = true;
  online = λ u. some (71 ∷ 0 ∷ []);
  revoked = λ before u. some (72 ∷ 71 ∷ []);
  answers = λ before e. true;
  risk_seconds = none;
  default_seconds = 300;
  encode = λ m. [];
}

abbrev admin : AdminUser
admin = record { id = 1; username = []; role = [] }

abbrev request : Request
request = record { method_post = true; decoded = true; reason = codes " spam " }

abbrev message : Text
message = codes "banned"

-- The ban of the user 2, where the statement of the audit log fails.
abbrev world : World Tables Event
world = record { tables = tables; faults = false ∷ true ∷ []; sent = [] }

abbrev behind : World Tables Event
behind = (handle_ban database services 50 admin 2 message request world).1

ban_run : (handle_ban database services 50 admin 2 message request world).0 ≡ ok (done 2 [])
unfolding banning
ban_run = refl

ban_sent :
    behind.sent
    ≡ popup 2 message ∷ reset_all 2 ∷ push_reset 2 (71 ∷ 72 ∷ []) ∷ disconnect (71 ∷ 72 ∷ []) ∷ []
unfolding banning
ban_sent = refl

-- A second ban for the same reason finds no row that changes.
banned_again : (handle_ban database services 60 admin 2 message request behind).0 ≡ ok not_found
unfolding banning
banned_again = refl

filled : is_empty (trim message) ≡ false
unfolding codes trim
filled = refl

handle_ban-Banned_example :
    Barred database services 50 admin 2 request.reason tables behind.tables
    × (◌≡◌ {A = List Text} [] []
        → Full database services 50 admin 2 message request filled 2 world behind)
unfolding banning
handle_ban-Banned_example =
    handle_ban-Banned database services 50 admin 2 message request world behind 2 [] filled refl

list_users-pages_example :
    ((1 ≤ size_of filter) × (size_of filter ≤ 100))
    × ((k : ℕ)
        → total_of (list_users database {E = Unit} (at_page filter (suc k)) (quiet tables [])).0
          ≡ some (length (rows_where (user_where database filter) tables.users)))
    × (rows : List UserRow) × (listed database filter tables 0 2 ≡ map summary_of rows)
    × Perm rows (rows_where (user_where database filter) tables.users)
    × AllPairs IsInOrder rows
unfolding user_where trim
list_users-pages_example = list_users-pages database filter tables 2 (omega arith)

first_page :
    listed database filter tables 0 1 ≡ summary_of (user 2 30) ∷ summary_of (user 3 10) ∷ []
unfolding run_sql listed list_users user_where trim
first_page = refl
