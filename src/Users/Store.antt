-- ===== src/Users/Store.antt =====
-- The user methods of backend/internal/store/store.go. `E` is what else is sent to the network.
use hsgram_admin.Prelude.{
  ℕ, suc, ◌-◌, ◌*◌, Bool, true, false, not, ◌&&◌, ◌||◌, Option, List, [], ◌∷◌, ◌++◌, map, ltb, leb,
  ◌==◌, if◌then◌else◌,
}
use hsgram_admin.Prelude.Lists.{
  length, take, drop, rows_where, first_where, any_where, update_where, order_by,
}
use hsgram_admin.Prelude.Decimal.{Parsed, parse_int, not_a_number, negative, number}
use hsgram_admin.Prelude.Text.{Text, codes, trim, is_empty, text_eq}
use hsgram_admin.Sql.{Sql, pure, raise, statement, query, exec, or_raise, ◌>>=◌}
use hsgram_admin.Broadcast.Targets.{join_name, is_or_any}
use hsgram_admin.Broadcast.Queue.{limit_of}
use hsgram_admin.Users.Types.{
  Profile, UserRow, Summary, Device, SessionRow, Session, AdminUser, AuditLog, Detail, Tables,
  Filter, ListResult, UserError, no_rows, Database,
}

abbrev pub Db : Type 0 → Type 0 → Type 0
Db E = Sql Tables E UserError

abbrev pub is_number : Parsed → ℕ → Bool
is_number not_a_number i = false
is_number negative i = false
is_number (number n) i = i == n

abbrev pub full_name : Profile → Text
full_name p = p.first_name ++ (codes " " ++ p.last_name)

-- `ORDER BY updated_at DESC, id DESC`.
abbrev pub user_behind : UserRow → UserRow → Bool
user_behind u v =
    ltb v.profile.updated_at u.profile.updated_at
    || (u.profile.updated_at == v.profile.updated_at && leb v.profile.id u.profile.id)

abbrev pub summary_of : UserRow → Summary
summary_of u = record {
  profile = u.profile;
  display_name = join_name u.profile.first_name u.profile.last_name;
}

abbrev pub has_user_id : ℕ → UserRow → Bool
has_user_id i u = u.profile.id == i

-- A page below 1 is the first.
abbrev pub page_of : ℕ → ℕ
page_of n = if ltb n 1 then 1 else n

abbrev pub restrict : (ℕ → ℕ) → Bool → Text → UserRow → UserRow
restrict stamp restricted reason u = record u {
  profile = record (u.profile) {
    restricted = restricted;
    restriction_reason = reason;
    updated_at = stamp u.profile.updated_at;
  };
}

-- Whether the row has other values already.
abbrev pub is_other : Bool → Text → UserRow → Bool
is_other restricted reason u =
    (if u.profile.restricted then not restricted else restricted)
    || not (text_eq u.profile.restriction_reason reason)

abbrev pub kick : SessionRow → SessionRow
kick s = record s { deleted = true; date_active = 0 }

abbrev pub is_live_of : ℕ → SessionRow → Bool
is_live_of i s = s.user_id == i && not s.deleted

abbrev pub no_device : Device
no_device = record {
  device_model = [];
  platform = [];
  system_version = [];
  api_id = 0;
  app_name = [];
  app_version = [];
  ip = [];
  country = [];
  region = [];
}

-- `ORDER BY date_active DESC, date_created DESC`.
abbrev pub session_behind : SessionRow → SessionRow → Bool
session_behind a b =
    ltb b.date_active a.date_active
    || (a.date_active == b.date_active && leb b.date_created a.date_created)

-- `ORDER BY created_at DESC, id DESC`.
abbrev pub log_behind : AuditLog → AuditLog → Bool
log_behind a b = ltb b.created_at a.created_at || (a.created_at == b.created_at && leb b.id a.id)

module _ (d : Database) where
  -- The WHERE clause of `buildUserFilters`.
  unfoldable pub user_where : Filter → UserRow → Bool
  user_where f u =
      let q = trim f.query in
      (is_empty q
        || (is_number (parse_int q) u.profile.id
            || (d.like q u.profile.username
                || (d.like q u.profile.phone || d.like q (full_name u.profile)))))
      && (is_or_any f.restricted u.profile.restricted && is_or_any f.deleted u.profile.deleted)

  -- The rows of a filter, in the order of the list.
  abbrev pub selected : Filter → Tables → List UserRow
  selected f t = order_by user_behind (rows_where (user_where f) t.users)

  unfoldable pub list_users : {E : Type 0} → Filter → Db E ListResult
  list_users f =
      let page = page_of f.page in
      let size = limit_of 20 100 f.page_size in
      do
        total ← query (λ t. length (rows_where (user_where f) t.users))
        rows ← query (λ t. take size (drop ((page - 1) * size) (selected f t)))
        pure (record { items = map summary_of rows; total = total; page = page; page_size = size })

  abbrev pub session_of : SessionRow → Session
  session_of s = record {
    id = s.id;
    auth_key_id = s.auth_key_id;
    hash = s.hash;
    device = if d.has_device then s.device else no_device;
    date_created = s.date_created;
    date_active = s.date_active;
    deleted = s.deleted;
  }

  unfoldable pub list_user_sessions : {E : Type 0} → ℕ → Db E (List Session)
  list_user_sessions i = query (λ t.
      map session_of
        (order_by session_behind (rows_where (λ (s : SessionRow). s.user_id == i) t.sessions)))

  unfoldable pub list_audit_logs : {E : Type 0} → ℕ → ℕ → Db E (List AuditLog)
  list_audit_logs i limit = query (λ t.
      take (limit_of 20 100 limit)
        (order_by log_behind (rows_where (λ (a : AuditLog). a.target_user_id == i) t.logs)))

  unfoldable pub get_user_detail : {E : Type 0} → ℕ → Db E Detail
  unfolding list_user_sessions list_audit_logs
  get_user_detail i = do
    found ← query (λ t. first_where (has_user_id i) t.users)
    u ← or_raise no_rows found
    sessions ← list_user_sessions i
    logs ← list_audit_logs i 20
    pure (record {
      summary = summary_of u;
      about = u.about;
      account_days_ttl = u.account_days_ttl;
      photo_id = u.photo_id;
      sessions = sessions;
      audit_logs = logs;
    })

  -- Whether a row was affected, and the users behind the update. A row that has the values keeps its
  -- time.
  unfoldable pub restrict_row : ℕ → Bool → Text → Tables → Bool × Tables
  restrict_row i restricted reason t = (
    any_where (λ u. has_user_id i u && (d.found_rows || is_other restricted reason u)) t.users,
    record t {
      users =
          update_where (λ u. has_user_id i u && is_other restricted reason u)
            (restrict d.stamp restricted reason) t.users;
    },
  )

  unfoldable pub set_user_restricted : {E : Type 0} → ℕ → Bool → Text → Db E (Unit {0})
  set_user_restricted i restricted reason = do
    affected ← statement (restrict_row i restricted (trim reason))
    if affected then pure tt else raise no_rows

unfoldable pub kick_user_sessions : {E : Type 0} → ℕ → Db E ℕ
kick_user_sessions i = statement (λ t. (
  length (rows_where (is_live_of i) t.sessions),
  record t { sessions = update_where (is_live_of i) kick t.sessions },
))

-- The metadata has been encoded by the caller.
unfoldable pub create_audit_log :
    {E : Type 0} → ℕ → AdminUser → Text → ℕ → Option Text → Db E (Unit {0})
create_audit_log now actor action target metadata = exec (λ t. record t {
  logs =
      record {
        id = t.next_log_id;
        actor = actor;
        action = action;
        target_user_id = target;
        metadata = metadata;
        created_at = now;
      }
      ∷ t.logs;
  next_log_id = suc t.next_log_id;
})
