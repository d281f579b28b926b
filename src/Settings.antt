-- ===== src/Settings.antt =====
-- The runtime settings: backend/internal/store/runtime_settings.go. An id that is not positive is 0.
-- Encoding a record of settings does not fail.
pub mod FreshIds
pub mod Live
pub mod Saved
pub mod Tests
use hsgram_admin.Prelude.{
  ℕ, suc, ◌≡◌, refl, Bool, true, false, not, ◌&&◌, ◌||◌, Option, none, some, List, [], ◌∷◌, map,
  ◌==◌, if◌then◌else◌,
}
use hsgram_admin.Prelude.Lists.{length, contains, rows_where, first_where}
use hsgram_admin.Prelude.Text.{Text, codes, trim, is_empty, text_eq}
use hsgram_admin.Sql.{Sql, pure, raise, query, exec, or_raise, ◌>>=◌, ◌>>◌}

pub record InviteSettings : Type 0 where
  pub enabled : Bool
  pub updated_at : ℕ

pub record Contacts : Type 0 where
  pub user_ids : List ℕ
  pub welcome_message : Text
  pub updated_at : ℕ

-- A row of admin_runtime_settings, and what is read of a row of users.
pub record SettingRow : Type 0 where
  pub setting_key : Text
  pub value : Text

pub record UserRow : Type 0 where
  pub id : ℕ
  pub deleted : Bool

pub record Tables : Type 0 where
  pub settings : List SettingRow
  pub users : List UserRow

pub data SettingsError : Type 0 where
  bad_json missing_users : SettingsError

abbrev pub Action : Type 0 → Type 0
Action A = Sql Tables (Unit {0}) SettingsError A

-- JSON, in the column of the table.
pub record Format (A : Type 0) : Type 0 where
  pub encode : A → Text
  pub decode : Text → Option A

abbrev pub invite_key : Text
invite_key = codes "signup_invite_settings"

abbrev pub contacts_key : Text
contacts_key = codes "default_admin_contact_user_ids"

abbrev pub default_invite : InviteSettings
default_invite = record { enabled = false; updated_at = 0 }

abbrev pub default_contacts : Contacts
default_contacts = record { user_ids = []; welcome_message = []; updated_at = 0 }

-- `normalizeUserIDList`, behind the ids that were seen.
abbrev pub fresh_ids : List ℕ → List ℕ → List ℕ
fresh_ids seen [] = []
fresh_ids seen (i ∷ is) = elim (i == 0 || contains i seen) [
  | true ↦ fresh_ids seen is
  | false ↦ i ∷ fresh_ids (i ∷ seen) is
]

unfoldable pub normalize_user_id_list : List ℕ → List ℕ
normalize_user_id_list is = fresh_ids [] is

-- The value of a key, and INSERT … ON DUPLICATE KEY UPDATE.
unfoldable pub value_of : Text → List SettingRow → Option Text
value_of key [] = none
value_of key (r ∷ rs) = if text_eq r.setting_key key then some r.value else value_of key rs

unfoldable pub put_value : Text → Text → List SettingRow → List SettingRow
put_value key value [] = record { setting_key = key; value = value } ∷ []
put_value key value (r ∷ rs) =
    if text_eq r.setting_key key
    then record r { value = value } ∷ rs
    else r ∷ put_value key value rs

-- What a value that was read is: the default for no value or an empty one.
abbrev pub read_value : {A : Type 0} → Format A → A → (A → A) → Option Text → Action (A × Bool)
read_value f default clean none = pure (default, false)
read_value f default clean (some raw) =
    if is_empty raw
    then pure (default, false)
    else (do a ← or_raise bad_json (f.decode raw); pure (clean a, true))

unfoldable pub get_invite_settings : Format InviteSettings → Action (InviteSettings × Bool)
get_invite_settings f = do
  raw ← query (λ t. value_of invite_key t.settings)
  read_value f default_invite (λ a. a) raw

unfoldable pub save_invite_settings : Format InviteSettings → ℕ → Bool → Action InviteSettings
save_invite_settings f now enabled =
    let settings : InviteSettings = record { enabled = enabled; updated_at = now } in
    do
      exec (λ t. record t { settings = put_value invite_key (f.encode settings) t.settings })
      pure settings

abbrev pub clean_contacts : Contacts → Contacts
clean_contacts c = record {
  user_ids = normalize_user_id_list c.user_ids;
  welcome_message = trim c.welcome_message;
  updated_at = c.updated_at;
}

unfoldable pub get_contacts : Format Contacts → Action (Contacts × Bool)
get_contacts f = do
  raw ← query (λ t. value_of contacts_key t.settings)
  read_value f default_contacts clean_contacts raw

unfoldable pub existing_user_ids : List ℕ → Action (List ℕ)
existing_user_ids ids =
    let wanted = normalize_user_id_list ids in
    if length wanted == 0 then pure [] else (do
      rows ←
          query (λ t. rows_where (λ (u : UserRow). not u.deleted && contains u.id wanted) t.users)
      pure (normalize_user_id_list (map (λ (u : UserRow). u.id) rows)))

-- The check of the users, which there is only where the list is not empty.
abbrev pub check_users : List ℕ → Action (Unit {0})
check_users ids = if length ids == 0 then pure tt else (do
  existing ← existing_user_ids ids
  if not (length existing == length ids) then raise missing_users else pure tt)

unfoldable pub save_contacts : Format Contacts → ℕ → List ℕ → Text → Action Contacts
save_contacts f now ids welcome =
    let wanted = normalize_user_id_list ids in
    let settings : Contacts = record {
      user_ids = wanted;
      welcome_message = trim welcome;
      updated_at = now;
    } in
    do
      check_users wanted
      exec (λ t. record t { settings = put_value contacts_key (f.encode settings) t.settings })
      pure settings
