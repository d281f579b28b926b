-- ===== src/AutoMessage/Validate.antt =====
-- What backend/internal/automessage/service.go checks and normalises before it calls the store.
use hsgram_admin.Prelude.{
  ℕ, ◌+◌, Bool, not, ◌&&◌, ◌||◌, Option, none, some, List, [], ◌∷◌, ltb, leb, ◌==◌, if◌then◌else◌,
}
use hsgram_admin.Prelude.Lists.{length, take}
use hsgram_admin.Prelude.Text.{Text, codes, is_empty, trim, text_eq, contains_text}
use hsgram_admin.AutoMessage.Types.{
  Code, no_enabled_items, invalid_interval, content_empty, content_too_long, item_limit_exceeded,
  system_muted, no_send_permission, send_failed, ItemInput, ConfigParams,
}

abbrev pub min_interval_minutes : ℕ
min_interval_minutes = 5

abbrev pub max_interval_minutes : ℕ
max_interval_minutes = 1440

abbrev pub max_items : ℕ
max_items = 100

abbrev pub max_content_length : ℕ
max_content_length = 1000

unfoldable pub valid_interval : ℕ → Bool
valid_interval n = leb min_interval_minutes n && leb n max_interval_minutes

-- `none` is a nil error.
unfoldable pub validate_item_input : ItemInput → Option Code
validate_item_input input =
    if is_empty (trim input.content)
    then some content_empty
    else if ltb max_content_length (length (trim input.content))
    then some content_too_long
    else if not (is_empty (trim input.content_type))
        && not (text_eq (trim input.content_type) (codes "text"))
    then some invalid_interval
    else none

-- The loop over the items, with `enabledCount` on the way; a code, or the count.
unfoldable pub validate_items : List ItemInput → ℕ → Option Code × ℕ
unfolding validate_item_input
validate_items [] count = (none, count)
validate_items (x ∷ xs) count =
    let rest = validate_items xs (if x.enabled then count + 1 else count) in
    elim (validate_item_input x) [ some c ↦ (some c, count) | none ↦ rest ]

-- `value != "" && value != only`.
abbrev pub is_unsupported : Text → Text → Bool
is_unsupported value only = not (is_empty value) && not (text_eq value only)

abbrev check_enabled : Bool → Option Code × ℕ → Option Code
check_enabled enabled (some c, count) = some c
check_enabled enabled (none, count) = if enabled && count == 0 then some no_enabled_items else none

unfoldable pub validate_config_params : ConfigParams → Option Code
unfolding valid_interval validate_items
validate_config_params params =
    if not (valid_interval params.interval_minutes)
    then some invalid_interval
    else if is_unsupported params.send_mode (codes "sequence")
    then some invalid_interval
    else if is_unsupported params.first_send_mode (codes "delay")
    then some invalid_interval
    else if ltb max_items (length params.items)
    then some item_limit_exceeded
    else check_enabled params.enabled (validate_items params.items 0)

abbrev pub or_text : Text → Text → Text
or_text s d = if is_empty s then d else s

unfoldable pub normalize_item_input : ItemInput → ItemInput
normalize_item_input input = record input {
  content = trim input.content;
  content_type = or_text (trim input.content_type) (codes "text");
}

-- The loop of `normalizeConfigParams`, from the index `i` on.
unfoldable pub normalize_items : ℕ → List ItemInput → List ItemInput
unfolding normalize_item_input
normalize_items i [] = []
normalize_items i (x ∷ xs) =
    record (normalize_item_input x) {
      sort_order = if leb x.sort_order 0 then i + 1 else x.sort_order;
    }
    ∷ normalize_items (i + 1) xs

unfoldable pub normalize_config_params : ConfigParams → ConfigParams
unfolding normalize_items
normalize_config_params params = record params {
  send_mode = or_text (trim params.send_mode) (codes "sequence");
  first_send_mode = or_text (trim params.first_send_mode) (codes "delay");
  items = normalize_items 0 params.items;
}

-- `truncate`.
unfoldable pub truncate : Text → ℕ → Text
truncate value limit =
    if leb limit 0 then [] else if leb (length value) limit then value else take limit value

-- The code for an error of the sender, by its text; `lower` is `strings.ToLower`.
unfoldable pub send_error_code : (Text → Text) → Text → Code
send_error_code lower message =
    if contains_text (lower message) (codes "muted")
    then system_muted
    else if contains_text (lower message) (codes "write forbidden")
        || contains_text (lower message) (codes "not participant")
        || contains_text (lower message) (codes "forbidden")
    then no_send_permission
    else send_failed
