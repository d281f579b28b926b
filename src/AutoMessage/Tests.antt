-- ===== src/AutoMessage/Tests.antt =====
-- A group with two messages, and the theorems at it.
use hsgram_admin.Prelude.{ℕ, ◌≡◌, ◌≢◌, refl, true, false, none, some, List, [], ◌∷◌, ◌++◌, arith}
use hsgram_admin.Prelude.Text.{Text}
use hsgram_admin.Sql.{fault, World, quiet, run_sql}
use hsgram_admin.AutoMessage.Types.{success, Config, Item, SendCandidate, GroupMessage, Mtproto}
use hsgram_admin.AutoMessage.Tables.{
  ItemRow, Tables, config_by_group, config_by_id, list_items, update_config_any,
}
use hsgram_admin.AutoMessage.Queries.{group_permission, is_group_active, insert_log}
use hsgram_admin.AutoMessage.Store.{enabled_items}
use hsgram_admin.AutoMessage.Process.{
  Send, candidate_of, process_enabled, process_due_row, process_body, process_due_config, due_at,
}
use hsgram_admin.AutoMessage.Invariant.{Inv}
use hsgram_admin.AutoMessage.History.{
  Event, request, ask_enable, ask_disable, answer, history, history-Inv,
}
use hsgram_admin.AutoMessage.Denied.{answer-denied}
use hsgram_admin.AutoMessage.Due.{candidate_for, SendsAtMost, process_due_config-sent}
use hsgram_admin.AutoMessage.Due.Rotation.{rounds, texts, texts_from, rounds-texts}
use hsgram_admin.AutoMessage.Due.BizId.{biz_id_of-injective}
use hsgram_admin.AutoMessage.Due.Retry.{retry-candidate, fresh-biz_id}

-- Runs the scheduler's side.
running : Unit {0}
unfolding run_sql process_due_config process_body due_at process_due_row process_enabled
    enabled_items list_items config_by_id is_group_active insert_log update_config_any candidate_of
    candidate_for
running = tt

abbrev config : Config
config = record {
  id = 1;
  group_id = 7;
  enabled = true;
  interval_minutes = 10;
  send_mode = [];
  first_send_mode = [];
  current_index = 0;
  next_send_at = some 100;
  last_send_at = none;
  last_send_status = none;
  last_error_code = none;
  last_error_message = [];
  admins_can_manage = true;
  version = 3;
  created_by = 5;
  updated_by = 5;
}

abbrev item : ℕ → Text → Item
item i content = record {
  id = i;
  config_id = 1;
  group_id = 7;
  sort_order = i;
  content = content;
  content_type = [];
  enabled = true;
  created_by = 5;
  updated_by = 5;
}

abbrev row : ℕ → Text → ItemRow
row i content = record { item = item i content; deleted = false }

abbrev hello : Text
hello = b'h' ∷ []

abbrev bye : Text
bye = b'b' ∷ []

abbrev tables : Tables
tables = record {
  configs = record { config = config; deleted = false } ∷ [];
  items = row 2 bye ∷ row 1 hello ∷ [];
  logs = [];
  next_config_id = 2;
  next_item_id = 3;
  next_log_id = 1;
  chats = record { id = 7; creator_user_id = 5; deactivated = false } ∷ [];
  participants = record { chat_id = 7; user_id = 5; participant_type = 2; state = 0 } ∷ [];
}

abbrev deliver : Send
deliver c = (
  record {
    sender_user_id = 9;
    group_id = c.config.group_id;
    text = c.item.content;
    biz_id = c.biz_id;
  },
  record { is_success = true; message_id = 50; error_code = none; error_message = [] },
)

abbrev candidate : SendCandidate
candidate = candidate_of config 100 0 (item 1 hello)

tables-Inv : Inv tables
tables-Inv = record {
  sound =
      (record { scheduled = λ e. cc; interval_low = omega arith; interval_high = omega arith }, tt);
  below = (omega arith, tt);
  distinct = (tt, tt);
}

due_now : candidate_for 1 120 tables ≡ some candidate
unfolding running
due_now = refl

not_due : candidate_for 1 99 tables ≡ none
unfolding running
not_due = refl

-- The statement that writes the log fails: the message has been sent, the tables are as before.
abbrev broken_world : World Tables GroupMessage
broken_world = record {
  tables = tables;
  faults = false ∷ false ∷ false ∷ false ∷ true ∷ [];
  sent = [];
}

broken_run :
    process_due_config deliver 1 120 broken_world
    ≡ (fault, quiet tables ((deliver candidate).0 ∷ []))
unfolding running
broken_run = refl

abbrev k : Mtproto
k = record { chat_member_creator = 2; chat_member_admin = 1; chat_member_state_normal = 0 }

abbrev events : List Event
events = request 5 7 ask_disable ∷ request 5 7 (ask_enable 0 130) ∷ []

history-Inv_example : Inv (history k false (λ s. s) events broken_world).tables
history-Inv_example = history-Inv k false (λ s. s) events broken_world tables-Inv

process_due_config-sent_example :
    SendsAtMost deliver
      (candidate_for 1 120 tables)
      []
      (process_due_config deliver 1 120 broken_world).1.sent
process_due_config-sent_example = process_due_config-sent deliver 1 120 broken_world

rounds-texts_example :
    texts (rounds deliver 1 (120 ∷ 800 ∷ 1500 ∷ []) (quiet tables [])).sent
    ≡ texts [] ++ texts_from (item 1 hello ∷ item 2 bye ∷ []) 0 (120 ∷ 800 ∷ 1500 ∷ [])
unfolding running
rounds-texts_example =
    rounds-texts deliver (λ c. refl) (λ c. refl) 1 (item 1 hello ∷ item 2 bye ∷ []) (omega arith)
      (120 ∷ 800 ∷ 1500 ∷ []) tables [] config 100 0 refl refl refl refl refl refl (omega arith)

three_texts :
    texts_from (item 1 hello ∷ item 2 bye ∷ []) 0 (120 ∷ 800 ∷ 1500 ∷ []) ≡ hello ∷ bye ∷ hello ∷ []
three_texts = refl

biz_id_of-injective_example :
    ◌≡◌ {A = ℕ} 1 1 × ◌≡◌ {A = ℕ} 100 100 × ◌≡◌ {A = ℕ} 0 0 × ◌≡◌ {A = ℕ} 12 12
biz_id_of-injective_example = biz_id_of-injective 1 100 0 12 1 100 0 12 refl

retry-candidate_example :
    candidate_for 1 700 (process_due_config deliver 1 120 broken_world).1.tables ≡ some candidate
unfolding running
retry-candidate_example =
    retry-candidate deliver 1 120 700 broken_world candidate due_now (λ e. cc) (omega arith)

-- The config behind its first round.
abbrev moved_config : Config
moved_config = record config {
  current_index = 1;
  next_send_at = some 720;
  last_send_at = some 120;
  last_send_status = some success;
  version = 4;
}

abbrev next_candidate : SendCandidate
next_candidate = candidate_of moved_config 720 1 (item 2 bye)

fresh-biz_id_example : candidate.biz_id ≢ next_candidate.biz_id
unfolding running
fresh-biz_id_example =
    fresh-biz_id deliver 1 120 720 tables [] candidate next_candidate tables-Inv due_now refl

-- User 6 is no member of the group.
answer-denied_example :
    ((answer k false (λ s. s) 6 7 (ask_enable 5 130) broken_world).tables ≡ tables)
    × ((answer k false (λ s. s) 6 7 (ask_enable 5 130) broken_world).sent ≡ [])
unfolding group_permission config_by_group
answer-denied_example = answer-denied k 6 broken_world false (λ s. s) 7 (ask_enable 5 130) refl
