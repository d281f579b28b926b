-- ===== src/Broadcast/Tests.antt =====
-- A broadcast to three users, one of them deleted, and the theorems at it.
use hsgram_admin.Prelude.{
  ℕ, ◌≡◌, refl, inr, Bool, true, false, not, none, some, List, [], ◌∷◌, ◌++◌, ◌==◌, if◌then◌else◌,
  arith,
}
use hsgram_admin.Prelude.Lists.{length, All, AllPairs, any_where}
use hsgram_admin.Prelude.Text.{is_empty, Text, codes, text_eq, trim}
use hsgram_admin.Sql.{ok, World, quiet, run_sql}
use hsgram_admin.Prelude.Decimal.{parse_int}
use hsgram_admin.Broadcast.Types.{
  pending, running, completed, TargetSpec, User, BroadcastRecord, BroadcastTables, UserMessage,
}
use hsgram_admin.Broadcast.Targets.{
  recipient_of, recipient_where, recipients_in, count_recipients, list_recipients,
  split_identifiers, fields, resolve_selected, resolve_loop, lookup_recipient,
}
use hsgram_admin.Broadcast.Identifiers.{IsOther, split_identifiers-values}
use hsgram_admin.Broadcast.Resolve.{IsResolved, resolve_selected-IsResolved}
use hsgram_admin.Broadcast.Queue.{
  mark_failed, mark_completed, update_progress, upsert_delivery, upsert_row, reset_running,
}
use hsgram_admin.Broadcast.Service.{Outside, no_filters, spec_of, send_text}
use hsgram_admin.Broadcast.Delivery.{run_broadcast, pages, deliver_all}
use hsgram_admin.Broadcast.Kept.{row_ids, messages_of}
use hsgram_admin.Broadcast.Tally.{won, lost}
use hsgram_admin.Broadcast.Closing.{outcome_of, verdict}
use hsgram_admin.Broadcast.Drain.{drain, AllClosed, reset-drain}
use hsgram_admin.Broadcast.Delivered.{
  Reached, IsOtherTarget, run_broadcast-Reached, run_broadcast-once, run_broadcast-outcome,
}

-- Runs the delivery of a broadcast.
delivering : Unit {0}
unfolding run_sql run_broadcast pages deliver_all count_recipients list_recipients recipient_where
    recipient_of send_text mark_failed mark_completed update_progress upsert_delivery upsert_row
    row_ids text_eq codes
delivering = tt

abbrev hi : Text
hi = b'h' ∷ b'i' ∷ []

abbrev everyone : TargetSpec
unfolding codes
everyone = spec_of (codes "all") [] [] no_filters

abbrev user : ℕ → Bool → User
user i deleted = record {
  id = i;
  first_name = hi;
  last_name = [];
  username = [];
  phone = [];
  country_code = [];
  restricted = false;
  deleted = deleted;
  is_bot = false;
}

abbrev outside : Outside
outside = record {
  marshal = λ spec. some [];
  unmarshal = λ s. inr everyone;
  same_text = text_eq;
  deliver = λ before m. if m.target_user_id == 2 then some hi else none;
  error_text = λ e. [];
  driver_text = [];
}

abbrev broadcast : BroadcastRecord
broadcast = record {
  id = 4;
  sender_user_id = 778_000;
  sender_display_name = [];
  message_text = hi;
  target_type = everyone.target_type;
  target_spec = [];
  status = running;
  total_targets = 2;
  success_count = 0;
  failure_count = 0;
  error_message = [];
  created_by_admin_id = 1;
  created_by_username = [];
  created_by_role = [];
  started_at = none;
  completed_at = none;
  created_at = 50;
}

abbrev tables : BroadcastTables
tables = record {
  users = user 3 true ∷ user 2 false ∷ user 1 false ∷ [];
  broadcasts = broadcast ∷ [];
  deliveries = [];
  next_broadcast_id = 5;
  next_delivery_id = 1;
}

abbrev live : User → Bool
live u = not u.deleted

-- The statement that writes the first delivery fails.
abbrev broken : World BroadcastTables UserMessage
broken = record { tables = tables; faults = false ∷ false ∷ true ∷ []; sent = [] }

run_broadcast-Reached_example :
    Reached broadcast
      (recipients_in live tables)
      broken
      (run_broadcast outside 60 5 broadcast broken)
unfolding delivering
run_broadcast-Reached_example =
    run_broadcast-Reached outside 60 broadcast everyone live 5 broken refl refl (omega arith)

run_broadcast-once_example :
    (new : List UserMessage) × ((run_broadcast outside 60 5 broadcast broken).1.sent ≡ [] ++ new)
    × AllPairs IsOtherTarget new
unfolding delivering
run_broadcast-once_example =
    run_broadcast-once outside 60 broadcast everyone live 5 broken refl refl (omega arith)
      ((λ e. omega arith, (λ e. omega arith, tt)), ((λ e. omega arith, tt), (tt, tt)))

run_broadcast-outcome_example :
    ((run_broadcast outside 60 5 broadcast (quiet tables [])).1.sent
      ≡ [] ++ messages_of broadcast (recipients_in live tables))
    × (outcome_of 4 (run_broadcast outside 60 5 broadcast (quiet tables [])).1.tables
        ≡ some (
            verdict
              (won outside broadcast 0 [] (recipients_in live tables))
              (lost outside broadcast 0 [] (recipients_in live tables))))
unfolding delivering
run_broadcast-outcome_example =
    run_broadcast-outcome outside 60 broadcast everyone live 5 (quiet tables []) refl refl
      (omega arith) refl refl

one_of_two :
    outcome_of 4 (run_broadcast outside 60 5 broadcast (quiet tables [])).1.tables
    ≡ some (completed, 1, 1)
unfolding delivering
one_of_two = refl

abbrev raw : Text
raw = b'a' ∷ b',' ∷ b' ' ∷ b'b' ∷ b';' ∷ b'a' ∷ []

two_identifiers : split_identifiers raw ≡ (b'a' ∷ []) ∷ (b'b' ∷ []) ∷ []
unfolding split_identifiers fields trim text_eq
two_identifiers = refl

split_identifiers-values_example :
    All (λ (v : Text). is_empty v ≡ false) (split_identifiers raw)
    × AllPairs IsOther (split_identifiers raw)
    × (any_where (text_eq (trim (b'a' ∷ []))) (split_identifiers raw) ≡ true)
unfolding fields trim text_eq
split_identifiers-values_example = split_identifiers-values raw (b'a' ∷ []) refl refl

abbrev given : Text
given = b'1' ∷ b' ' ∷ b',' ∷ b'b' ∷ b',' ∷ b'1' ∷ []

resolve_selected-IsResolved_example :
    IsResolved
      (length (split_identifiers given))
      (resolve_selected text_eq given (quiet tables [])).0
resolve_selected-IsResolved_example = resolve_selected-IsResolved text_eq given (quiet tables [])

-- The first value is the id of a user, and the other names nobody.
one_resolved :
    (resolve_selected text_eq given (quiet tables [])).0
    ≡ ok (recipient_of (user 1 false) ∷ [], (b'b' ∷ []) ∷ [])
unfolding run_sql resolve_selected resolve_loop lookup_recipient split_identifiers fields trim
    text_eq parse_int
one_resolved = refl

-- One broadcast was interrupted, and one waits.
abbrev queue : BroadcastTables
queue = record tables {
  broadcasts = broadcast ∷ record broadcast { id = 7; status = pending } ∷ [];
}

abbrev worked : BroadcastTables
worked = drain outside 5 (60 ∷ 61 ∷ 62 ∷ []) (reset_running (quiet queue [])).1.tables []

reset-drain_example : AllClosed worked.broadcasts × (row_ids worked ≡ row_ids queue)
reset-drain_example =
    reset-drain outside 5 (60 ∷ 61 ∷ 62 ∷ []) queue [] (omega arith)
      ((λ e. omega arith, tt), (tt, tt)) (omega arith)
