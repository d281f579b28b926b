-- ===== src/Broadcast/Delivered.antt =====
-- What `processNext` achieves for a broadcast that it has claimed.
use hsgram_admin.Prelude.{
  ℕ, ◌<◌, ◌≡◌, ◌≢◌, sym, ap, ◌∙◌, inr, Bool, true, Option, some, List, [], ◌++◌,
}
use mathlib.Core.Path.{subst}
use mathlib.Core.List.{append-nil}
use hsgram_admin.Prelude.Lists.{AllPairs, length, contains}
use hsgram_admin.Prelude.Pairs.{
  AllPairs-rows_where, AllPairs-order_by, AllPairs-append_left, AllPairs-map,
}
use hsgram_admin.Sql.{Result, ok, World}
use hsgram_admin.Broadcast.Types.{
  BroadcastError, BroadcastTables, UserMessage, User, TargetSpec, Recipient, BroadcastRecord,
}
use hsgram_admin.Broadcast.Targets.{recipient_of, recipient_where, recipients_in, user_before}
use hsgram_admin.Broadcast.Service.{Outside, message_to}
use hsgram_admin.Broadcast.Delivery.{run_broadcast}
use hsgram_admin.Broadcast.Kept.{row_ids, messages_of}
use hsgram_admin.Broadcast.Tally.{won, lost}
use hsgram_admin.Broadcast.Closing.{outcome_of, verdict}
use hsgram_admin.Broadcast.Reach.{run_broadcast-RunOf}

-- The call returned without an error, and of the recipients `chosen` those in `done`, a first part
-- of them, were sent the message, each once and in their order.
pub record Reached (b : BroadcastRecord) (chosen : List Recipient)
    (w : World BroadcastTables UserMessage)
    (r : Result BroadcastError (Option Bool) × World BroadcastTables UserMessage) : Type 0 where
  pub done : List Recipient
  pub left : List Recipient
  pub split : done ++ left ≡ chosen
  pub sent : r.1.sent ≡ w.sent ++ messages_of b done
  pub returned : r.0 ≡ ok (some true)

abbrev pub IsOtherUser : User → User → Type 0
IsOtherUser u v = u.id ≢ v.id

abbrev pub IsOtherTarget : UserMessage → UserMessage → Type 0
IsOtherTarget m n = m.target_user_id ≢ n.target_user_id

abbrev flip_other : (u v : User) → IsOtherUser u v → IsOtherUser v u
flip_other u v h e = h (sym e)

abbrev IsOtherRecipient : Recipient → Recipient → Type 0
IsOtherRecipient r q = r.user_id ≢ q.user_id

recipients_in-distinct :
    (p : User → Bool) (t : BroadcastTables)
    → AllPairs IsOtherUser t.users
    → AllPairs IsOtherRecipient (recipients_in p t)
unfolding recipient_of
recipients_in-distinct p t h = AllPairs-map recipient_of IsOtherRecipient _ (
    AllPairs-order_by IsOtherUser flip_other user_before _
      (AllPairs-rows_where IsOtherUser p t.users h))

module _ (o : Outside) (now : ℕ) (b : BroadcastRecord) (spec : TargetSpec) (p : User → Bool) where
  -- Whichever statements fail: for a claimed broadcast whose stored target reads as one that names
  -- users, with fuel for more pages than there are such users, the call returns without an error,
  -- and a first part of these users, in the order of their ids, were sent the message.
  pub run_broadcast-Reached :
      (fuel : ℕ) (w : World BroadcastTables UserMessage)
      → o.unmarshal b.target_spec ≡ inr spec
      → recipient_where o.same_text spec ≡ inr p
      → length (recipients_in p w.tables) < fuel
      → Reached b (recipients_in p w.tables) w (run_broadcast o now fuel b w)
  run_broadcast-Reached fuel w read chosen enough =
      let run = run_broadcast-RunOf o now b spec p chosen fuel w read enough in
      record {
        done = run.done;
        left = run.left;
        split = run.split;
        sent = run.sent;
        returned = run.returned;
      }

  -- Whichever statements fail: for a claimed broadcast whose stored target reads as one that names
  -- users, with fuel for more pages than there are such users, where the users have different ids,
  -- nobody is sent the message twice in one run.
  pub run_broadcast-once :
      (fuel : ℕ) (w : World BroadcastTables UserMessage)
      → o.unmarshal b.target_spec ≡ inr spec
      → recipient_where o.same_text spec ≡ inr p
      → length (recipients_in p w.tables) < fuel
      → AllPairs IsOtherUser w.tables.users
      → (new : List UserMessage) × ((run_broadcast o now fuel b w).1.sent ≡ w.sent ++ new)
        × AllPairs IsOtherTarget new
  run_broadcast-once fuel w read chosen enough distinct =
      let run = run_broadcast-RunOf o now b spec p chosen fuel w read enough in
      (
        messages_of b run.done,
        run.sent,
        AllPairs-map (message_to b) IsOtherTarget run.done (
            AllPairs-append_left IsOtherRecipient run.done run.left (
              subst (AllPairs IsOtherRecipient) (sym run.split)
                (recipients_in-distinct p w.tables distinct))),
      )

  -- For a claimed broadcast whose stored target reads as one that names users, with fuel for more
  -- pages than there are such users, where no statement fails and the row of the broadcast is
  -- there: each user that the target names is sent the message, and the row ends as completed, or as failed if
  -- no call succeeded, with the numbers of the calls that succeeded and that failed.
  pub run_broadcast-outcome :
      (fuel : ℕ) (w : World BroadcastTables UserMessage)
      → o.unmarshal b.target_spec ≡ inr spec
      → recipient_where o.same_text spec ≡ inr p
      → length (recipients_in p w.tables) < fuel
      → w.faults ≡ []
      → contains b.id (row_ids w.tables) ≡ true
      → ((run_broadcast o now fuel b w).1.sent ≡ w.sent ++ messages_of b (recipients_in p w.tables))
        × (outcome_of b.id (run_broadcast o now fuel b w).1.tables
            ≡ some (
                verdict
                  (won o b 0 w.sent (recipients_in p w.tables))
                  (lost o b 0 w.sent (recipients_in p w.tables))))
  run_broadcast-outcome fuel w read chosen enough quiet there =
      let run = run_broadcast-RunOf o now b spec p chosen fuel w read enough in
      let all =
        sym (append-nil run.done)
        ∙ ap (λ ys. run.done ++ ys) (sym (run.complete_run quiet))
        ∙ run.split in
      (
        run.sent ∙ ap (λ ys. w.sent ++ messages_of b ys) all,
        run.final quiet there
            ∙ ap (λ ys. some (verdict (won o b 0 w.sent ys) (lost o b 0 w.sent ys))) all,
      )
