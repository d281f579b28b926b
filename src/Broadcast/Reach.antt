-- ===== src/Broadcast/Reach.antt =====
-- Whom a broadcast reaches, and what its row says afterwards (`processNext`).
use hsgram_admin.Prelude.{
  ℕ, ◌+◌, ◌<◌, ◌≡◌, ◌≢◌, refl, sym, ap, ◌∙◌, ◌⊎◌, inl, inr, Bool, true, Bool-cases, Option, some,
  List, [], ◌++◌, ◌==◌, arith,
}
use mathlib.Core.Path.{subst}
use mathlib.Core.List.{append-nil}
use hsgram_admin.Prelude.Text.{Text}
use hsgram_admin.Prelude.Lists.{length, rows_where, contains}
use hsgram_admin.Prelude.Queries.{length-map_same}
use hsgram_admin.Sql.{Result, ok, fault, World, later, run_sql, bind_run}
use hsgram_admin.Sql.Cases.{skip, statement-cases, statement-calm}
use hsgram_admin.Broadcast.Types.{
  BroadcastError, BroadcastTables, UserMessage, User, TargetSpec, Recipient, BroadcastRecord,
}
use hsgram_admin.Broadcast.Targets.{recipient_where, recipients_in, count_recipients}
use hsgram_admin.Broadcast.Service.{Outside, message_to}
use hsgram_admin.Broadcast.Delivery.{PagesEnd, close, give_up, run_broadcast}
use hsgram_admin.Broadcast.Kept.{Same-skip, row_ids, messages_of}
use hsgram_admin.Broadcast.Paging.{PagesRun, pages-PagesRun}
use hsgram_admin.Broadcast.Tally.{won, lost}
use hsgram_admin.Broadcast.Closing.{
  outcome_of, verdict, give_up-Closed, close-Closed, answers-length, length-recipients_in,
  empty_list, some_recipient,
}

module _ (o : Outside) (now : ℕ) (b : BroadcastRecord) where
  -- What a run of the broadcast did, where `chosen` are the users that its target names: `done`
  -- were sent the message, and `left` were not.
  pub record RunOf (chosen : List Recipient) (w : World BroadcastTables UserMessage)
      (r : Result BroadcastError (Option Bool) × World BroadcastTables UserMessage) : Type 0 where
    pub done : List Recipient
    pub left : List Recipient
    pub split : done ++ left ≡ chosen
    pub sent : r.1.sent ≡ w.sent ++ messages_of b done
    pub returned : r.0 ≡ ok (some true)
    pub complete_run : w.faults ≡ [] → left ≡ []
    pub final :
        w.faults ≡ []
        → contains b.id (row_ids w.tables) ≡ true
        → outcome_of b.id r.1.tables
          ≡ some (verdict (won o b 0 w.sent done) (lost o b 0 w.sent done))

  module _ (spec : TargetSpec) (p : User → Bool)
      (chosen : recipient_where o.same_text spec ≡ inr p) where
    count-cases :
        (w : World BroadcastTables UserMessage)
        → (count_recipients o.same_text spec w ≡ (fault, skip w)) × (w.faults ≢ [])
          ⊎ (count_recipients o.same_text spec w
              ≡ (ok (length (rows_where p w.tables.users)), skip w))
    unfolding run_sql count_recipients
    count-cases w = rw chosen (elim (statement-cases {X = BroadcastError} count_of w) [
      | inl e ↦ inl (e, λ c. statement-calm {X = BroadcastError} count_of w c e)
      | inr e ↦ inr e
    ])
      where
        count_of : BroadcastTables → ℕ × BroadcastTables
        count_of t = (length (rows_where p t.users), t)

    -- A run that gives up before the first page.
    gave_up-RunOf :
        (rest : List Recipient) (message : Text) (w : World BroadcastTables UserMessage)
        → (w.faults ≡ [] → rest ≡ [])
        → RunOf rest w (give_up o now b 0 0 message (skip w))
    gave_up-RunOf rest message w none_left =
        let closed = give_up-Closed o now b 0 0 message (skip w) in
        record {
          done = [];
          left = rest;
          split = refl;
          sent = closed.sent ∙ sym (append-nil w.sent);
          returned = closed.returned;
          complete_run = none_left;
          final = λ quiet there. closed.final ((Same-skip w).calm quiet) there;
        }

    pages-RunOf :
        (rest : List Recipient) (w : World BroadcastTables UserMessage)
        (q : Result BroadcastError PagesEnd × World BroadcastTables UserMessage)
        → 0 < length rest
        → PagesRun o now b rest 0 0 (skip w) q
        → RunOf rest w (bind_run (close o now b) q)
    pages-RunOf rest w q some_left run = elim run.ends [
      | inl (h, none_left) ↦
          let closed = close-Closed o now b s f q.1 (some_answer none_left) in
          subst (λ y. RunOf rest w (bind_run (close o now b) y)) (sym (ap (λ y. (y, q.1)) h))
            (record {
              done = run.done;
              left = run.left;
              split = run.split;
              sent = closed.sent ∙ run.sent;
              returned = closed.returned;
              complete_run = λ c. none_left;
              final = λ quiet there.
                  closed.final (run.same.calm (ap later quiet))
                    (ap (contains b.id) run.same.rows ∙ there);
            })
      | inr (h, noisy) ↦
          let closed = give_up-Closed o now b s f o.driver_text q.1 in
          subst (λ y. RunOf rest w (bind_run (close o now b) y)) (sym (ap (λ y. (y, q.1)) h))
            (record {
              done = run.done;
              left = run.left;
              split = run.split;
              sent = closed.sent ∙ run.sent;
              returned = closed.returned;
              complete_run = λ c. absurd (noisy (ap later c));
              final = λ quiet there. absurd (noisy (ap later quiet));
            })
    ]
      where
        s : ℕ
        s = won o b 0 w.sent run.done

        f : ℕ
        f = lost o b 0 w.sent run.done

        some_answer : run.left ≡ [] → 0 < s + f
        some_answer none_left =
            let all_answered = answers-length o.deliver w.sent (messages_of b run.done) in
            let as_many = length-map_same (message_to b) run.done in
            let everyone =
              ap length (
                sym (append-nil run.done)
                ∙ ap (λ ys. run.done ++ ys) (sym none_left)
                ∙ run.split) in
            omega arith

    pub run_broadcast-RunOf :
        (fuel : ℕ) (w : World BroadcastTables UserMessage)
        → o.unmarshal b.target_spec ≡ inr spec
        → length (recipients_in p w.tables) < fuel
        → RunOf (recipients_in p w.tables) w (run_broadcast o now fuel b w)
    unfolding run_sql run_broadcast
    run_broadcast-RunOf fuel w read enough =
        rw (run_broadcast, read)
          (elim (count-cases w) [
            | inl (e, noisy) ↦ rw e (gave_up-RunOf _ _ w (λ c. absurd (noisy c)))
            | inr e ↦ rw e (elim (Bool-cases (length (rows_where p w.tables.users) == 0)) [
              | inl h ↦
                  rw h
                    (gave_up-RunOf _ _ w (λ c. empty_list _ _ (length-recipients_in p w.tables) h))
              | inr h ↦ rw h (
                  pages-RunOf _ w _ (some_recipient p w.tables h)
                    (pages-PagesRun o now b spec p chosen fuel 0 0 0 (skip w) _ refl enough))
            ])
          ])
