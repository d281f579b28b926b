-- ===== src/Broadcast/Closing.antt =====
-- The statement that ends the run of a broadcast, and what the row says behind it.
use hsgram_admin.Prelude.{
  ℕ, suc, ◌+◌, ◌<◌, ◌≡◌, refl, sym, ap, ◌∙◌, inl, inr, Bool, true, false, Bool-cases, or_right,
  Option, none, some, List, [], ◌∷◌, ◌++◌, map, ltb, ◌==◌, if◌then◌else◌, arith,
}
use mathlib.Core.Path.{subst}
use hsgram_admin.Prelude.Text.{Text}
use hsgram_admin.Prelude.Lists.{length, rows_where, order_by, first_where, update_where, contains}
use hsgram_admin.Prelude.Queries.{length-map_same, length-order_by}
use hsgram_admin.Sql.{Result, ok, World, run_sql, exec, bind_run}
use hsgram_admin.Broadcast.Types.{
  BroadcastError, BroadcastStatus, completed, failed, BroadcastTables, UserMessage, User,
  BroadcastRecord,
}
use hsgram_admin.Broadcast.Targets.{recipient_of, recipients_in, user_before}
use hsgram_admin.Broadcast.Queue.{
  has_id, edit_broadcast, fail, complete, mark_failed, mark_completed,
}
use hsgram_admin.Broadcast.Service.{Outside}
use hsgram_admin.Broadcast.Delivery.{finished, close, give_up, ignore_error}
use hsgram_admin.Broadcast.Kept.{
  edit_broadcast-Kept, row_ids, answers_to, successes_in, failures_in,
}

-- Status and counts of a row.
abbrev pub Outcome : Type 0
Outcome = BroadcastStatus × ℕ × ℕ

abbrev pub outcome : BroadcastRecord → Outcome
outcome r = (r.status, r.success_count, r.failure_count)

abbrev outcome_or_none : Option BroadcastRecord → Option Outcome
outcome_or_none none = none
outcome_or_none (some r) = some (outcome r)

abbrev pub outcome_of : ℕ → BroadcastTables → Option Outcome
outcome_of i t = outcome_or_none (first_where (has_id i) t.broadcasts)

-- A broadcast fails where nobody got the message.
abbrev pub verdict : ℕ → ℕ → Outcome
verdict successes failures = (if successes == 0 then failed else completed, successes, failures)

outcome-edit :
    (i : ℕ) (f : BroadcastRecord → BroadcastRecord) (x : Outcome)
    → ((r : BroadcastRecord) → (f r).id ≡ r.id)
    → ((r : BroadcastRecord) → outcome (f r) ≡ x)
    → (rs : List BroadcastRecord) → contains i (map (λ (r : BroadcastRecord). r.id) rs) ≡ true
    → outcome_or_none (first_where (has_id i) (update_where (has_id i) f rs)) ≡ some x
outcome-edit i f x same_id sets [] e = absurd (cc)
outcome-edit i f x same_id sets (r ∷ rs) e = elim (Bool-cases (has_id i r)) [
  | inl h ↦ rw (h, same_id r, h) (ap some (sets r))
  | inr h ↦ rw (h, h) (outcome-edit i f x same_id sets rs (or_right _ _ h e))
]

all_failed : (s f : ℕ) → (s == 0) ≡ true → 0 < s + f → ltb 0 f ≡ true
all_failed s f e h = ground arith

pub answers-length :
    (deliver : List UserMessage → UserMessage → Option Text) (before ms : List UserMessage)
    → successes_in (answers_to deliver before ms) + failures_in (answers_to deliver before ms)
      ≡ length ms
answers-length deliver before [] = omega arith
answers-length deliver before (m ∷ ms) =
    one_more (deliver before m) _ _ (answers-length deliver (before ++ m ∷ []) ms)
  where
    one_more :
        (a : Option Text) (xs : List (Option Text)) (n : ℕ)
        → successes_in xs + failures_in xs ≡ n
        → successes_in (a ∷ xs) + failures_in (a ∷ xs) ≡ suc n
    one_more none xs n e = omega arith
    one_more (some message) xs n e = omega arith

pub length-recipients_in :
    (p : User → Bool) (t : BroadcastTables)
    → length (recipients_in p t) ≡ length (rows_where p t.users)
length-recipients_in p t =
    length-map_same recipient_of (order_by user_before (rows_where p t.users))
    ∙ length-order_by user_before (rows_where p t.users)

pub empty_list {ℓ} : {A : Type ℓ} (xs : List A) (n : ℕ) → length xs ≡ n → (n == 0) ≡ true → xs ≡ []
empty_list [] n e h = refl
empty_list (x ∷ xs) n e h = absurd (ground arith)

pub some_recipient :
    (p : User → Bool) (t : BroadcastTables)
    → (length (rows_where p t.users) == 0) ≡ false
    → 0 < length (recipients_in p t)
some_recipient p t h = let e = length-recipients_in p t in ground arith

module _ (o : Outside) (now : ℕ) (b : BroadcastRecord) where
  -- The last statement of a run, on the world `u`.
  pub record Closed (x : Outcome) (u : World BroadcastTables UserMessage)
      (r : Result BroadcastError (Option Bool) × World BroadcastTables UserMessage) : Type 0 where
    pub returned : r.0 ≡ ok (some true)
    pub sent : r.1.sent ≡ u.sent
    pub final :
        u.faults ≡ []
        → contains b.id (row_ids u.tables) ≡ true
        → outcome_of b.id r.1.tables ≡ some x

  edit-quiet :
      (g : BroadcastTables → BroadcastTables) (u : World BroadcastTables UserMessage)
      → u.faults ≡ []
      → (ignore_error (exec g) u).1.tables ≡ g u.tables
  unfolding run_sql
  edit-quiet g u e = rw e refl

  return_true :
      Unit {0}
      → World BroadcastTables UserMessage
      → Result BroadcastError (Option Bool) × World BroadcastTables UserMessage
  return_true u w = (ok (some true), w)

  edit-Closed :
      (f : BroadcastRecord → BroadcastRecord) (x : Outcome)
      → ((r : BroadcastRecord) → (f r).id ≡ r.id)
      → ((r : BroadcastRecord) → outcome (f r) ≡ x)
      → (u : World BroadcastTables UserMessage)
      → Closed x u (bind_run return_true (ignore_error (exec (edit_broadcast b.id f)) u))
  unfolding return_true row_ids
  edit-Closed f x same_id sets u =
      let kept = edit_broadcast-Kept b.id f same_id u in
      subst (λ q. Closed x u (bind_run return_true q)) (sym kept.result)
        (record {
          returned = refl;
          sent = kept.sent;
          final = λ quiet there.
              ap (outcome_of b.id) (edit-quiet (edit_broadcast b.id f) u quiet)
              ∙ outcome-edit b.id f x same_id sets u.tables.broadcasts there;
        })

  pub give_up-Closed :
      (s f : ℕ) (message : Text) (u : World BroadcastTables UserMessage)
      → Closed (failed, s, f) u (give_up o now b s f message u)
  unfolding run_sql mark_failed return_true
  give_up-Closed s f message u =
      edit-Closed (fail s f message now) (failed, s, f) (λ r. refl) (λ r. refl) u

  pub close-Closed :
      (s f : ℕ) (u : World BroadcastTables UserMessage)
      → 0 < s + f
      → Closed (verdict s f) u (close o now b (finished s f) u)
  unfolding run_sql mark_completed return_true
  close-Closed s f u some_answer = elim (Bool-cases (s == 0)) [
    | inl e ↦ rw (e, all_failed s f e some_answer) (give_up-Closed s f _ u)
    | inr e ↦ rw e (edit-Closed (complete s f now) (completed, s, f) (λ r. refl) (λ r. refl) u)
  ]
