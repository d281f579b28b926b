-- ===== src/Broadcast/Kept.antt =====
-- What the statements around a delivery leave alone: the users, and what has been sent.
use hsgram_admin.Prelude.{
  ℕ, ◌+◌, ◌≡◌, refl, sym, ap, ◌∙◌, Option, none, some, List, [], ◌∷◌, ◌++◌, map, inl, inr,
  Bool-cases, arith,
}
use hsgram_admin.Prelude.Text.{Text}
use hsgram_admin.Prelude.Lists.{update_where}
use mathlib.Core.Path.{ap₂, subst}
use mathlib.Core.List.{append-nil, append_assoc}
use hsgram_admin.Sql.{Result, ok, World, later, run_sql, exec, bind_run}
use hsgram_admin.Sql.Cases.{skip, statement-cases}
use hsgram_admin.Broadcast.Types.{
  BroadcastError, BroadcastTables, UserMessage, Recipient, BroadcastRecord, delivery_sent,
  delivery_failed,
}
use hsgram_admin.Broadcast.Queue.{has_id, edit_broadcast, upsert_delivery, upsert_row}
use hsgram_admin.Broadcast.Service.{Outside, message_to, send_text}
use hsgram_admin.Broadcast.Delivery.{
  ignore_error, note_answer, deliver_all, count_success, count_failure,
}

unfoldable pub row_ids : BroadcastTables → List ℕ
row_ids t = map (λ (r : BroadcastRecord). r.id) t.broadcasts

-- The same users, the same broadcasts, and no statement that fails where none did.
pub record Same (w u : World BroadcastTables UserMessage) : Type 0 where
  pub users : u.tables.users ≡ w.tables.users
  pub rows : row_ids u.tables ≡ row_ids w.tables
  pub calm : w.faults ≡ [] → u.faults ≡ []

pub Same-skip : (w : World BroadcastTables UserMessage) → Same w (skip w)
Same-skip w = record { users = refl; rows = refl; calm = λ e. ap later e }

-- What is sent is no matter of the tables.
pub Same-sent :
    (w : World BroadcastTables UserMessage) {s : List UserMessage} → Same w (record w { sent = s })
Same-sent w = record { users = refl; rows = refl; calm = λ e. e }

pub Same-trans : {w v u : World BroadcastTables UserMessage} → Same w v → Same v u → Same w u
Same-trans m n = record {
  users = n.users ∙ m.users;
  rows = n.rows ∙ m.rows;
  calm = λ e. n.calm (m.calm e);
}

pub record Kept {A : Type 0} (a : A) (w : World BroadcastTables UserMessage)
    (r : Result BroadcastError A × World BroadcastTables UserMessage) : Type 0 where
  pub result : r ≡ (ok a, r.1)
  pub same : Same w r.1
  pub sent : r.1.sent ≡ w.sent

pub ignore_error-Kept :
    (g : BroadcastTables → BroadcastTables)
    → ((t : BroadcastTables) → ((g t).users ≡ t.users) × (row_ids (g t) ≡ row_ids t))
    → (w : World BroadcastTables UserMessage) → Kept tt w (ignore_error (exec g) w)
unfolding run_sql
ignore_error-Kept g keeps w = elim (statement-cases {X = BroadcastError} (λ t. (tt {0}, g t)) w) [
  | inl e ↦ rw (e) (record { result = refl; same = Same-skip w; sent = refl })
  | inr e ↦ rw (e) (record {
    result = refl;
    same = record { users = (keeps w.tables).0; rows = (keeps w.tables).1; calm = λ h. ap later h };
    sent = refl;
  })
]

edit_broadcast-row_ids :
    (i : ℕ) (f : BroadcastRecord → BroadcastRecord)
    → ((r : BroadcastRecord) → (f r).id ≡ r.id)
    → (rs : List BroadcastRecord)
    → map (λ (r : BroadcastRecord). r.id) (update_where (has_id i) f rs)
      ≡ map (λ (r : BroadcastRecord). r.id) rs
edit_broadcast-row_ids i f same_id [] = refl
edit_broadcast-row_ids i f same_id (r ∷ rs) =
    ap₂ ◌∷◌ (elim (Bool-cases (has_id i r)) [ inl e ↦ rw e (same_id r) | inr e ↦ rw e refl ])
      (edit_broadcast-row_ids i f same_id rs)

pub edit_broadcast-Kept :
    (i : ℕ) (f : BroadcastRecord → BroadcastRecord)
    → ((r : BroadcastRecord) → (f r).id ≡ r.id)
    → (w : World BroadcastTables UserMessage)
    → Kept tt w (ignore_error (exec (edit_broadcast i f)) w)
unfolding row_ids
edit_broadcast-Kept i f same_id w =
    ignore_error-Kept (edit_broadcast i f)
      (λ t. (refl, edit_broadcast-row_ids i f same_id t.broadcasts)) w

module _ (o : Outside) (now : ℕ) where
  pub note_answer-Kept :
      (b : BroadcastRecord) (r : Recipient) (a : Option Text)
      (w : World BroadcastTables UserMessage)
      → Kept tt w (note_answer o now b r a w)
  unfolding upsert_delivery upsert_row row_ids
  note_answer-Kept b r none w =
      ignore_error-Kept (upsert_row b.id r delivery_sent [] (some now)) (λ t. (refl, refl)) w
  note_answer-Kept b r (some message) w =
      ignore_error-Kept (upsert_row b.id r delivery_failed message none) (λ t. (refl, refl)) w

-- What a sender answers to messages in turn, behind those that were sent before.
abbrev pub answers_to :
    (List UserMessage → UserMessage → Option Text)
    → List UserMessage
    → List UserMessage
    → List (Option Text)
answers_to deliver before [] = []
answers_to deliver before (m ∷ ms) = deliver before m ∷ answers_to deliver (before ++ m ∷ []) ms

-- How many answers are no error, and how many are one.
abbrev pub successes_in : List (Option Text) → ℕ
successes_in [] = 0
successes_in (none ∷ xs) = 1 + successes_in xs
successes_in (some message ∷ xs) = successes_in xs

abbrev pub failures_in : List (Option Text) → ℕ
failures_in [] = 0
failures_in (none ∷ xs) = failures_in xs
failures_in (some message ∷ xs) = 1 + failures_in xs

abbrev pub counts : ℕ → ℕ → Result BroadcastError (ℕ × ℕ)
counts s f = ok (s, f)

abbrev pub messages_of : BroadcastRecord → List Recipient → List UserMessage
messages_of b = map (message_to b)

module _ (o : Outside) (now : ℕ) (b : BroadcastRecord) where
  -- The counts and the world behind the delivery to the recipients `rs`.
  pub record DeliveredTo (rs : List Recipient) (s f : ℕ) (w : World BroadcastTables UserMessage)
      (r : Result BroadcastError (ℕ × ℕ) × World BroadcastTables UserMessage) : Type 0 where
    pub result :
        r.0
        ≡ counts
            (s + successes_in (answers_to o.deliver w.sent (messages_of b rs)))
            (f + failures_in (answers_to o.deliver w.sent (messages_of b rs)))
    pub same : Same w r.1
    pub sent : r.1.sent ≡ w.sent ++ messages_of b rs

  counted_one :
      (a : Option Text) (xs : List (Option Text)) (s f : ℕ)
      → counts (count_success a s + successes_in xs) (count_failure a f + failures_in xs)
        ≡ counts (s + successes_in (a ∷ xs)) (f + failures_in (a ∷ xs))
  counted_one none xs s f = ap (λ n. counts n (f + failures_in xs)) (omega arith)
  counted_one (some message) xs s f = ap (counts (s + successes_in xs)) (omega arith)

  pub deliver_all-DeliveredTo :
      (rs : List Recipient) (s f : ℕ) (w : World BroadcastTables UserMessage)
      → DeliveredTo rs s f w (deliver_all o now b rs s f w)
  unfolding run_sql deliver_all send_text
  deliver_all-DeliveredTo [] s f w = record {
    result = ap₂ counts (omega arith) (omega arith);
    same = record { users = refl; rows = refl; calm = λ e. e };
    sent = sym (append-nil w.sent);
  }
  deliver_all-DeliveredTo (r ∷ rs) s f w =
      let message = message_to b r in
      let answer = o.deliver w.sent message in
      let w' = record w { sent = w.sent ++ message ∷ [] } in
      let kept = note_answer-Kept o now b r answer w' in
      let rest =
        deliver_all-DeliveredTo rs (count_success answer s) (count_failure answer f)
          (note_answer o now b r answer w').1 in
      subst
        (λ x. DeliveredTo (r ∷ rs) s f w (
          bind_run (λ _. deliver_all o now b rs (count_success answer s) (count_failure answer f))
            x))
        (sym kept.result)
        (record {
          result =
              rest.result
              ∙ ap
                  (λ h.
                    counts
                      (count_success answer s
                        + successes_in (answers_to o.deliver h (messages_of b rs)))
                      (count_failure answer f
                        + failures_in (answers_to o.deliver h (messages_of b rs))))
                  kept.sent
              ∙ counted_one answer _ s f;
          same = Same-trans (Same-trans (Same-sent w) kept.same) rest.same;
          sent =
              rest.sent
              ∙ ap (λ h. h ++ messages_of b rs) kept.sent
              ∙ append_assoc w.sent (message ∷ []) (messages_of b rs);
        })
