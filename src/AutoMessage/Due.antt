-- ===== src/AutoMessage/Due.antt =====
-- What the scheduler sends for one config, and when: `ProcessDueAutoMessageConfig` against a
-- description of the one message that is due.
pub mod Round
pub mod Rotation
pub mod BizId
pub mod Retry
use hsgram_admin.Prelude.{
  ℕ, zero, suc, ◌+◌, ◌*◌, ◌%◌, ◌≤◌, ◌<◌, ◌≡◌, ◌≢◌, ◌⊎◌, refl, sym, ap, ◌∙◌, Bool, true, false,
  Option, none, some, List, [], ◌∷◌, ◌++◌, inl, inr, arith, Bool-cases, Option-cases, if◌then◌else◌,
  ◌==◌, ltb, leb,
}
use mathlib.Core.Path.{subst}
use hsgram_admin.Prelude.Lists.{length, get_elem?}
use hsgram_admin.Prelude.Text.{Text, codes}
use hsgram_admin.Sql.{
  Result, ok, err, fault, World, pure, run_sql, transaction, transaction-atomic, statement, exec,
  query, or_raise, ◌>>=◌, ◌>>◌,
}
use hsgram_admin.Sql.Cases.{skip, statement-bind_cases, transaction-sent}
use hsgram_admin.AutoMessage.Types.{
  StoreError, err_config_not_found, group_dissolved, Config, Item, SendCandidate, SendResult,
  GroupMessage,
}
use hsgram_admin.AutoMessage.Tables.{Tables, config_by_id, list_items, update_config_any}
use hsgram_admin.AutoMessage.Queries.{is_group_active, insert_log}
use hsgram_admin.AutoMessage.Store.{Store, enabled_items, wrap_index}
use hsgram_admin.AutoMessage.Process.{
  Send, biz_id_of, candidate_of, send_candidate, process_enabled, process_due_row, process_body,
  process_due_config, due_at, failure_log, dissolve_row,
}

-- The item whose turn it is.
abbrev pub turn_of : Config → List Item → Option Item
turn_of cfg items = get_elem? items (wrap_index cfg.current_index (length items))

abbrev pub candidate_at : Config → ℕ → List Item → Option SendCandidate
candidate_at cfg at items = elim (turn_of cfg items) [
  | none ↦ none
  | some item ↦ some (candidate_of cfg at (wrap_index cfg.current_index (length items)) item)
]

-- The candidate that is due for a config row at an instant, if there is one.
abbrev pub candidate_in : Config → ℕ → Tables → Option SendCandidate
candidate_in cfg now t = elim (due_at cfg now) [
  | none ↦ none
  | some at ↦
      if is_group_active cfg.group_id t
      then candidate_at cfg at (enabled_items (list_items cfg.id false t))
      else none
]

unfoldable pub candidate_for : ℕ → ℕ → Tables → Option SendCandidate
candidate_for i now t = elim (config_by_id i t) [ none ↦ none | some cfg ↦ candidate_in cfg now t ]

abbrev Outcome : Type 0
Outcome = Result StoreError (Unit {0}) × World Tables GroupMessage

module _ (send : Send) where
  -- What may have left the process: nothing, or the message of the candidate.
  abbrev pub SendsAtMost : Option SendCandidate → List GroupMessage → List GroupMessage → Type 0
  SendsAtMost none before after = after ≡ before
  SendsAtMost (some c) before after = (after ≡ before) ⊎ (after ≡ before ++ (send c).0 ∷ [])

  send_candidate-sent :
      (cfg : Config) (now index n : ℕ) (c : SendCandidate) (w : World Tables GroupMessage)
      → (send_candidate send cfg now index n c w).1.sent ≡ w.sent ++ (send c).0 ∷ []
  unfolding run_sql send_candidate
  send_candidate-sent cfg now index n c w = ground arith

  SendsAtMost-none :
      (o : Option SendCandidate) {before after : List GroupMessage}
      → after ≡ before
      → SendsAtMost o before after
  SendsAtMost-none none e = e
  SendsAtMost-none (some c) e = inl e

  -- Where the method stops or goes on, the claim is about what it ends in.
  sent-by :
      (o : Option SendCandidate) (before : List GroupMessage) {r u : Outcome}
      → r ≡ u
      → SendsAtMost o before u.1.sent
      → SendsAtMost o before r.1.sent
  sent-by o before e h = subst (λ (v : Outcome). SendsAtMost o before v.1.sent) (sym e) h

  idle-sent :
      (f g : Tables → Tables) (w : World Tables GroupMessage)
      → ((exec {X = StoreError} f >> exec g) w).1.sent ≡ w.sent
  unfolding run_sql
  idle-sent f g w = ground arith

  process_enabled-sent :
      (cfg : Config) (now at : ℕ) (items : List Item) (w : World Tables GroupMessage)
      → SendsAtMost
          (candidate_at cfg at items)
          w.sent
          (process_enabled send cfg now at items w).1.sent
  unfolding process_enabled
  process_enabled-sent cfg now at [] w = idle-sent _ _ w
  process_enabled-sent cfg now at (x ∷ xs) w = chosen (turn_of cfg (x ∷ xs))
    where
      chosen :
          (o : Option Item)
          → SendsAtMost
              (elim o [
                | none ↦ none
                | some item ↦
                    some (candidate_of cfg at (wrap_index cfg.current_index (length (x ∷ xs))) item)
              ])
              w.sent
              (let m : Store (Unit {0}) = elim o [
                | some item ↦
                    send_candidate send cfg now
                      (wrap_index cfg.current_index (length (x ∷ xs)))
                      (length (x ∷ xs))
                      (candidate_of cfg at (wrap_index cfg.current_index (length (x ∷ xs))) item)
                | none ↦ pure tt
              ] in
                m w).1.sent
      chosen none = unfold pure in refl
      chosen (some item) = inr (send_candidate-sent cfg now _ _ _ w)

  process_due_row-sent :
      (cfg : Config) (now at : ℕ) (w : World Tables GroupMessage)
      → SendsAtMost
          (if is_group_active cfg.group_id w.tables
            then candidate_at cfg at (enabled_items (list_items cfg.id false w.tables))
            else none)
          w.sent
          (process_due_row send cfg now at w).1.sent
  unfolding process_due_row
  process_due_row-sent cfg now at w =
      elim (statement-bind_cases (λ (t : Tables). (is_group_active cfg.group_id t, t)) _ w) [
        | inl e ↦ sent-by _ _ e (SendsAtMost-none _ refl)
        | inr e ↦ sent-by _ _ e (by_activity (is_group_active cfg.group_id w.tables) (skip w) refl)
      ]
    where
      by_items :
          (v : World Tables GroupMessage)
          → SendsAtMost
              (candidate_at cfg at (enabled_items (list_items cfg.id false v.tables)))
              v.sent
              ((do
                items ← query (list_items cfg.id false)
                process_enabled send cfg now at (enabled_items items))
                v).1.sent
      by_items v =
          elim (statement-bind_cases (λ (t : Tables). (list_items cfg.id false t, t)) _ v) [
            | inl e ↦ sent-by _ _ e (SendsAtMost-none _ refl)
            | inr e ↦ sent-by _ _ e (
                process_enabled-sent cfg now at (enabled_items (list_items cfg.id false v.tables))
                  (skip v))
          ]

      by_activity :
          (active : Bool) (v : World Tables GroupMessage)
          → v.tables ≡ w.tables
          → SendsAtMost
              (if active
                then candidate_at cfg at (enabled_items (list_items cfg.id false v.tables))
                else none)
              v.sent
              (let m : Store (Unit {0}) =
                  if active
                  then (do
                    items ← query (list_items cfg.id false)
                    process_enabled send cfg now at (enabled_items items))
                  else (do
                    exec (
                        insert_log
                          (failure_log cfg now group_dissolved (codes "group is dissolved")))
                    exec (update_config_any cfg.id (dissolve_row now))) in
                m v).1.sent
      by_activity true v e = by_items v
      by_activity false v e = idle-sent _ _ v

  process_body-sent :
      (i now : ℕ) (w : World Tables GroupMessage)
      → SendsAtMost (candidate_for i now w.tables) w.sent (process_body send i now w).1.sent
  unfolding process_body candidate_for
  process_body-sent i now w =
      elim (statement-bind_cases (λ (t : Tables). (config_by_id i t, t)) _ w) [
        | inl e ↦ sent-by _ _ e (SendsAtMost-none _ refl)
        | inr e ↦ sent-by _ _ e (by_config (config_by_id i w.tables))
      ]
    where
      by_due :
          (cfg : Config) (o : Option ℕ)
          → SendsAtMost
              (elim o [
                | none ↦ none
                | some at ↦
                    if is_group_active cfg.group_id w.tables
                    then candidate_at cfg at (enabled_items (list_items cfg.id false w.tables))
                    else none
              ])
              w.sent
              (let m : Store (Unit {0}) = elim o [
                | none ↦ pure tt
                | some at ↦ process_due_row send cfg now at
              ] in
                m (skip w)).1.sent
      by_due cfg none = unfold pure in refl
      by_due cfg (some at) = process_due_row-sent cfg now at (skip w)

      by_config :
          (o : Option Config)
          → SendsAtMost
              (elim o [ none ↦ none | some cfg ↦ candidate_in cfg now w.tables ])
              w.sent
              ((do
                cfg ← or_raise err_config_not_found o
                elim (due_at cfg now) [
                  | none ↦ pure tt
                  | some at ↦ process_due_row send cfg now at
                ])
                (skip w)).1.sent
      by_config none = unfold ◌>>=◌ or_raise in refl
      by_config (some cfg) = unfold ◌>>=◌ or_raise in by_due cfg (due_at cfg now)

  -- A run of `ProcessDueAutoMessageConfig`, whichever of its statements fail, sends nothing, or
  -- the one message of the candidate that is due, once; where none is due it sends nothing.
  pub process_due_config-sent :
      (i now : ℕ) (w : World Tables GroupMessage)
      → SendsAtMost (candidate_for i now w.tables) w.sent (process_due_config send i now w).1.sent
  unfolding process_due_config
  process_due_config-sent i now w = elim (transaction-sent _ w) [
    | inl e ↦ SendsAtMost-none _ e
    | inr e ↦
        subst (SendsAtMost (candidate_for i now w.tables) w.sent) (sym e)
          (process_body-sent i now (skip w))
  ]
