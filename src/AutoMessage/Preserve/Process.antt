-- ===== src/AutoMessage/Preserve/Process.antt =====
-- The scheduler's methods keep the invariant of the configs.
use hsgram_admin.Prelude.{ℕ, refl, Option, none, some, List, [], ◌∷◌}
use hsgram_admin.Prelude.Lists.{length, get_elem?}
use hsgram_admin.Sql.{pure}
use hsgram_admin.Sql.Triple.{
  Triple-pure, Triple-or_raise, Triple-if, Triple-bind, Triple-send_out, Triple-transaction,
}
use hsgram_admin.AutoMessage.Types.{Config, Item, SendCandidate}
use hsgram_admin.AutoMessage.Store.{wrap_index, enabled_items}
use hsgram_admin.AutoMessage.Process.{
  Send, list_logs, list_due, send_candidate, process_enabled, process_due_row, process_body,
  process_due_config, due_at, candidate_of,
}
use hsgram_admin.AutoMessage.Preserve.{
  Safe, Any, Safe-query, Safe-insert_log, Safe-update_config_any, Safe-config_by_id,
}

pub list_logs-Safe : (g page page_size : ℕ) → Safe (list_logs g page page_size) Any
unfolding list_logs
list_logs-Safe g page page_size =
    Triple-bind (Safe-query _) (λ total _. Triple-bind (Safe-query _) (λ items _. Triple-pure _ tt))

module _ (send : Send) (cfg : Config) (now : ℕ) where
  send_candidate-Safe :
      (index n : ℕ) (c : SendCandidate) → Safe (send_candidate send cfg now index n c) Any
  unfolding send_candidate
  send_candidate-Safe index n c = Triple-bind (Triple-send_out _) (λ _ _.
      Triple-bind (Safe-insert_log _) (λ _ _.
        Safe-update_config_any cfg.id _ (record { same_id = λ d. refl; same_group = λ d. refl })
          (λ d h. record {
            scheduled = λ e. cc;
            interval_low = h.interval_low;
            interval_high = h.interval_high;
          })))

  chosen-Safe :
      (at index n : ℕ) (o : Option Item)
      → Safe
          (elim o [
            | some item ↦ send_candidate send cfg now index n (candidate_of cfg at index item)
            | none ↦ pure tt
          ])
          Any
  chosen-Safe at index n none = Triple-pure tt tt
  chosen-Safe at index n (some item) = send_candidate-Safe index n _

  process_enabled-Safe :
      (at : ℕ) (items : List Item) → Safe (process_enabled send cfg now at items) Any
  unfolding process_enabled
  process_enabled-Safe at [] = Triple-bind (Safe-insert_log _) (λ _ _.
      Safe-update_config_any cfg.id _ (record { same_id = λ d. refl; same_group = λ d. refl })
        (λ d h. record {
          scheduled = λ e. cc;
          interval_low = h.interval_low;
          interval_high = h.interval_high;
        }))
  process_enabled-Safe at (x ∷ xs) =
      chosen-Safe at (wrap_index cfg.current_index (length (x ∷ xs))) (length (x ∷ xs))
        (get_elem? (x ∷ xs) (wrap_index cfg.current_index (length (x ∷ xs))))

  process_due_row-Safe : (at : ℕ) → Safe (process_due_row send cfg now at) Any
  unfolding process_due_row
  process_due_row-Safe at = Triple-bind (Safe-query _) (λ active _.
      Triple-if active _ _
        (Triple-bind (Safe-query _) (λ items _. process_enabled-Safe at (enabled_items items)))
        (Triple-bind (Safe-insert_log _) (λ _ _.
          Safe-update_config_any cfg.id _ (record { same_id = λ d. refl; same_group = λ d. refl })
            (λ d h. record {
              scheduled = λ e. cc;
              interval_low = h.interval_low;
              interval_high = h.interval_high;
            }))))

  due-Safe :
      (o : Option ℕ)
      → Safe (elim o [ none ↦ pure tt | some at ↦ process_due_row send cfg now at ]) Any
  due-Safe none = Triple-pure tt tt
  due-Safe (some at) = process_due_row-Safe at

pub process_due_config-Safe :
    (send : Send) (config_id now : ℕ) → Safe (process_due_config send config_id now) Any
unfolding process_due_config process_body
process_due_config-Safe send config_id now = Triple-transaction (
    Triple-bind (Safe-config_by_id config_id) (λ found q.
      Triple-bind (Triple-or_raise _ found q) (λ cfg _. due-Safe send cfg now (due_at cfg now))))

pub list_due-Safe : (now limit total index : ℕ) → Safe (list_due now limit total index) Any
unfolding list_due
list_due-Safe now limit total index = Safe-query _
