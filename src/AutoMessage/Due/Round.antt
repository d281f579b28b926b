-- ===== src/AutoMessage/Due/Round.antt =====
-- A round of the scheduler in which no statement fails, and the tables behind it.
use mathlib.Core.Option
use hsgram_admin.Prelude.{
  ℕ, ◌≡◌, refl, ap, ◌∙◌, true, false, Option, none, some, List, [], ◌∷◌, ◌++◌, arith, ◌==◌, ◌&&◌,
}
use hsgram_admin.Prelude.Lists.{length, first_where, first_where-update}
use hsgram_admin.Sql.{Result, ok, World, quiet, pure, run_sql}
use hsgram_admin.Sql.Cases.{transaction-ok}
use hsgram_admin.AutoMessage.Types.{StoreError, Config, Item, Log, SendCandidate, GroupMessage}
use hsgram_admin.AutoMessage.Tables.{
  ConfigRow, Tables, config_by_id, list_items, update_config_any, edit_config, is_live,
}
use hsgram_admin.AutoMessage.Queries.{is_group_active, insert_log}
use hsgram_admin.AutoMessage.Store.{Store, enabled_items, wrap_index}
use hsgram_admin.AutoMessage.Process.{
  Send, candidate_of, process_enabled, process_due_row, process_body, process_due_config, due_at,
  advance_row, sent_log,
}
use hsgram_admin.AutoMessage.Due.{turn_of}

map-edit :
    (f : Config → Config) (o : Option ConfigRow)
    → Option.map (λ (r : ConfigRow). r.config) (Option.map (edit_config f) o)
      ≡ Option.map f (Option.map (λ (r : ConfigRow). r.config) o)
map-edit f none = refl
map-edit f (some r) = refl

-- An UPDATE by id is seen by a query by id.
pub config_by_id-update :
    (f : Config → Config)
    → ((c : Config) → (f c).id ≡ c.id)
    → (i : ℕ) (t : Tables)
    → config_by_id i (update_config_any i f t) ≡ Option.map f (config_by_id i t)
unfolding config_by_id update_config_any
config_by_id-update f same_id i t =
    ap (Option.map (λ (r : ConfigRow). r.config)) (
      first_where-update (λ (r : ConfigRow). r.id == i) (λ r. r.id == i && is_live r)
        (edit_config f) (λ r. rw (same_id r.config)) (λ r h. ground arith) t.configs)
    ∙ map-edit f _

pub config_by_id-id : (i : ℕ) (t : Tables) {cfg : Config} → config_by_id i t ≡ some cfg → cfg.id ≡ i
unfolding config_by_id
config_by_id-id i t {cfg} e = found t.configs e
  where
    found :
        (rs : List ConfigRow)
        → Option.map
            (λ (r : ConfigRow). r.config)
            (first_where (λ (r : ConfigRow). r.id == i && is_live r) rs)
          ≡ some cfg
        → cfg.id ≡ i
    found [] e = cc
    found (r ∷ rs) e = ground (arith, found rs)

config_by_id-update_some :
    (f : Config → Config)
    → ((c : Config) → (f c).id ≡ c.id)
    → (i j : ℕ) (t : Tables) {cfg : Config} → j ≡ i
    → config_by_id i t ≡ some cfg
    → config_by_id i (update_config_any j f t) ≡ some (f cfg)
config_by_id-update_some f same_id i j t e found =
    ap (λ k. config_by_id i (update_config_any k f t)) e
    ∙ config_by_id-update f same_id i t
    ∙ ap (Option.map f) found

insert_log-config :
    (i : ℕ) (l : Log) (t : Tables) → config_by_id i (insert_log l t) ≡ config_by_id i t
unfolding config_by_id insert_log
insert_log-config i l t = refl

-- The round in which the turn of `item` has come.
module _ (send : Send) (now at : ℕ) (t : Tables) (s : List GroupMessage) (cfg : Config)
    (item : Item) where
  abbrev pub enabled_of : List Item
  enabled_of = enabled_items (list_items cfg.id false t)

  abbrev pub turn_index : ℕ
  turn_index = wrap_index cfg.current_index (length enabled_of)

  abbrev pub turn_candidate : SendCandidate
  turn_candidate = candidate_of cfg at turn_index item

  abbrev pub tables_after : Tables
  tables_after =
      update_config_any cfg.id
        (advance_row now cfg.interval_minutes turn_index (length enabled_of)
          (send turn_candidate).1)
        (insert_log (sent_log cfg now turn_candidate (send turn_candidate).1) t)

  abbrev pub world_after : World Tables GroupMessage
  world_after = quiet tables_after (s ++ (send turn_candidate).0 ∷ [])

  process_enabled-turn :
      (items : List Item)
      → items ≡ enabled_of
      → turn_of cfg items ≡ some item
      → process_enabled send cfg now at items (quiet t s) ≡ (ok tt, world_after)
  unfolding run_sql process_enabled
  process_enabled-turn [] e h = cc
  process_enabled-turn (x ∷ xs) e h = rw (← e, h, process_enabled) refl

  process_due_row-turn :
      is_group_active cfg.group_id t ≡ true
      → turn_of cfg enabled_of ≡ some item
      → process_due_row send cfg now at (quiet t s) ≡ (ok tt, world_after)
  unfolding run_sql process_due_row
  process_due_row-turn active h = rw (active, process_due_row) (process_enabled-turn _ refl h)

  process_body-turn :
      (i : ℕ)
      → config_by_id i t ≡ some cfg
      → due_at cfg now ≡ some at
      → is_group_active cfg.group_id t ≡ true
      → turn_of cfg enabled_of ≡ some item
      → process_body send i now (quiet t s) ≡ (ok tt, world_after)
  unfolding run_sql process_body
  process_body-turn i found due active h =
      rw (found, process_body) (ap by_due due ∙ process_due_row-turn active h)
    where
      by_due : Option ℕ → Result StoreError (Unit {0}) × World Tables GroupMessage
      by_due o =
          let m : Store (Unit {0}) = elim o [
            | none ↦ pure tt
            | some u ↦ process_due_row send cfg now u
          ] in
          m (quiet t s)

  -- With no statement failing the round sends the one message, logs it, and moves the config on.
  pub process_due_config-turn :
      (i : ℕ)
      → config_by_id i t ≡ some cfg
      → due_at cfg now ≡ some at
      → is_group_active cfg.group_id t ≡ true
      → turn_of cfg enabled_of ≡ some item
      → process_due_config send i now (quiet t s) ≡ (ok tt, world_after)
  unfolding process_due_config
  process_due_config-turn i found due active h =
      transaction-ok _ _ _ _ _ _ (process_body-turn i found due active h)

  -- Behind the round the config is the advanced one, and nothing else that a round reads differs.
  pub tables_after-config :
      (i : ℕ)
      → config_by_id i t ≡ some cfg
      → config_by_id i tables_after
        ≡ some (
            advance_row now cfg.interval_minutes turn_index
              (length enabled_of)
              (send turn_candidate).1
              cfg)
  tables_after-config i found =
      config_by_id-update_some _ (λ c. refl) i cfg.id _ (config_by_id-id i t found)
        (insert_log-config i _ t ∙ found)

  pub tables_after-items : list_items cfg.id false tables_after ≡ list_items cfg.id false t
  unfolding list_items update_config_any insert_log
  tables_after-items = refl

  pub tables_after-active :
      is_group_active cfg.group_id tables_after ≡ is_group_active cfg.group_id t
  unfolding is_group_active update_config_any insert_log
  tables_after-active = refl
