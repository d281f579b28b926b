-- ===== src/AutoMessage/Preserve.antt =====
-- Every method of the store keeps the invariant, whichever of its statements fail.
pub mod Items
pub mod Process
pub mod Service
use hsgram_admin.Prelude.{
  ℕ, suc, zero, ◌+◌, ◌≤◌, ◌<◌, ◌≡◌, ◌≢◌, refl, Bool, true, false, Option, none, some, List, [], ◌∷◌,
  inl, inr, arith, Bool-cases, if◌then◌else◌, ◌==◌, ltb, leb,
}
use hsgram_admin.Prelude.Lists.{OptionOf, OptionOf-unit, contains}
use hsgram_admin.Sql.{Sql, query, statement, exec}
use hsgram_admin.Sql.Triple.{
  Triple, Triple-pure, Triple-raise, Triple-or_raise, Triple-statement, Triple-exec, Triple-if,
  Triple-bind, Triple-send_out, Triple-transaction,
}
use hsgram_admin.AutoMessage.Types.{
  Config, ConfigDetail, Item, ItemInput, ConfigParams, StoreError, GroupMessage,
}
use hsgram_admin.AutoMessage.Tables.{
  Tables, config_by_group, config_by_id, insert_config, update_config, update_config_any,
  insert_item, update_item, delete_item, update_group_item, delete_group_item,
}
use hsgram_admin.AutoMessage.Queries.{insert_log}
use hsgram_admin.AutoMessage.Store.{
  Store, get_permission, get_config_detail, ensure_config, ensure_config_tx, save_items, or_default,
  item_belongs_to, make_detail,
}
use hsgram_admin.AutoMessage.Edit.{
  after_minutes, delete_unseen, save_row, save_body, save_config, enable_row, enable_body,
  enable_config, disable_config, disable_row, add_item, reset_index, normalize_current_index,
  update_item_of, delete_item_of, sort_loop, sort_body, sort_items,
}
use hsgram_admin.AutoMessage.Invariant.{
  IsSound, Inv, IsEdit, update_config-Inv, update_config_any-Inv, Inv-same_configs,
  insert_config-Inv, config_by_group-IsSound, config_by_id-IsSound,
}

-- From tables with the invariant the method ends in such tables, and returns what satisfies `Q`.
abbrev pub Safe : {A : Type 0} → Store A → (A → Type 0) → Type 0
Safe m Q = Triple Inv m Q

abbrev pub Any : {A : Type 0} → A → Type 0
Any a = Unit

module _ {A : Type 0} where
  pub Safe-query : (f : Tables → A) → Safe (query f) Any
  Safe-query f = Triple-statement _ (λ t h. (h, tt))

  -- A statement that leaves the configs alone.
  pub Safe-other :
      (f : Tables → A × Tables)
      → ((t : Tables) → (t.configs ≡ (f t).1.configs) × (t.next_config_id ≡ (f t).1.next_config_id))
      → Safe (statement f) Any
  Safe-other f k = Triple-statement _ (λ t h. (Inv-same_configs _ _ (k t).0 (k t).1 h, tt))

pub Safe-insert_log : (l : _) → Safe (exec (insert_log l)) Any
unfolding insert_log
Safe-insert_log l = Safe-other _ (λ t. (refl, refl))

Safe-update_config :
    (i : ℕ) (f : Config → Config)
    → IsEdit f
    → ((c : Config) → IsSound c → IsSound (f c))
    → Safe (exec (update_config i f)) Any
Safe-update_config i f ed snd = Triple-exec _ (update_config-Inv f ed snd i)

pub Safe-update_config_any :
    (i : ℕ) (f : Config → Config)
    → IsEdit f
    → ((c : Config) → IsSound c → IsSound (f c))
    → Safe (exec (update_config_any i f)) Any
Safe-update_config_any i f ed snd = Triple-exec _ (update_config_any-Inv f ed snd i)

pub get_config_detail-Safe : (g : ℕ) → Safe (get_config_detail g) Any
unfolding get_config_detail
get_config_detail-Safe g = Triple-bind (Safe-query _) (λ found _.
    Triple-bind {Q = Any} (Triple-or_raise _ found (OptionOf-unit found))
      (λ cfg _. Triple-bind (Safe-query _) (λ items _. Triple-pure _ tt)))

Safe-config_by_group : (g : ℕ) → Safe (query (config_by_group g)) (OptionOf IsSound)
Safe-config_by_group g = Triple-statement _ (λ t h. (h, config_by_group-IsSound g t h))

pub Safe-config_by_id : (i : ℕ) → Safe (query (config_by_id i)) (OptionOf IsSound)
Safe-config_by_id i = Triple-statement _ (λ t h. (h, config_by_id-IsSound i t h))

Safe-insert_config : (g actor : ℕ) → Safe (statement (insert_config g actor)) Any
Safe-insert_config g actor = Triple-statement _ (λ t h. (insert_config-Inv g actor t h, tt))

pub ensure_config-Safe : (g actor : ℕ) → Safe (ensure_config g actor) IsSound
unfolding ensure_config
ensure_config-Safe g actor = Triple-bind (Safe-config_by_group g) elim [
  | some cfg ↦ λ q. Triple-pure cfg q
  | none ↦ λ _. Triple-bind (Safe-insert_config g actor) (λ made _.
      Triple-bind {Q = Any} (Triple-or_raise _ made (OptionOf-unit made))
        (λ _ _. Triple-bind (Safe-config_by_group g) (λ found q. Triple-or_raise _ found q)))
]

ensure_config_tx-Safe : (g actor : ℕ) → Safe (ensure_config_tx g actor) IsSound
unfolding ensure_config_tx
ensure_config_tx-Safe g actor = Triple-bind (Safe-config_by_group g) elim [
  | some cfg ↦ λ q. Triple-pure cfg q
  | none ↦ λ _. Triple-bind (Safe-insert_config g actor) (λ made _.
      Triple-bind {Q = Any} (Triple-or_raise _ made (OptionOf-unit made))
        (λ i _. Triple-bind (Safe-config_by_id i) (λ found q. Triple-or_raise _ found q)))
]

save_items-Safe :
    (config_id g actor : ℕ) (existing : List Item) (i : ℕ) (inputs : List ItemInput) (seen : List ℕ)
    → Safe (save_items config_id g actor existing i inputs seen) Any
unfolding save_items update_item insert_item
save_items-Safe config_id g actor existing i [] seen = Triple-pure seen tt
save_items-Safe config_id g actor existing i (input ∷ inputs) seen =
    Triple-if (ltb 0 input.id) _ _
      (Triple-if (item_belongs_to existing input.id) _ _
        (Triple-bind (Safe-other _ (λ t. (refl, refl)))
          (λ _ _. save_items-Safe config_id g actor existing (i + 1) inputs (input.id ∷ seen)))
        (Triple-raise _))
      (Triple-bind (Safe-other _ (λ t. (refl, refl)))
        (λ _ _. save_items-Safe config_id g actor existing (i + 1) inputs seen))

delete_unseen-Safe :
    (config_id actor : ℕ) (seen : List ℕ) (xs : List Item)
    → Safe (delete_unseen config_id actor seen xs) Any
unfolding delete_unseen delete_item
delete_unseen-Safe config_id actor seen [] = Triple-pure tt tt
delete_unseen-Safe config_id actor seen (x ∷ xs) =
    Triple-if (contains x.id seen) _ _ (delete_unseen-Safe config_id actor seen xs) (
      Triple-bind (Safe-other _ (λ t. (refl, refl)))
        (λ _ _. delete_unseen-Safe config_id actor seen xs))

save_row-IsSound :
    (params : ConfigParams) (actor now : ℕ) (cfg c : Config)
    → 5 ≤ params.interval_minutes
    → params.interval_minutes ≤ 1440
    → IsSound (save_row params actor now cfg c)
save_row-IsSound params actor now cfg c low high = record {
  scheduled = λ e. ground arith;
  interval_low = low;
  interval_high = high;
}

module _ (g actor now : ℕ) where
  save_body-Safe :
      (params : ConfigParams)
      → 5 ≤ params.interval_minutes
      → params.interval_minutes ≤ 1440
      → Safe (save_body g actor params now) Any
  unfolding save_body
  save_body-Safe params low high = Triple-bind (ensure_config_tx-Safe g actor) (λ cfg _.
      Triple-if _ _ _ (Triple-raise _) (
        Triple-bind (Safe-query _) (λ existing _.
          Triple-bind (save_items-Safe cfg.id g actor existing 0 params.items []) (λ seen _.
            Triple-bind (delete_unseen-Safe cfg.id actor seen existing) (λ _ _.
              Safe-update_config cfg.id _ (record { same_id = λ c. refl; same_group = λ c. refl })
                (λ c _. save_row-IsSound params actor now cfg c low high))))))

  -- Saving keeps the invariant if the interval is one that the service lets through.
  pub save_config-Safe :
      (params : ConfigParams)
      → 5 ≤ params.interval_minutes
      → params.interval_minutes ≤ 1440
      → Safe (save_config g actor params now) Any
  unfolding save_config
  save_config-Safe params low high =
      Triple-bind (Triple-transaction (save_body-Safe params low high))
        (λ _ _. get_config_detail-Safe g)

  enable_row-IsSound :
      (minutes : ℕ) (cfg c : Config)
      → IsSound cfg
      → ((0 < minutes) → (5 ≤ minutes) × (minutes ≤ 1440))
      → IsSound (enable_row (or_default minutes cfg.interval_minutes) actor now c)
  enable_row-IsSound minutes cfg c h k = record {
    scheduled = λ e. cc;
    interval_low = ground (arith, h.interval_low);
    interval_high = ground (arith, h.interval_high);
  }

  enable_body-Safe :
      (minutes : ℕ)
      → ((0 < minutes) → (5 ≤ minutes) × (minutes ≤ 1440))
      → Safe (enable_body g actor minutes now) Any
  unfolding enable_body
  enable_body-Safe minutes k = Triple-bind (ensure_config_tx-Safe g actor) (λ cfg h.
      Triple-bind (Safe-query _) (λ items _. Triple-if _ _ _ (Triple-raise _) (
        Safe-update_config cfg.id _ (record { same_id = λ c. refl; same_group = λ c. refl })
          (λ c _. enable_row-IsSound minutes cfg c h k))))

  -- So does enabling, with no interval or with one that the service lets through.
  pub enable_config-Safe :
      (minutes : ℕ)
      → ((0 < minutes) → (5 ≤ minutes) × (minutes ≤ 1440))
      → Safe (enable_config g actor minutes now) Any
  unfolding enable_config
  enable_config-Safe minutes k =
      Triple-bind (Triple-transaction (enable_body-Safe minutes k))
        (λ _ _. get_config_detail-Safe g)

module _ (g actor : ℕ) where
  pub disable_config-Safe : Safe (disable_config g actor) Any
  unfolding disable_config
  disable_config-Safe = Triple-bind (ensure_config-Safe g actor) (λ cfg _.
      Triple-bind
        (Safe-update_config cfg.id (disable_row actor)
          (record { same_id = λ c. refl; same_group = λ c. refl })
          (λ c h. record {
            scheduled = λ e. cc;
            interval_low = h.interval_low;
            interval_high = h.interval_high;
          }))
        (λ _ _. get_config_detail-Safe g))

  pub add_item-Safe : (input : ItemInput) → Safe (add_item g actor input) Any
  unfolding add_item insert_item
  add_item-Safe input = Triple-bind (ensure_config-Safe g actor) (λ cfg _.
      Triple-bind (Safe-query _) (λ count _.
        Triple-bind (Safe-other _ (λ t. (refl, refl))) (λ _ _. get_config_detail-Safe g)))

  pub get_permission-Safe : Safe (get_permission g actor) Any
  unfolding get_permission
  get_permission-Safe = Triple-bind (Safe-query _) (λ p _. Triple-or_raise _ p (OptionOf-unit p))
