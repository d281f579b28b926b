-- ===== src/AutoMessage/Preserve/Items.antt =====
-- The methods on the items keep the invariant of the configs.
use hsgram_admin.Prelude.{ℕ, ◌+◌, Bool, List, [], ◌∷◌, refl}
use hsgram_admin.Prelude.Lists.{OptionOf-unit}
use hsgram_admin.Sql.Triple.{
  Triple-pure, Triple-raise, Triple-or_raise, Triple-if, Triple-bind, Triple-transaction,
}
use hsgram_admin.AutoMessage.Types.{Item, ItemInput}
use hsgram_admin.AutoMessage.Tables.{update_item, update_group_item, delete_group_item}
use hsgram_admin.AutoMessage.Edit.{
  reset_index, normalize_current_index, update_item_of, delete_item_of, sort_loop, sort_body,
  sort_items,
}
use hsgram_admin.AutoMessage.Preserve.{
  Safe, Any, Safe-query, Safe-other, Safe-update_config_any, get_config_detail-Safe,
  ensure_config-Safe,
}

normalize_current_index-Safe : (config_id : ℕ) → Safe (normalize_current_index config_id) Any
unfolding normalize_current_index
normalize_current_index-Safe config_id = Triple-bind (Safe-query _) (λ row _.
    Triple-bind {Q = Any} (Triple-or_raise _ row (OptionOf-unit row)) (λ index _.
      Triple-bind (Safe-query _) (λ items _. Triple-if _ _ _ (Triple-pure tt tt) (
        Safe-update_config_any config_id reset_index
          (record { same_id = λ c. refl; same_group = λ c. refl })
          (λ c h. record {
            scheduled = h.scheduled;
            interval_low = h.interval_low;
            interval_high = h.interval_high;
          })))))

module _ (g actor : ℕ) where
  pub update_item_of-Safe :
      (found_rows : Bool) (i : ℕ) (input : ItemInput)
      → Safe (update_item_of found_rows g actor i input) Any
  unfolding update_item_of update_group_item
  update_item_of-Safe found_rows i input = Triple-bind (ensure_config-Safe g actor) (λ cfg _.
      Triple-bind (Safe-other _ (λ t. (refl, refl))) (λ affected _.
        Triple-if affected _ _
          (Triple-bind (normalize_current_index-Safe cfg.id) (λ _ _. get_config_detail-Safe g))
          (Triple-raise _)))

  pub delete_item_of-Safe : (i : ℕ) → Safe (delete_item_of g actor i) Any
  unfolding delete_item_of delete_group_item
  delete_item_of-Safe i = Triple-bind (ensure_config-Safe g actor) (λ cfg _.
      Triple-bind (Safe-other _ (λ t. (refl, refl))) (λ affected _.
        Triple-if affected _ _
          (Triple-bind (normalize_current_index-Safe cfg.id) (λ _ _. get_config_detail-Safe g))
          (Triple-raise _)))

  sort_loop-Safe :
      (config_id : ℕ) (existing : List Item) (order : ℕ) (ids seen : List ℕ)
      → Safe (sort_loop config_id actor existing order ids seen) Any
  unfolding sort_loop update_item
  sort_loop-Safe config_id existing order [] seen = Triple-pure tt tt
  sort_loop-Safe config_id existing order (i ∷ ids) seen = Triple-if _ _ _ (Triple-raise _) (
      Triple-bind (Safe-other _ (λ t. (refl, refl)))
        (λ _ _. sort_loop-Safe config_id existing (order + 1) ids (i ∷ seen)))

  sort_body-Safe : (config_id : ℕ) (ids : List ℕ) → Safe (sort_body config_id actor ids) Any
  unfolding sort_body
  sort_body-Safe config_id ids = Triple-bind (Safe-query _) (λ existing _.
      Triple-if _ _ _
        (Triple-bind (sort_loop-Safe config_id existing 0 ids []) (λ _ _.
          Safe-update_config_any config_id _
            (record { same_id = λ c. refl; same_group = λ c. refl })
            (λ c h. record {
              scheduled = h.scheduled;
              interval_low = h.interval_low;
              interval_high = h.interval_high;
            })))
        (Triple-raise _))

  pub sort_items-Safe : (ids : List ℕ) → Safe (sort_items g actor ids) Any
  unfolding sort_items
  sort_items-Safe ids = Triple-bind (ensure_config-Safe g actor) (λ cfg _.
      Triple-bind (Triple-transaction (sort_body-Safe cfg.id ids)) (λ _ _.
        Triple-bind (normalize_current_index-Safe cfg.id) (λ _ _. get_config_detail-Safe g)))
