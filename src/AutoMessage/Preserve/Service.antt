-- ===== src/AutoMessage/Preserve/Service.antt =====
-- The service lets nothing through that could break the invariant of the configs.
use hsgram_admin.Prelude.{
  ℕ, ◌≤◌, ◌≡◌, refl, Bool, true, Option, none, some, List, arith, inl, inr, Bool-cases,
}
use hsgram_admin.Sql.{Result, ok, err, fault}
use hsgram_admin.Sql.Triple.{Returns, Triple, Triple-pure, Triple-raise, Triple-if, Triple-bind}
use hsgram_admin.AutoMessage.Types.{Code, StoreError, ItemInput, ConfigParams, Mtproto}
use hsgram_admin.AutoMessage.Store.{Store}
use hsgram_admin.AutoMessage.Validate.{
  valid_interval, validate_config_params, normalize_item_input, normalize_config_params,
}
use hsgram_admin.AutoMessage.Service.{
  ServiceError, Service, relabel, call_store, reject, current_item_count, require_manage_permission,
  get_config, save, enable, disable, add, update, delete, sort, logs, map_store_error,
}
use hsgram_admin.AutoMessage.Invariant.{Inv}
use hsgram_admin.AutoMessage.Preserve.{
  Safe, Any, get_config_detail-Safe, ensure_config-Safe, save_config-Safe, enable_config-Safe,
  disable_config-Safe, add_item-Safe, get_permission-Safe,
}
use hsgram_admin.AutoMessage.Preserve.Items.{
  update_item_of-Safe, delete_item_of-Safe, sort_items-Safe,
}
use hsgram_admin.AutoMessage.Preserve.Process.{list_logs-Safe}

abbrev pub Serves : {A : Type 0} → Service A → (A → Type 0) → Type 0
Serves m Q = Triple Inv m Q

relabel-Returns :
    {A : Type 0} (f : StoreError → ServiceError) (Q : A → Type 0) (r : Result StoreError A)
    → Returns Q r
    → Returns Q (relabel f r)
relabel-Returns f Q (ok a) h = h
relabel-Returns f Q (err x) h = tt
relabel-Returns f Q fault h = tt

Returns-Any : {X A : Type 0} (r : Result X A) → Returns Any r
Returns-Any (ok a) = tt
Returns-Any (err x) = tt
Returns-Any fault = tt

pub Serves-call_store :
    {A : Type 0} {Q : A → Type 0} (f : StoreError → ServiceError) {m : Store A}
    → Safe m Q
    → Serves (call_store f m) Q
Serves-call_store f {m} hm = record {
  run = λ w h. ((hm.run w h).0, relabel-Returns f _ (m w).0 (hm.run w h).1);
}

-- Behind a check, the check has passed.
Serves-reject : (o : Option Code) → Serves (reject o) (λ _. o ≡ none)
Serves-reject none = Triple-pure tt refl
Serves-reject (some c) = Triple-raise _

module _ (k : Mtproto) where
  require_manage_permission-Serves :
      (actor g : ℕ) → Serves (require_manage_permission k actor g) Any
  unfolding require_manage_permission
  require_manage_permission-Serves actor g = Triple-if _ _ _ (Triple-raise _) (
      Triple-bind (Serves-call_store map_store_error (get_permission-Safe g actor)) (λ p _.
        Triple-if _ _ _ (Triple-raise _) (Triple-if _ _ _ (Triple-pure tt tt) (Triple-raise _))))

valid_interval_bounds : (n : ℕ) → valid_interval n ≡ true → (5 ≤ n) × (n ≤ 1440)
unfolding valid_interval
valid_interval_bounds n h = ground arith

valid_params_interval :
    (params : ConfigParams)
    → validate_config_params params ≡ none
    → valid_interval params.interval_minutes ≡ true
unfolding validate_config_params
valid_params_interval params h = elim (Bool-cases (valid_interval params.interval_minutes)) [
  | inl e ↦ e
  | inr e ↦ absurd (cc (rw e at h))
]

normalize_interval :
    (params : ConfigParams)
    → (normalize_config_params params).interval_minutes ≡ params.interval_minutes
unfolding normalize_config_params
normalize_interval params = refl

module _ (k : Mtproto) (actor g : ℕ) where
  pub get_config-Serves : Serves (get_config k actor g) Any
  unfolding get_config
  get_config-Serves = Triple-bind (require_manage_permission-Serves k actor g) (λ _ _.
      Triple-bind (Serves-call_store _ (ensure_config-Safe g actor))
        (λ _ _. Serves-call_store _ (get_config_detail-Safe g)))

  pub save-Serves : (params : ConfigParams) (now : ℕ) → Serves (save k actor g params now) Any
  unfolding save
  save-Serves params now = Triple-bind (require_manage_permission-Serves k actor g) (λ _ _.
      Triple-bind (Serves-reject _) (λ _ passed.
        let bounds = valid_interval_bounds _ (valid_params_interval params passed) in
        Serves-call_store _ (
          save_config-Safe g actor now (normalize_config_params params)
            (rw (normalize_interval params) bounds.0) (rw (normalize_interval params) bounds.1))))

  pub enable-Serves : (minutes now : ℕ) → Serves (enable k actor g minutes now) Any
  unfolding enable
  enable-Serves minutes now = Triple-bind (require_manage_permission-Serves k actor g) (λ _ _.
      Triple-bind (Serves-reject _) (λ _ passed. Serves-call_store _ (
        enable_config-Safe g actor now minutes
          (λ p. valid_interval_bounds minutes (ground arith)))))

  pub disable-Serves : Serves (disable k actor g) Any
  unfolding disable
  disable-Serves =
      Triple-bind (require_manage_permission-Serves k actor g)
        (λ _ _. Serves-call_store _ (disable_config-Safe g actor))

  current_item_count-Serves : Serves (current_item_count g) Any
  unfolding current_item_count
  current_item_count-Serves = record {
    run = λ w h. (((get_config_detail-Safe g).run w h).0, Returns-Any _);
  }

  pub add-Serves : (input : ItemInput) → Serves (add k actor g input) Any
  unfolding add
  add-Serves input = Triple-bind (require_manage_permission-Serves k actor g) (λ _ _.
      Triple-bind current_item_count-Serves (λ count _. Triple-bind (Serves-reject _) (λ _ _.
        Triple-bind (Serves-reject _)
          (λ _ _. Serves-call_store _ (add_item-Safe g actor (normalize_item_input input))))))

  pub update-Serves :
      (found_rows : Bool) (i : ℕ) (input : ItemInput)
      → Serves (update k found_rows actor g i input) Any
  unfolding update
  update-Serves found_rows i input =
      Triple-bind (require_manage_permission-Serves k actor g) (λ _ _.
        Triple-bind (Serves-reject _) (λ _ _.
          Serves-call_store _
            (update_item_of-Safe g actor found_rows i (normalize_item_input input))))

  pub delete-Serves : (i : ℕ) → Serves (delete k actor g i) Any
  unfolding delete
  delete-Serves i =
      Triple-bind (require_manage_permission-Serves k actor g)
        (λ _ _. Serves-call_store _ (delete_item_of-Safe g actor i))

  pub sort-Serves : (ids : List ℕ) → Serves (sort k actor g ids) Any
  unfolding sort
  sort-Serves ids = Triple-bind (require_manage_permission-Serves k actor g) (λ _ _.
      Triple-bind (Serves-reject _) (λ _ _. Serves-call_store _ (sort_items-Safe g actor ids)))

  pub logs-Serves : (page page_size : ℕ) → Serves (logs k actor g page page_size) Any
  unfolding logs
  logs-Serves page page_size =
      Triple-bind (require_manage_permission-Serves k actor g)
        (λ _ _. Serves-call_store _ (list_logs-Safe g page page_size))
