-- ===== src/AutoMessage/Invariant.antt =====
-- What holds of the config rows between two calls, and the statements that keep it.
use hsgram_admin.Prelude.{
  ℕ, ◌≤◌, ◌<◌, ◌≡◌, ◌≢◌, refl, Bool, true, false, none, List, [], ◌∷◌, inl, inr, sym, ◌∙◌, arith,
  Bool-cases, if◌then◌else◌, ◌==◌,
}
use hsgram_admin.Prelude.Lists.{
  All, AllPairs, OptionOf, OptionOf-map, All-weaken, All-update_where, first_where-All,
  update_where, any_where,
}
use hsgram_admin.AutoMessage.Types.{Config}
use hsgram_admin.AutoMessage.Tables.{
  ConfigRow, Tables, config_by_group, config_by_id, new_config, insert_config, edit_config,
  update_config, update_config_any,
}

-- An enabled config has a time to send at, and its interval is one that the service accepts.
pub record IsSound (c : Config) : Type 0 where
  pub scheduled : c.enabled ≡ true → c.next_send_at ≢ none
  pub interval_low : 5 ≤ c.interval_minutes
  pub interval_high : c.interval_minutes ≤ 1440

abbrev pub IsDistinct : ConfigRow → ConfigRow → Type 0
IsDistinct r s = (r.id ≢ s.id) × (r.group_id ≢ s.group_id)

pub record Inv (t : Tables) : Type 0 where
  pub sound : All (λ (r : ConfigRow). IsSound r.config) t.configs
  pub below : All (λ (r : ConfigRow). r.id < t.next_config_id) t.configs
  pub distinct : AllPairs IsDistinct t.configs

-- An edit keeps the keys of a row.
pub record IsEdit (f : Config → Config) : Type 0 where
  pub same_id : (c : Config) → (f c).id ≡ c.id
  pub same_group : (c : Config) → (f c).group_id ≡ c.group_id

-- The rows after an update have the keys that they had.
module _ (p : ConfigRow → Bool) (f : Config → Config) (ed : IsEdit f) where
  edited_row : ConfigRow → ConfigRow
  edited_row r = if p r then edit_config f r else r

  edited_keys :
      (r : ConfigRow) → ((edited_row r).id ≡ r.id) × ((edited_row r).group_id ≡ r.group_id)
  unfolding edited_row
  edited_keys r = elim (Bool-cases (p r)) [
    | inl e ↦ rw e (ed.same_id r.config, ed.same_group r.config)
    | inr e ↦ rw e (refl, refl)
  ]

  IsDistinct-head :
      (r : ConfigRow) (rs : List ConfigRow)
      → All (IsDistinct r) rs
      → All (IsDistinct (edited_row r)) (update_where p (edit_config f) rs)
  unfolding edited_row
  IsDistinct-head r [] h = h
  IsDistinct-head r (s ∷ rs) h =
      let kr = edited_keys r in
      let ks = edited_keys s in
      (
        (λ e. h.0.0 (sym kr.0 ∙ e ∙ ks.0), λ e. h.0.1 (sym kr.1 ∙ e ∙ ks.1)),
        IsDistinct-head r rs h.1,
      )

  IsDistinct-update :
      (rs : List ConfigRow)
      → AllPairs IsDistinct rs
      → AllPairs IsDistinct (update_where p (edit_config f) rs)
  unfolding edited_row
  IsDistinct-update [] h = h
  IsDistinct-update (r ∷ rs) h = (IsDistinct-head r rs h.0, IsDistinct-update rs h.1)

  below-update :
      (n : ℕ) (rs : List ConfigRow)
      → All (λ (r : ConfigRow). r.id < n) rs
      → All (λ (r : ConfigRow). r.id < n) (update_where p (edit_config f) rs)
  below-update n rs =
      All-update_where (λ (r : ConfigRow). r.id < n) p (edit_config f) rs
        (λ r h. rw (ed.same_id r.config) h)

-- An UPDATE of a config that keeps the keys and the soundness of the rows keeps the invariant.
module _ (f : Config → Config) (ed : IsEdit f)
    (snd : (c : Config) → IsSound c → IsSound (f c)) where
  pub update_where-Inv :
      (p : ConfigRow → Bool) (t : Tables)
      → Inv t
      → Inv (record t { configs = update_where p (edit_config f) t.configs })
  update_where-Inv p t h = record {
    sound =
        All-update_where (λ (r : ConfigRow). IsSound r.config) p (edit_config f) t.configs
          (λ r. snd r.config) h.sound;
    below = below-update p f ed t.next_config_id t.configs h.below;
    distinct = IsDistinct-update p f ed t.configs h.distinct;
  }

  pub update_config-Inv : (i : ℕ) (t : Tables) → Inv t → Inv (update_config i f t)
  unfolding update_config
  update_config-Inv i t = update_where-Inv _ t

  pub update_config_any-Inv : (i : ℕ) (t : Tables) → Inv t → Inv (update_config_any i f t)
  unfolding update_config_any
  update_config_any-Inv i t = update_where-Inv _ t

-- A statement on another table.
pub Inv-same_configs :
    (t u : Tables) → t.configs ≡ u.configs → t.next_config_id ≡ u.next_config_id → Inv t → Inv u
Inv-same_configs t u e n h = record {
  sound = rw (← e) h.sound;
  below = rw (← e, ← n) h.below;
  distinct = rw (← e) h.distinct;
}

fresh-IsDistinct :
    (n g actor : ℕ) (rs : List ConfigRow)
    → any_where (λ (r : ConfigRow). r.group_id == g) rs ≡ false
    → All (λ (r : ConfigRow). r.id < n) rs
    → All (IsDistinct (record { config = new_config n g actor; deleted = false })) rs
unfolding new_config
fresh-IsDistinct n g actor [] e h = tt
fresh-IsDistinct n g actor (r ∷ rs) e h =
    ((omega arith, ground arith), fresh-IsDistinct n g actor rs (ground arith) h.1)

new_config-IsSound : (n g actor : ℕ) → IsSound (new_config n g actor)
unfolding new_config
new_config-IsSound n g actor = record {
  scheduled = λ e. cc;
  interval_low = omega arith;
  interval_high = omega arith;
}

insert_config-id : (n g actor : ℕ) → (new_config n g actor).id ≡ n
unfolding new_config
insert_config-id n g actor = refl

-- The INSERT of a config keeps the invariant.
pub insert_config-Inv : (g actor : ℕ) (t : Tables) → Inv t → Inv (insert_config g actor t).1
unfolding insert_config
insert_config-Inv g actor t h =
    elim (Bool-cases (any_where (λ (r : ConfigRow). r.group_id == g) t.configs)) [
      | inl e ↦ rw e h
      | inr e ↦ rw e (record {
        sound = (new_config-IsSound t.next_config_id g actor, h.sound);
        below = (
          rw (insert_config-id t.next_config_id g actor) (omega arith),
          All-weaken _ _ t.configs (λ (r : ConfigRow) (k : r.id < t.next_config_id). omega arith)
              h.below,
        );
        distinct = (fresh-IsDistinct t.next_config_id g actor t.configs e h.below, h.distinct);
      })
    ]

-- What a query for a config finds is sound.
pub config_by_group-IsSound : (g : ℕ) (t : Tables) → Inv t → OptionOf IsSound (config_by_group g t)
unfolding config_by_group
config_by_group-IsSound g t h =
    OptionOf-map IsSound (λ (r : ConfigRow). r.config) _ (first_where-All _ _ t.configs h.sound)

pub config_by_id-IsSound : (i : ℕ) (t : Tables) → Inv t → OptionOf IsSound (config_by_id i t)
unfolding config_by_id
config_by_id-IsSound i t h =
    OptionOf-map IsSound (λ (r : ConfigRow). r.config) _ (first_where-All _ _ t.configs h.sound)
