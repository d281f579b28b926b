-- ===== src/AutoMessage/Denied.antt =====
-- What a user without permission can do to the auto messages of a group
-- (`requireManagePermission` of backend/internal/automessage/service.go): nothing.
use hsgram_admin.Prelude.{
  ℕ, ◌≡◌, refl, sym, ap, ◌∙◌, ◌⊎◌, inl, inr, Bool, true, false, not, ◌&&◌, ◌||◌, Option, none, some,
  ◌==◌, if◌then◌else◌,
}
use mathlib.Core.Path.{subst}
use hsgram_admin.Prelude.Text.{Text}
use hsgram_admin.Sql.{Result, err, fault, run_sql, pure, raise, or_raise, bind_run, ◌>>=◌, ◌>>◌}
use hsgram_admin.Sql.Cases.{skip, statement-cases}
use hsgram_admin.AutoMessage.Types.{
  StoreError, err_no_rows, GroupPermission, Mtproto, no_permission, group_dissolved,
}
use hsgram_admin.AutoMessage.Tables.{Tables}
use hsgram_admin.AutoMessage.Queries.{group_permission}
use hsgram_admin.AutoMessage.Store.{is_at, can_manage, get_permission}
use hsgram_admin.AutoMessage.Service.{
  ServiceError, Service, call_store, map_store_error, require_manage_permission, get_config, save,
  enable, disable, add, update, delete, sort, logs, coded,
}
use hsgram_admin.AutoMessage.History.{
  Request, ask_config, ask_disable, ask_save, ask_enable, ask_add, ask_update, ask_delete, ask_sort,
  ask_logs, Live, answer,
}

in_any_order :
    (a d s c y m h : Bool)
    → (if a || d then false else if c || y then s else if m then s && h else false)
      ≡ not a && (not d && (s && (c || (y || (m && h)))))
in_any_order true d s c y m h = refl
in_any_order false true s c y m h = refl
in_any_order false false true true y m h = refl
in_any_order false false true false true m h = refl
in_any_order false false true false false true h = refl
in_any_order false false true false false false h = refl
in_any_order false false false true y m h = refl
in_any_order false false false false true m h = refl
in_any_order false false false false false true h = refl
in_any_order false false false false false false h = refl

module _ (k : Mtproto) (actor : ℕ) where
  -- A member in the normal state of a group that is not dissolved, who created the group, or has
  -- the creator's rank, or has an administrator's where the group lets these manage.
  abbrev pub is_manager : GroupPermission → Bool
  is_manager p =
      not (actor == 0)
      && (not p.deactivated
          && (is_at p.participant_state k.chat_member_state_normal
              && (p.creator_user_id == actor
                  || (is_at p.participant_type k.chat_member_creator
                      || (is_at p.participant_type k.chat_member_admin && p.admins_can_manage)))))

  abbrev is_manager_of : Option GroupPermission → Bool
  is_manager_of none = false
  is_manager_of (some p) = is_manager p

  abbrev pub may_manage : ℕ → Tables → Bool
  may_manage g t = is_manager_of (group_permission g actor t)

  can_manage-is_manager : (p : GroupPermission) → can_manage k p actor ≡ is_manager p
  unfolding can_manage
  can_manage-is_manager p =
      in_any_order (actor == 0) p.deactivated (is_at p.participant_state k.chat_member_state_normal)
        (p.creator_user_id == actor) (is_at p.participant_type k.chat_member_creator)
        (is_at p.participant_type k.chat_member_admin) p.admins_can_manage

  -- Neither an answer nor a change.
  pub record IsDenied {A : Type 0} (w : Live) (r : Result ServiceError A × Live) : Type 0 where
    pub no_answer : ((e : ServiceError) × (r.0 ≡ err e)) ⊎ (r.0 ≡ fault)
    pub tables : r.1.tables ≡ w.tables
    pub sent : r.1.sent ≡ w.sent

  bind_run-IsDenied :
      {A B : Type 0} (f : A → Service B) (w : Live) (r : Result ServiceError A × Live)
      → IsDenied w r
      → IsDenied w (bind_run f r)
  bind_run-IsDenied f w r d = elim d.no_answer [
    | inl (e, h) ↦
        subst (λ x. IsDenied w (bind_run f x)) (sym (ap (λ x. (x, r.1)) h))
          (record { no_answer = inl (e, refl); tables = d.tables; sent = d.sent })
    | inr h ↦
        subst (λ x. IsDenied w (bind_run f x)) (sym (ap (λ x. (x, r.1)) h))
          (record { no_answer = inr refl; tables = d.tables; sent = d.sent })
  ]

  err-IsDenied :
      (e : ServiceError) (w v : Live)
      → v.tables ≡ w.tables
      → v.sent ≡ w.sent
      → IsDenied {A = Unit {0}} w (err e, v)
  err-IsDenied e w v t s = record { no_answer = inl (e, refl); tables = t; sent = s }

  module _ (w : Live) where
    after_row : (dissolved can : Bool) → Service (Unit {0})
    after_row dissolved can =
        if dissolved
        then raise (coded group_dissolved)
        else if can
        then pure tt
        else raise (coded no_permission)

    after_row-IsDenied :
        (dissolved can : Bool) → can ≡ false → IsDenied w (after_row dissolved can (skip w))
    unfolding run_sql after_row
    after_row-IsDenied true can h = err-IsDenied _ w (skip w) refl refl
    after_row-IsDenied false can h = rw h (err-IsDenied _ w (skip w) refl refl)

    row-IsDenied :
        (o : Option GroupPermission)
        → is_manager_of o ≡ false
        → IsDenied w (
            (call_store map_store_error (or_raise err_no_rows o) >>= λ p.
            after_row p.deactivated (can_manage k p actor))
              (skip w))
    unfolding run_sql
    row-IsDenied none h = err-IsDenied _ w (skip w) refl refl
    row-IsDenied (some p) h =
        after_row-IsDenied p.deactivated (can_manage k p actor) (can_manage-is_manager p ∙ h)

    found-IsDenied :
        (g : ℕ)
        → may_manage g w.tables ≡ false
        → IsDenied w (
            (call_store map_store_error (get_permission g actor) >>= λ p.
            after_row p.deactivated (can_manage k p actor))
              w)
    unfolding run_sql get_permission
    found-IsDenied g denied =
        elim (statement-cases {X = StoreError} (λ t. (group_permission g actor t, t)) w) [
          | inl h ↦ rw h (record { no_answer = inr refl; tables = refl; sent = refl })
          | inr h ↦ rw h (row-IsDenied (group_permission g actor w.tables) denied)
        ]

    unless-IsDenied :
        (c : Bool) (m : Service (Unit {0}))
        → IsDenied w (m w)
        → IsDenied w ((if c then raise (coded no_permission) else m) w)
    unfolding run_sql
    unless-IsDenied true m h = err-IsDenied _ w w refl refl
    unless-IsDenied false m h = h

    require-IsDenied :
        (g : ℕ) → may_manage g w.tables ≡ false → IsDenied w (require_manage_permission k actor g w)
    unfolding require_manage_permission after_row
    require-IsDenied g denied = unless-IsDenied (actor == 0) _ (found-IsDenied g denied)

    barred-IsDenied :
        {A : Type 0} (g : ℕ) (m : Service A)
        → may_manage g w.tables ≡ false
        → IsDenied w ((require_manage_permission k actor g >> m) w)
    unfolding run_sql
    barred-IsDenied g m denied = bind_run-IsDenied _ w _ (require-IsDenied g denied)

    unchanged :
        {A : Type 0} {r : Result ServiceError A × Live}
        → IsDenied w r
        → (r.1.tables ≡ w.tables) × (r.1.sent ≡ w.sent)
    unchanged d = (d.tables, d.sent)

    -- Whichever statements fail: a request of a user who may not manage the group's auto messages
    -- changes no table and sends nothing.
    pub answer-denied :
        (found_rows : Bool) (lower : Text → Text) (g : ℕ) (r : Request)
        → may_manage g w.tables ≡ false
        → ((answer k found_rows lower actor g r w).tables ≡ w.tables)
          × ((answer k found_rows lower actor g r w).sent ≡ w.sent)
    unfolding answer get_config disable save enable add update delete sort logs
    answer-denied found_rows lower g ask_config h = unchanged (barred-IsDenied g _ h)
    answer-denied found_rows lower g ask_disable h = unchanged (barred-IsDenied g _ h)
    answer-denied found_rows lower g (ask_save params now) h = unchanged (barred-IsDenied g _ h)
    answer-denied found_rows lower g (ask_enable minutes now) h = unchanged (barred-IsDenied g _ h)
    answer-denied found_rows lower g (ask_add input) h = unchanged (barred-IsDenied g _ h)
    answer-denied found_rows lower g (ask_update i input) h = unchanged (barred-IsDenied g _ h)
    answer-denied found_rows lower g (ask_delete i) h = unchanged (barred-IsDenied g _ h)
    answer-denied found_rows lower g (ask_sort ids) h = unchanged (barred-IsDenied g _ h)
    answer-denied found_rows lower g (ask_logs page size) h = unchanged (barred-IsDenied g _ h)
