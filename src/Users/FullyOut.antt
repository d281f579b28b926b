-- ===== src/Users/FullyOut.antt =====
-- Where nothing is degraded, a ban or a kick has ended the sessions of the user
-- (backend/internal/httpapi/handler.go).
use hsgram_admin.Prelude.{
  ℕ, ◌≡◌, refl, sym, ap, ◌∙◌, inl, inr, true, false, Option, none, some, Option-cases, List, [],
  ◌∷◌, ◌++◌, ◌==◌, not, ◌&&◌, ◌||◌, arith,
}
use mathlib.Core.Path.{subst}
use mathlib.Core.List.{append-nil}
use hsgram_admin.Prelude.Lists.{contains}
use hsgram_admin.Prelude.Distinct.{Distinct, contains-append}
use hsgram_admin.Settings.FreshIds.{contains-fresh_ids, fresh_ids-Distinct}
use hsgram_admin.Prelude.Text.{Text, codes, trim, is_empty}
use hsgram_admin.Sql.{ok, World, run_sql}
use hsgram_admin.Sql.Success.{Ends}
use hsgram_admin.Broadcast.Targets.{unique_values}
use hsgram_admin.Users.Types.{Tables}
use hsgram_admin.Users.Sessions.{
  Event, popup, reset_all, push_reset, disconnect, Services, unless, merge_auth_key_ids, is_some,
  keys_or_nil, tell, online_auth_key_ids, session_operation_degraded, revoke_user_sessions,
  on_revoked, cut_off,
}
use hsgram_admin.Users.Degraded.{unless_nil, IsComplete, degraded-IsComplete}
use hsgram_admin.Users.CutOff.{
  cuts, AllAnswered, Shaped, cut_off-Shape, reset_label, disconnect_label, from_reset,
  from_disconnect, cut_keys,
}

merge_auth_key_ids-Distinct : (a b : List ℕ) → Distinct (merge_auth_key_ids a b)
unfolding merge_auth_key_ids
merge_auth_key_ids-Distinct a b = fresh_ids-Distinct [] (a ++ b)

merge_auth_key_ids-contains :
    (k : ℕ) (a b : List ℕ)
    → contains k (merge_auth_key_ids a b) ≡ (not (k == 0) && (contains k a || contains k b))
unfolding merge_auth_key_ids
merge_auth_key_ids-contains k a b =
    let e = contains-fresh_ids k [] (a ++ b) in let d = contains-append k a b in ground arith

-- Merging once more adds no key and loses none.
merged_twice-contains :
    (k : ℕ) (a b : List ℕ)
    → contains k (merge_auth_key_ids (merge_auth_key_ids a []) b)
      ≡ (not (k == 0) && (contains k a || contains k b))
merged_twice-contains k a b =
    let e = merge_auth_key_ids-contains k (merge_auth_key_ids a []) b in
    let d = merge_auth_key_ids-contains k a [] in ground arith

module _ (v : Services) (user : ℕ) (message : Text) (filled : is_empty (trim message) ≡ false) where
  -- What has been sent once the user was told, and once the sessions were revoked.
  abbrev pub told : List Event → List Event
  told before = before ++ (popup user message ∷ [])

  abbrev pub revoked_then : List Event → List Event
  revoked_then before = told before ++ (reset_all user ∷ [])

  -- Nothing is left out and nothing failed: the user was told, all authorizations were reset, and, if there
  -- are keys, those that are not 0 and were online or were reset, they were pushed a reset and were disconnected.
  pub record FullyOut (before : List Event) (keys : List ℕ) (after : List Event) : Type 0 where
    pub online : List ℕ
    pub reset : List ℕ
    pub known : v.online user ≡ some online
    pub shown : v.answers before (popup user message) ≡ true
    pub revoked : v.revoked (told before) user ≡ some reset
    pub all_keys :
        (k : ℕ) → contains k keys ≡ (not (k == 0) && (contains k online || contains k reset))
    pub once : Distinct keys
    pub cut : AllAnswered v user (revoked_then before) (cuts v user keys)
    pub sent : after ≡ revoked_then before ++ cuts v user keys

  abbrev all_keys_of : List ℕ → List ℕ
  all_keys_of reset = merge_auth_key_ids (merge_auth_key_ids (keys_or_nil (v.online user)) []) reset

  abbrev after_popup : List Event → List Text
  after_popup before =
      unless (v.answers before (popup user message)) (codes "sync_rpc_popup_failed")

  abbrev status_part : List Text
  status_part = unless (is_some (v.online user)) (codes "status_rpc_failed")

  abbrev other_parts : List Event → List ℕ → List Text
  other_parts before keys =
      status_part
      ++ (after_popup before
          ++ ([]
              ++ (from_reset v user keys (revoked_then before)
                  ++ from_disconnect v user keys (revoked_then before))))

  told_and_revoked :
      (w : World Tables Event) (reset : List ℕ)
      → IsComplete v
      → v.revoked (told w.sent) user ≡ some reset
      → cut_off v user message w
        ≡ on_revoked v user
            (online_auth_key_ids v user)
            (after_popup w.sent)
            (some (reset, []))
            (record w { sent = revoked_then w.sent })
  unfolding cut_off tell revoke_user_sessions run_sql
  told_and_revoked w reset c e = rw (c.sync, filled, c.authsessions, e) refl

  online_keys :
      v.has_status ≡ true
      → online_auth_key_ids v user
        ≡ (merge_auth_key_ids (keys_or_nil (v.online user)) [], status_part)
  online_keys e = rw e refl

  cut_off-run :
      (w : World Tables Event) (reset : List ℕ)
      → IsComplete v
      → v.revoked (told w.sent) user ≡ some reset
      → cut_off v user message w ≡ (
        ok (
            some (
              all_keys_of reset,
              unique_values
                  (session_operation_degraded v ++ other_parts w.sent (all_keys_of reset))
                  [],
            )),
        record w { sent = revoked_then w.sent ++ cuts v user (all_keys_of reset) },
      )
  cut_off-run w reset c e =
      told_and_revoked w reset c e
      ∙ ap
          (λ (o : List ℕ × List Text).
            on_revoked v user o (after_popup w.sent) (some (reset, []))
              (record w { sent = revoked_then w.sent }))
          (online_keys c.status)
      ∙ cut_keys v user
          (λ a b. some (
            all_keys_of reset,
            unique_values
                (session_operation_degraded v
                  ++ (status_part ++ (after_popup w.sent ++ ([] ++ (a ++ b)))))
                [],
          ))
          (all_keys_of reset) (record w { sent = revoked_then w.sent }) c.sync c.gateway

  cut_off-none :
      (w : World Tables Event)
      → IsComplete v
      → v.revoked (told w.sent) user ≡ none
      → (cut_off v user message w).0 ≡ ok none
  unfolding cut_off tell revoke_user_sessions run_sql
  cut_off-none w c e = rw (c.sync, filled, c.authsessions, e) refl

  cuts-AllAnswered :
      (keys : List ℕ) (before : List Event)
      → unique_values (from_reset v user keys before ++ from_disconnect v user keys before) [] ≡ []
      → AllAnswered v user before (cuts v user keys)
  unfolding codes trim reset_label disconnect_label
  cuts-AllAnswered [] before h = tt
  cuts-AllAnswered (k ∷ ks) before h =
      let (a, h₁) = unless_nil (v.answers before (push_reset user (k ∷ ks))) reset_label _ refl h in
      let last = v.answers (before ++ (push_reset user (k ∷ ks) ∷ [])) (disconnect (k ∷ ks)) in
      let (b, h₂) =
        unless_nil last disconnect_label [] refl
          (ap (λ ys. unique_values ys []) (append-nil (unless last disconnect_label)) ∙ h₁) in
      (a, (b, tt))

  known_keys :
      (o : Option (List ℕ))
      → is_some o ≡ true
      → (ks : List ℕ) × (o ≡ some ks) × (keys_or_nil o ≡ ks)
  known_keys none e = absurd (cc)
  known_keys (some ks) e = (ks, refl, refl)

  answered-FullyOut :
      (before : List Event) (reset : List ℕ)
      → v.revoked (told before) user ≡ some reset
      → unique_values (other_parts before (all_keys_of reset)) [] ≡ []
      → FullyOut before (all_keys_of reset) (revoked_then before ++ cuts v user (all_keys_of reset))
  unfolding codes trim
  answered-FullyOut before reset e h =
      let (a, h₁) = unless_nil (is_some (v.online user)) (codes "status_rpc_failed") _ refl h in
      let (b, h₂) =
        unless_nil (v.answers before (popup user message)) (codes "sync_rpc_popup_failed") _ refl
          h₁ in
      let (online, known, same) = known_keys (v.online user) a in
      record {
        online = online;
        reset = reset;
        known = known;
        shown = b;
        revoked = e;
        all_keys = λ k.
            merged_twice-contains k (keys_or_nil (v.online user)) reset
            ∙ ap (λ ks. not (k == 0) && (contains k ks || contains k reset)) same;
        once =
            merge_auth_key_ids-Distinct (merge_auth_key_ids (keys_or_nil (v.online user)) []) reset;
        cut = cuts-AllAnswered (all_keys_of reset) (revoked_then before) h₂;
        sent = refl;
      }

  -- Where nothing is degraded, the user is fully out.
  pub cut_off-FullyOut :
      (w u : World Tables Event) (keys : List ℕ)
      → cut_off v user message w ≡ (ok (some (keys, [])), u)
      → FullyOut w.sent keys u.sent
  cut_off-FullyOut w u keys e =
      let (xs, shape) = subst (Ends (Shaped v user)) e ((cut_off-Shape v user message).run w tt) in
      let complete = (degraded-IsComplete v xs (sym shape)).0 in
      elim (Option-cases (v.revoked (told w.sent) user)) [
        | inl n ↦ absurd (let h = cut_off-none w complete n in let k = ap (λ x. x.0) e in cc)
        | inr (reset, r) ↦
            let run = sym (cut_off-run w reset complete r) ∙ e in
            let same_keys : all_keys_of reset ≡ keys = cc in
            let nil : unique_values
                  (session_operation_degraded v ++ other_parts w.sent (all_keys_of reset)) []
                ≡ [] =
              cc in
            let same : revoked_then w.sent ++ cuts v user (all_keys_of reset) ≡ u.sent =
              ap (λ x. x.1.sent) run in
            let out = answered-FullyOut w.sent reset r (degraded-IsComplete v _ nil).1 in
            subst (λ ks. FullyOut w.sent ks u.sent) same_keys
              (subst (FullyOut w.sent (all_keys_of reset)) same out)
      ]
