-- ===== src/Users/CutOff.antt =====
-- The calls by which a ban or a kick ends the sessions of a user, and what they add to the list of
-- what is degraded (backend/internal/httpapi/handler.go).
use hsgram_admin.Prelude.{ℕ, ◌≡◌, refl, sym, ap, true, Option, none, some, List, [], ◌∷◌, ◌++◌}
use mathlib.Core.List.{append-nil, append_assoc}
use hsgram_admin.Prelude.Text.{Text, codes}
use hsgram_admin.Sql.{Result, ok, err, fault, World, run_sql, pure, ◌>>=◌}
use hsgram_admin.Sql.Success.{Ends, Success, Success-pure, Success-bind}
use hsgram_admin.Broadcast.Targets.{unique_values}
use hsgram_admin.Users.Types.{Tables, UserError}
use hsgram_admin.Users.Sessions.{
  Event, push_reset, disconnect, Services, Action, unless, tell, online_auth_key_ids,
  session_operation_degraded, push_admin_popup, push_reset_authorization, force_disconnect,
  revoke_user_sessions, on_revoked, cut_off,
}

unfoldable pub reset_label : Text
reset_label = codes "sync_rpc_reset_failed"

unfoldable pub disconnect_label : Text
disconnect_label = codes "gateway_rpc_failed"

pub Ends-Unit :
    {A : Type 0} (r : Result UserError A × World Tables Event)
    → Ends (λ (a : A) (t : Tables). Unit {0}) r
Ends-Unit (ok a, w) = tt
Ends-Unit (err e, w) = tt
Ends-Unit (fault, w) = tt

module _ (v : Services) (user : ℕ) where
  -- What tells of the end of the sessions, where there are keys.
  abbrev pub cuts : List ℕ → List Event
  cuts [] = []
  cuts (k ∷ ks) = push_reset user (k ∷ ks) ∷ disconnect (k ∷ ks) ∷ []

  -- Calls in turn that return no error, behind those before.
  abbrev pub AllAnswered : List Event → List Event → Type 0
  AllAnswered before [] = Unit
  AllAnswered before (e ∷ es) = (v.answers before e ≡ true) × AllAnswered (before ++ (e ∷ [])) es

  -- The degraded list begins with the clients that are not configured.
  abbrev pub Shape : Option (List ℕ × List Text) → Type 0
  Shape none = Unit
  Shape (some (keys, degraded)) =
      (xs : List Text) × (degraded ≡ unique_values (session_operation_degraded v ++ xs) [])

  abbrev pub Shaped : Option (List ℕ × List Text) → Tables → Type 0
  Shaped r t = Shape r

  any : {A : Type 0} (m : Action A) → Success (λ t. Unit {0}) m (λ a t. Unit {0})
  any m = record { run = λ w h. Ends-Unit (m w) }

  on_revoked-Shape :
      (o : List ℕ × List Text) (popups : List Text) (r : Option (List ℕ × List Text))
      → Success (λ t. Unit {0}) (on_revoked v user o popups r) Shaped
  on_revoked-Shape o popups none = Success-pure _ _ none (λ t h. tt)
  on_revoked-Shape (online, s) popups (some (reset, x)) = Success-bind _ _ _ _ _ (any _) (λ a.
      Success-bind _ _ _ _ _ (any _)
        (λ b. Success-pure _ _ _ (λ t h. (s ++ (popups ++ (x ++ (a ++ b))), refl))))

  pub cut_off-Shape : (message : Text) → Success (λ t. Unit {0}) (cut_off v user message) Shaped
  unfolding cut_off
  cut_off-Shape message = Success-bind _ _ _ _ _ (any (push_admin_popup v user message)) (λ p.
      Success-bind _ _ _ _ _ (any (revoke_user_sessions v user))
        (λ r. on_revoked-Shape (online_auth_key_ids v user) p r))

  -- What the two calls add to the degraded list.
  abbrev pub from_reset : List ℕ → List Event → List Text
  from_reset [] before = []
  from_reset (k ∷ ks) before = unless (v.answers before (push_reset user (k ∷ ks))) reset_label

  abbrev pub from_disconnect : List ℕ → List Event → List Text
  from_disconnect [] before = []
  from_disconnect (k ∷ ks) before =
      unless (v.answers (before ++ (push_reset user (k ∷ ks) ∷ [])) (disconnect (k ∷ ks)))
        disconnect_label

  pub cut_keys :
      (f : List Text → List Text → Option (List ℕ × List Text)) (keys : List ℕ)
      (w : World Tables Event)
      → v.has_sync ≡ true
      → v.has_gateway ≡ true
      → (push_reset_authorization v user keys >>= λ a.
            force_disconnect v keys >>= λ b. pure (f a b))
          w
        ≡ (
          ok (f (from_reset keys w.sent) (from_disconnect keys w.sent)),
          record w { sent = w.sent ++ cuts keys },
        )
  unfolding run_sql tell reset_label disconnect_label
  cut_keys f [] w s g =
      rw (s, g)
        (ap (λ (l : List Event). (ok (f [] []), record w { sent = l })) (sym (append-nil w.sent)))
  cut_keys f (k ∷ ks) w s g =
      rw (s, g)
        (ap
          (λ (l : List Event). (
            ok (f (from_reset (k ∷ ks) w.sent) (from_disconnect (k ∷ ks) w.sent)),
            record w { sent = l },
          ))
          (append_assoc w.sent (push_reset user (k ∷ ks) ∷ []) (disconnect (k ∷ ks) ∷ [])))
