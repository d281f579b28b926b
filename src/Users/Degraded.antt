-- ===== src/Users/Degraded.antt =====
-- What an empty list of degraded services means (handler.go).
use hsgram_admin.Prelude.{
  ◌≡◌, ◌≢◌, refl, sym, ap, ◌∙◌, Bool, true, false, ◌||◌, List, [], ◌∷◌, ◌++◌,
}
use mathlib.Core.Path.{subst}
use mathlib.Core.List.{append_assoc}
use hsgram_admin.Prelude.Text.{Text, codes, trim, is_empty}
use hsgram_admin.Broadcast.Targets.{unique_values}
use hsgram_admin.Users.Sessions.{Services, unless, session_operation_degraded}

-- The first value, by whether it is left out.
abbrev first_kept : Bool → Text → List Text → List Text
first_kept c x xs = elim c [
  | true ↦ unique_values xs []
  | false ↦ trim x ∷ unique_values xs (trim x ∷ [])
]

or_nothing : (b : Bool) → b ≡ false → (b || false) ≡ false
or_nothing true e = e
or_nothing false e = refl

not_nil : (x : Text) (xs : List Text) → is_empty (trim x) ≡ false → unique_values (x ∷ xs) [] ≢ []
not_nil x xs n =
    subst (λ c. first_kept c x xs ≢ []) (sym (or_nothing (is_empty (trim x)) n)) (λ h. cc)

pub unless_nil :
    (b : Bool) (label : Text) (xs : List Text)
    → is_empty (trim label) ≡ false
    → unique_values (unless b label ++ xs) [] ≡ []
    → (b ≡ true) × (unique_values xs [] ≡ [])
unless_nil true label xs n h = (refl, h)
unless_nil false label xs n h = absurd (not_nil label xs n h)

-- Every client is configured.
pub record IsComplete (v : Services) : Type 0 where
  pub status : v.has_status ≡ true
  pub sync : v.has_sync ≡ true
  pub gateway : v.has_gateway ≡ true
  pub authsessions : v.has_authsessions ≡ true

-- The list with brackets to the right.
regrouped :
    (v : Services) (xs : List Text)
    → session_operation_degraded v ++ xs
      ≡ unless v.has_status (codes "status_rpc_unavailable")
        ++ (unless v.has_sync (codes "sync_rpc_unavailable")
            ++ (unless v.has_gateway (codes "gateway_rpc_unavailable")
                ++ (unless v.has_authsessions (codes "authsession_rpc_unavailable") ++ xs)))
regrouped v xs = simp append_assoc

pub degraded-IsComplete :
    (v : Services) (xs : List Text)
    → unique_values (session_operation_degraded v ++ xs) [] ≡ []
    → IsComplete v × (unique_values xs [] ≡ [])
unfolding codes trim
degraded-IsComplete v xs h =
    let h₀ = sym (ap (λ ys. unique_values ys []) (regrouped v xs)) ∙ h in
    let (a, h₁) = unless_nil v.has_status (codes "status_rpc_unavailable") _ refl h₀ in
    let (b, h₂) = unless_nil v.has_sync (codes "sync_rpc_unavailable") _ refl h₁ in
    let (c, h₃) = unless_nil v.has_gateway (codes "gateway_rpc_unavailable") _ refl h₂ in
    let (e, h₄) = unless_nil v.has_authsessions (codes "authsession_rpc_unavailable") xs refl h₃ in
    (record { status = a; sync = b; gateway = c; authsessions = e }, h₄)
