-- ===== src/Users/Restricted.antt =====
-- The rows behind SetUserRestricted and KickUserSessions of backend/internal/store/store.go.
use hsgram_admin.Prelude.{
  ℕ, ◌≡◌, refl, ap, inl, inr, true, false, not, ◌&&◌, Bool-cases, List, [], ◌∷◌, arith,
}
use hsgram_admin.Prelude.Lists.{All, length, rows_where, any_where, update_where}
use hsgram_admin.Prelude.Text.{Text, text_eq, text_eq_iff}
use hsgram_admin.Users.Types.{UserRow, SessionRow, Tables}
use hsgram_admin.Users.Store.{has_user_id, is_other, restrict, is_live_of, kick}

-- Each row with the id is restricted for the reason.
abbrev pub IsBarred : ℕ → Text → UserRow → Type 0
IsBarred i reason u =
    has_user_id i u ≡ true → (u.profile.restricted ≡ true) × (u.profile.restriction_reason ≡ reason)

not_other :
    (reason : Text) (u : UserRow)
    → is_other true reason u ≡ false
    → (u.profile.restricted ≡ true) × (u.profile.restriction_reason ≡ reason)
not_other reason u h = elim (Bool-cases u.profile.restricted) [
  | inr n ↦ absurd (let k : true ≡ false = rw n at h in cc)
  | inl y ↦ elim (Bool-cases (text_eq u.profile.restriction_reason reason)) [
    | inl e ↦ (y, (text_eq_iff u.profile.restriction_reason reason).0 e)
    | inr n ↦ absurd (let k : true ≡ false = rw (y, n) at h in cc)
  ]
]

-- The rows of the other users.
abbrev pub others_of : ℕ → List UserRow → List UserRow
others_of i = rows_where (λ u. not (has_user_id i u))

module _ (stamp : ℕ → ℕ) (i : ℕ) (reason : Text) where
  abbrev pub barred : List UserRow → List UserRow
  barred =
      update_where (λ u. has_user_id i u && is_other true reason u) (restrict stamp true reason)

  pub barred-IsBarred : (us : List UserRow) → All (IsBarred i reason) (barred us)
  barred-IsBarred [] = tt
  barred-IsBarred (u ∷ us) = elim (Bool-cases (has_user_id i u)) [
    | inr n ↦ rw n ((λ h. absurd (cc)), barred-IsBarred us)
    | inl y ↦ elim (Bool-cases (is_other true reason u)) [
      | inl e ↦ rw (y, e) ((λ h. (refl, refl)), barred-IsBarred us)
      | inr e ↦ rw (y, e) ((λ h. not_other reason u e), barred-IsBarred us)
    ]
  ]

  pub barred-others : (us : List UserRow) → others_of i (barred us) ≡ others_of i us
  barred-others [] = refl
  barred-others (u ∷ us) = elim (Bool-cases (has_user_id i u)) [
    | inr n ↦ rw (n, n) (ap (◌∷◌ u) (barred-others us))
    | inl y ↦ elim (Bool-cases (is_other true reason u)) [
      | inl e ↦ rw (y, e, y) (barred-others us)
      | inr e ↦ rw (y, e, y) (barred-others us)
    ]
  ]

-- The statement of KickUserSessions.
abbrev pub kick_rows : ℕ → Tables → ℕ × Tables
kick_rows i t = (
  length (rows_where (is_live_of i) t.sessions),
  record t { sessions = update_where (is_live_of i) kick t.sessions },
)

pub none_live :
    (i : ℕ) (ss : List SessionRow)
    → any_where (is_live_of i) (update_where (is_live_of i) kick ss) ≡ false
none_live i [] = refl
none_live i (s ∷ ss) = elim (Bool-cases (is_live_of i s)) [
  | inl y ↦ rw (y, none_live i ss) (ground arith)
  | inr n ↦ rw (n, n) (none_live i ss)
]
