-- ===== src/Settings/Live.antt =====
-- The check of saveDefaultAdminContacts against the users: backend/internal/store/runtime_settings.go.
use hsgram_admin.Prelude.{
  ℕ, ◌≡◌, refl, sym, ap, ◌∙◌, Bool, true, false, not, ◌&&◌, ◌||◌, List, [], ◌∷◌, map, inl, inr,
  arith, ◌==◌, ==_iff, Bool-cases,
}
use mathlib.Core.Path.{subst}
use hsgram_admin.Prelude.Lists.{All, contains, length, rows_where, any_where}
use hsgram_admin.Prelude.Distinct.{
  Distinct, contains-rows_where, Distinct-rows_where, length-SameMembers, length-rows_where,
  All-length, length-All,
}
use hsgram_admin.Settings.{UserRow, normalize_user_id_list}
use hsgram_admin.Settings.FreshIds.{contains-fresh_ids, fresh_ids-Distinct}

-- A user with this id is there who is not deleted.
abbrev pub is_live : List UserRow → ℕ → Bool
is_live users i = any_where (λ (u : UserRow). u.id == i && not u.deleted) users

-- Each id that is given and not 0 is that of such a user.
abbrev pub EachLive : List UserRow → List ℕ → Type 0
EachLive users ids = All (λ k. (k == 0 || is_live users k) ≡ true) ids

-- The ids among some that are those of users.
unfoldable pub existing_of : List ℕ → List UserRow → List ℕ
existing_of wanted users = normalize_user_id_list (
    map (λ (u : UserRow). u.id)
      (rows_where (λ (u : UserRow). not u.deleted && contains u.id wanted) users))

pub contains-normalize :
    (k : ℕ) (ids : List ℕ)
    → contains k (normalize_user_id_list ids) ≡ (not (k == 0) && contains k ids)
unfolding normalize_user_id_list
contains-normalize k ids = let e = contains-fresh_ids k [] ids in ground arith

pub normalize-Distinct : (ids : List ℕ) → Distinct (normalize_user_id_list ids)
unfolding normalize_user_id_list
normalize-Distinct ids = fresh_ids-Distinct [] ids

left_out :
    (u : UserRow) (us : List UserRow) (k : ℕ) (wanted : List ℕ)
    → (not u.deleted && contains u.id wanted) ≡ false
    → (is_live us k && contains k wanted) ≡ (is_live (u ∷ us) k && contains k wanted)
left_out u us k wanted n = elim (Bool-cases (u.id == k)) [
  | inl e ↦
      let no : (not u.deleted && contains k wanted) ≡ false =
        subst (λ z. (not u.deleted && contains z wanted) ≡ false) ((==_iff u.id k).0 e) n in
      ground arith
  | inr d ↦ rw d refl
]

contains-rows :
    (k : ℕ) (wanted : List ℕ) (users : List UserRow)
    → contains k (
        map
          (λ (u : UserRow). u.id)
          (rows_where (λ (u : UserRow). not u.deleted && contains u.id wanted) users))
      ≡ (is_live users k && contains k wanted)
contains-rows k wanted [] = refl
contains-rows k wanted (u ∷ us) =
    let rest = contains-rows k wanted us in
    elim (Bool-cases (not u.deleted && contains u.id wanted)) [
      | inl y ↦ elim (Bool-cases (u.id == k)) [
        | inl e ↦
            let there : contains u.id wanted ≡ true = ground arith in
            let wants : contains k wanted ≡ true =
              subst (λ z. contains z wanted ≡ true) ((==_iff u.id k).0 e) there in
            let live : u.deleted ≡ false = ground arith in rw (y, e, live, wants) refl
        | inr d ↦ rw (y, d) rest
      ]
      | inr n ↦ rw n (rest ∙ left_out u us k wanted n)
    ]

-- What is wanted is not 0.
shuffle : (a b x y : Bool) → x ≡ (a && y) → (a && (b && x)) ≡ (b && x)
shuffle a b x y e = ground arith

All-contains : (P : ℕ → Type 0) (xs : List ℕ) → ((k : ℕ) → contains k xs ≡ true → P k) → All P xs
All-contains P [] h = tt
All-contains P (x ∷ xs) h =
    let self : (x == x) ≡ true = ground arith in
    (h x (rw self refl), All-contains P xs (λ k there. h k (ground arith)))

contains-All : (P : ℕ → Type 0) (xs : List ℕ) → All P xs → (k : ℕ) → contains k xs ≡ true → P k
contains-All P [] h k there = cc
contains-All P (x ∷ xs) h k there = elim (Bool-cases (x == k)) [
  | inl e ↦ subst P ((==_iff x k).0 e) h.0
  | inr d ↦ contains-All P xs h.1 k (rw d at there)
]

module _ (users : List UserRow) (ids : List ℕ) where
  abbrev wanted : List ℕ
  wanted = normalize_user_id_list ids

  existing-SameMembers :
      (k : ℕ)
      → contains k (existing_of wanted users) ≡ contains k (rows_where (is_live users) wanted)
  unfolding existing_of
  existing-SameMembers k =
      let a = contains-normalize k _ in
      let b = contains-rows k wanted users in
      let c = contains-normalize k ids in
      let d = contains-rows_where (is_live users) k wanted in
      a ∙ ap (λ x. not (k == 0) && x) b ∙ shuffle (not (k == 0)) (is_live users k) _ _ c ∙ sym d

  length-existing : length (existing_of wanted users) ≡ length (rows_where (is_live users) wanted)
  unfolding existing_of
  length-existing =
      length-SameMembers _ _ (normalize-Distinct _)
        (Distinct-rows_where (is_live users) wanted (normalize-Distinct ids)) existing-SameMembers

  -- As many are found as are wanted exactly if each that is given is found.
  pub EachLive-found : EachLive users ids → length (existing_of wanted users) ≡ length wanted
  EachLive-found h =
      length-existing
      ∙ length-All (is_live users) wanted (
          All-contains _ wanted (λ k there.
            let e = contains-normalize k ids in
            let live = contains-All _ ids h k (ground arith) in ground arith))

  pub found-EachLive : length (existing_of wanted users) ≡ length wanted → EachLive users ids
  found-EachLive e =
      let live = All-length (is_live users) wanted (sym length-existing ∙ e) in
      All-contains _ ids (λ k there. elim (Bool-cases (k == 0)) [
        | inl y ↦ rw y refl
        | inr n ↦ rw n (
            contains-All (λ x. is_live users x ≡ true) wanted live k
              (contains-normalize k ids ∙ rw (n, there) refl))
      ])

  -- Where nothing is wanted, nothing is missed.
  pub none_wanted : (length wanted == 0) ≡ true → length (existing_of wanted users) ≡ length wanted
  none_wanted h =
      let e = length-existing in let l = length-rows_where (is_live users) wanted in ground arith
