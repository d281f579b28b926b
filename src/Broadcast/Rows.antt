-- ===== src/Broadcast/Rows.antt =====
-- The rows of the broadcasts, before and behind a run of one of them.
use hsgram_admin.Prelude.{
  ℕ, suc, ◌+◌, ◌≤◌, ◌≡◌, ◌≢◌, refl, sym, ap, ◌∙◌, inl, inr, Bool, true, false, Bool-cases, some,
  List, [], ◌∷◌, ◌==◌, if◌then◌else◌, arith,
}
use hsgram_admin.Prelude.Lists.{All, AllPairs, first_where, any_where, update_where}
use hsgram_admin.Broadcast.Types.{
  BroadcastStatus, pending, running, completed, failed, BroadcastRecord,
}
use hsgram_admin.Broadcast.Queue.{is_pending, is_running, has_id, can_claim}

-- Neither waiting nor at work.
abbrev pub is_open : BroadcastStatus → Bool
is_open completed = false
is_open failed = false
is_open pending = true
is_open running = true

abbrev pub IsOtherRow : BroadcastRecord → BroadcastRecord → Type 0
IsOtherRow r q = r.id ≢ q.id

-- How many rows have a status with a property.
abbrev pub count_status : (BroadcastStatus → Bool) → List BroadcastRecord → ℕ
count_status p [] = 0
count_status p (r ∷ rs) = (if p r.status then 1 else 0) + count_status p rs

-- The same rows, where only those with the id `i` may have another status.
abbrev pub Touched : ℕ → List BroadcastRecord → List BroadcastRecord → Type 0
Touched i [] [] = Unit
Touched i [] (q ∷ qs) = ⊥
Touched i (r ∷ rs) [] = ⊥
Touched i (r ∷ rs) (q ∷ qs) =
    (q.id ≡ r.id) × (has_id i r ≡ false → q.status ≡ r.status) × Touched i rs qs

-- The same rows, where those with the id `i` are closed and the others have the old status.
abbrev pub Settled : ℕ → List BroadcastRecord → List BroadcastRecord → Type 0
Settled i [] [] = Unit
Settled i [] (q ∷ qs) = ⊥
Settled i (r ∷ rs) [] = ⊥
Settled i (r ∷ rs) (q ∷ qs) =
    (q.id ≡ r.id)
    × (has_id i r ≡ true → is_open q.status ≡ false)
    × (has_id i r ≡ false → q.status ≡ r.status)
    × Settled i rs qs

module _ (i : ℕ) where
  pub Touched-refl : (rs : List BroadcastRecord) → Touched i rs rs
  Touched-refl [] = tt
  Touched-refl (r ∷ rs) = (refl, λ e. refl, Touched-refl rs)

  -- An update that reaches only rows with the id.
  pub Touched-update :
      (p : BroadcastRecord → Bool) (f : BroadcastRecord → BroadcastRecord)
      → ((r : BroadcastRecord) → p r ≡ true → has_id i r ≡ true)
      → ((r : BroadcastRecord) → (f r).id ≡ r.id)
      → (rs qs : List BroadcastRecord) → Touched i rs qs
      → Touched i rs (update_where p f qs)
  Touched-update p f own same [] [] h = tt
  Touched-update p f own same [] (q ∷ qs) h = elim h [ ]
  Touched-update p f own same (r ∷ rs) [] h = elim h [ ]
  Touched-update p f own same (r ∷ rs) (q ∷ qs) h = elim (Bool-cases (p q)) [
    | inl y ↦
        let mine : has_id i r ≡ true = ap (λ n. n == i) (sym h.0) ∙ own q y in
        rw y (same q ∙ h.0, λ e. absurd (cc), Touched-update p f own same rs qs h.2)
    | inr n ↦ rw n (h.0, h.1, Touched-update p f own same rs qs h.2)
  ]

  others-Settled :
      (rs qs : List BroadcastRecord)
      → All (λ r. has_id i r ≡ false) rs
      → Touched i rs qs
      → Settled i rs qs
  others-Settled [] [] a h = tt
  others-Settled [] (q ∷ qs) a h = elim h [ ]
  others-Settled (r ∷ rs) [] a h = elim h [ ]
  others-Settled (r ∷ rs) (q ∷ qs) a h =
      (h.0, λ e. absurd (let n = a.0 in cc), h.1, others-Settled rs qs a.1 h.2)

  others :
      (r : BroadcastRecord) (rs : List BroadcastRecord)
      → has_id i r ≡ true
      → All (IsOtherRow r) rs
      → All (λ q. has_id i q ≡ false) rs
  others r [] e h = tt
  others r (q ∷ qs) e h = (ground (arith, h.0), others r qs e h.1)

  -- Where the first row with the id is closed and the ids are different, the rows are settled.
  pub Touched-Settled :
      (rs qs : List BroadcastRecord) (b : BroadcastRecord)
      → AllPairs IsOtherRow rs
      → Touched i rs qs
      → first_where (has_id i) qs ≡ some b
      → is_open b.status ≡ false
      → Settled i rs qs
  Touched-Settled [] [] b d h e c = tt
  Touched-Settled [] (q ∷ qs) b d h e c = elim h [ ]
  Touched-Settled (r ∷ rs) [] b d h e c = elim h [ ]
  Touched-Settled (r ∷ rs) (q ∷ qs) b d h e c = elim (Bool-cases (has_id i q)) [
    | inl y ↦
        let mine : has_id i r ≡ true = ap (λ n. n == i) (sym h.0) ∙ y in
        let first : some q ≡ some b = rw y at e in
        let closed : is_open q.status ≡ false = cc in
        (h.0, λ m. closed, h.1, others-Settled rs qs (others r rs mine d.0) h.2)
    | inr n ↦
        let other : has_id i r ≡ false = ap (λ n. n == i) (sym h.0) ∙ n in
        (h.0, λ m. absurd (cc), h.1, Touched-Settled rs qs b d.1 h.2 (rw n at e) c)
  ]

IsOther-Settled :
    (i : ℕ) (r q : BroadcastRecord) (rs qs : List BroadcastRecord)
    → q.id ≡ r.id
    → All (IsOtherRow r) rs
    → Settled i rs qs
    → All (IsOtherRow q) qs
IsOther-Settled i r q [] [] e h s = tt
IsOther-Settled i r q [] (k ∷ ks) e h s = elim s [ ]
IsOther-Settled i r q (m ∷ ms) [] e h s = elim s [ ]
IsOther-Settled i r q (m ∷ ms) (k ∷ ks) e h s =
    (λ g. h.0 (sym e ∙ g ∙ s.0), IsOther-Settled i r q ms ks e h.1 s.3)

module _ (i : ℕ) where
  pub Settled-distinct :
      (rs qs : List BroadcastRecord)
      → AllPairs IsOtherRow rs
      → Settled i rs qs
      → AllPairs IsOtherRow qs
  Settled-distinct [] [] d s = tt
  Settled-distinct [] (q ∷ qs) d s = elim s [ ]
  Settled-distinct (r ∷ rs) [] d s = elim s [ ]
  Settled-distinct (r ∷ rs) (q ∷ qs) d s =
      (IsOther-Settled i r q rs qs s.0 d.0 s.3, Settled-distinct rs qs d.1 s.3)

  not_running : (t : BroadcastStatus) → is_open t ≡ false → is_running t ≡ false
  not_running completed e = refl
  not_running failed e = refl
  not_running pending e = refl
  not_running running e = absurd (cc)

  pub Settled-not_running :
      (rs qs : List BroadcastRecord)
      → All (λ (r : BroadcastRecord). is_running r.status ≡ false) rs
      → Settled i rs qs
      → All (λ (r : BroadcastRecord). is_running r.status ≡ false) qs
  Settled-not_running [] [] h s = tt
  Settled-not_running [] (q ∷ qs) h s = elim s [ ]
  Settled-not_running (r ∷ rs) [] h s = elim s [ ]
  Settled-not_running (r ∷ rs) (q ∷ qs) h s = (
    elim (Bool-cases (has_id i r)) [
      | inl y ↦ not_running q.status (s.1 y)
      | inr n ↦ ap is_running (s.2 n) ∙ h.0
    ],
    Settled-not_running rs qs h.1 s.3,
  )

  not_pending : (t : BroadcastStatus) → is_open t ≡ false → is_pending t ≡ false
  not_pending completed e = refl
  not_pending failed e = refl
  not_pending pending e = absurd (cc)
  not_pending running e = refl

  pub Settled-fewer :
      (rs qs : List BroadcastRecord)
      → Settled i rs qs
      → count_status is_pending qs ≤ count_status is_pending rs
  Settled-fewer [] [] s = omega arith
  Settled-fewer [] (q ∷ qs) s = elim s [ ]
  Settled-fewer (r ∷ rs) [] s = elim s [ ]
  Settled-fewer (r ∷ rs) (q ∷ qs) s =
      let rest = Settled-fewer rs qs s.3 in
      elim (Bool-cases (has_id i r)) [
        | inl y ↦ rw (not_pending q.status (s.1 y)) (ground (arith, rest))
        | inr n ↦ rw (s.2 n) (omega (arith, rest))
      ]

  -- The row with the id was pending.
  pub Settled-one_fewer :
      (rs qs : List BroadcastRecord)
      → any_where (can_claim i) rs ≡ true
      → Settled i rs qs
      → suc (count_status is_pending qs) ≤ count_status is_pending rs
  Settled-one_fewer [] qs a s = absurd (cc)
  Settled-one_fewer (r ∷ rs) [] a s = elim s [ ]
  Settled-one_fewer (r ∷ rs) (q ∷ qs) a s = elim (Bool-cases (has_id i r)) [
    | inl y ↦
        let few = Settled-fewer rs qs s.3 in
        elim (Bool-cases (is_pending r.status)) [
          | inl p ↦ rw (not_pending q.status (s.1 y), p) (omega (arith, few))
          | inr m ↦
              let rest = Settled-one_fewer rs qs (rw (y, m) at a) s.3 in
              rw (not_pending q.status (s.1 y), m) (omega (arith, rest))
        ]
    | inr n ↦ let rest = Settled-one_fewer rs qs (rw n at a) s.3 in rw (s.2 n) (omega (arith, rest))
  ]
