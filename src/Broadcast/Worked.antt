-- ===== src/Broadcast/Worked.antt =====
-- One call of processNext of backend/internal/broadcast/service.go works off one broadcast.
use hsgram_admin.Prelude.{
  ℕ, ◌<◌, ◌≡◌, refl, sym, ap, ◌∙◌, inl, inr, Bool, true, false, Bool-cases, Option, none, some,
  Option-cases, List, [], ◌∷◌, ◌++◌, map, ◌==◌, ◌⊎◌, arith,
}
use mathlib.Core.Path.{subst}
use hsgram_admin.Prelude.Lists.{
  AllPairs, length, contains, first_where, any_where, update_where, order_by, first_where-any,
}
use hsgram_admin.Prelude.Queries.{length-rows_where_le, any_where-order_by, none_where}
use hsgram_admin.Prelude.Text.{codes}
use hsgram_admin.Sql.{quiet, run_sql}
use hsgram_admin.Broadcast.Types.{TargetSpec, BroadcastRecord, BroadcastTables, UserMessage}
use hsgram_admin.Broadcast.Targets.{recipient_where, count_recipients}
use hsgram_admin.Broadcast.Queue.{
  is_pending, has_id, can_claim, start, broadcast_before, id_of, next_pending, claim_row,
  claim_next, get_broadcast,
}
use hsgram_admin.Broadcast.Service.{Outside}
use hsgram_admin.Broadcast.Delivery.{run_broadcast, process_next}
use hsgram_admin.Broadcast.Kept.{row_ids}
use hsgram_admin.Broadcast.Closing.{
  Outcome, outcome_of, verdict, give_up-Closed, length-recipients_in,
}
use hsgram_admin.Broadcast.Reach.{run_broadcast-RunOf}
use hsgram_admin.Broadcast.Tally.{won, lost}
use hsgram_admin.Broadcast.Rows.{
  is_open, IsOtherRow, Settled, Touched-refl, Touched-update, Touched-Settled,
}
use hsgram_admin.Broadcast.Touch.{sum-cases, run_broadcast-Keeps}

abbrev IsClosed : Option Outcome → Type 0
IsClosed none = ⊥
IsClosed (some x) = is_open x.0 ≡ false

verdict-IsClosed : (s f : ℕ) → is_open (verdict s f).0 ≡ false
verdict-IsClosed s f = elim (Bool-cases (s == 0)) [ inl y ↦ rw y refl | inr n ↦ rw n refl ]

module _ (o : Outside) (now fuel : ℕ) (b : BroadcastRecord) (t : BroadcastTables)
    (s : List UserMessage) (enough : length t.users < fuel)
    (there : contains b.id (row_ids t) ≡ true) where
  abbrev After : Type 0
  After = IsClosed (outcome_of b.id (run_broadcast o now fuel b (quiet t s)).1.tables)

  -- However the target reads, a run closes the row.
  closes-spec : (spec : TargetSpec) → o.unmarshal b.target_spec ≡ inr spec → After
  unfolding run_sql run_broadcast count_recipients
  closes-spec spec read = elim (sum-cases (recipient_where o.same_text spec)) [
    | inl (e, bad) ↦
        rw (run_broadcast, read, bad)
          (rw ((give_up-Closed o now b 0 0 (o.error_text e) (quiet t s)).final refl there) refl)
    | inr (p, good) ↦
        let few = length-rows_where_le p t.users in
        let same = length-recipients_in p t in
        let run = run_broadcast-RunOf o now b spec p good fuel (quiet t s) read (omega arith) in
        rw (run.final refl there) (verdict-IsClosed (won o b 0 s run.done) (lost o b 0 s run.done))
  ]

  closes : After
  unfolding run_broadcast
  closes = elim (sum-cases (o.unmarshal b.target_spec)) [
    | inl (message, e) ↦
        rw (run_broadcast, e)
          (rw
            ((give_up-Closed o now b 0 0 (codes "invalid target spec: " ++ message)
                (quiet t s)).final
              refl there)
            refl)
    | inr (spec, e) ↦ closes-spec spec e
  ]

abbrev pub waiting : BroadcastRecord → Bool
waiting r = is_pending r.status

-- Who is next: nobody where nobody waits, and else a row that waits.
pub next_pending-cases :
    (t : BroadcastTables)
    → ((next_pending t ≡ none) × (any_where waiting t.broadcasts ≡ false))
      ⊎ ((i : ℕ) × (next_pending t ≡ some i) × (any_where (can_claim i) t.broadcasts ≡ true))
unfolding next_pending
next_pending-cases t =
    let rows = order_by broadcast_before t.broadcasts in
    elim (Option-cases (first_where waiting rows)) [
      | inl e ↦
          inl (
            ap id_of e,
            sym (any_where-order_by waiting _ t.broadcasts) ∙ none_where waiting rows e,
          )
      | inr (r, e) ↦ inr (
        r.id,
        ap id_of e,
        sym (any_where-order_by (can_claim r.id) _ t.broadcasts)
            ∙ first_where-any (can_claim r.id) waiting rows r e (λ h. ground arith),
      )
    ]

claimed_row :
    (i now : ℕ) (rs : List BroadcastRecord)
    → any_where (can_claim i) rs ≡ true
    → (b : BroadcastRecord) × (first_where (has_id i) (update_where (can_claim i) (start now) rs)
        ≡ some b)
      × (b.id ≡ i)
claimed_row i now [] h = absurd (cc)
claimed_row i now (r ∷ rs) h = elim (Bool-cases (has_id i r)) [
  | inl y ↦ elim (Bool-cases (is_pending r.status)) [
    | inl p ↦ rw (y, p) (start now r, rw y refl, ground arith)
    | inr n ↦ rw (y, n) (r, rw y refl, ground arith)
  ]
  | inr n ↦ rw (n, n) (claimed_row i now rs (rw n at h))
]

contains-found :
    (i : ℕ) (rs : List BroadcastRecord) (b : BroadcastRecord)
    → first_where (has_id i) rs ≡ some b
    → contains i (map (λ (r : BroadcastRecord). r.id) rs) ≡ true
contains-found i [] b e = absurd (cc)
contains-found i (r ∷ rs) b e = elim (Bool-cases (has_id i r)) [
  | inl y ↦ rw y refl
  | inr n ↦ rw n (contains-found i rs b (rw n at e))
]

closed_row :
    (i : ℕ) (t : BroadcastTables)
    → IsClosed (outcome_of i t)
    → (b : BroadcastRecord) × (first_where (has_id i) t.broadcasts ≡ some b)
      × (is_open b.status ≡ false)
closed_row i t h = elim (Option-cases (first_where (has_id i) t.broadcasts)) [
  | inl e ↦ absurd (rw e at h)
  | inr (b, e) ↦ (b, e, rw e at h)
]

-- The tables behind the claim of a row.
abbrev claimed : ℕ → ℕ → BroadcastTables → BroadcastTables
claimed i now t = record t { broadcasts = update_where (can_claim i) (start now) t.broadcasts }

module _ (o : Outside) (fuel now : ℕ) (t : BroadcastTables) (s : List UserMessage) where
  pub process_next-idle :
      next_pending t ≡ none → (process_next o now fuel (quiet t s)).1 ≡ quiet t s
  unfolding run_sql process_next claim_next
  process_next-idle e = rw e refl

  process_next-claim :
      (i : ℕ) (b : BroadcastRecord)
      → next_pending t ≡ some i
      → any_where (can_claim i) t.broadcasts ≡ true
      → first_where (has_id i) (claimed i now t).broadcasts ≡ some b
      → process_next o now fuel (quiet t s) ≡ run_broadcast o now fuel b (quiet (claimed i now t) s)
  unfolding run_sql process_next claim_next claim_row get_broadcast
  process_next-claim i b e a f = rw (e, a, f) refl

  -- The rows behind a run that claimed the row `i`.
  pub worked-Settled :
      (i : ℕ)
      → length t.users < fuel
      → AllPairs IsOtherRow t.broadcasts
      → next_pending t ≡ some i
      → any_where (can_claim i) t.broadcasts ≡ true
      → let u = (process_next o now fuel (quiet t s)).1.tables in
        (u.users ≡ t.users) × Settled i t.broadcasts u.broadcasts
  unfolding row_ids
  worked-Settled i enough distinct e a =
      let (b, f, same) = claimed_row i now t.broadcasts a in
      let t' = claimed i now t in
      let u = (run_broadcast o now fuel b (quiet t' s)).1.tables in
      let there = contains-found i t'.broadcasts b f in
      let closed = closes o now fuel b t' s enough (rw same there) in
      let began =
        Touched-update b.id (can_claim i) (start now) (λ r h. rw same (ground arith)) (λ r. refl)
          t.broadcasts t.broadcasts (Touched-refl b.id t.broadcasts) in
      let kept =
        ((run_broadcast-Keeps o now b t.users t.broadcasts fuel).run (quiet t' s)
          (refl, began)).0 in
      let (c, g, shut) = closed_row b.id u closed in
      rw (process_next-claim i b e a f) (
        kept.0,
        subst (λ n. Settled n t.broadcasts u.broadcasts) same
            (Touched-Settled b.id t.broadcasts u.broadcasts c distinct kept.1 g shut),
      )
