-- ===== src/Broadcast/Drain.antt =====
-- The queue of broadcasts is worked off: ResetRunningBroadcasts of
-- backend/internal/store/broadcast.go, and then processNext of backend/internal/broadcast/service.go
-- again and again.
use hsgram_admin.Prelude.{
  ℕ, ◌+◌, ◌<◌, ◌≤◌, ◌≡◌, ◌≢◌, refl, sym, ap, ◌∙◌, inl, inr, true, false, Bool-cases, none, List, [],
  ◌∷◌, map, ◌⊎◌, arith,
}
use mathlib.Core.Path.{ap₂, subst}
use hsgram_admin.Prelude.Lists.{All, AllPairs, length, any_where, update_where}
use hsgram_admin.Sql.{quiet, run_sql}
use hsgram_admin.Broadcast.Types.{
  BroadcastStatus, pending, running, completed, failed, BroadcastRecord, BroadcastTables,
  UserMessage,
}
use hsgram_admin.Broadcast.Queue.{is_pending, is_running, requeue, reset_running, next_pending}
use hsgram_admin.Broadcast.Service.{Outside}
use hsgram_admin.Broadcast.Delivery.{process_next}
use hsgram_admin.Broadcast.Kept.{row_ids}
use hsgram_admin.Broadcast.Rows.{
  is_open, IsOtherRow, count_status, Settled, Settled-distinct, Settled-not_running,
  Settled-one_fewer,
}
use hsgram_admin.Broadcast.Worked.{waiting, next_pending-cases, process_next-idle, worked-Settled}

-- The tables behind calls of processNext at the instants of a list, in each of which no statement
-- fails.
unfoldable pub drain : Outside → ℕ → List ℕ → BroadcastTables → List UserMessage → BroadcastTables
drain o fuel [] t s = t
drain o fuel (now ∷ ts) t s =
    let w = (process_next o now fuel (quiet t s)).1 in drain o fuel ts w.tables w.sent

abbrev pub AllClosed : List BroadcastRecord → Type 0
AllClosed rs = All (λ (r : BroadcastRecord). is_open r.status ≡ false) rs

abbrev AllIdle : List BroadcastRecord → Type 0
AllIdle rs = All (λ (r : BroadcastRecord). is_running r.status ≡ false) rs

closed_status :
    (x : BroadcastStatus) → is_pending x ≡ false → is_running x ≡ false → is_open x ≡ false
closed_status pending p r = absurd (cc)
closed_status running p r = absurd (cc)
closed_status completed p r = refl
closed_status failed p r = refl

none_waiting :
    (rs : List BroadcastRecord)
    → count_status is_pending rs ≡ 0 ⊎ (any_where waiting rs ≡ false)
    → AllIdle rs
    → AllClosed rs
none_waiting [] c a = tt
none_waiting (r ∷ rs) c a = elim (Bool-cases (is_pending r.status)) [
  | inl y ↦ absurd (elim c [
    | inl n ↦ (let m = rw y at n in omega arith)
    | inr n ↦ (let m : true ≡ false = rw y at n in cc)
  ])
  | inr n ↦ (
    closed_status r.status n a.0,
    none_waiting rs
        (elim c [ inl m ↦ inl (let k = rw n at m in omega arith) | inr m ↦ inr (rw n at m) ]) a.1,
  )
]

Settled-ids :
    (i : ℕ) (rs qs : List BroadcastRecord)
    → Settled i rs qs
    → map (λ (r : BroadcastRecord). r.id) qs ≡ map (λ (r : BroadcastRecord). r.id) rs
Settled-ids i [] [] s = refl
Settled-ids i [] (q ∷ qs) s = elim s [ ]
Settled-ids i (r ∷ rs) [] s = elim s [ ]
Settled-ids i (r ∷ rs) (q ∷ qs) s = ap₂ ◌∷◌ (s.0) (Settled-ids i rs qs s.3)

module _ (o : Outside) (fuel : ℕ) where
  drain-idle :
      (ts : List ℕ) (t : BroadcastTables) (s : List UserMessage)
      → next_pending t ≡ none
      → drain o fuel ts t s ≡ t
  unfolding drain
  drain-idle [] t s e = refl
  drain-idle (now ∷ ts) t s e = rw (process_next-idle o fuel now t s e) (drain-idle ts t s e)

  drain-closed :
      (ts : List ℕ) (t : BroadcastTables) (s : List UserMessage)
      → length t.users < fuel
      → AllPairs IsOtherRow t.broadcasts
      → AllIdle t.broadcasts
      → count_status is_pending t.broadcasts ≤ length ts
      → AllClosed (drain o fuel ts t s).broadcasts × (row_ids (drain o fuel ts t s) ≡ row_ids t)
  unfolding drain row_ids
  drain-closed [] t s enough distinct idle few =
      (none_waiting t.broadcasts (inl (omega arith)) idle, refl)
  drain-closed (now ∷ ts) t s enough distinct idle few = elim (next_pending-cases t) [
    | inl (e, n) ↦
        subst (λ (u : BroadcastTables). AllClosed u.broadcasts × (row_ids u ≡ row_ids t))
          (sym (drain-idle (now ∷ ts) t s e)) (none_waiting t.broadcasts (inr n) idle, refl)
    | inr (i, e, a) ↦
        let w = (process_next o now fuel (quiet t s)).1 in
        let (same, settled) = worked-Settled o fuel now t s i enough distinct e a in
        let fewer = Settled-one_fewer i t.broadcasts w.tables.broadcasts a settled in
        let rest =
          drain-closed ts w.tables w.sent (rw same enough)
            (Settled-distinct i t.broadcasts w.tables.broadcasts distinct settled)
            (Settled-not_running i t.broadcasts w.tables.broadcasts idle settled) (omega arith) in
        (rest.0, rest.1 ∙ Settled-ids i t.broadcasts w.tables.broadcasts settled)
  ]

requeued-IsOther :
    (q : BroadcastRecord) (id : ℕ) (rs : List BroadcastRecord)
    → q.id ≡ id
    → All (λ (r : BroadcastRecord). id ≢ r.id) rs
    → All (IsOtherRow q) (update_where (λ (r : BroadcastRecord). is_running r.status) requeue rs)
requeued-IsOther q id [] e h = tt
requeued-IsOther q id (r ∷ rs) e h = elim (Bool-cases (is_running r.status)) [
  | inl y ↦ rw y (λ g. h.0 (sym e ∙ g), requeued-IsOther q id rs e h.1)
  | inr n ↦ rw n (λ g. h.0 (sym e ∙ g), requeued-IsOther q id rs e h.1)
]

-- What ResetRunningBroadcasts leaves: the same broadcasts, none of them at work, and those waiting
-- that were waiting or at work.
record IsReset (rs qs : List BroadcastRecord) : Type 0 where
  same : map (λ (r : BroadcastRecord). r.id) qs ≡ map (λ (r : BroadcastRecord). r.id) rs
  distinct : AllPairs IsOtherRow qs
  idle : AllIdle qs
  waits : count_status is_pending qs ≡ count_status is_open rs

open_pending : (x : BroadcastStatus) → is_running x ≡ false → is_pending x ≡ is_open x
open_pending pending e = refl
open_pending running e = absurd (cc)
open_pending completed e = refl
open_pending failed e = refl

open_running : (x : BroadcastStatus) → is_running x ≡ true → is_open x ≡ true
open_running pending e = refl
open_running running e = refl
open_running completed e = absurd (cc)
open_running failed e = absurd (cc)

requeued-IsReset :
    (rs : List BroadcastRecord)
    → AllPairs IsOtherRow rs
    → IsReset rs (update_where (λ (r : BroadcastRecord). is_running r.status) requeue rs)
requeued-IsReset [] d = record { same = refl; distinct = tt; idle = tt; waits = refl }
requeued-IsReset (r ∷ rs) d =
    let rest = requeued-IsReset rs d.1 in
    elim (Bool-cases (is_running r.status)) [
      | inl y ↦ rw y (record {
        same = ap (◌∷◌ r.id) rest.same;
        distinct = (requeued-IsOther (requeue r) r.id rs refl d.0, rest.distinct);
        idle = (refl, rest.idle);
        waits = rw (open_running r.status y) (ap suc_one rest.waits);
      })
      | inr n ↦ rw n (record {
        same = ap (◌∷◌ r.id) rest.same;
        distinct = (requeued-IsOther r r.id rs refl d.0, rest.distinct);
        idle = (n, rest.idle);
        waits = rw (open_pending r.status n, rest.waits) refl;
      })
    ]
  where
    suc_one : ℕ → ℕ
    suc_one k = 1 + k

-- Where no statement fails, the broadcasts have different ids and the fuel is for more pages than
-- there are users: behind ResetRunningBroadcasts, and as many calls of processNext at least as there
-- were broadcasts pending or running, the broadcasts are the same and each of them is completed or failed,
-- however their targets read and whatever the calls that deliver answer.
pub reset-drain :
    (o : Outside) (fuel : ℕ) (ts : List ℕ) (t : BroadcastTables) (s : List UserMessage)
    → length t.users < fuel
    → AllPairs IsOtherRow t.broadcasts
    → count_status is_open t.broadcasts ≤ length ts
    → let u = drain o fuel ts (reset_running (quiet t s)).1.tables s in
      AllClosed u.broadcasts × (row_ids u ≡ row_ids t)
unfolding run_sql reset_running row_ids
reset-drain o fuel ts t s enough distinct few =
    let r = requeued-IsReset t.broadcasts distinct in
    let t' : BroadcastTables = (reset_running (quiet t s)).1.tables in
    let done = drain-closed o fuel ts t' s enough r.distinct r.idle (rw r.waits few) in
    (done.0, done.1 ∙ r.same)
