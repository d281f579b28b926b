-- ===== src/Broadcast/Delivery.antt =====
-- `processNext` of backend/internal/broadcast/service.go: one broadcast is claimed, its recipients
-- are read page by page, and each of them is sent the message.
use hsgram_admin.Prelude.{
  ℕ, zero, suc, ◌+◌, Bool, true, false, ◌&&◌, Option, none, some, List, [], ◌∷◌, ◌++◌, ltb, ◌==◌,
  if◌then◌else◌, inl, inr,
}
use hsgram_admin.Prelude.Lists.{length}
use hsgram_admin.Prelude.Text.{Text, codes}
use hsgram_admin.Sql.{Result, ok, err, fault, pure, attempt, ◌>>=◌, ◌>>◌}
use hsgram_admin.Broadcast.Types.{
  delivery_sent, delivery_failed, BroadcastError, TargetSpec, Recipient, BroadcastRecord, Db,
}
use hsgram_admin.Broadcast.Targets.{count_recipients, list_recipients}
use hsgram_admin.Broadcast.Queue.{
  claim_next, update_progress, mark_completed, mark_failed, upsert_delivery,
}
use hsgram_admin.Broadcast.Service.{Outside, message_to, send_text}

-- How the loop over the pages ends: behind an empty page, at a failed query, or out of fuel, with
-- the two counts.
pub data PagesEnd : Type 0 where
  finished : ℕ → ℕ → PagesEnd
  stopped : ℕ → ℕ → Text → PagesEnd
  unfinished : PagesEnd

abbrev pub batch_size : ℕ
batch_size = 200

abbrev pub nothing : {X : Type 0} → Result BroadcastError X → Db (Unit {0})
nothing r = pure tt

-- `_ = s.store.…`.
abbrev pub ignore_error : Db (Unit {0}) → Db (Unit {0})
ignore_error m = attempt m >>= nothing

abbrev pub count_success : Option Text → ℕ → ℕ
count_success none n = n + 1
count_success (some message) n = n

abbrev pub count_failure : Option Text → ℕ → ℕ
count_failure none n = n
count_failure (some message) n = n + 1

module _ (o : Outside) (now : ℕ) where
  -- The row of a delivery and the counts, by what the call answered.
  abbrev pub note_answer : BroadcastRecord → Recipient → Option Text → Db (Unit {0})
  note_answer b r none = ignore_error (upsert_delivery b.id r delivery_sent [] (some now))
  note_answer b r (some message) =
      ignore_error (upsert_delivery b.id r delivery_failed message none)

  unfoldable pub deliver_all : BroadcastRecord → List Recipient → ℕ → ℕ → Db (ℕ × ℕ)
  deliver_all b [] successes failures = pure (successes, failures)
  deliver_all b (r ∷ rs) successes failures = do
    answer ← send_text o (message_to b r)
    note_answer b r answer
    deliver_all b rs (count_success answer successes) (count_failure answer failures)

  -- What is done with a page; `go` is the loop on the pages behind it.
  abbrev pub on_page :
      (ℕ → ℕ → ℕ → Db PagesEnd)
      → BroadcastRecord
      → ℕ
      → ℕ
      → ℕ
      → Result BroadcastError (List Recipient)
      → Db PagesEnd
  on_page go b offset successes failures (ok []) = pure (finished successes failures)
  on_page go b offset successes failures (ok (r ∷ rs)) = do
    (s, f) ← deliver_all b (r ∷ rs) successes failures
    ignore_error (update_progress b.id s f)
    go (offset + length (r ∷ rs)) s f
  on_page go b offset successes failures (err e) =
      pure (stopped successes failures (o.error_text e))
  on_page go b offset successes failures fault = pure (stopped successes failures o.driver_text)

  unfoldable pub pages : ℕ → BroadcastRecord → TargetSpec → ℕ → ℕ → ℕ → Db PagesEnd
  pages zero b spec offset successes failures = pure unfinished
  pages (suc fuel) b spec offset successes failures = do
    page ← attempt (list_recipients o.same_text spec offset batch_size)
    on_page (pages fuel b spec) b offset successes failures page

  abbrev pub give_up : BroadcastRecord → ℕ → ℕ → Text → Db (Option Bool)
  give_up b successes failures message = do
    ignore_error (mark_failed b.id successes failures message now)
    pure (some true)

  abbrev pub close : BroadcastRecord → PagesEnd → Db (Option Bool)
  close b (finished successes failures) =
      if successes == 0 && ltb 0 failures
      then give_up b successes failures (codes "all deliveries failed")
      else (do ignore_error (mark_completed b.id successes failures now); pure (some true))
  close b (stopped successes failures message) = give_up b successes failures message
  close b unfinished = pure none

  abbrev pub on_count :
      ℕ → BroadcastRecord → TargetSpec → Result BroadcastError ℕ → Db (Option Bool)
  on_count fuel b spec (ok total) =
      if total == 0
      then give_up b 0 0 (codes "no recipients found")
      else pages fuel b spec 0 0 0 >>= close b
  on_count fuel b spec (err e) = give_up b 0 0 (o.error_text e)
  on_count fuel b spec fault = give_up b 0 0 o.driver_text

  unfoldable pub run_broadcast : ℕ → BroadcastRecord → Db (Option Bool)
  run_broadcast fuel b = elim (o.unmarshal b.target_spec) [
    | inl message ↦ give_up b 0 0 (codes "invalid target spec: " ++ message)
    | inr spec ↦ (do
      total ← attempt (count_recipients o.same_text spec)
      on_count fuel b spec total)
  ]

  -- `none` only where the fuel is out.
  unfoldable pub process_next : ℕ → Db (Option Bool)
  process_next fuel = do
    found ← claim_next now
    elim found [ none ↦ pure (some false) | some b ↦ run_broadcast fuel b ]
