-- ===== src/Broadcast/Touch.antt =====
-- A run of one broadcast leaves the statuses of the others alone, whichever statements fail
-- (`processNext` of backend/internal/broadcast/service.go).
use hsgram_admin.Prelude.{
  ℕ, zero, suc, ◌+◌, ◌≡◌, refl, inl, inr, Bool, true, ◌&&◌, Option, none, some, List, [], ◌∷◌, ◌++◌,
  ltb, ◌==◌, ◌⊎◌,
}
use hsgram_admin.Prelude.Lists.{length}
use hsgram_admin.Prelude.Text.{Text, codes}
use hsgram_admin.Sql.{Result, ok, err, fault, exec, run_sql, attempt}
use hsgram_admin.Sql.Triple.{
  Triple, Anything, Triple-pure, Triple-raise, Triple-statement, Triple-if, Triple-exec,
  Triple-bind, Triple-attempt_any,
}
use hsgram_admin.Broadcast.Types.{
  BroadcastError, DeliveryStatus, delivery_sent, delivery_failed, TargetSpec, Recipient, User,
  BroadcastRecord, BroadcastTables, Db,
}
use hsgram_admin.Broadcast.Targets.{or_error, count_recipients, list_recipients}
use hsgram_admin.Broadcast.Queue.{
  has_id, edit_broadcast, complete, fail, update_progress, mark_completed, mark_failed,
  upsert_delivery, upsert_row,
}
use hsgram_admin.Broadcast.Service.{Outside, message_to, send_text}
use hsgram_admin.Broadcast.Delivery.{
  PagesEnd, finished, stopped, unfinished, ignore_error, count_success, count_failure, note_answer,
  deliver_all, on_page, pages, give_up, close, on_count, run_broadcast, batch_size,
}
use hsgram_admin.Broadcast.Rows.{Touched, Touched-update}

-- To split on which side of a sum a value is.
pub sum-cases : {A B : Type 0} (x : A ⊎ B) → ((a : A) × (x ≡ inl a)) ⊎ ((b : B) × (x ≡ inr b))
sum-cases (inl a) = inl (a, refl)
sum-cases (inr b) = inr (b, refl)

module _ (i : ℕ) (us : List User) (rs : List BroadcastRecord) where
  -- The users and rows are those of the lists, where only the row with the id may have another status.
  abbrev pub Own : BroadcastTables → Type 0
  Own t = (t.users ≡ us) × Touched i rs t.broadcasts

  abbrev Keeps : {A : Type 0} → Db A → Type 0
  Keeps m = Triple Own m Anything

  ignore_error-Keeps : (m : Db (Unit {0})) → Keeps m → Keeps (ignore_error m)
  ignore_error-Keeps m h =
      Triple-bind {Q = Anything} (Triple-attempt_any h) (λ r _. Triple-pure tt tt)

  edit-Keeps :
      (f : BroadcastRecord → BroadcastRecord)
      → ((r : BroadcastRecord) → (f r).id ≡ r.id)
      → Keeps (exec (edit_broadcast i f))
  edit-Keeps f same =
      Triple-exec (edit_broadcast i f)
        (λ t h. (h.0, Touched-update i (has_id i) f (λ r e. e) same rs t.broadcasts h.1))

  upsert-Keeps :
      (r : Recipient) (status : DeliveryStatus) (message : Text) (sent_at : Option ℕ)
      → Keeps (upsert_delivery i r status message sent_at)
  unfolding upsert_delivery upsert_row
  upsert-Keeps r status message sent_at =
      Triple-exec (upsert_row i r status message sent_at) (λ t h. h)

module _ (o : Outside) (now : ℕ) (b : BroadcastRecord) (us : List User)
    (rs : List BroadcastRecord) where
  abbrev KeepsRow : {A : Type 0} → Db A → Type 0
  KeepsRow m = Triple (Own b.id us rs) m Anything

  note_answer-Keeps : (r : Recipient) (a : Option Text) → KeepsRow (note_answer o now b r a)
  note_answer-Keeps r none =
      ignore_error-Keeps b.id us rs _ (upsert-Keeps b.id us rs r delivery_sent [] (some now))
  note_answer-Keeps r (some message) =
      ignore_error-Keeps b.id us rs _ (upsert-Keeps b.id us rs r delivery_failed message none)

  send_text-Keeps : (r : Recipient) → KeepsRow (send_text o (message_to b r))
  unfolding run_sql send_text
  send_text-Keeps r = record { run = λ w h. (h, tt) }

  deliver_all-Keeps : (qs : List Recipient) (s f : ℕ) → KeepsRow (deliver_all o now b qs s f)
  unfolding deliver_all
  deliver_all-Keeps [] s f = Triple-pure (s, f) tt
  deliver_all-Keeps (q ∷ qs) s f = Triple-bind {Q = Anything} (send_text-Keeps q) (λ a _.
      Triple-bind {Q = Anything} (note_answer-Keeps q a)
        (λ _ _. deliver_all-Keeps qs (count_success a s) (count_failure a f)))

  give_up-Keeps : (s f : ℕ) (message : Text) → KeepsRow (give_up o now b s f message)
  unfolding mark_failed
  give_up-Keeps s f message =
      Triple-bind {Q = Anything}
        (ignore_error-Keeps b.id us rs _ (edit-Keeps b.id us rs (fail s f message now) (λ r. refl)))
        (λ _ _. Triple-pure (some true) tt)

  close-Keeps : (e : PagesEnd) → KeepsRow (close o now b e)
  unfolding mark_completed
  close-Keeps (finished s f) = Triple-if (s == 0 && ltb 0 f) _ _ (give_up-Keeps s f _) (
      Triple-bind {Q = Anything}
        (ignore_error-Keeps b.id us rs _ (edit-Keeps b.id us rs (complete s f now) (λ r. refl)))
        (λ _ _. Triple-pure (some true) tt))
  close-Keeps (stopped s f message) = give_up-Keeps s f message
  close-Keeps unfinished = Triple-pure none tt

  or_error-Keeps : (x : BroadcastError ⊎ (User → Bool)) → KeepsRow (or_error x)
  or_error-Keeps (inl e) = Triple-raise e
  or_error-Keeps (inr p) = Triple-pure p tt

  module _ (spec : TargetSpec) where
    count-Keeps : KeepsRow (attempt (count_recipients o.same_text spec))
    unfolding count_recipients
    count-Keeps =
        Triple-attempt_any (
          Triple-bind {Q = Anything} (or_error-Keeps _)
            (λ p _. Triple-statement _ (λ t k. (k, tt))))

    page-Keeps :
        (offset limit : ℕ) → KeepsRow (attempt (list_recipients o.same_text spec offset limit))
    unfolding list_recipients
    page-Keeps offset limit =
        Triple-attempt_any (
          Triple-bind {Q = Anything} (or_error-Keeps _)
            (λ p _. Triple-statement _ (λ t k. (k, tt))))

    on_page-Keeps :
        (go : ℕ → ℕ → ℕ → Db PagesEnd)
        → ((offset s f : ℕ) → KeepsRow (go offset s f))
        → (offset s f : ℕ) (page : Result BroadcastError (List Recipient))
        → KeepsRow (on_page o now go b offset s f page)
    unfolding update_progress
    on_page-Keeps go h offset s f (ok []) = Triple-pure (finished s f) tt
    on_page-Keeps go h offset s f (ok (q ∷ qs)) =
        Triple-bind {Q = Anything} (deliver_all-Keeps (q ∷ qs) s f) (λ (s', f') _.
          Triple-bind {Q = Anything}
            (ignore_error-Keeps b.id us rs _ (edit-Keeps b.id us rs _ (λ r. refl)))
            (λ _ _. h (offset + length (q ∷ qs)) s' f'))
    on_page-Keeps go h offset s f (err e) = Triple-pure (stopped s f (o.error_text e)) tt
    on_page-Keeps go h offset s f fault = Triple-pure (stopped s f o.driver_text) tt

    pages-Keeps : (fuel offset s f : ℕ) → KeepsRow (pages o now fuel b spec offset s f)
    unfolding pages
    pages-Keeps zero offset s f = Triple-pure unfinished tt
    pages-Keeps (suc fuel) offset s f =
        Triple-bind {Q = Anything} (page-Keeps offset batch_size)
          (λ page _. on_page-Keeps (pages o now fuel b spec) (pages-Keeps fuel) offset s f page)

    on_count-Keeps :
        (fuel : ℕ) (total : Result BroadcastError ℕ) → KeepsRow (on_count o now fuel b spec total)
    on_count-Keeps fuel (ok total) =
        Triple-if (total == 0) _ _ (give_up-Keeps 0 0 _)
          (Triple-bind {Q = Anything} (pages-Keeps fuel 0 0 0) (λ e _. close-Keeps e))
    on_count-Keeps fuel (err e) = give_up-Keeps 0 0 (o.error_text e)
    on_count-Keeps fuel fault = give_up-Keeps 0 0 o.driver_text

  -- Whichever statements fail, a run of the broadcast changes the status of no other row.
  pub run_broadcast-Keeps : (fuel : ℕ) → KeepsRow (run_broadcast o now fuel b)
  unfolding run_broadcast
  run_broadcast-Keeps fuel = elim (sum-cases (o.unmarshal b.target_spec)) [
    | inl (message, e) ↦
        rw (run_broadcast, e) (give_up-Keeps 0 0 (codes "invalid target spec: " ++ message))
    | inr (spec, e) ↦
        rw (run_broadcast, e)
          (Triple-bind {Q = Anything} (count-Keeps spec)
            (λ total _. on_count-Keeps spec fuel total))
  ]
