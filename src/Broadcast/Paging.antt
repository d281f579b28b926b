-- ===== src/Broadcast/Paging.antt =====
-- The loop of `processNext` over the pages of recipients: whom it reaches, and that it ends.
use hsgram_admin.Prelude.{
  ℕ, zero, suc, ◌+◌, ◌<◌, ◌≡◌, ◌≢◌, refl, sym, ap, ◌∙◌, ◌⊎◌, inl, inr, Bool, List, [], ◌∷◌, ◌++◌,
  map, arith,
}
use mathlib.Core.Path.{ap₂, subst}
use mathlib.Core.List.{append-nil, append_assoc}
use hsgram_admin.Prelude.Lists.{length, take, drop, rows_where, order_by}
use hsgram_admin.Sql.{Result, ok, fault, World, run_sql, bind_run, ◌>>◌}
use hsgram_admin.Sql.Cases.{skip, statement-cases, statement-calm}
use hsgram_admin.Broadcast.Types.{
  BroadcastError, BroadcastTables, UserMessage, User, TargetSpec, Recipient, BroadcastRecord,
}
use hsgram_admin.Broadcast.Targets.{
  recipient_of, recipient_where, recipients_in, user_before, list_recipients,
}
use hsgram_admin.Broadcast.Queue.{update_progress}
use hsgram_admin.Broadcast.Service.{Outside}
use hsgram_admin.Broadcast.Delivery.{
  PagesEnd, finished, stopped, batch_size, deliver_all, on_page, pages, ignore_error,
}
use hsgram_admin.Broadcast.Kept.{
  Kept, Same, Same-skip, Same-trans, edit_broadcast-Kept, deliver_all-DeliveredTo, messages_of,
}
use hsgram_admin.Broadcast.Tally.{
  take-drop, length-drop, drop-page, won, lost, won-append, lost-append, messages_of-append,
}

module _ (o : Outside) (now : ℕ) (b : BroadcastRecord) where
  -- A run of the loop on the recipients `rest`: `done` were sent the message, in order, and where
  -- the loop came to its end none is left.
  pub record PagesRun (rest : List Recipient) (s f : ℕ) (w : World BroadcastTables UserMessage)
      (r : Result BroadcastError PagesEnd × World BroadcastTables UserMessage) : Type 0 where
    pub done : List Recipient
    pub left : List Recipient
    pub split : done ++ left ≡ rest
    pub sent : r.1.sent ≡ w.sent ++ messages_of b done
    pub ends :
        ((r.0 ≡ ok (finished (won o b s w.sent done) (lost o b f w.sent done))) × (left ≡ []))
        ⊎ ((r.0 ≡ ok (stopped (won o b s w.sent done) (lost o b f w.sent done) o.driver_text))
            × (w.faults ≢ []))
    pub same : Same w r.1

  -- A page, the progress, and the loop on the recipients behind the page.
  PagesRun-page :
      (page rest : List Recipient) (s f : ℕ) (w v u : World BroadcastTables UserMessage)
      (r : Result BroadcastError PagesEnd × World BroadcastTables UserMessage)
      → v.sent ≡ w.sent ++ messages_of b page
      → u.sent ≡ v.sent
      → Same w u
      → PagesRun rest (won o b s w.sent page) (lost o b f w.sent page) u r
      → PagesRun (page ++ rest) s f w r
  PagesRun-page page rest s f w v u r e k same run = record {
    done = page ++ run.done;
    left = run.left;
    split = append_assoc page run.done run.left ∙ ap (λ xs. page ++ xs) run.split;
    sent =
        run.sent
        ∙ ap (λ h. h ++ messages_of b run.done) (k ∙ e)
        ∙ append_assoc w.sent (messages_of b page) (messages_of b run.done)
        ∙ ap (λ ms. w.sent ++ ms) (sym (messages_of-append o b page run.done));
    ends = elim run.ends [
      | inl (h, nothing_left) ↦ inl (h ∙ ap₂ (λ x y. ok (finished x y)) wins losses, nothing_left)
      | inr (h, noisy) ↦
          inr
            (h ∙ ap₂ (λ x y. ok (stopped x y o.driver_text)) wins losses, λ c. noisy (same.calm c))
    ];
    same = Same-trans same run.same;
  }
    where
      wins : won o b (won o b s w.sent page) u.sent run.done ≡ won o b s w.sent (page ++ run.done)
      wins =
          ap (λ h. won o b (won o b s w.sent page) h run.done) (k ∙ e)
          ∙ won-append o b s w.sent page run.done

      losses :
          lost o b (lost o b f w.sent page) u.sent run.done ≡ lost o b f w.sent (page ++ run.done)
      losses =
          ap (λ h. lost o b (lost o b f w.sent page) h run.done) (k ∙ e)
          ∙ lost-append o b f w.sent page run.done

  module _ (spec : TargetSpec) (p : User → Bool)
      (chosen : recipient_where o.same_text spec ≡ inr p) where
    list-cases :
        (offset : ℕ) (w : World BroadcastTables UserMessage)
        → (list_recipients o.same_text spec offset batch_size w ≡ (fault, skip w)) × (w.faults ≢ [])
          ⊎ (list_recipients o.same_text spec offset batch_size w
              ≡ (ok (take batch_size (drop offset (recipients_in p w.tables))), skip w))
    unfolding run_sql list_recipients
    list-cases offset w = rw chosen (elim (statement-cases {X = BroadcastError} page_of w) [
      | inl e ↦ inl (e, λ c. statement-calm {X = BroadcastError} page_of w c e)
      | inr e ↦ inr e
    ])
      where
        page_of : BroadcastTables → List Recipient × BroadcastTables
        page_of t = (take batch_size (drop offset (recipients_in p t)), t)

    -- Nothing is sent before the page is there.
    stopped-PagesRun :
        (s f : ℕ) (rest : List Recipient) (w v : World BroadcastTables UserMessage)
        → v.sent ≡ w.sent
        → Same w v
        → w.faults ≢ []
        → PagesRun rest s f w (ok (stopped s f o.driver_text), v)
    stopped-PagesRun s f rest w v e same noisy = record {
      done = [];
      left = rest;
      split = refl;
      sent = e ∙ sym (append-nil w.sent);
      ends = inr (ap₂ (λ x y. ok (stopped x y o.driver_text)) (omega arith) (omega arith), noisy);
      same = same;
    }

    finished-PagesRun :
        (s f : ℕ) (w v : World BroadcastTables UserMessage)
        → v.sent ≡ w.sent
        → Same w v
        → PagesRun [] s f w (ok (finished s f), v)
    finished-PagesRun s f w v e same = record {
      done = [];
      left = [];
      split = refl;
      sent = e ∙ sym (append-nil w.sent);
      ends = inl (ap₂ (λ x y. ok (finished x y)) (omega arith) (omega arith), refl);
      same = same;
    }

    progress-Kept :
        (s f : ℕ) (v : World BroadcastTables UserMessage)
        → Kept tt v (ignore_error (update_progress b.id s f) v)
    unfolding update_progress
    progress-Kept s f v = edit_broadcast-Kept b.id _ (λ r. refl) v

    on_page-PagesRun :
        (go : ℕ
          → ℕ
          → ℕ
          → World BroadcastTables UserMessage
          → Result BroadcastError PagesEnd × World BroadcastTables UserMessage)
        (offset s f : ℕ) (w : World BroadcastTables UserMessage) (rest : List Recipient)
        → ((x : Recipient) (xs : List Recipient) (s' f' : ℕ) (u : World BroadcastTables UserMessage)
            → rest ≡ x ∷ xs
            → u.tables.users ≡ w.tables.users
            → PagesRun
                (drop batch_size rest)
                s'
                f'
                u
                (go (offset + length (take batch_size rest)) s' f' u))
        → PagesRun rest s f w (on_page o now go b offset s f (ok (take batch_size rest)) (skip w))
    unfolding run_sql
    on_page-PagesRun go offset s f w [] behind = finished-PagesRun s f w (skip w) refl (Same-skip w)
    on_page-PagesRun go offset s f w (x ∷ xs) behind =
        let page = take batch_size (x ∷ xs) in
        let d = deliver_all-DeliveredTo o now b page s f (skip w) in
        let v = (deliver_all o now b page s f (skip w)).1 in
        let kept = progress-Kept (won o b s w.sent page) (lost o b f w.sent page) v in
        let u =
          (ignore_error (update_progress b.id (won o b s w.sent page) (lost o b f w.sent page))
            v).1 in
        subst (λ ys. PagesRun ys s f w (on_page o now go b offset s f (ok page) (skip w)))
          (take-drop batch_size (x ∷ xs))
          (subst
            (λ q. PagesRun (page ++ drop batch_size (x ∷ xs)) s f w (
              bind_run
                (λ (c : ℕ × ℕ).
                  ignore_error (update_progress b.id c.0 c.1) >> go (offset + length page) c.0 c.1)
                q))
            (sym (ap (λ y. (y, v)) d.result))
            (subst
              (λ q. PagesRun (page ++ drop batch_size (x ∷ xs)) s f w (
                bind_run
                  (λ (c : Unit {0}).
                    go (offset + length page) (won o b s w.sent page) (lost o b f w.sent page))
                  q))
              (sym kept.result)
              (PagesRun-page page (drop batch_size (x ∷ xs)) s f w v u _ d.sent kept.sent
                (Same-trans (Same-trans (Same-skip w) d.same) kept.same)
                (behind x xs (won o b s w.sent page) (lost o b f w.sent page) u refl
                  (kept.same.users ∙ d.same.users)))))

    next_page :
        (offset : ℕ) (rest : List Recipient) (w u : World BroadcastTables UserMessage)
        → drop offset (recipients_in p w.tables) ≡ rest
        → u.tables.users ≡ w.tables.users
        → drop (offset + length (take batch_size rest)) (recipients_in p u.tables)
          ≡ drop batch_size rest
    next_page offset rest w u e users =
        ap
          (λ us.
            drop (offset + length (take batch_size rest))
              (map recipient_of (order_by user_before (rows_where p us))))
          users
        ∙ ap (λ ys. drop (offset + length (take batch_size ys)) (recipients_in p w.tables)) (sym e)
        ∙ drop-page offset batch_size (recipients_in p w.tables)
        ∙ ap (drop batch_size) e

    fewer :
        (fuel : ℕ) (rest : List Recipient) (x : Recipient) (xs : List Recipient)
        → rest ≡ x ∷ xs
        → length rest < suc fuel
        → length (drop batch_size rest) < fuel
    fewer fuel rest x xs shape enough =
        let short = length-drop 199 xs in
        let same = ap length shape in
        let behind = ap (λ ys. length (drop batch_size ys)) shape in omega arith

    pub pages-PagesRun :
        (fuel offset s f : ℕ) (w : World BroadcastTables UserMessage) (rest : List Recipient)
        → drop offset (recipients_in p w.tables) ≡ rest
        → length rest < fuel
        → PagesRun rest s f w (pages o now fuel b spec offset s f w)
    unfolding run_sql pages
    pages-PagesRun zero offset s f w rest e enough = absurd (omega arith)
    pages-PagesRun (suc fuel) offset s f w rest e enough = elim (list-cases offset w) [
      | inl (h, noisy) ↦ rw h (stopped-PagesRun s f rest w (skip w) refl (Same-skip w) noisy)
      | inr h ↦
          rw (h, e)
            (on_page-PagesRun (pages o now fuel b spec) offset s f w rest
              (λ x xs s' f' u shape users.
                pages-PagesRun fuel (offset + length (take batch_size rest)) s' f' u
                  (drop batch_size rest) (next_page offset rest w u e users)
                  (fewer fuel rest x xs shape enough)))
    ]
