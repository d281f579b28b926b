-- ===== src/AutoMessage/Due/Retry.antt =====
-- The candidate of a config behind a run that failed, and behind one that was committed.
use mathlib.Core.Path.{subst}
use hsgram_admin.Prelude.{
  ℕ, ◌+◌, ◌*◌, ◌≤◌, ◌≡◌, ◌≢◌, refl, sym, ap, ◌∙◌, Bool, true, false, Option, none, some, List, inl,
  inr, arith, if◌then◌else◌,
}
use hsgram_admin.Prelude.Lists.{OptionOf, length}
use hsgram_admin.Sql.{ok, World, quiet, transaction-atomic}
use hsgram_admin.AutoMessage.Types.{Config, Item, SendCandidate, GroupMessage}
use hsgram_admin.AutoMessage.Tables.{Tables, config_by_id, list_items}
use hsgram_admin.AutoMessage.Queries.{is_group_active}
use hsgram_admin.AutoMessage.Store.{enabled_items, wrap_index}
use hsgram_admin.AutoMessage.Process.{
  Send, biz_id_of, candidate_of, due_at, process_due_config, process_body,
}
use hsgram_admin.AutoMessage.Invariant.{IsSound, Inv, config_by_id-IsSound}
use hsgram_admin.AutoMessage.Due.{turn_of, candidate_at, candidate_in, candidate_for}
use hsgram_admin.AutoMessage.Due.Round.{tables_after, process_due_config-turn, tables_after-config}
use hsgram_admin.AutoMessage.Due.BizId.{biz_id_of-injective}

-- What there is if a candidate is due.
record IsDue (i now : ℕ) (t : Tables) (c : SendCandidate) : Type 0 where
  cfg : Config
  at : ℕ
  item : Item
  found : config_by_id i t ≡ some cfg
  due : due_at cfg now ≡ some at
  active : is_group_active cfg.group_id t ≡ true
  turn : turn_of cfg (enabled_items (list_items cfg.id false t)) ≡ some item
  shape :
      candidate_of cfg at
        (wrap_index cfg.current_index (length (enabled_items (list_items cfg.id false t))))
        item
      ≡ c

candidate_for-IsDue :
    (i now : ℕ) (t : Tables) (c : SendCandidate) → candidate_for i now t ≡ some c → IsDue i now t c
unfolding candidate_for
candidate_for-IsDue i now t c e = by_config (config_by_id i t) refl e
  where
    by_item :
        (cfg : Config) (at : ℕ) (o : Option Item)
        → config_by_id i t ≡ some cfg
        → due_at cfg now ≡ some at
        → is_group_active cfg.group_id t ≡ true
        → turn_of cfg (enabled_items (list_items cfg.id false t)) ≡ o
        → elim o [
          | none ↦ none
          | some item ↦ some (
              candidate_of cfg at
                (wrap_index cfg.current_index (length (enabled_items (list_items cfg.id false t))))
                item)
        ]
          ≡ some c
        → IsDue i now t c
    by_item cfg at none found due active turn e = cc
    by_item cfg at (some item) found due active turn e = record {
      cfg = cfg;
      at = at;
      item = item;
      found = found;
      due = due;
      active = active;
      turn = turn;
      shape = cc;
    }

    by_activity :
        (cfg : Config) (at : ℕ) (b : Bool)
        → config_by_id i t ≡ some cfg
        → due_at cfg now ≡ some at
        → is_group_active cfg.group_id t ≡ b
        → (if b then candidate_at cfg at (enabled_items (list_items cfg.id false t)) else none)
          ≡ some c
        → IsDue i now t c
    by_activity cfg at true found due active e = by_item cfg at _ found due active refl e
    by_activity cfg at false found due active e = cc

    by_due :
        (cfg : Config) (o : Option ℕ)
        → config_by_id i t ≡ some cfg
        → due_at cfg now ≡ o
        → elim o [
          | none ↦ none
          | some at ↦
              if is_group_active cfg.group_id t
              then candidate_at cfg at (enabled_items (list_items cfg.id false t))
              else none
        ]
          ≡ some c
        → IsDue i now t c
    by_due cfg none found due e = cc
    by_due cfg (some at) found due e = by_activity cfg at _ found due refl e

    by_config :
        (o : Option Config)
        → config_by_id i t ≡ o
        → elim o [ none ↦ none | some cfg ↦ candidate_in cfg now t ] ≡ some c
        → IsDue i now t c
    by_config none found e = cc
    by_config (some cfg) found e = by_due cfg _ found refl e

due_at-later :
    (cfg : Config) (now now' at : ℕ)
    → now ≤ now'
    → due_at cfg now ≡ some at
    → due_at cfg now' ≡ some at
unfolding due_at
due_at-later cfg now now' at h e = ground arith

-- A candidate that is due stays due, the same, as long as the tables do.
candidate_for-later :
    (i now now' : ℕ) (t : Tables) (c : SendCandidate)
    → now ≤ now'
    → candidate_for i now t ≡ some c
    → candidate_for i now' t ≡ some c
unfolding candidate_for
candidate_for-later i now now' t c h e =
    let d = candidate_for-IsDue i now t c e in
    rw (d.found, candidate_for)
      (rw (due_at-later d.cfg now now' d.at h d.due, candidate_in)
        (rw d.active (rw (d.turn, candidate_at) (ap some d.shape))))

not_ok :
    (send : Send) (i now : ℕ) (w : World Tables GroupMessage)
    → (process_due_config send i now w).0 ≢ ok tt
    → (process_due_config send i now w).1.tables ≡ w.tables
unfolding process_due_config
not_ok send i now w h = elim (transaction-atomic (process_body send i now) w) [
  | inl (a, e) ↦ absurd (h e)
  | inr e ↦ e
]

-- If a candidate is due and the run returns an error, whatever fails, then the same candidate, with
-- the same item and identifier, is due at this and every later time in the tables behind the run.
pub retry-candidate :
    (send : Send) (i now now' : ℕ) (w : World Tables GroupMessage) (c : SendCandidate)
    → candidate_for i now w.tables ≡ some c
    → (process_due_config send i now w).0 ≢ ok tt
    → now ≤ now'
    → candidate_for i now' (process_due_config send i now w).1.tables ≡ some c
retry-candidate send i now now' w c due h later =
    rw (not_ok send i now w h) (candidate_for-later i now now' w.tables c later due)

scheduled_before : (cfg : Config) (now at : ℕ) → due_at cfg now ≡ some at → at ≤ now
unfolding due_at
scheduled_before cfg now at e = ground arith

scheduled_at :
    (cfg : Config) (now at at' : ℕ)
    → due_at cfg now ≡ some at
    → cfg.next_send_at ≡ some at'
    → at ≡ at'
unfolding due_at
scheduled_at cfg now at at' e h = ground arith

biz_id-candidate_of :
    (cfg : Config) (at k : ℕ) (item : Item)
    → (candidate_of cfg at k item).biz_id ≡ biz_id_of cfg.id at k item.id
unfolding candidate_of
biz_id-candidate_of cfg at k item = refl

cfg_next : {a b : Config} → some a ≡ some b → a.next_send_at ≡ b.next_send_at
cfg_next {a} {b} e = ap (next_of a.next_send_at) e
  where
    next_of : Option ℕ → Option Config → Option ℕ
    next_of d none = d
    next_of d (some c) = c.next_send_at

biz_id-IsDue :
    {i now : ℕ} {t : Tables} {c : SendCandidate} (d : IsDue i now t c)
    → biz_id_of d.cfg.id d.at
        (wrap_index d.cfg.current_index (length (enabled_items (list_items d.cfg.id false t))))
        d.item.id
      ≡ c.biz_id
biz_id-IsDue d =
    sym (biz_id-candidate_of d.cfg d.at _ d.item) ∙ ap (λ (x : SendCandidate). x.biz_id) d.shape

same-scheduled :
    {i now now' : ℕ} {t u : Tables} {c c' : SendCandidate} (d : IsDue i now t c)
    (d' : IsDue i now' u c')
    → c.biz_id ≡ c'.biz_id
    → d.at ≡ d'.at
same-scheduled d d' same =
    (biz_id_of-injective _ d.at _ _ _ d'.at _ _ (biz_id-IsDue d ∙ same ∙ sym (biz_id-IsDue d'))).1

fresh-step :
    (send : Send) (i now now' : ℕ) (t : Tables) (s : List GroupMessage) (c c' : SendCandidate)
    (d : IsDue i now t c)
    → IsDue i now' (tables_after send now d.at t s d.cfg d.item) c'
    → Inv t
    → c.biz_id ≢ c'.biz_id
fresh-step send i now now' t s c c' d d' inv same =
    let snd : IsSound d.cfg = subst (OptionOf IsSound) d.found (config_by_id-IsSound i t inv) in
    late (same-scheduled d d' same) (scheduled_before d.cfg now d.at d.due) snd.interval_low (
      scheduled_at d'.cfg now' d'.at _ d'.due
        (cfg_next (sym d'.found ∙ tables_after-config send now d.at t s d.cfg d.item i d.found)))
  where
    late : {at at' minutes : ℕ} → at ≡ at' → at ≤ now → 5 ≤ minutes → at' ≡ now + 60 * minutes → ⊥
    late e h k f = omega arith

-- From tables that satisfy the invariant, where a candidate is due and no statement fails: no
-- candidate that is due in the tables behind the round, at any time, has its identifier.
pub fresh-biz_id :
    (send : Send) (i now now' : ℕ) (t : Tables) (s : List GroupMessage) (c c' : SendCandidate)
    → Inv t
    → candidate_for i now t ≡ some c
    → candidate_for i now' (process_due_config send i now (quiet t s)).1.tables ≡ some c'
    → c.biz_id ≢ c'.biz_id
fresh-biz_id send i now now' t s c c' inv due due' =
    let d = candidate_for-IsDue i now t c due in
    let ran =
      process_due_config-turn send now d.at t s d.cfg d.item i d.found d.due d.active d.turn in
    fresh-step send i now now' t s c c' d
      (candidate_for-IsDue i now' _ c'
        (subst (λ (r : _). candidate_for i now' r.1.tables ≡ some c') ran due'))
      inv
