-- ===== src/AutoMessage/Due/Rotation.antt =====
-- Rounds one after the other: the enabled items are sent in turn.
use native.Mathlib.Nat.{mod-lt, mod-add-mod}
use hsgram_admin.Prelude.{
  ℕ, zero, suc, ◌+◌, ◌*◌, ◌%◌, ◌≤◌, ◌<◌, ◌≡◌, refl, sym, ap, ◌∙◌, true, false, Option, none, some,
  List, [], ◌∷◌, ◌++◌, map, arith,
}
use mathlib.Core.List.{append-nil}
use hsgram_admin.Prelude.Lists.{length, get_elem?}
use hsgram_admin.Prelude.Text.{Text}
use hsgram_admin.Sql.{World, quiet, ok}
use hsgram_admin.AutoMessage.Types.{Config, Item, SendCandidate, SendResult, GroupMessage}
use hsgram_admin.AutoMessage.Tables.{Tables, config_by_id, list_items}
use hsgram_admin.AutoMessage.Queries.{is_group_active}
use hsgram_admin.AutoMessage.Store.{enabled_items, wrap_index}
use hsgram_admin.AutoMessage.Process.{
  Send, candidate_of, process_due_config, due_at, advance_row, next_index,
}
use hsgram_admin.AutoMessage.Due.{turn_of}
use hsgram_admin.AutoMessage.Due.Round.{
  turn_candidate, world_after, process_due_config-turn, tables_after, tables_after-config,
  tables_after-items, tables_after-active,
}

get_elem?-lt {ℓ} :
    {A : Type ℓ} (xs : List A) (i : ℕ) → i < length xs → (x : A) × (get_elem? xs i ≡ some x)
get_elem?-lt [] i h = absurd (omega arith)
get_elem?-lt (x ∷ xs) zero h = (x, refl)
get_elem?-lt (x ∷ xs) (suc i) h = get_elem?-lt xs i (omega arith)

-- The runs of `ProcessDueAutoMessageConfig` for one config at the instants of a list.
pub rounds : Send → ℕ → List ℕ → World Tables GroupMessage → World Tables GroupMessage
rounds send i [] w = w
rounds send i (now ∷ times) w = rounds send i times (process_due_config send i now w).1

-- Each instant is at least the interval behind the one before, and the first not before `at`.
abbrev pub IsSpaced : ℕ → ℕ → List ℕ → Type 0
IsSpaced minutes at [] = Unit
IsSpaced minutes at (now ∷ times) = (at ≤ now) × IsSpaced minutes (now + 60 * minutes) times

abbrev content_of : Option Item → Text
content_of none = []
content_of (some item) = item.content

-- The texts of the items from the position `k` on, round the list, one for each instant.
abbrev pub texts_from : List Item → ℕ → List ℕ → List Text
texts_from items k [] = []
texts_from items k (now ∷ times) =
    content_of (get_elem? items (k % length items)) ∷ texts_from items (k + 1) times

abbrev pub texts : List GroupMessage → List Text
texts = map (λ (m : GroupMessage). m.text)

wrap_index-lt : (i n : ℕ) → i < n → wrap_index i n ≡ i
wrap_index-lt i n h = ground arith

pub due_at-le :
    (cfg : Config) (now at : ℕ)
    → cfg.enabled ≡ true
    → cfg.next_send_at ≡ some at
    → at ≤ now
    → due_at cfg now ≡ some at
unfolding due_at
due_at-le cfg now at on due h = ground arith

next_index-mod :
    (r : SendResult) (k i m n : ℕ)
    → r.is_success ≡ true
    → i ≡ k % n
    → m ≡ n
    → next_index r i m ≡ (k + 1) % n
next_index-mod r k i m n h e f = rw (h, e, f) (mod-add-mod k n 1)

texts-snoc :
    (s : List GroupMessage) (m : GroupMessage) (x : Text) (rest : List Text)
    → m.text ≡ x
    → texts (s ++ m ∷ []) ++ rest ≡ texts s ++ x ∷ rest
texts-snoc [] m x rest e = rw e refl
texts-snoc (y ∷ s) m x rest e = ap (◌∷◌ y.text) (texts-snoc s m x rest e)

module _ (send : Send) (succeeds : (c : SendCandidate) → (send c).1.is_success ≡ true)
    (says : (c : SendCandidate) → (send c).0.text ≡ c.item.content) (i : ℕ) (items : List Item)
    (some_item : 0 < length items) where
  -- Where every send succeeds and sends the text of its item: from tables in which the config is
  -- enabled and due at `at`, its group is active, its enabled items are `items`, of which there are
  -- some, and its index is that of turn `k`, rounds at times that each come when the one before
  -- has made the next due, with no statement failing, send the texts of the items in their order
  -- from turn `k` on, starting over behind the last.
  pub rounds-texts :
      (times : List ℕ) (t : Tables) (s : List GroupMessage) (cfg : Config) (at k : ℕ)
      → config_by_id i t ≡ some cfg
      → cfg.enabled ≡ true
      → cfg.next_send_at ≡ some at
      → is_group_active cfg.group_id t ≡ true
      → enabled_items (list_items cfg.id false t) ≡ items
      → cfg.current_index ≡ k % length items
      → IsSpaced cfg.interval_minutes at times
      → texts (rounds send i times (quiet t s)).sent ≡ texts s ++ texts_from items k times
  unfolding rounds candidate_of
  rounds-texts [] t s cfg at k found on due active listed index spaced = sym (append-nil (texts s))
  rounds-texts (now ∷ times) t s cfg at k found on due active listed index spaced =
      ap (λ r. texts (rounds send i times r.1).sent) ran
      ∙ rounds-texts times (tables_after send now at t s cfg item) (s ++ message ∷ [])
          (advance_row now cfg.interval_minutes _ _ (send candidate).1 cfg)
          (now + 60 * cfg.interval_minutes) (k + 1)
          (tables_after-config send now at t s cfg item i found) on refl
          (tables_after-active send now at t s cfg item ∙ active)
          (ap enabled_items (tables_after-items send now at t s cfg item) ∙ listed)
          (next_index-mod (send candidate).1 k _ _ _ (succeeds candidate) position
            (ap length listed))
          spaced.1
      ∙ texts-snoc s message _ _ (says candidate ∙ sym (ap content_of got))
    where
      position :
          wrap_index cfg.current_index (length (enabled_items (list_items cfg.id false t)))
          ≡ k % length items
      position =
          rw (listed, index) (wrap_index-lt (k % length items) (length items) (mod-lt k some_item))

      item : Item
      item = (get_elem?-lt items (k % length items) (mod-lt k some_item)).0

      got : get_elem? items (k % length items) ≡ some item
      got = (get_elem?-lt items (k % length items) (mod-lt k some_item)).1

      turn : turn_of cfg (enabled_items (list_items cfg.id false t)) ≡ some item
      turn = rw (position, listed) got

      candidate : SendCandidate
      candidate = turn_candidate send now at t s cfg item

      message : GroupMessage
      message = (send candidate).0

      ran :
          process_due_config send i now (quiet t s) ≡ (ok tt, world_after send now at t s cfg item)
      ran =
          process_due_config-turn send now at t s cfg item i found
            (due_at-le cfg now at on due spaced.0) active turn
