-- ===== src/Releases/History.antt =====
-- The release tables over any sequence of calls of the store.
use hsgram_admin.Prelude.{
  ℕ, ◌<◌, ◌≡◌, refl, sym, ◌∙◌, true, false, some, List, [], ◌∷◌, inl, inr, arith, Bool-cases,
  or_true, ◌==◌,
}
use hsgram_admin.Prelude.Lists.{All, All-weaken, any_where, first_where, OptionOf-unit}
use hsgram_admin.Prelude.Text.{Text}
use hsgram_admin.Sql.{World}
use hsgram_admin.Sql.Triple.{
  Returns, Triple, Anything, Triple-or_raise, Triple-statement, Triple-bind, Triple-return_result,
  Returns-Anything,
}
use hsgram_admin.Sql.Success.{
  Success, Success-statement, Success-or_raise, Success-bind, Triple-atomic,
}
use hsgram_admin.Releases.Types.{
  Place, same_place, Release, AppRelease, Latest, Tables, AdminUser, CreateParams, Outside, Action,
  no_rows,
}
use hsgram_admin.Releases.Rows.{is_published, new_release, checked_release, set_latest}
use hsgram_admin.Releases.Store.{
  normal_place, insert_release, query_row, get_app_release, create_app_release, publish_body,
  publish_app_release,
}
use hsgram_admin.Releases.Invariant.{Inv, points, is_target, published-Inv}

-- The row of an INSERT: a draft under the id that the database gives it.
pub record IsNew (new : ℕ → Release) : Type 0 where
  pub given_id : (i : ℕ) → (new i).id ≡ i
  pub drafted : (i : ℕ) → is_published (new i) ≡ false

-- What is there has an older id.
target-below :
    (l : Latest) (n : ℕ) (rs : List Release)
    → any_where (is_target l) rs ≡ true
    → All (λ (r : Release). r.id < n) rs
    → l.release_id < n
target-below l n [] h b = cc
target-below l n (r ∷ rs) h b = elim (Bool-cases (r.id == l.release_id)) [
  | inl y ↦ let k = b.0 in ground arith
  | inr e ↦ target-below l n rs (rw e at h) b.1
]

unmarked :
    (r : Release) (rs : List Release) (ls : List Latest)
    → All (λ (s : Release). s.id < r.id) rs
    → All (λ (l : Latest). any_where (is_target l) rs ≡ true) ls
    → any_where (points r) ls ≡ false
unmarked r rs [] b h = refl
unmarked r rs (l ∷ ls) b h =
    let old = target-below l r.id rs h.0 b in
    let other : (r.id == l.release_id) ≡ false = ground arith in
    let rest = unmarked r rs ls b h.1 in
    elim (Bool-cases (same_place l.place r.place)) [
      | inl y ↦ rw (y, other) rest
      | inr y ↦ rw y rest
    ]

insert_release-Inv :
    (o : Outside) (new : ℕ → Release) (t : Tables)
    → IsNew new
    → Inv t
    → Inv (insert_release o new t).1
unfolding insert_release
insert_release-Inv o new t k h =
    let g = k.given_id t.next_id in
    elim (Bool-cases (
      any_where (λ (r : Release). o.same_text r.storage_path (new t.next_id).storage_path)
        t.releases)) [
          | inl y ↦ rw y h
          | inr n ↦ rw n (record {
            below = (
              omega arith,
              All-weaken (λ (r : Release). r.id < t.next_id) _ t.releases (λ r b. omega arith)
                  h.below,
            );
            distinct = (
              All-weaken (λ (r : Release). r.id < t.next_id) _ t.releases (λ r b e. omega arith)
                  h.below,
              h.distinct,
            );
            keys = h.keys;
            marked = (
              k.drafted t.next_id
                  ∙ sym (
                      unmarked (new t.next_id) t.releases t.latest
                        (All-weaken (λ (r : Release). r.id < t.next_id) _ t.releases
                          (λ r b. omega arith) h.below)
                        h.pointed),
              h.marked,
            );
            pointed =
                All-weaken (λ (l : Latest). any_where (is_target l) t.releases ≡ true) _ t.latest
                  (λ l y. or_true (is_target l (new t.next_id)) _ y) h.pointed;
          })
        ]

-- What the checks let through is a draft.
new_release-IsNew :
    (now : ℕ) (admin : AdminUser) (p : CreateParams) (k : Place) (level : Text)
    → IsNew (new_release now admin p k level)
unfolding new_release
new_release-IsNew now admin p k level = record { given_id = λ i. refl; drafted = λ i. refl }

checked_release-IsNew :
    (now : ℕ) (admin : AdminUser) (p : CreateParams) (k : Place) (level : Text)
    → Returns IsNew (checked_release now admin p k level)
unfolding checked_release
checked_release-IsNew now admin p k level =
    let new = new_release-IsNew now admin p k level in ground arith

module _ (now i : ℕ) where
  abbrev Found : Release → Tables → Type 0
  Found r t = Inv t × (first_where (λ (s : Release). s.id == i) t.releases ≡ some r)

  -- Behind the first of the two statements the second is due.
  abbrev Halfway : Release → Tables → Type 0
  Halfway r t = Inv (record t { latest = set_latest r.place i t.latest })

  publish_body-Inv : Success Inv (publish_body now i) (λ _ t. Inv t)
  unfolding publish_body
  publish_body-Inv =
      Success-bind Inv
        (λ row t. Inv t × (first_where (λ (s : Release). s.id == i) t.releases ≡ row)) _ _ _
        (Success-statement Inv _ _ (λ t h. (h, refl)))
        (λ row.
          Success-bind _ Found _ _ _
            (Success-or_raise _ Found no_rows row (λ r e t h. (h.0, h.1 ∙ e)))
            (λ r.
              Success-bind (Found r) (λ _. Halfway r) _ _ _
                (Success-statement (Found r) (λ _. Halfway r) _
                  (λ t h. published-Inv now i r t h.1 h.0))
                (λ _. Success-statement (Halfway r) (λ _ t. Inv t) _ (λ t h. h))))

module _ (o : Outside) where
  get_app_release-Inv : (i : ℕ) → Triple Inv (get_app_release o i) Anything
  unfolding get_app_release query_row
  get_app_release-Inv i =
      Triple-bind {Q = Anything} (Triple-statement _ (λ t h. (h, tt)))
        (λ row _. Triple-or_raise no_rows row (OptionOf-unit row))

  create-Inv :
      (now : ℕ) (admin : AdminUser) (p : CreateParams)
      → Triple Inv (create_app_release o now admin p) Anything
  unfolding create_app_release
  create-Inv now admin p =
      Triple-bind {Q = Anything}
        (Triple-return_result (normal_place o p.platform p.channel p.arch) (Returns-Anything _))
        (λ k _. Triple-bind {Q = Anything} (Triple-or_raise _ _ (OptionOf-unit _)) (λ level _.
          Triple-bind {Q = IsNew}
            (Triple-return_result _ (checked_release-IsNew now admin p k level))
            (λ new h.
              Triple-bind {Q = Anything}
                (Triple-statement _ (λ t i. (insert_release-Inv o new t h i, tt)))
                (λ inserted _.
                  Triple-bind {Q = Anything} (Triple-or_raise _ _ (OptionOf-unit _))
                    (λ i _. get_app_release-Inv i)))))

  publish-Inv : (now i : ℕ) → Triple Inv (publish_app_release o now i) Anything
  unfolding publish_app_release
  publish-Inv now i =
      Triple-bind {Q = Anything} (Triple-atomic Inv (publish_body now i) (publish_body-Inv now i))
        (λ _ _. get_app_release-Inv i)

-- The calls that write, each at its time.
pub data Call : Type 0 where
  create : ℕ → AdminUser → CreateParams → Call
  publish : ℕ → ℕ → Call

abbrev pub perform : Outside → Call → Action AppRelease
perform o (create now admin p) = create_app_release o now admin p
perform o (publish now i) = publish_app_release o now i

-- The tables behind the calls, whatever they answer.
abbrev pub release_history : Outside → List Call → World Tables (Unit {0}) → World Tables (Unit {0})
release_history o [] w = w
release_history o (c ∷ cs) w = release_history o cs (perform o c w).1

-- If the release tables are well formed, they are so behind any sequence of CreateAppRelease and
-- PublishAppRelease, with any statements failing: ids are unique and below the next id, each place
-- (platform, channel and architecture) has one latest release at most, which is there and is of that
-- place, and a release is published exactly if it is the latest of its place.
pub release_history-Inv :
    (o : Outside) (cs : List Call) (w : World Tables (Unit {0}))
    → Inv w.tables
    → Inv (release_history o cs w).tables
release_history-Inv o [] w h = h
release_history-Inv o (create now admin p ∷ cs) w h =
    release_history-Inv o cs _ ((create-Inv o now admin p).run w h).0
release_history-Inv o (publish now i ∷ cs) w h =
    release_history-Inv o cs _ ((publish-Inv o now i).run w h).0
