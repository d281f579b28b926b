-- ===== src/Users/Pages.antt =====
-- The pages of ListUsers of backend/internal/store/store.go.
use hsgram_admin.Prelude.{
  ℕ, zero, suc, ◌-◌, ◌*◌, ◌≤◌, ◌≡◌, refl, sym, ap, ◌∙◌, true, false, Option, none, some, List, [],
  ◌++◌, map, arith,
}
use mathlib.Core.Path.{ap₂}
use mathlib.Core.List.{map-append}
use hsgram_admin.Prelude.Lists.{AllPairs, length, take, drop, rows_where}
use hsgram_admin.Prelude.Queries.{length-order_by, pages_from, pages_from-drop}
use mathlib.Core.List.{Perm}
use hsgram_admin.Prelude.Sorted.{order_by-perm, order_by-AllPairs}
use hsgram_admin.Sql.{Result, ok, err, fault, quiet, run_sql}
use hsgram_admin.Broadcast.Queue.{limit_of}
use hsgram_admin.Users.Types.{UserRow, Summary, Tables, Filter, ListResult, UserError, Database}
use hsgram_admin.Users.Store.{page_of, summary_of, user_behind, user_where, selected, list_users}

abbrev items_of : Result UserError ListResult → List Summary
items_of (ok r) = r.items
items_of (err e) = []
items_of fault = []

abbrev pub total_of : Result UserError ListResult → Option ℕ
total_of (ok r) = some r.total
total_of (err e) = none
total_of fault = none

abbrev pub size_of : Filter → ℕ
size_of f = limit_of 20 100 f.page_size

abbrev pub at_page : Filter → ℕ → Filter
at_page f k = record f { page = k }

module _ (d : Database) (f : Filter) (t : Tables) where
  -- The items of `n` pages, behind the first `k`, one request for each.
  unfoldable pub listed : ℕ → ℕ → List Summary
  listed k zero = []
  listed k (suc n) =
      items_of (list_users d {E = Unit} (at_page f (suc k)) (quiet t [])).0 ++ listed (suc k) n

  page-result :
      (k : ℕ)
      → list_users d {E = Unit} (at_page f (suc k)) (quiet t []) ≡ (
        ok (record {
          items = map summary_of (take (size_of f) (drop (k * size_of f) (selected d f t)));
          total = length (selected d f t);
          page = suc k;
          page_size = size_of f;
        }),
        quiet t [],
      )
  unfolding run_sql list_users user_where
  page-result k =
      let e : page_of (suc k) ≡ suc k = ground arith in
      let m : suc k - 1 ≡ k = omega arith in
      rw (e, m, length-order_by user_behind (rows_where (user_where d f) t.users)) refl

  listed-pages_from :
      (k n : ℕ) → listed k n ≡ map summary_of (pages_from (size_of f) k n (selected d f t))
  unfolding listed
  listed-pages_from k zero = refl
  listed-pages_from k (suc n) =
      ap₂ ◌++◌ (ap (λ x. items_of x.0) (page-result k)) (listed-pages_from (suc k) n)
      ∙ sym (map-append summary_of (take (size_of f) (drop (k * size_of f) (selected d f t))) _)

size_bounds : (f : Filter) → (1 ≤ size_of f) × (size_of f ≤ 100)
size_bounds f = ground arith

abbrev pub IsInOrder : UserRow → UserRow → Type 0
IsInOrder u v = user_behind u v ≡ true

user_behind_total : (u v : UserRow) → user_behind u v ≡ false → IsInOrder v u
user_behind_total u v h = ground arith

user_behind_trans : (u v w : UserRow) → IsInOrder u v → IsInOrder v w → IsInOrder u w
user_behind_trans u v w h k = ground arith

-- Where no statement fails, a page has between 1 and 100 places; each page names as the total how many
-- users the filter selects; and the first pages, if they have places for all of these, list rows
-- that are just these users, each as often as it is in the table, the last updated first and, of the
-- same time, the greatest id first.
pub list_users-pages :
    (d : Database) (f : Filter) (t : Tables) (n : ℕ)
    → length (rows_where (user_where d f) t.users) ≤ n * size_of f
    → ((1 ≤ size_of f) × (size_of f ≤ 100))
      × ((k : ℕ)
          → total_of (list_users d {E = Unit} (at_page f (suc k)) (quiet t [])).0
            ≡ some (length (rows_where (user_where d f) t.users)))
      × (rows : List UserRow) × (listed d f t 0 n ≡ map summary_of rows)
      × Perm rows (rows_where (user_where d f) t.users)
      × AllPairs IsInOrder rows
list_users-pages d f t n h =
    let e = length-order_by user_behind (rows_where (user_where d f) t.users) in
    let z : 0 * size_of f ≡ 0 = omega arith in
    let some_selected = selected d f t in
    (
      size_bounds f,
      λ k. ap (λ x. total_of x.0) (page-result d f t k) ∙ ap some e,
      some_selected,
      listed-pages_from d f t 0 n
          ∙ ap (map summary_of) (pages_from-drop (size_of f) 0 n some_selected (grind (arith, e)))
          ∙ ap (λ m. map summary_of (drop m some_selected)) z,
      order_by-perm user_behind _,
      order_by-AllPairs user_behind user_behind_total user_behind_trans
          (rows_where (user_where d f) t.users),
    )
