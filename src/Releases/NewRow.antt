-- ===== src/Releases/NewRow.antt =====
-- What creating a release does to the table, whichever statements fail: `CreateAppRelease` of
-- backend/internal/store/releases.go.
use hsgram_admin.Prelude.{
  ℕ, suc, ◌≡◌, ◌⊎◌, refl, sym, ap, Option, none, some, ◌∷◌, inl, inr, arith, Bool-cases,
}
use mathlib.Core.Path.{subst}
use hsgram_admin.Prelude.Lists.{OptionOf-unit, any_where}
use hsgram_admin.Prelude.Text.{Text, trim}
use hsgram_admin.Sql.{Result, ok, err, fault, World, statement, or_raise, return_result, ◌>>=◌}
use hsgram_admin.Sql.Cases.{statement-bind_cases}
use hsgram_admin.Sql.Triple.{
  Triple, Anything, Triple-bind, Triple-statement, Triple-or_raise, Returns,
}
use hsgram_admin.Apk.Bytes.{ok}
use hsgram_admin.Releases.Names.{normalize_update_level}
use hsgram_admin.Releases.Types.{
  Place, Release, AdminUser, CreateParams, Tables, ReleaseError, Outside, Action, duplicate_path,
  no_rows, unsupported_level,
}
use hsgram_admin.Releases.Rows.{new_release, checked_release}
use hsgram_admin.Releases.Store.{
  normal_place, insert_release, query_row, get_app_release, create_app_release,
}

-- The table of releases has one row more, with the version code that was given.
pub record HasNew (code : ℕ) (path : Text) (t u : Tables) : Type 0 where
  pub row : Release
  pub inserted : u ≡ record t { releases = row ∷ t.releases; next_id = suc t.next_id }
  pub same_code : row.version_code ≡ code
  pub same_path : row.storage_path ≡ path

module _ (o : Outside) where
  insert_release-HasNew :
      (new : ℕ → Release) (code : ℕ) (path : Text) (t : Tables)
      → ((i : ℕ) → ((new i).version_code ≡ code) × ((new i).storage_path ≡ path))
      → ((insert_release o new t).1 ≡ t) ⊎ HasNew code path t (insert_release o new t).1
  unfolding insert_release
  insert_release-HasNew new code path t h =
      elim (Bool-cases (
        any_where (λ (r : Release). o.same_text r.storage_path (new t.next_id).storage_path)
          t.releases)) [
            | inl y ↦ inl (rw y refl)
            | inr n ↦ inr (
                rw n (record {
                  row = new t.next_id;
                  inserted = refl;
                  same_code = (h t.next_id).0;
                  same_path = (h t.next_id).1;
                }))
          ]

module _ (P : Tables → Type 0) {A B : Type 0} where
  -- Steps that do not reach the tables.
  return_result-keeps :
      (x : Result ReleaseError A) (k : A → Action B) (w : World Tables (Unit {0}))
      → P w.tables
      → ((a : A) → x ≡ ok a → P (k a w).1.tables)
      → P ((return_result x >>= k) w).1.tables
  unfolding return_result ◌>>=◌
  return_result-keeps (ok a) k w h f = f a refl
  return_result-keeps (err x) k w h f = h
  return_result-keeps fault k w h f = h

  or_raise-keeps :
      (e : ReleaseError) (x : Option A) (k : A → Action B) (w : World Tables (Unit {0}))
      → P w.tables
      → ((a : A) → P (k a w).1.tables)
      → P ((or_raise e x >>= k) w).1.tables
  unfolding or_raise ◌>>=◌
  or_raise-keeps e none k w h f = h
  or_raise-keeps e (some a) k w h f = f a

get_app_release-keeps :
    (o : Outside) (P : Tables → Type 0) (i : ℕ) → Triple P (get_app_release o i) Anything
unfolding get_app_release query_row
get_app_release-keeps o P i =
    Triple-bind {Q = Anything} (Triple-statement _ (λ t h. (h, tt)))
      (λ row _. Triple-or_raise no_rows row (OptionOf-unit row))

-- Nothing was changed, or a row was inserted.
abbrev pub Grown : ℕ → Text → Tables → Tables → Type 0
Grown code path t u = (u ≡ t) ⊎ HasNew code path t u

-- What the checks let through has the version code of the parameters.
record HasCode (code : ℕ) (path : Text) (new : ℕ → Release) : Type 0 where
  pub same : (i : ℕ) → ((new i).version_code ≡ code) × ((new i).storage_path ≡ path)

new_release-HasCode :
    (now : ℕ) (admin : AdminUser) (p : CreateParams) (k : Place) (level : Text)
    → HasCode p.version_code (trim p.storage_path) (new_release now admin p k level)
unfolding new_release
new_release-HasCode now admin p k level = record { same = λ i. (refl, refl) }

checked_release-HasCode :
    (now : ℕ) (admin : AdminUser) (p : CreateParams) (k : Place) (level : Text)
    → Returns (HasCode p.version_code (trim p.storage_path)) (checked_release now admin p k level)
unfolding checked_release
checked_release-HasCode now admin p k level =
    let new = new_release-HasCode now admin p k level in ground arith

module _ (o : Outside) (now : ℕ) (admin : AdminUser) (p : CreateParams) where
  insert-Grown :
      (new : ℕ → Release) (w : World Tables (Unit {0}))
      → ((i : ℕ)
          → ((new i).version_code ≡ p.version_code) × ((new i).storage_path ≡ trim p.storage_path))
      → Grown p.version_code
          (trim p.storage_path)
          w.tables
          ((statement (insert_release o new) >>= λ x.
              or_raise duplicate_path x >>= get_app_release o)
            w).1.tables
  insert-Grown new w h =
      let t = w.tables in
      elim (statement-bind_cases (insert_release o new)
        (λ x. or_raise duplicate_path x >>= get_app_release o) w) [
          | inl e ↦ inl (ap (λ r. r.1.tables) e)
          | inr e ↦
              subst (λ r. Grown p.version_code (trim p.storage_path) t r.1.tables) (sym e)
                (or_raise-keeps (Grown p.version_code (trim p.storage_path) t) duplicate_path _
                  (get_app_release o) _
                  (insert_release-HasNew o new p.version_code (trim p.storage_path) t h)
                  (λ i.
                    ((get_app_release-keeps o (Grown p.version_code (trim p.storage_path) t) i).run
                      _ (insert_release-HasNew o new p.version_code (trim p.storage_path) t h)).0))
        ]

  pub create_app_release-Grown :
      (w : World Tables (Unit {0}))
      → Grown p.version_code
          (trim p.storage_path)
          w.tables
          (create_app_release o now admin p w).1.tables
  unfolding create_app_release
  create_app_release-Grown w =
      let P = Grown p.version_code (trim p.storage_path) w.tables in
      return_result-keeps P (normal_place o p.platform p.channel p.arch) _ w (inl refl) (λ k _.
        or_raise-keeps P unsupported_level (normalize_update_level o.lower p.update_level) _ w
          (inl refl)
          (λ level.
            return_result-keeps P (checked_release now admin p k level) _ w (inl refl) (λ new e.
              insert-Grown new w
                (subst
                  (λ (x : Result ReleaseError (ℕ → Release)).
                    Returns (HasCode p.version_code (trim p.storage_path)) x)
                  e (checked_release-HasCode now admin p k level)).same)))
