-- ===== src/Settings/Saved.antt =====
-- Settings that were saved are read back: backend/internal/store/runtime_settings.go.
use hsgram_admin.Prelude.{
  ℕ, ◌≡◌, ◌⊎◌, refl, sym, ap, ◌∙◌, true, false, not, ◌&&◌, ◌||◌, some, List, [], ◌∷◌, inl, inr,
  ◌==◌, ==_iff, arith, Bool-cases,
}
use mathlib.Core.Path.{subst}
use hsgram_admin.Prelude.Lists.{length, contains}
use hsgram_admin.Prelude.Text.{Text, trim, is_empty, text_eq, text_eq_refl}
use hsgram_admin.Prelude.Trim.{trim-trim}
use hsgram_admin.Sql.{Result, World, ok, err, quiet, run_sql}
use hsgram_admin.Settings.FreshIds.{kept}
use hsgram_admin.Settings.Live.{
  EachLive, existing_of, contains-normalize, normalize-Distinct, none_wanted, EachLive-found,
  found-EachLive,
}
use hsgram_admin.Prelude.Distinct.{Distinct}
use hsgram_admin.Settings.{
  Contacts, SettingRow, Tables, SettingsError, missing_users, Format, contacts_key, fresh_ids,
  normalize_user_id_list, value_of, put_value, get_contacts, existing_user_ids, save_contacts,
}

-- None of the ids is 0, or was seen, or comes twice.
abbrev Fresh : List ℕ → List ℕ → Type 0
Fresh seen [] = Unit
Fresh seen (i ∷ is) = ((i == 0 || contains i seen) ≡ false) × Fresh (i ∷ seen) is

fresh_ids-Fresh : (seen is : List ℕ) → Fresh seen (fresh_ids seen is)
fresh_ids-Fresh seen [] = tt
fresh_ids-Fresh seen (i ∷ is) = elim (Bool-cases (i == 0 || contains i seen)) [
  | inl y ↦ subst (λ c. Fresh seen (kept c i is seen)) (sym y) (fresh_ids-Fresh seen is)
  | inr n ↦ subst (λ c. Fresh seen (kept c i is seen)) (sym n) (n, fresh_ids-Fresh (i ∷ seen) is)
]

fresh_ids-same : (seen is : List ℕ) → Fresh seen is → fresh_ids seen is ≡ is
fresh_ids-same seen [] h = refl
fresh_ids-same seen (i ∷ is) h =
    ap (λ c. kept c i is seen) (h.0) ∙ ap (◌∷◌ i) (fresh_ids-same (i ∷ seen) is h.1)

normalize_again :
    (is : List ℕ) → normalize_user_id_list (normalize_user_id_list is) ≡ normalize_user_id_list is
unfolding normalize_user_id_list
normalize_again is = fresh_ids-same [] _ (fresh_ids-Fresh [] is)

value_of-put_value :
    (key value : Text) (rs : List SettingRow) → value_of key (put_value key value rs) ≡ some value
unfolding value_of put_value
value_of-put_value key value [] = rw (text_eq_refl key) refl
value_of-put_value key value (r ∷ rs) = elim (Bool-cases (text_eq r.setting_key key)) [
  | inl y ↦ rw (y, y) refl
  | inr n ↦ rw (n, n) (value_of-put_value key value rs)
]

abbrev pub saved_contacts : ℕ → List ℕ → Text → Contacts
saved_contacts now ids welcome = record {
  user_ids = normalize_user_id_list ids;
  welcome_message = trim welcome;
  updated_at = now;
}

-- The tables with the settings in them.
abbrev with_contacts : Format Contacts → Contacts → Tables → Tables
with_contacts f c t = record t { settings = put_value contacts_key (f.encode c) t.settings }

module _ (f : Format Contacts) (now : ℕ) (ids : List ℕ) (welcome : Text) (t : Tables)
    (s : List (Unit {0})) where
  -- The settings that are returned and then read: the ids that are given and not 0, each once, all of
  -- them those of users who are not deleted.
  abbrev pub Stored : Result SettingsError Contacts × World Tables (Unit {0}) → Type 0
  Stored x =
      let c = saved_contacts now ids welcome in
      (x.0 ≡ ok c)
      × (get_contacts f x.1 ≡ (ok (c, true), x.1))
      × Distinct c.user_ids
      × ((k : ℕ) → contains k c.user_ids ≡ (not (k == 0) && contains k ids))
      × EachLive t.users ids

  get_contacts-with_contacts :
      (let c = saved_contacts now ids welcome in f.decode (f.encode c) ≡ some c)
      → is_empty (f.encode (saved_contacts now ids welcome)) ≡ false
      → let c = saved_contacts now ids welcome in
        get_contacts f (quiet (with_contacts f c t) s)
        ≡ (ok (c, true), quiet (with_contacts f c t) s)
  unfolding run_sql get_contacts
  get_contacts-with_contacts e n =
      rw
        (
          value_of-put_value contacts_key (f.encode (saved_contacts now ids welcome)) t.settings,
          n,
          e,
          normalize_again ids,
          trim-trim welcome,
        )
        refl

  save_contacts-run :
      (length (normalize_user_id_list ids) == 0) ≡ true
        ⊎ ((length (existing_of (normalize_user_id_list ids) t.users)
              == length (normalize_user_id_list ids))
            ≡ true)
      → let c = saved_contacts now ids welcome in
        save_contacts f now ids welcome (quiet t s) ≡ (ok c, quiet (with_contacts f c t) s)
  unfolding run_sql save_contacts existing_user_ids existing_of
  save_contacts-run (inl y) = rw y refl
  save_contacts-run (inr y) = elim (Bool-cases (length (normalize_user_id_list ids) == 0)) [
    | inl e ↦ rw e refl
    | inr n ↦ rw (n, normalize_again ids, n, y) refl
  ]

  save_contacts-refused :
      (length (normalize_user_id_list ids) == 0) ≡ false
      → (length (existing_of (normalize_user_id_list ids) t.users)
          == length (normalize_user_id_list ids))
        ≡ false
      → save_contacts f now ids welcome (quiet t s) ≡ (err missing_users, quiet t s)
  unfolding run_sql save_contacts existing_user_ids existing_of
  save_contacts-refused n m = rw (n, normalize_again ids, n, m) refl

-- Where no statement fails and JSON decodes what it encoded, to a text that is not empty: if each id
-- that is given and positive is that of a user who is not deleted, then
-- SaveDefaultAdminContactsSettings returns the settings with exactly these ids, each once, and the
-- welcome text trimmed, and GetDefaultAdminContactsSettings then returns the same; or else one of
-- them is not, and it is refused and changes nothing.
pub save_contacts-Stored :
    (f : Format Contacts) (now : ℕ) (ids : List ℕ) (welcome : Text) (t : Tables)
    (s : List (Unit {0}))
    → ((c : Contacts) → f.decode (f.encode c) ≡ some c)
    → ((c : Contacts) → is_empty (f.encode c) ≡ false)
    → let x = save_contacts f now ids welcome (quiet t s) in
      Stored f now ids welcome t s x
      ⊎ ((x ≡ (err missing_users, quiet t s)) × (EachLive t.users ids → ⊥))
save_contacts-Stored f now ids welcome t s e n =
    let read = get_contacts-with_contacts f now ids welcome t s (e _) (n _) in
    let members = λ (k : ℕ). contains-normalize k ids in
    let once = normalize-Distinct ids in
    elim (Bool-cases (length (normalize_user_id_list ids) == 0)) [
      | inl y ↦
          let live = found-EachLive t.users ids (none_wanted t.users ids y) in
          inl
            (rw (save_contacts-run f now ids welcome t s (inl y)) (refl, read, once, members, live))
      | inr z ↦
          elim (Bool-cases (
            length (existing_of (normalize_user_id_list ids) t.users)
            == length (normalize_user_id_list ids))) [
              | inl y ↦
                  let live = found-EachLive t.users ids ((==_iff _ _).0 y) in
                  inl (
                    rw (save_contacts-run f now ids welcome t s (inr y))
                      (refl, read, once, members, live))
              | inr m ↦ inr (
                save_contacts-refused f now ids welcome t s z m,
                λ live. let same = EachLive-found t.users ids live in ground arith,
              )
            ]
    ]
