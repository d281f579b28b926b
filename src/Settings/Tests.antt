-- ===== src/Settings/Tests.antt =====
-- Contacts that are saved and refused, and the theorem at them.
use hsgram_admin.Prelude.{
  ℕ, zero, suc, ◌≡◌, ◌⊎◌, refl, ap, ◌∙◌, true, false, Option, none, some, List, [], ◌∷◌, ◌++◌,
}
use mathlib.Core.List.{append-nil, append_assoc}
use hsgram_admin.Prelude.Lists.{length}
use hsgram_admin.Prelude.Text.{Text, codes, text_eq, trim}
use hsgram_admin.Sql.{err, quiet, run_sql}
use hsgram_admin.Settings.{
  Contacts, Tables, missing_users, Format, normalize_user_id_list, existing_user_ids, save_contacts,
}
use hsgram_admin.Settings.Live.{EachLive}
use hsgram_admin.Settings.Saved.{Stored, save_contacts-Stored}

-- The ids and the time, each with the number of what follows, and the text.
abbrev encode : Contacts → Text
encode c = c.updated_at ∷ length c.user_ids ∷ (c.user_ids ++ c.welcome_message)

abbrev split : ℕ → ℕ → List ℕ → Text → Option Contacts
split now zero ids s = some (record { user_ids = ids; welcome_message = s; updated_at = now })
split now (suc n) ids [] = none
split now (suc n) ids (i ∷ s) = split now n (ids ++ (i ∷ [])) s

abbrev decode : Text → Option Contacts
decode [] = none
decode (now ∷ []) = none
decode (now ∷ n ∷ s) = split now n [] s

abbrev format : Format Contacts
format = record { encode = encode; decode = decode }

split-append :
    (now : ℕ) (is js : List ℕ) (m : Text)
    → split now (length is) js (is ++ m)
      ≡ some (record { user_ids = js ++ is; welcome_message = m; updated_at = now })
split-append now [] js m = rw (append-nil js) refl
split-append now (i ∷ is) js m =
    split-append now is (js ++ (i ∷ [])) m
    ∙ ap (λ (l : List ℕ). some (record { user_ids = l; welcome_message = m; updated_at = now }))
        (append_assoc js (i ∷ []) is)

decode-encode : (c : Contacts) → decode (encode c) ≡ some c
decode-encode c = split-append c.updated_at c.user_ids [] c.welcome_message

abbrev tables : Tables
tables = record {
  settings = [];
  users =
      record { id = 3; deleted = false }
      ∷ record { id = 5; deleted = false }
      ∷ record { id = 7; deleted = true }
      ∷ [];
}

refused :
    save_contacts format 10 (3 ∷ 7 ∷ []) [] (quiet tables []) ≡ (err missing_users, quiet tables [])
unfolding run_sql save_contacts existing_user_ids normalize_user_id_list text_eq trim
refused = refl

save_contacts-Stored_example :
    let x = save_contacts format 10 (5 ∷ 0 ∷ 3 ∷ 5 ∷ []) (codes " hi ") (quiet tables []) in
    Stored format 10 (5 ∷ 0 ∷ 3 ∷ 5 ∷ []) (codes " hi ") tables [] x
    ⊎ ((x ≡ (err missing_users, quiet tables []))
        × (EachLive tables.users (5 ∷ 0 ∷ 3 ∷ 5 ∷ []) → ⊥))
save_contacts-Stored_example =
    save_contacts-Stored format 10 (5 ∷ 0 ∷ 3 ∷ 5 ∷ []) (codes " hi ") tables [] decode-encode
      (λ c. refl)
