-- ===== src/InviteCodes/Invariant.antt =====
-- The hash of codes over any sequence of calls.
use hsgram_admin.Prelude.{
  ℕ, ◌≡◌, sym, Bool, true, Option, none, some, List, [], ◌∷◌, inl, inr, Bool-cases,
}
use hsgram_admin.Prelude.Integer.{is_negative}
use hsgram_admin.Prelude.Lists.{All, OptionOf}
use hsgram_admin.Prelude.Text.{Text, is_empty}
use hsgram_admin.Sql.{World}
use hsgram_admin.Sql.Triple.{
  Triple, Anything, Triple-pure, Triple-raise, Triple-or_raise, Triple-statement, Triple-exec,
  Triple-bind, Triple-if,
}
use hsgram_admin.InviteCodes.Types.{
  Code, CreateRequest, Field, Store, code_exists, code_not_found, code_invalid, bad_json, Outside,
}
use hsgram_admin.InviteCodes.Service.{
  hget, hset, hsetnx, is_some, is_code_allowed, normalize_code, new_code, set_codes, insert_code,
  create_as, or_generated, create_code, found, get_code, enabled_code, set_code_enabled,
  update_settings, get_settings,
}
use hsgram_admin.InviteCodes.Hash.{hset-All, hget-All, hset-Apart, Apart}

module _ (o : Outside) where
  -- A field is named by the code that its value is the JSON of, and the code is allowed.
  pub record IsSound (f : Field) : Type 0 where
    pub allowed : is_code_allowed f.name ≡ true
    pub record_of : Code
    pub read : o.decode_code f.value ≡ some record_of
    pub named : record_of.code ≡ f.name

  pub record Inv (t : Store) : Type 0 where
    pub sound : All IsSound t.codes
    pub apart : Apart t.codes

  module _ (encoded : (c : Code) → o.decode_code (o.encode_code c) ≡ some c) where
    hset-Inv :
        (c : Code) (t : Store)
        → is_code_allowed c.code ≡ true
        → Inv t
        → Inv (set_codes o (hset c.code (o.encode_code c) t.codes) t)
    hset-Inv c t a h = record {
      sound =
          hset-All IsSound c.code (o.encode_code c) t.codes
            (λ f e v. record {
              allowed = rw e a;
              record_of = c;
              read = rw v (encoded c);
              named = sym e;
            })
            h.sound;
      apart = hset-Apart c.code (o.encode_code c) t.codes h.apart;
    }

    insert_code-Inv :
        (c : Code) (t : Store) → is_code_allowed c.code ≡ true → Inv t → Inv (insert_code o c t).1
    unfolding insert_code hsetnx
    insert_code-Inv c t a h = elim (Bool-cases (is_some (hget c.code t.codes))) [
      | inl y ↦ rw y h
      | inr n ↦ rw n (hset-Inv c t a h)
    ]

    create_as-Inv :
        (now : ℕ) (actor : Text) (req : CreateRequest) (code : Text)
        → Triple Inv (create_as o now actor req code) Anything
    unfolding new_code
    create_as-Inv now actor req code = elim (Bool-cases (is_code_allowed code)) [
      | inr n ↦ rw n (Triple-raise code_invalid)
      | inl y ↦ rw y (
          Triple-if (is_negative req.max_uses) _ _ (Triple-raise code_invalid) (
            Triple-bind {Q = Anything}
              (Triple-statement _
                (λ t h. (insert_code-Inv (new_code o now actor req code) t y h, tt)))
              (λ new _. Triple-if new _ _ (Triple-pure _ tt) (Triple-raise code_exists))))
    ]

    abbrev Allowed : Code → Type 0
    Allowed c = is_code_allowed c.code ≡ true

    -- What a value of the hash decodes to.
    abbrev Readable : Text → Type 0
    Readable raw = OptionOf Allowed (o.decode_code raw)

    IsSound-Readable : (k : Text) (f : Field) → f.name ≡ k → IsSound f → Readable f.value
    IsSound-Readable k f e h = rw h.read (rw h.named h.allowed)

    found-Triple : (v : Option Text) → OptionOf Readable v → Triple Inv (found o v) Readable
    found-Triple none h = Triple-raise code_not_found
    found-Triple (some raw) h =
        Triple-if (is_empty raw) _ _ (Triple-raise code_not_found) (Triple-pure raw h)

    get_code-Triple : (raw : Text) → Triple Inv (get_code o raw) Allowed
    unfolding get_code
    get_code-Triple raw =
        Triple-if (is_empty (normalize_code o raw)) _ _ (Triple-raise code_invalid) (
          Triple-bind {Q = OptionOf Readable}
            (Triple-statement _ (λ t h. (
              h,
              hget-All IsSound Readable (normalize_code o raw) t.codes
                  (IsSound-Readable (normalize_code o raw)) h.sound,
            )))
            (λ v q.
              Triple-bind {Q = Readable} (found-Triple v q)
                (λ text r. Triple-or_raise bad_json (o.decode_code text) r)))

    set_code_enabled-Inv :
        (now : ℕ) (raw : Text) (enabled : Bool)
        → Triple Inv (set_code_enabled o now raw enabled) Anything
    unfolding set_code_enabled enabled_code
    set_code_enabled-Inv now raw enabled = Triple-bind {Q = Allowed} (get_code-Triple raw) (λ c a.
        Triple-bind {Q = Anything}
          (Triple-exec _ (λ t h. hset-Inv (enabled_code o now enabled c) t a h))
          (λ _ _. Triple-pure _ tt))

    update_settings-Inv :
        (now : ℕ) (enabled : Bool) → Triple Inv (update_settings o now enabled) Anything
    unfolding update_settings get_settings
    update_settings-Inv now enabled =
        Triple-bind {Q = Anything} (Triple-statement _ (λ t h. (h, tt))) (λ s _.
          Triple-bind {Q = Anything}
            (Triple-exec _ (λ t h. record { sound = h.sound; apart = h.apart }))
            (λ _ _. Triple-pure _ tt))

-- The calls that write, each at its time.
pub data Call : Type 0 where
  create : Option (List ℕ) → ℕ → Text → CreateRequest → Call
  enable : ℕ → Text → Bool → Call
  configure : ℕ → Bool → Call

-- The store behind the calls, whatever they answer.
abbrev pub invite_history : Outside → List Call → World Store (Unit {0}) → World Store (Unit {0})
invite_history o [] w = w
invite_history o (create random now actor req ∷ cs) w =
    invite_history o cs (create_code o random now actor req w).1
invite_history o (enable now raw enabled ∷ cs) w =
    invite_history o cs (set_code_enabled o now raw enabled w).1
invite_history o (configure now enabled ∷ cs) w =
    invite_history o cs (update_settings o now enabled w).1

-- Where JSON decodes what it encoded: if the hash of codes is well formed, it is so behind any
-- sequence of CreateCode, SetCodeEnabled and UpdateSettings, with any commands failing: its fields
-- are different, each is an allowed code, and its value is the JSON of the code that it is named by.
pub invite_history-Inv :
    (o : Outside) (cs : List Call) (w : World Store (Unit {0}))
    → ((c : Code) → o.decode_code (o.encode_code c) ≡ some c)
    → Inv o w.tables
    → Inv o (invite_history o cs w).tables
unfolding create_code
invite_history-Inv o [] w e h = h
invite_history-Inv o (create random now actor req ∷ cs) w e h =
    invite_history-Inv o cs _ e
      ((create_as-Inv o e now actor req (or_generated o random now (normalize_code o req.code))).run
        w h).0
invite_history-Inv o (enable now raw enabled ∷ cs) w e h =
    invite_history-Inv o cs _ e ((set_code_enabled-Inv o e now raw enabled).run w h).0
invite_history-Inv o (configure now enabled ∷ cs) w e h =
    invite_history-Inv o cs _ e ((update_settings-Inv o e now enabled).run w h).0
