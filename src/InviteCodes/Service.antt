-- ===== src/InviteCodes/Service.antt =====
-- The methods of backend/internal/invitecodes/service.go, of a service that has a store.
use hsgram_admin.Prelude.{
  ℕ, suc, ◌%◌, Bool, true, false, not, ◌&&◌, ◌||◌, Option, none, some, List, [], ◌∷◌, ◌++◌, ltb,
  leb, ◌==◌, if◌then◌else◌,
}
use hsgram_admin.Prelude.Integer.{is_negative, to_nat}
use hsgram_admin.Prelude.Decimal.{show}
use hsgram_admin.Prelude.Lists.{length, get_elem?, order_by}
use hsgram_admin.Prelude.Text.{Text, codes, trim, is_empty, text_eq}
use hsgram_admin.Sql.{pure, raise, statement, query, exec, or_raise, ◌>>=◌, ◌>>◌}
use hsgram_admin.InviteCodes.Types.{
  Code, Usage, Detail, CreateRequest, Settings, Field, Store, code_exists, code_not_found,
  code_invalid, bad_json, Outside, Action,
}

-- The commands HGET, HSET and HSETNX on a hash.
unfoldable pub hget : Text → List Field → Option Text
hget k [] = none
hget k (f ∷ fs) = if text_eq f.name k then some f.value else hget k fs

unfoldable pub hset : Text → Text → List Field → List Field
hset k v [] = record { name = k; value = v } ∷ []
hset k v (f ∷ fs) = if text_eq f.name k then record f { value = v } ∷ fs else f ∷ hset k v fs

abbrev pub is_some : {A : Type 0} → Option A → Bool
is_some none = false
is_some (some a) = true

unfoldable pub hsetnx : Text → Text → List Field → Bool × List Field
unfolding hget hset
hsetnx k v fs = if is_some (hget k fs) then (false, fs) else (true, hset k v fs)

-- Go's `<` on strings.
abbrev pub text_lt : Text → Text → Bool
text_lt [] [] = false
text_lt [] (d ∷ t) = true
text_lt (c ∷ s) [] = false
text_lt (c ∷ s) (d ∷ t) = ltb c d || (c == d && text_lt s t)

abbrev pub is_code_char : ℕ → Bool
is_code_char c = (leb b'A' c && leb c b'Z') || ((leb b'0' c && leb c b'9') || c == b'-')

abbrev pub all_code_chars : Text → Bool
all_code_chars [] = true
all_code_chars (c ∷ s) = is_code_char c && all_code_chars s

-- The length counts bytes, which are the characters where all of these are allowed.
unfoldable pub is_code_allowed : Text → Bool
is_code_allowed code = not (ltb (length code) 4 || ltb 32 (length code)) && all_code_chars code

abbrev pub alphabet : Text
alphabet = codes "ABCDEFGHJKLMNPQRSTUVWXYZ23456789"

abbrev pub letter : Option ℕ → ℕ
letter none = 0
letter (some c) = c

-- The loop over the random bytes, from the `i`-th on.
unfoldable pub letters : ℕ → List ℕ → Text
unfolding codes
letters i [] = []
letters i (b ∷ bs) =
    let rest = letter (get_elem? alphabet (b % 32)) ∷ letters (suc i) bs in
    if i == 4 then b'-' ∷ rest else rest

-- `random` is what rand.Read gives, `unix` the time.
unfoldable pub generate_code : Option (List ℕ) → ℕ → Text
unfolding letters codes
generate_code none unix = codes "HS-" ++ show unix
generate_code (some bytes) unix = letters 0 bytes

unfoldable pub decoded : {A : Type 0} → (Text → Option A) → List Field → List A
decoded f [] = []
decoded f (x ∷ xs) = elim (f x.value) [ none ↦ decoded f xs | some a ↦ a ∷ decoded f xs ]

abbrev pub code_before : Code → Code → Bool
code_before a b =
    if a.created_at == b.created_at
    then not (text_lt b.code a.code)
    else ltb b.created_at a.created_at

abbrev usage_before : Usage → Usage → Bool
usage_before a b =
    if a.used_at == b.used_at then not (text_lt b.usage_id a.usage_id) else ltb b.used_at a.used_at

abbrev pub default_settings : Settings
default_settings = record { enabled = false; updated_at = 0 }

module _ (o : Outside) where
  abbrev pub normalize_code : Text → Text
  normalize_code code = o.upper (trim code)

  unfoldable pub list_codes : Action (List Code)
  unfolding decoded
  list_codes = query (λ t. order_by code_before (decoded o.decode_code t.codes))

  abbrev pub or_generated : Option (List ℕ) → ℕ → Text → Text
  or_generated random now [] = generate_code random now
  or_generated random now (c ∷ s) = c ∷ s

  unfoldable pub new_code : ℕ → Text → CreateRequest → Text → Code
  new_code now actor req code = record {
    code = code;
    note = trim req.note;
    max_uses = to_nat req.max_uses;
    used_count = 0;
    enabled = true;
    created_by = trim actor;
    created_at = now;
    updated_at = now;
  }

  abbrev pub set_codes : List Field → Store → Store
  set_codes fs t = record t { codes = fs }

  unfoldable pub insert_code : Code → Store → Bool × Store
  unfolding hsetnx
  insert_code c t = let (new, fs) = hsetnx c.code (o.encode_code c) t.codes in (new, set_codes fs t)

  abbrev pub create_as : ℕ → Text → CreateRequest → Text → Action Code
  create_as now actor req code =
      if not (is_code_allowed code)
      then raise code_invalid
      else if is_negative req.max_uses
      then raise code_invalid
      else (do
        new ← statement (insert_code (new_code now actor req code))
        if new then pure (new_code now actor req code) else raise code_exists)

  unfoldable pub create_code : Option (List ℕ) → ℕ → Text → CreateRequest → Action Code
  unfolding insert_code new_code is_code_allowed generate_code
  create_code random now actor req =
      create_as now actor req (or_generated random now (normalize_code req.code))

  -- An empty value counts as a missing one.
  abbrev pub found : Option Text → Action Text
  found none = raise code_not_found
  found (some raw) = if is_empty raw then raise code_not_found else pure raw

  unfoldable pub get_code : Text → Action Code
  get_code raw_code =
      let code = normalize_code raw_code in
      if is_empty code then raise code_invalid else (do
        value ← query (λ t. hget code t.codes)
        raw ← found value
        or_raise bad_json (o.decode_code raw))

  abbrev pub uses_key : Text → Text
  uses_key raw_code = codes "hs:signup_invite:uses:" ++ normalize_code raw_code

  unfoldable pub get_detail : Text → Action Detail
  unfolding get_code decoded
  get_detail raw_code = do
    code ← get_code raw_code
    usages ←
        query (λ t. order_by usage_before (decoded o.decode_usage (t.uses (uses_key raw_code))))
    pure (record { code = code; usages = usages })

  unfoldable pub enabled_code : ℕ → Bool → Code → Code
  enabled_code now enabled c = record c { enabled = enabled; updated_at = now }

  unfoldable pub set_code_enabled : ℕ → Text → Bool → Action Code
  unfolding get_code hset enabled_code
  set_code_enabled now raw_code enabled = do
    c ← get_code raw_code
    exec (λ t. set_codes (hset c.code (o.encode_code (enabled_code now enabled c)) t.codes) t)
    pure (enabled_code now enabled c)

  abbrev pub read_settings : Option Text → Settings
  read_settings none = default_settings
  read_settings (some raw) =
      if is_empty raw
      then default_settings
      else elim (o.decode_settings raw) [ none ↦ default_settings | some s ↦ s ]

  unfoldable pub get_settings : Action Settings
  get_settings = query (λ t. read_settings t.settings)

  unfoldable pub update_settings : ℕ → Bool → Action Settings
  unfolding get_settings
  update_settings now enabled = do
    s ← get_settings
    let s' : Settings = record s { enabled = enabled; updated_at = now }
    exec (λ t. record t { settings = some (o.encode_settings s') })
    pure s'
