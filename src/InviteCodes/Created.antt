-- ===== src/InviteCodes/Created.antt =====
-- A code that was created is found, and generated codes are allowed.
use hsgram_admin.Prelude.{
  ℕ, ◌%◌, ◌<◌, suc, zero, ◌≡◌, refl, Bool, true, false, Option, none, some, List, [], ◌∷◌, inl, inr,
  arith, Bool-cases,
}
use hsgram_admin.Prelude.Integer.{is_negative}
use hsgram_admin.Prelude.Lists.{All, length, get_elem?}
use hsgram_admin.Prelude.Text.{Text, codes, is_empty, text_eq}
use hsgram_admin.Sql.{ok, err, quiet, run_sql}
use hsgram_admin.InviteCodes.Types.{Code, CreateRequest, Store, code_exists, Outside}
use hsgram_admin.InviteCodes.Service.{
  hget, hset, hsetnx, is_code_char, all_code_chars, is_code_allowed, alphabet, letter, letters,
  generate_code, normalize_code, new_code, set_codes, insert_code, create_as, or_generated,
  create_code, get_code, enabled_code, set_code_enabled,
}
use hsgram_admin.InviteCodes.Hash.{hget-hset_same, hget-hset_other}

-- The store with a record under its code.
abbrev pub with_code : Outside → Code → Store → Store
with_code o c t = set_codes o (hset c.code (o.encode_code c) t.codes) t

module _ (o : Outside) (t : Store) (s : List Unit) where
  get_code-with_code :
      (c : Code) (raw : Text)
      → o.decode_code (o.encode_code c) ≡ some c
      → is_empty (o.encode_code c) ≡ false
      → is_empty c.code ≡ false
      → normalize_code o raw ≡ c.code
      → get_code o raw (quiet (with_code o c t) s) ≡ (ok c, quiet (with_code o c t) s)
  unfolding run_sql get_code
  get_code-with_code c raw e f n k =
      rw (k, n, hget-hset_same c.code (o.encode_code c) t.codes, f, e) refl

  create_as-free :
      (now : ℕ) (actor : Text) (req : CreateRequest) (code : Text)
      → is_code_allowed code ≡ true
      → is_negative req.max_uses ≡ false
      → hget code t.codes ≡ none
      → let c = new_code o now actor req code in
        create_as o now actor req code (quiet t s) ≡ (ok c, quiet (with_code o c t) s)
  unfolding run_sql insert_code hsetnx new_code
  create_as-free now actor req code a m h = rw (a, m, h) refl

  create_as-taken :
      (now : ℕ) (actor : Text) (req : CreateRequest) (code raw : Text)
      → is_code_allowed code ≡ true
      → is_negative req.max_uses ≡ false
      → hget code t.codes ≡ some raw
      → create_as o now actor req code (quiet t s) ≡ (err code_exists, quiet t s)
  unfolding run_sql insert_code hsetnx new_code
  create_as-taken now actor req code raw a m h = rw (a, m, h) refl

allowed-filled : (code : Text) → is_code_allowed code ≡ true → is_empty code ≡ false
unfolding is_code_allowed
allowed-filled [] h = cc
allowed-filled (c ∷ s) h = refl

-- Where no command fails, JSON decodes what it encoded, and an allowed code that is given or
-- generated is not there yet and is not to be used a negative number of times, CreateCode returns
-- the code; getCode then finds it under each text that is normalised to it, and a second CreateCode
-- for it is refused and changes nothing.
pub created-found :
    (o : Outside) (random : Option (List ℕ)) (now : ℕ) (actor raw : Text) (req : CreateRequest)
    (code : Text) (t : Store) (s : List Unit)
    → ((c : Code)
        → (o.decode_code (o.encode_code c) ≡ some c) × (is_empty (o.encode_code c) ≡ false))
    → or_generated o random now (normalize_code o req.code) ≡ code
    → is_code_allowed code ≡ true
    → is_negative req.max_uses ≡ false
    → hget code t.codes ≡ none
    → normalize_code o raw ≡ code
    → let c = new_code o now actor req code in
      let u = with_code o c t in
      (create_code o random now actor req (quiet t s) ≡ (ok c, quiet u s))
      × (get_code o raw (quiet u s) ≡ (ok c, quiet u s))
      × (create_code o random now actor req (quiet u s) ≡ (err code_exists, quiet u s))
unfolding create_code new_code
created-found o random now actor raw req code t s json e a m free n =
    let c = new_code o now actor req code in
    let u = with_code o c t in
    let first = create_as-free o t s now actor req code a m free in
    let again =
      create_as-taken o u s now actor req code (o.encode_code c) a m
        (hget-hset_same code (o.encode_code c) t.codes) in
    (
      rw e first,
      get_code-with_code o t s c raw (json c).0 (json c).1 (allowed-filled code a) n,
      rw e again,
    )

letter-IsCode :
    (s : Text) (i : ℕ)
    → All (λ c. is_code_char c ≡ true) s
    → i < length s
    → is_code_char (letter (get_elem? s i)) ≡ true
letter-IsCode [] i h k = absurd (omega arith)
letter-IsCode (c ∷ s) zero h k = h.0
letter-IsCode (c ∷ s) (suc i) h k = letter-IsCode s i h.1 (omega arith)

all_code_chars-All : (s : Text) → all_code_chars s ≡ true → All (λ c. is_code_char c ≡ true) s
all_code_chars-All [] h = tt
all_code_chars-All (c ∷ s) h = elim (Bool-cases (is_code_char c)) [
  | inl y ↦ (y, all_code_chars-All s (rw y at h))
  | inr n ↦ let no : false ≡ true = rw n at h in cc
]

alphabet-IsCode : All (λ c. is_code_char c ≡ true) alphabet
unfolding codes
alphabet-IsCode = all_code_chars-All alphabet refl

byte-IsCode : (b : ℕ) → is_code_char (letter (get_elem? alphabet (b % 32))) ≡ true
unfolding codes
byte-IsCode b = letter-IsCode alphabet (b % 32) alphabet-IsCode (omega arith)

-- Whatever eight bytes are random, the code that is generated from them is allowed.
pub generate_code-allowed :
    (a b c d e f g h unix : ℕ)
    → is_code_allowed (generate_code (some (a ∷ b ∷ c ∷ d ∷ e ∷ f ∷ g ∷ h ∷ [])) unix) ≡ true
unfolding is_code_allowed generate_code letters codes
generate_code-allowed a b c d e f g h unix =
    rw
      (
        byte-IsCode a,
        byte-IsCode b,
        byte-IsCode c,
        byte-IsCode d,
        byte-IsCode e,
        byte-IsCode f,
        byte-IsCode g,
        byte-IsCode h,
      )
      refl

-- Where no command fails, JSON decodes what it encoded, and a text finds the allowed code that it is
-- normalised to, SetCodeEnabled returns this code with the switch and the time that were given and all
-- else as it was; the text then finds it so, and the value of every other field of the hash is the
-- old one.
pub enabled-found :
    (o : Outside) (now : ℕ) (raw : Text) (enabled : Bool) (c : Code) (t : Store) (s : List Unit)
    → ((d : Code)
        → (o.decode_code (o.encode_code d) ≡ some d) × (is_empty (o.encode_code d) ≡ false))
    → get_code o raw (quiet t s) ≡ (ok c, quiet t s)
    → normalize_code o raw ≡ c.code
    → is_code_allowed c.code ≡ true
    → let d : Code = record c { enabled = enabled; updated_at = now } in
      let u = with_code o d t in
      (set_code_enabled o now raw enabled (quiet t s) ≡ (ok d, quiet u s))
      × (get_code o raw (quiet u s) ≡ (ok d, quiet u s))
      × ((j : Text) → text_eq c.code j ≡ false → hget j u.codes ≡ hget j t.codes)
unfolding run_sql set_code_enabled enabled_code
enabled-found o now raw enabled c t s json e n a =
    let d : Code = record c { enabled = enabled; updated_at = now } in
    (
      rw e refl,
      get_code-with_code o t s d raw (json d).0 (json d).1 (allowed-filled c.code a) n,
      λ j other. hget-hset_other j c.code (o.encode_code d) t.codes other,
    )
