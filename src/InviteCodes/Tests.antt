-- ===== src/InviteCodes/Tests.antt =====
-- Codes that are created and switched off, and the theorems at them.
use hsgram_admin.Prelude.{
  ℕ, ◌≡◌, refl, none, some, List, [], ◌∷◌, ◌++◌, ◌==◌, true, false, Bool, Option, if◌then◌else◌,
}
use hsgram_admin.Prelude.Integer.{pos}
use hsgram_admin.Prelude.Lists.{length, take, drop}
use hsgram_admin.Apk.RoundTrip.{take-all, drop-all}
use hsgram_admin.Prelude.Text.{Text, trim, text_eq}
use hsgram_admin.Sql.{ok, err, quiet, World}
use hsgram_admin.InviteCodes.Types.{Code, CreateRequest, Store, Outside, code_exists}
use hsgram_admin.InviteCodes.Service.{
  hget, is_code_allowed, generate_code, normalize_code, new_code, or_generated, create_code,
  get_code, set_code_enabled,
}
use hsgram_admin.InviteCodes.Invariant.{
  Inv, Call, create, enable, configure, invite_history, invite_history-Inv,
}
use hsgram_admin.InviteCodes.Created.{
  with_code, created-found, enabled-found, generate_code-allowed,
}

-- In place of JSON: the numbers, then each text with its length in front.
abbrev flag : Bool → ℕ
flag b = if b then 1 else 0

abbrev encode : Code → Text
encode c =
    c.max_uses
    ∷ c.used_count
    ∷ flag c.enabled
    ∷ c.created_at
    ∷ c.updated_at
    ∷ length c.code
    ∷ (c.code ++ (length c.note ∷ (c.note ++ c.created_by)))

abbrev decode_rest : ℕ → ℕ → ℕ → ℕ → ℕ → Text → Text → Option Code
decode_rest m u e a b code [] = none
decode_rest m u e a b code (n ∷ s) = some (record {
  code = code;
  note = take n s;
  max_uses = m;
  used_count = u;
  enabled = e == 1;
  created_by = drop n s;
  created_at = a;
  updated_at = b;
})

abbrev decode : Text → Option Code
decode (m ∷ u ∷ e ∷ a ∷ b ∷ n ∷ s) = decode_rest m u e a b (take n s) (drop n s)
decode s = none

flag-back : (b : Bool) → (flag b == 1) ≡ b
flag-back true = refl
flag-back false = refl

decode-encode : (c : Code) → decode (encode c) ≡ some c
decode-encode c =
    let rest = length c.note ∷ (c.note ++ c.created_by) in
    rw
      (
        take-all c.code rest,
        drop-all c.code rest,
        take-all c.note c.created_by,
        drop-all c.note c.created_by,
        flag-back c.enabled,
      )
      refl

abbrev outside : Outside
outside = record {
  upper = λ s. s;
  encode_code = encode;
  decode_code = decode;
  decode_usage = λ s. none;
  encode_settings = λ s. [];
  decode_settings = λ s. none;
}

abbrev vip : Text
vip = b'V' ∷ b'I' ∷ b'P' ∷ b'-' ∷ b'1' ∷ []

abbrev request : CreateRequest
request = record { code = vip; note = b'n' ∷ []; max_uses = pos 3 }

abbrev no_codes : Store
no_codes = record { codes = []; uses = λ k. []; settings = none }

abbrev calls : List Call
calls =
    create none 5 (b'a' ∷ []) request
    ∷ enable 6 vip false
    ∷ create (some (1 ∷ 2 ∷ 3 ∷ 4 ∷ 5 ∷ 6 ∷ 7 ∷ 8 ∷ [])) 7 (b'a' ∷ [])
        (record request { code = [] })
    ∷ configure 8 true
    ∷ []

-- The third command fails.
abbrev shaky : World Store (Unit {0})
shaky = record { tables = no_codes; faults = false ∷ false ∷ true ∷ []; sent = [] }

invite_history-Inv_example : Inv outside (invite_history outside calls shaky).tables
invite_history-Inv_example =
    invite_history-Inv outside calls shaky decode-encode (record { sound = tt; apart = tt })

given : or_generated outside none 5 (normalize_code outside request.code) ≡ vip
unfolding trim
given = refl

allowed : is_code_allowed vip ≡ true
unfolding is_code_allowed
allowed = refl

free : hget vip no_codes.codes ≡ none
unfolding hget
free = refl

asked : normalize_code outside vip ≡ vip
unfolding trim
asked = refl

created-found_example :
    (create_code outside none 5 (b'a' ∷ []) request (quiet no_codes []) ≡ (
      ok (new_code outside 5 (b'a' ∷ []) request vip),
      quiet (with_code outside (new_code outside 5 (b'a' ∷ []) request vip) no_codes) [],
    ))
    × (get_code outside vip
          (quiet (with_code outside (new_code outside 5 (b'a' ∷ []) request vip) no_codes) [])
        ≡ (
          ok (new_code outside 5 (b'a' ∷ []) request vip),
          quiet (with_code outside (new_code outside 5 (b'a' ∷ []) request vip) no_codes) [],
        ))
    × (create_code outside none 5
          (b'a' ∷ [])
          request
          (quiet (with_code outside (new_code outside 5 (b'a' ∷ []) request vip) no_codes) [])
        ≡ (
          err code_exists,
          quiet (with_code outside (new_code outside 5 (b'a' ∷ []) request vip) no_codes) [],
        ))
created-found_example =
    created-found outside none 5 (b'a' ∷ []) vip request vip no_codes []
      (λ c. (decode-encode c, refl)) given allowed refl free asked

generate_code-allowed_example :
    is_code_allowed (generate_code (some (1 ∷ 2 ∷ 3 ∷ 4 ∷ 5 ∷ 6 ∷ 7 ∷ 255 ∷ [])) 60) ≡ true
generate_code-allowed_example = generate_code-allowed 1 2 3 4 5 6 7 255 60

abbrev card : Code
card = new_code outside 5 (b'a' ∷ []) request vip

abbrev stored : Store
stored = with_code outside card no_codes

card-found : get_code outside vip (quiet stored []) ≡ (ok card, quiet stored [])
card-found =
    (created-found outside none 5 (b'a' ∷ []) vip request vip no_codes []
      (λ c. (decode-encode c, refl)) given allowed refl free asked).1

vip-named : normalize_code outside vip ≡ card.code
unfolding trim new_code
vip-named = refl

card-allowed : is_code_allowed card.code ≡ true
unfolding is_code_allowed new_code
card-allowed = refl

enabled-found_example :
    (set_code_enabled outside 9 vip false (quiet stored []) ≡ (
      ok (record card { enabled = false; updated_at = 9 }),
      quiet (with_code outside (record card { enabled = false; updated_at = 9 }) stored) [],
    ))
    × (get_code outside vip
          (quiet (with_code outside (record card { enabled = false; updated_at = 9 }) stored) [])
        ≡ (
          ok (record card { enabled = false; updated_at = 9 }),
          quiet (with_code outside (record card { enabled = false; updated_at = 9 }) stored) [],
        ))
    × ((j : Text)
        → text_eq card.code j ≡ false
        → hget j (with_code outside (record card { enabled = false; updated_at = 9 }) stored).codes
          ≡ hget j stored.codes)
enabled-found_example =
    enabled-found outside 9 vip false card stored [] (λ c. (decode-encode c, refl)) card-found
      vip-named card-allowed
