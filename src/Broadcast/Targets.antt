-- ===== src/Broadcast/Targets.antt =====
-- Who a broadcast goes to: `splitIdentifiers`, `ResolveSelectedRecipients`, `buildRecipientQuery`
-- and the queries made of it (backend/internal/store/broadcast.go), `joinName` (store.go).
use hsgram_admin.Prelude.{
  ℕ, Bool, true, false, not, ◌&&◌, ◌||◌, Option, none, some, List, [], ◌∷◌, ◌++◌, map, leb, ◌==◌,
  if◌then◌else◌, ◌⊎◌, inl, inr,
}
use hsgram_admin.Prelude.Lists.{
  length, take, drop, rows_where, first_where, any_where, order_by, contains,
}
use hsgram_admin.Prelude.Text.{Text, codes, is_empty, trim, text_eq}
use hsgram_admin.Sql.{Result, ok, err, pure, raise, query, or_raise, attempt, return_result, ◌>>=◌}
use hsgram_admin.Prelude.Decimal.{parse_int, not_a_number, negative, number}
use hsgram_admin.Broadcast.Types.{
  BroadcastError, no_rows, no_selected_recipients, unsupported_target_type, BroadcastFilters,
  TargetSpec, User, Recipient, Preview, BroadcastTables, Db,
}

abbrev pub is_separator : ℕ → Bool
is_separator c =
    c == b',' || (c == b'\n' || (c == b'\r' || (c == b'\t' || (c == b';' || c == b' '))))

-- The field that a text begins with, and those behind it.
abbrev fields_from : Text → Text × List Text
fields_from [] = ([], [])
fields_from (c ∷ s) =
    let (current, out) = fields_from s in
    if is_separator c
    then ([], if is_empty current then out else current ∷ out)
    else (c ∷ current, out)

-- `strings.FieldsFunc`.
unfoldable pub fields : Text → List Text
fields s = let (current, out) = fields_from s in if is_empty current then out else current ∷ out

abbrev pub unique_values : List Text → List Text → List Text
unique_values [] seen = []
unique_values (x ∷ xs) seen =
    let value = trim x in
    elim (is_empty value || any_where (text_eq value) seen) [
      | true ↦ unique_values xs seen
      | false ↦ value ∷ unique_values xs (value ∷ seen)
    ]

unfoldable pub split_identifiers : Text → List Text
split_identifiers raw = unique_values (fields raw) []

unfoldable pub join_name : Text → Text → Text
join_name first last =
    let full = trim (trim first ++ (codes " " ++ trim last)) in
    if is_empty full then codes "-" else full

unfoldable pub recipient_of : User → Recipient
recipient_of u = record {
  user_id = u.id;
  display_name = join_name u.first_name u.last_name;
  username = u.username;
  phone = u.phone;
  country_code = u.country_code;
  restricted = u.restricted;
  deleted = u.deleted;
  is_bot = u.is_bot;
}

-- `column = ?`, left out where the filter is not there.
abbrev pub is_or_any : Option Bool → Bool → Bool
is_or_any none b = true
is_or_any (some true) b = b
is_or_any (some false) b = not b

-- `ORDER BY id`.
abbrev pub user_before : User → User → Bool
user_before u v = leb u.id v.id

abbrev pub recipients_in : (User → Bool) → BroadcastTables → List Recipient
recipients_in p t = map recipient_of (order_by user_before (rows_where p t.users))

abbrev pub or_error : BroadcastError ⊎ (User → Bool) → Db (User → Bool)
or_error (inl e) = raise e
or_error (inr p) = pure p

-- `same_text` is the equality of the column's collation.
module _ (same_text : Text → Text → Bool) where
  abbrev pub lookup_row : Text → BroadcastTables → Option User
  lookup_row token t = elim (parse_int token) [
    | not_a_number ↦
        first_where (λ (u : User). same_text u.username token || same_text u.phone token) t.users
    | negative ↦ none
    | number i ↦ first_where (λ (u : User). u.id == i) t.users
  ]

  unfoldable pub lookup_recipient : Text → Db Recipient
  lookup_recipient raw =
      let token = trim raw in
      if is_empty token
      then raise no_rows
      else (do found ← query (lookup_row token); u ← or_raise no_rows found; pure (recipient_of u))

  -- What the loop does with a token that was looked up; `go` is the loop on the other tokens.
  abbrev pub collect :
      (List Recipient → List Text → List ℕ → Db (List Recipient × List Text))
      → Text
      → List Recipient
      → List Text
      → List ℕ
      → Result BroadcastError Recipient
      → Db (List Recipient × List Text)
  collect go token recipients unresolved seen (ok r) = elim (contains r.user_id seen) [
    | true ↦ go recipients unresolved seen
    | false ↦ go (recipients ++ (r ∷ [])) unresolved (r.user_id ∷ seen)
  ]
  collect go token recipients unresolved seen (err no_rows) =
      go recipients (unresolved ++ (token ∷ [])) seen
  collect go token recipients unresolved seen r = do
    found ← return_result r
    go recipients unresolved seen

  unfoldable pub resolve_loop :
      List Text → List Recipient → List Text → List ℕ → Db (List Recipient × List Text)
  resolve_loop [] recipients unresolved seen = pure (recipients, unresolved)
  resolve_loop (token ∷ tokens) recipients unresolved seen = do
    r ← attempt (lookup_recipient token)
    collect (resolve_loop tokens) token recipients unresolved seen r

  unfoldable pub resolve_selected : Text → Db (List Recipient × List Text)
  resolve_selected raw = resolve_loop (split_identifiers raw) [] [] []

  -- The conditions of a filtered target.
  abbrev pub filter_where : BroadcastFilters → User → Bool
  filter_where f u =
      is_or_any f.restricted u.restricted
      && ((elim f.deleted [ none ↦ not u.deleted | some b ↦ is_or_any (some b) u.deleted ])
          && (is_or_any f.is_bot u.is_bot
              && (is_empty (trim f.country_code)
                  || same_text u.country_code (trim f.country_code))))

  -- The WHERE clause of `buildRecipientQuery`, or its error.
  unfoldable pub recipient_where : TargetSpec → BroadcastError ⊎ (User → Bool)
  recipient_where spec =
      if text_eq spec.target_type (codes "all")
      then inr (λ u. not u.deleted)
      else if text_eq spec.target_type (codes "selected")
      then (if length spec.resolved_user_ids == 0
          then inl no_selected_recipients
          else inr (λ u. contains u.id spec.resolved_user_ids))
      else if text_eq spec.target_type (codes "filtered")
      then inr (filter_where spec.filters)
      else inl (unsupported_target_type spec.target_type)

  unfoldable pub count_recipients : TargetSpec → Db ℕ
  count_recipients spec = do
    p ← or_error (recipient_where spec)
    query (λ t. length (rows_where p t.users))

  unfoldable pub list_recipients : TargetSpec → ℕ → ℕ → Db (List Recipient)
  list_recipients spec offset limit = do
    p ← or_error (recipient_where spec)
    query (λ t. take (if leb limit 0 then 50 else limit) (drop offset (recipients_in p t)))

  unfoldable pub preview_targets : TargetSpec → Db Preview
  preview_targets spec = do
    n ← count_recipients spec
    sample ← list_recipients spec 0 10
    pure (record { count = n; sample_users = sample; unresolved = [] })
