-- ===== src/Broadcast/Resolve.antt =====
-- `ResolveSelectedRecipients` of backend/internal/store/broadcast.go: whom the identifiers name.
use hsgram_admin.Prelude.{
  ℕ, suc, ◌+◌, ◌≤◌, ◌≡◌, ◌≢◌, refl, sym, ap, inl, inr, Bool, true, false, ◌||◌, Bool-cases, List,
  [], ◌∷◌, ◌++◌, ◌==◌, arith,
}
use mathlib.Core.Path.{subst}
use hsgram_admin.Prelude.Text.{Text}
use hsgram_admin.Prelude.Lists.{All, AllPairs, length, contains, All-weaken}
use hsgram_admin.Sql.{Result, ok, err, fault, World, run_sql}
use hsgram_admin.Broadcast.Types.{
  BroadcastError, no_rows, no_selected_recipients, unsupported_target_type, bad_payload,
  message_text_required, no_broadcast_recipients, no_valid_users, BroadcastTables, UserMessage,
  Recipient, Db,
}
use hsgram_admin.Broadcast.Targets.{
  collect, lookup_recipient, resolve_loop, resolve_selected, split_identifiers,
}

abbrev pub IsOtherRecipient : Recipient → Recipient → Type 0
IsOtherRecipient r q = r.user_id ≢ q.user_id

-- Recipients that are all different, and with the values that name nobody no more than `n`.
abbrev pub IsResolved : ℕ → Result BroadcastError (List Recipient × List Text) → Type 0
IsResolved n (ok (rs, missing)) = AllPairs IsOtherRecipient rs × (length rs + length missing ≤ n)
IsResolved n (err e) = Unit
IsResolved n fault = Unit

module _ {ℓ} {A : Type ℓ} where
  All-snoc : (P : A → Type 0) (xs : List A) (y : A) → All P xs → P y → All P (xs ++ y ∷ [])
  All-snoc P [] y h k = (k, tt)
  All-snoc P (x ∷ xs) y (h, hs) k = (h, All-snoc P xs y hs k)

  AllPairs-snoc :
      (R : A → A → Type 0) (xs : List A) (y : A)
      → AllPairs R xs
      → All (λ x. R x y) xs
      → AllPairs R (xs ++ y ∷ [])
  AllPairs-snoc R [] y h k = (tt, tt)
  AllPairs-snoc R (x ∷ xs) y (h, hs) (k, ks) = (All-snoc (R x) xs y h k, AllPairs-snoc R xs y hs ks)

  length-snoc : (xs : List A) (y : A) → length (xs ++ y ∷ []) ≡ suc (length xs)
  length-snoc [] y = refl
  length-snoc (x ∷ xs) y = ap suc (length-snoc xs y)

-- The set `seen` holds the recipients found so far, who are all different.
record IsCollected (rs : List Recipient) (seen : List ℕ) : Type 0 where
  distinct : AllPairs IsOtherRecipient rs
  noted : All (λ (r : Recipient). contains r.user_id seen ≡ true) rs

same_id : (n : ℕ) → (n == n) ≡ true
same_id n = ground arith

or_left : (x y : Bool) → x ≡ true → (x || y) ≡ true
or_left true y h = refl
or_left false y h = absurd (cc)

or_behind : (x y : Bool) → y ≡ true → (x || y) ≡ true
or_behind true y h = refl
or_behind false y h = h

unseen-IsOther :
    (seen : List ℕ) (r q : Recipient)
    → contains r.user_id seen ≡ false
    → contains q.user_id seen ≡ true
    → IsOtherRecipient q r
unseen-IsOther seen r q h k e = let moved = ap (λ n. contains n seen) e in cc

IsCollected-add :
    (rs : List Recipient) (seen : List ℕ) (r : Recipient)
    → IsCollected rs seen
    → contains r.user_id seen ≡ false
    → IsCollected (rs ++ r ∷ []) (r.user_id ∷ seen)
IsCollected-add rs seen r c h = record {
  distinct = AllPairs-snoc IsOtherRecipient rs r c.distinct (
      All-weaken (λ (q : Recipient). contains q.user_id seen ≡ true) (λ q. IsOtherRecipient q r) rs
        (λ q k. unseen-IsOther seen r q h k) c.noted);
  noted =
      All-snoc (λ (q : Recipient). contains q.user_id (r.user_id ∷ seen) ≡ true) rs r
        (All-weaken (λ (q : Recipient). contains q.user_id seen ≡ true)
          (λ (q : Recipient). contains q.user_id (r.user_id ∷ seen) ≡ true) rs
          (λ q k. or_behind (r.user_id == q.user_id) _ k) c.noted)
        (or_left (r.user_id == r.user_id) _ (same_id r.user_id));
}

-- The step for a user that was found, by whether the set holds it.
abbrev gathered :
    (List Recipient → List Text → List ℕ → Db (List Recipient × List Text))
    → List Recipient
    → List Text
    → List ℕ
    → Recipient
    → Bool
    → Db (List Recipient × List Text)
gathered go rs missing seen r c = elim c [
  | true ↦ go rs missing seen
  | false ↦ go (rs ++ (r ∷ [])) missing (r.user_id ∷ seen)
]

module _ (same_text : Text → Text → Bool) where
  -- A step of the loop, if the loop on the other tokens is right.
  collect-IsResolved :
      (n : ℕ) (go : List Recipient → List Text → List ℕ → Db (List Recipient × List Text))
      (token : Text) (rs : List Recipient) (missing : List Text) (seen : List ℕ)
      (x : Result BroadcastError Recipient) (w : World BroadcastTables UserMessage)
      → ((rs' : List Recipient) (missing' : List Text) (seen' : List ℕ)
            (v : World BroadcastTables UserMessage)
          → IsCollected rs' seen'
          → length rs' + length missing' ≤ 1 + (length rs + length missing)
          → IsResolved n (go rs' missing' seen' v).0)
      → IsCollected rs seen
      → IsResolved n (collect same_text go token rs missing seen x w).0
  unfolding run_sql
  collect-IsResolved n go token rs missing seen (ok r) w right c =
      elim (Bool-cases (contains r.user_id seen)) [
        | inl e ↦
            subst (λ b. IsResolved n (gathered go rs missing seen r b w).0) (sym e)
              (right rs missing seen w c (omega arith))
        | inr e ↦
            subst (λ b. IsResolved n (gathered go rs missing seen r b w).0) (sym e)
              (right (rs ++ r ∷ []) missing (r.user_id ∷ seen) w (IsCollected-add rs seen r c e)
                (let h = length-snoc rs r in omega arith))
      ]
  collect-IsResolved n go token rs missing seen (err no_rows) w right c =
      right rs (missing ++ token ∷ []) seen w c (let h = length-snoc missing token in omega arith)
  collect-IsResolved n go token rs missing seen (err no_selected_recipients) w right c = tt
  collect-IsResolved n go token rs missing seen (err (unsupported_target_type s)) w right c = tt
  collect-IsResolved n go token rs missing seen (err bad_payload) w right c = tt
  collect-IsResolved n go token rs missing seen (err message_text_required) w right c = tt
  collect-IsResolved n go token rs missing seen (err no_broadcast_recipients) w right c = tt
  collect-IsResolved n go token rs missing seen (err no_valid_users) w right c = tt
  collect-IsResolved n go token rs missing seen fault w right c = tt

  resolve_loop-IsResolved :
      (n : ℕ) (tokens : List Text) (rs : List Recipient) (missing : List Text) (seen : List ℕ)
      (w : World BroadcastTables UserMessage)
      → IsCollected rs seen
      → length rs + length missing + length tokens ≤ n
      → IsResolved n (resolve_loop same_text tokens rs missing seen w).0
  unfolding run_sql resolve_loop
  resolve_loop-IsResolved n [] rs missing seen w c h = (c.distinct, omega arith)
  resolve_loop-IsResolved n (token ∷ tokens) rs missing seen w c h =
      collect-IsResolved n (resolve_loop same_text tokens) token rs missing seen
        (lookup_recipient same_text token w).0 (lookup_recipient same_text token w).1
        (λ rs' missing' seen' v c' k.
          resolve_loop-IsResolved n tokens rs' missing' seen' v c' (omega arith))
        c

  -- Whichever statements fail, where the call returns recipients and values that name nobody: the
  -- recipients are all different, and together they are no more than the values that were given.
  pub resolve_selected-IsResolved :
      (raw : Text) (w : World BroadcastTables UserMessage)
      → IsResolved (length (split_identifiers raw)) (resolve_selected same_text raw w).0
  unfolding resolve_selected
  resolve_selected-IsResolved raw w =
      resolve_loop-IsResolved (length (split_identifiers raw)) (split_identifiers raw) [] [] [] w
        (record { distinct = tt; noted = tt }) (omega arith)
