-- ===== src/Broadcast/Tally.antt =====
-- Lists in pages, and the answers to the messages of several pages.
use hsgram_admin.Prelude.{
  ℕ, zero, suc, ◌+◌, ◌≤◌, ◌≡◌, refl, sym, ap, ◌∙◌, Option, none, some, List, [], ◌∷◌, ◌++◌, arith,
}
use mathlib.Core.List.{append-nil, append_assoc}
use hsgram_admin.Prelude.Lists.{length, take, drop}
use hsgram_admin.Prelude.Text.{Text}
use hsgram_admin.Broadcast.Types.{UserMessage, Recipient, BroadcastRecord}
use hsgram_admin.Broadcast.Service.{Outside, message_to}
use hsgram_admin.Broadcast.Kept.{answers_to, successes_in, failures_in, messages_of}

suc_add : (n m : ℕ) → suc n + m ≡ suc (n + m)
suc_add n m = omega arith

module _ {ℓ} {A : Type ℓ} where
  pub take-drop : (n : ℕ) (xs : List A) → take n xs ++ drop n xs ≡ xs
  take-drop zero xs = refl
  take-drop (suc n) [] = refl
  take-drop (suc n) (x ∷ xs) = ap (◌∷◌ x) (take-drop n xs)

  pub length-drop : (n : ℕ) (xs : List A) → length (drop n xs) ≤ length xs
  length-drop zero xs = omega arith
  length-drop (suc n) [] = omega arith
  length-drop (suc n) (x ∷ xs) = let shorter = length-drop n xs in omega arith

  drop-taken : (k : ℕ) (xs : List A) → drop (length (take k xs)) xs ≡ drop k xs
  drop-taken zero xs = refl
  drop-taken (suc k) [] = refl
  drop-taken (suc k) (x ∷ xs) = drop-taken k xs

  drop-nil : (n : ℕ) → drop {A = A} n [] ≡ []
  drop-nil zero = refl
  drop-nil (suc n) = refl

  drop-add : (n m : ℕ) (xs : List A) → drop (n + m) xs ≡ drop m (drop n xs)
  drop-add zero m xs = ap (λ i. drop i xs) (omega arith)
  drop-add (suc n) m [] = drop-nil (suc n + m) ∙ sym (drop-nil m)
  drop-add (suc n) m (x ∷ xs) = ap (λ i. drop i (x ∷ xs)) (suc_add n m) ∙ drop-add n m xs

  -- An offset moved on by the length of a page is the offset of the next page.
  pub drop-page :
      (n k : ℕ) (xs : List A) → drop (n + length (take k (drop n xs))) xs ≡ drop k (drop n xs)
  drop-page n k xs = drop-add n (length (take k (drop n xs))) xs ∙ drop-taken k (drop n xs)

answers_to-append :
    (deliver : List UserMessage → UserMessage → Option Text) (before ms ns : List UserMessage)
    → answers_to deliver before (ms ++ ns)
      ≡ answers_to deliver before ms ++ answers_to deliver (before ++ ms) ns
answers_to-append deliver before [] ns = ap (λ h. answers_to deliver h ns) (sym (append-nil before))
answers_to-append deliver before (m ∷ ms) ns = ap (◌∷◌ (deliver before m)) (
    answers_to-append deliver (before ++ m ∷ []) ms ns
    ∙ ap (λ h. answers_to deliver (before ++ m ∷ []) ms ++ answers_to deliver h ns)
        (append_assoc before (m ∷ []) ms))

successes_in-append :
    (xs ys : List (Option Text)) → successes_in (xs ++ ys) ≡ successes_in xs + successes_in ys
successes_in-append [] ys = omega arith
successes_in-append (none ∷ xs) ys = ap (λ n. 1 + n) (successes_in-append xs ys) ∙ omega arith
successes_in-append (some message ∷ xs) ys = successes_in-append xs ys

failures_in-append :
    (xs ys : List (Option Text)) → failures_in (xs ++ ys) ≡ failures_in xs + failures_in ys
failures_in-append [] ys = omega arith
failures_in-append (none ∷ xs) ys = failures_in-append xs ys
failures_in-append (some message ∷ xs) ys = ap (λ n. 1 + n) (failures_in-append xs ys) ∙ omega arith

module _ (o : Outside) (b : BroadcastRecord) where
  -- The counts behind the messages to `rs`, from the counts `s` and `f`.
  abbrev pub won : ℕ → List UserMessage → List Recipient → ℕ
  won s before rs = s + successes_in (answers_to o.deliver before (messages_of b rs))

  abbrev pub lost : ℕ → List UserMessage → List Recipient → ℕ
  lost f before rs = f + failures_in (answers_to o.deliver before (messages_of b rs))

  pub messages_of-append :
      (xs ys : List Recipient) → messages_of b (xs ++ ys) ≡ messages_of b xs ++ messages_of b ys
  messages_of-append [] ys = refl
  messages_of-append (x ∷ xs) ys = ap (◌∷◌ (message_to b x)) (messages_of-append xs ys)

  pub won-append :
      (s : ℕ) (before : List UserMessage) (xs ys : List Recipient)
      → won (won s before xs) (before ++ messages_of b xs) ys ≡ won s before (xs ++ ys)
  won-append s before xs ys =
      let e = ap (λ ms. successes_in (answers_to o.deliver before ms)) (messages_of-append xs ys) in
      let k =
        ap successes_in
          (answers_to-append o.deliver before (messages_of b xs) (messages_of b ys)) in
      let h =
        successes_in-append (answers_to o.deliver before (messages_of b xs))
          (answers_to o.deliver (before ++ messages_of b xs) (messages_of b ys)) in
      omega arith

  pub lost-append :
      (f : ℕ) (before : List UserMessage) (xs ys : List Recipient)
      → lost (lost f before xs) (before ++ messages_of b xs) ys ≡ lost f before (xs ++ ys)
  lost-append f before xs ys =
      let e = ap (λ ms. failures_in (answers_to o.deliver before ms)) (messages_of-append xs ys) in
      let k =
        ap failures_in (answers_to-append o.deliver before (messages_of b xs) (messages_of b ys)) in
      let h =
        failures_in-append (answers_to o.deliver before (messages_of b xs))
          (answers_to o.deliver (before ++ messages_of b xs) (messages_of b ys)) in
      omega arith
