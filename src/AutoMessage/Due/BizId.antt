-- ===== src/AutoMessage/Due/BizId.antt =====
-- The identifier of a message: what the messenger recognises a repeated message by.
use hsgram_admin.Prelude.{ℕ, ◌≡◌, [], ◌∷◌, ◌++◌}
use hsgram_admin.Prelude.Text.{Text, codes}
use hsgram_admin.Prelude.Decimal.{show-injective, show-colon_injective}
use hsgram_admin.AutoMessage.Process.{biz_id_of}

prefix_cancel : (s r v : Text) → s ++ r ≡ s ++ v → r ≡ v
prefix_cancel [] r v e = e
prefix_cancel (c ∷ s) r v e = prefix_cancel s r v (cc)

-- Two identifiers are equal only if the configs, the scheduled times, the positions and the items
-- are.
pub biz_id_of-injective :
    (c at k i c' at' k' i' : ℕ)
    → biz_id_of c at k i ≡ biz_id_of c' at' k' i'
    → (c ≡ c') × (at ≡ at') × (k ≡ k') × (i ≡ i')
unfolding biz_id_of codes
biz_id_of-injective c at k i c' at' k' i' e =
    let (same_c, e₁) =
      show-colon_injective c c' _ _ (prefix_cancel (codes "auto_message:") _ _ e) in
    let (same_at, e₂) = show-colon_injective at at' _ _ e₁ in
    let (same_k, e₃) = show-colon_injective k k' _ _ e₂ in
    (same_c, same_at, same_k, show-injective i i' e₃)
