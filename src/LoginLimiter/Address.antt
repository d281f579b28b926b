-- ===== src/LoginLimiter/Address.antt =====
-- The address that a login is counted under: `clientIP` of
-- backend/internal/httpapi/login_limiter.go.
use hsgram_admin.Prelude.{
  ℕ, ◌≡◌, refl, Bool, false, not, ◌&&◌, ◌||◌, Option, none, some, [], ◌∷◌, ◌==◌, if◌then◌else◌,
}
use hsgram_admin.Prelude.Text.{Text, codes, is_empty, trim}

-- `strings.Split(s, ",")[0]`.
unfoldable pub before_comma : Text → Text
before_comma [] = []
before_comma (c ∷ s) = let rest = before_comma s in if c == b',' then [] else c ∷ rest

abbrev has_byte : ℕ → Text → Bool
has_byte b [] = false
has_byte b (c ∷ s) = c == b || has_byte b s

-- What stands before the first `b` and what behind it.
abbrev cut : ℕ → Text → Option (Text × Text)
cut b [] = none
cut b (c ∷ s) =
    let rest = cut b s in
    if c == b
    then some ([], s)
    else elim rest [ none ↦ none | some (before, behind) ↦ some (c ∷ before, behind) ]

-- Between the brackets, with one colon and a port behind them.
abbrev in_brackets : Text → Text → Option Text
in_brackets host [] = none
in_brackets host (c ∷ port) =
    if c == b':'
      && not (has_byte b':' port || has_byte b'[' host || has_byte b'[' port || has_byte b']' port)
    then some host
    else none

-- The host that `net.SplitHostPort` returns, if it returns no error: `host:port` with one colon and
-- no brackets, or `[host]:port`.
unfoldable split_host : Text → Option Text
split_host [] = none
split_host (c ∷ s) =
    if c == b'['
    then elim (cut b']' s) [ none ↦ none | some (host, behind) ↦ in_brackets host behind ]
    else elim (cut b':' (c ∷ s)) [
      | none ↦ none
      | some (host, port) ↦
          if has_byte b':' port || has_byte b'[' (c ∷ s) || has_byte b']' (c ∷ s)
          then none
          else some host
    ]

splits :
    (split_host (codes "10.0.0.1:80") ≡ some (codes "10.0.0.1"))
    × (split_host (codes "[::1]:80") ≡ some (codes "::1"))
    × (split_host (codes "::1") ≡ none)
    × (split_host (codes "[::1]80") ≡ none)
    × (split_host (codes ":80") ≡ some [])
unfolding split_host codes
splits = (refl, refl, refl, refl, refl)

-- Of the two headers and the remote address.
unfoldable client_ip : Text → Text → Text → Text
unfolding before_comma split_host
client_ip forwarded real_ip remote_addr =
    let first = trim (before_comma (trim forwarded)) in
    if not (is_empty (trim forwarded)) && not (is_empty first)
    then first
    else if not (is_empty (trim real_ip))
    then trim real_ip
    else elim (split_host (trim remote_addr)) [
      | none ↦ trim remote_addr
      | some host ↦ if is_empty host then trim remote_addr else host
    ]

forwarded_first :
    (client_ip (codes " 1.2.3.4 , 5.6.7.8") [] (codes "9.9.9.9:1") ≡ codes "1.2.3.4")
    × (client_ip (codes " , 5.6.7.8") [] (codes "9.9.9.9:1") ≡ codes "9.9.9.9")
unfolding client_ip codes trim
forwarded_first = (refl, refl)
