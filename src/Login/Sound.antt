-- ===== src/Login/Sound.antt =====
-- Who is logged in: handleLogin of backend/internal/httpapi/handler.go.
use hsgram_admin.Prelude.{
  ℕ, ◌≡◌, refl, sym, ap, ◌∙◌, true, not, some, inl, inr, Bool-cases, if◌then◌else◌,
}
use hsgram_admin.Prelude.Lists.{first_where}
use hsgram_admin.Prelude.Text.{Text, trim}
use hsgram_admin.Sql.{Result, ok, err, fault, World, pure, raise}
use hsgram_admin.Sql.Success.{
  Ends, Success, Success-pure, Success-statement, Success-or_raise, Success-bind,
}
use hsgram_admin.LoginLimiter.{Limiter, allow, login_attempt_key}
use hsgram_admin.Login.{
  AdminRow, AdminTables, AdminUser, LoginError, invalid_credentials, Outside, admin_of,
  authenticate_admin, LoginRequest, LoginAnswer, bad_method, bad_body, wrong_credentials, failed,
  no_token, too_many, logged_in, after_authenticate, handle_login,
}

-- The row of the name is active and its hash belongs to the password.
pub record IsGenuine (o : Outside) (t : AdminTables) (username password : Text) (a : AdminUser)
    : Type 0 where
  pub row : AdminRow
  pub listed : first_where (λ (r : AdminRow). o.same_text r.username username) t.admins ≡ some row
  pub active : row.is_active ≡ true
  pub matched : o.compare row.password_hash password ≡ true
  pub same : a ≡ admin_of row

module _ (o : Outside) (username password : Text) (t : AdminTables) where
  abbrev Genuine : AdminUser → AdminTables → Type 0
  Genuine a u = IsGenuine o t username password a

  Success-raise :
      {A : Type 0} (P : AdminTables → Type 0) (Q : A → AdminTables → Type 0)
      → Success {E = Unit} P (raise invalid_credentials) Q
  unfolding raise
  Success-raise P Q = record { run = λ w h. tt }

  checked :
      (r : AdminRow) (P : AdminTables → Type 0)
      → first_where (λ (r : AdminRow). o.same_text r.username username) t.admins ≡ some r
      → Success {E = Unit} P
          (if not r.is_active
            then raise invalid_credentials
            else if not (o.compare r.password_hash password)
            then raise invalid_credentials
            else pure (admin_of r))
          Genuine
  checked r P e = elim (Bool-cases r.is_active) [
    | inr n ↦ rw n (Success-raise P Genuine)
    | inl y ↦ elim (Bool-cases (o.compare r.password_hash password)) [
      | inr n ↦ rw (y, n) (Success-raise P Genuine)
      | inl m ↦
          rw (y, m)
            (Success-pure P Genuine (admin_of r)
              (λ u h. record { row = r; listed = e; active = y; matched = m; same = refl }))
    ]
  ]

  authenticate_admin-Genuine : Success (λ u. u ≡ t) (authenticate_admin o username password) Genuine
  unfolding authenticate_admin
  authenticate_admin-Genuine =
      Success-bind _
        (λ row u. first_where (λ (r : AdminRow). o.same_text r.username username) t.admins ≡ row) _
        _ _
        (Success-statement _ _ _ (λ u h.
          ap
            (λ (v : AdminTables).
              first_where (λ (r : AdminRow). o.same_text r.username username) v.admins)
            (sym h)))
        (λ row.
          Success-bind _
            (λ r u.
              first_where (λ (r : AdminRow). o.same_text r.username username) t.admins ≡ some r)
            _ _ _ (Success-or_raise _ _ invalid_credentials row (λ r e u h. h ∙ e))
            (λ r. record { run = λ w h. (checked r (λ _. Unit) h).run w tt }))

-- A login that is answered with a token was let through by the limiter, and is genuine.
abbrev pub Proper : Outside → ℕ → LoginRequest → Limiter → AdminTables → LoginAnswer → Type 0
Proper o now r l t (logged_in a) =
    ((allow now now (login_attempt_key o.lower r.ip r.username) l).2 ≡ true)
    × IsGenuine o t (trim r.username) r.password a
Proper o now r l t bad_method = Unit
Proper o now r l t bad_body = Unit
Proper o now r l t wrong_credentials = Unit
Proper o now r l t failed = Unit
Proper o now r l t no_token = Unit
Proper o now r l t (too_many wait) = Unit

module _ (o : Outside) (now : ℕ) (r : LoginRequest) (l : Limiter) (t : AdminTables) where
  after_authenticate-Proper :
      (key : Text) (l' : Limiter) (x : Result LoginError AdminUser × World AdminTables (Unit {0}))
      → (allow now now (login_attempt_key o.lower r.ip r.username) l).2 ≡ true
      → Ends (Genuine o (trim r.username) r.password t) x
      → Proper o now r l t (after_authenticate o now key l' x).0
  after_authenticate-Proper key l' (ok a, w) e h = elim (Bool-cases (o.issue a)) [
    | inl y ↦ rw y (e, h)
    | inr n ↦ rw n tt
  ]
  after_authenticate-Proper key l' (err invalid_credentials, w) e h = tt
  after_authenticate-Proper key l' (fault, w) e h = tt

-- Whichever statements fail, a login is answered with a token only if the limiter let it through and
-- the row of the trimmed name is active and has a hash that belongs to the password; the answer is
-- for the administrator of this row.
pub handle_login-Proper :
    (o : Outside) (now : ℕ) (r : LoginRequest) (l : Limiter) (w : World AdminTables (Unit {0}))
    → Proper o now r l w.tables (handle_login o now r l w).0
unfolding handle_login
handle_login-Proper o now r l w =
    let key = login_attempt_key o.lower r.ip r.username in
    elim (Bool-cases r.method_post) [
      | inr n ↦ rw n tt
      | inl y ↦ elim (Bool-cases r.decoded) [
        | inr n ↦ rw (y, n) tt
        | inl d ↦ elim (Bool-cases (allow now now key l).2) [
          | inr n ↦ rw (y, d, n) tt
          | inl e ↦
              rw (y, d, e)
                (after_authenticate-Proper o now r l w.tables key (allow now now key l).0 _ e
                  ((authenticate_admin-Genuine o (trim r.username) r.password w.tables).run w refl))
        ]
      ]
    ]
