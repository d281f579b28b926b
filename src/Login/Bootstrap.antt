-- ===== src/Login/Bootstrap.antt =====
-- The administrator of EnsureBootstrapAdmin of backend/internal/store/store.go can log in.
use hsgram_admin.Prelude.{ℕ, suc, ◌≡◌, refl, true, false, some, List, [], ◌∷◌, inl, inr, Bool-cases}
use hsgram_admin.Prelude.Lists.{first_where}
use hsgram_admin.Prelude.Text.{Text, trim, is_empty}
use hsgram_admin.Sql.{ok, quiet, run_sql}
use hsgram_admin.LoginLimiter.{Limiter, allow, login_attempt_key}
use hsgram_admin.Login.{
  AdminRow, AdminTables, AdminUser, Outside, super_admin, admin_of, upsert_admin,
  ensure_bootstrap_admin, authenticate_admin, LoginRequest, logged_in, handle_login,
}

-- The row of the name has the hash, is active and has every right.
record IsSuper (o : Outside) (name hash : Text) (r : AdminRow) : Type 0 where
  named : o.same_text r.username name ≡ true
  hashed : r.password_hash ≡ hash
  active : r.is_active ≡ true
  entitled : r.role ≡ super_admin

-- What EnsureBootstrapAdmin leaves in the tables.
abbrev bootstrapped : Outside → Text → Text → AdminTables → AdminTables
bootstrapped o name hash t = record t {
  admins = upsert_admin o t.next_admin_id name hash t.admins;
  next_admin_id = suc t.next_admin_id;
}

module _ (o : Outside) (name hash : Text) where
  upsert_admin-found :
      (i : ℕ) (rs : List AdminRow)
      → o.same_text name name ≡ true
      → (r : AdminRow) × (first_where
            (λ (r : AdminRow). o.same_text r.username name)
            (upsert_admin o i name hash rs)
          ≡ some r)
        × IsSuper o name hash r
  unfolding upsert_admin
  upsert_admin-found i [] e =
      rw e (_, refl, record { named = e; hashed = refl; active = refl; entitled = refl })
  upsert_admin-found i (r ∷ rs) e = elim (Bool-cases (o.same_text r.username name)) [
    | inl y ↦
        rw (y, y) (_, refl, record { named = y; hashed = refl; active = refl; entitled = refl })
    | inr n ↦ rw (n, n) (upsert_admin-found i rs e)
  ]

  authenticate_admin-row :
      (password : Text) (t : AdminTables) (s : List Unit) (r : AdminRow)
      → first_where (λ (r : AdminRow). o.same_text r.username name) t.admins ≡ some r
      → IsSuper o name hash r
      → o.compare hash password ≡ true
      → authenticate_admin o name password (quiet t s) ≡ (ok (admin_of r), quiet t s)
  unfolding run_sql authenticate_admin
  authenticate_admin-row password t s r e h c = rw (e, h.active, h.hashed, c) refl

module _ (o : Outside) (name password hash : Text) where
  ensure_bootstrap_admin-run :
      (t : AdminTables) (s : List Unit)
      → is_empty (trim name) ≡ false
      → is_empty password ≡ false
      → o.hash password ≡ some hash
      → ensure_bootstrap_admin o name password (quiet t s)
        ≡ (ok tt, quiet (bootstrapped o (trim name) hash t) s)
  unfolding run_sql ensure_bootstrap_admin
  ensure_bootstrap_admin-run t s n p h = rw (n, p, h) refl

  handle_login-row :
      (now : ℕ) (q : LoginRequest) (l : Limiter) (t : AdminTables) (s : List Unit) (r : AdminRow)
      → q.method_post ≡ true
      → q.decoded ≡ true
      → (allow now now (login_attempt_key o.lower q.ip q.username) l).2 ≡ true
      → o.issue (admin_of r) ≡ true
      → authenticate_admin o (trim q.username) q.password (quiet t s) ≡ (ok (admin_of r), quiet t s)
      → (handle_login o now q l (quiet t s)).0 ≡ logged_in (admin_of r)
  unfolding handle_login
  handle_login-row now q l t s r m d a i e = rw (m, d, a, e, i) refl

-- Where no statement fails, a token can be signed, every text is the same as itself, and a hash
-- that bcrypt returns belongs to its password: if the name is not blank, the password not empty and
-- can be hashed, then behind EnsureBootstrapAdmin a login with a name that is trimmed to the same
-- and with this password, if the limiter lets it through, is answered with a token for a super
-- administrator of this name, whether or not the name was there before, with another password or
-- inactive.
pub bootstrap-logged_in :
    (o : Outside) (now : ℕ) (name hash : Text) (q : LoginRequest) (l : Limiter) (t : AdminTables)
    (s : List Unit)
    → ((u : Text) → o.same_text u u ≡ true)
    → ((p h : Text) → o.hash p ≡ some h → o.compare h p ≡ true)
    → ((a : AdminUser) → o.issue a ≡ true)
    → is_empty (trim name) ≡ false
    → is_empty q.password ≡ false
    → o.hash q.password ≡ some hash
    → q.method_post ≡ true
    → q.decoded ≡ true
    → trim q.username ≡ trim name
    → (allow now now (login_attempt_key o.lower q.ip q.username) l).2 ≡ true
    → (a : AdminUser) × ((handle_login o now q l
          (ensure_bootstrap_admin o name q.password (quiet t s)).1).0
        ≡ logged_in a)
      × (o.same_text a.username (trim name) ≡ true)
      × (a.role ≡ super_admin)
bootstrap-logged_in o now name hash q l t s same belongs signs n p h m d k e =
    let t' = bootstrapped o (trim name) hash t in
    let (r, f, g) = upsert_admin-found o (trim name) hash t.next_admin_id t.admins (same _) in
    rw (ensure_bootstrap_admin-run o name q.password hash t s n p h) (
      admin_of r,
      handle_login-row o name q.password hash now q l t' s r m d e (signs _) (
          rw k (
            authenticate_admin-row o (trim name) hash q.password t' s r f g
              (belongs q.password hash h))),
      g.named,
      g.entitled,
    )
