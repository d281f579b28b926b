-- ===== src/Sql.antt =====
-- How the stores of backend/internal/store talk to MySQL through database/sql: every statement may
-- fail, a transaction is rolled back unless it commits, and what was sent over the network stays
-- sent. `T` is the tables, `E` what is sent, `X` the errors that the Go code makes itself.
pub mod Triple
pub mod Cases
pub mod Success
use hsgram_admin.Prelude.{
  ◌≡◌, refl, ◌⊎◌, inl, inr, Bool, false, Option, none, some, List, [], ◌∷◌, ◌++◌, if◌then◌else◌,
}

-- `fault` is an error of the driver.
pub data Result (X A : Type 0) : Type 0 where
  ok : A → Result X A
  err : X → Result X A
  fault : Result X A

-- `faults` says of each coming statement whether it fails; behind its end none does.
pub record World (T E : Type 0) : Type 0 where
  pub tables : T
  pub faults : List Bool
  pub sent : List E

abbrev pub quiet : {T E : Type 0} → T → List E → World T E
quiet t s = record { tables = t; faults = []; sent = s }

abbrev pub Sql : Type 0 → Type 0 → Type 0 → Type 0 → Type 0
Sql T E X A = World T E → Result X A × World T E

abbrev fails : List Bool → Bool
fails [] = false
fails (b ∷ bs) = b

abbrev pub later : List Bool → List Bool
later [] = []
later (b ∷ bs) = bs

module _ {T E X A : Type 0} where
  unfoldable pub pure : A → Sql T E X A
  pure a w = (ok a, w)

  unfoldable pub raise : X → Sql T E X A
  raise x w = (err x, w)

  -- One statement: a function of the tables, unless it fails.
  unfoldable pub statement : (T → A × T) → Sql T E X A
  statement f w =
      let w' = record w { faults = later w.faults } in
      if fails w.faults
      then (fault, w')
      else (let (a, t) = f w.tables in (ok a, record w' { tables = t }))

  abbrev pub query : (T → A) → Sql T E X A
  query f = statement (λ t. (f t, t))

  unfoldable pub or_raise : X → Option A → Sql T E X A
  or_raise x none w = (err x, w)
  or_raise x (some a) w = (ok a, w)

-- A call whose error the caller looks at, or drops.
unfoldable pub attempt : {T E X A : Type 0} → Sql T E X A → Sql T E X (Result X A)
attempt m w = (ok (m w).0, (m w).1)

unfoldable pub return_result : {T E X A : Type 0} → Result X A → Sql T E X A
return_result r w = (r, w)

abbrev pub exec : {T E X : Type 0} → (T → T) → Sql T E X (Unit {0})
exec f = statement (λ t. (tt, f t))

unfoldable pub send_out : {T E X : Type 0} → E → Sql T E X (Unit {0})
send_out e w = (ok tt, record w { sent = w.sent ++ (e ∷ []) })

abbrev pub bind_run :
    {T E X A B : Type 0} → (A → Sql T E X B) → Result X A × World T E → Result X B × World T E
bind_run f (ok a, w) = f a w
bind_run f (err x, w) = (err x, w)
bind_run f (fault, w) = (fault, w)

infixl 5 ◌>>=◌ ◌>>◌
unfoldable pub ◌>>=◌ : {T E X A B : Type 0} → Sql T E X A → (A → Sql T E X B) → Sql T E X B
◌>>=◌ m f w = bind_run f (m w)

abbrev pub ◌>>◌ : {T E X B : Type 0} → Sql T E X (Unit {0}) → Sql T E X B → Sql T E X B
m >> k = m >>= λ _. k

-- `defer rollbackQuietly(tx)`: without a commit the tables are those at the beginning.
abbrev settle : {T E X A : Type 0} → T → Result X A × World T E → Result X A × World T E
settle t (ok a, w) = (ok a, w)
settle t (err x, w) = (err x, record w { tables = t })
settle t (fault, w) = (fault, record w { tables = t })

-- `BeginTx`, the body, and `Commit`, which is a statement that may fail too.
unfoldable pub transaction : {T E X A : Type 0} → Sql T E X A → Sql T E X A
unfolding pure statement ◌>>=◌
transaction m w = settle w.tables ((do exec (λ t. t); a ← m; exec (λ t. t); pure a) w)

settle-atomic :
    {T E X A : Type 0} (t : T) (r : Result X A × World T E)
    → ((a : A) × ((settle t r).0 ≡ ok a)) ⊎ ((settle t r).1.tables ≡ t)
settle-atomic t (ok a, w) = inl (a, refl)
settle-atomic t (err x, w) = inr refl
settle-atomic t (fault, w) = inr refl

-- A transaction that returns an error has changed nothing.
pub transaction-atomic :
    {T E X A : Type 0} (m : Sql T E X A) (w : World T E)
    → ((a : A) × ((transaction m w).0 ≡ ok a)) ⊎ ((transaction m w).1.tables ≡ w.tables)
unfolding transaction
transaction-atomic m w = settle-atomic w.tables _

-- To run a method: names all that its statements are made of.
unfoldable pub run_sql : Unit {0}
unfolding pure raise statement or_raise send_out ◌>>=◌ transaction attempt return_result
run_sql = tt
