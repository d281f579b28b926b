-- ===== src/Sql/Success.antt =====
-- What a run that returns a value has established, statement by statement: between the statements of
-- a transaction the tables need not satisfy what they satisfy around it.
use hsgram_admin.Prelude.{◌≡◌, refl, Option, none, some, inl, inr, Bool-cases}
use hsgram_admin.Sql.{
  Result, ok, err, fault, World, Sql, fails, pure, statement, exec, or_raise, transaction, settle,
  attempt, bind_run, ◌>>=◌, ◌>>◌,
}
use hsgram_admin.Sql.Triple.{Triple, Returns, Anything}

-- Of a run with an error nothing is said.
abbrev pub Ends : {T E X A : Type 0} → (A → T → Type 0) → Result X A × World T E → Type 0
Ends Q (ok a, w) = Q a w.tables
Ends Q (err x, w) = Unit
Ends Q (fault, w) = Unit

pub record Success {T E X A : Type 0} (P : T → Type 0) (m : Sql T E X A) (Q : A → T → Type 0)
    : Type 0 where
  pub run : (w : World T E) → P w.tables → Ends Q (m w)

module _ {T E X A : Type 0} (P : T → Type 0) (Q : A → T → Type 0) where
  pub Success-pure : (a : A) → ((t : T) → P t → Q a t) → Success {E = E} {X = X} P (pure a) Q
  unfolding pure
  Success-pure a k = record { run = λ w h. k w.tables h }

  pub Success-statement :
      (f : T → A × T)
      → ((t : T) → P t → Q (f t).0 (f t).1)
      → Success {E = E} {X = X} P (statement f) Q
  unfolding statement
  Success-statement f k = record {
    run =
        λ w h. elim (Bool-cases (fails w.faults)) [ inl e ↦ rw e tt | inr e ↦ rw e (k w.tables h) ];
  }

  pub Success-or_raise :
      (x : X) (o : Option A)
      → ((a : A) → o ≡ some a → (t : T) → P t → Q a t)
      → Success {E = E} P (or_raise x o) Q
  unfolding or_raise
  Success-or_raise x none k = record { run = λ w h. tt }
  Success-or_raise x (some a) k = record { run = λ w h. k a refl w.tables h }

module _ {T E X A B : Type 0} (P : T → Type 0) (Q : A → T → Type 0) (R : B → T → Type 0) where
  bind-Ends :
      (f : A → Sql T E X B) (r : Result X A × World T E)
      → ((a : A) → Success (Q a) (f a) R)
      → Ends Q r
      → Ends R (bind_run f r)
  bind-Ends f (ok a, w) k h = (k a).run w h
  bind-Ends f (err x, w) k h = tt
  bind-Ends f (fault, w) k h = tt

  pub Success-bind :
      (m : Sql T E X A) (f : A → Sql T E X B)
      → Success P m Q
      → ((a : A) → Success (Q a) (f a) R)
      → Success P (m >>= f) R
  unfolding ◌>>=◌
  Success-bind m f h k = record { run = λ w p. bind-Ends f (m w) k (h.run w p) }

module _ {T E X A : Type 0} (P : T → Type 0) where
  settle-kept :
      (t : T) (r : Result X A × World T E)
      → P t
      → Ends (λ (a : A) u. P u) r
      → P (settle t r).1.tables × Returns (λ (a : A). Anything a) (settle t r).0
  settle-kept t (ok a, w) h k = (k, tt)
  settle-kept t (err x, w) h k = (h, tt)
  settle-kept t (fault, w) h k = (h, tt)

  -- A transaction keeps what its body keeps when it comes to its end.
  pub Triple-atomic :
      (m : Sql T E X A) → Success P m (λ (a : A) t. P t) → Triple P (transaction m) Anything
  unfolding transaction
  Triple-atomic m h = record { run = λ w p. settle-kept w.tables _ p (whole.run w p) }
    where
      whole : Success P (do exec (λ t. t); a ← m; exec (λ t. t); pure a) (λ (a : A) t. P t)
      whole =
          Success-bind P (λ _ t. P t) _ _ _ (Success-statement P (λ _ t. P t) _ (λ t k. k))
            (λ _.
              Success-bind P (λ _ t. P t) _ _ _ h
                (λ a.
                  Success-bind P (λ _ t. P t) _ _ _ (Success-statement P (λ _ t. P t) _ (λ t k. k))
                    (λ _. Success-pure P _ a (λ t k. k))))

-- A call whose result is looked at, also where it is an error.
pub Success-attempt :
    {T E X A : Type 0} (P : T → Type 0) (R : Result X A → T → Type 0) (m : Sql T E X A)
    → ((w : World T E) → P w.tables → R (m w).0 (m w).1.tables)
    → Success {X = X} P (attempt m) R
unfolding attempt
Success-attempt P R m k = record { run = k }
