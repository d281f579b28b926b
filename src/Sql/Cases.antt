-- ===== src/Sql/Cases.antt =====
-- One statement at a time: it fails, or the method goes on with what it returned.
use hsgram_admin.Prelude.{◌≡◌, ◌≢◌, [], refl, ap, ◌∙◌, ◌⊎◌, inl, inr, Bool-cases, List, arith}
use hsgram_admin.Sql.{
  Result, ok, err, fault, World, quiet, Sql, fails, later, pure, statement, transaction, run_sql,
  settle, exec, bind_run, ◌>>=◌, ◌>>◌,
}

-- The world behind a statement that did nothing.
abbrev pub skip : {T E : Type 0} → World T E → World T E
skip w = record w { faults = later w.faults }

module _ {T E X A : Type 0} (f : T → A × T) where
  pub statement-cases :
      (w : World T E)
      → (statement {X = X} f w ≡ (fault, skip w))
        ⊎ (statement {X = X} f w ≡ (ok (f w.tables).0, record (skip w) { tables = (f w.tables).1 }))
  unfolding statement
  statement-cases w = elim (Bool-cases (fails w.faults)) [ inl e ↦ inl (rw e) | inr e ↦ inr (rw e) ]

  statement-ok : (w : World T E) → w.faults ≡ [] → (statement {X = X} f w).0 ≡ ok (f w.tables).0
  unfolding statement
  statement-ok w e = rw e refl

  -- Where no statement fails, this one does not.
  pub statement-calm : (w : World T E) → w.faults ≡ [] → statement {X = X} f w ≢ (fault, skip w)
  statement-calm w e h = let good = statement-ok w e in let bad = ap (λ r. r.0) h in cc

  module _ {B : Type 0} (k : A → Sql T E X B) where
    pub statement-bind_cases :
        (w : World T E)
        → ((statement f >>= k) w ≡ (fault, skip w))
          ⊎ ((statement f >>= k) w ≡ k (f w.tables).0 (record (skip w) { tables = (f w.tables).1 }))
    unfolding ◌>>=◌
    statement-bind_cases w = elim (statement-cases w) [
      | inl e ↦ inl (ap (bind_run k) e)
      | inr e ↦ inr (ap (bind_run k) e)
    ]

-- A transaction of a body that succeeds where no statement fails.
module _ {T E X A : Type 0} (m : Sql T E X A) (t u : T) (s r : List E) (a : A) where
  pub transaction-ok :
      m (quiet t s) ≡ (ok a, quiet u r) → transaction m (quiet t s) ≡ (ok a, quiet u r)
  unfolding transaction
  transaction-ok e = ap (λ r. settle t (bind_run (λ a. exec (λ t. t) >> pure a) r)) e

-- What a transaction sends is what its body sends, also when it is rolled back.
module _ {T E X A : Type 0} where
  settle-sent : (t : T) (r : Result X A × World T E) → (settle t r).1.sent ≡ r.1.sent
  settle-sent t (ok a, w) = refl
  settle-sent t (err x, w) = refl
  settle-sent t (fault, w) = refl

  commit-sent :
      (r : Result X A × World T E) → (bind_run (λ a. exec (λ t. t) >> pure a) r).1.sent ≡ r.1.sent
  unfolding run_sql
  commit-sent (ok a, w) = ground arith
  commit-sent (err x, w) = refl
  commit-sent (fault, w) = refl

  pub transaction-sent :
      (m : Sql T E X A) (w : World T E)
      → ((transaction m w).1.sent ≡ w.sent) ⊎ ((transaction m w).1.sent ≡ (m (skip w)).1.sent)
  unfolding transaction
  transaction-sent m w =
      elim (statement-bind_cases (λ t. (tt {0}, t)) (λ _. m >>= λ a. exec (λ t. t) >> pure a) w) [
        | inl e ↦ inl (settle-sent w.tables _ ∙ ap (λ r. r.1.sent) e)
        | inr e ↦ inr (settle-sent w.tables _ ∙ ap (λ r. r.1.sent) e ∙ commit-sent (m (skip w)))
      ]
