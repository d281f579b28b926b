-- ===== src/Sql/Triple.antt =====
-- Total correctness of methods that run statements: from tables with `P` a method ends in tables
-- with `P`, whichever statements fail, and what it returns satisfies `Q`.
use hsgram_admin.Prelude.{
  Bool, true, false, Option, none, some, inl, inr, Bool-cases, if◌then◌else◌,
}
use hsgram_admin.Prelude.Lists.{OptionOf}
use hsgram_admin.Sql.{
  Result, ok, err, fault, World, Sql, fails, pure, raise, statement, exec, or_raise, send_out,
  attempt, return_result, transaction, settle, bind_run, ◌>>=◌, ◌>>◌,
}

abbrev pub Returns : {X A : Type 0} → (A → Type 0) → Result X A → Type 0
Returns Q (ok a) = Q a
Returns Q (err x) = Unit
Returns Q fault = Unit

pub record Triple {T E X A : Type 0} (P : T → Type 0) (m : Sql T E X A) (Q : A → Type 0)
    : Type 0 where
  pub run : (w : World T E) → P w.tables → P (m w).1.tables × Returns Q (m w).0

-- Only the tables matter.
abbrev pub Anything : {A : Type 0} → A → Type 0
Anything a = Unit

settle_lem :
    {T E X A : Type 0} (P : T → Type 0) (Q : A → Type 0) (t : T) (r : Result X A × World T E)
    → P t
    → P r.1.tables × Returns Q r.0
    → P (settle t r).1.tables × Returns Q (settle t r).0
settle_lem P Q t (ok a, w) h k = k
settle_lem P Q t (err x, w) h k = (h, tt)
settle_lem P Q t (fault, w) h k = (h, tt)

module _ {T E X : Type 0} {P : T → Type 0} where
  module _ {A : Type 0} {Q : A → Type 0} where
    pub Triple-pure : (a : A) → Q a → Triple {E = E} {X = X} P (pure a) Q
    unfolding pure
    Triple-pure a q = record { run = λ w h. (h, q) }

    pub Triple-raise : (x : X) → Triple {E = E} P (raise x) Q
    unfolding raise
    Triple-raise x = record { run = λ w h. (h, tt) }

    pub Triple-or_raise : (x : X) (o : Option A) → OptionOf Q o → Triple {E = E} P (or_raise x o) Q
    unfolding or_raise
    Triple-or_raise x none q = record { run = λ w h. (h, tt) }
    Triple-or_raise x (some a) q = record { run = λ w h. (h, q) }

    pub Triple-statement :
        (f : T → A × T)
        → ((t : T) → P t → P (f t).1 × Q (f t).0)
        → Triple {E = E} {X = X} P (statement f) Q
    unfolding statement
    Triple-statement f k = record {
      run = λ w h. elim (Bool-cases (fails w.faults)) [
        | inl e ↦ rw e (h, tt)
        | inr e ↦ rw e (k w.tables h)
      ];
    }

    pub Triple-if :
        (b : Bool) (m n : Sql T E X A)
        → Triple P m Q
        → Triple P n Q
        → Triple P (if b then m else n) Q
    Triple-if true m n hm hn = hm
    Triple-if false m n hm hn = hn

  pub Triple-exec :
      (f : T → T) → ((t : T) → P t → P (f t)) → Triple {E = E} {X = X} P (exec f) (λ _. Unit)
  Triple-exec f k = Triple-statement _ (λ t h. (k t h, tt))

  pub Triple-send_out : (e : E) → Triple {X = X} P (send_out e) (λ _. Unit)
  unfolding send_out
  Triple-send_out e = record { run = λ w h. (h, tt) }

  module _ {A B : Type 0} {Q : A → Type 0} {R : B → Type 0} where
    bind_run_lem :
        (f : A → Sql T E X B) (r : Result X A × World T E)
        → ((a : A) → Q a → Triple P (f a) R)
        → P r.1.tables × Returns Q r.0
        → P (bind_run f r).1.tables × Returns R (bind_run f r).0
    bind_run_lem f (ok a, w') hf k = (hf a k.1).run w' k.0
    bind_run_lem f (err x, w') hf k = (k.0, tt)
    bind_run_lem f (fault, w') hf k = (k.0, tt)

    pub Triple-bind :
        {m : Sql T E X A} {f : A → Sql T E X B}
        → Triple P m Q
        → ((a : A) → Q a → Triple P (f a) R)
        → Triple P (m >>= f) R
    unfolding ◌>>=◌
    Triple-bind {m} {f} hm hf = record { run = λ w h. bind_run_lem f (m w) hf (hm.run w h) }

  module _ {A : Type 0} {Q : A → Type 0} {m : Sql T E X A} where
    committed : Triple P m Q → Triple P (do exec (λ t. t); a ← m; exec (λ t. t); pure a) Q
    committed hm = Triple-bind (Triple-exec _ (λ t k. k)) (λ _ _.
        Triple-bind hm (λ a q. Triple-bind (Triple-exec _ (λ t k. k)) (λ _ _. Triple-pure a q)))

    pub Triple-transaction : Triple P m Q → Triple P (transaction m) Q
    unfolding transaction
    Triple-transaction hm = record {
      run = λ w h. settle_lem P Q w.tables _ h ((committed hm).run w h);
    }

-- A call whose result is looked at.
pub Triple-attempt :
    {T E X A : Type 0} {P : T → Type 0} {Q : A → Type 0} {m : Sql T E X A}
    → Triple P m Q
    → Triple P (attempt m) (Returns {X = X} Q)
unfolding attempt
Triple-attempt h = record { run = λ w p. h.run w p }

-- And where nothing is said of it.
pub Triple-attempt_any :
    {T E X A : Type 0} {P : T → Type 0} {m : Sql T E X A}
    → Triple P m Anything
    → Triple P (attempt m) Anything
unfolding attempt
Triple-attempt_any h = record { run = λ w p. ((h.run w p).0, tt) }

pub Triple-return_result :
    {T E X A : Type 0} {P : T → Type 0} {Q : A → Type 0} (r : Result X A)
    → Returns Q r
    → Triple {E = E} P (return_result r) Q
unfolding return_result
Triple-return_result r h = record { run = λ w i. (i, h) }

pub Returns-Anything : {X A : Type 0} (r : Result X A) → Returns (λ (a : A). Anything a) r
Returns-Anything (ok a) = tt
Returns-Anything (err x) = tt
Returns-Anything fault = tt
