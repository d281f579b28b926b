-- ===== src/LoginLimiter/Refine.antt =====
-- What the limiter answers for one key, whatever happens under the others and whenever it sweeps.
use mathlib.Core.Path.{ap₂}
use hsgram_admin.Prelude.{
  ℕ, ◌≤◌, ◌≡◌, refl, ◌∙◌, Bool, false, Option, none, List, [], ◌∷◌, inl, inr, Bool-cases,
  if◌then◌else◌,
}
use hsgram_admin.Prelude.Text.{Text, text_eq, text_eq_iff}
use hsgram_admin.LoginLimiter.{Attempt, Limiter, sweep_expired, new_limiter}
use hsgram_admin.LoginLimiter.Step.{
  Op, Call, perform, slot_allow, slot_step, slot_answer, perform_swept, Sim, Sim-later, sweep-Sim,
  perform-swept, own-swept, other-swept,
}

-- What the calls with the key `k` are answered, among calls with any keys.
unfoldable pub answers : Text → List Call → Limiter → List (Option Bool)
unfolding perform
answers k [] l = []
answers k (c ∷ cs) l =
    let (l', a) = perform c.op c.now c.key l in
    let rest = answers k cs l' in if text_eq k c.key then a ∷ rest else rest

-- What the description answers them.
unfoldable pub slot_answers : ℕ → ℕ → ℕ → Text → List Call → Option Attempt → List (Option Bool)
unfolding slot_answer slot_step slot_allow
slot_answers limit window block_for k [] s = []
slot_answers limit window block_for k (c ∷ cs) s =
    let own =
      slot_answer c.op c.now s
      ∷ slot_answers limit window block_for k cs (slot_step limit window block_for c.op c.now s) in
    let other = slot_answers limit window block_for k cs s in if text_eq k c.key then own else other

-- The clock does not run backwards.
abbrev pub IsOrdered : ℕ → List Call → Type 0
IsOrdered t [] = Unit
IsOrdered t (c ∷ cs) = (t ≤ c.now) × IsOrdered c.now cs

module _ (limit window block_for : ℕ) (k : Text) where
  pub record Related (now : ℕ) (l : Limiter) (s : Option Attempt) : Type 0 where
    pub limits : l.limit ≡ limit
    pub windows : l.window ≡ window
    pub blocks : l.block_for ≡ block_for
    pub entry : Sim window now (l.attempts k) s

  Related-sweep :
      (now : ℕ) (l : Limiter) (s : Option Attempt)
      → Related now l s
      → Related now (sweep_expired now l) s
  Related-sweep now l s r =
      let (sim, (a, b, c)) = sweep-Sim k s l now (rw r.windows r.entry) in
      record {
        limits = a ∙ r.limits;
        windows = b ∙ r.windows;
        blocks = c ∙ r.blocks;
        entry = rw (← r.windows) sim;
      }

  Related-own :
      (o : Op) (now : ℕ) (l : Limiter) (s : Option Attempt)
      → Related now l s
      → ((perform_swept o now k l).1 ≡ slot_answer o now s)
        × Related now (perform_swept o now k l).0 (slot_step limit window block_for o now s)
  Related-own o now l s r =
      let (same, sim, (a, b, c)) = own-swept l now k o s (rw r.windows r.entry) in
      (
        same,
        record {
          limits = a ∙ r.limits;
          windows = b ∙ r.windows;
          blocks = c ∙ r.blocks;
          entry = rw (← r.windows, ← r.limits, ← r.blocks) sim;
        },
      )

  Related-other :
      (o : Op) (now : ℕ) (key : Text) (l : Limiter) (s : Option Attempt)
      → text_eq k key ≡ false
      → Related now l s
      → Related now (perform_swept o now key l).0 s
  Related-other o now key l s e r =
      let (same, (a, b, c)) = other-swept l now key o k e in
      record {
        limits = a ∙ r.limits;
        windows = b ∙ r.windows;
        blocks = c ∙ r.blocks;
        entry = rw same r.entry;
      }

  pub Related-later :
      (now now' : ℕ) (l : Limiter) (s : Option Attempt)
      → now ≤ now'
      → Related now l s
      → Related now' l s
  Related-later now now' l s h r = record {
    limits = r.limits;
    windows = r.windows;
    blocks = r.blocks;
    entry = Sim-later window now now' (l.attempts k) s h r.entry;
  }

  pub perform-own :
      (o : Op) (now : ℕ) (l : Limiter) (s : Option Attempt)
      → Related now l s
      → ((perform o now k l).1 ≡ slot_answer o now s)
        × Related now (perform o now k l).0 (slot_step limit window block_for o now s)
  perform-own o now l s r =
      rw (perform-swept o now k l)
        (Related-own o now (sweep_expired now l) s (Related-sweep now l s r))

  pub perform-other :
      (o : Op) (now : ℕ) (key : Text) (l : Limiter) (s : Option Attempt)
      → text_eq k key ≡ false
      → Related now l s
      → Related now (perform o now key l).0 s
  perform-other o now key l s e r =
      rw (perform-swept o now key l)
        (Related-other o now key (sweep_expired now l) s e (Related-sweep now l s r))

  answers-Related :
      (cs : List Call) (t : ℕ) (l : Limiter) (s : Option Attempt)
      → IsOrdered t cs
      → Related t l s
      → answers k cs l ≡ slot_answers limit window block_for k cs s
  unfolding answers slot_answers
  answers-Related [] t l s ordered r = refl
  answers-Related (c ∷ cs) t l s ordered r =
      let swept_one = Related-sweep c.now l s (Related-later t c.now l s ordered.0 r) in
      elim (Bool-cases (text_eq k c.key)) [
        | inl e ↦ rw e (
            rw (perform-swept c.op c.now c.key l, ← (text_eq_iff k c.key).0 e)
              (let (same, next) = Related-own c.op c.now (sweep_expired c.now l) s swept_one in
                ap₂ ◌∷◌ same (answers-Related cs c.now _ _ ordered.1 next)))
        | inr e ↦ rw e (
            rw (perform-swept c.op c.now c.key l) (
              answers-Related cs c.now _ s ordered.1
                (Related-other c.op c.now c.key (sweep_expired c.now l) s e swept_one)))
      ]

pub new_limiter-Related :
    (limit window block_for : ℕ) (k : Text) (now : ℕ)
    → Related limit window block_for k now (new_limiter limit window block_for) none
unfolding new_limiter
new_limiter-Related limit window block_for k now = record {
  limits = refl;
  windows = refl;
  blocks = refl;
  entry = inl refl;
}

-- From an empty limiter, with a clock that does not run backwards, the calls with one key are
-- answered as by one slot of its own: neither the calls with other keys nor the sweeps can be
-- told from the answers.
pub new_limiter-answers :
    (limit window block_for : ℕ) (k : Text) (cs : List Call)
    → IsOrdered 0 cs
    → answers k cs (new_limiter limit window block_for)
      ≡ slot_answers limit window block_for k cs none
new_limiter-answers limit window block_for k cs ordered =
    answers-Related limit window block_for k cs 0 _ none ordered
      (new_limiter-Related limit window block_for k 0)
