-- ===== src/Python/Worklist.antt =====
-- `while work: entry = work.pop(); ...`. The list `work` is held with its top first, and a step
-- returns what it pushes, the entry that will be popped first in front.
use traigent_schema.Prelude.{
  ℕ, zero, suc, ◌+◌, ◌≡◌, refl, ◌∙◌, Option, none, some, List, [], ◌∷◌, ◌++◌, append_assoc, arith,
  append-nil,
}
use traigent_schema.Python.Result.{Result, ok, err, ◌>>=◌}

module _ {S Entry E : Type 0} (step : Entry → S → Result E (List Entry × S)) where
  -- `none`: the fuel ran out
  unfoldable pub drain : ℕ → List Entry → S → Option (Result E S)
  drain zero [] s = some (ok s)
  drain zero (e ∷ work) s = none
  drain (suc fuel) [] s = some (ok s)
  drain (suc fuel) (e ∷ work) s = elim (step e s) [
    | err x ↦ some (err x)
    | ok (pushed, s') ↦ drain fuel (pushed ++ work) s'
  ]

  abbrev pub continue : ℕ → List Entry → Result E S → Option (Result E S)
  continue fuel rest (ok s) = drain fuel rest s
  continue fuel rest (err x) = some (err x)

  -- Popping `entries`, and whatever they push, from the state `s` comes to `r`, whatever lies below.
  pub record Drains (entries : List Entry) (s : S) (r : Result E S) : Type 0 where
    pub rounds : ℕ
    pub runs :
        (rest : List Entry) (fuel : ℕ)
        → drain (rounds + fuel) (entries ++ rest) s ≡ continue fuel rest r

  pub Drains-nil : (s : S) → Drains [] s (ok s)
  Drains-nil s = record {
    rounds = 0;
    runs = λ rest fuel. let e : 0 + fuel ≡ fuel = omega arith in rw e refl;
  }

  pub Drains-append :
      {s s' : S} {r : Result E S} (es fs : List Entry)
      → Drains es s (ok s')
      → Drains fs s' r
      → Drains (es ++ fs) s r
  Drains-append {s} {s'} {r} es fs a b = record {
    rounds = a.rounds + b.rounds;
    runs = λ rest fuel.
        let e : a.rounds + b.rounds + fuel ≡ a.rounds + (b.rounds + fuel) = omega arith in
        rw (e, append_assoc) (a.runs (fs ++ rest) (b.rounds + fuel) ∙ b.runs rest fuel);
  }

  pub Drains-append_err :
      {s : S} {x : E} (es fs : List Entry) → Drains es s (err x) → Drains (es ++ fs) s (err x)
  Drains-append_err es fs a = record {
    rounds = a.rounds;
    runs = λ rest fuel. rw append_assoc (a.runs (fs ++ rest) fuel);
  }

  pub drain-suc :
      (fuel : ℕ) (e : Entry) (work : List Entry) (s s' : S) (pushed : List Entry)
      → step e s ≡ ok (pushed, s')
      → drain (suc fuel) (e ∷ work) s ≡ drain fuel (pushed ++ work) s'
  unfolding drain
  drain-suc fuel e work s s' pushed h = rw (h, drain)

  pub drain-suc_err :
      (fuel : ℕ) (e : Entry) (work : List Entry) (s : S) (x : E)
      → step e s ≡ err x
      → drain (suc fuel) (e ∷ work) s ≡ some (err x)
  unfolding drain
  drain-suc_err fuel e work s x h = rw (h, drain)

  pub Drains-step :
      {s s' : S} {r : Result E S} (e : Entry) (pushed : List Entry)
      → step e s ≡ ok (pushed, s')
      → Drains pushed s' r
      → Drains (e ∷ []) s r
  Drains-step {s} {s'} e pushed h a = record {
    rounds = suc a.rounds;
    runs = λ rest fuel.
        let f : suc a.rounds + fuel ≡ suc (a.rounds + fuel) = omega arith in
        rw f (drain-suc (a.rounds + fuel) e rest s s' pushed h ∙ a.runs rest fuel);
  }

  pub Drains-step_err : {s : S} (e : Entry) {x : E} → step e s ≡ err x → Drains (e ∷ []) s (err x)
  Drains-step_err {s} e {x} h = record {
    rounds = 1;
    runs = λ rest fuel.
        let f : 1 + fuel ≡ suc fuel = omega arith in rw f (drain-suc_err fuel e rest s x h);
  }

  drain_nil : (fuel : ℕ) (s : S) → drain fuel [] s ≡ some (ok s)
  unfolding drain
  drain_nil zero s = refl
  drain_nil (suc fuel) s = refl

  continue_nil : (fuel : ℕ) (r : Result E S) → continue fuel [] r ≡ some r
  continue_nil fuel (ok s) = drain_nil fuel s
  continue_nil fuel (err x) = refl

  -- with the rounds and any more fuel the loop ends, in that state or error
  pub Drains-ends :
      {s : S} {r : Result E S} (es : List Entry)
      → Drains es s r
      → (n : ℕ) × ((k : ℕ) → drain (n + k) es s ≡ some r)
  Drains-ends {s} {r} es a = (a.rounds, λ k. rw append-nil at (a.runs [] k) ∙ continue_nil k r)

  -- what the entries above come to is passed to those below
  pub Drains-bind :
      {s : S} (es fs : List Entry) (r : Result E S) (g : S → Result E S)
      → Drains es s r
      → ((s' : S) → Drains fs s' (g s'))
      → Drains (es ++ fs) s (r >>= g)
  Drains-bind es fs (ok s') g d k = Drains-append es fs d (k s')
  Drains-bind es fs (err x) g d k = Drains-append_err es fs d
