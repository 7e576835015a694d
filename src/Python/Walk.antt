-- ===== src/Python/Walk.antt =====
-- The validation walks over an object graph: a stack of values to visit and containers to leave.
-- A container is opened by the check `enter` and left once everything below it has been visited.
-- `walk` is the same check by recursion on the nesting.
use traigent_schema.Prelude.{ℕ, zero, suc, ◌+◌, ◌≡◌, refl, ◌∙◌, List, [], ◌∷◌, ◌++◌, arith}
use traigent_schema.Python.Result.{Result, ok, err, ◌>>=◌}
use traigent_schema.Python.Object.{
  Value, null, bool, int, float, str, ref, foreign, Container, Heap,
}
use traigent_schema.Python.Worklist.{Drains, Drains-nil, Drains-bind, Drains-step, Drains-step_err}

-- the work-stack entries: a value at its depth, and the end of a container
pub data Visit (F : Type 0) : Type 0 where
  visit : Value F → ℕ → Visit F
  leave : ℕ → Visit F

module _ {F E S : Type 0} (scalar : Value F → Result E (Unit {0})) (enter : ℕ → ℕ → S → Result E S)
    (children : Container F → Result E (List (Value F))) (exit : ℕ → S → S) (heap : Heap F) where
  unfoldable pub visits : ℕ → List (Value F) → List (Visit F)
  visits depth [] = []
  visits depth (v ∷ vs) = visit v depth ∷ visits depth vs

  -- one round of the loop; `children` are in the order in which they are popped
  unfoldable pub walk_step : Visit F → S → Result E (List (Visit F) × S)
  unfolding visits
  walk_step (leave a) s = ok ([], exit a s)
  walk_step (visit (ref a) depth) s = do
    s' ← enter a depth s
    below ← children (heap a)
    ok (visits (depth + 1) below ++ leave a ∷ [], s')
  walk_step (visit v depth) s = do done ← scalar v; ok ([], s)

  unfoldable pub walk_all : (Value F → S → Result E S) → List (Value F) → S → Result E S
  walk_all f [] s = ok s
  walk_all f (v ∷ vs) s = do s' ← f v s; walk_all f vs s'

  module _ (too_deep : E) where
    unfoldable pub walk : Value F → ℕ → ℕ → S → Result E S
    unfolding walk_all
    walk (ref a) zero depth s = err too_deep
    walk (ref a) (suc room) depth s = do
      s' ← enter a depth s
      below ← children (heap a)
      s'' ← walk_all (λ v. walk v room (depth + 1)) below s'
      ok (exit a s'')
    walk v room depth s = do done ← scalar v; ok s

    module _ (limit : ℕ) (deep : (a : ℕ) (s : S) → enter a (suc limit) s ≡ err too_deep) where
      abbrev Ends : List (Visit F) → S → Result E S → Type 0
      Ends = Drains walk_step

      Ends-all :
          (f : Value F → S → Result E S) (depth : ℕ)
          → ((v : Value F) (s : S) → Ends (visit v depth ∷ []) s (f v s))
          → (vs : List (Value F)) (s : S) → Ends (visits depth vs) s (walk_all f vs s)
      unfolding visits walk_all
      Ends-all f depth each [] s = Drains-nil _ s
      Ends-all f depth each (v ∷ vs) s =
          Drains-bind _ (visit v depth ∷ []) _ (f v s) (walk_all f vs) (each v s)
            (Ends-all f depth each vs)

      Ends-leave : (a : ℕ) (s : S) → Ends (leave a ∷ []) s (ok (exit a s))
      unfolding walk_step
      Ends-leave a s = Drains-step _ (leave a) [] refl (Drains-nil _ _)

      Ends-inside :
          (f : Value F → S → Result E S) (a depth : ℕ) (s s' : S)
          → enter a depth s ≡ ok s'
          → ((v : Value F) (s : S) → Ends (visit v (depth + 1) ∷ []) s (f v s))
          → (r : Result E (List (Value F))) → children (heap a) ≡ r
          → Ends
              (visit (ref a) depth ∷ [])
              s
              (do below ← r; s'' ← walk_all f below s'; ok (exit a s''))
      unfolding walk_step
      Ends-inside f a depth s s' e each (err x) c =
          Drains-step_err _ (visit (ref a) depth) (rw (e, c) refl)
      Ends-inside f a depth s s' e each (ok below) c =
          Drains-step _ (visit (ref a) depth) (visits (depth + 1) below ++ leave a ∷ [])
            (rw (e, c) refl)
            (Drains-bind _ (visits (depth + 1) below) (leave a ∷ []) (walk_all f below s')
              (λ t. ok (exit a t)) (Ends-all f (depth + 1) each below s') (Ends-leave a))

      Ends-ref :
          (f : Value F → S → Result E S) (a depth : ℕ) (s : S)
          → ((v : Value F) (s : S) → Ends (visit v (depth + 1) ∷ []) s (f v s))
          → (r : Result E S) → enter a depth s ≡ r
          → Ends
              (visit (ref a) depth ∷ [])
              s
              (do s' ← r; below ← children (heap a); s'' ← walk_all f below s'; ok (exit a s''))
      unfolding walk_step
      Ends-ref f a depth s each (err x) e = Drains-step_err _ (visit (ref a) depth) (rw e refl)
      Ends-ref f a depth s each (ok s') e =
          Ends-inside f a depth s s' e each (children (heap a)) refl

      Ends-scalar :
          (v : Value F) (depth : ℕ) (s : S)
          → walk_step (visit v depth) s ≡ (do done ← scalar v; ok ([], s))
          → (r : Result E (Unit {0})) → scalar v ≡ r
          → Ends (visit v depth ∷ []) s (do done ← r; ok s)
      Ends-scalar v depth s h (err x) e = Drains-step_err _ (visit v depth) (h ∙ rw e refl)
      Ends-scalar v depth s h (ok done) e =
          Drains-step _ (visit v depth) [] (h ∙ rw e refl) (Drains-nil _ s)

      Ends-refused :
          (a depth : ℕ) (s : S) (x : E)
          → enter a depth s ≡ err x
          → Ends (visit (ref a) depth ∷ []) s (err x)
      unfolding walk_step
      Ends-refused a depth s x e = Drains-step_err _ (visit (ref a) depth) (rw e refl)

      pub Ends-walk :
          (room depth : ℕ) (v : Value F) (s : S)
          → depth + room ≡ suc limit
          → Ends (visit v depth ∷ []) s (walk v room depth s)
      unfolding walk
      Ends-walk zero depth (ref a) s h =
          let last : depth ≡ suc limit = omega arith in
          Ends-refused a depth s too_deep (rw last (deep a s))
      Ends-walk (suc room) depth (ref a) s h =
          Ends-ref (λ v s. walk v room (depth + 1) s) a depth s
            (λ v s. Ends-walk room (depth + 1) v s (omega arith)) (enter a depth s) refl
      Ends-walk room depth null s h = Ends-scalar null depth s (unfold walk_step in refl) _ refl
      Ends-walk room depth (bool b) s h =
          Ends-scalar (bool b) depth s (unfold walk_step in refl) _ refl
      Ends-walk room depth (int n) s h =
          Ends-scalar (int n) depth s (unfold walk_step in refl) _ refl
      Ends-walk room depth (float x) s h =
          Ends-scalar (float x) depth s (unfold walk_step in refl) _ refl
      Ends-walk room depth (str t) s h =
          Ends-scalar (str t) depth s (unfold walk_step in refl) _ refl
      Ends-walk room depth foreign s h =
          Ends-scalar foreign depth s (unfold walk_step in refl) _ refl
