-- ===== src/Invariants/Bound.antt =====
-- The number of rounds of `_prevalidate_canonical`, by its node budget.
use mathlib.Core.List.{reverse, reverse-cons}
use traigent_schema.Prelude.{
  ℕ, zero, suc, ◌+◌, ◌-◌, ◌*◌, ◌≤◌, ◌<◌, ◌≡◌, refl, ap, ◌∙◌, Bool, true, false, not, some, List, [],
  ◌∷◌, ◌++◌, arith, leb, length, length-append, leb→le,
}
use traigent_schema.Python.Result.{Result, ok, err, ◌>>=◌, guard, >>=-eq-ok}
use traigent_schema.Python.Object.{
  Floats, Value, null, bool, int, float, str, ref, foreign, Key, str_key, foreign_key, Container,
  list, dict, Heap,
}
use traigent_schema.Python.Worklist.{drain, drain-suc, drain-suc_err}
use traigent_schema.Python.Identity.{is_open}
use traigent_schema.Python.Walk.{Visit, visit, leave, visits, walk_step}
use traigent_schema.Invariants.Pointer.{InvariantError, comparison_bound}
use traigent_schema.Invariants.Compare.{
  Budget, max_comparison_nodes, max_comparison_depth, is_canonical_scalar, size, canonical_members,
  canonical_children, leave_container, reserve_container, prevalidate_canonical,
}

pub length-reverse {ℓ} : {A : Type ℓ} (xs : List A) → length (reverse xs) ≡ length xs
length-reverse [] = refl
length-reverse (x ∷ xs) =
    ap length (reverse-cons x xs)
    ∙ omega (arith, length-append (reverse xs) (x ∷ []), length-reverse xs)

module _ (fl : Floats) (heap : Heap fl.Float) where
  open fl use {Float}

  length-canonical_members :
      (items : List (Key × Value Float)) (vs : List (Value Float))
      → canonical_members fl items ≡ ok vs
      → length vs ≡ length items
  unfolding canonical_members
  length-canonical_members [] vs h = ground (arith, h)
  length-canonical_members ((str_key k, v) ∷ items) vs h =
      let (ws, listed, e) = >>=-eq-ok (canonical_members fl items) _ h in
      let e' : v ∷ ws ≡ vs = cc in rw (← e') (ap suc (length-canonical_members items ws listed))
  length-canonical_members ((foreign_key, v) ∷ items) vs h = absurd (cc)

  length-canonical_children :
      (c : Container Float) (vs : List (Value Float))
      → canonical_children fl c ≡ ok vs
      → length vs ≡ size fl c
  unfolding canonical_children size
  length-canonical_children (dict items) vs h =
      let (ws, listed, e) = >>=-eq-ok (canonical_members fl items) _ h in
      let e' : reverse ws ≡ vs = cc in
      rw (← e') (length-reverse ws ∙ length-canonical_members items ws listed)
  length-canonical_children (list items) vs h =
      let e' : reverse items ≡ vs = cc in rw (← e') (length-reverse items)

  -- rounds that the entries still cost at most, a container's children counted by the budget
  cost : List (Visit Float) → ℕ
  cost [] = 0
  cost (visit v d ∷ work) = 2 + cost work
  cost (leave a ∷ work) = 1 + cost work

  cost-append : (xs ys : List (Visit Float)) → cost (xs ++ ys) ≡ cost xs + cost ys
  unfolding cost
  cost-append [] ys = omega arith
  cost-append (visit v d ∷ xs) ys = omega (arith, cost-append xs ys)
  cost-append (leave a ∷ xs) ys = omega (arith, cost-append xs ys)

  abbrev step : Visit Float → Budget → Result InvariantError (List (Visit Float) × Budget)
  step =
      walk_step (is_canonical_scalar fl) (reserve_container fl heap) (canonical_children fl)
        (leave_container fl) heap

  abbrev visits' : ℕ → List (Value Float) → List (Visit Float)
  visits' =
      visits (is_canonical_scalar fl) (reserve_container fl heap) (canonical_children fl)
        (leave_container fl) heap

  cost-visits : (d : ℕ) (vs : List (Value Float)) → cost (visits' d vs) ≡ 2 * length vs
  unfolding cost visits
  cost-visits d [] = refl
  cost-visits d (v ∷ vs) = omega (arith, cost-visits d vs)

  Decreases : Visit Float → Budget → List (Visit Float) × Budget → Type 0
  Decreases e s (pushed, s') = cost pushed + 2 * s'.remaining < cost (e ∷ []) + 2 * s.remaining

  abbrev settled : List (Visit Float) × Budget → Result InvariantError (List (Visit Float) × Budget)
  settled next = ok next

  guard-true : (b : Bool) (x : InvariantError) (u : Unit {0}) → guard b x ≡ ok u → b ≡ true
  guard-true true x u h = refl
  guard-true false x u h = absurd (cc)

  settled_inj :
      (pushed pushed' : List (Visit Float)) (s s' : Budget)
      → settled (pushed, s) ≡ ok (pushed', s')
      → (pushed ≡ pushed') × (s ≡ s')
  settled_inj pushed pushed' s s' h = (cc, cc)

  scalar-Decreases :
      (v : Value Float) (depth : ℕ) (s : Budget) (r : Result InvariantError (Unit {0}))
      (next : List (Visit Float) × Budget)
      → (do done ← r; settled ([], s)) ≡ ok next
      → Decreases (visit v depth) s next
  unfolding Decreases cost
  scalar-Decreases v depth s (err x) next h = absurd (cc)
  scalar-Decreases v depth s (ok done) (pushed, s') h =
      let (empty, same) = settled_inj [] pushed s s' h in rw (← same, ← empty) (omega arith)

  reserve-remaining :
      (a depth : ℕ) (s s' : Budget)
      → reserve_container fl heap a depth s ≡ ok s'
      → size fl (heap a) + s'.remaining ≤ s.remaining
  unfolding reserve_container
  reserve-remaining a depth s s' h =
      let (u, shallow, h1) =
        >>=-eq-ok (guard (leb depth max_comparison_depth) comparison_bound) _ h in
      let (v, unseen, h2) = >>=-eq-ok (guard (not (is_open a s.open_ids)) comparison_bound) _ h1 in
      let (w, fits, h3) =
        >>=-eq-ok (guard (leb (size fl (heap a)) s.remaining) comparison_bound) _ h2 in
      let within : size fl (heap a) ≤ s.remaining =
        leb→le _ _ (guard-true _ comparison_bound w fits) in
      let last : s.remaining - size fl (heap a) ≡ s'.remaining = cc in omega arith

  leave-Decreases :
      (a : ℕ) (s : Budget) (pushed : List (Visit Float)) (s' : Budget)
      → settled ([], leave_container fl a s) ≡ ok (pushed, s')
      → Decreases (leave a) s (pushed, s')
  unfolding Decreases cost leave_container
  leave-Decreases a s pushed s' h =
      let (empty, same) = settled_inj [] pushed (leave_container fl a s) s' h in
      rw (← same, ← empty) (omega arith)

  container-Decreases :
      (a depth : ℕ) (s t : Budget) (below : List (Value Float))
      → reserve_container fl heap a depth s ≡ ok t
      → canonical_children fl (heap a) ≡ ok below
      → Decreases (visit (ref a) depth) s (visits' (depth + 1) below ++ leave a ∷ [], t)
  unfolding Decreases cost
  container-Decreases a depth s t below entered listed = omega (
    arith,
    cost-append (visits' (depth + 1) below) (leave a ∷ []),
    cost-visits (depth + 1) below,
    length-canonical_children (heap a) below listed,
    reserve-remaining a depth s t entered,
  )

  step-Decreases :
      (e : Visit Float) (s : Budget) (next : List (Visit Float) × Budget)
      → step e s ≡ ok next
      → Decreases e s next
  unfolding walk_step
  step-Decreases (leave a) s (pushed, s') h = leave-Decreases a s pushed s' h
  step-Decreases (visit (ref a) depth) s (pushed, s') h =
      let (t, entered, h1) = >>=-eq-ok (reserve_container fl heap a depth s) _ h in
      let (below, listed, h2) = >>=-eq-ok (canonical_children fl (heap a)) _ h1 in
      let (all_pushed, same) =
        settled_inj (visits' (depth + 1) below ++ leave a ∷ []) pushed t s' h2 in
      rw (← same, ← all_pushed) (container-Decreases a depth s t below entered listed)
  step-Decreases (visit null depth) s next h = scalar-Decreases null depth s _ next h
  step-Decreases (visit (bool b) depth) s next h = scalar-Decreases (bool b) depth s _ next h
  step-Decreases (visit (int n) depth) s next h = scalar-Decreases (int n) depth s _ next h
  step-Decreases (visit (float x) depth) s next h = scalar-Decreases (float x) depth s _ next h
  step-Decreases (visit (str t) depth) s next h = scalar-Decreases (str t) depth s _ next h
  step-Decreases (visit foreign depth) s next h = scalar-Decreases foreign depth s _ next h

  abbrev Finishes : ℕ → List (Visit Float) → Budget → Type 0
  Finishes fuel work s = (r : Result InvariantError Budget) × (drain step fuel work s ≡ some r)

  round-Finishes :
      (fuel : ℕ) (e : Visit Float) (work : List (Visit Float)) (s : Budget)
      → cost (e ∷ work) + 2 * s.remaining ≤ suc fuel
      → ((work' : List (Visit Float)) (s' : Budget)
          → cost work' + 2 * s'.remaining ≤ fuel
          → Finishes fuel work' s')
      → (r : Result InvariantError (List (Visit Float) × Budget)) → step e s ≡ r
      → Finishes (suc fuel) (e ∷ work) s
  round-Finishes fuel e work s h more (err x) k = (err x, drain-suc_err step fuel e work s x k)
  round-Finishes fuel e work s h more (ok (pushed, s')) k =
      let less : cost pushed + 2 * s'.remaining < cost (e ∷ []) + 2 * s.remaining =
        unfold Decreases in step-Decreases e s (pushed, s') k in
      let (r, done) =
        more (pushed ++ work) s'
          (omega (arith, cost-append pushed work, cost-append (e ∷ []) work)) in
      (r, drain-suc step fuel e work s s' pushed k ∙ done)

  drain-Finishes :
      (fuel : ℕ) (work : List (Visit Float)) (s : Budget)
      → cost work + 2 * s.remaining ≤ fuel
      → Finishes fuel work s
  unfolding drain cost
  drain-Finishes zero [] s h = (ok s, refl)
  drain-Finishes (suc fuel) [] s h = (ok s, refl)
  drain-Finishes zero (visit v d ∷ work) s h = absurd (omega arith)
  drain-Finishes zero (leave a ∷ work) s h = absurd (omega arith)
  drain-Finishes (suc fuel) (e ∷ work) s h =
      round-Finishes fuel e work s h (drain-Finishes fuel) (step e s) refl

  -- On every object graph, cyclic ones included, `_prevalidate_canonical` returns or raises within
  -- 2 * _MAX_COMPARISON_NODES = 200,000 rounds of its loop.
  pub prevalidate_canonical_ends :
      (fuel : ℕ) (root : Value Float)
      → 2 * max_comparison_nodes ≤ fuel
      → (r : Result InvariantError Budget) × (prevalidate_canonical fl heap fuel root ≡ some r)
  unfolding prevalidate_canonical cost
  prevalidate_canonical_ends fuel root h =
      drain-Finishes fuel (visit root 1 ∷ [])
        (record { open_ids = []; remaining = max_comparison_nodes - 1 }) (omega arith)
