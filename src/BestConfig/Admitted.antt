-- ===== src/BestConfig/Admitted.antt =====
-- What `_prevalidate` admits, described by recursion on the nesting and with no set of open
-- containers, and the loop compared with it.
use traigent_schema.Prelude.{
  ℕ, zero, suc, ◌+◌, ◌≤◌, ◌≡◌, ◌↔◌, refl, ap, Bool, true, false, ◌&&◌, some, List, [], ◌∷◌, arith,
  leb, ◌==◌, Bool-cases, inl, inr, All,
}
use traigent_schema.Python.Result.{Result, ok, err, ◌>>=◌, >>=-eq-ok, is_ok}
use traigent_schema.Python.Object.{Floats, Value, null, bool, int, float, str, ref, foreign, Heap}
use traigent_schema.Python.Identity.{is_open, discard, discard-cons}
use traigent_schema.Python.Worklist.{Drains-ends}
use traigent_schema.Python.Walk.{visit, walk, walk_all, Ends-walk}
use traigent_schema.BestConfig.{
  ProfileError, exceeds_max_depth, max_depth, is_admissible_scalar, open_profile_container,
  profile_children, prevalidate,
}

module _ (fl : Floats) (heap : Heap fl.Float) where
  open fl use {Float}

  abbrev pub all_of : (Value Float → Bool) → List (Value Float) → Bool
  all_of p [] = true
  all_of p (v ∷ vs) = p v && all_of p vs

  abbrev pub all_ok : (Value Float → Bool) → Result ProfileError (List (Value Float)) → Bool
  all_ok p (err x) = false
  all_ok p (ok vs) = all_of p vs

  -- containers with plain string keys nested at most `room` deep, and admissible scalars in them
  unfoldable pub admitted : Value Float → ℕ → Bool
  admitted (ref a) zero = false
  admitted (ref a) (suc room) = all_ok (λ v. admitted v room) (profile_children fl (heap a))
  admitted v room = is_ok (is_admissible_scalar fl v)

  abbrev check : Value Float → ℕ → ℕ → List ℕ → Result ProfileError (List ℕ)
  check =
      walk (is_admissible_scalar fl) (open_profile_container fl) (profile_children fl) discard heap
        exceeds_max_depth

  deep :
      (a : ℕ) (s : List ℕ) → open_profile_container fl a (suc max_depth) s ≡ err exceeds_max_depth
  unfolding open_profile_container
  deep a s = refl

  prevalidate-check :
      (v : Value Float)
      → (n : ℕ) × ((k : ℕ) → prevalidate fl heap (n + k) v ≡ some (check v max_depth 1 []))
  unfolding prevalidate
  prevalidate-check v = Drains-ends _ (visit v 1 ∷ []) (
      Ends-walk (is_admissible_scalar fl) (open_profile_container fl) (profile_children fl) discard
        heap exceeds_max_depth max_depth deep max_depth 1 v [] refl)

  all_of_mono :
      (p q : Value Float → Bool) (vs : List (Value Float))
      → ((v : Value Float) → p v ≡ true → q v ≡ true)
      → all_of p vs ≡ true
      → all_of q vs ≡ true
  all_of_mono p q [] f h = refl
  all_of_mono p q (v ∷ vs) f h = ground (arith, f v, all_of_mono p q vs f)

  all_ok_mono :
      (p q : Value Float → Bool) (r : Result ProfileError (List (Value Float)))
      → ((v : Value Float) → p v ≡ true → q v ≡ true)
      → all_ok p r ≡ true
      → all_ok q r ≡ true
  all_ok_mono p q (ok vs) f h = all_of_mono p q vs f h
  all_ok_mono p q (err x) f h = h

  admitted_mono : (r r' : ℕ) (v : Value Float) → r ≤ r' → admitted v r ≡ true → admitted v r' ≡ true
  unfolding admitted
  admitted_mono zero r' (ref a) h e = absurd (cc)
  admitted_mono (suc r) zero (ref a) h e = absurd (omega arith)
  admitted_mono (suc r) (suc r') (ref a) h e =
      all_ok_mono _ _ (profile_children fl (heap a)) (λ v. admitted_mono r r' v (omega arith)) e
  admitted_mono r r' null h e = e
  admitted_mono r r' (bool b) h e = e
  admitted_mono r r' (int n) h e = e
  admitted_mono r r' (float x) h e = e
  admitted_mono r r' (str t) h e = e
  admitted_mono r r' foreign h e = e

  -- the containers open around a value nest deeper than it
  abbrev Above : ℕ → List ℕ → Type 0
  Above r opened = All (λ b. admitted (ref b) r ≡ false) opened

  Above-mono : (r r' : ℕ) (opened : List ℕ) → r ≤ r' → Above r' opened → Above r opened
  Above-mono r r' [] h a = tt
  Above-mono r r' (b ∷ opened) h a =
      (ground (arith, a.0, admitted_mono r r' (ref b) h), Above-mono r r' opened h a.1)

  Above-is_open :
      (a r : ℕ) (opened : List ℕ)
      → admitted (ref a) r ≡ true
      → Above r opened
      → is_open a opened ≡ false
  unfolding is_open
  Above-is_open a r [] h up = refl
  Above-is_open a r (b ∷ opened) h up = elim (Bool-cases (a == b)) [
    | inl same ↦ (let e : a ≡ b = ground (arith, same) in absurd (ground (arith, h, up.0, e)))
    | inr differ ↦ rw differ (Above-is_open a r opened h up.1)
  ]

  walk_all_ok :
      (f : Value Float → List ℕ → Result ProfileError (List ℕ)) (p : Value Float → Bool)
      (vs : List (Value Float)) (s : List ℕ)
      → ((v : Value Float) → p v ≡ true → f v s ≡ ok s)
      → all_of p vs ≡ true
      → walk_all
          (is_admissible_scalar fl)
          (open_profile_container fl)
          (profile_children fl)
          discard
          heap
          f
          vs
          s
        ≡ ok s
  unfolding walk_all
  walk_all_ok f p [] s each h = refl
  walk_all_ok f p (v ∷ vs) s each h =
      let here : f v s ≡ ok s = each v (ground (arith, h)) in
      rw here (walk_all_ok f p vs s each (ground (arith, h)))

  abbrev walk_below :
      (Value Float → List ℕ → Result ProfileError (List ℕ))
      → List (Value Float)
      → List ℕ
      → Result ProfileError (List ℕ)
  walk_below =
      walk_all (is_admissible_scalar fl) (open_profile_container fl) (profile_children fl) discard
        heap

  -- one container whose children all pass
  check_container :
      (a room depth r : ℕ) (opened : List ℕ)
      → depth + suc room ≡ suc max_depth
      → is_open a opened ≡ false
      → ((v : Value Float)
          → admitted v r ≡ true
          → check v room (depth + 1) (a ∷ opened) ≡ ok (a ∷ opened))
      → (c : Result ProfileError (List (Value Float))) → profile_children fl (heap a) ≡ c
      → all_ok (λ v. admitted v r) c ≡ true
      → check (ref a) (suc room) depth opened ≡ ok opened
  unfolding walk open_profile_container
  check_container a room depth r opened h unseen each (err x) e good = absurd (cc)
  check_container a room depth r opened h unseen each (ok vs) e good =
      let fits : leb depth max_depth ≡ true = ground (arith, h) in
      let below : walk_below (λ v. check v room (depth + 1)) vs (a ∷ opened) ≡ ok (a ∷ opened) =
        walk_all_ok (λ v. check v room (depth + 1)) (λ v. admitted v r) vs (a ∷ opened) each good in
      rw (fits, unseen, e, below) (ap ok (discard-cons a opened unseen))

  scalar_pass :
      (r : Result ProfileError (Unit {0})) (opened : List ℕ)
      → is_ok r ≡ true
      → (do done ← r; ok opened) ≡ ok opened
  scalar_pass (ok u) opened h = refl
  scalar_pass (err x) opened h = absurd (cc)

  scalar_passed :
      (r : Result ProfileError (Unit {0})) (opened s : List ℕ)
      → (do done ← r; ok opened) ≡ ok s
      → is_ok r ≡ true
  scalar_passed (ok u) opened s h = refl
  scalar_passed (err x) opened s h = absurd (cc)

  check_complete :
      (r room depth : ℕ) (v : Value Float) (opened : List ℕ)
      → r ≤ room
      → depth + room ≡ suc max_depth
      → Above r opened
      → admitted v r ≡ true
      → check v room depth opened ≡ ok opened
  unfolding admitted walk
  check_complete zero room depth (ref a) opened h k up good = absurd (cc)
  check_complete (suc r) zero depth (ref a) opened h k up good = absurd (omega arith)
  check_complete (suc r) (suc room) depth (ref a) opened h k up good =
      elim (Bool-cases (admitted (ref a) r)) [
        | inl shallower ↦
            check_complete r (suc room) depth (ref a) opened (omega arith) k
              (Above-mono r (suc r) opened (omega arith) up) shallower
        | inr tight ↦
            check_container a room depth r opened k (Above-is_open a (suc r) opened good up)
              (λ v.
                check_complete r room (depth + 1) v (a ∷ opened) (omega arith) (omega arith)
                  (tight, Above-mono r (suc r) opened (omega arith) up))
              (profile_children fl (heap a)) refl good
      ]
  check_complete r room depth null opened h k up good =
      scalar_pass (is_admissible_scalar fl null) opened good
  check_complete r room depth (bool b) opened h k up good =
      scalar_pass (is_admissible_scalar fl (bool b)) opened good
  check_complete r room depth (int n) opened h k up good =
      scalar_pass (is_admissible_scalar fl (int n)) opened good
  check_complete r room depth (float x) opened h k up good =
      scalar_pass (is_admissible_scalar fl (float x)) opened good
  check_complete r room depth (str t) opened h k up good =
      scalar_pass (is_admissible_scalar fl (str t)) opened good
  check_complete r room depth foreign opened h k up good =
      scalar_pass (is_admissible_scalar fl foreign) opened good

  walk_all_sound :
      (f : Value Float → List ℕ → Result ProfileError (List ℕ)) (p : Value Float → Bool)
      → ((v : Value Float) (s s' : List ℕ) → f v s ≡ ok s' → p v ≡ true)
      → (vs : List (Value Float)) (s s' : List ℕ) → walk_below f vs s ≡ ok s'
      → all_of p vs ≡ true
  unfolding walk_all
  walk_all_sound f p each [] s s' h = refl
  walk_all_sound f p each (v ∷ vs) s s' h =
      let (t, first, rest) = >>=-eq-ok (f v s) (walk_below f vs) h in
      ground (arith, each v s t first, walk_all_sound f p each vs t s' rest)

  check_sound :
      (room depth : ℕ) (v : Value Float) (opened s : List ℕ)
      → check v room depth opened ≡ ok s
      → admitted v room ≡ true
  unfolding admitted walk
  check_sound zero depth (ref a) opened s h = absurd (cc)
  check_sound (suc room) depth (ref a) opened s h =
      let (s1, entered, h1) = >>=-eq-ok (open_profile_container fl a depth opened) _ h in
      let (vs, listed, h2) = >>=-eq-ok (profile_children fl (heap a)) _ h1 in
      let (s2, walked, h3) = >>=-eq-ok (walk_below (λ v. check v room (depth + 1)) vs s1) _ h2 in
      rw listed (
        walk_all_sound (λ v. check v room (depth + 1)) (λ v. admitted v room)
          (λ v t t'. check_sound room (depth + 1) v t t') vs s1 s2 walked)
  check_sound room depth null opened s h = scalar_passed (is_admissible_scalar fl null) opened s h
  check_sound room depth (bool b) opened s h =
      scalar_passed (is_admissible_scalar fl (bool b)) opened s h
  check_sound room depth (int n) opened s h =
      scalar_passed (is_admissible_scalar fl (int n)) opened s h
  check_sound room depth (float x) opened s h =
      scalar_passed (is_admissible_scalar fl (float x)) opened s h
  check_sound room depth (str t) opened s h =
      scalar_passed (is_admissible_scalar fl (str t)) opened s h
  check_sound room depth foreign opened s h =
      scalar_passed (is_admissible_scalar fl foreign) opened s h

  -- `_prevalidate` ends on every object graph, cyclic ones included, and raises nothing exactly for
  -- the values that nest at most `MAX_DEPTH` containers deep and hold only admissible scalars and
  -- plain string keys.
  pub prevalidate-admitted :
      (v : Value Float)
      → (n : ℕ) × (r : Result ProfileError (List ℕ)) × ((k : ℕ)
          → prevalidate fl heap (n + k) v ≡ some r)
        × ((is_ok r ≡ true) ↔ (admitted v max_depth ≡ true))
  prevalidate-admitted v =
      let (n, ends) = prevalidate-check v in
      (
        n,
        check v max_depth 1 [],
        ends,
        (
          λ good. accepted (check v max_depth 1 []) refl good,
          λ good. rw (check_complete max_depth max_depth 1 v [] (omega arith) refl tt good) refl,
        ),
      )
    where
      accepted :
          (r : Result ProfileError (List ℕ))
          → check v max_depth 1 [] ≡ r
          → is_ok r ≡ true
          → admitted v max_depth ≡ true
      accepted (ok s) e good = check_sound max_depth 1 v [] s e
      accepted (err x) e good = absurd (cc)
