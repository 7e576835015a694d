-- ===== src/Invariants/Holds.antt =====
-- What the three relations assert of a payload, and their checks.
use traigent_schema.Prelude.{
  ℕ, ◌≡◌, ◌≢◌, refl, ap, ◌∙◌, Bool, true, false, not, Option, none, some, List, ◌⊎◌, inl, inr,
}
use traigent_schema.Python.Result.{Result, ok, err}
use traigent_schema.Python.Text.{Text}
use traigent_schema.Python.Object.{
  Floats, Value, null, bool, int, float, str, ref, foreign, Key, Container, list, dict, Heap,
}
use traigent_schema.Invariants.Pointer.{object_member, resolve_pointer}
use traigent_schema.Invariants.Compare.{exact_structural_equal}
use traigent_schema.Invariants.{
  Run, ◌>>=◌, pure, Relation, present_and_equal, selector_lookup_equals_literal,
  condition_implies_unequal, both_equal, entry_equal, in_mapping, selected, with_selector,
  both_unequal, under_condition, check,
}

pub bind-eq-ok {ℓ κ} :
    {A : Type ℓ} {B : Type κ} (m : Run A) (f : A → Run B) {b : B}
    → (m >>= f) ≡ some (ok b)
    → (a : A) × (m ≡ some (ok a)) × (f a ≡ some (ok b))
bind-eq-ok none f h = absurd (cc)
bind-eq-ok (some (err x)) f h = absurd (cc)
bind-eq-ok (some (ok a)) f h = (a, refl, h)

module _ (fl : Floats) (heap : Heap fl.Float) (fuel : ℕ) (payload : Value fl.Float) where
  open fl use {Float}

  -- the pointer leads to the value
  abbrev pub Leads : Text → Value Float → Type 0
  Leads pointer v = resolve_pointer heap payload pointer ≡ ok (some v)

  abbrev pub container_of : Value Float → Option (Container Float)
  container_of (ref a) = some (heap a)
  container_of _ = none

  -- what a relation asserts of the payload
  abbrev pub Holds : Relation Float → Type 0
  Holds (present_and_equal left_pointer right_pointer) =
      (v : Value Float) × (w : Value Float) × Leads left_pointer v
      × Leads right_pointer w
      × (exact_structural_equal fl heap fuel v w ≡ pure true)
  Holds (selector_lookup_equals_literal selector_pointer map_pointer literal) =
      (selector : Text) × (items : List (Key × Value Float)) × (m : Value Float) × (v : Value Float)
      × Leads selector_pointer (str selector)
      × Leads map_pointer m
      × (container_of m ≡ some (dict items))
      × (object_member items selector ≡ some v)
      × (exact_structural_equal fl heap fuel v literal ≡ pure true)
  Holds (condition_implies_unequal condition_pointer left_pointer right_pointer) =
      (o : Option (Value Float)) × (resolve_pointer heap payload condition_pointer ≡ ok o)
      × ((o ≢ some (bool true))
          ⊎ ((v : Value Float) × (w : Value Float) × Leads left_pointer v
              × Leads right_pointer w
              × (exact_structural_equal fl heap fuel v w ≡ pure false)))

  both_equal-true :
      (o p : Option (Value Float))
      → both_equal fl heap fuel o p ≡ pure true
      → (v : Value Float) × (w : Value Float) × (o ≡ some v)
        × (p ≡ some w)
        × (exact_structural_equal fl heap fuel v w ≡ pure true)
  both_equal-true none p h = absurd (cc)
  both_equal-true (some v) none h = absurd (cc)
  both_equal-true (some v) (some w) h = (v, w, refl, refl, h)

  negated-true : (b : Bool) → pure (not b) ≡ pure true → b ≡ false
  negated-true true h = absurd (cc)
  negated-true false h = refl

  both_unequal-true :
      (o p : Option (Value Float))
      → both_unequal fl heap fuel o p ≡ pure true
      → (v : Value Float) × (w : Value Float) × (o ≡ some v)
        × (p ≡ some w)
        × (exact_structural_equal fl heap fuel v w ≡ pure false)
  both_unequal-true none p h = absurd (cc)
  both_unequal-true (some v) none h = absurd (cc)
  both_unequal-true (some v) (some w) h =
      let (b, e, n) = bind-eq-ok (exact_structural_equal fl heap fuel v w) _ h in
      (v, w, refl, refl, e ∙ ap pure (negated-true b n))

  read :
      (r : Result _ (Option (Value Float))) (o : Option (Value Float)) → some r ≡ pure o → r ≡ ok o
  read r o e = cc

  check_present :
      (l r : Text)
      → check fl heap fuel payload (present_and_equal l r) ≡ pure true
      → Holds (present_and_equal l r)
  unfolding check
  check_present l r h =
      let (o, ho, h1) = bind-eq-ok (some (resolve_pointer heap payload l)) _ h in
      let (p, hp, h2) = bind-eq-ok (some (resolve_pointer heap payload r)) _ h1 in
      let (v, w, ov, pw, same) = both_equal-true o p h2 in
      (v, w, read _ _ ho ∙ ap ok ov, read _ _ hp ∙ ap ok pw, same)

  entry_equal-true :
      (o : Option (Value Float)) (literal : Value Float)
      → entry_equal fl heap fuel o literal ≡ pure true
      → (v : Value Float) × (o ≡ some v)
        × (exact_structural_equal fl heap fuel v literal ≡ pure true)
  entry_equal-true none literal h = absurd (cc)
  entry_equal-true (some v) literal h = (v, refl, h)

  in_mapping-true :
      (c : Container Float) (selector : Text) (literal : Value Float)
      → in_mapping fl heap fuel c selector literal ≡ pure true
      → (items : List (Key × Value Float)) × (v : Value Float) × (c ≡ dict items)
        × (object_member items selector ≡ some v)
        × (exact_structural_equal fl heap fuel v literal ≡ pure true)
  in_mapping-true (list vs) selector literal h = absurd (cc)
  in_mapping-true (dict items) selector literal h =
      let (v, at, same) = entry_equal-true (object_member items selector) literal h in
      (items, v, refl, at, same)

  selected-true :
      (m : Option (Value Float)) (selector : Text) (literal : Value Float)
      → selected fl heap fuel m selector literal ≡ pure true
      → (items : List (Key × Value Float)) × (v : Value Float) × (w : Value Float) × (m ≡ some w)
        × (container_of w ≡ some (dict items))
        × (object_member items selector ≡ some v)
        × (exact_structural_equal fl heap fuel v literal ≡ pure true)
  selected-true (some (ref a)) selector literal h =
      let (items, v, c, at, same) = in_mapping-true (heap a) selector literal h in
      (items, v, ref a, refl, ap some c, at, same)
  selected-true none selector literal h = absurd (cc)
  selected-true (some null) selector literal h = absurd (cc)
  selected-true (some (bool b)) selector literal h = absurd (cc)
  selected-true (some (int n)) selector literal h = absurd (cc)
  selected-true (some (float x)) selector literal h = absurd (cc)
  selected-true (some (str s)) selector literal h = absurd (cc)
  selected-true (some foreign) selector literal h = absurd (cc)

  with_selector-true :
      (o : Option (Value Float)) (mapping : Run (Option (Value Float))) (literal : Value Float)
      → with_selector fl heap fuel o mapping literal ≡ pure true
      → (selector : Text) × (m : Option (Value Float)) × (o ≡ some (str selector))
        × (mapping ≡ pure m)
        × (selected fl heap fuel m selector literal ≡ pure true)
  with_selector-true (some (str selector)) mapping literal h =
      let (m, hm, h1) = bind-eq-ok mapping _ h in (selector, m, refl, hm, h1)
  with_selector-true none mapping literal h = absurd (cc)
  with_selector-true (some null) mapping literal h = absurd (cc)
  with_selector-true (some (bool b)) mapping literal h = absurd (cc)
  with_selector-true (some (int n)) mapping literal h = absurd (cc)
  with_selector-true (some (float x)) mapping literal h = absurd (cc)
  with_selector-true (some (ref a)) mapping literal h = absurd (cc)
  with_selector-true (some foreign) mapping literal h = absurd (cc)

  check_lookup :
      (s m : Text) (literal : Value Float)
      → check fl heap fuel payload (selector_lookup_equals_literal s m literal) ≡ pure true
      → Holds (selector_lookup_equals_literal s m literal)
  unfolding check
  check_lookup s m literal h =
      let (o, ho, h1) = bind-eq-ok (some (resolve_pointer heap payload s)) _ h in
      let (selector, p, is_text, hp, h2) = with_selector-true o _ literal h1 in
      let (items, v, w, is_map, held, at, same) = selected-true p selector literal h2 in
      (
        selector,
        items,
        w,
        v,
        read _ _ ho ∙ ap ok is_text,
        read _ _ hp ∙ ap ok is_map,
        held,
        at,
        same,
      )

  asserted-true :
      (o : Option (Value Float)) (asserted : Run Bool)
      → under_condition fl heap fuel o asserted ≡ pure true
      → (o ≢ some (bool true)) ⊎ (asserted ≡ pure true)
  asserted-true (some (bool true)) asserted h = inr h
  asserted-true none asserted h = inl (λ e. cc)
  asserted-true (some (bool false)) asserted h = inl (λ e. cc)
  asserted-true (some null) asserted h = inl (λ e. cc)
  asserted-true (some (int n)) asserted h = inl (λ e. cc)
  asserted-true (some (float x)) asserted h = inl (λ e. cc)
  asserted-true (some (str s)) asserted h = inl (λ e. cc)
  asserted-true (some (ref a)) asserted h = inl (λ e. cc)
  asserted-true (some foreign) asserted h = inl (λ e. cc)

  check_unequal :
      (c l r : Text)
      → check fl heap fuel payload (condition_implies_unequal c l r) ≡ pure true
      → Holds (condition_implies_unequal c l r)
  unfolding check
  check_unequal c l r h =
      let (o, ho, h1) = bind-eq-ok (some (resolve_pointer heap payload c)) _ h in
      let decide = asserted-true o _ h1 in
      (
        o,
        read _ _ ho,
        elim decide [
          | inl other ↦ inl other
          | inr h2 ↦
              let (p, hp, h3) = bind-eq-ok (some (resolve_pointer heap payload l)) _ h2 in
              let (q, hq, h4) = bind-eq-ok (some (resolve_pointer heap payload r)) _ h3 in
              let (v, w, pv, qw, apart) = both_unequal-true p q h4 in
              inr (v, w, read _ _ hp ∙ ap ok pv, read _ _ hq ∙ ap ok qw, apart)
        ],
      )

  pub check-Holds :
      (relation : Relation Float) → check fl heap fuel payload relation ≡ pure true → Holds relation
  check-Holds (present_and_equal l r) h = check_present l r h
  check-Holds (selector_lookup_equals_literal s m literal) h = check_lookup s m literal h
  check-Holds (condition_implies_unequal c l r) h = check_unequal c l r h
