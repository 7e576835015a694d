-- ===== src/Python/Result.antt =====
-- A function that may raise returns a `Result`; `E` is the exceptions of its module.
use traigent_schema.Prelude.{◌≡◌, refl, Bool, true, false, List, [], ◌∷◌}

pub data Result {ℓ κ} (E : Type κ) (A : Type ℓ) : Type (ℓ ⊔ κ) where
  err : E → Result E A
  ok : A → Result E A

module _ {κ} {E : Type κ} where
  -- the statements after one that raised are skipped
  infixl 5 ◌>>=◌
  abbrev pub ◌>>=◌ {ℓ ℓ'} : {A : Type ℓ} {B : Type ℓ'} → Result E A → (A → Result E B) → Result E B
  (err raised) >>= after = err raised
  (ok value) >>= after = after value

  -- `if not test: raise e`
  abbrev pub guard : Bool → E → Result E (Unit {0})
  guard false raised = err raised
  guard true raised = ok tt

  infixl 5 ◌>>◌
  abbrev pub ◌>>◌ {ℓ} : {B : Type ℓ} → Result E (Unit {0}) → Result E B → Result E B
  first >> after = first >>= λ unit. after

  abbrev pub is_ok {ℓ} : {A : Type ℓ} → Result E A → Bool
  is_ok (err raised) = false
  is_ok (ok value) = true

  pub ok_inj {ℓ} : {A : Type ℓ} {x y : A} → ◌≡◌ {A = Result E A} (ok x) (ok y) → x ≡ y
  ok_inj e = cc

  -- what returns after a statement has that statement return
  pub >>=-eq-ok {ℓ ℓ'} :
      {A : Type ℓ} {B : Type ℓ'} (first : Result E A) (after : A → Result E B) {y : B}
      → (first >>= after) ≡ ok y
      → (x : A) × (first ≡ ok x) × (after x ≡ ok y)
  >>=-eq-ok (err raised) after e = absurd (cc)
  >>=-eq-ok (ok value) after e = (value, refl, e)

  -- a test that is followed by something that returns has passed
  pub guard->>-ok {ℓ} :
      {B : Type ℓ} (test : Bool) (raised : E) (rest : Result E B) {y : B}
      → (guard test raised >> rest) ≡ ok y
      → (test ≡ true) × (rest ≡ ok y)
  guard->>-ok true raised rest e = (refl, e)
  guard->>-ok false raised rest e = absurd (cc)

  -- a list comprehension whose element expression may raise
  unfoldable pub traverse {ℓ ℓ'} :
      {A : Type ℓ} {B : Type ℓ'} → (A → Result E B) → List A → Result E (List B)
  traverse f [] = ok []
  traverse f (x ∷ xs) = do y ← f x; ys ← traverse f xs; ok (y ∷ ys)
