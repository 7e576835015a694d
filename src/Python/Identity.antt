-- ===== src/Python/Identity.antt =====
-- The set of the containers that are open on the path to the current value.
use traigent_schema.Prelude.{
  ℕ, ◌≡◌, refl, Bool, true, false, List, [], ◌∷◌, arith, ◌==◌, if◌then◌else◌,
}

-- `identity in open_ids` and `open_ids.discard(identity)`
unfoldable pub is_open : ℕ → List ℕ → Bool
is_open i [] = false
is_open i (j ∷ js) = if i == j then true else is_open i js

unfoldable pub discard : ℕ → List ℕ → List ℕ
discard i [] = []
discard i (j ∷ js) = let rest = discard i js in if i == j then rest else j ∷ rest

discard_self : (a : ℕ) (opened : List ℕ) → is_open a opened ≡ false → discard a opened ≡ opened
unfolding is_open discard
discard_self a [] h = refl
discard_self a (j ∷ js) h = ground (arith, discard_self a js)

pub discard-cons :
    (a : ℕ) (opened : List ℕ) → is_open a opened ≡ false → discard a (a ∷ opened) ≡ opened
unfolding discard
discard-cons a opened h = ground (arith, discard_self a opened h)
