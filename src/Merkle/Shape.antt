-- ===== src/Merkle/Shape.antt =====
-- The shape of an audit path, independent of the two loops: from the leaf upwards, whether the
-- node of each level is combined from the left or from the right. `replay` recomputes the root along it.
use traigent_schema.Prelude.{
  ℕ, zero, suc, ◌-◌, ◌≤◌, ◌<◌, ◌≡◌, refl, ap, Option, none, some, List, [], ◌∷◌, ◌++◌, arith, ltb,
  if◌then◌else◌,
}
use traigent_schema.Merkle.{Bytes, node_hash}
use traigent_schema.Merkle.Split.{split, split-pos, split-lt}

pub data Side : Type 0 where
  from_right from_left : Side

-- one node of the path
abbrev pub join : (sha256 : Bytes → Bytes) → Side → Bytes → Bytes → Bytes
join sha256 from_right r p = node_hash sha256 r p
join sha256 from_left r p = node_hash sha256 p r

unfoldable pub replay : (sha256 : Bytes → Bytes) → List Side → Bytes → List Bytes → Option Bytes
replay sha256 [] r [] = some r
replay sha256 [] r (p ∷ path) = none
replay sha256 (t ∷ ts) r [] = none
replay sha256 (t ∷ ts) r (p ∷ path) = replay sha256 ts (join sha256 t r p) path

-- the sides of leaf `m` in a tree of `n` leaves; `fuel` bounds the height
turns_fuel : ℕ → ℕ → ℕ → List Side
turns_fuel zero m n = []
turns_fuel (suc f) m n =
    let left = turns_fuel f m (split n) ++ from_right ∷ [] in
    let right = turns_fuel f (m - split n) (n - split n) ++ from_left ∷ [] in
    if ltb 1 n then (if ltb m (split n) then left else right) else []

unfoldable pub turns : ℕ → ℕ → List Side
unfolding turns_fuel
turns m n = turns_fuel n m n

turns_fuel_irrel : (f g m n : ℕ) → n ≤ f → n ≤ g → turns_fuel f m n ≡ turns_fuel g m n
unfolding turns_fuel
turns_fuel_irrel zero zero m n p q = refl
turns_fuel_irrel zero (suc g) m n p q = ground arith
turns_fuel_irrel (suc f) zero m n p q = ground arith
turns_fuel_irrel (suc f) (suc g) m n p q = ground (
  arith,
  split-lt n,
  split-pos n,
  turns_fuel_irrel f g m (split n),
  turns_fuel_irrel f g (m - split n) (n - split n),
)

pub turns_leaf : (m n : ℕ) → n ≤ 1 → turns m n ≡ []
unfolding turns
turns_leaf m zero h = refl
turns_leaf m (suc n) h = ground arith

pub turns_left : (m n : ℕ) → 1 < n → m < split n → turns m n ≡ turns m (split n) ++ from_right ∷ []
unfolding turns
turns_left m zero h k = absurd (omega arith)
turns_left m (suc n) h k =
    ground (arith, split-lt (suc n), turns_fuel_irrel n (split (suc n)) m (split (suc n)))

pub turns_right :
    (m n : ℕ)
    → 1 < n
    → split n ≤ m
    → turns m n ≡ turns (m - split n) (n - split n) ++ from_left ∷ []
unfolding turns
turns_right m zero h k = absurd (omega arith)
turns_right m (suc n) h k = ground (
  arith,
  split-pos (suc n),
  turns_fuel_irrel n (suc n - split (suc n)) (m - split (suc n)) (suc n - split (suc n)),
)

-- A path for one more level is a path with one more node at its end.
pub replay_snoc :
    (sha256 : Bytes → Bytes) (t : Side) (ts : List Side) (r p : Bytes) (path : List Bytes)
    {R : Bytes}
    → replay sha256 ts r path ≡ some R
    → replay sha256 (ts ++ t ∷ []) r (path ++ p ∷ []) ≡ some (join sha256 t R p)
unfolding replay
replay_snoc sha256 t [] r p [] h = ground arith
replay_snoc sha256 t [] r p (q ∷ path) h = ground arith
replay_snoc sha256 t (s ∷ ts) r p [] h = ground arith
replay_snoc sha256 t (s ∷ ts) r p (q ∷ path) h =
    replay_snoc sha256 t ts (join sha256 s r q) p path h

pub replay_unsnoc :
    (sha256 : Bytes → Bytes) (t : Side) (ts : List Side) (r : Bytes) (path : List Bytes) {R : Bytes}
    → replay sha256 (ts ++ t ∷ []) r path ≡ some R
    → (path' : List Bytes) × (p : Bytes) × (R' : Bytes) × (path ≡ path' ++ p ∷ [])
      × (replay sha256 ts r path' ≡ some R')
      × (join sha256 t R' p ≡ R)
unfolding replay
replay_unsnoc sha256 t [] r [] h = ground arith
replay_unsnoc sha256 t [] r (p ∷ []) h = ([], p, r, refl, refl, ground arith)
replay_unsnoc sha256 t [] r (p ∷ q ∷ path) h = ground arith
replay_unsnoc sha256 t (s ∷ ts) r [] h = ground arith
replay_unsnoc sha256 t (s ∷ ts) r (q ∷ path) h =
    let (path', p, R', e, h', j) = replay_unsnoc sha256 t ts (join sha256 s r q) path h in
    (q ∷ path', p, R', ap (◌∷◌ q) e, h', j)
