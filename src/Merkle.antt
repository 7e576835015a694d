-- ===== src/Merkle.antt =====
-- The RFC 9162 Merkle tree of traigent_schema/example_identity.py: `_leaf_hash`, `_node_hash`,
-- `_split`, `_mth`, `_path`, `_skip_right_edge_levels` and `_fold_audit_path`.
-- SHA-256 is hashlib's, a parameter of every definition.
pub mod Split
pub mod Shape
pub mod Fold
pub mod Tree
pub mod Sound
pub mod Nodes
use mathlib.Core.WellFounded.{Acc}
use traigent_schema.Prelude.{
  ℕ, zero, suc, ◌+◌, ◌-◌, ◌*◌, ◌/◌, ◌%◌, ◌<◌, ◌≡◌, Bool, true, false, ◌&&◌, ◌||◌, not, Option, none,
  some, List, [], ◌∷◌, ◌++◌, arith, dec_lt, dite, ltb, ◌==◌, if◌then◌else◌, length, take, drop,
  length-take, length-drop,
}
use traigent_schema.Prelude.Order.{Shorter, Shorter_wf}
use Split.{split, split-lt, split-pos}

abbrev pub Bytes : Type 0
Bytes = List ℕ

module _ {ℓ} {A : Type ℓ} (l : List A) (long : 1 < length l) where
  pub Shorter-take : Shorter (take (split (length l)) l) l
  Shorter-take = omega (arith, length-take (split (length l)) l, split-lt (length l) long)

  pub Shorter-drop : Shorter (drop (split (length l)) l) l
  Shorter-drop = omega (arith, length-drop (split (length l)) l, split-pos (length l))

module _ (sha256 : Bytes → Bytes) where
  unfoldable pub leaf_hash : Bytes → Bytes
  leaf_hash leaf = sha256 (0 ∷ leaf)

  unfoldable pub node_hash : Bytes → Bytes → Bytes
  node_hash left right = sha256 (1 ∷ left ++ right)

  -- the two base cases of `_mth`: no leaf, one leaf
  abbrev small_root : List Bytes → Bytes
  small_root [] = sha256 []
  small_root (h ∷ _) = h

  pub mth_acc : (leaf_hashes : List Bytes) → Acc Shorter leaf_hashes → Bytes
  mth_acc l (Acc.intro _ below) =
      dite (dec_lt 1 (length l))
        (λ long.
          let k = split (length l) in
          node_hash (mth_acc (take k l) (below _ (Shorter-take l long)))
            (mth_acc (drop k l) (below _ (Shorter-drop l long))))
        (λ _. small_root l)

  unfoldable pub mth : List Bytes → Bytes
  unfolding mth_acc
  mth l = mth_acc l (Shorter_wf.apply l)

  -- `_path` runs only on the leaves of a multiset that holds the member, so never on none at all
  pub path_acc : (m : ℕ) (leaf_hashes : List Bytes) → Acc Shorter leaf_hashes → List Bytes
  path_acc m l (Acc.intro _ below) =
      dite (dec_lt 1 (length l))
        (λ long.
          let k = split (length l) in
          let left = path_acc m (take k l) (below _ (Shorter-take l long)) in
          let right = path_acc (m - k) (drop k l) (below _ (Shorter-drop l long)) in
          if ltb m k then left ++ mth (drop k l) ∷ [] else right ++ mth (take k l) ∷ [])
        (λ _. [])

  unfoldable pub path : ℕ → List Bytes → List Bytes
  unfolding path_acc
  path m l = path_acc m l (Shorter_wf.apply l)

-- `while not fn & 1 and fn != 0`, with fuel: each round halves `fn`
unfoldable pub skip_levels : ℕ → ℕ → ℕ → ℕ × ℕ
skip_levels zero fn sn = (fn, sn)
skip_levels (suc fuel) fn sn =
    let rest = skip_levels fuel (fn / 2) (sn / 2) in
    if (fn % 2 == 0) && not (fn == 0) then rest else (fn, sn)

unfoldable pub skip_right_edge_levels : ℕ → ℕ → ℕ × ℕ
unfolding skip_levels
skip_right_edge_levels fn sn = skip_levels fn fn sn

unfoldable pub fold_audit_path :
    (sha256 : Bytes → Bytes) → Bytes → List Bytes → ℕ → ℕ → Option Bytes
fold_audit_path sha256 r [] fn sn = if sn == 0 then some r else none
fold_audit_path sha256 r (p ∷ path) fn sn =
    let on_right = (fn % 2 == 1) || (fn == sn) in
    let r' = if on_right then node_hash sha256 p r else node_hash sha256 r p in
    let (fn', sn') =
      if on_right && not (fn % 2 == 1) then skip_right_edge_levels fn sn else (fn, sn) in
    let rest = fold_audit_path sha256 r' path (fn' / 2) (sn' / 2) in if sn == 0 then none else rest
