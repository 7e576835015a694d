-- ===== src/Merkle/Nodes.antt =====
-- Properties of every digest, carried to the nodes of the tree and of an audit path.
use mathlib.Core.WellFounded.{induction}
use traigent_schema.Prelude.{
  ℕ, ◌-◌, ◌<◌, List, [], ◌∷◌, ◌++◌, arith, dec_lt, length, take, drop, All, All-take, All-drop,
}
use traigent_schema.Prelude.Order.{Shorter_wf}
use traigent_schema.Merkle.{Bytes, Shorter-take, Shorter-drop, node_hash, mth, path}
use traigent_schema.Merkle.Split.{split}
use traigent_schema.Merkle.Tree.{mth_step, mth_one, mth_none, path_left, path_right, path_short}

module _ (sha256 : Bytes → Bytes) (P : Bytes → Type 0) (digest : (x : Bytes) → P (sha256 x)) where
  node_hash-All : (a b : Bytes) → P (node_hash sha256 a b)
  unfolding node_hash
  node_hash-All a b = digest (1 ∷ a ++ b)

  pub mth-All : (l : List Bytes) → All P l → P (mth sha256 l)
  mth-All [] w = rw (mth_none sha256) (digest [])
  mth-All (x ∷ []) w = rw (mth_one sha256 x) w.0
  mth-All (x ∷ y ∷ l) w = rw (mth_step sha256 (x ∷ y ∷ l) (omega arith)) (node_hash-All _ _)

  All-snoc : (l : List Bytes) (x : Bytes) → All P l → P x → All P (l ++ x ∷ [])
  All-snoc [] x w p = (p, tt)
  All-snoc (y ∷ l) x w p = (w.0, All-snoc l x w.1 p)

  abbrev PathHas : List Bytes → Type 0
  PathHas l = (m : ℕ) → All P l → All P (path sha256 m l)

  PathHas-step :
      (l : List Bytes)
      → 1 < length l
      → PathHas (take (split (length l)) l)
      → PathHas (drop (split (length l)) l)
      → PathHas l
  PathHas-step l long left right m w =
      let k = split (length l) in
      elim (dec_lt m k) [
        | yes p ↦
            rw (path_left sha256 m l long p)
              (All-snoc _ _ (left m (All-take P k l w)) (mth-All _ (All-drop P k l w)))
        | no p ↦
            rw (path_right sha256 m l long (omega arith))
              (All-snoc _ _ (right (m - k) (All-drop P k l w)) (mth-All _ (All-take P k l w)))
      ]

  path-PathHas : (l : List Bytes) → PathHas l
  path-PathHas l = induction Shorter_wf {C = PathHas} l λ s ih. elim (dec_lt 1 (length s)) [
    | yes long ↦ PathHas-step s long (ih _ (Shorter-take s long)) (ih _ (Shorter-drop s long))
    | no short ↦ λ m w. rw (path_short sha256 m s (omega arith)) tt
  ]

  pub path-All : (m : ℕ) (l : List Bytes) → All P l → All P (path sha256 m l)
  path-All m l w = path-PathHas l m w
