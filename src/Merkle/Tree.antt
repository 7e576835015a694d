-- ===== src/Merkle/Tree.antt =====
-- `_mth` and `_path` by their two equations, and the audit path of a leaf.
use mathlib.Core.Logic.{dif_pos, dif_neg}
use mathlib.Core.WellFounded.{Acc, Acc-prop, induction}
use native.Mathlib.Bridge.{le_prop}
use traigent_schema.Prelude.{
  ℕ, zero, suc, ◌-◌, ◌≤◌, ◌<◌, ◌≡◌, sym, ap, ◌∙◌, some, List, [], ◌∷◌, ◌++◌, arith, dec_lt, ltb,
  if◌then◌else◌, length, take, drop, get_elem?, length-take, length-drop, get_elem?-take,
  get_elem?-drop,
}
use traigent_schema.Prelude.Order.{Shorter, Shorter_wf}
use traigent_schema.Merkle.{
  Bytes, Shorter-take, Shorter-drop, node_hash, mth_acc, mth, path_acc, path, fold_audit_path,
}
use traigent_schema.Merkle.Split.{split, split-lt}
use traigent_schema.Merkle.Shape.{
  from_left, from_right, replay, turns, turns_leaf, turns_left, turns_right, replay_snoc,
}
use traigent_schema.Merkle.Fold.{fold_audit_path-replay}

module _ (sha256 : Bytes → Bytes) where
  mth_acc-mth : (l : List Bytes) (w : Acc Shorter l) → mth_acc sha256 l w ≡ mth sha256 l
  unfolding mth
  mth_acc-mth l w = ap (mth_acc sha256 l) (Acc-prop w (Shorter_wf.apply l))

  mth_acc_step :
      (l : List Bytes) (w : Acc Shorter l)
      → 1 < length l
      → mth_acc sha256 l w
        ≡ node_hash sha256
            (mth sha256 (take (split (length l)) l))
            (mth sha256 (drop (split (length l)) l))
  unfolding mth_acc
  mth_acc_step l (Acc.intro _ below) h =
      dif_pos (dec_lt 1 (length l)) le_prop h _ _ ∙ simp mth_acc-mth

  pub mth_step :
      (l : List Bytes)
      → 1 < length l
      → mth sha256 l
        ≡ node_hash sha256
            (mth sha256 (take (split (length l)) l))
            (mth sha256 (drop (split (length l)) l))
  unfolding mth
  mth_step l h = mth_acc_step l (Shorter_wf.apply l) h

  mth_acc_one : (h : Bytes) (w : Acc Shorter (h ∷ [])) → mth_acc sha256 (h ∷ []) w ≡ h
  unfolding mth_acc
  mth_acc_one h (Acc.intro _ below) = dif_neg (dec_lt 1 1) (omega arith) _ _

  pub mth_one : (h : Bytes) → mth sha256 (h ∷ []) ≡ h
  unfolding mth
  mth_one h = mth_acc_one h (Shorter_wf.apply (h ∷ []))

  mth_acc_none : (w : Acc Shorter []) → mth_acc sha256 [] w ≡ sha256 []
  unfolding mth_acc
  mth_acc_none (Acc.intro _ below) = dif_neg (dec_lt 1 0) (omega arith) _ _

  pub mth_none : mth sha256 [] ≡ sha256 []
  unfolding mth
  mth_none = mth_acc_none (Shorter_wf.apply [])

  path_acc-path :
      (m : ℕ) (l : List Bytes) (w : Acc Shorter l) → path_acc sha256 m l w ≡ path sha256 m l
  unfolding path
  path_acc-path m l w = ap (path_acc sha256 m l) (Acc-prop w (Shorter_wf.apply l))

  path_acc_step :
      (m : ℕ) (l : List Bytes) (w : Acc Shorter l)
      → 1 < length l
      → path_acc sha256 m l w ≡ (
          let k = split (length l) in
          if ltb m k
          then path sha256 m (take k l) ++ mth sha256 (drop k l) ∷ []
          else path sha256 (m - k) (drop k l) ++ mth sha256 (take k l) ∷ [])
  unfolding path_acc
  path_acc_step m l (Acc.intro _ below) h =
      dif_pos (dec_lt 1 (length l)) le_prop h _ _ ∙ simp path_acc-path

  pub path_left :
      (m : ℕ) (l : List Bytes)
      → 1 < length l
      → m < split (length l)
      → path sha256 m l
        ≡ path sha256 m (take (split (length l)) l) ++ mth sha256 (drop (split (length l)) l) ∷ []
  path_left m l h k =
      ground (
        arith,
        sym (path_acc-path m l (Shorter_wf.apply l)),
        path_acc_step m l (Shorter_wf.apply l),
      )

  pub path_right :
      (m : ℕ) (l : List Bytes)
      → 1 < length l
      → split (length l) ≤ m
      → path sha256 m l
        ≡ path sha256 (m - split (length l)) (drop (split (length l)) l)
          ++ mth sha256 (take (split (length l)) l) ∷ []
  path_right m l h k =
      ground (
        arith,
        sym (path_acc-path m l (Shorter_wf.apply l)),
        path_acc_step m l (Shorter_wf.apply l),
      )

  path_acc_short :
      (m : ℕ) (l : List Bytes) (w : Acc Shorter l) → length l ≤ 1 → path_acc sha256 m l w ≡ []
  unfolding path_acc
  path_acc_short m l (Acc.intro _ below) h = dif_neg (dec_lt 1 (length l)) (omega arith) _ _

  pub path_short : (m : ℕ) (l : List Bytes) → length l ≤ 1 → path sha256 m l ≡ []
  unfolding path
  path_short m l h = path_acc_short m l (Shorter_wf.apply l) h

  abbrev IsProved : List Bytes → Type 0
  IsProved l =
      (m : ℕ) (h : Bytes)
      → get_elem? l m ≡ some h
      → replay sha256 (turns m (length l)) h (path sha256 m l) ≡ some (mth sha256 l)

  IsProved-short : (l : List Bytes) → length l ≤ 1 → IsProved l
  IsProved-short [] short m h e = absurd (cc)
  IsProved-short (x ∷ []) short zero h e =
      rw (turns_leaf 0 1 (omega arith), path_short 0 (x ∷ []) (omega arith), mth_one x)
        (unfold replay in sym e)
  IsProved-short (x ∷ []) short (suc m) h e = absurd (cc)
  IsProved-short (x ∷ y ∷ l) short m h e = absurd (omega arith)

  get_elem?-lt : (l : List Bytes) (m : ℕ) (h : Bytes) → get_elem? l m ≡ some h → m < length l
  get_elem?-lt [] m h e = absurd (cc)
  get_elem?-lt (x ∷ l) zero h e = omega arith
  get_elem?-lt (x ∷ l) (suc m) h e = omega (arith, get_elem?-lt l m h e)

  module _ (l : List Bytes) (long : 1 < length l) where
    pub length-left : length (take (split (length l)) l) ≡ split (length l)
    length-left = omega (arith, length-take (split (length l)) l, split-lt (length l) long)

    pub length-right : length (drop (split (length l)) l) ≡ length l - split (length l)
    length-right = length-drop (split (length l)) l

  IsProved-step :
      (l : List Bytes)
      → 1 < length l
      → IsProved (take (split (length l)) l)
      → IsProved (drop (split (length l)) l)
      → IsProved l
  IsProved-step l long left right m h e =
      let k : ℕ = split (length l) in
      elim (dec_lt m k) [
        | yes p ↦
            rw (turns_left m (length l) long p, path_left m l long p, mth_step l long)
              (replay_snoc sha256 from_right (turns m k) h (mth sha256 (drop k l))
                (path sha256 m (take k l))
                (rw (length-left l long) at (left m h (get_elem?-take k m l p ∙ e))))
        | no p ↦
            let at_right : get_elem? (drop k l) (m - k) ≡ some h =
              get_elem?-drop k (m - k) l ∙ ap (get_elem? l) (omega arith) ∙ e in
            rw
              (
                turns_right m (length l) long (omega arith),
                path_right m l long (omega arith),
                mth_step l long,
              )
              (replay_snoc sha256 from_left (turns (m - k) (length l - k)) h (mth sha256 (take k l))
                (path sha256 (m - k) (drop k l))
                (rw (length-right l long) at (right (m - k) h at_right)))
      ]

  replay-path : (l : List Bytes) → IsProved l
  replay-path l = induction Shorter_wf {C = IsProved} l λ s ih. elim (dec_lt 1 (length s)) [
    | yes long ↦ IsProved-step s long (ih _ (Shorter-take s long)) (ih _ (Shorter-drop s long))
    | no short ↦ IsProved-short s (omega arith)
  ]

  -- The audit path that `_path` builds for leaf `m` makes `_fold_audit_path` return the root that
  -- `_mth` computes, for every tree and every leaf of it.
  pub fold_audit_path-path :
      (l : List Bytes) (m : ℕ) (h : Bytes)
      → get_elem? l m ≡ some h
      → fold_audit_path sha256 h (path sha256 m l) m (length l - 1) ≡ some (mth sha256 l)
  fold_audit_path-path l m h e =
      fold_audit_path-replay sha256 m (length l) (get_elem?-lt l m h e) h (path sha256 m l)
      ∙ replay-path l m h e
