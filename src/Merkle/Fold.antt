-- ===== src/Merkle/Fold.antt =====
-- The bit loop of `_fold_audit_path` and the shape of the tree.
use traigent_schema.Prelude.{
  ℕ, zero, suc, ◌+◌, ◌-◌, ◌*◌, ◌/◌, ◌%◌, ◌≤◌, ◌<◌, ◌≡◌, refl, none, List, [], ◌∷◌, ◌++◌, arith,
  dec_lt, ◌∙◌, append_assoc, append-nil,
}
use traigent_schema.Merkle.{Bytes, node_hash, skip_levels, skip_right_edge_levels, fold_audit_path}
use traigent_schema.Merkle.Split.{
  split, scale, halve, scale-add, scale-pos, scale-double, scale-zero, scale_split, scale_lt_inv,
  split-lt, split-ge, split-scale, split-scale_double, halve-scale,
}
use traigent_schema.Merkle.Shape.{
  Side, from_left, from_right, replay, turns, turns_leaf, turns_left, turns_right,
}

skip_levels-scale :
    (fuel e b : ℕ)
    → b % 2 ≡ 1
    → scale e b ≤ fuel
    → skip_levels fuel (scale e b) (scale e b) ≡ (b, b)
unfolding skip_levels
skip_levels-scale zero e b odd h = absurd (omega (arith, scale-pos e b (omega arith)))
skip_levels-scale (suc f) zero b odd h = ground arith
skip_levels-scale (suc f) (suc e) b odd h =
    let half : 2 * scale e b / 2 ≡ scale e b = omega arith in
    let pos : 0 < scale e b = scale-pos e b (omega arith) in
    ground (arith, half, skip_levels-scale f e b odd (omega arith))

skip-scale : (e b : ℕ) → b % 2 ≡ 1 → skip_right_edge_levels (scale e b) (scale e b) ≡ (b, b)
unfolding skip_right_edge_levels
skip-scale e b odd = skip_levels-scale (scale e b) e b odd (omega arith)

module _ (sha256 : Bytes → Bytes) where
  fold_left :
      (r p : Bytes) (path : List Bytes) (fn sn : ℕ)
      → fn % 2 ≡ 0
      → fn < sn
      → fold_audit_path sha256 r (p ∷ path) fn sn
        ≡ fold_audit_path sha256 (node_hash sha256 r p) path (fn / 2) (sn / 2)
  unfolding fold_audit_path
  fold_left r p path fn sn h k = ground arith

  fold_odd :
      (r p : Bytes) (path : List Bytes) (fn sn : ℕ)
      → fn % 2 ≡ 1
      → 0 < sn
      → fold_audit_path sha256 r (p ∷ path) fn sn
        ≡ fold_audit_path sha256 (node_hash sha256 p r) path (fn / 2) (sn / 2)
  unfolding fold_audit_path
  fold_odd r p path fn sn h k = ground arith

  fold_edge :
      (r p : Bytes) (path : List Bytes) (e b : ℕ)
      → b % 2 ≡ 1
      → fold_audit_path sha256 r (p ∷ path) (scale e b) (scale e b)
        ≡ fold_audit_path sha256 (node_hash sha256 p r) path (b / 2) (b / 2)
  unfolding fold_audit_path
  fold_edge r p path zero b odd = ground arith
  fold_edge r p path (suc e) b odd =
      ground (arith, skip-scale (suc e) b odd, scale-pos e b (omega arith))

  fold_short : (r : Bytes) (fn sn : ℕ) → 0 < sn → fold_audit_path sha256 r [] fn sn ≡ none
  unfolding fold_audit_path
  fold_short r fn sn h = ground arith

  -- From leaf index `fn` and last index `sn` the loop does what `replay` does along `ts`.
  abbrev Follows : List Side → ℕ → ℕ → Type 0
  Follows ts fn sn =
      (r : Bytes) (path : List Bytes)
      → fold_audit_path sha256 r path fn sn ≡ replay sha256 ts r path

  Follows-left :
      (ts : List Side) (fn sn : ℕ)
      → fn % 2 ≡ 0
      → fn < sn
      → Follows ts (fn / 2) (sn / 2)
      → Follows (from_right ∷ ts) fn sn
  unfolding replay
  Follows-left ts fn sn h k f r [] = fold_short r fn sn (omega arith)
  Follows-left ts fn sn h k f r (p ∷ path) = fold_left r p path fn sn h k ∙ f _ path

  Follows-odd :
      (ts : List Side) (fn sn : ℕ)
      → fn % 2 ≡ 1
      → 0 < sn
      → Follows ts (fn / 2) (sn / 2)
      → Follows (from_left ∷ ts) fn sn
  unfolding replay
  Follows-odd ts fn sn h k f r [] = fold_short r fn sn k
  Follows-odd ts fn sn h k f r (p ∷ path) = fold_odd r p path fn sn h k ∙ f _ path

  Follows-edge :
      (ts : List Side) (e b : ℕ)
      → b % 2 ≡ 1
      → Follows ts (b / 2) (b / 2)
      → Follows (from_left ∷ ts) (scale e b) (scale e b)
  unfolding replay
  Follows-edge ts e b odd f r [] =
      fold_short r (scale e b) (scale e b) (scale-pos e b (omega arith))
  Follows-edge ts e b odd f r (p ∷ path) = fold_edge r p path e b odd ∙ f _ path

  Follows-at :
      {fn sn fn' sn' : ℕ} (ts : List Side)
      → fn ≡ fn'
      → sn ≡ sn'
      → Follows ts fn' sn'
      → Follows ts fn sn
  Follows-at ts p q f = rw (p, q) f

  -- Inside a complete subtree that is not on the right edge, every level is one node.
  Follows-complete :
      (j b m sn : ℕ) (ts : List Side)
      → m < scale j 1
      → b < halve j sn
      → Follows ts b (halve j sn)
      → Follows (turns m (scale j 1) ++ ts) (scale j b + m) sn
  Follows-complete zero b m sn ts h below f =
      rw (turns_leaf m 1 (omega arith)) (Follows-at ts (omega arith) refl f)
  Follows-complete (suc j) b m sn ts h below f = elim (dec_lt m (scale j 1)) [
    | yes left ↦
        rw
          (
            turns_left m (2 * scale j 1) (omega (arith, pos)) (omega (arith, half, left)),
            half,
            append_assoc,
          )
          (Follows-at _ (omega (arith, scale-double j b)) refl (
            Follows-complete j (2 * b) m sn (from_right ∷ ts) left (omega arith) (
              Follows-left ts (2 * b) (halve j sn) (omega arith) (omega arith)
                (Follows-at ts (omega arith) refl f))))
    | no right ↦
        rw
          (
            turns_right m (2 * scale j 1) (omega (arith, pos)) (omega (arith, half, right)),
            half,
            append_assoc,
            rest,
          )
          (Follows-at _ (omega (arith, scale-double j b, scale-add j (2 * b) 1)) refl (
            Follows-complete j (2 * b + 1) (m - scale j 1) sn (from_left ∷ ts) (omega arith)
              (omega arith)
              (Follows-odd ts (2 * b + 1) (halve j sn) (omega arith) (omega arith)
                (Follows-at ts (omega arith) refl f))))
  ]
    where
      pos : 0 < scale j 1
      pos = scale-pos j 1 (omega arith)

      half : split (2 * scale j 1) ≡ scale j 1
      half = split-scale_double j

      rest : 2 * scale j 1 - scale j 1 ≡ scale j 1
      rest = omega arith

  -- the two halves of a tree of `n` leaves whose left half is complete, of height `i`
  module _ (i j d b m n : ℕ) (ts : List Side) (half : split n ≡ scale i 1) (long : 1 < n)
      (above : scale j b ≡ scale i (2 * scale d b)) (f : Follows ts (scale d b) (scale d b)) where
    Follows-left_half :
        m < scale i 1 → Follows (turns m n ++ ts) (scale j b + m) (scale j b + (n - 1))
    Follows-left_half left =
        rw (turns_left m n long (omega (arith, half)), half, append_assoc)
          (Follows-at _ (omega (arith, above)) refl (
            Follows-complete i (2 * scale d b) m (scale j b + (n - 1)) (from_right ∷ ts) left
              (omega (arith, up))
              (Follows-left ts (2 * scale d b) _ (omega arith) (omega (arith, up))
                (Follows-at ts (omega arith) (omega (arith, up)) f))))
      where
        up : halve i (scale j b + (n - 1)) ≡ 2 * scale d b + 1
        up =
            let e : scale j b + (n - 1) ≡ scale i (2 * scale d b + 1) + (n - 1 - scale i 1) =
              omega (arith, above, half, split-lt n long, scale-add i (2 * scale d b) 1) in
            rw e (
              halve-scale i (2 * scale d b + 1) (n - 1 - scale i 1)
                (omega (arith, half, split-ge n, split-lt n long)))

    Follows-right_half :
        scale i 1 ≤ m
        → (((e : ℕ)
              → Follows
                  (from_left ∷ ts)
                  (scale e (2 * scale d b + 1))
                  (scale e (2 * scale d b + 1)))
            → Follows
                (turns (m - scale i 1) (n - scale i 1) ++ from_left ∷ ts)
                (scale i (2 * scale d b + 1) + (m - scale i 1))
                (scale i (2 * scale d b + 1) + (n - scale i 1 - 1)))
        → Follows (turns m n ++ ts) (scale j b + m) (scale j b + (n - 1))
    Follows-right_half right rec =
        rw (turns_right m n long (omega (arith, half)), half, append_assoc)
          (Follows-at _ (omega (arith, above, scale-add i (2 * scale d b) 1))
            (omega (arith, above, scale-add i (2 * scale d b) 1, half, split-lt n long))
            (rec λ e.
              Follows-edge ts e (2 * scale d b + 1) (omega arith)
                (Follows-at ts (omega arith) (omega arith) f)))

  -- On the right edge the skipped levels have no node; `fuel` bounds the height.
  Follows-right_edge :
      (fuel j b m n : ℕ) (ts : List Side)
      → j < fuel
      → m < n
      → n ≤ scale j 1
      → ((e : ℕ) → Follows ts (scale e b) (scale e b))
      → Follows (turns m n ++ ts) (scale j b + m) (scale j b + (n - 1))
  Follows-right_edge zero j b m n ts hf hm hn f = absurd (omega arith)
  Follows-right_edge (suc fuel) j b m n ts hf hm hn f = elim (dec_lt 1 n) [
    | no leaf ↦ rw (turns_leaf m n (omega arith)) (Follows-at ts (omega arith) (omega arith) (f j))
    | yes long ↦
        let (i, e) = split-scale n in
        let lower : i < j = scale_lt_inv i j (omega (arith, e, split-lt n long)) in
        let (d, s) = scale_split i j lower in
        elim (dec_lt m (scale i 1)) [
          | yes left ↦ Follows-left_half i j d b m n ts e long (s b) (f d) left
          | no right ↦ Follows-right_half i j d b m n ts e long (s b) (f d) (omega arith) (
              Follows-right_edge fuel i (2 * scale d b + 1) (m - scale i 1) (n - scale i 1)
                (from_left ∷ ts) (omega arith) (omega (arith, e, split-lt n long))
                (omega (arith, e, split-ge n)))
        ]
  ]

  Follows-root : (e : ℕ) → Follows [] (scale e 0) (scale e 0)
  unfolding fold_audit_path replay
  Follows-root e r [] = rw scale-zero refl
  Follows-root e r (p ∷ path) = rw scale-zero refl

  -- The bit loop of `_fold_audit_path` is `replay` along the sides of the leaf in the tree, on every path.
  pub fold_audit_path-replay :
      (m n : ℕ)
      → m < n
      → (r : Bytes) (path : List Bytes)
      → fold_audit_path sha256 r path m (n - 1) ≡ replay sha256 (turns m n) r path
  fold_audit_path-replay m n h =
      let (i, e) = split-scale n in
      let whole : Follows (turns m n ++ []) m (n - 1) =
        Follows-at (turns m n ++ []) (omega (arith, scale-zero (suc i)))
          (omega (arith, scale-zero (suc i)))
          (Follows-right_edge (suc (suc i)) (suc i) 0 m n [] (omega arith) h
            (omega (arith, e, split-ge n)) Follows-root) in
      rw append-nil at whole
