-- ===== src/Merkle/Sound.antt =====
-- Paths that fold to the root of a tree.
use mathlib.Core.WellFounded.{induction}
use traigent_schema.Prelude.{
  ℕ, zero, suc, ◌-◌, ◌≤◌, ◌<◌, ◌≡◌, ◌≢◌, sym, ap, ◌∙◌, some, List, [], ◌∷◌, ◌++◌, arith, dec_lt,
  ◌⊎◌, inl, inr, length, take, drop, get_elem?, ℕ_discrete, length-append, get_elem?-take,
  get_elem?-drop, All, All-take, All-drop, append_inj,
}
use traigent_schema.Prelude.Order.{Shorter_wf}
use traigent_schema.Merkle.{
  Bytes, Shorter-take, Shorter-drop, node_hash, mth, path, fold_audit_path,
}
use traigent_schema.Merkle.Split.{split, split-pos, split-lt}
use traigent_schema.Merkle.Shape.{
  Side, from_left, from_right, replay, turns, turns_leaf, turns_left, turns_right, replay_unsnoc,
}
use traigent_schema.Merkle.Fold.{fold_audit_path-replay}
use traigent_schema.Merkle.Tree.{
  mth_step, mth_one, path_left, path_right, path_short, length-left, length-right,
}

abbrev pub IsHash : Bytes → Type 0
IsHash h = length h ≡ 32

-- two inputs with one digest
abbrev pub Collision : (Bytes → Bytes) → Type 0
Collision sha256 = (x : Bytes) × (y : Bytes) × (x ≢ y) × (sha256 x ≡ sha256 y)

pub Bytes-discrete : Discrete Bytes
Bytes-discrete = hlevel ℕ_discrete

module _ (sha256 : Bytes → Bytes) where
  pub same_digest : (x y : Bytes) → sha256 x ≡ sha256 y → (x ≡ y) ⊎ Collision sha256
  same_digest x y e = elim (Bytes-discrete x y) [ yes p ↦ inl p | no p ↦ inr (x, y, p, e) ]

  cons_append_inj :
      (a b c d : Bytes)
      → (length a ≡ length c) ⊎ (length b ≡ length d)
      → ◌≡◌ {A = Bytes} (1 ∷ a ++ b) (1 ∷ c ++ d)
      → (a ≡ c) × (b ≡ d)
  cons_append_inj a b c d h e =
      let e' : a ++ b ≡ c ++ d = cc in
      append_inj a b c d (omega (arith, h, ap length e', length-append a b, length-append c d)) e'

  -- equal nodes have equal children, where those of one side are as long
  node_hash_inj :
      (a b c d : Bytes)
      → (length a ≡ length c) ⊎ (length b ≡ length d)
      → node_hash sha256 a b ≡ node_hash sha256 c d
      → ((a ≡ c) × (b ≡ d)) ⊎ Collision sha256
  unfolding node_hash
  node_hash_inj a b c d h e = elim (same_digest (1 ∷ a ++ b) (1 ∷ c ++ d) e) [
    | inl p ↦ inl (cons_append_inj a b c d h p)
    | inr bad ↦ inr bad
  ]

  module _ (digest_size : (x : Bytes) → IsHash (sha256 x)) where
    node_hash-IsHash : (a b : Bytes) → IsHash (node_hash sha256 a b)
    unfolding node_hash
    node_hash-IsHash a b = digest_size (1 ∷ a ++ b)

    mth-IsHash : (l : List Bytes) → 0 < length l → All IsHash l → IsHash (mth sha256 l)
    mth-IsHash [] h w = absurd (omega arith)
    mth-IsHash (x ∷ []) h w = rw (mth_one sha256 x) w.0
    mth-IsHash (x ∷ y ∷ l) h w =
        rw (mth_step sha256 (x ∷ y ∷ l) (omega arith)) (node_hash-IsHash _ _)

    replay-IsHash :
        (ts : List Side) (r : Bytes) (p : List Bytes) {R : Bytes}
        → IsHash r
        → replay sha256 ts r p ≡ some R
        → IsHash R
    unfolding replay
    replay-IsHash [] r [] h e = ground (arith, h)
    replay-IsHash [] r (q ∷ p) h e = absurd (cc)
    replay-IsHash (t ∷ ts) r [] h e = absurd (cc)
    replay-IsHash (from_left ∷ ts) r (q ∷ p) h e = replay-IsHash ts _ p (node_hash-IsHash q r) e
    replay-IsHash (from_right ∷ ts) r (q ∷ p) h e = replay-IsHash ts _ p (node_hash-IsHash r q) e

    abbrev IsSound : List Bytes → Type 0
    IsSound l =
        (m : ℕ) (r : Bytes) (p : List Bytes)
        → m < length l
        → All IsHash l
        → IsHash r
        → replay sha256 (turns m (length l)) r p ≡ some (mth sha256 l)
        → ((get_elem? l m ≡ some r) × (p ≡ path sha256 m l)) ⊎ Collision sha256

    leaf_only : (x r : Bytes) (p : List Bytes) → replay sha256 [] r p ≡ some x → (x ≡ r) × (p ≡ [])
    unfolding replay
    leaf_only x r [] e = ground (arith, e)
    leaf_only x r (q ∷ p) e = absurd (cc)

    IsSound-short : (l : List Bytes) → length l ≤ 1 → IsSound l
    IsSound-short [] short m r p h w hr e = absurd (omega arith)
    IsSound-short (x ∷ []) short zero r p h w hr e =
        let (same, none_left) =
          leaf_only x r p (rw (turns_leaf 0 1 (omega arith), mth_one sha256 x) at e) in
        inl (ap some same, none_left ∙ sym (path_short sha256 0 (x ∷ []) (omega arith)))
    IsSound-short (x ∷ []) short (suc m) r p h w hr e = absurd (omega arith)
    IsSound-short (x ∷ y ∷ l) short m r p h w hr e = absurd (omega arith)

    module _ (l : List Bytes) (long : 1 < length l) (m : ℕ) (r : Bytes) (p : List Bytes)
        (w : All IsHash l) (hr : IsHash r)
        (e : replay sha256 (turns m (length l)) r p ≡ some (mth sha256 l)) where
      abbrev Outcome : Type 0
      Outcome = ((get_elem? l m ≡ some r) × (p ≡ path sha256 m l)) ⊎ Collision sha256

      take-IsHash : IsHash (mth sha256 (take (split (length l)) l))
      take-IsHash =
          mth-IsHash _ (omega (arith, length-left sha256 l long, split-pos (length l)))
            (All-take IsHash _ l w)

      drop-IsHash : IsHash (mth sha256 (drop (split (length l)) l))
      drop-IsHash =
          mth-IsHash _ (omega (arith, length-right sha256 l long, split-lt (length l) long))
            (All-drop IsHash _ l w)

      IsSound-left : m < split (length l) → IsSound (take (split (length l)) l) → Outcome
      IsSound-left q left =
          let k : ℕ = split (length l) in
          let e' : replay sha256 (turns m k ++ from_right ∷ []) r p
              ≡ some (node_hash sha256 (mth sha256 (take k l)) (mth sha256 (drop k l))) =
            rw (turns_left m (length l) long q, mth_step sha256 l long) at e in
          let (p', x, R', ep, er, ej) = replay_unsnoc sha256 from_right (turns m k) r p e' in
          let size : IsHash R' = replay-IsHash (turns m k) r p' hr er in
          elim (node_hash_inj R' x (mth sha256 (take k l)) (mth sha256 (drop k l))
            (inl (size ∙ sym take-IsHash)) ej) [
              | inr bad ↦ inr bad
              | inl (same, last) ↦
                  elim (left m r p' (omega (arith, length-left sha256 l long))
                    (All-take IsHash k l w) hr (rw length-left (er ∙ ap some same))) [
                      | inr bad ↦ inr bad
                      | inl (found, rest) ↦ inl (
                        sym (get_elem?-take k m l q) ∙ found,
                        ep
                            ∙ ap (λ t. t ++ x ∷ []) rest
                            ∙ ap (λ t. path sha256 m (take k l) ++ t ∷ []) last
                            ∙ sym (path_left sha256 m l long q),
                      )
                    ]
            ]

      IsSound-right :
          ¬ (m < split (length l)) → m < length l → IsSound (drop (split (length l)) l) → Outcome
      IsSound-right q h right =
          let k : ℕ = split (length l) in
          let e' : replay sha256 (turns (m - k) (length l - k) ++ from_left ∷ []) r p
              ≡ some (node_hash sha256 (mth sha256 (take k l)) (mth sha256 (drop k l))) =
            rw (turns_right m (length l) long (omega arith), mth_step sha256 l long) at e in
          let (p', x, R', ep, er, ej) =
            replay_unsnoc sha256 from_left (turns (m - k) (length l - k)) r p e' in
          let size : IsHash R' = replay-IsHash (turns (m - k) (length l - k)) r p' hr er in
          elim (node_hash_inj x R' (mth sha256 (take k l)) (mth sha256 (drop k l))
            (inr (size ∙ sym drop-IsHash)) ej) [
              | inr bad ↦ inr bad
              | inl (last, same) ↦
                  elim (right (m - k) r p' (omega (arith, length-right sha256 l long))
                    (All-drop IsHash k l w) hr (rw length-right (er ∙ ap some same))) [
                      | inr bad ↦ inr bad
                      | inl (found, rest) ↦ inl (
                        ap (get_elem? l) (omega arith) ∙ sym (get_elem?-drop k (m - k) l) ∙ found,
                        ep
                            ∙ ap (λ t. t ++ x ∷ []) rest
                            ∙ ap (λ t. path sha256 (m - k) (drop k l) ++ t ∷ []) last
                            ∙ sym (path_right sha256 m l long (omega arith)),
                      )
                    ]
            ]

    IsSound-all : (l : List Bytes) → IsSound l
    IsSound-all l = induction Shorter_wf {C = IsSound} l λ s ih. elim (dec_lt 1 (length s)) [
      | yes long ↦ λ m r p h w hr e. elim (dec_lt m (split (length s))) [
        | yes q ↦ IsSound-left s long m r p w hr e q (ih _ (Shorter-take s long))
        | no q ↦ IsSound-right s long m r p w hr e q h (ih _ (Shorter-drop s long))
      ]
      | no short ↦ IsSound-short s (omega arith)
    ]

    -- With 32-byte digests, a path along which `_fold_audit_path` goes from the 32-byte hash `r` at
    -- index `m` to the root of a tree of 32-byte leaf hashes is the path that `_path` builds and `r`
    -- is the tree's leaf `m`, or two inputs of SHA-256 with one digest are at hand.
    pub fold_audit_path_sound :
        (l : List Bytes) (m : ℕ) (r : Bytes) (p : List Bytes)
        → m < length l
        → All IsHash l
        → IsHash r
        → fold_audit_path sha256 r p m (length l - 1) ≡ some (mth sha256 l)
        → ((get_elem? l m ≡ some r) × (p ≡ path sha256 m l)) ⊎ Collision sha256
    fold_audit_path_sound l m r p h w hr e =
        IsSound-all l m r p h w hr (sym (fold_audit_path-replay sha256 m (length l) h r p) ∙ e)
