-- ===== src/Fp2/Refine.antt =====
-- The work-stack loop of `_encode` compared with the recursive description.
use traigent_schema.Prelude.{
  ℕ, zero, suc, ◌+◌, ◌≡◌, refl, ap, ◌∙◌, Bool, true, false, none, some, List, [], ◌∷◌, ◌++◌, arith,
  leb, if◌then◌else◌, append_assoc, Bool-cases, inl, inr,
}
use traigent_schema.Python.Result.{Result, ok, err, ◌>>=◌}
use traigent_schema.Python.Text.{Text, codes}
use traigent_schema.Python.Object.{
  Floats, Value, null, bool, int, float, str, ref, foreign, Key, Container, list, dict, Heap,
}
use traigent_schema.Python.Worklist.{
  drain, Drains, Drains-nil, Drains-append, Drains-append_err, Drains-step, Drains-step_err,
  Drains-ends,
}
use traigent_schema.Python.Identity.{is_open, discard-cons}
use traigent_schema.Fp2.{
  Entry, emit, value, close, Encoder, encode_scalar, sorted_members, member_entries, dict_children,
  item_entries, list_children, children, open_container, visit, visit_container, encode_step,
  encode, joined, canonicalize, max_depth,
}
use traigent_schema.Fp2.Scalar.{Unsupported, too_deep, circular, unsupported_type}
use traigent_schema.Fp2.Canon.{items_text, members_text, quoted_keys, container_text, canon}

module _ (fl : Floats) (heap : Heap fl.Float) where
  open fl use {Float}

  abbrev Ends : List (Entry Float) → Encoder → Result Unsupported Encoder → Type 0
  Ends = Drains (encode_step fl heap)

  abbrev state : Text → List ℕ → Encoder
  state out opened = record { out = out; open_containers = opened }

  -- the text of `r` after what is there
  abbrev adds : Text → List ℕ → Result Unsupported Text → Result Unsupported Encoder
  adds out opened (ok text) = ok (state (out ++ text) opened)
  adds out opened (err x) = err x

  Ends-emit :
      (text out : Text) (opened : List ℕ)
      → Ends (emit text ∷ []) (state out opened) (ok (state (out ++ text) opened))
  unfolding encode_step
  Ends-emit text out opened = Drains-step _ (emit text) [] refl (Drains-nil _ _)

  Ends-to :
      {es : List (Entry Float)} {out out' : Text} {opened : List ℕ} (s : Encoder)
      → out ≡ out'
      → Ends es s (ok (state out opened))
      → Ends es s (ok (state out' opened))
  Ends-to s e d = rw (← e) d

  -- A value's text is added, then what the entries below add.
  Ends-value :
      {v : Entry Float} {rest : List (Entry Float)} (out : Text) (opened : List ℕ)
      (r : Result Unsupported Text) (g : Result Unsupported Text)
      → Ends (v ∷ []) (state out opened) (adds out opened r)
      → ((text : Text) → Ends rest (state (out ++ text) opened) (adds (out ++ text) opened g))
      → Ends (v ∷ rest) (state out opened) (adds out opened (do t ← r; u ← g; ok (t ++ u)))
  Ends-value {v} {rest} out opened (err x) g d k = Drains-append_err _ (v ∷ []) rest d
  Ends-value {v} {rest} out opened (ok t) (err x) d k = Drains-append _ (v ∷ []) rest d (k t)
  Ends-value {v} {rest} out opened (ok t) (ok u) d k =
      Ends-to (state out opened) (append_assoc out t u) (Drains-append _ (v ∷ []) rest d (k t))

  -- A literal text is added, then what the entries below add.
  Ends-text :
      {rest : List (Entry Float)} (text out : Text) (opened : List ℕ) (g : Result Unsupported Text)
      → Ends rest (state (out ++ text) opened) (adds (out ++ text) opened g)
      → Ends (emit text ∷ rest) (state out opened) (adds out opened (do u ← g; ok (text ++ u)))
  Ends-text {rest} text out opened (err x) k =
      Drains-append _ (emit text ∷ []) rest (Ends-emit text out opened) k
  Ends-text {rest} text out opened (ok u) k =
      Ends-to (state out opened) (append_assoc out text u)
        (Drains-append _ (emit text ∷ []) rest (Ends-emit text out opened) k)

  regroup :
      (c : Text) (r g : Result Unsupported Text)
      → (do t ← r; w ← g; ok (c ++ (t ++ w))) ≡ (do u ← (do t ← r; w ← g; ok (t ++ w)); ok (c ++ u))
  regroup c (err x) g = refl
  regroup c (ok t) (err x) = refl
  regroup c (ok t) (ok w) = refl

  regroup_twice :
      (c d : Text) (r g : Result Unsupported Text)
      → (do t ← r; w ← g; ok (c ++ (d ++ (t ++ w))))
        ≡ (do u ← (do v ← (do t ← r; w ← g; ok (t ++ w)); ok (d ++ v)); ok (c ++ u))
  regroup_twice c d (err x) g = refl
  regroup_twice c d (ok t) (err x) = refl
  regroup_twice c d (ok t) (ok w) = refl

  -- the entries of members whose keys are encoded
  quoted_entries : ℕ → Bool → List (Text × Value Float) → List (Entry Float)
  quoted_entries depth first [] = emit (codes "}") ∷ []
  quoted_entries depth first ((quoted, v) ∷ items) =
      let member =
        emit (quoted ++ codes ":") ∷ value v (depth + 1) ∷ quoted_entries depth false items in
      if first then member else emit (codes ",") ∷ member

  member_entries-quoted :
      (depth : ℕ) (first : Bool) (items : List (List ℕ × (Text × Value Float)))
      → member_entries fl first depth items
        ≡ (do q ← quoted_keys fl items; ok (quoted_entries depth first q))
  unfolding member_entries quoted_keys quoted_entries
  member_entries-quoted depth first [] = refl
  member_entries-quoted depth first ((s, (k, v)) ∷ items) =
      ground (arith, member_entries-quoted depth false items)

  keyed : List (Key × Value Float) → Result Unsupported (List (Text × Value Float))
  keyed items = do sorted ← sorted_members fl items; quoted_keys fl sorted

  abbrev in_braces : List (Entry Float) → Text × List (Entry Float)
  in_braces pending = (codes "{", pending)

  braced : ℕ → List (Text × Value Float) → Text × List (Entry Float)
  braced depth q = in_braces (quoted_entries depth true q)

  children-dict :
      (depth : ℕ) (items : List (Key × Value Float))
      → children fl (dict items) depth ≡ (do q ← keyed items; ok (braced depth q))
  unfolding children keyed dict_children braced
  children-dict depth items = go (sorted_members fl items)
    where
      go :
          (r : Result Unsupported (List (List ℕ × (Text × Value Float))))
          → (do
            pending ← (do sorted ← r; member_entries fl true depth sorted)
            ok (in_braces pending))
            ≡ (do q ← (do sorted ← r; quoted_keys fl sorted); ok (braced depth q))
      go (err x) = refl
      go (ok sorted) = rw (member_entries-quoted depth true sorted) (last (quoted_keys fl sorted))
        where
          last :
              (q : Result Unsupported (List (Text × Value Float)))
              → (do pending ← (do t ← q; ok (quoted_entries depth true t)); ok (in_braces pending))
                ≡ (do t ← q; ok (braced depth t))
          last (err x) = refl
          last (ok t) = refl

  container_text-dict :
      (f : Value Float → Result Unsupported Text) (items : List (Key × Value Float))
      → container_text fl f (dict items)
        ≡ (do q ← keyed items; rest ← members_text fl f true q; ok (codes "{" ++ rest))
  unfolding container_text keyed
  container_text-dict f items = go (sorted_members fl items)
    where
      go :
          (r : Result Unsupported (List (List ℕ × (Text × Value Float))))
          → (do
            sorted ← r
            q ← quoted_keys fl sorted
            rest ← members_text fl f true q
            ok (codes "{" ++ rest))
            ≡ (do
              q ← (do sorted ← r; quoted_keys fl sorted)
              rest ← members_text fl f true q
              ok (codes "{" ++ rest))
      go (err x) = refl
      go (ok sorted) = refl

  module _ (f : Value Float → Result Unsupported Text) (depth : ℕ) (opened : List ℕ)
      (ih : (v : Value Float) (out : Text)
        → Ends (value v (depth + 1) ∷ []) (state out opened) (adds out opened (f v))) where
    Ends-items :
        (first : Bool) (items : List (Value Float)) (out : Text)
        → Ends
            (item_entries fl first depth items)
            (state out opened)
            (adds out opened (items_text fl f first items))
    unfolding item_entries items_text
    Ends-items first [] out = Ends-emit (codes "]") out opened
    Ends-items true (v ∷ items) out =
        Ends-value out opened (f v) (items_text fl f false items) (ih v out)
          (λ t. Ends-items false items (out ++ t))
    Ends-items false (v ∷ items) out =
        rw (regroup (codes ",") (f v) (items_text fl f false items)) (
          Ends-text (codes ",") out opened _ (
            Ends-value (out ++ codes ",") opened (f v) (items_text fl f false items)
              (ih v (out ++ codes ",")) (λ t. Ends-items false items (out ++ codes "," ++ t))))

    Ends-members :
        (first : Bool) (items : List (Text × Value Float)) (out : Text)
        → Ends
            (quoted_entries depth first items)
            (state out opened)
            (adds out opened (members_text fl f first items))
    unfolding quoted_entries members_text
    Ends-members first [] out = Ends-emit (codes "}") out opened
    Ends-members true ((quoted, v) ∷ items) out =
        rw (regroup (quoted ++ codes ":") (f v) (members_text fl f false items)) (
          Ends-text (quoted ++ codes ":") out opened _ (
            Ends-value _ opened (f v) (members_text fl f false items) (ih v _)
              (λ t. Ends-members false items _)))
    Ends-members false ((quoted, v) ∷ items) out =
        rw (regroup_twice (codes ",") (quoted ++ codes ":") (f v) (members_text fl f false items)) (
          Ends-text (codes ",") out opened _ (
            Ends-text (quoted ++ codes ":") _ opened _ (
              Ends-value _ opened (f v) (members_text fl f false items) (ih v _)
                (λ t. Ends-members false items _))))

  module _ (a depth : ℕ) (out : Text) (opened : List ℕ) (unseen : is_open a opened ≡ false) where
    Ends-close :
        (opener : Text) (pending : List (Entry Float)) (r : Result Unsupported Text)
        → Ends pending (state (out ++ opener) (a ∷ opened)) (adds (out ++ opener) (a ∷ opened) r)
        → Ends
            (pending ++ close a ∷ [])
            (state (out ++ opener) (a ∷ opened))
            (adds out opened (do t ← r; ok (opener ++ t)))
    unfolding encode_step
    Ends-close opener pending (err x) d = Drains-append_err _ pending (close a ∷ []) d
    Ends-close opener pending (ok t) d = Ends-to _ (append_assoc out opener t) (
        Drains-append _ pending (close a ∷ []) d (
          Drains-step _ (close a) []
            (ap (λ o. ok ([], state (out ++ opener ++ t) o)) (discard-cons a opened unseen))
            (Drains-nil _ _)))

    Ends-open :
        (opener : Text) (pending : List (Entry Float)) (r : Result Unsupported Text)
        → leb depth max_depth ≡ true
        → children fl (heap a) depth ≡ ok (opener, pending)
        → Ends pending (state (out ++ opener) (a ∷ opened)) (adds (out ++ opener) (a ∷ opened) r)
        → Ends
            (value (ref a) depth ∷ [])
            (state out opened)
            (adds out opened (do t ← r; ok (opener ++ t)))
    unfolding encode_step encode_scalar visit visit_container open_container
    Ends-open opener pending r fits e d =
        Drains-step _ (value (ref a) depth) (pending ++ close a ∷ []) (rw (fits, unseen, e) refl)
          (Ends-close opener pending r d)

    Ends-refused :
        (x : Unsupported)
        → leb depth max_depth ≡ true
        → children fl (heap a) depth ≡ err x
        → Ends (value (ref a) depth ∷ []) (state out opened) (err x)
    unfolding encode_step encode_scalar visit visit_container open_container
    Ends-refused x fits e = Drains-step_err _ (value (ref a) depth) (rw (fits, unseen, e) refl)

    module _ (f : Value Float → Result Unsupported Text) (fits : leb depth max_depth ≡ true)
        (ih : (v : Value Float) (out : Text)
          → Ends
              (value v (depth + 1) ∷ [])
              (state out (a ∷ opened))
              (adds out (a ∷ opened) (f v))) where
      Ends-keyed :
          (items : List (Key × Value Float)) (r : Result Unsupported (List (Text × Value Float)))
          → heap a ≡ dict items
          → keyed items ≡ r
          → Ends
              (value (ref a) depth ∷ [])
              (state out opened)
              (adds out opened (do q ← r; rest ← members_text fl f true q; ok (codes "{" ++ rest)))
      Ends-keyed items (err x) e s = Ends-refused x fits (rw (e, children-dict depth items, s) refl)
      Ends-keyed items (ok q) e s =
          Ends-open (codes "{") (quoted_entries depth true q) (members_text fl f true q) fits
            (rw (e, children-dict depth items, s) (unfold braced in refl))
            (Ends-members f depth (a ∷ opened) ih true q (out ++ codes "{"))

      Ends-container :
          (c : Container Float)
          → heap a ≡ c
          → Ends
              (value (ref a) depth ∷ [])
              (state out opened)
              (adds out opened (container_text fl f c))
      unfolding container_text
      Ends-container (list items) e =
          Ends-open (codes "[") _ (items_text fl f true items) fits
            (rw e (unfold children list_children in refl))
            (Ends-items f depth (a ∷ opened) ih true items (out ++ codes "["))
      Ends-container (dict items) e =
          rw (container_text-dict f items) (Ends-keyed items (keyed items) e refl)

  leaf_text : Result Unsupported Text → Result Unsupported Text
  leaf_text r = do
    scalar ← (do t ← r; ok (some t))
    elim scalar [ some text ↦ ok text | none ↦ err unsupported_type ]

  Ends-leaf :
      (v : Value Float) (depth : ℕ) (out : Text) (opened : List ℕ) (r : Result Unsupported Text)
      → encode_scalar fl v ≡ (do t ← r; ok (some t))
      → Ends (value v depth ∷ []) (state out opened) (adds out opened (leaf_text r))
  unfolding encode_step visit leaf_text
  Ends-leaf v depth out opened (err x) e = Drains-step_err _ (value v depth) (rw e refl)
  Ends-leaf v depth out opened (ok t) e =
      Drains-step _ (value v depth) [] (rw e refl) (Drains-nil _ _)

  Ends-too_deep :
      (a depth : ℕ) (out : Text) (opened : List ℕ)
      → leb depth max_depth ≡ false
      → Ends (value (ref a) depth ∷ []) (state out opened) (err too_deep)
  unfolding encode_step encode_scalar visit visit_container open_container
  Ends-too_deep a depth out opened h = Drains-step_err _ (value (ref a) depth) (rw h refl)

  Ends-circular :
      (a depth : ℕ) (out : Text) (opened : List ℕ)
      → leb depth max_depth ≡ true
      → is_open a opened ≡ true
      → Ends (value (ref a) depth ∷ []) (state out opened) (err circular)
  unfolding encode_step encode_scalar visit visit_container open_container
  Ends-circular a depth out opened h k = Drains-step_err _ (value (ref a) depth) (rw (h, k) refl)

  Ends-foreign :
      (depth : ℕ) (out : Text) (opened : List ℕ)
      → Ends (value foreign depth ∷ []) (state out opened) (err unsupported_type)
  unfolding encode_step encode_scalar visit visit_container
  Ends-foreign depth out opened = Drains-step_err _ (value foreign depth) refl

  Ends-canon :
      (room depth : ℕ) (v : Value Float) (out : Text) (opened : List ℕ)
      → depth + room ≡ suc max_depth
      → Ends (value v depth ∷ []) (state out opened) (adds out opened (canon fl heap v room opened))
  unfolding canon leaf_text encode_scalar
  Ends-canon zero depth (ref a) out opened h = Ends-too_deep a depth out opened (ground (arith, h))
  Ends-canon (suc room) depth (ref a) out opened h = elim (Bool-cases (is_open a opened)) [
    | inl seen ↦ rw seen (Ends-circular a depth out opened (ground (arith, h)) seen)
    | inr unseen ↦ rw unseen (
        Ends-container a depth out opened unseen (λ v. canon fl heap v room (a ∷ opened))
          (ground (arith, h))
          (λ v out'. Ends-canon room (depth + 1) v out' (a ∷ opened) (omega arith)) (heap a) refl)
  ]
  Ends-canon room depth foreign out opened h = Ends-foreign depth out opened
  Ends-canon room depth null out opened h = Ends-leaf null depth out opened (ok (codes "null")) refl
  Ends-canon room depth (bool true) out opened h =
      Ends-leaf (bool true) depth out opened (ok (codes "true")) refl
  Ends-canon room depth (bool false) out opened h =
      Ends-leaf (bool false) depth out opened (ok (codes "false")) refl
  Ends-canon room depth (int n) out opened h = Ends-leaf (int n) depth out opened _ refl
  Ends-canon room depth (float x) out opened h = Ends-leaf (float x) depth out opened _ refl
  Ends-canon room depth (str s) out opened h = Ends-leaf (str s) depth out opened _ refl

  abbrev initial : Encoder
  initial = state [] []

  joined-adds : (r : Result Unsupported Text) → joined fl heap (some (adds [] [] r)) ≡ some r
  joined-adds (ok text) = refl
  joined-adds (err x) = refl

  canonicalize_at :
      (n : ℕ) (v : Value Float) (r : Result Unsupported Text)
      → drain (encode_step fl heap) n (value v 1 ∷ []) initial ≡ some (adds [] [] r)
      → canonicalize fl heap n v ≡ some r
  unfolding canonicalize encode
  canonicalize_at n v r h = ap (joined fl heap) h ∙ joined-adds r

  -- On every object graph, cyclic ones included, `_encode` ends, and `canonicalize` then returns, or
  -- rejects with, what the recursive description of the canonical text does with 100 levels.
  pub canonicalize-canon :
      (v : Value Float)
      → (n : ℕ) × ((k : ℕ) → canonicalize fl heap (n + k) v ≡ some (canon fl heap v max_depth []))
  canonicalize-canon v =
      let (n, ends) = Drains-ends _ (value v 1 ∷ []) (Ends-canon max_depth 1 v [] [] refl) in
      (n, λ k. canonicalize_at (n + k) v (canon fl heap v max_depth []) (ends k))
