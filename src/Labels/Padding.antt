-- ===== src/Labels/Padding.antt =====
-- `pad` and `unpad`: a label as bytes in one of four buckets. The codec of UTF-8 is Python's.
use traigent_schema.Prelude.{
  ℕ, zero, suc, ◌+◌, ◌-◌, ◌≤◌, ◌<◌, ◌≡◌, ◌↔◌, refl, sym, ap, ◌∙◌, Bool, true, false, not, Option,
  none, some, List, [], ◌∷◌, ◌++◌, arith, ltb, leb, ◌==◌, if◌then◌else◌, length, replicate,
  length-append, append_assoc, Bool-cases, Option-cases, inl, inr,
}
use traigent_schema.Python.Result.{ok_inj, Result, ok, err, ◌>>=◌, >>=-eq-ok}
use traigent_schema.Python.Text.{Text, rstrip, rstrip_cons}
use traigent_schema.Merkle.{Bytes}
use traigent_schema.Labels.{LabelError, crypto_error, value_error}

abbrev pub buckets : List ℕ
buckets = 32 ∷ 64 ∷ 128 ∷ 256 ∷ []

abbrev pub max_label_bytes : ℕ
max_label_bytes = 255

-- the first bucket with room for `n` bytes and the marker
unfoldable pub first_bucket : ℕ → List ℕ → Option ℕ
first_bucket n [] = none
first_bucket n (b ∷ bs) = let rest = first_bucket n bs in if leb (n + 1) b then some b else rest

-- `n in BUCKETS`
unfoldable pub is_bucket : ℕ → List ℕ → Bool
is_bucket n [] = false
is_bucket n (b ∷ bs) = let rest = is_bucket n bs in if n == b then true else rest

abbrev pub filled : Bytes → Option ℕ → Result LabelError Bytes
filled raw none = err crypto_error
filled raw (some bucket) = ok (raw ++ 0x80 ∷ replicate (bucket - length raw - 1) 0)

unfoldable pub pad_bytes : Bytes → Result LabelError Bytes
unfolding first_bucket
pad_bytes raw =
    if ltb max_label_bytes (length raw)
    then err crypto_error
    else filled raw (first_bucket (length raw) buckets)

-- `stripped[-1] == 0x80`, with `stripped[:-1]`
unfoldable pub before_marker : Bytes → Option Bytes
before_marker [] = none
before_marker (b ∷ []) = if b == 0x80 then some [] else none
before_marker (b ∷ c ∷ s) = elim (before_marker (c ∷ s)) [
  | none ↦ none
  | some body ↦ some (b ∷ body)
]

abbrev pub same_bucket : ℕ → Option ℕ → Bool
same_bucket n none = false
same_bucket n (some b) = n == b

abbrev pub minimal : Bytes → Option Bytes → Result LabelError Bytes
minimal padded none = err crypto_error
minimal padded (some body) =
    if same_bucket (length padded) (first_bucket (length body) buckets)
    then ok body
    else err crypto_error

unfoldable pub unpad_bytes : Bytes → Result LabelError Bytes
unfolding first_bucket is_bucket rstrip before_marker
unpad_bytes padded =
    if not (is_bucket (length padded) buckets)
    then err crypto_error
    else minimal padded (before_marker (rstrip 0 padded))

module _ (encode : Text → Option Bytes) (decode : Bytes → Option Text) where
  -- `text.encode` raises a ValueError, `body.decode` becomes a LabelCryptoError
  abbrev pub encoded : Option Bytes → Result LabelError Bytes
  encoded none = err value_error
  encoded (some raw) = ok raw

  abbrev pub decoded : Option Text → Result LabelError Text
  decoded none = err crypto_error
  decoded (some text) = ok text

  unfoldable pub pad : Text → Result LabelError Bytes
  unfolding pad_bytes
  pad text = do raw ← encoded (encode text); pad_bytes raw

  unfoldable pub unpad : Bytes → Result LabelError Text
  unfolding unpad_bytes
  unpad padded = do body ← unpad_bytes padded; decoded (decode body)

rstrip-replicate : (n : ℕ) → rstrip 0 (replicate n 0) ≡ []
unfolding rstrip
rstrip-replicate zero = refl
rstrip-replicate (suc n) = rw (rstrip-replicate n) refl

rstrip_cons-some : (c x y : ℕ) (s : Bytes) → rstrip_cons c x (y ∷ s) ≡ x ∷ y ∷ s
rstrip_cons-some c x y s = refl

-- the marker ends what is kept
rstrip-marker : (raw : Bytes) (n : ℕ) → rstrip 0 (raw ++ 0x80 ∷ replicate n 0) ≡ raw ++ 0x80 ∷ []
unfolding rstrip
rstrip-marker [] n = rw (rstrip-replicate n) refl
rstrip-marker (b ∷ []) n = rw (rstrip-marker [] n) refl
rstrip-marker (b ∷ c ∷ raw) n = rw (rstrip-marker (c ∷ raw) n) refl

before_marker-marker : (raw : Bytes) → before_marker (raw ++ 0x80 ∷ []) ≡ some raw
unfolding before_marker
before_marker-marker [] = refl
before_marker-marker (b ∷ []) = refl
before_marker-marker (b ∷ c ∷ raw) = rw (before_marker-marker (c ∷ raw)) refl

before_marker-some : (s body : Bytes) → before_marker s ≡ some body → s ≡ body ++ 0x80 ∷ []
unfolding before_marker
before_marker-some [] body e = absurd (cc)
before_marker-some (b ∷ []) body e = elim (Bool-cases (b == 0x80)) [
  | inl here ↦
      let none_left : ◌≡◌ {A = Option Bytes} (some []) (some body) = rw here at e in
      let empty : ◌≡◌ {A = Bytes} [] body = cc in
      let marker : b ≡ 0x80 = ground (arith, here) in rw (sym empty, marker) refl
  | inr other ↦ absurd (ground (arith, other, e))
]
before_marker-some (b ∷ c ∷ s) body e = elim (Option-cases (before_marker (c ∷ s))) [
  | inl nothing ↦ absurd (let e' = rw nothing at e in cc)
  | inr (rest, h) ↦
      let whole : ◌≡◌ {A = Option Bytes} (some (b ∷ rest)) (some body) = rw h at e in
      let same : ◌≡◌ {A = Bytes} (b ∷ rest) body = cc in
      rw (sym same) (ap (◌∷◌ b) (before_marker-some (c ∷ s) rest h))
]

-- what is stripped is zeros
rstrip-split : (s : Bytes) → (n : ℕ) × (s ≡ rstrip 0 s ++ replicate n 0)
unfolding rstrip
rstrip-split [] = (0, refl)
rstrip-split (b ∷ s) = let (n, h) = rstrip-split s in split_cons b s n (rstrip 0 s) h
  where
    split_cons :
        (b : ℕ) (s : Bytes) (n : ℕ) (t : Bytes)
        → s ≡ t ++ replicate n 0
        → (m : ℕ) × (b ∷ s ≡ rstrip_cons 0 b t ++ replicate m 0)
    split_cons b s n [] h = elim (Bool-cases (b == 0)) [
      | inl zeros ↦ let z : b ≡ 0 = ground (arith, zeros) in (suc n, rw (zeros, z) (ap (◌∷◌ 0) h))
      | inr other ↦ (n, rw other (ap (◌∷◌ b) h))
    ]
    split_cons b s n (c ∷ t) h = (n, ap (◌∷◌ b) h)

length-replicate : (n x : ℕ) → length (replicate n x) ≡ n
length-replicate zero x = refl
length-replicate (suc n) x = ap suc (length-replicate n x)

-- The raw bytes that fit have one padded form, and what is accepted is that form.
first_bucket-some :
    (n : ℕ)
    → n ≤ max_label_bytes
    → (b : ℕ) × (first_bucket n buckets ≡ some b) × (n < b) × (is_bucket b buckets ≡ true)
unfolding first_bucket is_bucket
first_bucket-some n h = elim (Bool-cases (leb (n + 1) 32)) [
  | inl a ↦ (32, rw a refl, ground (arith, a), refl)
  | inr a ↦ elim (Bool-cases (leb (n + 1) 64)) [
    | inl b ↦ (64, rw (a, b) refl, ground (arith, b), refl)
    | inr b ↦ elim (Bool-cases (leb (n + 1) 128)) [
      | inl c ↦ (128, rw (a, b, c) refl, ground (arith, c), refl)
      | inr c ↦ (256, ground (arith, a, b, c), omega arith, refl)
    ]
  ]
]

first_bucket-le : (n b : ℕ) → first_bucket n buckets ≡ some b → (n < b) × (b ≤ 256)
unfolding first_bucket
first_bucket-le n b h = ground (arith, h)

unpad_bytes-filled :
    (raw : Bytes) (b : ℕ)
    → first_bucket (length raw) buckets ≡ some b
    → length raw < b
    → is_bucket b buckets ≡ true
    → unpad_bytes (raw ++ 0x80 ∷ replicate (b - length raw - 1) 0) ≡ ok raw
unfolding unpad_bytes
unpad_bytes-filled raw b hb below in_list =
    let size : length (raw ++ 0x80 ∷ replicate (b - length raw - 1) 0) ≡ b = omega (
      arith,
      length-append raw (0x80 ∷ replicate (b - length raw - 1) 0),
      length-replicate (b - length raw - 1) 0,
    ) in
    let same : (b == b) ≡ true = ground arith in
    let padded : Bytes = raw ++ 0x80 ∷ replicate (b - length raw - 1) 0 in
    let listed : is_bucket (length padded) buckets ≡ true =
      ap (λ n. is_bucket n buckets) size ∙ in_list in
    let fits : same_bucket (length padded) (first_bucket (length raw) buckets) ≡ true =
      ap (λ o. same_bucket (length padded) o) hb ∙ ap (λ n. n == b) size ∙ same in
    rw (listed, rstrip-marker raw (b - length raw - 1), before_marker-marker raw, fits) refl

unpad_bytes-pad_bytes :
    (raw padded : Bytes) → pad_bytes raw ≡ ok padded → unpad_bytes padded ≡ ok raw
unfolding pad_bytes unpad_bytes
unpad_bytes-pad_bytes raw padded e = elim (Bool-cases (ltb max_label_bytes (length raw))) [
  | inl long ↦ absurd (ground (arith, long, e))
  | inr short ↦
      let (b, hb, below, in_list) = first_bucket-some (length raw) (ground (arith, short)) in
      let built : raw ++ 0x80 ∷ replicate (b - length raw - 1) 0 ≡ padded =
        ok_inj (rw (short, hb) at e) in
      ap unpad_bytes (sym built) ∙ unpad_bytes-filled raw b hb below in_list
]

pad_bytes-minimal :
    (padded raw body : Bytes)
    → before_marker (rstrip 0 padded) ≡ some body
    → minimal padded (some body) ≡ ok raw
    → pad_bytes raw ≡ ok padded
unfolding pad_bytes
pad_bytes-minimal padded raw body h e =
    elim (Bool-cases (same_bucket (length padded) (first_bucket (length body) buckets))) [
      | inr other ↦ absurd (ground (arith, other, e))
      | inl fits ↦ elim (Option-cases (first_bucket (length body) buckets)) [
        | inl nothing ↦ absurd (let f = rw nothing at fits in cc)
        | inr (b, hb) ↦
            let same : body ≡ raw = ok_inj (rw fits at e) in
            let size : length padded ≡ b = ground (arith, (rw hb at fits)) in
            let (n, split) = rstrip-split padded in
            let whole : padded ≡ raw ++ 0x80 ∷ replicate n 0 =
              split
              ∙ ap (λ t. t ++ replicate n 0)
                  (before_marker-some (rstrip 0 padded) body h ∙ ap (λ t. t ++ 0x80 ∷ []) same)
              ∙ append_assoc raw (0x80 ∷ []) (replicate n 0) in
            let (below, top) = first_bucket-le (length body) b hb in
            let body_size : length body ≡ length raw = ap length same in
            let zeros : b - length raw - 1 ≡ n = omega (
              arith,
              size,
              ap length whole,
              length-append raw (0x80 ∷ replicate n 0),
              length-replicate n 0,
            ) in
            let short : ltb max_label_bytes (length raw) ≡ false =
              ground (arith, below, top, body_size) in
            let bucket : first_bucket (length raw) buckets ≡ some b =
              ap (λ t. first_bucket (length t) buckets) (sym same) ∙ hb in
            rw (short, bucket) (ap ok (ap (λ k. raw ++ 0x80 ∷ replicate k 0) zeros ∙ sym whole))
      ]
    ]

pad_bytes-unpad_bytes :
    (padded raw : Bytes) → unpad_bytes padded ≡ ok raw → pad_bytes raw ≡ ok padded
unfolding pad_bytes unpad_bytes
pad_bytes-unpad_bytes padded raw e = elim (Bool-cases (is_bucket (length padded) buckets)) [
  | inr outside ↦ absurd (ground (arith, outside, e))
  | inl inside ↦ elim (Option-cases (before_marker (rstrip 0 padded))) [
    | inl nothing ↦ absurd (let e' = rw (inside, nothing) at e in cc)
    | inr (body, h) ↦ pad_bytes-minimal padded raw body h (rw (inside, h) at e)
  ]
]

module _ (encode : Text → Option Bytes) (decode : Bytes → Option Text)
    (codec : (text : Text) (raw : Bytes)
      → (encode text ≡ some raw) ↔ (decode raw ≡ some text)) where
  encoded-ok : (o : Option Bytes) (raw : Bytes) → encoded encode decode o ≡ ok raw → o ≡ some raw
  encoded-ok none raw e = absurd (cc)
  encoded-ok (some r) raw e = ap some (ok_inj e)

  decoded-ok : (o : Option Text) (text : Text) → decoded encode decode o ≡ ok text → o ≡ some text
  decoded-ok none text e = absurd (cc)
  decoded-ok (some t) text e = ap some (ok_inj e)

  -- With a codec whose two directions are inverse to each other: `pad` gives a padded form for a label
  -- exactly when `unpad` reads that form as the label. So `unpad` undoes `pad`, and no label has two
  -- padded forms that `unpad` accepts.
  pub pad-unpad :
      (text : Text) (padded : Bytes)
      → (pad encode decode text ≡ ok padded) ↔ (unpad encode decode padded ≡ ok text)
  unfolding pad unpad
  pad-unpad text padded = (
    λ e.
        let (raw, hr, e1) = >>=-eq-ok (encoded encode decode (encode text)) _ e in
        let back : decode raw ≡ some text = (codec text raw).0 (encoded-ok (encode text) raw hr) in
        rw (unpad_bytes-pad_bytes raw padded e1, back) refl,
    λ e.
        let (raw, hr, e1) = >>=-eq-ok (unpad_bytes padded) _ e in
        let forth : encode text ≡ some raw = (codec text raw).1 (decoded-ok (decode raw) text e1) in
        rw forth (pad_bytes-unpad_bytes padded raw hr),
  )
