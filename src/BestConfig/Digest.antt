-- ===== src/BestConfig/Digest.antt =====
-- `_domain_digest`: what a returned digest is of.
use traigent_schema.Prelude.{
  ℕ, ◌≤◌, ◌<◌, ◌≡◌, ◌≢◌, refl, sym, ◌∙◌, Option, none, some, List, [], ◌∷◌, ◌++◌, arith, ltb,
  length, ◌⊎◌, inl, inr, Bool-cases, All, append_inj,
}
use traigent_schema.Python.Result.{Result, ok, err}
use traigent_schema.Python.Text.{Text, codes, utf8, is_ascii, Text-discrete}
use traigent_schema.Python.Object.{Floats, Value, Heap}
use traigent_schema.Fp2.{canonicalize}
use traigent_schema.Fp2.Scalar.{Unsupported}
use traigent_schema.BestConfig.{
  ProfileError, prevalidate, bounded, within_bound, after_prevalidation, canonical_bytes, tagged,
  domain_digest,
}

-- no NUL, so that the separator ends the tag
abbrev pub HasNoNul : Text → Type 0
HasNoNul = All (λ c. 0 < c)

-- A tag ends at its separator.
tag_inj :
    (s t : Text) (a b : List ℕ)
    → HasNoNul s
    → HasNoNul t
    → s ++ 0 ∷ a ≡ t ++ 0 ∷ b
    → (s ≡ t) × (a ≡ b)
tag_inj [] [] a b p q h = (refl, cc)
tag_inj [] (d ∷ t) a b p q h = absurd (let e : ◌≡◌ {A = ℕ} 0 d = cc in omega arith)
tag_inj (c ∷ s) [] a b p q h = absurd (let e : ◌≡◌ {A = ℕ} c 0 = cc in omega arith)
tag_inj (c ∷ s) (d ∷ t) a b p q h = let (same, rest) = tag_inj s t a b p.1 q.1 (cc) in (cc, rest)

module _ (fl : Floats) (heap : Heap fl.Float) where
  open fl use {Float}

  -- what every returned digest is of
  pub record IsCanonical (max_bytes fuel : ℕ) (v : Value Float) (encoded : List ℕ) : Type 0 where
    pub valid : (s : List ℕ) × (prevalidate fl heap fuel v ≡ some (ok s))
    pub text : (t : Text) × (canonicalize fl heap fuel v ≡ some (ok t)) × (encoded ≡ utf8 t)
    pub size : length encoded ≤ max_bytes

  bounded-size :
      (max_bytes : ℕ) (t : Text) (encoded : List ℕ)
      → bounded fl heap max_bytes t ≡ ok encoded
      → (encoded ≡ utf8 t) × (length encoded ≤ max_bytes)
  unfolding bounded
  bounded-size max_bytes t encoded h = elim (Bool-cases (ltb max_bytes (length (utf8 t)))) [
    | inl large ↦ absurd (ground (arith, h, large))
    | inr fits ↦
        let e : encoded ≡ utf8 t = ground (arith, h, fits) in (e, rw e (ground (arith, fits)))
  ]

  within_bound-text :
      (max_bytes : ℕ) (encoded : List ℕ) (c : Option (Result Unsupported Text))
      → within_bound fl heap max_bytes c ≡ some (ok encoded)
      → (t : Text) × (c ≡ some (ok t)) × (encoded ≡ utf8 t) × (length encoded ≤ max_bytes)
  unfolding within_bound
  within_bound-text max_bytes encoded none h = absurd (cc)
  within_bound-text max_bytes encoded (some (err x)) h = absurd (cc)
  within_bound-text max_bytes encoded (some (ok t)) h =
      let (e, size) = bounded-size max_bytes t encoded (cc) in (t, refl, e, size)

  after-IsCanonical :
      (max_bytes fuel : ℕ) (v : Value Float) (encoded : List ℕ)
      (p : Option (Result ProfileError (List ℕ)))
      → prevalidate fl heap fuel v ≡ p
      → after_prevalidation fl heap max_bytes fuel v p ≡ some (ok encoded)
      → IsCanonical max_bytes fuel v encoded
  unfolding after_prevalidation
  after-IsCanonical max_bytes fuel v encoded none hp h = absurd (cc)
  after-IsCanonical max_bytes fuel v encoded (some (err x)) hp h = absurd (cc)
  after-IsCanonical max_bytes fuel v encoded (some (ok s)) hp h =
      let (t, hc, e, size) = within_bound-text max_bytes encoded (canonicalize fl heap fuel v) h in
      record { valid = (s, hp); text = (t, hc, e); size = size }

  canonical_bytes-IsCanonical :
      (max_bytes fuel : ℕ) (v : Value Float) (encoded : List ℕ)
      → canonical_bytes fl heap max_bytes fuel v ≡ some (ok encoded)
      → IsCanonical max_bytes fuel v encoded
  unfolding canonical_bytes
  canonical_bytes-IsCanonical max_bytes fuel v encoded h =
      after-IsCanonical max_bytes fuel v encoded (prevalidate fl heap fuel v) refl h

  module _ (sha256_hexdigest : List ℕ → Text) where
    -- two inputs with one hex digest
    abbrev pub Collision : Type 0
    Collision = (x : List ℕ) × (y : List ℕ) × (x ≢ y) × (sha256_hexdigest x ≡ sha256_hexdigest y)

    tagged_of :
        (tag : Text) (r : Option (Result ProfileError (List ℕ))) (d : Text)
        → tagged fl heap sha256_hexdigest tag r ≡ some (ok d)
        → (encoded : List ℕ) × (r ≡ some (ok encoded))
          × (d ≡ codes "sha256:" ++ sha256_hexdigest (tag ++ 0 ∷ encoded))
    unfolding tagged
    tagged_of tag none d h = absurd (cc)
    tagged_of tag (some (err x)) d h = absurd (cc)
    tagged_of tag (some (ok encoded)) d h = elim (Bool-cases (is_ascii tag)) [
      | inl plain ↦ (encoded, refl, ground (arith, plain, h))
      | inr other ↦ absurd (ground (arith, other, h))
    ]

    pub domain_digest-IsCanonical :
        (tag : Text) (max_bytes fuel : ℕ) (v : Value Float) (d : Text)
        → domain_digest fl heap sha256_hexdigest max_bytes tag fuel v ≡ some (ok d)
        → (encoded : List ℕ) × IsCanonical max_bytes fuel v encoded
          × (d ≡ codes "sha256:" ++ sha256_hexdigest (tag ++ 0 ∷ encoded))
    unfolding domain_digest
    domain_digest-IsCanonical tag max_bytes fuel v d h =
        let (encoded, e, hd) = tagged_of tag (canonical_bytes fl heap max_bytes fuel v) d h in
        (encoded, canonical_bytes-IsCanonical max_bytes fuel v encoded e, hd)

    -- Under tags without NUL, two values get one digest only if the tags are the same and the values
    -- have the same canonical bytes, or SHA-256 has a collision. Each of the two values then passed
    -- the prevalidation, and its bytes are the UTF-8 of its canonical text, within the bound.
    pub domain_digest_inj :
        (s t : Text) (max_bytes fuel fuel' : ℕ) (v w : Value Float) (d : Text)
        → HasNoNul s
        → HasNoNul t
        → domain_digest fl heap sha256_hexdigest max_bytes s fuel v ≡ some (ok d)
        → domain_digest fl heap sha256_hexdigest max_bytes t fuel' w ≡ some (ok d)
        → ((encoded : List ℕ) × (s ≡ t)
            × IsCanonical max_bytes fuel v encoded
            × IsCanonical max_bytes fuel' w encoded)
          ⊎ Collision
    domain_digest_inj s t max_bytes fuel fuel' v w d ps pt hv hw =
        let (a, ca, ea) = domain_digest-IsCanonical s max_bytes fuel v d hv in
        let (b, cb, eb) = domain_digest-IsCanonical t max_bytes fuel' w d hw in
        let same : sha256_hexdigest (s ++ 0 ∷ a) ≡ sha256_hexdigest (t ++ 0 ∷ b) =
          (append_inj (codes "sha256:") _ (codes "sha256:") _ refl (sym ea ∙ eb)).1 in
        elim (Text-discrete (s ++ 0 ∷ a) (t ++ 0 ∷ b)) [
          | yes p ↦ let (tags, bytes) = tag_inj s t a b ps pt p in inl (a, tags, ca, rw bytes cb)
          | no p ↦ inr (s ++ 0 ∷ a, t ++ 0 ∷ b, p, same)
        ]
