-- ===== src/BestConfig/Separate.antt =====
-- `config_digest` and `spec_digest` under the tags of one contract.
use traigent_schema.Prelude.{
  ℕ, ◌≡◌, sym, ap, ◌∙◌, true, Option, some, List, [], ◌∷◌, ◌++◌, arith, length, length-append,
  append_inj, append_assoc, All, Bool-cases, inl, inr,
}
use traigent_schema.Python.Result.{ok_inj, Result, ok, >>=-eq-ok}
use traigent_schema.Python.Text.{Text, codes, text_eq, text_eq_sound, ends_with}
use traigent_schema.Python.Object.{Floats, Value, null, bool, int, float, str, ref, foreign, Heap}
use traigent_schema.BestConfig.{ProfileError, domain_digest}
use traigent_schema.BestConfig.Contract.{
  Contract, ending, only, tag_pair, tag_list, domain_tag_pair, load_contract, positive_int,
}
use traigent_schema.BestConfig.Digest.{HasNoNul, Collision, domain_digest_inj}

module _ (fl : Floats) (heap : Heap fl.Float) (sha256_hexdigest : List ℕ → Text)
    (contract : Contract) where
  unfoldable pub config_digest : ℕ → Value fl.Float → Option (Result ProfileError Text)
  config_digest fuel config =
      domain_digest fl heap sha256_hexdigest contract.max_canonical_spec_bytes contract.config_tag
        fuel config

  unfoldable pub spec_digest : ℕ → Value fl.Float → Option (Result ProfileError Text)
  spec_digest fuel spec =
      domain_digest fl heap sha256_hexdigest contract.max_canonical_spec_bytes contract.spec_tag
        fuel spec

ends_with_sound :
    (suffix s : Text) → ends_with suffix s ≡ true → (front : Text) × (s ≡ front ++ suffix)
unfolding ends_with
ends_with_sound suffix [] h = ([], sym (text_eq_sound suffix [] h))
ends_with_sound suffix (c ∷ s) h = elim (Bool-cases (text_eq suffix (c ∷ s))) [
  | inl whole ↦ ([], sym (text_eq_sound suffix (c ∷ s) whole))
  | inr longer ↦
      let (front, e) = ends_with_sound suffix s (rw longer at h) in (c ∷ front, ap (◌∷◌ c) e)
]

ending-ends_with :
    (suffix : Text) (tags : List Text) → All (λ t. ends_with suffix t ≡ true) (ending suffix tags)
unfolding ending
ending-ends_with suffix [] = tt
ending-ends_with suffix (t ∷ tags) = elim (Bool-cases (ends_with suffix t)) [
  | inl here ↦ rw here (here, ending-ends_with suffix tags)
  | inr other ↦ rw other (ending-ends_with suffix tags)
]

only-All : (P : Text → Type 0) (tags : List Text) (t : Text) → only tags ≡ ok t → All P tags → P t
only-All P [] t e w = absurd (cc)
only-All P (u ∷ []) t e w = let same : u ≡ t = cc in rw⁻¹ same w.0
only-All P (u ∷ v ∷ tags) t e w = absurd (cc)

-- the two suffixes differ before ".v1"
suffix_clash : (p q : Text) → p ++ codes ".config.v1" ≡ q ++ codes ".spec.v1" → ⊥
suffix_clash p q e =
    let left : (p ++ codes ".confi") ++ codes "g.v1" ≡ p ++ codes ".config.v1" =
      append_assoc p _ _ in
    let right : (q ++ codes ".spe") ++ codes "c.v1" ≡ q ++ codes ".spec.v1" = append_assoc q _ _ in
    let whole = left ∙ e ∙ sym right in
    let size : length (p ++ codes ".confi") ≡ length (q ++ codes ".spe") = omega (
      arith,
      ap length whole,
      length-append (p ++ codes ".confi") (codes "g.v1"),
      length-append (q ++ codes ".spe") (codes "c.v1"),
    ) in
    let last : codes "g.v1" ≡ codes "c.v1" =
      (append_inj (p ++ codes ".confi") _ (q ++ codes ".spe") _ size whole).1 in
    ground (arith, last)

tag_pair-distinct :
    (tags : List Text) (config spec : Text) → tag_pair tags ≡ ok (config, spec) → config ≡ spec → ⊥
unfolding tag_pair
tag_pair-distinct tags config spec e same =
    let (c, hc, e1) = >>=-eq-ok (only (ending (codes ".config.v1") tags)) _ e in
    let (s, hs, e2) = >>=-eq-ok (only (ending (codes ".spec.v1") tags)) _ e1 in
    let (p, hp) =
      ends_with_sound (codes ".config.v1") c
        (only-All _ _ c hc (ending-ends_with (codes ".config.v1") tags)) in
    let (q, hq) =
      ends_with_sound (codes ".spec.v1") s
        (only-All _ _ s hs (ending-ends_with (codes ".spec.v1") tags)) in
    let first : c ≡ config = cc in
    let second : s ≡ spec = cc in suffix_clash p q (sym hp ∙ first ∙ same ∙ sym second ∙ hq)

module _ {F : Type 0} (schema : Heap F) where
  domain_tag_pair-distinct :
      (tags : Value F) (config spec : Text)
      → domain_tag_pair schema tags ≡ ok (config, spec)
      → config ≡ spec
      → ⊥
  unfolding domain_tag_pair
  domain_tag_pair-distinct (ref a) config spec e =
      let (texts, ht, e1) = >>=-eq-ok (tag_list schema (schema a)) _ e in
      tag_pair-distinct texts config spec e1
  domain_tag_pair-distinct null config spec e = absurd (cc)
  domain_tag_pair-distinct (bool b) config spec e = absurd (cc)
  domain_tag_pair-distinct (int n) config spec e = absurd (cc)
  domain_tag_pair-distinct (float x) config spec e = absurd (cc)
  domain_tag_pair-distinct (str t) config spec e = absurd (cc)
  domain_tag_pair-distinct foreign config spec e = absurd (cc)

  load_contract-distinct :
      (max_bytes max_depth tags : Value F) (contract : Contract)
      → load_contract schema max_bytes max_depth tags ≡ ok contract
      → contract.config_tag ≡ contract.spec_tag
      → ⊥
  unfolding load_contract
  load_contract-distinct max_bytes max_depth tags contract e same =
      let (bytes, hb, e1) = >>=-eq-ok (positive_int max_bytes) _ e in
      let (depth, hd, e2) = >>=-eq-ok (positive_int max_depth) _ e1 in
      let ((config, spec), ht, e3) = >>=-eq-ok (domain_tag_pair schema tags) _ e2 in
      let built : ◌≡◌ {A = Contract}
          (record {
            max_canonical_spec_bytes = bytes;
            max_depth = depth;
            config_tag = config;
            spec_tag = spec;
          })
          contract =
        ok_inj e3 in
      domain_tag_pair-distinct tags config spec ht
        (ap (λ c. c.config_tag) built ∙ same ∙ sym (ap (λ c. c.spec_tag) built))

-- Under a contract that `_load_contract` returned, with tags without NUL, a config and a spec have
-- one digest only if SHA-256 has a collision.
pub config_digest-spec_digest :
    (fl : Floats) (heap schema : Heap fl.Float) (sha256_hexdigest : List ℕ → Text)
    (max_bytes max_depth tags : Value fl.Float) (contract : Contract) (fuel fuel' : ℕ)
    (config spec : Value fl.Float) (d : Text)
    → load_contract schema max_bytes max_depth tags ≡ ok contract
    → HasNoNul contract.config_tag
    → HasNoNul contract.spec_tag
    → config_digest fl heap sha256_hexdigest contract fuel config ≡ some (ok d)
    → spec_digest fl heap sha256_hexdigest contract fuel' spec ≡ some (ok d)
    → Collision fl heap sha256_hexdigest
unfolding config_digest spec_digest
config_digest-spec_digest fl heap schema sha256_hexdigest max_bytes max_depth tags contract fuel
      fuel' config spec d h nc ns hc hs =
    elim (domain_digest_inj fl heap sha256_hexdigest contract.config_tag contract.spec_tag
      contract.max_canonical_spec_bytes fuel fuel' config spec d nc ns hc hs) [
        | inl found ↦
            absurd (load_contract-distinct schema max_bytes max_depth tags contract h found.1)
        | inr bad ↦ bad
      ]
