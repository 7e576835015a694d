-- ===== src/RelyingParty/Verified.antt =====
-- `_material_public_key` and `_verify_signature` where they raise nothing.
use traigent_schema.Prelude.{
  ℕ, ◌≤◌, ◌<◌, ◌≡◌, refl, sym, ap, ◌∙◌, Bool, true, false, ◌&&◌, ◌||◌, Option, none, some, ◌∷◌,
  ◌++◌, arith, leb, ltb, ltb→lt, ◌==◌, length, take, drop, ◌⊎◌, inl, inr, Bool-cases,
}
use traigent_schema.Python.Result.{ok, ok_inj, >>=-eq-ok, guard, guard->>-ok}
use traigent_schema.Python.Text.{Text, codes, text_eq, text_eq_sound}
use traigent_schema.Python.BigEndian.{of_be}
use traigent_schema.Python.Object.{Value, null, bool, int, float, str, ref, foreign}
use traigent_schema.Merkle.{Bytes}
use traigent_schema.RelyingParty.{
  RelyingPartyError, materials_key, unknown_algorithm, signature_base64, key_algorithm,
  signature_scalar, signature_high_s, signature_invalid,
}
use traigent_schema.RelyingParty.Signature.{
  Crypto, Material, required, ed25519, ecdsa_p256, ecdsa_order, ecdsa_half_order, is_signature_text,
  material_public_key, verify_ecdsa, decode_signature, verify_signature,
}

both_true : (a b : Bool) → (a && b) ≡ true → (a ≡ true) × (b ≡ true)
both_true true b h = (refl, h)
both_true false b h = absurd (cc)

leb→le : (m n : ℕ) → leb m n ≡ true → m ≤ n
leb→le m n h = ground (arith, h)

required-ok {ℓ} :
    {A : Type ℓ} (o : Option A) (raised : RelyingPartyError) (a : A)
    → required o raised ≡ ok a
    → o ≡ some a
required-ok none raised a e = absurd (cc)
required-ok (some b) raised a e = ap some (ok_inj e)

guard-true {ℓ} :
    {E : Type ℓ} (test : Bool) (raised : E) (u : Unit {0}) → guard test raised ≡ ok u → test ≡ true
guard-true true raised u e = refl
guard-true false raised u e = absurd (cc)

module _ (crypto : Crypto) (sha256_hexdigest : Bytes → Text) where
  -- the public key is the one whose canonical DER form and digest are pinned
  pub record IsPinned (material : Material) (digest_domain : Bytes) (key : crypto.PublicKey)
      : Type 0 where
    pub der : Bytes
    pub decoded : crypto.b64decode material.public_key_der_b64 ≡ some der
    pub loaded : crypto.load_der der ≡ some key
    pub canonical : crypto.spki key ≡ der
    pub digest_is :
        material.public_key_digest ≡ codes "sha256:" ++ sha256_hexdigest (digest_domain ++ 0 ∷ der)

  pub material_public_key-IsPinned :
      (material : Material) (digest_domain : Bytes) (key : crypto.PublicKey)
      → material_public_key crypto sha256_hexdigest material digest_domain ≡ ok key
      → IsPinned material digest_domain key
  unfolding material_public_key
  material_public_key-IsPinned material digest_domain key e =
      let (_, e1) = guard->>-ok _ materials_key _ e in
      let (der, h2, e2) =
        >>=-eq-ok (required (crypto.b64decode material.public_key_der_b64) materials_key) _ e1 in
      let (_, e3) = guard->>-ok _ materials_key _ e2 in
      let (k, h4, e4) = >>=-eq-ok (required (crypto.load_der der) materials_key) _ e3 in
      let (same, e5) = guard->>-ok (text_eq (crypto.spki k) der) materials_key _ e4 in
      let (pinned, e6) =
        guard->>-ok
          (text_eq material.public_key_digest
            (codes "sha256:" ++ sha256_hexdigest (digest_domain ++ 0 ∷ der)))
          materials_key _ e5 in
      let (_, e7) = guard->>-ok _ materials_key _ e6 in
      let (_, e8) = guard->>-ok _ materials_key _ e7 in
      let found : k ≡ key = ok_inj e8 in
      record {
        der = der;
        decoded = required-ok _ materials_key der h2;
        loaded = required-ok _ materials_key k h4 ∙ ap some found;
        canonical = ap crypto.spki (sym found) ∙ text_eq_sound (crypto.spki k) der same;
        digest_is = text_eq_sound material.public_key_digest _ pinned;
      }

  -- what the curve's check accepts: scalars in range, with the low `s`
  pub record IsEcdsa (key : crypto.PublicKey) (material raw : Bytes) : Type 0 where
    pub r : ℕ
    pub s : ℕ
    pub r_is : of_be 0 (take 32 raw) ≡ r
    pub s_is : of_be 0 (drop 32 raw) ≡ s
    pub curve : crypto.is_p256 key ≡ true
    pub r_in_range : (1 ≤ r) × (r < ecdsa_order)
    pub s_is_low : (1 ≤ s) × (s ≤ ecdsa_half_order)
    pub verified : crypto.ecdsa_verify key r s material ≡ true

  -- the algorithm's own check has accepted a 64-byte signature over the material
  pub record IsVerified (key : crypto.PublicKey) (algorithm : Text) (material : Bytes)
      (encoded : Text) : Type 0 where
    pub raw : Bytes
    pub decoded : crypto.b64decode encoded ≡ some raw
    pub size : length raw ≡ 64
    pub accepted :
        ((algorithm ≡ ed25519)
          × (crypto.is_ed25519 key ≡ true)
          × (crypto.ed25519_verify key raw material ≡ true))
        ⊎ ((algorithm ≡ ecdsa_p256) × IsEcdsa key material raw)

  verify_ecdsa-IsEcdsa :
      (key : crypto.PublicKey) (material raw : Bytes) (u : Unit {0})
      → verify_ecdsa crypto sha256_hexdigest key material raw ≡ ok u
      → IsEcdsa key material raw
  unfolding verify_ecdsa
  verify_ecdsa-IsEcdsa key material raw u e =
      let r = of_be 0 (take 32 raw) in
      let s = of_be 0 (drop 32 raw) in
      let (curve, e1) = guard->>-ok (crypto.is_p256 key) key_algorithm _ e in
      let (range, e2) =
        guard->>-ok (leb 1 r && ltb r ecdsa_order && leb 1 s && ltb s ecdsa_order) signature_scalar
          _ e1 in
      let (low, e3) = guard->>-ok (leb s ecdsa_half_order) signature_high_s _ e2 in
      let (left, s_below) =
        both_true (leb 1 r && ltb r ecdsa_order && leb 1 s) (ltb s ecdsa_order) range in
      let (left2, s_pos) = both_true (leb 1 r && ltb r ecdsa_order) (leb 1 s) left in
      let (r_pos, r_below) = both_true (leb 1 r) (ltb r ecdsa_order) left2 in
      record {
        r = r;
        s = s;
        r_is = refl;
        s_is = refl;
        curve = curve;
        r_in_range = (leb→le 1 r r_pos, ltb→lt r ecdsa_order r_below);
        s_is_low = (leb→le 1 s s_pos, leb→le s ecdsa_half_order low);
        verified = guard-true (crypto.ecdsa_verify key r s material) signature_invalid u e3;
      }

  module _ {F : Type 0} where
    decode_signature-ok :
        (encoded : Value F) (raw : Bytes)
        → decode_signature crypto sha256_hexdigest encoded ≡ ok raw
        → (text : Text) × (encoded ≡ str text)
          × (crypto.b64decode text ≡ some raw)
          × (length raw ≡ 64)
    unfolding decode_signature
    decode_signature-ok (str text) raw e =
        let (_, e1) = guard->>-ok (is_signature_text text) signature_base64 _ e in
        let (bytes, h2, e2) = >>=-eq-ok (required (crypto.b64decode text) signature_base64) _ e1 in
        let (exact, e3) =
          guard->>-ok ((length bytes == 64) && text_eq (crypto.b64encode bytes) text)
            signature_base64 _ e2 in
        let found : bytes ≡ raw = ok_inj e3 in
        let (size, _) =
          both_true (length bytes == 64) (text_eq (crypto.b64encode bytes) text) exact in
        let long : length bytes ≡ 64 = ground (arith, size) in
        (
          text,
          refl,
          required-ok _ signature_base64 bytes h2 ∙ ap some found,
          ap length (sym found) ∙ long,
        )
    decode_signature-ok null raw e = absurd (cc)
    decode_signature-ok (bool b) raw e = absurd (cc)
    decode_signature-ok (int n) raw e = absurd (cc)
    decode_signature-ok (float x) raw e = absurd (cc)
    decode_signature-ok (ref a) raw e = absurd (cc)
    decode_signature-ok foreign raw e = absurd (cc)

    pub verify_signature-IsVerified :
        (key : crypto.PublicKey) (algorithm : Text) (material : Bytes) (encoded : Value F)
        (u : Unit {0})
        → verify_signature crypto sha256_hexdigest key (str algorithm) material encoded ≡ ok u
        → (text : Text) × (encoded ≡ str text) × IsVerified key algorithm material text
    unfolding verify_signature
    verify_signature-IsVerified key algorithm material encoded u e =
        let (known, e1) =
          guard->>-ok (text_eq algorithm ed25519 || text_eq algorithm ecdsa_p256) unknown_algorithm
            _ e in
        let (raw, h2, e2) = >>=-eq-ok (decode_signature crypto sha256_hexdigest encoded) _ e1 in
        let (text, is_text, decoded, size) = decode_signature-ok encoded raw h2 in
        (
          text,
          is_text,
          elim (Bool-cases (text_eq algorithm ed25519)) [
            | inl pure_key ↦
                let (kind, e3) =
                  guard->>-ok (crypto.is_ed25519 key) key_algorithm _ (rw pure_key at e2) in
                let verified =
                  guard-true (crypto.ed25519_verify key raw material) signature_invalid u e3 in
                record {
                  raw = raw;
                  decoded = decoded;
                  size = size;
                  accepted = inl (text_eq_sound algorithm ed25519 pure_key, kind, verified);
                }
            | inr other ↦ record {
              raw = raw;
              decoded = decoded;
              size = size;
              accepted = inr (
                text_eq_sound algorithm ecdsa_p256 (rw other at known),
                verify_ecdsa-IsEcdsa key material raw u (rw other at e2),
              );
            }
          ],
        )
