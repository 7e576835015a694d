-- ===== src/RelyingParty/Signature.antt =====
-- `_material_public_key`, `_decode_signature` and `_verify_signature`. The cryptography package's
-- keys and the decoder of the base64 module are parameters.
use traigent_schema.Prelude.{
  ℕ, ◌/◌, Bool, ◌&&◌, ◌||◌, not, Option, none, some, ◌∷◌, ◌++◌, ltb, leb, ◌==◌, if◌then◌else◌,
  length, take, drop,
}
use traigent_schema.Python.Result.{Result, ok, err, ◌>>=◌, ◌>>◌, guard}
use traigent_schema.Python.Text.{Text, codes, text_eq, is_ascii, all_in}
use traigent_schema.Python.BigEndian.{of_be}
use traigent_schema.Python.Object.{Value, str}
use traigent_schema.Merkle.{Bytes}
use traigent_schema.RelyingParty.{
  RelyingPartyError, materials_key, unknown_algorithm, signature_base64, key_algorithm,
  signature_scalar, signature_high_s, signature_invalid,
}

pub record Crypto : Type 1 where
  pub PublicKey : Type 0
  -- base64.b64decode(validate=True) of ASCII text and base64.b64encode
  pub b64decode : Text → Option Bytes
  pub b64encode : Bytes → Text
  -- serialization.load_der_public_key, and the key's SubjectPublicKeyInfo
  pub load_der : Bytes → Option PublicKey
  pub spki : PublicKey → Bytes
  pub is_ed25519 : PublicKey → Bool
  -- an elliptic-curve key on SECP256R1
  pub is_p256 : PublicKey → Bool
  pub ed25519_verify : PublicKey → (raw material : Bytes) → Bool
  pub ecdsa_verify : PublicKey → (r s : ℕ) → (material : Bytes) → Bool

-- the projection that `_material_public_key` reads
pub record Material : Type 0 where
  pub public_key_der_b64 : Text
  pub public_key_digest : Text
  pub algorithm : Text

abbrev pub ed25519 : Text
ed25519 = codes "ed25519"

abbrev pub ecdsa_p256 : Text
ecdsa_p256 = codes "ecdsa_p256_sha256"

abbrev pub ecdsa_order : ℕ
ecdsa_order = 0xFFFFFFFF00000000FFFFFFFFFFFFFFFFBCE6FAADA7179E84F3B9CAC2FC632551

abbrev pub ecdsa_half_order : ℕ
ecdsa_half_order = ecdsa_order / 2

-- [A-Za-z0-9+/]
abbrev pub is_base64 : ℕ → Bool
is_base64 c =
    (leb b'A' c && leb c b'Z')
    || (leb b'a' c && leb c b'z')
    || (leb b'0' c && leb c b'9')
    || (c == b'+')
    || (c == b'/')

-- [A-Za-z0-9+/]{86}==
unfoldable pub is_signature_text : Text → Bool
unfolding all_in
is_signature_text s =
    (length s == 88) && all_in is_base64 (take 86 s) && text_eq (drop 86 s) (codes "==")

abbrev pub required {ℓ} : {A : Type ℓ} → Option A → RelyingPartyError → Result RelyingPartyError A
required none raised = err raised
required (some a) raised = ok a

module _ (crypto : Crypto) (sha256_hexdigest : Bytes → Text) where
  open crypto use {
    PublicKey, b64decode, b64encode, load_der, spki, is_ed25519, is_p256, ed25519_verify,
    ecdsa_verify,
  }

  unfoldable pub material_public_key : Material → Bytes → Result RelyingPartyError PublicKey
  unfolding is_ascii
  material_public_key projection digest_domain = do
    guard (is_ascii projection.public_key_der_b64) materials_key
    der ← required (b64decode projection.public_key_der_b64) materials_key
    guard (text_eq (b64encode der) projection.public_key_der_b64) materials_key
    key ← required (load_der der) materials_key
    guard (text_eq (spki key) der) materials_key
    guard
        (text_eq projection.public_key_digest
          (codes "sha256:" ++ sha256_hexdigest (digest_domain ++ 0 ∷ der)))
        materials_key
    guard (not (text_eq projection.algorithm ed25519 && not (is_ed25519 key))) materials_key
    guard (not (text_eq projection.algorithm ecdsa_p256 && not (is_p256 key))) materials_key
    ok key

  unfoldable pub verify_ecdsa : PublicKey → Bytes → Bytes → Result RelyingPartyError (Unit {0})
  unfolding of_be
  verify_ecdsa key material raw = do
    guard (is_p256 key) key_algorithm
    let r = of_be 0 (take 32 raw)
    let s = of_be 0 (drop 32 raw)
    guard (leb 1 r && ltb r ecdsa_order && leb 1 s && ltb s ecdsa_order) signature_scalar
    guard (leb s ecdsa_half_order) signature_high_s
    guard (ecdsa_verify key r s material) signature_invalid

  module _ {F : Type 0} where
    unfoldable pub decode_signature : Value F → Result RelyingPartyError Bytes
    unfolding is_signature_text
    decode_signature (str encoded) = do
      guard (is_signature_text encoded) signature_base64
      raw ← required (b64decode encoded) signature_base64
      guard ((length raw == 64) && text_eq (b64encode raw) encoded) signature_base64
      ok raw
    decode_signature _ = err signature_base64

    unfoldable pub verify_signature :
        PublicKey → Value F → Bytes → Value F → Result RelyingPartyError (Unit {0})
    unfolding decode_signature verify_ecdsa
    verify_signature key (str algorithm) material encoded = do
      guard (text_eq algorithm ed25519 || text_eq algorithm ecdsa_p256) unknown_algorithm
      raw ← decode_signature encoded
      let pure_verify =
          guard (is_ed25519 key) key_algorithm
          >> guard (ed25519_verify key raw material) signature_invalid
      if text_eq algorithm ed25519 then pure_verify else verify_ecdsa key material raw
    verify_signature key _ material encoded = err unknown_algorithm
