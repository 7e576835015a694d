-- ===== src/ContentIdentity/Keys.antt =====
-- `derive_tenant_keys`: the key id and the two secret keys of a tenant, derived by HKDF.
use traigent_schema.Prelude.{
  ℕ, ◌*◌, ◌<◌, ◌≤◌, ◌≡◌, refl, Bool, true, ◌&&◌, ◌||◌, Option, some, [], ◌∷◌, ◌++◌, arith, leb,
  ◌==◌, length, All,
}
use traigent_schema.Python.Result.{Result, ok, err, ◌>>=◌, ◌>>◌, guard}
use traigent_schema.Python.Text.{Text, codes, utf8}
use traigent_schema.Merkle.{Bytes}
use traigent_schema.ContentIdentity.Identifier.{
  IdentityError, content_identity_error, is_key_id, hex, all_hex-hex, length-hex, IsByte,
}
use traigent_schema.ContentIdentity.Verify.{IsDigest}
use traigent_schema.ContentIdentity.Hkdf.{HkdfError, hkdf_sha256, length-hkdf_sha256}

-- [A-Za-z0-9_-]
abbrev pub is_tenant_char : ℕ → Bool
is_tenant_char c =
    (leb b'A' c && leb c b'Z')
    || ((leb b'a' c && leb c b'z') || ((leb b'0' c && leb c b'9') || ((c == b'_') || (c == b'-'))))

abbrev pub all_tenant_chars : Text → Bool
all_tenant_chars [] = true
all_tenant_chars (c ∷ s) = is_tenant_char c && all_tenant_chars s

-- `_TENANT_ID_RE.fullmatch`
unfoldable pub is_tenant_id : Text → Bool
is_tenant_id s = leb 1 (length s) && leb (length s) 128 && all_tenant_chars s

-- the tenant id is ASCII, so its encoding is its code points
unfoldable pub hkdf_info : Text → Text → Result IdentityError Bytes
unfolding is_tenant_id
hkdf_info domain tenant_id = do
  guard (is_tenant_id tenant_id) content_identity_error
  ok (utf8 domain ++ 0 ∷ tenant_id)

pub record TenantIdentityKeys : Type 0 where
  pub key_id : Text
  pub example_id_key : Bytes
  pub example_version_key : Bytes

abbrev pub hkdf_salt : Bytes
hkdf_salt = codes "traigent.content_identity.v1"

abbrev pub domain_example_id : Text
domain_example_id = codes "traigent.content_identity.example_id.v1"

abbrev pub domain_example_version : Text
domain_example_version = codes "traigent.content_identity.example_version.v1"

abbrev pub domain_key_id : Text
domain_key_id = codes "traigent.content_identity.key_id.v1"

module _ (hmac : Bytes → Bytes → Bytes) where
  -- no length that is asked for here fails in HKDF
  abbrev pub derived : Option (Result HkdfError Bytes) → Result IdentityError Bytes
  derived (some (ok out)) = ok out
  derived r = err content_identity_error

  unfoldable pub expand_for : Bytes → Text → Text → ℕ → Result IdentityError Bytes
  unfolding hkdf_info
  expand_for ikm tenant_id domain n = do
    info ← hkdf_info domain tenant_id
    derived (hkdf_sha256 hmac ikm hkdf_salt info n)

  unfoldable pub derive_tenant_keys : Bytes → Text → Result IdentityError TenantIdentityKeys
  derive_tenant_keys tenant_master tenant_id = do
    guard (length tenant_master == 32) content_identity_error
    valid ← hkdf_info domain_key_id tenant_id
    kid ← expand_for tenant_master tenant_id domain_key_id 8
    id_key ← expand_for tenant_master tenant_id domain_example_id 32
    version_key ← expand_for tenant_master tenant_id domain_example_version 32
    ok (record {
      key_id = b'k' ∷ hex kid;
      example_id_key = id_key;
      example_version_key = version_key;
    })

  derive_tenant_keys-expand_for :
      (master : Bytes) (tenant_id : Text) (info kid a b : Bytes)
      → length master ≡ 32
      → hkdf_info domain_key_id tenant_id ≡ ok info
      → expand_for master tenant_id domain_key_id 8 ≡ ok kid
      → expand_for master tenant_id domain_example_id 32 ≡ ok a
      → expand_for master tenant_id domain_example_version 32 ≡ ok b
      → derive_tenant_keys master tenant_id
        ≡ ok (record { key_id = b'k' ∷ hex kid; example_id_key = a; example_version_key = b })
  unfolding derive_tenant_keys
  derive_tenant_keys-expand_for master tenant_id info kid a b size ei ek ea eb =
      rw (size, ei, ek, ea, eb) refl

  module _ (mac_size : (key message : Bytes) → IsDigest (hmac key message)) where
    hkdf_info-ok :
        (domain tenant_id : Text)
        → is_tenant_id tenant_id ≡ true
        → (info : Bytes) × (hkdf_info domain tenant_id ≡ ok info)
    unfolding hkdf_info
    hkdf_info-ok domain tenant_id valid = (utf8 domain ++ 0 ∷ tenant_id, rw valid refl)

    expand_for-bytes :
        (ikm : Bytes) (tenant_id domain : Text) (n : ℕ)
        → is_tenant_id tenant_id ≡ true
        → 0 < n
        → n ≤ 255 * 32
        → (out : Bytes) × (expand_for ikm tenant_id domain n ≡ ok out)
          × (length out ≡ n)
          × All IsByte out
    unfolding expand_for
    expand_for-bytes ikm tenant_id domain n valid h k =
        let (out, e, l, b) =
          length-hkdf_sha256 hmac mac_size ikm hkdf_salt (utf8 domain ++ 0 ∷ tenant_id) n h k in
        (out, rw (valid, e) refl, l, b)

    -- With 32-byte MACs, `derive_tenant_keys` returns keys for every master secret of 32 bytes and
    -- every well-formed tenant id: the key id has the form that identifiers carry, and each of the
    -- two keys has 32 bytes.
    pub derive_tenant_keys-is_key_id :
        (tenant_master : Bytes) (tenant_id : Text)
        → length tenant_master ≡ 32
        → is_tenant_id tenant_id ≡ true
        → (keys : TenantIdentityKeys) × (derive_tenant_keys tenant_master tenant_id ≡ ok keys)
          × (is_key_id keys.key_id ≡ true)
          × (length keys.example_id_key ≡ 32)
          × (length keys.example_version_key ≡ 32)
    unfolding is_key_id
    derive_tenant_keys-is_key_id tenant_master tenant_id size valid =
        let (kid, ek, lk, bk) =
          expand_for-bytes tenant_master tenant_id domain_key_id 8 valid (omega arith)
            (omega arith) in
        let (a, ea, la, ba) =
          expand_for-bytes tenant_master tenant_id domain_example_id 32 valid (omega arith)
            (omega arith) in
        let (b, eb, lb, bb) =
          expand_for-bytes tenant_master tenant_id domain_example_version 32 valid (omega arith)
            (omega arith) in
        let (info, ei) = hkdf_info-ok domain_key_id tenant_id valid in
        let long : length (hex kid) ≡ 16 = omega (arith, length-hex kid, lk) in
        (
          record { key_id = b'k' ∷ hex kid; example_id_key = a; example_version_key = b },
          derive_tenant_keys-expand_for tenant_master tenant_id info kid a b size ei ek ea eb,
          rw (long, all_hex-hex kid bk) refl,
          la,
          lb,
        )
