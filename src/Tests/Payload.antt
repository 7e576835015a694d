-- ===== src/Tests/Payload.antt =====
-- The theorems on payloads and key derivation at concrete inputs.
use traigent_schema.Prelude.{◌+◌, ◌≡◌, refl, none, some, [], ◌∷◌, arith, length, replicate}
use traigent_schema.Python.Result.{ok}
use traigent_schema.Python.Text.{codes, text_mem}
use traigent_schema.Python.Int.{ℤ, pos}
use traigent_schema.Python.Object.{null, int, str, ref, str_key, dict, Heap}
use traigent_schema.Merkle.{Bytes}
use traigent_schema.ContentIdentity.Payload.{
  Items, mapping, ExampleProjection, project_sdk_example, check_metadata,
  check_metadata-project_sdk_example,
}
use traigent_schema.ContentIdentity.Identifier.{IsByte}
use traigent_schema.ContentIdentity.Verify.{IsDigest}
use traigent_schema.Prelude.{ℕ, zero, suc, ◌<◌, ◌%◌, All}
use traigent_schema.Prelude.{true}
use traigent_schema.ContentIdentity.Identifier.{is_key_id}
use traigent_schema.ContentIdentity.Keys.{
  TenantIdentityKeys, is_tenant_id, derive_tenant_keys, derive_tenant_keys-is_key_id,
}
use traigent_schema.ContentIdentity.Hkdf.{hkdf_sha256, length-hkdf_sha256}

abbrev kept : Items ℤ
kept = (str_key (codes "topic"), str (codes "maths")) ∷ []

abbrev row : Items ℤ
row =
    (str_key (codes "context"), int (pos 7))
    ∷ (str_key (codes "topic"), str (codes "maths"))
    ∷ (str_key (codes "tags"), null)
    ∷ []

abbrev projected : ExampleProjection ℤ
projected = record {
  input = int (pos 1);
  context = some (int (pos 7));
  expected = none;
  metadata = some kept;
}

abbrev kept_heap : Heap ℤ
kept_heap a = dict kept

project_run : project_sdk_example (int (pos 1)) (some null) (mapping row) ≡ ok projected
unfolding project_sdk_example text_mem
project_run = refl

check_metadata-project_sdk_example_example :
    check_metadata kept_heap (some (ref 3)) ≡ ok (some (ref 3))
check_metadata-project_sdk_example_example =
    check_metadata-project_sdk_example kept_heap (int (pos 1)) (some null) (mapping row) projected
      kept 3 project_run refl refl

-- a MAC of 32 bytes
abbrev mac : Bytes → Bytes → Bytes
mac key message = replicate 32 ((length key + length message) % 256)

replicate-IsByte : (n b : ℕ) → b < 256 → All IsByte (replicate n b)
replicate-IsByte zero b h = tt
replicate-IsByte (suc n) b h = (h, replicate-IsByte n b h)

mac_size : (key message : Bytes) → IsDigest (mac key message)
mac_size key message = (refl, replicate-IsByte 32 _ (omega arith))

length-hkdf_sha256_example :
    (out : Bytes) × (hkdf_sha256 mac (1 ∷ []) (2 ∷ []) (3 ∷ []) 40 ≡ some (ok out))
    × (length out ≡ 40)
    × All IsByte out
length-hkdf_sha256_example =
    length-hkdf_sha256 mac mac_size (1 ∷ []) (2 ∷ []) (3 ∷ []) 40 (omega arith) (omega arith)

tenant_run : is_tenant_id (codes "tenant_1") ≡ true
unfolding is_tenant_id
tenant_run = refl

derive_tenant_keys-is_key_id_example :
    (keys : TenantIdentityKeys) × (derive_tenant_keys mac (replicate 32 9) (codes "tenant_1")
      ≡ ok keys)
    × (is_key_id keys.key_id ≡ true)
    × (length keys.example_id_key ≡ 32)
    × (length keys.example_version_key ≡ 32)
derive_tenant_keys-is_key_id_example =
    derive_tenant_keys-is_key_id mac mac_size (replicate 32 9) (codes "tenant_1") refl tenant_run
