-- ===== src/Tests/Contract.antt =====
-- The theorem on config and spec digests, under a digest that is constant.
use traigent_schema.Prelude.{ℕ, ◌≡◌, refl, true, some, List, [], ◌∷◌, arith}
use traigent_schema.Python.Result.{ok}
use traigent_schema.Python.Text.{Text, codes, utf8, ends_with}
use traigent_schema.Python.Int.{ℤ, pos}
use traigent_schema.Python.Object.{null, bool, int, str, ref, list, Heap}
use traigent_schema.Fp2.{canonicalize}
use traigent_schema.BestConfig.{domain_digest, canonical_bytes, after_prevalidation, prevalidate}
use traigent_schema.BestConfig.Contract.{Contract, load_contract}
use traigent_schema.BestConfig.Digest.{Collision}
use traigent_schema.BestConfig.Separate.{config_digest, spec_digest, config_digest-spec_digest}
use traigent_schema.Tests.{whole}

abbrev constant : List ℕ → Text
constant x = codes "0"

abbrev tag_heap : Heap ℤ
tag_heap a = list (str (codes "t.config.v1") ∷ str (codes "t.spec.v1") ∷ [])

abbrev contract : Contract
contract = record {
  max_canonical_spec_bytes = 64;
  max_depth = 100;
  config_tag = codes "t.config.v1";
  spec_tag = codes "t.spec.v1";
}

contract_run : load_contract tag_heap (int (pos 64)) (int (pos 100)) (ref 0) ≡ ok contract
unfolding load_contract ends_with
contract_run = refl

config_run : config_digest whole tag_heap constant contract 4 null ≡ some (ok (codes "sha256:0"))
unfolding config_digest domain_digest canonical_bytes after_prevalidation prevalidate canonicalize
    utf8
config_run = refl

spec_run : spec_digest whole tag_heap constant contract 4 (bool true) ≡ some (ok (codes "sha256:0"))
unfolding spec_digest domain_digest canonical_bytes after_prevalidation prevalidate canonicalize
    utf8
spec_run = refl

config_digest-spec_digest_example : Collision whole tag_heap constant
config_digest-spec_digest_example =
    config_digest-spec_digest whole tag_heap tag_heap constant (int (pos 64)) (int (pos 100))
      (ref 0) contract 4 4 null (bool true) (codes "sha256:0") contract_run (ground arith)
      (ground arith) config_run spec_run
