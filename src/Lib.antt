-- ===== src/Lib.antt =====
-- Verification library of traigent_schema, the package of schemas and of the deterministic
-- identities that the Traigent SDKs share.
--
-- The program's parts and the files that model them:
--
-- - traigent_schema/fp2.py: Fp2.antt holds the work-stack loop of `_encode` and `canonicalize`,
--   Fp2/Scalar.antt the encoders of strings, ints and floats,
--   Fp2/Digest.antt `digest`. `canonicalize` is called by the two
--   digest modules below.
-- - traigent_schema/best_config_profile.py: BestConfig.antt holds `_prevalidate`, `_canonical_bytes` and
--   `_domain_digest`, BestConfig/Contract.antt the contract constants, BestConfig/Separate.antt
--   `config_digest` and `spec_digest`, BestConfig/Decode.antt the integer and duplicate-key hooks of `loads_strict`.
-- - traigent_schema/invariants.py: Invariants/Pointer.antt holds JSON pointers, Invariants/Compare.antt
--   `_prevalidate_canonical` and `_compare_validated`, Invariants.antt the three relations and
--   `validate_declared_invariants`. Escape.antt, Bound.antt, Holds.antt and Report.antt there hold proofs.
-- - traigent_schema/example_identity.py: Merkle.antt and Merkle/Split.antt hold the RFC 9162 tree and its
--   audit paths; ContentIdentity/Identifier.antt the identifier patterns, ContentIdentity/Multiset.antt
--   `MultisetMember`, `_normalize` and `compute_multiset_root`, ContentIdentity/Proof.antt the inclusion
--   proofs, ContentIdentity/Relations.antt `is_sub_multiset` and `example_id_overlap`,
--   ContentIdentity/Payload.antt the payloads and `project_sdk_example`, ContentIdentity/Hkdf.antt
--   `hkdf_sha256`, ContentIdentity/Keys.antt `derive_tenant_keys`. Members.antt, Verify.antt, Sound.antt and
--   SubMultiset.antt there hold proofs.
--
-- - traigent_schema/certification/commitment_linkage.py: CommitmentLinkage/Commitment.antt holds `compute_commitment`,
--   Context.antt the pinned expectations, Sidecar.antt what `_verify` reads, Verify.antt
--   `verify_commitment_linkage`, Open.antt `_open_commitment` and `verify_and_open_commitment`. It calls
--   `canonicalize` of Fp2.antt and the keys and signatures of
--   traigent_schema/certification/relying_party_verifier.py, RelyingParty/Signature.antt. Framing.antt, Binding.antt, Authentic.antt,
--   Opened.antt, Accepted.antt, Rebinding.antt, Opening.antt and Reopening.antt there, and RelyingParty/Verified.antt, hold proofs.
-- - traigent_schema/certification/agent_quality_verifier.py: AgentQuality.antt holds the quantile lookup, the Wilson
--   interval, the Student-t half-width and the split-size bound; Unique.antt there holds `_unique_by`, its keys
--   being texts. Bisection.antt, Parabola.antt, Wilson.antt, Quantile.antt and
--   HalfWidth.antt there hold proofs.
-- - scripts/breaking_schema_check.py: BreakingCheck.antt holds findings and their routing by role, BreakingCheck/Keywords.antt
--   the comparison of one keyword at a time, BreakingCheck/Roles.antt `propagate_roles` and `classify_file_role`;
--   Constraint.antt there describes what the keywords demand of an instance, Directions.antt, Bounds.antt,
--   Closedness.antt, EnumExact.antt, Sound.antt, RoleSets.antt, Spread.antt, Settled.antt, Growth.antt, Propagated.antt and Classified.antt hold proofs.
-- - scripts/labels_reference.py: Labels/Padding.antt holds `pad` and `unpad`, Labels/Envelope.antt the envelope bytes,
--   Labels/Hpke.antt HKDF and `hpke_seal` and `hpke_open`. Python/BigEndian.antt holds the big-endian bytes.
--
-- A parsed value is a scalar or the identity of a container in a heap (Python/Object.antt), so that
-- cyclic and shared graphs exist in the model; a type that is not one of the exact built-ins is
-- `foreign`. Texts are lists of code points, bytes lists of numbers. An exception is the error of a
-- `Result`. The loops `while work` are `drain` of Python/Worklist.antt, on fuel: `none` means that the
-- fuel ran out. The termination results below give fuel that is enough. `expand` of HKDF runs on one
-- round more than the bytes asked for. `skip_levels` and `split_loop`
-- run on fuel that is their own argument, which halving and doubling cannot exceed. The list of a
-- multiset leaf is encoded with 8 rounds: the root and the 7 entries that it pushes.
--
-- The Wilson searches halve a range of at most a million 20 times. `isqrt` runs on its argument as fuel, which
-- quartering cannot exceed. `propagate_roles` runs on one unit of fuel per pass; the result below gives fuel
-- that is enough. HKDF of the labels makes the 255 rounds that its counter byte allows.
--
-- Parameters stand for code outside the repository: CPython's float operations (`Floats`), SHA-256
-- (`sha256`, `sha256_hexdigest`), HMAC, the keys, curves and AEADs of the cryptography package (`Crypto`,
-- `Primitives`), base64, and jsonschema's verdict on an envelope. Not modelled: reading package resources, json.loads, jsonschema, the
-- wording of error messages, the record, dataset, evaluator and relying-party verifiers beyond keys and
-- signatures, the stages of the agent-quality verifier, the recursion of the breaking-change check over
-- members and references, the bindings and wraps of labels, and the other scripts; the digests of agent builds
-- and evaluators, and the identifiers that HMAC derives from a payload.
pub mod Prelude
pub mod Python
pub mod Fp2
pub mod BestConfig
pub mod Invariants
pub mod Merkle
pub mod ContentIdentity
pub mod Labels
pub mod RelyingParty
pub mod CommitmentLinkage
pub mod BreakingCheck
pub mod AgentQuality
pub mod Tests
