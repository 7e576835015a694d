-- ===== src/CommitmentLinkage.antt =====
-- traigent_schema/certification/commitment_linkage.py: the commitment function and the offline
-- reader of the commitment-linkage sidecar.
pub mod Commitment
pub mod Framing
pub mod Binding
pub mod Context
pub mod Sidecar
pub mod Verify
pub mod Open
pub mod Authentic
pub mod Opened
pub mod Accepted
pub mod Rebinding
pub mod Opening
pub mod Reopening

-- the codes of `CommitmentLinkageError`; `uncaught` is an exception of another class that leaves the
-- module
pub data LinkageError : Type 0 where
  context_error : LinkageError
  envelope_shape : LinkageError
  schema_error : LinkageError
  canonicalization : LinkageError
  unsigned_linkage_digest_mismatch : LinkageError
  key_mismatch : LinkageError
  key_material : LinkageError
  signature_rejected : LinkageError
  record_binding_mismatch : LinkageError
  scope_mismatch : LinkageError
  duplicate_role : LinkageError
  opening_shape : LinkageError
  fingerprint_shape : LinkageError
  role_shape : LinkageError
  verification_failed : LinkageError
  uncaught : LinkageError
