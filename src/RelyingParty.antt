-- ===== src/RelyingParty.antt =====
-- traigent_schema/certification/relying_party_verifier.py: the public keys and signatures that the
-- certification verifiers share. The rest of the verifier is not modelled.
pub mod Signature
pub mod Verified

-- the codes of `RelyingPartyVerificationError` that these checks use
pub data RelyingPartyError : Type 0 where
  materials_key : RelyingPartyError
  unknown_algorithm : RelyingPartyError
  signature_base64 : RelyingPartyError
  key_algorithm : RelyingPartyError
  signature_scalar : RelyingPartyError
  signature_high_s : RelyingPartyError
  signature_invalid : RelyingPartyError
