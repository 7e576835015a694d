-- ===== src/ContentIdentity.antt =====
-- traigent_schema/example_identity.py: keyed identifiers of examples, order-free multiset roots and
-- their inclusion proofs. The Merkle tree itself is the module `Merkle`.
pub mod Identifier
pub mod Multiset
pub mod Proof
pub mod Members
pub mod Verify
pub mod Sound
pub mod Relations
pub mod SubMultiset
pub mod Payload
pub mod Hkdf
pub mod Keys
