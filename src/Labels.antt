-- ===== src/Labels.antt =====
-- scripts/labels_reference.py: the reference of the label service. `Padding` and `Envelope` hold the
-- two byte formats, `Hpke` the RFC 9180 schedule over the primitives of the cryptography package.
pub mod Padding
pub mod Envelope
pub mod Hpke

-- `LabelCryptoError`, and every other exception: of `bytes`, `struct`, a lookup or the X25519 exchange
pub data LabelError : Type 0 where
  crypto_error value_error : LabelError
