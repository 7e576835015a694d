-- ===== src/Labels/Envelope.antt =====
-- `pack_envelope` and `unpack_envelope`: version, key epoch, encapsulated key and ciphertext.
use traigent_schema.Prelude.{
  ℕ, ◌≤◌, ◌≡◌, refl, sym, ap, ◌∙◌, false, not, ◌&&◌, append_assoc, [], ◌∷◌, ◌++◌, arith, ltb, ◌==◌,
  if◌then◌else◌, length, take, drop, take-append, drop-append, length-append, Bool-cases, inl, inr,
}
use traigent_schema.Python.Result.{Result, ok, err, ok_inj}
use traigent_schema.Python.BigEndian.{be_bytes, of_be, length-be_bytes, of_be-be_bytes}
use traigent_schema.Merkle.{Bytes}
use traigent_schema.Labels.{LabelError, crypto_error, value_error}

abbrev pub label_version : ℕ
label_version = 1

-- 1 + 4 + 32 + 16 + min(BUCKETS)
abbrev pub min_envelope : ℕ
min_envelope = 85

-- `bytes([version])` wants a byte and `struct.pack(">I", epoch)` 32 bits
unfoldable pub pack_envelope : ℕ → ℕ → Bytes → Bytes → Result LabelError Bytes
unfolding be_bytes
pack_envelope version epoch enc ciphertext =
    if ltb version 256 && ltb epoch 0x100000000
    then ok (version ∷ (be_bytes 4 epoch ++ (enc ++ ciphertext)))
    else err value_error

pub record Envelope : Type 0 where
  pub version : ℕ
  pub epoch : ℕ
  pub enc : Bytes
  pub ciphertext : Bytes

abbrev pub fields : Bytes → Result LabelError Envelope
fields [] = err crypto_error
fields (version ∷ blob) =
    if not (version == label_version)
    then err crypto_error
    else ok (record {
      version = version;
      epoch = of_be 0 (take 4 blob);
      enc = take 32 (drop 4 blob);
      ciphertext = drop 36 blob;
    })

unfoldable pub unpack_envelope : Bytes → Result LabelError Envelope
unfolding of_be
unpack_envelope blob = if ltb (length blob) min_envelope then err crypto_error else fields blob

unpacked :
    (epoch : ℕ) (enc ciphertext : Bytes)
    → length (be_bytes 4 epoch) ≡ 4
    → of_be 0 (be_bytes 4 epoch) ≡ epoch
    → length enc ≡ 32
    → 48 ≤ length ciphertext
    → unpack_envelope (label_version ∷ (be_bytes 4 epoch ++ (enc ++ ciphertext)))
      ≡ ok (record { version = label_version; epoch = epoch; enc = enc; ciphertext = ciphertext })
unfolding unpack_envelope
unpacked epoch enc ciphertext width back size enough =
    let key : Bytes = be_bytes 4 epoch in
    let long : ltb (length (label_version ∷ (key ++ (enc ++ ciphertext)))) min_envelope ≡ false =
      ground (
        arith,
        length-append key (enc ++ ciphertext),
        length-append enc ciphertext,
        width,
        size,
        enough,
      ) in
    let first : take 4 (key ++ (enc ++ ciphertext)) ≡ key =
      take-append 4 key (enc ++ ciphertext) width in
    let rest : drop 4 (key ++ (enc ++ ciphertext)) ≡ enc ++ ciphertext =
      drop-append 4 key (enc ++ ciphertext) width in
    let middle : take 32 (enc ++ ciphertext) ≡ enc = take-append 32 enc ciphertext size in
    let last : drop 36 (key ++ (enc ++ ciphertext)) ≡ ciphertext =
      ap (drop 36) (sym (append_assoc key enc ciphertext))
      ∙ drop-append 36 (key ++ enc) ciphertext
          (omega (arith, length-append key enc, width, size)) in
    rw (long, first, rest, middle, last, back) refl

-- An envelope that `pack_envelope` makes of version 1, a 32-byte key and at least 48 bytes of
-- ciphertext is one that `unpack_envelope` splits into the same four fields.
pub unpack_envelope-pack_envelope :
    (epoch : ℕ) (enc ciphertext blob : Bytes)
    → pack_envelope label_version epoch enc ciphertext ≡ ok blob
    → length enc ≡ 32
    → 48 ≤ length ciphertext
    → unpack_envelope blob
      ≡ ok (record { version = label_version; epoch = epoch; enc = enc; ciphertext = ciphertext })
unfolding pack_envelope unpack_envelope
unpack_envelope-pack_envelope epoch enc ciphertext blob e size enough =
    elim (Bool-cases (ltb epoch 0x100000000)) [
      | inr large ↦ absurd (ground (arith, large, e))
      | inl fits ↦
          let built : label_version ∷ (be_bytes 4 epoch ++ (enc ++ ciphertext)) ≡ blob =
            ok_inj (rw fits at e) in
          ap unpack_envelope (sym built)
          ∙ unpacked epoch enc ciphertext (length-be_bytes 4 epoch)
              (of_be-be_bytes 4 epoch (ground (arith, fits))) size enough
    ]
