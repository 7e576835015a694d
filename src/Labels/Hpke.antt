-- ===== src/Labels/Hpke.antt =====
-- RFC 9180 base mode: `hkdf_extract`, `hkdf_expand`, the labelled functions, `derive_keypair`,
-- `hpke_seal` and `hpke_open`. X25519, the AEADs and HMAC are the cryptography and hmac packages'.
use traigent_schema.Prelude.{
  ℕ, zero, suc, ◌-◌, ◌≡◌, sym, ap, ◌∙◌, Option, none, some, [], ◌∷◌, ◌++◌, ltb, ◌==◌, if◌then◌else◌,
  length, take, replicate,
}
use traigent_schema.Python.Result.{Result, ok, err, ok_inj, ◌>>=◌, >>=-eq-ok}
use traigent_schema.Python.Text.{codes, text_eq}
use traigent_schema.Python.BigEndian.{be_bytes}
use traigent_schema.Merkle.{Bytes}
use traigent_schema.Labels.{LabelError, crypto_error, value_error}

-- a private key is its raw bytes; `exchange` and `decrypt` are `none` where the package raises
pub record Primitives : Type 0 where
  pub hmac : Bytes → Bytes → Bytes
  pub raw_public : Bytes → Bytes
  pub exchange : Bytes → Bytes → Option Bytes
  pub encrypt : ℕ → (key nonce plaintext aad : Bytes) → Bytes
  pub decrypt : ℕ → (key nonce ciphertext aad : Bytes) → Option Bytes

-- what the packages document: both sides agree on a secret, and decryption undoes encryption
pub record IsSuite (p : Primitives) : Type 0 where
  pub agree : (a b : Bytes) → p.exchange a (p.raw_public b) ≡ p.exchange b (p.raw_public a)
  pub opens :
      (id : ℕ) (key nonce plaintext aad : Bytes)
      → p.decrypt id key nonce (p.encrypt id key nonce plaintext aad) aad ≡ some plaintext

abbrev pub aead_aes256 : ℕ
aead_aes256 = 2

-- `_AEAD[aead_id][0]`
unfoldable pub key_size : ℕ → Result LabelError ℕ
key_size id =
    if id == 1 then ok 16 else if id == 2 then ok 32 else if id == 3 then ok 32 else err value_error

abbrev pub kem_suite : Bytes
kem_suite = codes "KEM" ++ (0x00 ∷ 0x20 ∷ [])

module _ (p : Primitives) where
  open p use {hmac, raw_public, exchange, encrypt, decrypt}

  -- `salt or b"\x00" * 32`
  abbrev pub salt_or_zeros : Bytes → Bytes
  salt_or_zeros [] = replicate 32 0
  salt_or_zeros (b ∷ salt) = b ∷ salt

  unfoldable pub hkdf_extract : Bytes → Bytes → Bytes
  hkdf_extract salt ikm = hmac (salt_or_zeros salt) ikm

  -- the loop at counter `256 - left`; `bytes([256])` raises
  unfoldable pub expand_rounds :
      ℕ → (prk info : Bytes) (n : ℕ) (out block : Bytes) → Result LabelError Bytes
  expand_rounds zero prk info n out block =
      if ltb (length out) n then err value_error else ok (take n out)
  expand_rounds (suc left) prk info n out block =
      let next = hmac prk (block ++ info ++ (256 - suc left) ∷ []) in
      let rest = expand_rounds left prk info n (out ++ next) next in
      if ltb (length out) n then rest else ok (take n out)

  unfoldable pub hkdf_expand : Bytes → Bytes → ℕ → Result LabelError Bytes
  unfolding expand_rounds
  hkdf_expand prk info n = expand_rounds 255 prk info n [] []

  unfoldable pub hkdf : (ikm info : Bytes) (n : ℕ) (salt : Bytes) → Result LabelError Bytes
  unfolding hkdf_extract hkdf_expand
  hkdf ikm info n salt = hkdf_expand (hkdf_extract salt ikm) info n

  -- `_le` and `_lx`
  unfoldable pub labeled_expand : (suite prk label info : Bytes) → ℕ → Result LabelError Bytes
  unfolding be_bytes hkdf_expand
  labeled_expand suite prk label info n =
      hkdf_expand prk (be_bytes 2 n ++ codes "HPKE-v1" ++ suite ++ label ++ info) n

  unfoldable pub labeled_extract : (suite salt label ikm : Bytes) → Bytes
  unfolding hkdf_extract
  labeled_extract suite salt label ikm =
      hkdf_extract salt (codes "HPKE-v1" ++ suite ++ label ++ ikm)

  unfoldable pub derive_keypair : Bytes → Result LabelError (Bytes × Bytes)
  unfolding labeled_extract labeled_expand
  derive_keypair ikm = do
    sk ←
        labeled_expand kem_suite (labeled_extract kem_suite [] (codes "dkp_prk") ikm) (codes "sk")
          [] 32
    ok (sk, raw_public sk)

  abbrev pub checked : Option Bytes → Result LabelError Bytes
  checked none = err value_error
  checked (some shared) = if text_eq shared (replicate 32 0) then err crypto_error else ok shared

  -- `_dh`
  unfoldable pub dh : Bytes → Bytes → Result LabelError Bytes
  dh sk pk = checked (exchange sk pk)

  unfoldable pub extract_and_expand : Bytes → Bytes → Result LabelError Bytes
  unfolding labeled_extract labeled_expand
  extract_and_expand shared context =
      labeled_expand kem_suite (labeled_extract kem_suite [] (codes "eae_prk") shared)
        (codes "shared_secret") context 32

  abbrev pub hpke_suite : ℕ → Bytes
  hpke_suite id = codes "HPKE" ++ be_bytes 2 0x20 ++ be_bytes 2 1 ++ be_bytes 2 id

  unfoldable pub key_schedule : ℕ → Bytes → Bytes → Result LabelError (Bytes × Bytes)
  unfolding key_size labeled_extract labeled_expand
  key_schedule id shared info = do
    nk ← key_size id
    let suite = hpke_suite id
    let psk_id_hash = labeled_extract suite [] (codes "psk_id_hash") []
    let info_hash = labeled_extract suite [] (codes "info_hash") info
    let context = 0 ∷ psk_id_hash ++ info_hash
    let secret = labeled_extract suite shared (codes "secret") []
    key ← labeled_expand suite secret (codes "key") context nk
    nonce ← labeled_expand suite secret (codes "base_nonce") context 12
    ok (key, nonce)

  -- the key and nonce of one message
  unfoldable pub message_keys :
      ℕ → (sk pk enc pk_r info : Bytes) → Result LabelError (Bytes × Bytes)
  unfolding dh extract_and_expand key_schedule
  message_keys id sk pk enc pk_r info = do
    d ← dh sk pk
    shared ← extract_and_expand d (enc ++ pk_r)
    key_schedule id shared info

  unfoldable pub hpke_seal :
      (pk_r info aad plaintext ikm_e : Bytes) → ℕ → Result LabelError (Bytes × Bytes)
  unfolding derive_keypair message_keys
  hpke_seal pk_r info aad plaintext ikm_e id = do
    pair ← derive_keypair ikm_e
    keys ← message_keys id pair.0 pk_r pair.1 pk_r info
    ok (pair.1, encrypt id keys.0 keys.1 plaintext aad)

  abbrev pub opened : Option Bytes → Result LabelError Bytes
  opened none = err crypto_error
  opened (some plaintext) = ok plaintext

  unfoldable pub hpke_open : (sk_r enc info aad ciphertext : Bytes) → ℕ → Result LabelError Bytes
  unfolding message_keys
  hpke_open sk_r enc info aad ciphertext id = do
    keys ← message_keys id sk_r enc enc (raw_public sk_r) info
    opened (decrypt id keys.0 keys.1 ciphertext aad)

  derive_keypair-raw_public :
      (ikm : Bytes) (pair : Bytes × Bytes)
      → derive_keypair ikm ≡ ok pair
      → pair.1 ≡ raw_public pair.0
  unfolding derive_keypair
  derive_keypair-raw_public ikm pair e =
      let (sk, h, built) =
        >>=-eq-ok
          (labeled_expand kem_suite (labeled_extract kem_suite [] (codes "dkp_prk") ikm)
            (codes "sk") [] 32)
          _ e in
      let same : ◌≡◌ {A = Bytes × Bytes} (sk, raw_public sk) pair = ok_inj built in
      sym (ap (λ q. q.1) same) ∙ ap raw_public (ap (λ q. q.0) same)

  message_keys-exchange :
      (id : ℕ) (sk pk sk' pk' enc pk_r info : Bytes)
      → exchange sk pk ≡ exchange sk' pk'
      → message_keys id sk pk enc pk_r info ≡ message_keys id sk' pk' enc pk_r info
  unfolding message_keys dh
  message_keys-exchange id sk pk sk' pk' enc pk_r info same =
      ap
        (λ s. checked s >>= λ d.
          extract_and_expand d (enc ++ pk_r) >>= λ shared. key_schedule id shared info)
        same

  open_with :
      (id : ℕ) (sk_r enc info aad plaintext : Bytes) (keys : Bytes × Bytes)
      → message_keys id sk_r enc enc (raw_public sk_r) info ≡ ok keys
      → decrypt id keys.0 keys.1 (encrypt id keys.0 keys.1 plaintext aad) aad ≡ some plaintext
      → hpke_open sk_r enc info aad (encrypt id keys.0 keys.1 plaintext aad) id ≡ ok plaintext
  unfolding hpke_open
  open_with id sk_r enc info aad plaintext keys same opens =
      ap
        (λ r. r >>= λ (ks : Bytes × Bytes).
          opened (decrypt id ks.0 ks.1 (encrypt id keys.0 keys.1 plaintext aad) aad))
        same
      ∙ ap opened opens

  -- With primitives that keep what the packages document: what `hpke_seal` seals to the public key of
  -- `sk_r` is opened by `hpke_open` with `sk_r`, the same info and the same associated data.
  pub hpke_open-hpke_seal :
      IsSuite p
      → (sk_r info aad plaintext ikm_e enc ciphertext : Bytes) (id : ℕ)
      → hpke_seal (raw_public sk_r) info aad plaintext ikm_e id ≡ ok (enc, ciphertext)
      → hpke_open sk_r enc info aad ciphertext id ≡ ok plaintext
  unfolding hpke_seal
  hpke_open-hpke_seal law sk_r info aad plaintext ikm_e enc ciphertext id e =
      let (pair, hp, e1) = >>=-eq-ok (derive_keypair ikm_e) _ e in
      let (keys, hk, e2) =
        >>=-eq-ok (message_keys id pair.0 (raw_public sk_r) pair.1 (raw_public sk_r) info) _ e1 in
      let built : ◌≡◌ {A = Bytes × Bytes} (pair.1, encrypt id keys.0 keys.1 plaintext aad)
          (enc, ciphertext) =
        ok_inj e2 in
      let sent : pair.1 ≡ enc = ap (λ q. q.0) built in
      let text : encrypt id keys.0 keys.1 plaintext aad ≡ ciphertext = ap (λ q. q.1) built in
      let public : enc ≡ raw_public pair.0 = sym sent ∙ derive_keypair-raw_public ikm_e pair hp in
      let shared : exchange sk_r enc ≡ exchange pair.0 (raw_public sk_r) =
        ap (exchange sk_r) public ∙ law.agree sk_r pair.0 in
      let key : message_keys id sk_r enc enc (raw_public sk_r) info ≡ ok keys =
        message_keys-exchange id sk_r enc pair.0 (raw_public sk_r) enc (raw_public sk_r) info shared
        ∙ ap (λ t. message_keys id pair.0 (raw_public sk_r) t (raw_public sk_r) info) (sym sent)
        ∙ hk in
      ap (λ t. hpke_open sk_r enc info aad t id) (sym text)
      ∙ open_with id sk_r enc info aad plaintext keys key (law.opens id keys.0 keys.1 plaintext aad)
