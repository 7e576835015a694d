-- ===== src/Tests/Labels.antt =====
-- The theorems on labels at concrete inputs: a codec that keeps the code points, and primitives that
-- encrypt nothing.
use traigent_schema.Prelude.{◌≡◌, ◌↔◌, refl, sym, Option, some, [], ◌∷◌, ◌++◌, arith, replicate}
use traigent_schema.Prelude.Lists.{take}
use traigent_schema.Python.Result.{ok}
use traigent_schema.Python.Text.{codes}
use traigent_schema.Merkle.{Bytes}
use traigent_schema.Labels.Padding.{pad, unpad, pad-unpad}
use traigent_schema.Labels.Envelope.{
  label_version, pack_envelope, unpack_envelope, unpack_envelope-pack_envelope,
}
use traigent_schema.Labels.Hpke.{Primitives, IsSuite, hpke_seal, hpke_open, hpke_open-hpke_seal}

some_swap :
    (s t : Bytes)
    → ◌≡◌ {A = Option Bytes} (some s) (some t)
    → ◌≡◌ {A = Option Bytes} (some t) (some s)
some_swap s t e = sym e

padded : Bytes
padded = codes "label" ++ 0x80 ∷ replicate 26 0

pad-unpad_example :
    (pad (λ t. some t) (λ t. some t) (codes "label") ≡ ok padded)
    ↔ (unpad (λ t. some t) (λ t. some t) padded ≡ ok (codes "label"))
pad-unpad_example =
    pad-unpad (λ t. some t) (λ t. some t) (λ text raw. (some_swap text raw, some_swap raw text))
      (codes "label") padded

unpack_envelope-pack_envelope_example :
    unpack_envelope (1 ∷ 0 ∷ 0 ∷ 1 ∷ 2 ∷ (replicate 32 7 ++ replicate 48 9))
    ≡ ok (record {
      version = label_version;
      epoch = 258;
      enc = replicate 32 7;
      ciphertext = replicate 48 9;
    })
unfolding pack_envelope
unpack_envelope-pack_envelope_example =
    unpack_envelope-pack_envelope 258 (replicate 32 7) (replicate 48 9)
      (1 ∷ 0 ∷ 0 ∷ 1 ∷ 2 ∷ (replicate 32 7 ++ replicate 48 9)) refl refl (omega arith)

abbrev plain : Primitives
plain = record {
  hmac = λ key message. replicate 32 1;
  raw_public = λ sk. sk;
  exchange = λ a b. some (5 ∷ []);
  encrypt = λ id key nonce plaintext aad. plaintext;
  decrypt = λ id key nonce ciphertext aad. some ciphertext;
}

plain-IsSuite : IsSuite plain
plain-IsSuite = record { agree = λ a b. refl; opens = λ id key nonce plaintext aad. refl }

seal_run :
    hpke_seal plain (3 ∷ []) [] [] (codes "secret") (4 ∷ []) 2 ≡ ok (replicate 32 1, codes "secret")
unfolding hpke_seal take
seal_run = refl

hpke_open-hpke_seal_example :
    hpke_open plain (3 ∷ []) (replicate 32 1) [] [] (codes "secret") 2 ≡ ok (codes "secret")
hpke_open-hpke_seal_example =
    hpke_open-hpke_seal plain plain-IsSuite (3 ∷ []) [] [] (codes "secret") (4 ∷ [])
      (replicate 32 1) (codes "secret") 2 seal_run
