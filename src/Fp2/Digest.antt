-- ===== src/Fp2/Digest.antt =====
-- `digest` of traigent_schema/fp2.py: the prefixed SHA-256 of the canonical text.
use traigent_schema.Prelude.{ℕ, Option, none, some, List, ◌++◌}
use traigent_schema.Python.Result.{Result, ok, err}
use traigent_schema.Python.Text.{Text, codes, utf8}
use traigent_schema.Python.Object.{Floats, Value, Heap}
use traigent_schema.Fp2.{canonicalize}
use traigent_schema.Fp2.Scalar.{Unsupported}

module _ (fl : Floats) (heap : Heap fl.Float) (sha256_hexdigest : List ℕ → Text) where
  abbrev pub hashed : Option (Result Unsupported Text) → Option (Result Unsupported Text)
  hashed none = none
  hashed (some (err x)) = some (err x)
  hashed (some (ok text)) = some (ok (codes "sha256:" ++ sha256_hexdigest (utf8 text)))

  unfoldable pub digest : ℕ → Value fl.Float → Option (Result Unsupported Text)
  digest fuel v = hashed (canonicalize fl heap fuel v)
