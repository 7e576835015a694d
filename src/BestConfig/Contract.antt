-- ===== src/BestConfig/Contract.antt =====
-- The constants of best_config_hash_contract_schema.json: `_is_positive_int`, `_domain_tag_pair` and
-- the checks of `_load_contract`. Reading the file is outside: the three raw values are arguments.
use traigent_schema.Prelude.{ℕ, List, [], ◌∷◌, if◌then◌else◌, ltb}
use traigent_schema.Python.Result.{Result, ok, err, ◌>>=◌}
use traigent_schema.Python.Text.{Text, codes, ends_with}
use traigent_schema.Python.Int.{pos}
use traigent_schema.Python.Object.{Value, int, str, ref, Container, list, dict, Heap}
use traigent_schema.BestConfig.{ProfileError, contract_error}

pub record Contract : Type 0 where
  pub max_canonical_spec_bytes : ℕ
  pub max_depth : ℕ
  pub config_tag : Text
  pub spec_tag : Text

module _ {F : Type 0} where
  -- `_is_positive_int`, with the number where it is one
  unfoldable pub positive_int : Value F → Result ProfileError ℕ
  positive_int (int (pos n)) = if ltb 0 n then ok n else err contract_error
  positive_int v = err contract_error

  unfoldable pub all_strings : List (Value F) → Result ProfileError (List Text)
  all_strings [] = ok []
  all_strings (str t ∷ vs) = do ts ← all_strings vs; ok (t ∷ ts)
  all_strings (v ∷ vs) = err contract_error

-- `[tag for tag in domain_tags if tag.endswith(suffix)]`
unfoldable pub ending : Text → List Text → List Text
ending suffix [] = []
ending suffix (t ∷ ts) =
    let rest = ending suffix ts in if ends_with suffix t then t ∷ rest else rest

abbrev pub only : List Text → Result ProfileError Text
only (t ∷ []) = ok t
only _ = err contract_error

unfoldable pub tag_pair : List Text → Result ProfileError (Text × Text)
unfolding ending
tag_pair tags = do
  config ← only (ending (codes ".config.v1") tags)
  spec ← only (ending (codes ".spec.v1") tags)
  ok (config, spec)

module _ {F : Type 0} (heap : Heap F) where
  abbrev pub tag_list : Container F → Result ProfileError (List Text)
  tag_list (list vs) = all_strings vs
  tag_list (dict items) = err contract_error

  unfoldable pub domain_tag_pair : Value F → Result ProfileError (Text × Text)
  unfolding all_strings tag_pair
  domain_tag_pair (ref a) = do tags ← tag_list (heap a); tag_pair tags
  domain_tag_pair v = err contract_error

  unfoldable pub load_contract : Value F → Value F → Value F → Result ProfileError Contract
  unfolding positive_int domain_tag_pair
  load_contract max_bytes max_depth domain_tags = do
    bytes ← positive_int max_bytes
    depth ← positive_int max_depth
    tags ← domain_tag_pair domain_tags
    ok (record {
      max_canonical_spec_bytes = bytes;
      max_depth = depth;
      config_tag = tags.0;
      spec_tag = tags.1;
    })
