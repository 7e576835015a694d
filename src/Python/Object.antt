-- ===== src/Python/Object.antt =====
-- A parsed JSON value as the source meets it: scalars, and lists and dicts that are shared by
-- reference, so that `id` and cycles mean what they do in Python. The exact types are constructors
-- and every other type, a subclass of one of them too, is `foreign`.
-- Floats are CPython's: `Floats` names the operations that the source applies to them.
use traigent_schema.Prelude.{ℕ, Bool, List}
use traigent_schema.Python.Text.{Text}
use traigent_schema.Python.Int.{ℤ}

pub record Floats : Type 1 where
  pub Float : Type 0
  -- math.isfinite
  pub is_finite : Float → Bool
  -- value == 0, value < 0, -value
  pub is_zero : Float → Bool
  pub is_negative : Float → Bool
  pub negate : Float → Float
  -- value == int(value), of a finite value
  pub is_integral : Float → Bool
  -- abs(value) > 2**53 - 1
  pub is_unsafe : Float → Bool
  -- repr(value)
  pub repr : Float → Text
  -- left == right
  pub equal : Float → Float → Bool

pub data Value (F : Type 0) : Type 0 where
  null : Value F
  bool : Bool → Value F
  int : ℤ → Value F
  float : F → Value F
  str : Text → Value F
  -- a list or a dict, by its identity
  ref : ℕ → Value F
  foreign : Value F

pub data Key : Type 0 where
  str_key : Text → Key
  foreign_key : Key

pub data Container (F : Type 0) : Type 0 where
  list : List (Value F) → Container F
  dict : List (Key × Value F) → Container F

-- the containers by identity; nothing here changes them
abbrev pub Heap : Type 0 → Type 0
Heap F = ℕ → Container F
