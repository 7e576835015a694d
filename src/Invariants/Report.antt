-- ===== src/Invariants/Report.antt =====
-- `validate_declared_invariants` where it reports no violation.
use traigent_schema.Prelude.{ℕ, ◌≡◌, Option, some, List, ◌∷◌, get_elem?}
use traigent_schema.Python.Object.{Floats, Value, Heap}
use traigent_schema.Invariants.{Declaration}
use traigent_schema.Invariants.Holds.{Holds}

module _ (fl : Floats) (heap : Heap fl.Float) (fuel : ℕ) (payload : Value fl.Float) where
  open fl use {Float}

  -- there are declarations, and every one of them holds of the payload
  abbrev pub IsMet : Option (List (Declaration Float)) → Type 0
  IsMet declared =
      (d : Declaration Float) × (ds : List (Declaration Float)) × (declared ≡ some (d ∷ ds))
      × ((i : ℕ) (e : Declaration Float)
          → get_elem? (d ∷ ds) i ≡ some e
          → Holds fl heap fuel payload e.relation)
