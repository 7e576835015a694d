-- ===== src/Tests/Statistics.antt =====
-- The theorems on the statistics of the agent-quality certificate, with three rungs of a table.
use traigent_schema.Prelude.{
  ℕ, ◌-◌, ◌*◌, ◌≤◌, ◌≡◌, refl, Option, some, List, [], ◌∷◌, arith, true, map,
}
use traigent_schema.Python.Result.{ok}
use traigent_schema.Python.Text.{Text}
use traigent_schema.AgentQuality.{
  t_scale, infinity_df_bucket, wilson_quadratic, lookup_t_scaled, wilson_bounds,
  student_t_half_width,
}
use traigent_schema.AgentQuality.Wilson.{IsOutward, wilson_bounds-IsOutward}
use traigent_schema.AgentQuality.Quantile.{IsLookup, lookup_t_scaled-IsLookup}
use traigent_schema.AgentQuality.Unique.{all_different, row_of, unique_by, unique_by-row_of}
use traigent_schema.AgentQuality.HalfWidth.{student_t_half_width-covers}

abbrev table : ℕ → Option (List (ℕ × ℕ))
table coverage = some ((1, 12706205) ∷ (30, 2042272) ∷ (1000000000, 1959964) ∷ [])

wilson_run : wilson_bounds table 8 10 950000 ≡ ok (490162, 943318)
unfolding wilson_bounds
wilson_run = refl

wilson_bounds-IsOutward_example :
    (z : ℕ) × (lookup_t_scaled table 950000 infinity_df_bucket ≡ ok z)
    × IsOutward (wilson_quadratic 8 10 z) (490162, 943318)
wilson_bounds-IsOutward_example =
    wilson_bounds-IsOutward table 8 10 950000 (490162, 943318) wilson_run (omega arith)

half_width_run : student_t_half_width table 500 40 950000 ≡ ok 162
unfolding student_t_half_width
half_width_run = refl

student_t_half_width-covers_example :
    (t : ℕ) × (lookup_t_scaled table 950000 (40 - 1) ≡ ok t)
    × (t * 500 * (t * 500) ≤ 162 * t_scale * (162 * t_scale) * 40)
student_t_half_width-covers_example =
    student_t_half_width-covers table 500 40 950000 162 half_width_run

abbrev rungs : List (ℕ × ℕ)
rungs = (1, 12706205) ∷ (30, 2042272) ∷ (1000000000, 1959964) ∷ []

lookup_t_scaled-IsLookup_example : IsLookup rungs 39 (lookup_t_scaled table 950000 39)
lookup_t_scaled-IsLookup_example =
    lookup_t_scaled-IsLookup table rungs 950000 39 refl
      ((omega arith, (omega arith, tt)), ((omega arith, tt), (tt, tt)))

abbrev row_key : Text × ℕ → Text
row_key row = row.0

abbrev signed_rows : List (Text × ℕ)
signed_rows = (97 ∷ [], 4) ∷ (98 ∷ [], 5) ∷ []

abbrev duplicate : Text
duplicate = 100 ∷ []

abbrev signed_rows_by_key : List (Text × (Text × ℕ))
signed_rows_by_key = (97 ∷ [], (97 ∷ [], 4)) ∷ (98 ∷ [], (98 ∷ [], 5)) ∷ []

abbrev second_row : Text × ℕ
second_row = (98 ∷ [], 5)

unique_run : unique_by row_key duplicate signed_rows ≡ ok signed_rows_by_key
unfolding unique_by
unique_run = refl

unique_by-row_of_example :
    (all_different (map row_key signed_rows) ≡ true)
    × (row_of (98 ∷ []) signed_rows_by_key ≡ some second_row)
unique_by-row_of_example =
    unique_by-row_of row_key duplicate signed_rows signed_rows_by_key 1 second_row unique_run refl
