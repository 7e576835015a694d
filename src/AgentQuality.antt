-- ===== src/AgentQuality.antt =====
-- traigent_schema/certification/agent_quality_verifier.py: the integer statistics of the certificate.
-- The counts are non-negative. Where the source carries a negative coefficient, its magnitude is kept
-- and moved to the other side of the comparison.
pub mod Bisection
pub mod Parabola
pub mod Wilson
pub mod HalfWidth
pub mod Quantile
pub mod Unique
use traigent_schema.Prelude.{
  ℕ, zero, suc, ◌+◌, ◌-◌, ◌*◌, ◌/◌, Bool, true, false, Option, none, some, List, [], ◌∷◌, ltb, leb,
  if◌then◌else◌, min, map, get_elem?,
}
use traigent_schema.Python.Result.{Result, ok, err, ◌>>=◌, ◌>>◌, guard}

pub data QualityError : Type 0 where
  quantile_table_lookup_failed : QualityError
  -- a ZeroDivisionError
  zero_division : QualityError

abbrev pub t_scale : ℕ
t_scale = 1000000

abbrev pub infinity_df_bucket : ℕ
infinity_df_bucket = 1000000000

abbrev pub isqrt_scale : ℕ
isqrt_scale = 1000000

-- `bisect.bisect_right` of keys in ascending order
unfoldable pub bisect_right : List ℕ → ℕ → ℕ
bisect_right [] x = 0
bisect_right (k ∷ keys) x = let rest = bisect_right keys x in if ltb x k then 0 else suc rest

abbrev pub quantile_of : Option (ℕ × ℕ) → Result QualityError ℕ
quantile_of none = err quantile_table_lookup_failed
quantile_of (some row) = ok row.1

abbrev pub row_before : ℕ → List (ℕ × ℕ) → Result QualityError ℕ
row_before zero buckets = err quantile_table_lookup_failed
row_before (suc index) buckets = quantile_of (get_elem? buckets index)

-- `math.isqrt`, from the root of a quarter; the first argument bounds the rounds
unfoldable pub isqrt_rounds : ℕ → ℕ → ℕ
isqrt_rounds zero n = 0
isqrt_rounds (suc rounds) zero = 0
isqrt_rounds (suc rounds) (suc m) =
    let r = 2 * isqrt_rounds rounds (suc m / 4) in if leb (suc r * suc r) (suc m) then suc r else r

unfoldable pub isqrt : ℕ → ℕ
unfolding isqrt_rounds
isqrt n = isqrt_rounds n n

-- `-(-a // b)`
abbrev pub ceil_div : ℕ → ℕ → ℕ
ceil_div a b = (a + (b - 1)) / b

-- `_wilson_point`
unfoldable pub wilson_point : ℕ → ℕ → Result QualityError ℕ
wilson_point successes zero = err zero_division
wilson_point successes (suc trials) = ok ((2 * successes * t_scale + suc trials) / (2 * suc trials))

-- the coefficients of `Q`, the middle one negated
pub record Quadratic : Type 0 where
  pub a : ℕ
  pub minus_b : ℕ
  pub c : ℕ

unfoldable pub wilson_quadratic : (successes trials z_scaled : ℕ) → Quadratic
wilson_quadratic k n z = record {
  a = n * (n * (t_scale * t_scale) + z * z);
  minus_b = n * (2 * k * (t_scale * t_scale) + z * z) * t_scale;
  c = k * k * (t_scale * t_scale) * (t_scale * t_scale);
}

-- `q(e) >= 0`
unfoldable pub q_nonnegative : Quadratic → ℕ → Bool
q_nonnegative q e = leb (q.minus_b * e) (q.a * e * e + q.c)

-- the loop `while low < high` of the low endpoint; `rounds` halvings leave one candidate
unfoldable pub search_low : (ℕ → Bool) → (rounds low high : ℕ) → ℕ
search_low holds zero low high = low
search_low holds (suc rounds) low high =
    let mid = (low + high + 1) / 2 in
    let next : ℕ × ℕ = if holds mid then (mid, high) else (low, mid - 1) in
    let rest = search_low holds rounds next.0 next.1 in if ltb low high then rest else low

-- the loop of the high endpoint
unfoldable pub search_high : (ℕ → Bool) → (rounds low high : ℕ) → ℕ
search_high holds zero low high = low
search_high holds (suc rounds) low high =
    let mid = (low + high) / 2 in
    let next : ℕ × ℕ = if holds mid then (low, mid) else (mid + 1, high) in
    let rest = search_high holds rounds next.0 next.1 in if ltb low high then rest else low

-- 2 ** 20 exceeds the scale
abbrev pub search_rounds : ℕ
search_rounds = 20

-- the two endpoints, searched on the two sides of the vertex
unfoldable pub endpoints : Quadratic → ℕ × ℕ
unfolding q_nonnegative search_low search_high
endpoints q =
    let vertex_floor = min t_scale (q.minus_b / (2 * q.a)) in
    let vertex_ceil = min t_scale (ceil_div q.minus_b (2 * q.a)) in
    (
      search_low (q_nonnegative q) search_rounds 0 vertex_floor,
      search_high (q_nonnegative q) search_rounds vertex_ceil t_scale,
    )

-- `table` is the pinned table, sorted and grouped by coverage, as `_quantile_buckets_by_coverage` returns it
module _ (table : ℕ → Option (List (ℕ × ℕ))) where
  abbrev pub lookup_in : Option (List (ℕ × ℕ)) → ℕ → Result QualityError ℕ
  lookup_in none df = err quantile_table_lookup_failed
  lookup_in (some buckets) df =
      row_before (bisect_right (map (λ (row : ℕ × ℕ). row.0) buckets) df) buckets

  unfoldable pub lookup_t_scaled : (coverage_ppm df : ℕ) → Result QualityError ℕ
  unfolding bisect_right
  lookup_t_scaled coverage_ppm df = lookup_in (table coverage_ppm) df

  -- `trials == 0` divides by zero
  unfoldable pub wilson_bounds : (successes trials coverage_ppm : ℕ) → Result QualityError (ℕ × ℕ)
  unfolding lookup_t_scaled wilson_quadratic endpoints
  wilson_bounds successes trials coverage_ppm = do
    z ← lookup_t_scaled coverage_ppm infinity_df_bucket
    guard (ltb 0 trials) zero_division
    ok (endpoints (wilson_quadratic successes trials z))

  -- a sample of no items has `df == -1`, below every bucket
  unfoldable pub student_t_half_width :
      (sample_stddev_fixed sample_count coverage_ppm : ℕ) → Result QualityError ℕ
  unfolding lookup_t_scaled isqrt
  student_t_half_width sd zero coverage_ppm = err quantile_table_lookup_failed
  student_t_half_width sd (suc df) coverage_ppm = do
    t ← lookup_t_scaled coverage_ppm df
    ok (ceil_div (t * sd * isqrt_scale) (t_scale * isqrt (suc df * isqrt_scale * isqrt_scale)))

-- the rounded share and the tolerance of `_split_size_bound`, for a fraction of at most `t_scale`
unfoldable pub split_size_bound : (universe_count holdout_fraction_ppm : ℕ) → ℕ × ℕ
unfolding isqrt
split_size_bound universe_count ppm = (
  (universe_count * ppm + t_scale / 2) / t_scale,
  6 * isqrt ((universe_count * ppm * (t_scale - ppm)) / (t_scale * t_scale)) + 1,
)
