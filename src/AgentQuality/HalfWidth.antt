-- ===== src/AgentQuality/HalfWidth.antt =====
-- The two roundings of `_student_t_half_width`: of the root and of the quotient.
use traigent_schema.Prelude.{
  ℕ, zero, suc, ◌+◌, ◌-◌, ◌*◌, ◌/◌, ◌≤◌, ◌<◌, ◌≡◌, ap, ◌∙◌, Option, List, arith, leb, Bool-cases,
  inl, inr,
}
use mathlib.Core.Path.{subst}
use traigent_schema.Python.Result.{ok, ok_inj, >>=-eq-ok}
use traigent_schema.AgentQuality.Parabola.{le_mul}
use traigent_schema.AgentQuality.Wilson.{ceil_div-ge}
use traigent_schema.AgentQuality.{
  t_scale, isqrt_scale, ceil_div, isqrt, isqrt_rounds, lookup_t_scaled, student_t_half_width,
}

isqrt_rounds-floor :
    (rounds n : ℕ)
    → n ≤ rounds
    → (isqrt_rounds rounds n * isqrt_rounds rounds n ≤ n)
      × (n < suc (isqrt_rounds rounds n) * suc (isqrt_rounds rounds n))
unfolding isqrt_rounds
isqrt_rounds-floor zero n enough = (omega arith, omega arith)
isqrt_rounds-floor (suc rounds) zero enough = (omega arith, omega arith)
isqrt_rounds-floor (suc rounds) (suc m) enough =
    let (below, above) = isqrt_rounds-floor rounds (suc m / 4) (omega arith) in
    let r = 2 * isqrt_rounds rounds (suc m / 4) in
    elim (Bool-cases (leb (suc r * suc r) (suc m))) [
      | inl next ↦ rw next (ground (arith, next), omega (arith, above))
      | inr stays ↦ rw stays (omega (arith, below), ground (arith, stays))
    ]

-- `math.isqrt` rounds down, by less than one.
isqrt-floor : (n : ℕ) → (isqrt n * isqrt n ≤ n) × (n < suc (isqrt n) * suc (isqrt n))
unfolding isqrt
isqrt-floor n = isqrt_rounds-floor n n (omega arith)

le_square : (x y : ℕ) → x ≤ y → x * x ≤ y * y
le_square x y h =
    let k = y - x in
    let whole : y ≡ x + k = omega arith in
    omega (arith, ap (λ (t : ℕ). t * y) whole, ap (λ (t : ℕ). x * t) whole)

isqrt-pos : (n : ℕ) → 0 < n → 0 < isqrt n
isqrt-pos n pos = elim (Bool-cases (leb 1 (isqrt n))) [
  | inl some_root ↦ ground (arith, some_root)
  | inr none_root ↦
      let zero_root : isqrt n ≡ 0 = ground (arith, none_root) in
      absurd (
        let above : n < suc 0 * suc 0 = rw zero_root at (isqrt-floor n).1 in
        omega (arith, above, pos))
]

-- The quotient that is rounded up, squared, is no less than the exact one squared.
covers :
    (x n r half : ℕ)
    → r * r ≤ n * isqrt_scale * isqrt_scale
    → x * isqrt_scale ≤ t_scale * r * half
    → x * x ≤ half * t_scale * (half * t_scale) * n
covers x n r half root quotient = omega (
  arith,
  le_square (x * isqrt_scale) (t_scale * r * half) quotient,
  le_mul (half * half) (r * r) (n * isqrt_scale * isqrt_scale) root,
)

module _ (table : ℕ → Option (List (ℕ × ℕ))) where
  -- A half-width that `_student_t_half_width` returns is no less than the quantile of the table, in
  -- millionths, times the standard deviation divided by the square root of the sample count: the
  -- inequality is stated squared, without the root.
  pub student_t_half_width-covers :
      (sd sample_count coverage_ppm half_width : ℕ)
      → student_t_half_width table sd sample_count coverage_ppm ≡ ok half_width
      → (t : ℕ) × (lookup_t_scaled table coverage_ppm (sample_count - 1) ≡ ok t)
        × (t * sd * (t * sd) ≤ half_width * t_scale * (half_width * t_scale) * sample_count)
  unfolding student_t_half_width
  student_t_half_width-covers sd zero coverage_ppm half_width e = absurd (cc)
  student_t_half_width-covers sd (suc df) coverage_ppm half_width e =
      let (t, ht, e1) = >>=-eq-ok (lookup_t_scaled table coverage_ppm df) _ e in
      let n = suc df * isqrt_scale * isqrt_scale in
      let root_pos : 0 < isqrt n = isqrt-pos n (omega arith) in
      let same : ceil_div (t * sd * isqrt_scale) (t_scale * isqrt n) ≡ half_width = ok_inj e1 in
      let quotient : t * sd * isqrt_scale ≤ t_scale * isqrt n * half_width =
        subst (λ h. t * sd * isqrt_scale ≤ t_scale * isqrt n * h) same
          (ceil_div-ge (t * sd * isqrt_scale) (t_scale * isqrt n) (omega (arith, root_pos))) in
      let rung : suc df - 1 ≡ df = omega arith in
      (
        t,
        ap (lookup_t_scaled table coverage_ppm) rung ∙ ht,
        covers (t * sd) (suc df) (isqrt n) half_width (isqrt-floor n).0 quotient,
      )
