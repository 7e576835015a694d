-- ===== src/AgentQuality/Wilson.antt =====
-- `_wilson_bounds`: the endpoints and the roots of the quadratic.
use traigent_schema.Prelude.{
  ℕ, ◌+◌, ◌-◌, ◌*◌, ◌/◌, ◌≤◌, ◌<◌, ◌≡◌, ap, true, false, Option, List, arith, ltb, ltb→lt, leb, min,
  Bool-cases, inl, inr,
}
use mathlib.Core.Path.{subst}
use native.Mathlib.Nat.{mul-div-le, le-div_iff_mul-le, lt-mul-div-succ, div-lt_iff_lt-mul}
use traigent_schema.Python.Result.{ok, ok_inj, >>=-eq-ok, guard->>-ok}
use traigent_schema.AgentQuality.{
  zero_division, t_scale, infinity_df_bucket, ceil_div, Quadratic, wilson_quadratic, q_nonnegative,
  search_low, search_high, search_rounds, endpoints, lookup_t_scaled, wilson_bounds,
}
use traigent_schema.AgentQuality.Parabola.{
  IsNegative, q_nonnegative-IsNegative, q_nonnegative_of, nonnegative_of, falls, rises, le_mul,
  IsBetweenRoots, outside_left, outside_right,
}
use traigent_schema.AgentQuality.Bisection.{
  span, IsLast, IsFirst, search_low-IsLast, search_high-IsFirst,
}

pub ceil_div-ge : (a b : ℕ) → 0 < b → a ≤ b * ceil_div a b
ceil_div-ge a b pos = omega (arith, lt-mul-div-succ (a + (b - 1)) pos)

ceil_div-le : (a b m : ℕ) → 0 < b → a ≤ b * m → ceil_div a b ≤ m
ceil_div-le a b m pos h =
    let below : a + (b - 1) < (m + 1) * b = omega arith in
    omega (arith, (div-lt_iff_lt-mul {x = a + (b - 1)} {y = m + 1} pos).1 below)

ceil_div-floor : (a b : ℕ) → 0 < b → ceil_div a b ≤ a / b + 1
ceil_div-floor a b pos = ceil_div-le a b (a / b + 1) pos (omega (arith, lt-mul-div-succ a pos))

-- what the search needs: an upward parabola with its vertex up to the scale, not negative there
record IsBracketed (q : Quadratic) : Type 0 where
  upward : 0 < q.a
  vertex : q.minus_b ≤ 2 * q.a * t_scale
  ends : q.minus_b * t_scale ≤ q.a * t_scale * t_scale + q.c

-- the two integers next to the roots, on their outer sides: all of the interval of the roots is between them, and
-- every integer strictly between them is strictly between the roots
pub record IsOutward (q : Quadratic) (found : ℕ × ℕ) : Type 0 where
  pub low_covers : (e d : ℕ) → 0 < d → IsBetweenRoots q e d → found.0 * d ≤ e
  pub high_covers : (e d : ℕ) → 0 < d → IsBetweenRoots q e d → e ≤ found.1 * d
  pub low_outside : q_nonnegative q found.0 ≡ true
  pub high_outside : q_nonnegative q found.1 ≡ true
  pub ordered : found.0 ≤ found.1
  pub in_range : found.1 ≤ t_scale
  pub inside : (e : ℕ) → found.0 < e → e < found.1 → q_nonnegative q e ≡ false

IsLast-IsOutward :
    (q : Quadratic) (low high left right : ℕ)
    → 0 < q.a
    → 2 * q.a * left ≤ q.minus_b
    → q.minus_b ≤ 2 * q.a * right
    → IsLast (q_nonnegative q) left low
    → IsFirst (q_nonnegative q) right t_scale high
    → left ≤ right
    → right ≤ left + 1
    → IsOutward q (low, high)
IsLast-IsOutward q low high left right upward left_ok right_ok last first order near = record {
  low_covers = λ e d pos between.
      outside_left q low e d upward pos (nonnegative_of q low last.here)
        (omega (arith, left_ok, le_mul q.a low left last.inside)) between;
  high_covers = λ e d pos between.
      outside_right q high e d upward pos (nonnegative_of q high first.here)
        (omega (arith, right_ok, le_mul q.a right high first.above)) between;
  low_outside = last.here;
  high_outside = first.here;
  ordered = omega (arith, last.inside, first.above, order);
  in_range = first.inside;
  inside = λ e over under. elim (Bool-cases (leb e left)) [
    | inl here ↦ last.beyond e over (ground (arith, here))
    | inr there ↦ first.before e (ground (arith, there)) under
  ];
}

search_low-left :
    (q : Quadratic) (rounds left : ℕ)
    → left < span rounds
    → 2 * q.a * left ≤ q.minus_b
    → IsLast (q_nonnegative q) left (search_low (q_nonnegative q) rounds 0 left)
search_low-left q rounds left enough vertex =
    search_low-IsLast (q_nonnegative q) left
      (λ e e' order inside fails.
        let whole : e' ≡ e + (e' - e) = omega arith in
        let bound : 2 * q.a * (e + (e' - e)) ≤ q.minus_b =
          omega (arith, vertex, ap (λ (t : ℕ). q.a * t) whole, le_mul q.a e' left inside) in
        let neg = falls q e (e' - e) bound ((q_nonnegative-IsNegative q e).0 fails) in
        (q_nonnegative-IsNegative q e').1 (rw whole neg))
      rounds 0 left (omega (arith, enough)) (omega arith) (omega arith)
      (q_nonnegative_of q 0 (omega arith)) (λ e over inside. absurd (omega arith))

search_high-right :
    (q : Quadratic) (rounds right : ℕ)
    → t_scale < right + span rounds
    → right ≤ t_scale
    → q.minus_b ≤ 2 * q.a * right
    → q.minus_b * t_scale ≤ q.a * t_scale * t_scale + q.c
    → IsFirst (q_nonnegative q) right t_scale (search_high (q_nonnegative q) rounds right t_scale)
search_high-right q rounds right enough inside vertex ends =
    search_high-IsFirst (q_nonnegative q) right t_scale
      (λ e e' from order in_top fails.
        let whole : e' ≡ e + (e' - e) = omega arith in
        let bound : q.minus_b ≤ 2 * q.a * e = omega (arith, vertex, le_mul q.a right e from) in
        let neg : IsNegative q e' = (q_nonnegative-IsNegative q e').0 fails in
        (q_nonnegative-IsNegative q e).1 (rises q e (e' - e) bound (rw whole at neg)))
      rounds right t_scale enough inside (omega arith) (omega arith)
      (q_nonnegative_of q t_scale ends) (λ e from under. absurd (omega arith))

endpoints-IsOutward : (q : Quadratic) → IsBracketed q → IsOutward q (endpoints q)
unfolding endpoints
endpoints-IsOutward q b =
    let pos : 0 < 2 * q.a = omega (arith, b.upward) in
    let floor = q.minus_b / (2 * q.a) in
    let ceil = ceil_div q.minus_b (2 * q.a) in
    let floor_left : 2 * q.a * floor ≤ q.minus_b = mul-div-le q.minus_b (2 * q.a) in
    let ceil_right : q.minus_b ≤ 2 * q.a * ceil = ceil_div-ge q.minus_b (2 * q.a) pos in
    let ceil_in : ceil ≤ t_scale = ceil_div-le q.minus_b (2 * q.a) t_scale pos b.vertex in
    let near : ceil ≤ floor + 1 = ceil_div-floor q.minus_b (2 * q.a) pos in
    let floor_below : floor ≤ ceil =
      (le-div_iff_mul-le {x = floor} {y = q.minus_b + (2 * q.a - 1)} pos).1
        (omega (arith, floor_left)) in
    let clamped : min t_scale ceil ≡ ceil = omega (arith, ceil_in) in
    let left = min t_scale floor in
    let left_ok : 2 * q.a * left ≤ q.minus_b =
      omega (arith, floor_left, le_mul q.a left floor (omega arith)) in
    let right_ok : q.minus_b ≤ 2 * q.a * min t_scale ceil = rw clamped ceil_right in
    IsLast-IsOutward q _ _ left (min t_scale ceil) b.upward left_ok right_ok
      (search_low-left q search_rounds left (omega arith) left_ok)
      (search_high-right q search_rounds (min t_scale ceil) (omega arith) (omega arith) right_ok
        b.ends)
      (omega (arith, floor_below)) (omega (arith, near))

wilson_quadratic-IsBracketed : (k n z : ℕ) → 0 < n → k ≤ n → IsBracketed (wilson_quadratic k n z)
unfolding wilson_quadratic
wilson_quadratic-IsBracketed k n z pos h =
    let d = n - k in
    let whole : n ≡ k + d = omega arith in
    record {
      upward = omega (arith, le_mul n 1 n pos);
      vertex = omega (
        arith,
        le_mul (n * t_scale * t_scale * t_scale) k n h,
        le_mul (n * t_scale) 0 (z * z) (omega arith),
      );
      ends = omega (
        arith,
        ap (λ (t : ℕ). t * n) whole,
        ap (λ (t : ℕ). t * k) whole,
        ap (λ (t : ℕ). t * d) whole,
        le_mul d 0 d (omega arith),
      );
    }

module _ (table : ℕ → Option (List (ℕ × ℕ))) where
  -- When _wilson_bounds returns endpoints for at most as many successes as trials, every fraction at which the quadratic
  -- of the Wilson interval is not positive lies between the two endpoints, at which the quadratic is not negative; at every
  -- integer strictly between them it is negative; and they are in order and at most 10 ** 6.
  pub wilson_bounds-IsOutward :
      (successes trials coverage_ppm : ℕ) (bounds : ℕ × ℕ)
      → wilson_bounds table successes trials coverage_ppm ≡ ok bounds
      → successes ≤ trials
      → (z : ℕ) × (lookup_t_scaled table coverage_ppm infinity_df_bucket ≡ ok z)
        × IsOutward (wilson_quadratic successes trials z) bounds
  unfolding wilson_bounds
  wilson_bounds-IsOutward successes trials coverage_ppm bounds e h =
      let (z, hz, e1) = >>=-eq-ok (lookup_t_scaled table coverage_ppm infinity_df_bucket) _ e in
      let (some_trials, e2) = guard->>-ok (ltb 0 trials) zero_division _ e1 in
      let same : endpoints (wilson_quadratic successes trials z) ≡ bounds = ok_inj e2 in
      let pos : 0 < trials = ltb→lt 0 trials some_trials in
      let found = endpoints-IsOutward _ (wilson_quadratic-IsBracketed successes trials z pos h) in
      (z, hz, subst (IsOutward (wilson_quadratic successes trials z)) same found)
