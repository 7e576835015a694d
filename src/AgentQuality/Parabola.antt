-- ===== src/AgentQuality/Parabola.antt =====
-- The quadratic of `_wilson_bounds` left and right of its vertex, at integers and at fractions.
use traigent_schema.Prelude.{ℕ, ◌+◌, ◌-◌, ◌*◌, ◌≤◌, ◌<◌, ◌≡◌, ◌↔◌, ap, true, false, arith, dec_lt}
use traigent_schema.AgentQuality.{Quadratic, q_nonnegative}

-- `Q` is negative at `e`
abbrev pub IsNegative : Quadratic → ℕ → Type 0
IsNegative q e = q.a * e * e + q.c < q.minus_b * e

pub q_nonnegative-IsNegative :
    (q : Quadratic) (e : ℕ) → (q_nonnegative q e ≡ false) ↔ IsNegative q e
unfolding q_nonnegative
q_nonnegative-IsNegative q e = ground arith

pub q_nonnegative_of :
    (q : Quadratic) (e : ℕ) → q.minus_b * e ≤ q.a * e * e + q.c → q_nonnegative q e ≡ true
unfolding q_nonnegative
q_nonnegative_of q e h = ground arith

pub nonnegative_of :
    (q : Quadratic) (e : ℕ) → q_nonnegative q e ≡ true → q.minus_b * e ≤ q.a * e * e + q.c
unfolding q_nonnegative
nonnegative_of q e h = ground arith

pub le_mul : (c x y : ℕ) → x ≤ y → c * x ≤ c * y
le_mul c x y h =
    let k = y - x in
    let whole : y ≡ x + k = omega arith in omega (arith, ap (λ (t : ℕ). c * t) whole)

-- left of the vertex `Q` falls
pub falls :
    (q : Quadratic) (e d : ℕ)
    → 2 * q.a * (e + d) ≤ q.minus_b
    → IsNegative q e
    → IsNegative q (e + d)
falls q e d left neg =
    let k = q.minus_b - 2 * q.a * (e + d) in
    let whole : q.minus_b ≡ 2 * q.a * (e + d) + k = omega arith in
    omega (arith, neg, ap (λ (t : ℕ). t * d) whole)

-- right of the vertex `Q` rises
pub rises :
    (q : Quadratic) (e d : ℕ) → q.minus_b ≤ 2 * q.a * e → IsNegative q (e + d) → IsNegative q e
rises q e d right neg =
    let k = 2 * q.a * e - q.minus_b in
    let whole : 2 * q.a * e ≡ q.minus_b + k = omega arith in
    omega (arith, neg, ap (λ (t : ℕ). t * d) whole)

-- `Q` is not positive at the fraction `e / d`, which then lies in the interval of the roots
abbrev pub IsBetweenRoots : Quadratic → (e d : ℕ) → Type 0
IsBetweenRoots q e d = q.a * e * e + q.c * d * d ≤ q.minus_b * e * d

-- a fraction left of a place that is left of the vertex, where `Q` is not negative, is left of the roots
pub outside_left :
    (q : Quadratic) (low e d : ℕ)
    → 0 < q.a
    → 0 < d
    → q.minus_b * low ≤ q.a * low * low + q.c
    → 2 * q.a * low ≤ q.minus_b
    → IsBetweenRoots q e d
    → low * d ≤ e
outside_left q low e d upward pos here vertex between = elim (dec_lt e (low * d)) [
  | no inside ↦ omega arith
  | yes outside ↦
      let s = low * d - e in
      let whole : low * d ≡ e + s = omega arith in
      let some_s : 1 ≤ s = omega arith in
      absurd (
        omega (
          arith,
          le_mul (d * d) (q.minus_b * low) (q.a * low * low + q.c) here,
          le_mul (d * s) (2 * q.a * low) q.minus_b vertex,
          le_mul (s * s) 1 q.a upward,
          le_mul s 1 s some_s,
          ap (λ (t : ℕ). q.a * low * d * t) whole,
          ap (λ (t : ℕ). q.a * e * t) whole,
          ap (λ (t : ℕ). q.a * s * t) whole,
          ap (λ (t : ℕ). q.minus_b * d * t) whole,
        ))
]

pub outside_right :
    (q : Quadratic) (high e d : ℕ)
    → 0 < q.a
    → 0 < d
    → q.minus_b * high ≤ q.a * high * high + q.c
    → q.minus_b ≤ 2 * q.a * high
    → IsBetweenRoots q e d
    → e ≤ high * d
outside_right q high e d upward pos here vertex between = elim (dec_lt (high * d) e) [
  | no inside ↦ omega arith
  | yes outside ↦
      let s = e - high * d in
      let whole : e ≡ high * d + s = omega arith in
      let some_s : 1 ≤ s = omega arith in
      absurd (
        omega (
          arith,
          between,
          le_mul (d * d) (q.minus_b * high) (q.a * high * high + q.c) here,
          le_mul (d * s) q.minus_b (2 * q.a * high) vertex,
          le_mul (s * s) 1 q.a upward,
          le_mul s 1 s some_s,
          ap (λ (t : ℕ). q.a * e * t) whole,
          ap (λ (t : ℕ). q.a * high * d * t) whole,
          ap (λ (t : ℕ). q.a * s * t) whole,
          ap (λ (t : ℕ). q.minus_b * d * t) whole,
        ))
]
