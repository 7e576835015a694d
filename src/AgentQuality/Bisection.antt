-- ===== src/AgentQuality/Bisection.antt =====
-- The two bisections of `_wilson_bounds`, for a test that changes at most once.
use traigent_schema.Prelude.{
  ℕ, zero, suc, ◌+◌, ◌-◌, ◌*◌, ◌/◌, ◌≤◌, ◌<◌, ◌≡◌, Bool, true, false, arith, ltb, Bool-cases, inl,
  inr,
}
use traigent_schema.AgentQuality.{search_low, search_high}

-- the last place up to `high` where the test holds
pub record IsLast (holds : ℕ → Bool) (high found : ℕ) : Type 0 where
  pub here : holds found ≡ true
  pub inside : found ≤ high
  pub beyond : (e : ℕ) → found < e → e ≤ high → holds e ≡ false

-- the first place from `low` where the test holds
pub record IsFirst (holds : ℕ → Bool) (low high found : ℕ) : Type 0 where
  pub here : holds found ≡ true
  pub above : low ≤ found
  pub inside : found ≤ high
  pub before : (e : ℕ) → low ≤ e → e < found → holds e ≡ false

-- 2 ** rounds
abbrev pub span : ℕ → ℕ
span zero = 1
span (suc rounds) = 2 * span rounds

module _ (holds : ℕ → Bool) where
  -- A test that goes from true to false at most once up to `high` is found by the first loop.
  pub search_low-IsLast :
      (top : ℕ)
      → ((e e' : ℕ) → e ≤ e' → e' ≤ top → holds e ≡ false → holds e' ≡ false)
      → (rounds low high : ℕ) → high < low + span rounds
      → low ≤ high
      → high ≤ top
      → holds low ≡ true
      → ((e : ℕ) → high < e → e ≤ top → holds e ≡ false)
      → IsLast holds top (search_low holds rounds low high)
  unfolding search_low
  search_low-IsLast top down zero low high enough order inside start beyond = record {
    here = start;
    inside = omega arith;
    beyond = λ e over in_top. beyond e (omega arith) in_top;
  }
  search_low-IsLast top down (suc rounds) low high enough order inside start beyond =
      elim (Bool-cases (ltb low high)) [
        | inr done ↦ rw done (record {
          here = start;
          inside = omega arith;
          beyond = λ e over in_top. beyond e (ground (arith, done)) in_top;
        })
        | inl more ↦
            let mid = (low + high + 1) / 2 in
            elim (Bool-cases (holds mid)) [
              | inl up ↦
                  rw (more, up)
                    (search_low-IsLast top down rounds mid high (omega (arith, enough))
                      (ground (arith, more)) inside up beyond)
              | inr down_here ↦
                  rw (more, down_here)
                    (search_low-IsLast top down rounds low (mid - 1) (ground (arith, more, enough))
                      (ground (arith, more)) (ground (arith, more)) start
                      (λ e over in_top. down mid e (ground (arith, more)) in_top down_here))
            ]
      ]

  -- A test that goes from false to true at most once from `bottom` on is found by the second loop.
  pub search_high-IsFirst :
      (bottom top : ℕ)
      → ((e e' : ℕ) → bottom ≤ e → e ≤ e' → e' ≤ top → holds e' ≡ false → holds e ≡ false)
      → (rounds low high : ℕ) → high < low + span rounds
      → low ≤ high
      → bottom ≤ low
      → high ≤ top
      → holds high ≡ true
      → ((e : ℕ) → bottom ≤ e → e < low → holds e ≡ false)
      → IsFirst holds bottom top (search_high holds rounds low high)
  unfolding search_high
  search_high-IsFirst bottom top up zero low high enough order above inside end before =
      let same : low ≡ high = omega arith in
      record { here = rw same end; above = above; inside = omega arith; before = before }
  search_high-IsFirst bottom top up (suc rounds) low high enough order above inside end before =
      elim (Bool-cases (ltb low high)) [
        | inr done ↦
            let same : low ≡ high = ground (arith, done) in
            rw done
              (record { here = rw same end; above = above; inside = omega arith; before = before })
        | inl more ↦
            let mid = (low + high) / 2 in
            elim (Bool-cases (holds mid)) [
              | inl up_here ↦
                  rw (more, up_here)
                    (search_high-IsFirst bottom top up rounds low mid (ground (arith, more))
                      (ground (arith, more)) above (ground (arith, more)) up_here before)
              | inr still ↦
                  rw (more, still)
                    (search_high-IsFirst bottom top up rounds (mid + 1) high (ground (arith, more))
                      (ground (arith, more)) (ground (arith, more)) inside end
                      (λ e from under.
                        up e mid from (ground (arith, under)) (ground (arith, more)) still))
            ]
      ]
