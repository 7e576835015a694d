-- ===== src/Merkle/Split.antt =====
-- `_split`: the largest power of two below `n`. The loop starts at 1 and doubles.
use traigent_schema.Prelude.{
  ℕ, zero, suc, ◌+◌, ◌-◌, ◌*◌, ◌/◌, ◌≤◌, ◌<◌, ◌≡◌, refl, arith, ltb, if◌then◌else◌, Bool-cases, inl,
  inr, sym, ap, ◌∙◌, dec_lt,
}

-- `while k * 2 < n: k *= 2`, with fuel
unfoldable pub split_loop : ℕ → ℕ → ℕ → ℕ
split_loop zero k n = k
split_loop (suc fuel) k n =
    let rest = split_loop fuel (k * 2) n in if ltb (k * 2) n then rest else k

unfoldable pub split : ℕ → ℕ
unfolding split_loop
split n = split_loop n 1 n

-- `b * 2 ^ j`, by doubling
abbrev pub scale : ℕ → ℕ → ℕ
scale zero b = b
scale (suc j) b = 2 * scale j b

pub scale-pos : (j b : ℕ) → 0 < b → 0 < scale j b
scale-pos zero b h = h
scale-pos (suc j) b h = omega (arith, scale-pos j b h)

split_loop-pos : (fuel k n : ℕ) → 0 < k → 0 < split_loop fuel k n
unfolding split_loop
split_loop-pos zero k n h = h
split_loop-pos (suc f) k n h = ground (arith, split_loop-pos f (k * 2) n)

pub split-pos : (n : ℕ) → 0 < split n
unfolding split
split-pos n = split_loop-pos n 1 n (omega arith)

split_loop-lt : (fuel k n : ℕ) → k < n → split_loop fuel k n < n
unfolding split_loop
split_loop-lt zero k n h = h
split_loop-lt (suc f) k n h = ground (arith, split_loop-lt f (k * 2) n)

pub split-lt : (n : ℕ) → 1 < n → split n < n
unfolding split
split-lt n h = split_loop-lt n 1 n h

-- the fuel suffices: the loop ends by its test
split_loop-ge : (fuel k n : ℕ) → 0 < k → n ≤ fuel + k → n ≤ 2 * split_loop fuel k n
unfolding split_loop
split_loop-ge zero k n p h = omega arith
split_loop-ge (suc f) k n p h = ground (arith, split_loop-ge f (k * 2) n)

pub split-ge : (n : ℕ) → n ≤ 2 * split n
unfolding split
split-ge n = split_loop-ge n 1 n (omega arith) (omega arith)

split_loop-scale : (fuel i n : ℕ) → (j : ℕ) × (split_loop fuel (scale i 1) n ≡ scale j 1)
unfolding split_loop
split_loop-scale zero i n = (i, refl)
split_loop-scale (suc f) i n =
    let (j, e) = split_loop-scale f (suc i) n in
    elim (Bool-cases (ltb (scale i 1 * 2) n)) [
      | inl more ↦ (j, ground (arith, e))
      | inr done ↦ (i, ground arith)
    ]

pub split-scale : (n : ℕ) → (j : ℕ) × (split n ≡ scale j 1)
unfolding split
split-scale n = split_loop-scale n 0 n

-- `n` halved `j` times
abbrev pub halve : ℕ → ℕ → ℕ
halve zero n = n
halve (suc j) n = halve j n / 2

pub scale-add : (j a b : ℕ) → scale j (a + b) ≡ scale j a + scale j b
scale-add zero a b = refl
scale-add (suc j) a b = omega (arith, scale-add j a b)

pub scale-double : (j b : ℕ) → scale j (2 * b) ≡ 2 * scale j b
scale-double zero b = refl
scale-double (suc j) b = omega (arith, scale-double j b)

pub scale-zero : (j : ℕ) → scale j 0 ≡ 0
scale-zero zero = refl
scale-zero (suc j) = omega (arith, scale-zero j)

scale_mono : (i j : ℕ) → i ≤ j → scale i 1 ≤ scale j 1
scale_mono zero j h = scale-pos j 1 (omega arith)
scale_mono (suc i) zero h = absurd (omega arith)
scale_mono (suc i) (suc j) h = omega (arith, scale_mono i j (omega arith))

pub scale_lt_inv : (i j : ℕ) → scale i 1 < scale j 1 → i < j
scale_lt_inv i j h = elim (dec_lt i j) [
  | yes p ↦ p
  | no p ↦ absurd (omega (arith, scale_mono j i (omega arith)))
]

-- a higher power is an even multiple of a lower one
pub scale_split : (i j : ℕ) → i < j → (d : ℕ) × ((b : ℕ) → scale j b ≡ scale i (2 * scale d b))
scale_split i zero h = absurd (omega arith)
scale_split i (suc j) h = elim (dec_lt i j) [
  | yes p ↦
      let (d, e) = scale_split i j p in
      (suc d, λ b. omega (arith, e b, scale-double i (2 * scale d b)))
  | no p ↦ let same : j ≡ i = omega arith in (0, λ b. rw same (sym (scale-double i b)))
]

scale_squeeze : (i j : ℕ) → scale i 1 < 2 * scale j 1 → scale j 1 ≤ scale i 1 → i ≡ j
scale_squeeze i j h k = elim (dec_lt i j) [
  | yes p ↦ absurd (omega (arith, scale_mono (suc i) j p, scale-pos i 1 (omega arith)))
  | no p ↦ elim (dec_lt j i) [
    | yes q ↦ absurd (omega (arith, scale_mono (suc j) i q))
    | no q ↦ omega arith
  ]
]

pub split-scale_double : (j : ℕ) → split (2 * scale j 1) ≡ scale j 1
split-scale_double j =
    let (i, e) = split-scale (2 * scale j 1) in
    let pos : 0 < scale j 1 = scale-pos j 1 (omega arith) in
    let below : split (2 * scale j 1) < 2 * scale j 1 = split-lt (2 * scale j 1) (omega arith) in
    let same : i ≡ j =
      scale_squeeze i j (omega (arith, e)) (omega (arith, e, split-ge (2 * scale j 1))) in
    e ∙ ap (λ t. scale t 1) same

pub halve-scale : (j a x : ℕ) → x < scale j 1 → halve j (scale j a + x) ≡ a
halve-scale zero a x h = omega arith
halve-scale (suc j) a x h = elim (dec_lt x (scale j 1)) [
  | yes p ↦
      let e : 2 * scale j a + x ≡ scale j (2 * a) + x = omega (arith, scale-double j a) in
      rw e (omega (arith, halve-scale j (2 * a) x p))
  | no p ↦
      let e : 2 * scale j a + x ≡ scale j (2 * a + 1) + (x - scale j 1) =
        omega (arith, scale-double j a, scale-add j (2 * a) 1) in
      rw e (omega (arith, halve-scale j (2 * a + 1) (x - scale j 1) (omega arith)))
]
