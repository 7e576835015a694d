-- ===== src/AgentQuality/Quantile.antt =====
-- `_lookup_t_scaled` in a table whose buckets rise from row to row.
use traigent_schema.Prelude.{
  ℕ, zero, suc, ◌≤◌, ◌<◌, ◌≡◌, refl, Option, some, List, [], ◌∷◌, map, arith, get_elem?, All,
  Bool-cases, inl, inr, ltb,
}
use traigent_schema.Python.Result.{Result, ok, err}
use traigent_schema.AgentQuality.{
  QualityError, quantile_table_lookup_failed, bisect_right, row_before, lookup_t_scaled,
}

-- the buckets rise from row to row, as `_quantile_buckets_by_coverage` sorts them
abbrev pub IsAscending : List (ℕ × ℕ) → Type 0
IsAscending [] = Unit {0}
IsAscending (row ∷ rows) = All (λ (later : ℕ × ℕ). row.0 < later.0) rows × IsAscending rows

-- what the lookup among `rows` promises: the quantile of the row of the largest bucket up to `df`, or its error
-- where every bucket is larger
abbrev pub IsLookup : List (ℕ × ℕ) → ℕ → Result QualityError ℕ → Type 0
IsLookup rows df (ok t) =
    (i : ℕ) × (row : ℕ × ℕ) × (get_elem? rows i ≡ some row)
    × (row.0 ≤ df)
    × (row.1 ≡ t)
    × ((j : ℕ) (other : ℕ × ℕ) → get_elem? rows j ≡ some other → other.0 ≤ df → other.0 ≤ row.0)
IsLookup rows df (err raised) =
    (raised ≡ quantile_table_lookup_failed)
    × ((j : ℕ) (other : ℕ × ℕ) → get_elem? rows j ≡ some other → df < other.0)

abbrev buckets_of : List (ℕ × ℕ) → List ℕ
buckets_of rows = map (λ (row : ℕ × ℕ). row.0) rows

All-get_elem? :
    (P : (ℕ × ℕ) → Type 0) (rows : List (ℕ × ℕ)) (i : ℕ) (row : ℕ × ℕ)
    → All P rows
    → get_elem? rows i ≡ some row
    → P row
All-get_elem? P [] i row w e = absurd (cc)
All-get_elem? P (r ∷ rows) zero row w e = let same : r ≡ row = cc in rw⁻¹ same w.0
All-get_elem? P (r ∷ rows) (suc i) row w e = All-get_elem? P rows i row w.1 e

-- the rows before the bisection point are up to `df`
bisect_right-below :
    (rows : List (ℕ × ℕ)) (df j : ℕ) (other : ℕ × ℕ)
    → get_elem? rows j ≡ some other
    → j < bisect_right (buckets_of rows) df
    → other.0 ≤ df
unfolding bisect_right
bisect_right-below [] df j other e h = absurd (cc)
bisect_right-below (r ∷ rows) df zero other e h =
    let same : r ≡ other = cc in let here : r.0 ≤ df = ground arith in rw⁻¹ same here
bisect_right-below (r ∷ rows) df (suc j) other e h =
    bisect_right-below rows df j other e (ground arith)

-- in ascending rows the others are beyond `df`
bisect_right-above :
    (rows : List (ℕ × ℕ)) (df j : ℕ) (other : ℕ × ℕ)
    → IsAscending rows
    → get_elem? rows j ≡ some other
    → bisect_right (buckets_of rows) df ≤ j
    → df < other.0
unfolding bisect_right
bisect_right-above [] df j other a e h = absurd (cc)
bisect_right-above (r ∷ rows) df zero other a e h =
    let same : r ≡ other = cc in let here : df < r.0 = ground arith in rw⁻¹ same here
bisect_right-above (r ∷ rows) df (suc j) other a e h = elim (Bool-cases (ltb df r.0)) [
  | inl small ↦
      let above = All-get_elem? (λ later. r.0 < later.0) rows j other a.0 e in
      ground (arith, small, above)
  | inr large ↦ bisect_right-above rows df j other a.1 e (ground (arith, large, h))
]

bisect_right-length :
    (rows : List (ℕ × ℕ)) (df i : ℕ)
    → i < bisect_right (buckets_of rows) df
    → (row : ℕ × ℕ) × (get_elem? rows i ≡ some row)
unfolding bisect_right
bisect_right-length [] df i h = absurd (omega arith)
bisect_right-length (r ∷ rows) df zero h = (r, refl)
bisect_right-length (r ∷ rows) df (suc i) h = bisect_right-length rows df i (ground arith)

ascending-get_elem? :
    (rows : List (ℕ × ℕ)) (i j : ℕ) (a b : ℕ × ℕ)
    → IsAscending rows
    → i ≤ j
    → get_elem? rows i ≡ some a
    → get_elem? rows j ≡ some b
    → a.0 ≤ b.0
ascending-get_elem? [] i j a b f h ea eb = absurd (cc)
ascending-get_elem? (r ∷ rows) zero zero a b f h ea eb =
    let same : b ≡ a = cc in rw same (omega arith)
ascending-get_elem? (r ∷ rows) zero (suc j) a b f h ea eb =
    let same : r ≡ a = cc in
    let above = All-get_elem? (λ later. r.0 < later.0) rows j b f.0 eb in
    rw⁻¹ same (omega (arith, above))
ascending-get_elem? (r ∷ rows) (suc i) zero a b f h ea eb = absurd (omega arith)
ascending-get_elem? (r ∷ rows) (suc i) (suc j) a b f h ea eb =
    ascending-get_elem? rows i j a b f.1 (omega arith) ea eb

row_before-IsLookup :
    (rows : List (ℕ × ℕ)) (df n : ℕ)
    → IsAscending rows
    → bisect_right (buckets_of rows) df ≡ n
    → IsLookup rows df (row_before n rows)
row_before-IsLookup rows df zero a e =
    (refl, λ j other at. bisect_right-above rows df j other a at (omega (arith, e)))
row_before-IsLookup rows df (suc i) a e =
    let (row, at_row) = bisect_right-length rows df i (omega (arith, e)) in
    rw at_row (
      i,
      row,
      at_row,
      bisect_right-below rows df i row at_row (omega (arith, e)),
      refl,
      λ j other at up_to. elim (Bool-cases (ltb i j)) [
        | inl later ↦
            let above = bisect_right-above rows df j other a at (ground (arith, e, later)) in
            absurd (omega (arith, above, up_to))
        | inr before ↦ ascending-get_elem? rows j i other row a (ground (arith, before)) at at_row
      ],
    )

-- With buckets that rise from row to row, _lookup_t_scaled returns the quantile of a row of the table whose bucket is at
-- most the degrees of freedom and at least every other such bucket, and fails exactly where every bucket exceeds them.
pub lookup_t_scaled-IsLookup :
    (table : ℕ → Option (List (ℕ × ℕ))) (rows : List (ℕ × ℕ)) (coverage_ppm df : ℕ)
    → table coverage_ppm ≡ some rows
    → IsAscending rows
    → IsLookup rows df (lookup_t_scaled table coverage_ppm df)
unfolding lookup_t_scaled
lookup_t_scaled-IsLookup table rows coverage_ppm df found ascending =
    rw found (row_before-IsLookup rows df _ ascending refl)
