-- ===== src/BreakingCheck/Propagated.antt =====
-- `propagate_roles` and reachability along the references.
use traigent_schema.Prelude.{
  ℕ, zero, suc, ◌≤◌, ◌<◌, ◌≡◌, refl, ◌∙◌, true, false, ◌||◌, Option, some, List, [], ◌∷◌, ◌++◌,
  arith, Bool-cases, inl, inr, ◌↔◌,
}
use traigent_schema.Python.Text.{Text, text_eq, text_eq_refl, text_mem}
use traigent_schema.BreakingCheck.Roles.{RoleMap, roles_of, seed, pass, spread, propagate_roles}
use traigent_schema.BreakingCheck.RoleSets.{has}
use traigent_schema.BreakingCheck.Spread.{
  edge, Within, Every, edge_inv, pass-Within, seed-edge, seed-Every, pass-Every,
}
use traigent_schema.BreakingCheck.Settled.{pass-Quiet}
use traigent_schema.BreakingCheck.Growth.{pass-Grown, missing, missing-Grown}

-- the endpoints name the file in the role, or a file that they reach in the role refers to it
pub data Reaches (direct graph : RoleMap) : Text → Text → Type 0 where
  named : (f r : Text) → edge direct f r ≡ true → Reaches direct graph f r
  along :
      (f t r : Text) → edge graph f t ≡ true → Reaches direct graph f r → Reaches direct graph t r

-- the keys and the members of a dict of sets
unfoldable pub members : RoleMap → List Text
members [] = []
members ((k, targets) ∷ graph) = targets ++ members graph

unfoldable pub keys : RoleMap → List Text
keys [] = []
keys ((k, targets) ∷ graph) = k ∷ keys graph

text_mem-append :
    (t : Text) (xs ys : List Text) → text_mem t (xs ++ ys) ≡ (text_mem t xs || text_mem t ys)
unfolding text_mem
text_mem-append t [] ys = refl
text_mem-append t (x ∷ xs) ys = let rest = text_mem-append t xs ys in ground (arith, rest)

edge-members :
    (graph : RoleMap) (f t : Text) → edge graph f t ≡ true → text_mem t (members graph) ≡ true
unfolding members edge
edge-members [] f t h = absurd (cc)
edge-members ((k, targets) ∷ graph) f t h = elim (edge_inv k targets graph f t h) [
  | inl (same, listed) ↦ text_mem-append t targets (members graph) ∙ rw listed refl
  | inr later ↦
      let rest = edge-members graph f t later in
      text_mem-append t targets (members graph) ∙ rw rest (ground arith)
]

edge-keys : (graph : RoleMap) (f t : Text) → edge graph f t ≡ true → text_mem f (keys graph) ≡ true
unfolding keys edge text_mem
edge-keys [] f t h = absurd (cc)
edge-keys ((k, targets) ∷ graph) f t h = elim (edge_inv k targets graph f t h) [
  | inl (same, listed) ↦ let here : text_eq k f ≡ true = rw same (text_eq_refl f) in rw here refl
  | inr later ↦ let rest = edge-keys graph f t later in rw rest (ground arith)
]

some_inj : {m n : RoleMap} → ◌≡◌ {A = Option RoleMap} (some m) (some n) → m ≡ n
some_inj e = cc

module _ (direct graph : RoleMap) where
  -- every file and role that can ever be met
  files : List Text
  files = keys direct ++ members graph

  Listed : Text → Text → Type 0
  Listed f r = (text_mem f files ≡ true) × (text_mem r (members direct) ≡ true)

  Listed-named : (f r : Text) → edge direct f r ≡ true → Listed f r
  unfolding Listed files
  Listed-named f r h =
      let here = edge-keys direct f r h in
      (text_mem-append f (keys direct) (members graph) ∙ rw here refl, edge-members direct f r h)

  Listed-along : (f t r : Text) → edge graph f t ≡ true → Listed f r → Listed t r
  unfolding Listed files
  Listed-along f t r h (_, role) =
      let there = edge-members graph f t h in
      (text_mem-append t (keys direct) (members graph) ∙ rw there (ground arith), role)

  spread-quiet :
      (m : RoleMap) (k : ℕ)
      → (pass graph (m, false)).1 ≡ false
      → 0 < k
      → spread graph k m ≡ some (pass graph (m, false)).0
  unfolding spread
  spread-quiet m zero quiet pos = absurd (omega arith)
  spread-quiet m (suc k) quiet pos = rw quiet refl

  spread-grew :
      (m : RoleMap) (n k : ℕ) (final : RoleMap)
      → (pass graph (m, false)).1 ≡ true
      → ((j : ℕ) → n < j → spread graph j (pass graph (m, false)).0 ≡ some final)
      → suc n < k
      → spread graph k m ≡ some final
  unfolding spread
  spread-grew m n zero final grew ends enough = absurd (omega arith)
  spread-grew m n (suc k) final grew ends enough = rw grew (ends k (omega arith))

  fewer :
      (m : RoleMap)
      → Every Listed m
      → (pass graph (m, false)).1 ≡ true
      → suc (missing (pass graph (m, false)).0 files (members direct))
        ≤ missing m files (members direct)
  unfolding Listed
  fewer m listed grew =
      let (f, r, fresh, there) = pass-Grown graph (m, false) refl grew in
      let (in_files, in_roles) = pass-Every Listed graph (m, false) Listed-along listed f r there in
      missing-Grown m (pass graph (m, false)).0 f r files (members direct)
        (pass-Within graph (m, false)) fresh there in_files in_roles

  spread_ends :
      (n : ℕ) (m : RoleMap)
      → missing m files (members direct) ≤ n
      → Every Listed m
      → (final : RoleMap) × ((k : ℕ) → n < k → spread graph k m ≡ some final)
  spread_ends zero m few listed = elim (Bool-cases (pass graph (m, false)).1) [
    | inr quiet ↦ ((pass graph (m, false)).0, λ k enough. spread-quiet m k quiet enough)
    | inl grew ↦ absurd (let strict = fewer m listed grew in omega (arith, strict, few))
  ]
  spread_ends (suc n) m few listed = elim (Bool-cases (pass graph (m, false)).1) [
    | inr quiet ↦ ((pass graph (m, false)).0, λ k enough. spread-quiet m k quiet (omega arith))
    | inl grew ↦
        let next = (pass graph (m, false)).0 in
        let (final, ends) =
          spread_ends n next (omega (arith, fewer m listed grew, few))
            (pass-Every Listed graph (m, false) Listed-along listed) in
        (final, λ k enough. spread-grew m n k final grew ends enough)
  ]

  -- a settled map: no reference adds a role
  Settled : RoleMap → Type 0
  Settled m = (f t r : Text) → edge graph f t ≡ true → has m f r ≡ true → has m t r ≡ true

  spread-Settled :
      (P : Text → Text → Type 0)
      → ((f t r : Text) → edge graph f t ≡ true → P f r → P t r)
      → (k : ℕ) (m final : RoleMap) → spread graph k m ≡ some final
      → Every P m
      → Settled final × Within m final × Every P final
  unfolding spread Settled
  spread-Settled P moves zero m final e every = absurd (cc)
  spread-Settled P moves (suc k) m final e every =
      let next = (pass graph (m, false)).0 in
      elim (Bool-cases (pass graph (m, false)).1) [
        | inl grew ↦
            let (settled, more, all) =
              spread-Settled P moves k next final (rw grew at e)
                (pass-Every P graph (m, false) moves every) in
            (settled, (λ f r h. more f r (pass-Within graph (m, false) f r h)), all)
        | inr quiet ↦
            let same : next ≡ final = some_inj (rw quiet at e) in
            let (found, closed) = pass-Quiet graph (m, false) quiet in
            (
              (λ f t r h there.
                  let before : has m f r ≡ true = found.same f r (rw same there) in
                  rw⁻¹ same (pass-Within graph (m, false) t r (closed f t r h before))),
              (λ f r h. rw⁻¹ same (pass-Within graph (m, false) f r h)),
              (λ f r h. pass-Every P graph (m, false) moves every f r (rw same h)),
            )
      ]

  has-Reaches :
      (final : RoleMap)
      → Settled final
      → ((f r : Text) → edge direct f r ≡ true → has final f r ≡ true)
      → (f r : Text) → Reaches direct graph f r
      → has final f r ≡ true
  unfolding Settled
  has-Reaches final settled start _ _ (named f r h) = start f r h
  has-Reaches final settled start _ _ (along f t r h path) =
      settled f t r h (has-Reaches final settled start f r path)

  nothing : (P : Text → Text → Type 0) → Every P []
  unfolding roles_of text_mem
  nothing P f r h = absurd (cc)

  -- `propagate_roles` ends on every pair of dicts, and a file then has a role exactly when the endpoints name
  -- the file in the role, or name in the role a file from which references lead to it.
  pub propagate_roles-Reaches :
      (n : ℕ) × (final : RoleMap) × ((k : ℕ) → n < k → propagate_roles direct graph k ≡ some final)
      × ((f r : Text) → (has final f r ≡ true) ↔ Reaches direct graph f r)
  unfolding propagate_roles
  propagate_roles-Reaches =
      let start = seed direct [] in
      let n = missing start files (members direct) in
      let (final, ends) =
        spread_ends n start (omega arith)
          (seed-Every Listed direct [] Listed-named (nothing Listed)) in
      let (settled, more, reached) =
        spread-Settled (Reaches direct graph) (λ f t r h path. along f t r h path) (suc n) start
          final (ends (suc n) (omega arith))
          (seed-Every (Reaches direct graph) direct [] (λ f r h. named f r h)
            (nothing (Reaches direct graph))) in
      (
        n,
        final,
        ends,
        λ f r. (
          reached f r,
          has-Reaches final settled (λ g q h. more g q (seed-edge direct [] g q h)) f r,
        ),
      )
