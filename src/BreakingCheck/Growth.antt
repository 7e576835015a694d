-- ===== src/BreakingCheck/Growth.antt =====
-- The number of the roles that a dict of roles still lacks, and how a pass changes it.
use traigent_schema.Prelude.{
  ℕ, suc, ◌+◌, ◌≤◌, ◌<◌, ◌≡◌, ap, Bool, true, false, not, Option, none, some, List, [], ◌∷◌, arith,
  ◌==◌, if◌then◌else◌, length, Bool-cases, inl, inr,
}
use traigent_schema.Python.Text.{Text, text_eq, text_eq_sound, text_mem}
use traigent_schema.BreakingCheck.Roles.{
  RoleMap, roles_of, or_empty, union, extend, push, push_all, visit_from, pass,
}
use traigent_schema.BreakingCheck.RoleSets.{
  has, length-union, has-extend_new, roles_of-extend, union_grows,
}
use traigent_schema.BreakingCheck.Spread.{
  Within, push-Within, push_all-Within, visit_from-Within, pass-Within,
}

-- a file that got a role
abbrev pub Grown : RoleMap → RoleMap → Type 0
Grown m n = (f : Text) × (r : Text) × (has m f r ≡ false) × (has n f r ≡ true)

missed : (m n : RoleMap) (f r : Text) → Within m n → has n f r ≡ false → has m f r ≡ false
missed m n f r within h = elim (Bool-cases (has m f r)) [
  | inl there ↦ absurd (let later = within f r there in cc)
  | inr gone ↦ gone
]

Grown-before : (m n p : RoleMap) → Within m n → Grown n p → Grown m p
Grown-before m n p within (f, r, fresh, there) = (f, r, missed m n f r within fresh, there)

Grown-after : (m n p : RoleMap) → Within n p → Grown m n → Grown m p
Grown-after m n p within (f, r, fresh, there) = (f, r, fresh, within f r there)

push-Grown :
    (f t : Text) (s : RoleMap × Bool)
    → s.1 ≡ false
    → (push f t s).1 ≡ true
    → Grown s.0 (push f t s).0
unfolding push
push-Grown f t (m, changed) was h =
    let extra = or_empty (roles_of f m) in
    let old = or_empty (roles_of t m) in
    let differ : not (length (or_empty (roles_of t (extend t extra m))) == length old) ≡ true =
      rw was at h in
    let sizes : length (or_empty (roles_of t (extend t extra m))) ≡ length (union old extra) =
      ap length (roles_of-extend t extra m) in
    let least = length-union old extra in
    let longer : length old < length (union old extra) = ground (arith, differ, sizes, least) in
    let (r, there, fresh) = union_grows old extra longer in
    (t, r, fresh, has-extend_new t r extra m there)

push_all-Grown :
    (f : Text) (targets : List Text) (s : RoleMap × Bool)
    → s.1 ≡ false
    → (push_all f targets s).1 ≡ true
    → Grown s.0 (push_all f targets s).0
unfolding push_all
push_all-Grown f [] s was h = absurd (cc)
push_all-Grown f (t ∷ targets) s was h =
    let next = push f t s in
    elim (Bool-cases next.1) [
      | inl grew ↦
          Grown-after s.0 next.0 (push_all f targets next).0 (push_all-Within f targets next)
            (push-Grown f t s was grew)
      | inr quiet ↦
          Grown-before s.0 next.0 (push_all f targets next).0 (push-Within f t s)
            (push_all-Grown f targets next quiet h)
    ]

visit_from-Grown :
    (f : Text) (targets : List Text) (s : RoleMap × Bool) (o : Option (List Text))
    → s.1 ≡ false
    → (visit_from f targets s o).1 ≡ true
    → Grown s.0 (visit_from f targets s o).0
visit_from-Grown f targets s none was h = absurd (cc)
visit_from-Grown f targets s (some rs) was h = push_all-Grown f targets s was h

pub pass-Grown :
    (graph : RoleMap) (s : RoleMap × Bool)
    → s.1 ≡ false
    → (pass graph s).1 ≡ true
    → Grown s.0 (pass graph s).0
unfolding pass
pass-Grown [] s was h = absurd (cc)
pass-Grown ((f, targets) ∷ graph) s was h =
    let next = visit_from f targets s (roles_of f s.0) in
    elim (Bool-cases next.1) [
      | inl grew ↦
          Grown-after s.0 next.0 (pass graph next).0 (pass-Within graph next)
            (visit_from-Grown f targets s (roles_of f s.0) was grew)
      | inr quiet ↦
          Grown-before s.0 next.0 (pass graph next).0
            (visit_from-Within f targets s (roles_of f s.0)) (pass-Grown graph next quiet h)
    ]

-- the roles of the list that a file lacks, and those that the files of a list lack
pub lacking : RoleMap → Text → List Text → ℕ
lacking m f [] = 0
lacking m f (r ∷ roles) = (if has m f r then 0 else 1) + lacking m f roles

pub missing : RoleMap → List Text → List Text → ℕ
unfolding lacking
missing m [] roles = 0
missing m (f ∷ files) roles = lacking m f roles + missing m files roles

lacking-Within :
    (m n : RoleMap) (f : Text) (roles : List Text)
    → Within m n
    → lacking n f roles ≤ lacking m f roles
unfolding lacking
lacking-Within m n f [] within = omega arith
lacking-Within m n f (r ∷ roles) within =
    let rest = lacking-Within m n f roles within in
    elim (Bool-cases (has m f r)) [
      | inl there ↦ let later = within f r there in rw (there, later) (omega (arith, rest))
      | inr gone ↦ rw gone (ground (arith, rest))
    ]

lacking-Grown :
    (m n : RoleMap) (f r : Text) (roles : List Text)
    → Within m n
    → has m f r ≡ false
    → has n f r ≡ true
    → text_mem r roles ≡ true
    → suc (lacking n f roles) ≤ lacking m f roles
unfolding lacking text_mem
lacking-Grown m n f r [] within fresh there listed = absurd (cc)
lacking-Grown m n f r (q ∷ roles) within fresh there listed = elim (Bool-cases (text_eq q r)) [
  | inl same ↦
      let e = text_eq_sound q r same in
      let rest = lacking-Within m n f roles within in
      let lost : has m f q ≡ false = rw e fresh in
      let got : has n f q ≡ true = rw e there in rw (lost, got) (omega (arith, rest))
  | inr other ↦
      let rest = lacking-Grown m n f r roles within fresh there (rw other at listed) in
      elim (Bool-cases (has m f q)) [
        | inl old ↦ let later = within f q old in rw (old, later) (omega (arith, rest))
        | inr gone ↦ rw gone (ground (arith, rest))
      ]
]

missing-Within :
    (m n : RoleMap) (files roles : List Text)
    → Within m n
    → missing n files roles ≤ missing m files roles
unfolding missing
missing-Within m n [] roles within = omega arith
missing-Within m n (f ∷ files) roles within =
    omega (arith, lacking-Within m n f roles within, missing-Within m n files roles within)

pub missing-Grown :
    (m n : RoleMap) (f r : Text) (files roles : List Text)
    → Within m n
    → has m f r ≡ false
    → has n f r ≡ true
    → text_mem f files ≡ true
    → text_mem r roles ≡ true
    → suc (missing n files roles) ≤ missing m files roles
unfolding missing text_mem
missing-Grown m n f r [] roles within fresh there in_files in_roles = absurd (cc)
missing-Grown m n f r (g ∷ files) roles within fresh there in_files in_roles =
    elim (Bool-cases (text_eq g f)) [
      | inl same ↦
          let e = text_eq_sound g f same in
          let here : suc (lacking n g roles) ≤ lacking m g roles =
            lacking-Grown m n g r roles within (rw e fresh) (rw e there) in_roles in
          omega (arith, here, missing-Within m n files roles within)
      | inr other ↦ omega (
        arith,
        lacking-Within m n g roles within,
        missing-Grown m n f r files roles within fresh there (rw other at in_files) in_roles,
      )
    ]
