-- ===== src/BreakingCheck/RoleSets.antt =====
-- The sets of roles: unions, and the update of one file's roles.
use traigent_schema.Prelude.{
  suc, ◌≤◌, ◌<◌, ◌≡◌, refl, sym, ◌∙◌, Bool, true, false, List, [], ◌∷◌, arith, length, Bool-cases,
  ◌⊎◌, inl, inr,
}
use traigent_schema.Python.Text.{Text, text_eq, text_eq_sound, text_eq_refl, text_mem}
use traigent_schema.BreakingCheck.Roles.{RoleMap, roles_of, or_empty, union, extend}

-- file `f` has role `r`
abbrev pub has : RoleMap → Text → Text → Bool
has m f r = text_mem r (or_empty (roles_of f m))

union-old :
    (r : Text) (rs extra : List Text) → text_mem r rs ≡ true → text_mem r (union rs extra) ≡ true
unfolding union text_mem
union-old r rs [] h = h
union-old r rs (x ∷ extra) h = ground (arith, union-old r rs extra h)

union-new :
    (r : Text) (rs extra : List Text) → text_mem r extra ≡ true → text_mem r (union rs extra) ≡ true
unfolding union text_mem
union-new r rs [] h = absurd (cc)
union-new r rs (x ∷ extra) h = elim (Bool-cases (text_mem x (union rs extra))) [
  | inl there ↦ elim (Bool-cases (text_eq x r)) [
    | inl same ↦ let e = text_eq_sound x r same in rw there (rw⁻¹ e there)
    | inr other ↦ rw there (union-new r rs extra (rw other at h))
  ]
  | inr fresh ↦ elim (Bool-cases (text_eq x r)) [
    | inl same ↦ rw (fresh, same) refl
    | inr other ↦ let later = union-new r rs extra (rw other at h) in rw (fresh, other, later) refl
  ]
]

pub union_inv :
    (r : Text) (rs extra : List Text)
    → text_mem r (union rs extra) ≡ true
    → (text_mem r rs ≡ true) ⊎ (text_mem r extra ≡ true)
unfolding union text_mem
union_inv r rs [] h = inl h
union_inv r rs (x ∷ extra) h = elim (Bool-cases (text_eq x r)) [
  | inl same ↦ inr (rw same refl)
  | inr other ↦
      let rest : text_mem r (union rs extra) ≡ true = ground (arith, other, h) in
      elim (union_inv r rs extra rest) [ inl old ↦ inl old | inr new ↦ inr (rw (other, new) refl) ]
]

pub length-union : (rs extra : List Text) → length rs ≤ length (union rs extra)
unfolding union
length-union rs [] = omega arith
length-union rs (x ∷ extra) = ground (arith, length-union rs extra)

-- A union that is no longer adds nothing.
pub union_same :
    (r : Text) (rs extra : List Text)
    → length (union rs extra) ≡ length rs
    → text_mem r extra ≡ true
    → text_mem r rs ≡ true
unfolding union text_mem
union_same r rs [] e m = absurd (cc)
union_same r rs (x ∷ extra) e m = elim (Bool-cases (text_mem x (union rs extra))) [
  | inr fresh ↦ absurd (
      let longer : suc (length (union rs extra)) ≡ length rs = rw fresh at e in
      let least = length-union rs extra in omega (arith, longer, least))
  | inl there ↦
      let size : length (union rs extra) ≡ length rs = rw there at e in
      elim (Bool-cases (text_eq x r)) [
        | inr other ↦ union_same r rs extra size (rw other at m)
        | inl same ↦
            let here = text_eq_sound x r same in
            elim (union_inv x rs extra there) [
              | inl old ↦ rw⁻¹ here old
              | inr new ↦ rw⁻¹ here (union_same x rs extra size new)
            ]
      ]
]

pub has-extend_old :
    (t f r : Text) (extra : List Text) (m : RoleMap)
    → has m f r ≡ true
    → has (extend t extra m) f r ≡ true
unfolding extend roles_of text_mem
has-extend_old t f r extra [] h = absurd (cc)
has-extend_old t f r extra ((k, rs) ∷ m) h = elim (Bool-cases (text_eq k t)) [
  | inl here ↦ elim (Bool-cases (text_eq k f)) [
    | inl same ↦ rw (here, same) (union-old r rs extra (rw same at h))
    | inr other ↦ rw (here, other) (rw other at h)
  ]
  | inr away ↦ elim (Bool-cases (text_eq k f)) [
    | inl same ↦ rw (away, same) (rw same at h)
    | inr other ↦ rw (away, other) (has-extend_old t f r extra m (rw other at h))
  ]
]

pub has-extend_new :
    (t r : Text) (extra : List Text) (m : RoleMap)
    → text_mem r extra ≡ true
    → has (extend t extra m) t r ≡ true
unfolding extend roles_of
has-extend_new t r extra [] h = rw (text_eq_refl t) (union-new r [] extra h)
has-extend_new t r extra ((k, rs) ∷ m) h = elim (Bool-cases (text_eq k t)) [
  | inl here ↦ rw (here, here) (union-new r rs extra h)
  | inr away ↦ rw (away, away) (has-extend_new t r extra m h)
]

pub has-extend_inv :
    (t f r : Text) (extra : List Text) (m : RoleMap)
    → has (extend t extra m) f r ≡ true
    → (has m f r ≡ true) ⊎ ((t ≡ f) × (text_mem r extra ≡ true))
unfolding extend roles_of text_mem
has-extend_inv t f r extra [] h = elim (Bool-cases (text_eq t f)) [
  | inl same ↦ elim (union_inv r [] extra (rw same at h)) [
    | inl none_old ↦ absurd (cc)
    | inr new ↦ inr (text_eq_sound t f same, new)
  ]
  | inr other ↦ absurd (let no_role : false ≡ true = rw other at h in cc)
]
has-extend_inv t f r extra ((k, rs) ∷ m) h = elim (Bool-cases (text_eq k t)) [
  | inl here ↦ elim (Bool-cases (text_eq k f)) [
    | inl same ↦ elim (union_inv r rs extra (rw (here, same) at h)) [
      | inl old ↦ rw same (inl old)
      | inr new ↦ inr (sym (text_eq_sound k t here) ∙ text_eq_sound k f same, new)
    ]
    | inr other ↦ rw other (inl (rw (here, other) at h))
  ]
  | inr away ↦ elim (Bool-cases (text_eq k f)) [
    | inl same ↦ rw same (inl (rw (away, same) at h))
    | inr other ↦ rw other (has-extend_inv t f r extra m (rw (away, other) at h))
  ]
]

pub roles_of-extend :
    (t : Text) (extra : List Text) (m : RoleMap)
    → or_empty (roles_of t (extend t extra m)) ≡ union (or_empty (roles_of t m)) extra
unfolding extend roles_of
roles_of-extend t extra [] = rw (text_eq_refl t) refl
roles_of-extend t extra ((k, rs) ∷ m) = elim (Bool-cases (text_eq k t)) [
  | inl here ↦ rw (here, here) refl
  | inr away ↦ rw (away, away) (roles_of-extend t extra m)
]

-- A union that is longer has something new.
pub union_grows :
    (rs extra : List Text)
    → length rs < length (union rs extra)
    → (r : Text) × (text_mem r extra ≡ true) × (text_mem r rs ≡ false)
unfolding union text_mem
union_grows rs [] h = absurd (omega arith)
union_grows rs (x ∷ extra) h = elim (Bool-cases (text_mem x (union rs extra))) [
  | inl there ↦
      let (r, m, fresh) = union_grows rs extra (rw there at h) in (r, rw m (ground arith), fresh)
  | inr fresh ↦ elim (Bool-cases (text_mem x rs)) [
    | inr new ↦ (x, rw (text_eq_refl x) refl, new)
    | inl old ↦ absurd (let there = union-old x rs extra old in cc)
  ]
]
