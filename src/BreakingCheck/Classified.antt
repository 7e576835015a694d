-- ===== src/BreakingCheck/Classified.antt =====
-- `classify_file_role` over the roles of the base tree and of the head tree.
use traigent_schema.Prelude.{
  ℕ, ◌+◌, ◌≡◌, ◌<◌, refl, Bool, true, false, some, List, [], ◌∷◌, Bool-cases, inl, inr,
  if◌then◌else◌, arith,
}
use traigent_schema.Python.Text.{Text, codes, text_eq, text_mem, ends_with}
use traigent_schema.BreakingCheck.{request, response, conservative}
use traigent_schema.BreakingCheck.Roles.{
  RoleMap, roles_of, or_empty, seed, path_name, propagate_roles, merged_roles, classify_file_role,
  compared_role,
}
use traigent_schema.BreakingCheck.RoleSets.{has}
use traigent_schema.BreakingCheck.Spread.{edge, seed-edge, seed-Within}
use traigent_schema.BreakingCheck.Propagated.{Reaches, propagate_roles-Reaches}

classify_request :
    (relpath : Text) (roles : List Text)
    → classify_file_role relpath roles ≡ request
    → text_mem (codes "response") roles ≡ false
unfolding classify_file_role
classify_request relpath roles e =
    decided (text_mem (codes "response") roles) (text_mem (codes "request") roles)
      (ends_with (codes "_request_schema.json") (path_name relpath))
      (ends_with (codes "_response_schema.json") (path_name relpath)) e
  where
    decided :
        (a b p q : Bool)
        → (if p
            then (if a then conservative else request)
            else if q
            then (if b then conservative else response)
            else conservative)
          ≡ request
        → a ≡ false
    decided false b p q e = refl
    decided true b true q e = absurd (cc)
    decided true true false true e = absurd (cc)
    decided true false false true e = absurd (cc)
    decided true b false false e = absurd (cc)

classify_response :
    (relpath : Text) (roles : List Text)
    → classify_file_role relpath roles ≡ response
    → text_mem (codes "request") roles ≡ false
unfolding classify_file_role
classify_response relpath roles e =
    decided (text_mem (codes "response") roles) (text_mem (codes "request") roles)
      (ends_with (codes "_request_schema.json") (path_name relpath))
      (ends_with (codes "_response_schema.json") (path_name relpath)) e
  where
    decided :
        (a b p q : Bool)
        → (if p
            then (if a then conservative else request)
            else if q
            then (if b then conservative else response)
            else conservative)
          ≡ response
        → b ≡ false
    decided a false p q e = refl
    decided true true true q e = absurd (cc)
    decided false true true q e = absurd (cc)
    decided a true false true e = absurd (cc)
    decided a true false false e = absurd (cc)

has-edge : (m : RoleMap) (f r : Text) → has m f r ≡ true → edge m f r ≡ true
unfolding roles_of edge text_mem
has-edge [] f r h = absurd (cc)
has-edge ((k, rs) ∷ m) f r h = elim (Bool-cases (text_eq k f)) [
  | inl here ↦ let there : text_mem r rs ≡ true = rw here at h in rw (here, there) refl
  | inr away ↦ let later = has-edge m f r (rw away at h) in rw later (ground arith)
]

-- the merged map has what either tree has
merged-base :
    (base head : RoleMap) (f r : Text)
    → has base f r ≡ true
    → has (merged_roles base head) f r ≡ true
unfolding merged_roles
merged-base base head f r h =
    seed-Within head (seed base []) f r (seed-edge base [] f r (has-edge base f r h))

merged-head :
    (base head : RoleMap) (f r : Text)
    → has head f r ≡ true
    → has (merged_roles base head) f r ≡ true
unfolding merged_roles
merged-head base head f r h = seed-edge head (seed base []) f r (has-edge head f r h)

clash : (b : Bool) → b ≡ false → b ≡ true → ⊥
clash true h e = absurd (cc)
clash false h e = absurd (cc)

in_neither :
    (base head : RoleMap) (f r : Text)
    → has (merged_roles base head) f r ≡ false
    → (has base f r ≡ true → ⊥) × (has head f r ≡ true → ⊥)
in_neither base head f r free = (
  (λ h. clash (has (merged_roles base head) f r) free (merged-base base head f r h)),
  (λ h. clash (has (merged_roles base head) f r) free (merged-head base head f r h)),
)

-- `propagate_roles` ends on the base tree and on the head tree, and with the two maps that it returns a
-- file is compared as request-only only if no response reaches it in either tree, and as
-- response-only only if no request does.
pub compared_role-Reaches :
    (direct graph direct' graph' : RoleMap)
    → (n : ℕ) × (base : RoleMap) × (head : RoleMap) × ((k : ℕ)
        → n < k
        → (propagate_roles direct graph k ≡ some base)
          × (propagate_roles direct' graph' k ≡ some head))
      × ((f : Text)
          → (compared_role f base head ≡ request
              → (Reaches direct graph f (codes "response") → ⊥)
                × (Reaches direct' graph' f (codes "response") → ⊥))
            × (compared_role f base head ≡ response
                → (Reaches direct graph f (codes "request") → ⊥)
                  × (Reaches direct' graph' f (codes "request") → ⊥)))
unfolding compared_role
compared_role-Reaches direct graph direct' graph' =
    let (m, base, ends, reached) = propagate_roles-Reaches direct graph in
    let (n, head, ends', reached') = propagate_roles-Reaches direct' graph' in
    (
      m + n,
      base,
      head,
      (λ k enough. (ends k (omega (arith, enough)), ends' k (omega (arith, enough)))),
      λ f. (
        (λ e.
            let (old, new) =
              in_neither base head f (codes "response")
                (classify_request f (or_empty (roles_of f (merged_roles base head))) e) in
            (
              (λ path. old ((reached f (codes "response")).1 path)),
              (λ path. new ((reached' f (codes "response")).1 path)),
            )),
        (λ e.
            let (old, new) =
              in_neither base head f (codes "request")
                (classify_response f (or_empty (roles_of f (merged_roles base head))) e) in
            (
              (λ path. old ((reached f (codes "request")).1 path)),
              (λ path. new ((reached' f (codes "request")).1 path)),
            )),
      ),
    )
