-- ===== src/Tests/Roles.antt =====
-- The theorems on the roles of files, on three files of which one refers to another.
use traigent_schema.Prelude.{ℕ, ◌≡◌, ◌<◌, ◌↔◌, refl, true, some, [], ◌∷◌}
use traigent_schema.Python.Text.{Text, codes, text_mem, ends_with}
use traigent_schema.BreakingCheck.{request, response}
use traigent_schema.BreakingCheck.Roles.{RoleMap, propagate_roles, compared_role}
use traigent_schema.BreakingCheck.RoleSets.{has}
use traigent_schema.BreakingCheck.Propagated.{Reaches, propagate_roles-Reaches}
use traigent_schema.BreakingCheck.Classified.{compared_role-Reaches}

abbrev direct : RoleMap
direct =
    (codes "d/a_request_schema.json", codes "request" ∷ [])
    ∷ (codes "b", codes "response" ∷ [])
    ∷ []

abbrev graph : RoleMap
graph = (codes "c", codes "d" ∷ []) ∷ (codes "b", codes "c" ∷ []) ∷ []

propagate_run :
    propagate_roles direct graph 3
    ≡ some (
        (codes "d/a_request_schema.json", codes "request" ∷ [])
        ∷ (codes "b", codes "response" ∷ [])
        ∷ (codes "c", codes "response" ∷ [])
        ∷ (codes "d", codes "response" ∷ [])
        ∷ [])
unfolding propagate_roles text_mem
propagate_run = refl

role_run : compared_role (codes "d/a_request_schema.json") direct direct ≡ request
unfolding compared_role ends_with
role_run = refl

propagate_roles-Reaches_example :
    (n : ℕ) × (final : RoleMap) × ((k : ℕ) → n < k → propagate_roles direct graph k ≡ some final)
    × ((f r : Text) → (has final f r ≡ true) ↔ Reaches direct graph f r)
propagate_roles-Reaches_example = propagate_roles-Reaches direct graph

compared_role-Reaches_example :
    (n : ℕ) × (base : RoleMap) × (head : RoleMap) × ((k : ℕ)
      → n < k
      → (propagate_roles direct graph k ≡ some base) × (propagate_roles direct [] k ≡ some head))
    × ((f : Text)
        → (compared_role f base head ≡ request
            → (Reaches direct graph f (codes "response") → ⊥)
              × (Reaches direct [] f (codes "response") → ⊥))
          × (compared_role f base head ≡ response
              → (Reaches direct graph f (codes "request") → ⊥)
                × (Reaches direct [] f (codes "request") → ⊥)))
compared_role-Reaches_example = compared_role-Reaches direct graph direct []
