-- ===== src/BreakingCheck/Roles.antt =====
-- `propagate_roles` of scripts/breaking_schema_check.py: the roles of the files that the endpoints name
-- spread along the references. A dict is the list of its items, a set a list without repetition.
use traigent_schema.Prelude.{
  ℕ, zero, suc, Bool, false, not, ◌||◌, Option, none, some, List, [], ◌∷◌, ◌==◌, if◌then◌else◌,
  length,
}
use traigent_schema.Python.Text.{Text, codes, text_eq, text_mem, ends_with}
use traigent_schema.BreakingCheck.{Role, request, response, conservative}

abbrev pub RoleMap : Type 0
RoleMap = List (Text × List Text)

-- `roles.get(f)`
unfoldable pub roles_of : Text → RoleMap → Option (List Text)
roles_of f [] = none
roles_of f ((k, rs) ∷ m) = let rest = roles_of f m in if text_eq k f then some rs else rest

abbrev pub or_empty : Option (List Text) → List Text
or_empty none = []
or_empty (some rs) = rs

-- `rs |= extra`
unfoldable pub union : List Text → List Text → List Text
union rs [] = rs
union rs (r ∷ extra) = let rest = union rs extra in if text_mem r rest then rest else r ∷ rest

-- `roles[t] |= extra` of a defaultdict
unfoldable pub extend : Text → List Text → RoleMap → RoleMap
unfolding union
extend t extra [] = (t, union [] extra) ∷ []
extend t extra ((k, rs) ∷ m) =
    let rest = extend t extra m in if text_eq k t then (k, union rs extra) ∷ m else (k, rs) ∷ rest

-- `for f, rs in direct.items(): roles[f] |= rs`
unfoldable pub seed : RoleMap → RoleMap → RoleMap
unfolding extend
seed [] m = m
seed ((f, rs) ∷ direct) m = seed direct (extend f rs m)

-- one target of `f`, with the flag `changed`
unfoldable pub push : Text → Text → (RoleMap × Bool) → RoleMap × Bool
unfolding extend roles_of
push f t (m, changed) =
    let next = extend t (or_empty (roles_of f m)) m in
    (next, changed || not (length (or_empty (roles_of t next)) == length (or_empty (roles_of t m))))

unfoldable pub push_all : Text → List Text → (RoleMap × Bool) → RoleMap × Bool
unfolding push
push_all f [] s = s
push_all f (t ∷ targets) s = push_all f targets (push f t s)

-- `if f not in roles: continue`
abbrev pub visit_from : Text → List Text → (RoleMap × Bool) → Option (List Text) → RoleMap × Bool
visit_from f targets s none = s
visit_from f targets s (some rs) = push_all f targets s

unfoldable pub pass : RoleMap → (RoleMap × Bool) → RoleMap × Bool
unfolding roles_of push_all
pass [] s = s
pass ((f, targets) ∷ graph) s = pass graph (visit_from f targets s (roles_of f s.0))

-- `while changed`; `none` when the fuel is used up
unfoldable pub spread : (graph : RoleMap) → ℕ → RoleMap → Option RoleMap
unfolding pass
spread graph zero m = none
spread graph (suc fuel) m =
    let s = pass graph (m, false) in
    let rest = spread graph fuel s.0 in if s.1 then rest else some s.0

unfoldable pub propagate_roles : (direct graph : RoleMap) → ℕ → Option RoleMap
unfolding seed spread
propagate_roles direct graph fuel = spread graph fuel (seed direct [])

-- the merged map of `compare_trees`: the roles of the base tree and of the head tree
unfoldable pub merged_roles : (base head : RoleMap) → RoleMap
unfolding seed
merged_roles base head = seed head (seed base [])

unfoldable pub has_slash : Text → Bool
has_slash [] = false
has_slash (c ∷ s) = (c == b'/') || has_slash s

-- `Path(relpath).name` of a path that does not end in a slash
unfoldable pub path_name : Text → Text
unfolding has_slash
path_name [] = []
path_name (c ∷ s) =
    let rest = path_name s in if has_slash s then rest else if c == b'/' then s else c ∷ s

-- `classify_file_role`, without the explanation
unfoldable pub classify_file_role : Text → List Text → Role
unfolding path_name text_mem ends_with
classify_file_role relpath graph_roles =
    let of_request = if text_mem (codes "response") graph_roles then conservative else request in
    let of_response = if text_mem (codes "request") graph_roles then conservative else response in
    if ends_with (codes "_request_schema.json") (path_name relpath)
    then of_request
    else if ends_with (codes "_response_schema.json") (path_name relpath)
    then of_response
    else conservative

-- the role by which `compare_trees` compares a file: the roles of both trees count
unfoldable pub compared_role : Text → (base head : RoleMap) → Role
unfolding merged_roles classify_file_role roles_of
compared_role relpath base head =
    classify_file_role relpath (or_empty (roles_of relpath (merged_roles base head)))
