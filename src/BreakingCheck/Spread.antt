-- ===== src/BreakingCheck/Spread.antt =====
-- What one pass of `propagate_roles` keeps, adds and, when it reports no change, leaves closed.
use traigent_schema.Prelude.{
  ◌≡◌, refl, Bool, true, false, ◌||◌, ◌&&◌, Option, none, some, List, [], ◌∷◌, arith, ◌⊎◌, inl, inr,
}
use traigent_schema.Python.Text.{Text, text_eq, text_eq_sound, text_eq_refl, text_mem}
use traigent_schema.BreakingCheck.Roles.{
  RoleMap, roles_of, or_empty, extend, seed, push, push_all, visit_from, pass,
}
use traigent_schema.BreakingCheck.RoleSets.{has, has-extend_old, has-extend_new, has-extend_inv}

-- an entry of `f` lists `t`
unfoldable pub edge : RoleMap → Text → Text → Bool
unfolding text_mem
edge [] f t = false
edge ((k, targets) ∷ graph) f t = (text_eq k f && text_mem t targets) || edge graph f t

-- every role that a file has satisfies `P`
abbrev pub Every : (Text → Text → Type 0) → RoleMap → Type 0
Every P m = (f r : Text) → has m f r ≡ true → P f r

-- the second map has what the first one has
abbrev pub Within : RoleMap → RoleMap → Type 0
Within m n = (f r : Text) → has m f r ≡ true → has n f r ≡ true

pub either : (a b : Bool) → (a || b) ≡ true → (a ≡ true) ⊎ (b ≡ true)
either true b h = inl refl
either false b h = inr h

pub both_true : (a b : Bool) → (a && b) ≡ true → (a ≡ true) × (b ≡ true)
both_true true b h = (refl, h)
both_true false b h = absurd (cc)

pub edge-head :
    (k : Text) (targets : List Text) (graph : RoleMap) (t : Text)
    → text_mem t targets ≡ true
    → edge ((k, targets) ∷ graph) k t ≡ true
unfolding edge
edge-head k targets graph t h = rw (text_eq_refl k, h) refl

pub edge-tail :
    (k : Text) (targets : List Text) (graph : RoleMap) (f t : Text)
    → edge graph f t ≡ true
    → edge ((k, targets) ∷ graph) f t ≡ true
unfolding edge
edge-tail k targets graph f t h = rw h (ground arith)

pub edge_inv :
    (k : Text) (targets : List Text) (graph : RoleMap) (f t : Text)
    → edge ((k, targets) ∷ graph) f t ≡ true
    → ((k ≡ f) × (text_mem t targets ≡ true)) ⊎ (edge graph f t ≡ true)
unfolding edge
edge_inv k targets graph f t h =
    elim (either (text_eq k f && text_mem t targets) (edge graph f t) h) [
      | inl here ↦
          let (same, m) = both_true (text_eq k f) (text_mem t targets) here in
          inl (text_eq_sound k f same, m)
      | inr later ↦ inr later
    ]

pub seed-Within : (direct m : RoleMap) → Within m (seed direct m)
unfolding seed
seed-Within [] m f r h = h
seed-Within ((k, rs) ∷ direct) m f r h =
    seed-Within direct (extend k rs m) f r (has-extend_old k f r rs m h)

pub seed-edge :
    (direct m : RoleMap) (f r : Text) → edge direct f r ≡ true → has (seed direct m) f r ≡ true
unfolding seed edge
seed-edge [] m f r h = absurd (cc)
seed-edge ((k, rs) ∷ direct) m f r h = elim (edge_inv k rs direct f r h) [
  | inl (same, new) ↦
      seed-Within direct (extend k rs m) f r (rw⁻¹ same (has-extend_new k r rs m new))
  | inr later ↦ seed-edge direct (extend k rs m) f r later
]

pub seed-Every :
    (P : Text → Text → Type 0) (direct m : RoleMap)
    → ((f r : Text) → edge direct f r ≡ true → P f r)
    → Every P m
    → Every P (seed direct m)
unfolding seed
seed-Every P [] m from every = every
seed-Every P ((k, rs) ∷ direct) m from every =
    seed-Every P direct (extend k rs m) (λ f r e. from f r (edge-tail k rs direct f r e))
      (λ f r h. elim (has-extend_inv k f r rs m h) [
        | inl old ↦ every f r old
        | inr (same, new) ↦ rw⁻¹ same (from k r (edge-head k rs direct r new))
      ])

pub push-Within : (f t : Text) (s : RoleMap × Bool) → Within s.0 (push f t s).0
unfolding push
push-Within f t (m, changed) g r h = has-extend_old t g r (or_empty (roles_of f m)) m h

pub push_all-Within :
    (f : Text) (targets : List Text) (s : RoleMap × Bool) → Within s.0 (push_all f targets s).0
unfolding push_all
push_all-Within f [] s g r h = h
push_all-Within f (t ∷ targets) s g r h =
    push_all-Within f targets (push f t s) g r (push-Within f t s g r h)

pub visit_from-Within :
    (f : Text) (targets : List Text) (s : RoleMap × Bool) (o : Option (List Text))
    → Within s.0 (visit_from f targets s o).0
visit_from-Within f targets s none g r h = h
visit_from-Within f targets s (some rs) g r h = push_all-Within f targets s g r h

pub pass-Within : (graph : RoleMap) (s : RoleMap × Bool) → Within s.0 (pass graph s).0
unfolding pass
pass-Within [] s g r h = h
pass-Within ((f, targets) ∷ graph) s g r h =
    pass-Within graph (visit_from f targets s (roles_of f s.0)) g r
      (visit_from-Within f targets s (roles_of f s.0) g r h)

mem_head : (t : Text) (targets : List Text) → text_mem t (t ∷ targets) ≡ true
unfolding text_mem
mem_head t targets = rw (text_eq_refl t) refl

mem_tail :
    (t u : Text) (targets : List Text) → text_mem u targets ≡ true → text_mem u (t ∷ targets) ≡ true
unfolding text_mem
mem_tail t u targets h = rw h (ground arith)

push_all-Every :
    (P : Text → Text → Type 0) (f : Text) (targets : List Text) (s : RoleMap × Bool)
    → ((t r : Text) → text_mem t targets ≡ true → P f r → P t r)
    → Every P s.0
    → Every P (push_all f targets s).0
unfolding push_all push
push_all-Every P f [] s moves every = every
push_all-Every P f (t ∷ targets) (m, changed) moves every =
    push_all-Every P f targets (push f t (m, changed)) (λ u r h. moves u r (mem_tail t u targets h))
      (λ g r h. elim (has-extend_inv t g r (or_empty (roles_of f m)) m h) [
        | inl old ↦ every g r old
        | inr (same, new) ↦ rw⁻¹ same (moves t r (mem_head t targets) (every f r new))
      ])

visit_from-Every :
    (P : Text → Text → Type 0) (f : Text) (targets : List Text) (s : RoleMap × Bool)
    (o : Option (List Text))
    → ((t r : Text) → text_mem t targets ≡ true → P f r → P t r)
    → Every P s.0
    → Every P (visit_from f targets s o).0
visit_from-Every P f targets s none moves every = every
visit_from-Every P f targets s (some rs) moves every = push_all-Every P f targets s moves every

pub pass-Every :
    (P : Text → Text → Type 0) (graph : RoleMap) (s : RoleMap × Bool)
    → ((f t r : Text) → edge graph f t ≡ true → P f r → P t r)
    → Every P s.0
    → Every P (pass graph s).0
unfolding pass
pass-Every P [] s moves every = every
pass-Every P ((f, targets) ∷ graph) s moves every =
    pass-Every P graph (visit_from f targets s (roles_of f s.0))
      (λ g t r h. moves g t r (edge-tail f targets graph g t h))
      (visit_from-Every P f targets s (roles_of f s.0)
        (λ t r h. moves f t r (edge-head f targets graph t h)) every)
