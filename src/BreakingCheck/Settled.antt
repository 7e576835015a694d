-- ===== src/BreakingCheck/Settled.antt =====
-- A pass without a change, and a pass with one.
use traigent_schema.Prelude.{
  ◌≡◌, refl, sym, ap, ◌∙◌, Bool, true, false, not, ◌||◌, Option, none, some, List, [], ◌∷◌, arith,
  ◌==◌, length, inl, inr,
}
use traigent_schema.Python.Text.{Text, text_eq, text_eq_sound, text_mem}
use traigent_schema.BreakingCheck.Roles.{
  RoleMap, roles_of, or_empty, union, extend, push, push_all, visit_from, pass,
}
use traigent_schema.BreakingCheck.RoleSets.{has, union_same, has-extend_inv, roles_of-extend}
use traigent_schema.BreakingCheck.Spread.{
  edge, Within, edge_inv, push-Within, visit_from-Within, either,
}

-- what a part that reported no change has found
pub record Quiet (before after : RoleMap × Bool) : Type 0 where
  pub was : before.1 ≡ false
  pub same : Within after.0 before.0

neither : (a b : Bool) → (a || b) ≡ false → (a ≡ false) × (b ≡ false)
neither false b h = (refl, h)
neither true b h = absurd (cc)

push-Quiet :
    (f t : Text) (s : RoleMap × Bool)
    → (push f t s).1 ≡ false
    → Quiet s (push f t s) × ((r : Text) → has s.0 f r ≡ true → has s.0 t r ≡ true)
unfolding push
push-Quiet f t (m, changed) h =
    let extra = or_empty (roles_of f m) in
    let (was, equal) =
      neither changed
        (not
          (length (or_empty (roles_of t (extend t extra m))) == length (or_empty (roles_of t m))))
        h in
    let size : length (or_empty (roles_of t (extend t extra m)))
        ≡ length (or_empty (roles_of t m)) =
      ground (arith, equal) in
    let size_union : length (union (or_empty (roles_of t m)) extra)
        ≡ length (or_empty (roles_of t m)) =
      sym (ap length (roles_of-extend t extra m)) ∙ size in
    let closed : (r : Text) → has m f r ≡ true → has m t r ≡ true =
      λ r there. union_same r (or_empty (roles_of t m)) extra size_union there in
    (
      record {
        was = was;
        same = λ g r new. elim (has-extend_inv t g r extra m new) [
          | inl old ↦ old
          | inr (here, there) ↦ rw⁻¹ here (closed r there)
        ];
      },
      closed,
    )

push_all-Quiet :
    (f : Text) (targets : List Text) (s : RoleMap × Bool)
    → (push_all f targets s).1 ≡ false
    → Quiet s (push_all f targets s)
      × ((t r : Text) → text_mem t targets ≡ true → has s.0 f r ≡ true → has s.0 t r ≡ true)
unfolding push_all text_mem
push_all-Quiet f [] s h =
    (record { was = h; same = λ g r there. there }, λ t r m there. absurd (cc))
push_all-Quiet f (u ∷ targets) s h =
    let (later, closed) = push_all-Quiet f targets (push f u s) h in
    let (first, closed_u) = push-Quiet f u s later.was in
    (
      record { was = first.was; same = λ g r there. first.same g r (later.same g r there) },
      λ t r m there. elim (either (text_eq u t) (text_mem t targets) m) [
        | inl here ↦ let e = text_eq_sound u t here in rw⁻¹ e (closed_u r there)
        | inr more ↦ first.same t r (closed t r more (push-Within f u s f r there))
      ],
    )

visit_from-Quiet :
    (f : Text) (targets : List Text) (s : RoleMap × Bool) (o : Option (List Text))
    → roles_of f s.0 ≡ o
    → (visit_from f targets s o).1 ≡ false
    → Quiet s (visit_from f targets s o)
      × ((t r : Text) → text_mem t targets ≡ true → has s.0 f r ≡ true → has s.0 t r ≡ true)
unfolding text_mem
visit_from-Quiet f targets s none e h = (
  record { was = h; same = λ g r there. there },
  λ t r m there. absurd (let gone : false ≡ true = rw e at there in cc),
)
visit_from-Quiet f targets s (some rs) e h = push_all-Quiet f targets s h

pub pass-Quiet :
    (graph : RoleMap) (s : RoleMap × Bool)
    → (pass graph s).1 ≡ false
    → Quiet s (pass graph s)
      × ((f t r : Text) → edge graph f t ≡ true → has s.0 f r ≡ true → has s.0 t r ≡ true)
unfolding pass edge
pass-Quiet [] s h = (record { was = h; same = λ g r there. there }, λ f t r m there. absurd (cc))
pass-Quiet ((k, targets) ∷ graph) s h =
    let next = visit_from k targets s (roles_of k s.0) in
    let (later, closed) = pass-Quiet graph next h in
    let (first, closed_k) = visit_from-Quiet k targets s (roles_of k s.0) refl later.was in
    (
      record { was = first.was; same = λ g r there. first.same g r (later.same g r there) },
      λ f t r m there. elim (edge_inv k targets graph f t m) [
        | inl (same, listed) ↦ closed_k t r listed (rw same there)
        | inr more ↦
            first.same t r
              (closed f t r more (visit_from-Within k targets s (roles_of k s.0) f r there))
      ],
    )
