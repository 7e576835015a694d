-- ===== src/CommitmentLinkage/Opened.antt =====
-- What `_verify` has read of an envelope: its members and the roles of its entries.
use traigent_schema.Prelude.{
  ℕ, zero, suc, ◌≡◌, refl, ap, ◌∙◌, true, List, [], ◌∷◌, some, arith, get_elem?, map, Bool-cases,
  inl, inr,
}
use mathlib.Core.Path.{subst}
use traigent_schema.Python.Result.{ok, ok_inj, traverse, >>=-eq-ok, guard->>-ok}
use traigent_schema.Python.Text.{Text, codes, text_eq, text_eq_refl, text_mem}
use traigent_schema.Python.Object.{Value, null, bool, int, float, str, ref, foreign, Heap}
use traigent_schema.CommitmentLinkage.{duplicate_role}
use traigent_schema.CommitmentLinkage.Commitment.{roles, checked_role}
use traigent_schema.CommitmentLinkage.Sidecar.{
  member, elements_of, distinct, Sidecar, opened_envelope,
}

-- every text stands at one index only
abbrev pub IsRepeatFree : List Text → Type 0
IsRepeatFree texts =
    (i j : ℕ) (t : Text) → get_elem? texts i ≡ some t → get_elem? texts j ≡ some t → i ≡ j

text_mem-get_elem? :
    (texts : List Text) (i : ℕ) (t : Text) → get_elem? texts i ≡ some t → text_mem t texts ≡ true
unfolding text_mem
text_mem-get_elem? [] i t e = absurd (cc)
text_mem-get_elem? (x ∷ texts) zero t e =
    let same : x ≡ t = cc in
    let equal : text_eq x t ≡ true = rw same (text_eq_refl t) in rw equal refl
text_mem-get_elem? (x ∷ texts) (suc i) t e = ground (arith, text_mem-get_elem? texts i t e)

distinct-head :
    (x : Text) (texts : List Text) (i : ℕ) (t : Text)
    → distinct (x ∷ texts) ≡ true
    → x ≡ t
    → get_elem? texts i ≡ some t
    → ⊥
unfolding distinct
distinct-head x texts i t h same e =
    let found : text_mem x texts ≡ true = rw same (text_mem-get_elem? texts i t e) in
    ground (arith, found, h)

distinct-IsRepeatFree : (texts : List Text) → distinct texts ≡ true → IsRepeatFree texts
unfolding distinct
distinct-IsRepeatFree [] h i j t e e' = absurd (cc)
distinct-IsRepeatFree (x ∷ texts) h zero zero t e e' = refl
distinct-IsRepeatFree (x ∷ texts) h zero (suc j) t e e' =
    absurd (distinct-head x texts j t h (cc) e')
distinct-IsRepeatFree (x ∷ texts) h (suc i) zero t e e' =
    absurd (distinct-head x texts i t h (cc) e)
distinct-IsRepeatFree (x ∷ texts) h (suc i) (suc j) t e e' =
    ap suc (distinct-IsRepeatFree texts (ground (arith, h)) i j t e e')

checked_role-ok :
    {F : Type 0} (v : Value F) (t : Text)
    → checked_role v ≡ ok t
    → (v ≡ str t) × (text_mem t roles ≡ true)
unfolding checked_role
checked_role-ok (str s) t e = elim (Bool-cases (text_mem s roles)) [
  | inl known ↦
      let same : s ≡ t = ok_inj (rw known at e) in
      (ap str same, subst (λ u. text_mem u roles ≡ true) same known)
  | inr unknown ↦ absurd (ground (arith, unknown, e))
]
checked_role-ok null t e = absurd (cc)
checked_role-ok (bool b) t e = absurd (cc)
checked_role-ok (int n) t e = absurd (cc)
checked_role-ok (float x) t e = absurd (cc)
checked_role-ok (ref a) t e = absurd (cc)
checked_role-ok foreign t e = absurd (cc)

known_cons :
    (t : Text) (rest : List Text)
    → text_mem t roles ≡ true
    → ((i : ℕ) (u : Text) → get_elem? rest i ≡ some u → text_mem u roles ≡ true)
    → (i : ℕ) (u : Text) → get_elem? (t ∷ rest) i ≡ some u
    → text_mem u roles ≡ true
known_cons t rest known all zero u at =
    let same : t ≡ u = cc in subst (λ w. text_mem w roles ≡ true) same known
known_cons t rest known all (suc i) u at = all i u at

traverse-checked_role :
    {F : Type 0} (values : List (Value F)) (texts : List Text)
    → traverse checked_role values ≡ ok texts
    → (values ≡ map str texts)
      × ((i : ℕ) (t : Text) → get_elem? texts i ≡ some t → text_mem t roles ≡ true)
unfolding traverse
traverse-checked_role [] texts e =
    let none_left : [] ≡ texts = ok_inj e in
    (ap (map str) none_left, λ i t at. absurd (let gone = ap (λ l. get_elem? l i) none_left in cc))
traverse-checked_role {F} (v ∷ values) texts e =
    let (t, ht, e1) = >>=-eq-ok (checked_role v) _ e in
    let (rest, hr, e2) = >>=-eq-ok (traverse checked_role values) _ e1 in
    let (is_str, known) = checked_role-ok v t ht in
    let (later, all) = traverse-checked_role values rest hr in
    let both : v ∷ values ≡ map str (t ∷ rest) = cc in
    subst
      (λ l.
        (v ∷ values ≡ map str l)
        × ((i : ℕ) (u : Text) → get_elem? l i ≡ some u → text_mem u roles ≡ true))
      (ok_inj e2) (both, known_cons t rest known all)

module _ {F : Type 0} (heap : Heap F) where
  -- the members of the envelope, and the roles of its entries: known ones, no one twice
  pub record IsOpened (envelope : Value F) (sidecar : Sidecar heap) : Type 0 where
    pub listed : Value F
    pub texts : List Text
    pub unsigned_is : member heap (codes "unsigned_linkage") envelope ≡ ok sidecar.unsigned
    pub signature_is : member heap (codes "signature") envelope ≡ ok sidecar.signature
    pub listed_is : member heap (codes "entries") sidecar.unsigned ≡ ok listed
    pub entries_are : elements_of heap listed ≡ ok sidecar.entries
    pub roles_are : traverse (member heap (codes "role")) sidecar.entries ≡ ok (map str texts)
    pub roles_known : (i : ℕ) (t : Text) → get_elem? texts i ≡ some t → text_mem t roles ≡ true
    pub roles_differ : IsRepeatFree texts

  pub opened_envelope-IsOpened :
      (envelope : Value F) (sidecar : Sidecar heap)
      → opened_envelope heap envelope ≡ ok sidecar
      → IsOpened envelope sidecar
  unfolding opened_envelope
  opened_envelope-IsOpened envelope sidecar e =
      let (unsigned, hu, e1) = >>=-eq-ok (member heap (codes "unsigned_linkage") envelope) _ e in
      let (signature, hs, e2) = >>=-eq-ok (member heap (codes "signature") envelope) _ e1 in
      let (listed, hl, e3) = >>=-eq-ok (member heap (codes "entries") unsigned) _ e2 in
      let (entries, he, e4) = >>=-eq-ok (elements_of heap listed) _ e3 in
      let (values, hv, e5) = >>=-eq-ok (traverse (member heap (codes "role")) entries) _ e4 in
      let (texts, ht, e6) = >>=-eq-ok (traverse checked_role values) _ e5 in
      let (differ, e7) = guard->>-ok (distinct texts) duplicate_role _ e6 in
      let (are, known) = traverse-checked_role values texts ht in
      subst (IsOpened envelope) (ok_inj e7) (record {
        listed = listed;
        texts = texts;
        unsigned_is = hu;
        signature_is = hs;
        listed_is = hl;
        entries_are = he;
        roles_are = hv ∙ ap ok are;
        roles_known = known;
        roles_differ = distinct-IsRepeatFree texts differ;
      })
