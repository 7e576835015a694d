-- ===== src/CommitmentLinkage/Framing.antt =====
-- The framing `lp`, and the preimage of a commitment read back.
use traigent_schema.Prelude.{
  ◌<◌, ◌≡◌, refl, sym, ap, ◌∙◌, Bool, true, false, ◌&&◌, List, [], ◌∷◌, ◌++◌, arith, ltb, ◌==◌,
  length, length-drop, drop, append_inj, append_assoc, All, Bool-cases, inl, inr,
}
use traigent_schema.Python.Text.{
  Text, codes, text_eq, text_eq_sound, text_mem, utf8, utf8_bytes, is_ascii, starts_with,
}
use traigent_schema.Python.BigEndian.{be_bytes, length-be_bytes, be_bytes-inj, byte_range}
use traigent_schema.Merkle.{Bytes}
use traigent_schema.ContentIdentity.Identifier.{hex_text, all_hex}
use traigent_schema.CommitmentLinkage.Commitment.{
  commitment_domain, fp_schema, roles, bases, is_sha256, lp, preimage,
}

-- The framing is prefix-free.
lp_inj :
    (a b x y : Bytes)
    → length a < byte_range 8
    → length b < byte_range 8
    → lp a ++ x ≡ lp b ++ y
    → (a ≡ b) × (x ≡ y)
unfolding lp
lp_inj a b x y ha hb e =
    let left : be_bytes 8 (length a) ++ (a ++ x) ≡ be_bytes 8 (length b) ++ (b ++ y) =
      sym (append_assoc (be_bytes 8 (length a)) a x)
      ∙ e
      ∙ append_assoc (be_bytes 8 (length b)) b y in
    let (size, rest) =
      append_inj (be_bytes 8 (length a)) (a ++ x) (be_bytes 8 (length b)) (b ++ y)
        (length-be_bytes 8 (length a) ∙ sym (length-be_bytes 8 (length b))) left in
    append_inj a x b y (be_bytes-inj 8 (length a) (length b) ha hb size) rest

utf8-ascii : (s : Text) → is_ascii s ≡ true → utf8 s ≡ s
unfolding utf8 utf8_bytes is_ascii
utf8-ascii [] h = refl
utf8-ascii (c ∷ s) h = elim (Bool-cases (ltb c 128)) [
  | inl low ↦ let rest = utf8-ascii s (rw low at h) in rw (low, rest) refl
  | inr high ↦ absurd (let no : false ≡ true = rw high at h in cc)
]

-- what the framing needs of a text: it is short, and its bytes are its characters
abbrev pub IsShort : Text → Type 0
IsShort s = (utf8 s ≡ s) × (length s < byte_range 8)

pub text_mem-All :
    (P : Text → Type 0) (k : Text) (xs : List Text) → text_mem k xs ≡ true → All P xs → P k
unfolding text_mem
text_mem-All P k [] h w = absurd (cc)
text_mem-All P k (x ∷ xs) h w = elim (Bool-cases (text_eq x k)) [
  | inl here ↦ let same = text_eq_sound x k here in rw⁻¹ same w.0
  | inr later ↦ text_mem-All P k xs (rw later at h) w.1
]

pub All-roles : All IsShort roles
unfolding utf8 utf8_bytes
All-roles = (
  (refl, omega arith),
  (
    (refl, omega arith),
    (
      (refl, omega arith),
      (
        (refl, omega arith),
        (
          (refl, omega arith),
          (
            (refl, omega arith),
            (
              (refl, omega arith),
              (
                (refl, omega arith),
                (
                  (refl, omega arith),
                  ((refl, omega arith), ((refl, omega arith), ((refl, omega arith), tt))),
                ),
              ),
            ),
          ),
        ),
      ),
    ),
  ),
)

pub All-bases : All IsShort bases
unfolding utf8 utf8_bytes
All-bases = (
  (refl, omega arith),
  (
    (refl, omega arith),
    ((refl, omega arith), ((refl, omega arith), ((refl, omega arith), ((refl, omega arith), tt)))),
  ),
)

pub both_true : (a b : Bool) → (a && b) ≡ true → (a ≡ true) × (b ≡ true)
both_true true b h = (refl, h)
both_true false b h = absurd (cc)

pub is_sha256-length : (s : Text) → is_sha256 s ≡ true → length s < byte_range 8
unfolding is_sha256
is_sha256-length s h =
    let (size, hex) =
      both_true (length (drop 7 s) == 64) (all_hex (drop 7 s))
        (both_true (starts_with (codes "sha256:") s) (hex_text 64 (drop 7 s)) h).1 in
    ground (arith, length-drop 7 s, size)

-- The preimage has one role, basis, fingerprint and opening.
pub preimage_inj :
    (r b f r' b' f' : Text) (o o' : Bytes)
    → IsShort r
    → IsShort r'
    → IsShort b
    → IsShort b'
    → length f < byte_range 8
    → length f' < byte_range 8
    → length o ≡ 32
    → length o' ≡ 32
    → preimage r b f o ≡ preimage r' b' f' o'
    → (r ≡ r') × (b ≡ b') × (f ≡ f') × (o ≡ o')
unfolding preimage
preimage_inj r b f r' b' f' o o' (ur, hr) (ur', hr') (ub, hb) (ub', hb') hf hf' ho ho' e =
    let tail : Text → Bytes → Bytes = λ f o. lp fp_schema ++ (lp f ++ lp o) in
    let middle : Text → Text → Bytes → Bytes = λ b f o. lp (utf8 b) ++ tail f o in
    let (_, e1) =
      lp_inj commitment_domain commitment_domain (lp (utf8 r) ++ middle b f o)
        (lp (utf8 r') ++ middle b' f' o') (omega arith) (omega arith) e in
    let (er, e2) =
      lp_inj (utf8 r) (utf8 r') (middle b f o) (middle b' f' o') (rw ur hr) (rw ur' hr') e1 in
    let (eb, e3) = lp_inj (utf8 b) (utf8 b') (tail f o) (tail f' o') (rw ub hb) (rw ub' hb') e2 in
    let (_, e4) =
      lp_inj fp_schema fp_schema (lp f ++ lp o) (lp f' ++ lp o') (omega arith) (omega arith) e3 in
    let (ef, e5) = lp_inj f f' (lp o) (lp o') hf hf' e4 in
    let (eo, _) =
      lp_inj o o' [] [] (omega (arith, ho)) (omega (arith, ho')) (ap (λ z. z ++ []) e5) in
    (sym ur ∙ er ∙ ur', sym ub ∙ eb ∙ ub', ef, eo)
