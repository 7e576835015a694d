-- ===== src/CommitmentLinkage/Context.antt =====
-- `LinkageIssuerKeyV1`, `CommitmentLinkageVerificationContext` and what their construction rejects.
-- The members that the source annotates `str` are texts here.
use traigent_schema.Prelude.{ℕ, Bool, true, false, ◌&&◌, ◌||◌, [], ◌∷◌, leb, ◌==◌, length}
use traigent_schema.Python.Result.{Result, ◌>>◌, guard}
use traigent_schema.Python.Text.{Text, all_in, partition, text_eq}
use traigent_schema.RelyingParty.Signature.{ed25519, ecdsa_p256}
use traigent_schema.CommitmentLinkage.{LinkageError, context_error}
use traigent_schema.CommitmentLinkage.Commitment.{is_sha256}

abbrev pub is_lower : ℕ → Bool
is_lower c = leb b'a' c && leb c b'z'

abbrev pub is_digit : ℕ → Bool
is_digit c = leb b'0' c && leb c b'9'

abbrev pub is_alphanumeric : ℕ → Bool
is_alphanumeric c = is_lower c || (leb b'A' c && leb c b'Z') || is_digit c

-- [A-Za-z0-9_.-]{1,128}
unfoldable pub is_project_ref : Text → Bool
unfolding all_in
is_project_ref s =
    leb 1 (length s)
    && leb (length s) 128
    && all_in (λ c. is_alphanumeric c || (c == b'_') || (c == b'.') || (c == b'-')) s

-- [a-z][a-z0-9_.-]{1,63}
unfoldable pub is_ref_kind : Text → Bool
unfolding all_in
is_ref_kind [] = false
is_ref_kind (c ∷ s) =
    is_lower c
    && leb 1 (length s)
    && leb (length s) 63
    && all_in (λ d. is_lower d || is_digit d || (d == b'_') || (d == b'.') || (d == b'-')) s

-- [A-Za-z0-9_-]{8,128}
unfoldable pub is_ref_name : Text → Bool
unfolding all_in
is_ref_name s =
    leb 8 (length s)
    && leb (length s) 128
    && all_in (λ c. is_alphanumeric c || (c == b'_') || (c == b'-')) s

-- the kind, a colon and the name: no colon is in the classes
unfoldable pub is_ref : Text → Bool
unfolding partition is_ref_kind is_ref_name
is_ref s = let halves = partition b':' s in is_ref_kind halves.0 && is_ref_name halves.1

pub record IssuerKey : Type 0 where
  pub key_ref : Text
  pub trust_ring_ref : Text
  pub algorithm : Text
  pub public_key_der_b64 : Text
  pub public_key_digest : Text

pub record VerificationContext : Type 0 where
  pub expected_process_record_digest : Text
  pub expected_project_ref : Text
  pub expected_build_session_ref : Text
  pub issuer_key : IssuerKey

abbrev is_nonempty : Text → Bool
is_nonempty [] = false
is_nonempty (c ∷ s) = true

unfoldable pub check_issuer_key_context : IssuerKey → Result LinkageError (Unit {0})
unfolding is_ref is_sha256
check_issuer_key_context key = do
  guard (is_ref key.key_ref) context_error
  guard (is_ref key.trust_ring_ref) context_error
  guard (text_eq key.algorithm ed25519 || text_eq key.algorithm ecdsa_p256) context_error
  guard (is_nonempty key.public_key_der_b64) context_error
  guard (is_sha256 key.public_key_digest) context_error

-- `__post_init__`
unfoldable pub check_context : VerificationContext → Result LinkageError (Unit {0})
unfolding is_sha256 is_project_ref is_ref check_issuer_key_context
check_context context = do
  guard (is_sha256 context.expected_process_record_digest) context_error
  guard (is_project_ref context.expected_project_ref) context_error
  guard (is_ref context.expected_build_session_ref) context_error
  check_issuer_key_context context.issuer_key
