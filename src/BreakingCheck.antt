-- ===== src/BreakingCheck.antt =====
-- scripts/breaking_schema_check.py: findings and the routing of a keyword's change by the role of the
-- file. The wording of messages and the recorded old and new values are left out.
pub mod Keywords
pub mod Constraint
pub mod Directions
pub mod Bounds
pub mod Sound
pub mod Closedness
pub mod EnumExact
pub mod Roles
pub mod RoleSets
pub mod Spread
pub mod Settled
pub mod Growth
pub mod Propagated
pub mod Classified
use traigent_schema.Prelude.{
  Bool, true, false, Option, none, some, List, [], ◌∷◌, ◌||◌, if◌then◌else◌,
}
use traigent_schema.Python.Text.{Text}

pub data Role : Type 0 where
  request : Role
  response : Role
  conservative : Role

pub data Severity : Type 0 where
  breaking : Severity
  info : Severity

-- `subject`: the keyword or a name, or a direction with the sorted values
pub data Subject : Type 0 where
  named : Text → Subject
  removed_values : List Text → Subject
  added_values : List Text → Subject

pub record Finding : Type 0 where
  pub pointer : Text
  pub rule : Text
  pub severity : Severity
  pub role : Role
  pub subject : Subject

-- the severity of a change that makes the schema accept less (`true`) or more
unfoldable pub routed : Role → Bool → Severity
routed request narrowed = if narrowed then breaking else info
routed response narrowed = if narrowed then info else breaking
routed conservative narrowed = breaking

abbrev pub or_keyword : Text → Option Subject → Subject
or_keyword keyword none = named keyword
or_keyword keyword (some subject) = subject

unfoldable pub keyword_finding :
    (pointer : Text) → Role → (keyword : Text) → (narrowed : Bool) → Option Subject → Finding
unfolding routed
keyword_finding pointer role keyword narrowed subject = record {
  pointer = pointer;
  rule = keyword;
  severity = routed role narrowed;
  role = role;
  subject = or_keyword keyword subject;
}

abbrev pub is_breaking : Finding → Bool
is_breaking f = elim f.severity [ breaking ↦ true | info ↦ false ]

-- some finding fails the check unless it is acknowledged
unfoldable pub has_breaking : List Finding → Bool
has_breaking [] = false
has_breaking (f ∷ findings) = is_breaking f || has_breaking findings
