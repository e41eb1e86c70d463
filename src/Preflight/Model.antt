-- ===== src/Preflight/Model.antt =====
-- internal/preflight/types.go. A text is its code points. `Status` and
-- `Severity` have the constants of package workspace, whose types they are converted from.
use reinstate.Base.{
  ℕ, ◌≡◌, Bool, true, false, ◌↔◌, String, List, [], ◌∷◌, Eq, arith, Bool-cases, inl, inr, refl,
  ◌&&◌, ◌==◌, ==_iff, string_eq,
}
use reinstate.SafeText.{Runes}
use reinstate.Workspace.Model.{Provenance, Status, Severity, WorkingTreeState}
use native.Mathlib.Decide.{ℕ_discrete}

abbrev pub schema_version : ℕ
schema_version = 1

pub data Decision : Type 0 where
  ready confirmation_required blocked : Decision
  other : String → Decision

-- The dynamic types of a check's `any` fields; `foreign` is every type that a report may not hold.
pub data Value : Type 0 where
  nil : Value
  bool : Bool → Value
  text : Runes → Value
  state : WorkingTreeState → Value
  texts : List Runes → Value
  foreign : String → Value

pub record Check : Type 0 where
  pub id : Runes
  pub status : Status
  pub severity : Severity
  pub expected : Value
  pub actual : Value
  pub provenance : Provenance
  pub message : Runes
  pub repair : Runes
  pub exit_code : ℕ

-- The zero value, which a literal fills in part.
abbrev pub zero_check : Check
zero_check = record {
  id = [];
  status = Status.other "";
  severity = Severity.other "";
  expected = Value.nil;
  actual = Value.nil;
  provenance = Provenance.other "";
  message = [];
  repair = [];
  exit_code = 0;
}

-- The fields that the policy reads.
pub record Report : Type 0 where
  pub schema_version : ℕ
  pub session_ref : Runes
  pub decision : Decision
  pub block_exit_code : ℕ
  pub checks : List Check

pub record Authorization : Type 0 where
  pub allowed : Bool
  pub exit_code : ℕ
  pub warnings : List Runes

abbrev String-discrete : Discrete String
String-discrete x y = elim (Bool-cases (x == y)) [
  | inl e ↦ yes ((==_iff x y).0 e)
  | inr e ↦ no (λ p. ground (arith, (==_iff x y).1 p))
]

abbrev Check-discrete : Discrete Check
Check-discrete = hlevel (ℕ_discrete, String-discrete)

abbrev Decision-discrete : Discrete Decision
Decision-discrete = hlevel (ℕ_discrete, String-discrete)

abbrev test : {P : Type 0} → Dec P → Bool
test (yes p) = true
test (no n) = false

test_iff : {P : Type 0} (d : Dec P) → (test d ≡ true) ↔ P
test_iff (yes p) = (λ h. p, λ q. refl)
test_iff (no n) = (λ h. absurd (ground arith), λ q. absurd (n q))

-- `reflect.DeepEqual` on two checks.
abbrev pub same_check : Check → Check → Bool
same_check a b = test (Check-discrete a b)

pub same_check_iff : (a b : Check) → (same_check a b ≡ true) ↔ (a ≡ b)
same_check_iff a b = test_iff (Check-discrete a b)

instance abbrev pub check_eq : Eq Check
check_eq = record { same = same_check; same_iff = same_check_iff }

-- Of slices of them.
abbrev pub same_checks : List Check → List Check → Bool
same_checks [] [] = true
same_checks [] (d ∷ ds) = false
same_checks (c ∷ cs) [] = false
same_checks (c ∷ cs) (d ∷ ds) = c == d && same_checks cs ds

pub same_checks_iff : (cs ds : List Check) → (same_checks cs ds ≡ true) ↔ (cs ≡ ds)
same_checks_iff [] [] = ground arith
same_checks_iff [] (d ∷ ds) = ground arith
same_checks_iff (c ∷ cs) [] = ground arith
same_checks_iff (c ∷ cs) (d ∷ ds) = ground (arith, ==_iff c d, same_checks_iff cs ds)

abbrev pub same_decision : Decision → Decision → Bool
same_decision a b = test (Decision-discrete a b)

pub same_decision_iff : (a b : Decision) → (same_decision a b ≡ true) ↔ (a ≡ b)
same_decision_iff a b = test_iff (Decision-discrete a b)
