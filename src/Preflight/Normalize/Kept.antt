-- ===== src/Preflight/Normalize/Kept.antt =====
-- Which check of an id `normalizeChecks` (internal/preflight/verify.go) keeps, in terms of severity, exit
-- code and status.
use reinstate.Base.{
  ℕ, ◌+◌, ◌*◌, ◌≤◌, ◌≡◌, refl, sym, ap, ◌∙◌, inl, inr, Bool, true, false, not, ◌&&◌, ◌||◌, Option,
  none, some, List, [], ◌∷◌, ◌++◌, all, ltb, if◌then◌else◌, ◌==◌, ==_iff, nat_eq, bytes_eq, arith,
  subst, Bool-cases,
}
use reinstate.SafeText.{Runes}
use reinstate.Workspace.Model.{Severity, Status}
use reinstate.Preflight.Model.{Check}
use reinstate.Preflight.Normalize.{
  is_block, is_error, severity_rank, check_trust_rank, normalize_checks,
}
use reinstate.Preflight.Normalize.Trust.{
  find_check, challenge, most_trusted, most_trusted-here, most_trusted-elsewhere,
  find_check-normalize_checks,
}

-- A block comes before a warning, and a warning before the rest.
unfoldable pub severity_order : Severity → ℕ
severity_order Severity.block = 2
severity_order Severity.warning = 1
severity_order _ = 0

-- Among blocks, a runtime exit comes before a safety exit, and that before a compatibility exit.
abbrev pub exit_order : Check → ℕ
exit_order c =
    if severity_order c.severity == 2
    then (if c.exit_code == 1
        then 3
        else if c.exit_code == 7
        then 2
        else if c.exit_code == 5
        then 1
        else 0)
    else 0

abbrev pub has_error : Status → Bool
has_error Status.error = true
has_error _ = false

-- The first check is trusted over the second: by severity, then by exit code, then by an error.
unfoldable pub outranks : Check → Check → Bool
outranks c d =
    ltb (severity_order d.severity) (severity_order c.severity)
    || severity_order d.severity == severity_order c.severity
      && (ltb (exit_order d) (exit_order c)
          || exit_order d == exit_order c && (has_error c.status && not (has_error d.status)))

-- Where the check stands that is trusted the most among those with the id, the first of equals.
pub record Stays (i : Runes) (cs : List Check) (c : Check) : Type 0 where
  pub before : List Check
  pub after : List Check
  pub split : cs ≡ before ++ (c ∷ after)
  pub same_id : c.id ≡ i
  pub over_before : all (λ d. not (d.id == i) || outranks c d) before ≡ true
  pub over_after : all (λ d. not (d.id == i) || not (outranks d c)) after ≡ true

abbrev pub IsKept : Runes → List Check → Option Check → Type 0
IsKept i cs none = all (λ d. not (d.id == i)) cs ≡ true
IsKept i cs (some c) = Stays i cs c

has_error-eq : (s : Status) → is_error s ≡ has_error s
has_error-eq s = refl

severity_rank-order : (s : Severity) → severity_rank s ≡ severity_order s + 1
unfolding severity_rank severity_order
severity_rank-order Severity.info = refl
severity_rank-order Severity.warning = refl
severity_rank-order Severity.block = refl
severity_rank-order (Severity.other s) = refl

is_block-order : (s : Severity) → is_block s ≡ (severity_order s == 2)
unfolding severity_order
is_block-order Severity.info = refl
is_block-order Severity.warning = refl
is_block-order Severity.block = refl
is_block-order (Severity.other s) = refl

check_trust_rank-order :
    (c : Check)
    → check_trust_rank c
      ≡ (severity_order c.severity + 1) * 100
        + exit_order c * 10
        + (if has_error c.status then 1 else 0)
unfolding check_trust_rank
check_trust_rank-order c =
    ground (arith, severity_rank-order c.severity, is_block-order c.severity, has_error-eq c.status)

exit_order-bound : (c : Check) → exit_order c ≤ 3
exit_order-bound c = ground arith

lexicographic :
    (s t x y : ℕ) (e f : Bool)
    → x ≤ 3
    → y ≤ 3
    → ltb
        ((s + 1) * 100 + x * 10 + (if e then 1 else 0))
        ((t + 1) * 100 + y * 10 + (if f then 1 else 0))
      ≡ (ltb s t || s == t && (ltb x y || x == y && (f && not e)))
lexicographic s t x y e f p q = ground arith

check_trust_rank-outranks :
    (c d : Check) → ltb (check_trust_rank d) (check_trust_rank c) ≡ outranks c d
unfolding outranks
check_trust_rank-outranks c d =
    rw (check_trust_rank-order c, check_trust_rank-order d)
      (lexicographic (severity_order d.severity) (severity_order c.severity) (exit_order d)
        (exit_order c) (has_error d.status) (has_error c.status) (exit_order-bound d)
        (exit_order-bound c))

-- What comes after a check that stays.
below :
    (i : Runes) (c d : Check) (ds : List Check)
    → outranks d c ≡ false
    → all (λ x. not (x.id == i) || not (outranks x d)) ds ≡ true
    → all (λ x. not (x.id == i) || not (outranks x c)) ds ≡ true
below i c d [] p h = refl
below i c d (x ∷ ds) p h = ground (
  arith,
  below i c d ds p,
  check_trust_rank-outranks d c,
  check_trust_rank-outranks x d,
  check_trust_rank-outranks x c,
)

-- What comes before it.
beaten :
    (i : Runes) (c d : Check) (ds : List Check)
    → outranks d c ≡ false
    → all (λ x. not (x.id == i) || outranks d x) ds ≡ true
    → all (λ x. not (x.id == i) || not (outranks x c)) ds ≡ true
beaten i c d [] p h = refl
beaten i c d (x ∷ ds) p h = ground (
  arith,
  beaten i c d ds p,
  check_trust_rank-outranks d c,
  check_trust_rank-outranks d x,
  check_trust_rank-outranks x c,
)

strangers :
    (i : Runes) (c : Check) (ds : List Check)
    → all (λ (x : Check). not (x.id == i)) ds ≡ true
    → all (λ x. not (x.id == i) || not (outranks x c)) ds ≡ true
strangers i c [] h = refl
strangers i c (x ∷ ds) h = ground (arith, strangers i c ds)

all-append : (p : Check → Bool) (xs ys : List Check) → all p (xs ++ ys) ≡ all p xs && all p ys
all-append p [] ys = refl
all-append p (x ∷ xs) ys = ground (arith, all-append p xs ys)

-- The check in front stays, since no later one with the id is trusted over it.
front :
    (i : Runes) (c : Check) (cs : List Check)
    → c.id ≡ i
    → all (λ x. not (x.id == i) || not (outranks x c)) cs ≡ true
    → Stays i (c ∷ cs) c
front i c cs e h = record {
  before = [];
  after = cs;
  split = refl;
  same_id = e;
  over_before = refl;
  over_after = h;
}

-- The check that stays in the rest stays behind one with another id, or one that it is trusted over.
behind :
    (i : Runes) (c d : Check) (cs : List Check)
    → not (c.id == i) || outranks d c ≡ true
    → Stays i cs d
    → Stays i (c ∷ cs) d
behind i c d cs h s = record {
  before = c ∷ s.before;
  after = s.after;
  split = ap (λ xs. c ∷ xs) s.split;
  same_id = s.same_id;
  over_before = ground (arith, h, s.over_before);
  over_after = s.over_after;
}

over_rest :
    (i : Runes) (c d : Check) (cs : List Check)
    → outranks d c ≡ false
    → Stays i cs d
    → all (λ x. not (x.id == i) || not (outranks x c)) cs ≡ true
over_rest i c d cs p s =
    let q : Check → Bool = λ x. not (x.id == i) || not (outranks x c) in
    ap (all q) s.split
    ∙ all-append q s.before (d ∷ s.after)
    ∙ ground (arith, beaten i c d s.before p s.over_before, below i c d s.after p s.over_after)

challenge-IsKept :
    (i : Runes) (c : Check) (cs : List Check) (o : Option Check)
    → c.id ≡ i
    → IsKept i cs o
    → Stays i (c ∷ cs) (challenge c o)
challenge-IsKept i c cs none e h = front i c cs e (strangers i c cs h)
challenge-IsKept i c cs (some d) e h =
    let p = check_trust_rank-outranks d c in
    elim (Bool-cases (ltb (check_trust_rank c) (check_trust_rank d))) [
      | inl b ↦
          let won : d ≡ challenge c (some d) = ground arith in
          subst (Stays i (c ∷ cs)) won (behind i c d cs (ground arith) h)
      | inr b ↦
          let won : c ≡ challenge c (some d) = ground arith in
          subst (Stays i (c ∷ cs)) won (front i c cs e (over_rest i c d cs (sym p ∙ b) h))
    ]

elsewhere-IsKept :
    (i : Runes) (c : Check) (cs : List Check) (o : Option Check)
    → (c.id == i) ≡ false
    → IsKept i cs o
    → IsKept i (c ∷ cs) o
elsewhere-IsKept i c cs none e h = ground arith
elsewhere-IsKept i c cs (some d) e h = behind i c d cs (ground arith) h

most_trusted-IsKept : (i : Runes) (cs : List Check) → IsKept i cs (most_trusted i cs)
unfolding most_trusted
most_trusted-IsKept i [] = refl
most_trusted-IsKept i (c ∷ cs) = elim (Bool-cases (c.id == i)) [
  | inl e ↦
      let same = (==_iff c.id i).0 e in
      subst (IsKept i (c ∷ cs)) (sym (most_trusted-here i c cs same))
        (challenge-IsKept i c cs (most_trusted i cs) same (most_trusted-IsKept i cs))
  | inr e ↦
      subst (IsKept i (c ∷ cs)) (sym (most_trusted-elsewhere i c cs e))
        (elsewhere-IsKept i c cs (most_trusted i cs) e (most_trusted-IsKept i cs))
]

-- `normalizeChecks` keeps for an id a check that has it, where there is one: it is trusted, by
-- severity, exit code and status, over every earlier check with the id, and no later one is
-- trusted over it.
pub normalize_checks-IsKept :
    (i : Runes) (cs : List Check) → IsKept i cs (find_check i (normalize_checks cs))
normalize_checks-IsKept i cs =
    subst (IsKept i cs) (sym (find_check-normalize_checks i cs)) (most_trusted-IsKept i cs)
