-- ===== src/Codex/Verdicts.antt =====
-- The verdict of a panel, against a description that does not mention the scoring loop.
use mathlib.Core.Path.{subst}
use mathlib.Core.Bool.{false≢true}
use apichain_backend.Base.{
  ◌≡◌, ◌↔◌, ◌⊎◌, refl, sym, ◌∙◌, Bool, true, false, inl, inr, none, some, List, [], ◌∷◌, arith,
  Bool-cases, Option-cases, All,
}
use apichain_backend.Base.Result.{ok}
use apichain_backend.Canonical.Text.{Text}
use apichain_backend.Canonical.Decimal.{Decimal, quantize}
use apichain_backend.Codex.Rules.{Rule, RuleSet, rule_set}
use apichain_backend.Codex.Score.{
  LabMeasurements, measurement, Status, ConformanceVerdict, ConformanceReport, is_within_limit,
  status_of, check, is_fail, is_not_measured, any_result, verdict_of, check_all, evaluate,
}

-- The rule's quantity was measured, and is within the limit.
abbrev pub IsMet : LabMeasurements → Rule → Type 0
IsMet m rule =
    (x : Decimal) × (measurement m rule.field ≡ some x)
    × (is_within_limit rule.comparator (quantize x) rule.limit ≡ true)

-- It was measured and is beyond the limit.
abbrev pub IsBroken : LabMeasurements → Rule → Type 0
IsBroken m rule =
    (x : Decimal) × (measurement m rule.field ≡ some x)
    × (is_within_limit rule.comparator (quantize x) rule.limit ≡ false)

abbrev pub AnyRule : (Rule → Type 0) → List Rule → Type 0
AnyRule P [] = ⊥
AnyRule P (rule ∷ rules) = P rule ⊎ AnyRule P rules

-- It was not measured.
abbrev pub IsMissing : LabMeasurements → Rule → Type 0
IsMissing m rule = measurement m rule.field ≡ none

module _ (m : LabMeasurements) where
  abbrev rule_status : Rule → Status
  rule_status rule = status_of rule (measurement m rule.field)

  IsBroken-iff : (rule : Rule) → (is_fail (rule_status rule) ≡ true) ↔ IsBroken m rule
  IsBroken-iff rule = (to rule, λ (x, e, n). rw e (rw n refl))
    where
      to : (r : Rule) → is_fail (rule_status r) ≡ true → IsBroken m r
      to r h = elim (Option-cases (measurement m r.field)) [
        | inl e ↦ absurd (let f : false ≡ true = rw e at h in cc)
        | inr (x, e) ↦ (x, e, ground (arith, rw e at h))
      ]

  IsMissing-iff : (rule : Rule) → (is_not_measured (rule_status rule) ≡ true) ↔ IsMissing m rule
  IsMissing-iff rule = (to rule, λ e. rw e refl)
    where
      to : (r : Rule) → is_not_measured (rule_status r) ≡ true → IsMissing m r
      to r h = elim (Option-cases (measurement m r.field)) [
        | inl e ↦ e
        | inr (x, e) ↦ absurd (let f = rw e at h in ground arith)
      ]

  any_result_iff :
      (test : Status → Bool) (P : Rule → Type 0)
      → ((rule : Rule) → (test (rule_status rule) ≡ true) ↔ P rule)
      → (rules : List Rule) → (any_result test (check_all rules m) ≡ true) ↔ AnyRule P rules
  unfolding check_all check
  any_result_iff test P pt [] = (λ h. false≢true h, λ h. absurd h)
  any_result_iff test P pt (rule ∷ rules) =
      let ih = any_result_iff test P pt rules in
      elim (Bool-cases (test (rule_status rule))) [
        | inl y ↦ (λ h. inl ((pt rule).0 y), λ h. rw y refl)
        | inr n ↦ (
          λ h. inr (ih.0 (rw n at h)),
          λ h. rw n (ih.1 (rest_of (λ p. false≢true (sym n ∙ (pt rule).1 p)) h)),
        )
      ]
    where
      rest_of : (P rule → ⊥) → P rule ⊎ AnyRule P rules → AnyRule P rules
      rest_of f (inl p) = absurd (f p)
      rest_of f (inr q) = q

  All-IsMet :
      (rules : List Rule)
      → ¬ AnyRule (IsBroken m) rules
      → ¬ AnyRule (IsMissing m) rules
      → All (IsMet m) rules
  All-IsMet [] nb nm = tt
  All-IsMet (rule ∷ rules) nb nm = elim (Option-cases (measurement m rule.field)) [
    | inl e ↦ absurd (nm (inl e))
    | inr (x, e) ↦ elim (Bool-cases (is_within_limit rule.comparator (quantize x) rule.limit)) [
      | inl y ↦ ((x, e, y), All-IsMet rules (λ h. nb (inr h)) (λ h. nm (inr h)))
      | inr n ↦ absurd (nb (inl (x, e, n)))
    ]
  ]

  not-IsBroken : (rules : List Rule) → All (IsMet m) rules → ¬ AnyRule (IsBroken m) rules
  not-IsBroken [] h w = w
  not-IsBroken (rule ∷ rules) ((x, e, y), h) (inl (x', e', n)) =
      let same : x ≡ x' = cc in false≢true (sym n ∙ rw same at y)
  not-IsBroken (rule ∷ rules) (_, h) (inr w) = not-IsBroken rules h w

  not-IsMissing : (rules : List Rule) → All (IsMet m) rules → ¬ AnyRule (IsMissing m) rules
  not-IsMissing [] h w = w
  not-IsMissing (rule ∷ rules) ((x, e, y), h) (inl e') = absurd (let f : none ≡ some x = cc in cc)
  not-IsMissing (rule ∷ rules) (_, h) (inr w) = not-IsMissing rules h w

  -- What a verdict says of the panel.
  abbrev pub Means : ConformanceVerdict → List Rule → Type 0
  Means ConformanceVerdict.pass rules = All (IsMet m) rules
  Means ConformanceVerdict.fail rules = AnyRule (IsBroken m) rules
  Means ConformanceVerdict.incomplete rules =
      AnyRule (IsMissing m) rules × ¬ AnyRule (IsBroken m) rules

  verdict_of-Means : (rules : List Rule) → Means (verdict_of (check_all rules m)) rules
  unfolding verdict_of
  verdict_of-Means rules =
      let fails = any_result_iff is_fail (IsBroken m) IsBroken-iff rules in
      let gaps = any_result_iff is_not_measured (IsMissing m) IsMissing-iff rules in
      elim (Bool-cases (any_result is_fail (check_all rules m))) [
        | inl y ↦ rw y (fails.0 y)
        | inr n ↦
            let nb : ¬ AnyRule (IsBroken m) rules = λ w. false≢true (sym n ∙ fails.1 w) in
            elim (Bool-cases (any_result is_not_measured (check_all rules m))) [
              | inl y ↦ rw (n, y) (gaps.0 y, nb)
              | inr k ↦ rw (n, k) (All-IsMet rules nb (λ w. false≢true (sym k ∙ gaps.1 w)))
            ]
      ]

  -- No panel has two meanings.
  Means-unique :
      (v w : ConformanceVerdict) (rules : List Rule) → Means v rules → Means w rules → v ≡ w
  Means-unique ConformanceVerdict.pass ConformanceVerdict.pass rules a b = refl
  Means-unique ConformanceVerdict.pass ConformanceVerdict.fail rules a b =
      absurd (not-IsBroken rules a b)
  Means-unique ConformanceVerdict.pass ConformanceVerdict.incomplete rules a b =
      absurd (not-IsMissing rules a b.0)
  Means-unique ConformanceVerdict.fail ConformanceVerdict.pass rules a b =
      absurd (not-IsBroken rules b a)
  Means-unique ConformanceVerdict.fail ConformanceVerdict.fail rules a b = refl
  Means-unique ConformanceVerdict.fail ConformanceVerdict.incomplete rules a b = absurd (b.1 a)
  Means-unique ConformanceVerdict.incomplete ConformanceVerdict.pass rules a b =
      absurd (not-IsMissing rules b a.0)
  Means-unique ConformanceVerdict.incomplete ConformanceVerdict.fail rules a b = absurd (a.1 b)
  Means-unique ConformanceVerdict.incomplete ConformanceVerdict.incomplete rules a b = refl

  -- For a registered version `evaluate` reports, and its verdict is PASS exactly when every rule of
  -- the version is measured and within its limit, FAIL exactly when some measured value is beyond
  -- its limit, and INCOMPLETE exactly when none is and some value is missing.
  pub evaluate-Means :
      (version : Text) {rs : RuleSet}
      → rule_set version ≡ ok rs
      → (report : ConformanceReport) × (evaluate m version ≡ ok report)
        × ((v : ConformanceVerdict) → (report.verdict ≡ v) ↔ Means v rs.parameters)
  unfolding evaluate
  evaluate-Means version {rs} e =
      let results = check_all rs.parameters m in
      let found = verdict_of results in
      (
        record { rule_set_version = rs.version; verdict = found; parameters = results },
        rw e refl,
        λ v. (
          λ same. subst (λ w. Means w rs.parameters) same (verdict_of-Means rs.parameters),
          Means-unique found v rs.parameters (verdict_of-Means rs.parameters),
        ),
      )
