-- ===== src/Codex/Score.antt =====
-- `evaluate`, `_check` and `as_payload`.
use apichain_backend.Base.{
  Bool, true, false, ◌||◌, Option, none, some, List, [], ◌∷◌, if◌then◌else◌,
}
use apichain_backend.Base.Result.{Result, ok, ◌>>=◌}
use apichain_backend.Canonical.Text.{Text, codes}
use apichain_backend.Canonical.Json.{Json, null, text, arr, obj, Items, nil, cons, end, field}
use apichain_backend.Canonical.Decimal.{Decimal, quantize, decimal_leb, q2}
use apichain_backend.Codex.Rules.{
  Comparator, at_most, at_least, Basis, codex_mandatory, codex_annex, Field, Rule, KeyError,
  rule_set,
}

-- A lab panel; an absent value was not reported. Values are decimals as `Decimal(str(raw))` reads
-- them.
pub record LabMeasurements : Type 0 where
  pub moisture_pct : Option Decimal
  pub fructose_glucose_g_100g : Option Decimal
  pub sucrose_g_100g : Option Decimal
  pub hmf_mg_kg : Option Decimal
  pub diastase_schade : Option Decimal
  pub free_acidity_meq_kg : Option Decimal

-- `getattr(measurements, rule.field)`
abbrev pub measurement : LabMeasurements → Field → Option Decimal
measurement m Field.moisture_pct = m.moisture_pct
measurement m Field.fructose_glucose_g_100g = m.fructose_glucose_g_100g
measurement m Field.sucrose_g_100g = m.sucrose_g_100g
measurement m Field.hmf_mg_kg = m.hmf_mg_kg
measurement m Field.diastase_schade = m.diastase_schade
measurement m Field.free_acidity_meq_kg = m.free_acidity_meq_kg

pub data Status : Type 0 where
  pass fail not_measured : Status

pub data ConformanceVerdict : Type 0 where
  pass fail incomplete : ConformanceVerdict

pub record ParameterResult : Type 0 where
  pub parameter : Text
  pub measured : Option Decimal
  pub unit : Text
  pub comparator : Comparator
  pub limit : Decimal
  pub basis : Basis
  pub status : Status

pub record ConformanceReport : Type 0 where
  pub rule_set_version : Text
  pub verdict : ConformanceVerdict
  pub parameters : List ParameterResult

-- The test against the limit, on the value rounded to the reported precision.
unfoldable pub is_within_limit : Comparator → Decimal → Decimal → Bool
unfolding decimal_leb
is_within_limit at_most measured limit = decimal_leb measured limit
is_within_limit at_least measured limit = decimal_leb limit measured

abbrev pub status_of : Rule → Option Decimal → Status
status_of rule none = Status.not_measured
status_of rule (some raw) =
    if is_within_limit rule.comparator (quantize raw) rule.limit then Status.pass else Status.fail

-- `_check`
unfoldable pub check : Rule → Option Decimal → ParameterResult
check rule raw = record {
  parameter = rule.parameter;
  measured = elim raw [ none ↦ none | some x ↦ some (quantize x) ];
  unit = rule.unit;
  comparator = rule.comparator;
  limit = rule.limit;
  basis = rule.basis;
  status = status_of rule raw;
}

abbrev pub is_fail : Status → Bool
is_fail Status.fail = true
is_fail _ = false

abbrev pub is_not_measured : Status → Bool
is_not_measured Status.not_measured = true
is_not_measured _ = false

abbrev pub any_result : (Status → Bool) → List ParameterResult → Bool
any_result test [] = false
any_result test (r ∷ results) = test r.status || any_result test results

unfoldable pub verdict_of : List ParameterResult → ConformanceVerdict
verdict_of results =
    if any_result is_fail results
    then ConformanceVerdict.fail
    else if any_result is_not_measured results
    then ConformanceVerdict.incomplete
    else ConformanceVerdict.pass

unfoldable pub check_all : List Rule → LabMeasurements → List ParameterResult
unfolding check is_within_limit
check_all [] m = []
check_all (rule ∷ rules) m = check rule (measurement m rule.field) ∷ check_all rules m

unfoldable pub evaluate : LabMeasurements → Text → Result KeyError ConformanceReport
unfolding rule_set check_all verdict_of
evaluate m version = rule_set version >>= λ rs.
    let results = check_all rs.parameters m in
    ok
      (record { rule_set_version = rs.version; verdict = verdict_of results; parameters = results })

abbrev pub verdict_text : ConformanceVerdict → Text
verdict_text ConformanceVerdict.pass = codes "PASS"
verdict_text ConformanceVerdict.fail = codes "FAIL"
verdict_text ConformanceVerdict.incomplete = codes "INCOMPLETE"

abbrev pub status_text : Status → Text
status_text Status.pass = codes "pass"
status_text Status.fail = codes "fail"
status_text Status.not_measured = codes "not_measured"

abbrev pub comparator_text : Comparator → Text
comparator_text at_most = codes "<="
comparator_text at_least = codes ">="

abbrev pub basis_text : Basis → Text
basis_text codex_mandatory = codes "codex-mandatory"
basis_text codex_annex = codes "codex-annex"

abbrev pub text_or_null : Option Text → Json
text_or_null none = null
text_or_null (some s) = text s

unfoldable pub parameter_payload : ParameterResult → Json
unfolding q2
parameter_payload p = obj (
    field (codes "parameter") (text p.parameter) (
      field (codes "measured") (text_or_null (q2 p.measured)) (
        field (codes "unit") (text p.unit) (
          field (codes "comparator") (text (comparator_text p.comparator)) (
            field (codes "limit") (text_or_null (q2 (some p.limit))) (
              field (codes "basis") (text (basis_text p.basis))
                (field (codes "status") (text (status_text p.status)) end)))))))

unfoldable pub parameter_payloads : List ParameterResult → Items
unfolding parameter_payload
parameter_payloads [] = nil
parameter_payloads (p ∷ ps) = cons (parameter_payload p) (parameter_payloads ps)

unfoldable pub as_payload : ConformanceReport → Json
unfolding parameter_payloads
as_payload report = obj (
    field (codes "rule_set_version") (text report.rule_set_version) (
      field (codes "verdict") (text (verdict_text report.verdict))
        (field (codes "parameters") (arr (parameter_payloads report.parameters)) end)))
