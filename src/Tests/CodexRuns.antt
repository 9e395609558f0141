-- ===== src/Tests/CodexRuns.antt =====
-- Runs of the scorer and of the decimals.
use apichain_backend.Base.{◌≡◌, refl, ◌↔◌, false, none, some, arith}
use apichain_backend.Base.Result.{ok}
use apichain_backend.Canonical.Decimal.{decimal_leb, quantize, two_places}
use apichain_backend.Canonical.Decimal.Laws.{two_places_ext}
use apichain_backend.Codex.Rules.{at_most, kenya_v1, general_v1, rule_set, RuleSet, tenths}
use apichain_backend.Codex.Score.{
  LabMeasurements, ConformanceVerdict, ConformanceReport, is_within_limit, evaluate, check_all,
  verdict_of,
}
use apichain_backend.Codex.Verdicts.{Means, evaluate-Means}
use apichain_backend.Codex.Limits.{
  kenya_registered, is_within_limit-quantize, general_pass-kenya_pass,
}

abbrev good_panel : LabMeasurements
good_panel = record {
  moisture_pct = some (tenths 192);
  fructose_glucose_g_100g = some (tenths 650);
  sucrose_g_100g = some (tenths 21);
  hmf_mg_kg = some (tenths 350);
  diastase_schade = some (tenths 120);
  free_acidity_meq_kg = some (tenths 300);
}

abbrev partial_panel : LabMeasurements
partial_panel = record good_panel { hmf_mg_kg = none }

evaluate-Means_example :
    (report : ConformanceReport) × (evaluate partial_panel kenya_v1.version ≡ ok report)
    × ((v : ConformanceVerdict) → (report.verdict ≡ v) ↔ Means partial_panel v kenya_v1.parameters)
evaluate-Means_example = evaluate-Means partial_panel kenya_v1.version kenya_registered

is_within_limit-quantize_example :
    is_within_limit at_most (quantize (tenths 200)) (tenths 200)
    ≡ is_within_limit at_most (tenths 200) (tenths 200)
is_within_limit-quantize_example =
    is_within_limit-quantize at_most (tenths 200) (tenths 200) (omega arith)

-- `19.2` and `19.20`
same_rendering :
    two_places (tenths 192)
    ≡ two_places (record { is_negative = false; coefficient = 1920; places = 2 })
same_rendering =
    two_places_ext (tenths 192) (record { is_negative = false; coefficient = 1920; places = 2 })
      (refl, refl)

abbrev report : RuleSet → ConformanceReport
report rs = record {
  rule_set_version = rs.version;
  verdict = ConformanceVerdict.pass;
  parameters = check_all rs.parameters good_panel;
}

good_under_general : evaluate good_panel general_v1.version ≡ ok (report general_v1)
unfolding evaluate verdict_of rule_set decimal_leb
good_under_general = refl

good_under_kenya : evaluate good_panel kenya_v1.version ≡ ok (report kenya_v1)
unfolding evaluate verdict_of rule_set decimal_leb
good_under_kenya = refl

general_pass-kenya_pass_example : (report kenya_v1).verdict ≡ ConformanceVerdict.pass
general_pass-kenya_pass_example =
    general_pass-kenya_pass good_panel (report general_v1) (report kenya_v1) good_under_general
      good_under_kenya refl
