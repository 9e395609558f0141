-- ===== src/Codex/Rules.antt =====
-- The frozen rule sets.
use apichain_backend.Base.{ℕ, false, List, [], ◌∷◌, map, if◌then◌else◌}
use apichain_backend.Base.Bytes.{bytes_eq}
use apichain_backend.Base.Result.{Result, ok, err}
use apichain_backend.Canonical.Text.{Text, codes}
use apichain_backend.Canonical.Decimal.{Decimal}

pub data Comparator : Type 0 where
  at_most at_least : Comparator

pub data Basis : Type 0 where
  codex_mandatory codex_annex : Basis

-- The attributes of `LabMeasurements`.
pub data Field : Type 0 where
  moisture_pct fructose_glucose_g_100g sucrose_g_100g hmf_mg_kg diastase_schade
        free_acidity_meq_kg :
      Field

pub record Rule : Type 0 where
  pub parameter : Text
  pub field : Field
  pub comparator : Comparator
  pub limit : Decimal
  pub unit : Text
  pub basis : Basis

pub record RuleSet : Type 0 where
  pub version : Text
  pub parameters : List Rule

-- `Decimal("20.0")` and its kin: tenths.
abbrev pub tenths : ℕ → Decimal
tenths n = record { is_negative = false; coefficient = n; places = 1 }

abbrev pub kenya_rules : List Rule
kenya_rules =
    record {
      parameter = codes "moisture";
      field = moisture_pct;
      comparator = at_most;
      limit = tenths 200;
      unit = codes "%";
      basis = codex_mandatory;
    }
    ∷ record {
      parameter = codes "fructose_glucose";
      field = fructose_glucose_g_100g;
      comparator = at_least;
      limit = tenths 600;
      unit = codes "g/100g";
      basis = codex_mandatory;
    }
    ∷ record {
      parameter = codes "sucrose";
      field = sucrose_g_100g;
      comparator = at_most;
      limit = tenths 50;
      unit = codes "g/100g";
      basis = codex_mandatory;
    }
    ∷ record {
      parameter = codes "hmf";
      field = hmf_mg_kg;
      comparator = at_most;
      limit = tenths 800;
      unit = codes "mg/kg";
      basis = codex_annex;
    }
    ∷ record {
      parameter = codes "diastase";
      field = diastase_schade;
      comparator = at_least;
      limit = tenths 80;
      unit = codes "Schade";
      basis = codex_annex;
    }
    ∷ record {
      parameter = codes "free_acidity";
      field = free_acidity_meq_kg;
      comparator = at_most;
      limit = tenths 500;
      unit = codes "meq/kg";
      basis = codex_annex;
    }
    ∷ []

-- `_KENYA_V1`
abbrev pub kenya_v1 : RuleSet
kenya_v1 = record { version = codes "codex-kenya-v1"; parameters = kenya_rules }

-- The general limit for HMF in place of the tropical one.
abbrev pub general_rule : Rule → Rule
general_rule r = if bytes_eq r.parameter (codes "hmf") then record r { limit = tenths 400 } else r

-- `_GENERAL_V1`
abbrev pub general_v1 : RuleSet
general_v1 = record {
  version = codes "codex-general-v1";
  parameters = map general_rule kenya_rules;
}

pub data KeyError : Type 0 where
  key_error : KeyError

-- `RULES[version]`
unfoldable pub rule_set : Text → Result KeyError RuleSet
unfolding bytes_eq
rule_set version =
    if bytes_eq version kenya_v1.version
    then ok kenya_v1
    else if bytes_eq version general_v1.version
    then ok general_v1
    else err key_error
