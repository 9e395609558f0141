-- ===== src/Verify/Returns.antt =====
-- The calls of `verify_batch` that return, on the stage rows of the model's types.
use apichain_backend.Base.{◌≡◌, none, some, List, [], ◌∷◌}
use apichain_backend.Base.Bytes.{Bytes}
use apichain_backend.Canonical.Text.{Text}
use apichain_backend.Canonical.Json.{Json, null, text, Fields, end, field}
use apichain_backend.Canonical.Decimal.{Decimal}
use apichain_backend.Verify.Public.{
  Block, FieldRule, public, reduce_2dp, round_100, withhold, field_policy, get_rule, parse_decimal,
}
use apichain_backend.Verify.Match.{Found, no_row, row_with}

-- A null, or a text that is read as a decimal.
abbrev Readable : Json → Type 0
Readable null = Unit
Readable (text s) = (x : Decimal) × (parse_decimal s ≡ some x)
Readable _ = ⊥

abbrev FitsRule : FieldRule → Json → Type 0
FitsRule public value = Unit
FitsRule withhold value = Unit
FitsRule reduce_2dp value = Readable value
FitsRule round_100 value = Readable value

abbrev Fits : List (Text × FieldRule) → Fields → Type 0
Fits policy end = Unit
Fits policy (field key value fs) = FitsRule (get_rule policy key) value × Fits policy fs

-- A policy that reads no number.
abbrev ReadsNone : List (Text × FieldRule) → Type 0
ReadsNone [] = Unit
ReadsNone ((key, rule) ∷ policy) = ((value : Json) → FitsRule rule value) × ReadsNone policy

abbrev any_value : (value : Json) → Unit {0}
any_value value = tt

-- The payload that a stage table yields fits the block's policy.
abbrev FitsFound : Block → Found → Type 0
FitsFound block no_row = Unit
FitsFound block (row_with none) = Unit
FitsFound block (row_with (some fs)) = Fits (field_policy block) fs
