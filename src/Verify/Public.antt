-- ===== src/Verify/Public.antt =====
-- The classification of every field of a stage payload and the form of it that the anonymous view shows.
use apichain_backend.Base.{
  ℕ, ◌+◌, ◌-◌, ◌*◌, ◌^◌, Bool, true, false, not, ◌&&◌, Option, none, some, List, [], ◌∷◌, ◌++◌,
  ◌==◌, leb, if◌then◌else◌,
}
use apichain_backend.Base.Bytes.{bytes_eq}
use apichain_backend.Canonical.Text.{Text, codes, decimal}
use apichain_backend.Canonical.Json.{
  Json, null, bool, num, real, text, arr, obj, Items, nil, cons, Fields, end, field,
}
use apichain_backend.Canonical.Decimal.{Decimal, two_places}
use apichain_backend.Canonical.Decimal.Rounding.{round_half_even}

-- The keys of `STAGE_MODELS`.
pub data Block : Type 0 where
  apiary metadata harvest process lab packaging distribution : Block

-- `Rule`: what becomes of a field.
pub data FieldRule : Type 0 where
  public reduce_2dp round_100 withhold : FieldRule

-- `FIELD_POLICY`
abbrev pub field_policy : Block → List (Text × FieldRule)
field_policy apiary =
    (codes "batch_id", public)
    ∷ (codes "apiary_id", withhold)
    ∷ (codes "latitude", reduce_2dp)
    ∷ (codes "longitude", reduce_2dp)
    ∷ (codes "altitude", round_100)
    ∷ (codes "vegetation_type", public)
    ∷ (codes "hive_count", public)
    ∷ []
field_policy metadata =
    (codes "batch_id", public)
    ∷ (codes "honey_type", public)
    ∷ (codes "expected_yield_kg", public)
    ∷ (codes "harvest_window_start", public)
    ∷ (codes "harvest_window_end", public)
    ∷ (codes "apiary_management_method", public)
    ∷ (codes "recorded_at", public)
    ∷ []
field_policy harvest =
    (codes "batch_id", public)
    ∷ (codes "harvest_date", public)
    ∷ (codes "quantity_kg", public)
    ∷ (codes "hive_ids", public)
    ∷ (codes "gps_lat", reduce_2dp)
    ∷ (codes "gps_lon", reduce_2dp)
    ∷ (codes "notes", withhold)
    ∷ []
field_policy process =
    (codes "batch_id", public)
    ∷ (codes "extraction_method", public)
    ∷ (codes "moisture_content", public)
    ∷ (codes "handling_notes", withhold)
    ∷ []
field_policy lab =
    (codes "batch_id", public)
    ∷ (codes "moisture_pct", public)
    ∷ (codes "fructose_glucose_g_100g", public)
    ∷ (codes "sucrose_g_100g", public)
    ∷ (codes "hmf_mg_kg", public)
    ∷ (codes "diastase_schade", public)
    ∷ (codes "free_acidity_meq_kg", public)
    ∷ (codes "pollen_density", public)
    ∷ (codes "laboratory_name", public)
    ∷ (codes "analyst_name", withhold)
    ∷ (codes "certificate_number", public)
    ∷ (codes "notes", withhold)
    ∷ (codes "tested_at", public)
    ∷ (codes "conformance", public)
    ∷ []
field_policy packaging =
    (codes "batch_id", public)
    ∷ (codes "unit_count", public)
    ∷ (codes "jar_ids", public)
    ∷ (codes "notes", withhold)
    ∷ []
field_policy distribution =
    (codes "batch_id", public)
    ∷ (codes "retailer_name", public)
    ∷ (codes "transport_reference", withhold)
    ∷ (codes "handover_notes", withhold)
    ∷ []

-- `policy.get(key, "withhold")`
abbrev pub get_rule : List (Text × FieldRule) → Text → FieldRule
get_rule [] key = withhold
get_rule ((k, rule) ∷ policy) key = if bytes_eq k key then rule else get_rule policy key

pub data Mark : Type 0 where
  digit : ℕ → Mark
  point : Mark
  other : Mark

abbrev pub mark_of : Bool → ℕ → Mark
mark_of fraction c =
    if leb 48 c && leb c 57
    then digit (c - 48)
    else if not fraction && c == 46
    then point
    else other

-- The digits after the first, with at most one decimal point among them.
unfoldable pub parse_digits : Bool → Bool → ℕ → ℕ → Text → Option Decimal
parse_digits is_negative fraction c places [] =
    some (record { is_negative = is_negative; coefficient = c; places = places })
parse_digits is_negative fraction c places (x ∷ xs) = elim (mark_of fraction x) [
  | digit d ↦
      parse_digits is_negative fraction (c * 10 + d) (if fraction then places + 1 else places) xs
  | point ↦ parse_digits is_negative true c places xs
  | other ↦ none
]

abbrev pub parse_unsigned : Bool → Text → Option Decimal
parse_unsigned is_negative [] = none
parse_unsigned is_negative (x ∷ xs) =
    if leb 48 x && leb x 57 then parse_digits is_negative false (x - 48) 0 xs else none

-- `Decimal(s)` of a number in plain notation, in which the builders write; `none` is
-- `InvalidOperation`.
unfoldable pub parse_decimal : Text → Option Decimal
unfolding parse_digits
parse_decimal [] = none
parse_decimal (x ∷ xs) = if x == 45 then parse_unsigned true xs else parse_unsigned false (x ∷ xs)

-- `Decimal(str(value))` of a value that is not null.
abbrev pub decimal_of : Json → Option Decimal
decimal_of (text s) = parse_decimal s
decimal_of (num n) = some (record { is_negative = false; coefficient = n; places = 0 })
decimal_of (real s) = parse_decimal s
decimal_of null = none
decimal_of (bool b) = none
decimal_of (arr xs) = none
decimal_of (obj fs) = none

-- `f"{(x / 100).quantize(Decimal(1)) * 100:f}"`
unfoldable pub hundreds : Decimal → Text
unfolding decimal round_half_even
hundreds x =
    (if x.is_negative then 45 ∷ [] else [])
    ++ decimal (round_half_even x.coefficient (10 ^ (x.places + 2)) * 100)

abbrev pub text_of : (Decimal → Text) → Option Decimal → Option Json
text_of write none = none
text_of write (some x) = some (text (write x))

-- `_reduce_2dp`
abbrev pub reduced_2dp : Json → Option Json
reduced_2dp null = some null
reduced_2dp value = text_of two_places (decimal_of value)

-- `_round_100`
abbrev pub rounded_100 : Json → Option Json
rounded_100 null = some null
rounded_100 value = text_of hundreds (decimal_of value)

-- `_APPLY`
unfoldable pub apply_rule : FieldRule → Json → Option Json
unfolding parse_decimal two_places hundreds
apply_rule public value = some value
apply_rule reduce_2dp value = reduced_2dp value
apply_rule round_100 value = rounded_100 value
apply_rule withhold value = some null

-- `==` of a value and what a rule made of it.
unfoldable mutual
  unfolding bytes_eq

  pub json_eq : Json → Json → Bool
  json_eq null null = true
  json_eq (bool true) (bool true) = true
  json_eq (bool false) (bool false) = true
  json_eq (num m) (num n) = m == n
  json_eq (real s) (real t) = bytes_eq s t
  json_eq (text s) (text t) = bytes_eq s t
  json_eq (arr xs) (arr ys) = items_eq xs ys
  json_eq (obj fs) (obj gs) = fields_eq fs gs
  json_eq _ _ = false

  pub items_eq : Items → Items → Bool
  items_eq nil nil = true
  items_eq (cons x xs) (cons y ys) = json_eq x y && items_eq xs ys
  items_eq _ _ = false

  pub fields_eq : Fields → Fields → Bool
  fields_eq end end = true
  fields_eq (field k v fs) (field l w gs) = bytes_eq k l && (json_eq v w && fields_eq fs gs)
  fields_eq _ _ = false

-- A shown payload and the keys that the rules changed.
abbrev pub Shown : Type 0
Shown = Fields × List Text

abbrev pub add_shown : Text → Json → Option Json → Option Shown → Option Shown
add_shown key value none rest = none
add_shown key value (some shown) none = none
add_shown key value (some shown) (some (fs, changed)) =
    some (field key shown fs, if json_eq shown value then changed else key ∷ changed)

-- `_public_form`
unfoldable pub public_form : List (Text × FieldRule) → Fields → Option Shown
unfolding apply_rule json_eq bytes_eq
public_form policy end = some (end, [])
public_form policy (field key value fs) =
    add_shown key value (apply_rule (get_rule policy key) value) (public_form policy fs)

-- The keys of the policy that are not public.
abbrev pub restricted : List (Text × FieldRule) → List Text
restricted [] = []
restricted ((key, public) ∷ policy) = restricted policy
restricted ((key, _) ∷ policy) = key ∷ restricted policy
