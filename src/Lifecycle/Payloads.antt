-- ===== src/Lifecycle/Payloads.antt =====
-- app/services/stage_payloads.py: the seven stage rows of app/models/stages.py and the dict of each that
-- is hashed. The rows leave out the primary key, `recorded_at` where the hash does, and the columns that
-- nothing here reads. `str.lower` is a parameter.
use apichain_backend.Base.{
  ℕ, ◌-◌, ◌*◌, ◌/◌, ◌^◌, Option, none, some, [], ◌∷◌, ◌++◌, leb, if◌then◌else◌,
}
use apichain_backend.Canonical.Text.{Text, codes, decimal, padded}
use apichain_backend.Canonical.Json.{Json, null, num, text, arr, Items, Fields, end, field}
use apichain_backend.Canonical.DateTime.{DateTime, isoformat}
use apichain_backend.Canonical.Decimal.{Decimal, two_places}
use apichain_backend.Canonical.Decimal.Rounding.{round_half_even}

pub record CalendarDate : Type 0 where
  pub year : ℕ
  pub month : ℕ
  pub day : ℕ

-- `date.isoformat()`
unfoldable pub date_text : CalendarDate → Text
unfolding padded
date_text d = padded 4 d.year (45 ∷ padded 2 d.month (45 ∷ padded 2 d.day []))

-- The coefficient at six places.
abbrev pub millionths : ℕ → ℕ → ℕ
millionths c p = if leb p 6 then c * 10 ^ (6 - p) else round_half_even c (10 ^ (p - 6))

-- `str(x.quantize(Decimal("0.000001")))`
unfoldable pub six_places : Decimal → Text
unfolding decimal padded round_half_even
six_places x =
    let c = millionths x.coefficient x.places in
    (if x.is_negative then 45 ∷ [] else []) ++ decimal (c / 1000000) ++ 46 ∷ padded 6 c []

abbrev pub json_q2 : Option Decimal → Json
json_q2 none = null
json_q2 (some x) = text (two_places x)

abbrev pub json_q6 : Option Decimal → Json
json_q6 none = null
json_q6 (some x) = text (six_places x)

abbrev pub json_text : Option Text → Json
json_text none = null
json_text (some s) = text s

abbrev pub json_num : Option ℕ → Json
json_num none = null
json_num (some n) = num n

abbrev pub json_dt : Option DateTime → Json
json_dt none = null
json_dt (some t) = text (isoformat t)

pub record ApiaryRecord : Type 0 where
  pub batch_id : ℕ
  pub apiary_id : ℕ
  pub latitude : Decimal
  pub longitude : Decimal
  pub altitude : Option Decimal
  pub vegetation_type : Option Text
  pub hive_count : Option ℕ

pub record BatchMetadata : Type 0 where
  pub batch_id : ℕ
  pub honey_type : Text
  pub expected_yield_kg : Decimal
  pub harvest_window_start : CalendarDate
  pub harvest_window_end : CalendarDate
  pub apiary_management_method : Text
  pub notes : Option Text
  pub recorded_at : DateTime

pub record HarvestRecord : Type 0 where
  pub batch_id : ℕ
  pub harvest_date : DateTime
  pub quantity_kg : Decimal
  pub hive_ids : Items
  pub gps_lat : Option Decimal
  pub gps_lon : Option Decimal
  pub notes : Option Text

pub record ProcessRecord : Type 0 where
  pub batch_id : ℕ
  pub extraction_method : Text
  pub moisture_content : Option Decimal
  pub handling_notes : Option Text

pub record LabResult : Type 0 where
  pub batch_id : ℕ
  pub moisture_pct : Option Decimal
  pub fructose_glucose_g_100g : Option Decimal
  pub sucrose_g_100g : Option Decimal
  pub hmf_mg_kg : Option Decimal
  pub diastase_schade : Option Decimal
  pub free_acidity_meq_kg : Option Decimal
  pub pollen_density : Option Decimal
  pub laboratory_name : Option Text
  pub analyst_name : Option Text
  pub certificate_number : Option Text
  pub notes : Option Text
  pub tested_at : Option DateTime

pub record PackagingRecord : Type 0 where
  pub batch_id : ℕ
  pub unit_count : ℕ
  pub jar_ids : Items
  pub notes : Option Text

pub record DistributionRecord : Type 0 where
  pub batch_id : ℕ
  pub retailer_name : Text
  pub transport_reference : Option Text
  pub handover_notes : Option Text

unfoldable pub apiary_record : ApiaryRecord → Fields
unfolding six_places two_places
apiary_record row = field (codes "batch_id") (num row.batch_id) (
    field (codes "apiary_id") (num row.apiary_id) (
      field (codes "latitude") (text (six_places row.latitude)) (
        field (codes "longitude") (text (six_places row.longitude)) (
          field (codes "altitude") (json_q2 row.altitude) (
            field (codes "vegetation_type") (json_text row.vegetation_type)
              (field (codes "hive_count") (json_num row.hive_count) end))))))

unfoldable pub batch_metadata : (Text → Text) → BatchMetadata → Fields
unfolding two_places date_text isoformat
batch_metadata lower row = field (codes "batch_id") (num row.batch_id) (
    field (codes "honey_type") (text (lower row.honey_type)) (
      field (codes "expected_yield_kg") (text (two_places row.expected_yield_kg)) (
        field (codes "harvest_window_start") (text (date_text row.harvest_window_start)) (
          field (codes "harvest_window_end") (text (date_text row.harvest_window_end)) (
            field (codes "apiary_management_method") (text (lower row.apiary_management_method))
              (field (codes "recorded_at") (text (isoformat row.recorded_at)) end))))))

unfoldable pub harvest_record : HarvestRecord → Fields
unfolding two_places six_places isoformat
harvest_record row = field (codes "batch_id") (num row.batch_id) (
    field (codes "harvest_date") (text (isoformat row.harvest_date)) (
      field (codes "quantity_kg") (text (two_places row.quantity_kg)) (
        field (codes "hive_ids") (arr row.hive_ids) (
          field (codes "gps_lat") (json_q6 row.gps_lat) (
            field (codes "gps_lon") (json_q6 row.gps_lon)
              (field (codes "notes") (json_text row.notes) end))))))

unfoldable pub process_record : ProcessRecord → Fields
unfolding two_places
process_record row = field (codes "batch_id") (num row.batch_id) (
    field (codes "extraction_method") (text row.extraction_method) (
      field (codes "moisture_content") (json_q2 row.moisture_content)
        (field (codes "handling_notes") (json_text row.handling_notes) end)))

unfoldable pub lab_result : LabResult → Fields
unfolding two_places isoformat
lab_result row = field (codes "batch_id") (num row.batch_id) (
    field (codes "moisture_pct") (json_q2 row.moisture_pct) (
      field (codes "fructose_glucose_g_100g") (json_q2 row.fructose_glucose_g_100g) (
        field (codes "sucrose_g_100g") (json_q2 row.sucrose_g_100g) (
          field (codes "hmf_mg_kg") (json_q2 row.hmf_mg_kg) (
            field (codes "diastase_schade") (json_q2 row.diastase_schade) (
              field (codes "free_acidity_meq_kg") (json_q2 row.free_acidity_meq_kg) (
                field (codes "pollen_density") (json_q2 row.pollen_density) (
                  field (codes "laboratory_name") (json_text row.laboratory_name) (
                    field (codes "analyst_name") (json_text row.analyst_name) (
                      field (codes "certificate_number") (json_text row.certificate_number) (
                        field (codes "notes") (json_text row.notes)
                          (field (codes "tested_at") (json_dt row.tested_at) end))))))))))))

unfoldable pub packaging_record : PackagingRecord → Fields
packaging_record row = field (codes "batch_id") (num row.batch_id) (
    field (codes "unit_count") (num row.unit_count)
      (field (codes "jar_ids") (arr row.jar_ids) (field (codes "notes") (json_text row.notes) end)))

unfoldable pub distribution_record : DistributionRecord → Fields
distribution_record row = field (codes "batch_id") (num row.batch_id) (
    field (codes "retailer_name") (text row.retailer_name) (
      field (codes "transport_reference") (json_text row.transport_reference)
        (field (codes "handover_notes") (json_text row.handover_notes) end)))
