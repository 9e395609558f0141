-- ===== src/Tests/Data.antt =====
-- Inputs that several runs share. The hash is a concrete function with 32-byte digests.
use apichain_backend.Base.{ℕ, ◌+◌, ◌*◌, ◌%◌, ◌≡◌, refl, none, some, [], ◌∷◌, length}
use apichain_backend.Base.Bytes.{Bytes}
use apichain_backend.Canonical.Text.{codes}
use apichain_backend.Canonical.Json.{num, text, obj, end, field}
use apichain_backend.Canonical.DateTime.{DateTime}
use apichain_backend.Audit.Content.{Entry, AuditRow}

abbrev pub checksum : ℕ → Bytes → ℕ
checksum acc [] = acc
checksum acc (x ∷ xs) = checksum ((acc * 31 + x + 1) % 65521) xs

abbrev pub toy_hash : Bytes → Bytes
toy_hash x =
    checksum 7 x
    ∷ 0
    ∷ 0
    ∷ 0
    ∷ 0
    ∷ 0
    ∷ 0
    ∷ 0
    ∷ 0
    ∷ 0
    ∷ 0
    ∷ 0
    ∷ 0
    ∷ 0
    ∷ 0
    ∷ 0
    ∷ 0
    ∷ 0
    ∷ 0
    ∷ 0
    ∷ 0
    ∷ 0
    ∷ 0
    ∷ 0
    ∷ 0
    ∷ 0
    ∷ 0
    ∷ 0
    ∷ 0
    ∷ 0
    ∷ 0
    ∷ 0
    ∷ []

pub length-toy_hash : (x : Bytes) → length (toy_hash x) ≡ 32
length-toy_hash x = refl

abbrev pub noon : DateTime
noon = record {
  year = 2026;
  month = 3;
  day = 14;
  hour = 12;
  minute = 0;
  second = 0;
  microsecond = 0;
}

abbrev pub evening : DateTime
evening = record noon { hour = 19 }

abbrev pub created_entry : Entry
created_entry = record {
  actor_id = some 3;
  actor_role = codes "farmer";
  subject_type = codes "batch";
  subject_id = codes "1";
  action = codes "batch.created";
  payload =
      obj (field (codes "farmer_id") (num 9) (field (codes "state") (text (codes "CREATED")) end));
  ip = none;
  user_agent = none;
}

abbrev pub harvested_entry : Entry
harvested_entry = record created_entry { action = codes "batch.harvest_recorded" }

abbrev pub audit_row : ℕ → ℕ → AuditRow
audit_row id hash = record {
  id = id;
  prev_hash = 0 ∷ [];
  entry = created_entry;
  payload_hash = 1 ∷ [];
  created_at = noon;
  row_hash = hash ∷ [];
}
