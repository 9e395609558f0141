-- ===== src/Canonical.antt =====
-- app/services/canonical.py: the one serializer, `json.dumps(data, sort_keys=True)` as UTF-8, and
-- the ISO form of a naive datetime. A text is the list of its code points.
pub mod Text
pub mod Json
pub mod DateTime
pub mod Decimal
