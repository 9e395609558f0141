-- ===== src/Access/Errors.antt =====
-- The refusals of the modelled routes: an `APIError` with its HTTP status and its stable code.
use apichain_backend.Base.{ℕ}

pub data Refusal : Type 0 where
  unauthorized password_change_required forbidden : Refusal
  batch_not_found farmer_not_found apiary_not_found apiary_farmer_mismatch batch_code_taken :
      Refusal
  invalid_transition stage_already_recorded idempotency_conflict : Refusal
  consent_required rate_limited password_too_short password_too_long : Refusal

abbrev pub http_status : Refusal → ℕ
http_status unauthorized = 401
http_status password_change_required = 403
http_status forbidden = 403
http_status batch_not_found = 404
http_status farmer_not_found = 404
http_status apiary_not_found = 404
http_status apiary_farmer_mismatch = 409
http_status batch_code_taken = 409
http_status invalid_transition = 409
http_status stage_already_recorded = 409
http_status idempotency_conflict = 409
http_status consent_required = 422
http_status rate_limited = 429
http_status password_too_short = 422
http_status password_too_long = 422
