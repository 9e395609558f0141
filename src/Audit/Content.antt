-- ===== src/Audit/Content.antt =====
-- A row of `audit_log`, the dict that its hash covers, and `_row_hash`.
use apichain_backend.Base.{ℕ, Option, none, some, [], ◌∷◌, ◌++◌}
use apichain_backend.Base.Bytes.{Bytes}
use apichain_backend.Canonical.Text.{Text, codes, hex}
use apichain_backend.Canonical.Json.{Json, null, num, text, obj, end, field, canonical_bytes}
use apichain_backend.Canonical.DateTime.{DateTime, isoformat}

-- What a caller of `append` passes.
pub record Entry : Type 0 where
  pub actor_id : Option ℕ
  pub actor_role : Text
  pub subject_type : Text
  pub subject_id : Text
  pub action : Text
  pub payload : Json
  pub ip : Option Text
  pub user_agent : Option Text

pub record AuditRow : Type 0 where
  pub id : ℕ
  pub prev_hash : Bytes
  pub entry : Entry
  pub payload_hash : Bytes
  pub created_at : DateTime
  pub row_hash : Bytes

-- 32 zero bytes: the `prev_hash` of the first row.
abbrev pub genesis_prev_hash : Bytes
genesis_prev_hash =
    0 ∷ 0 ∷ 0 ∷ 0 ∷ 0 ∷ 0 ∷ 0 ∷ 0 ∷ 0 ∷ 0 ∷ 0 ∷ 0 ∷ 0 ∷ 0 ∷ 0 ∷ 0 ∷ 0 ∷ 0 ∷ 0 ∷ 0 ∷ 0 ∷ 0 ∷ 0 ∷ 0
    ∷ 0 ∷ 0 ∷ 0 ∷ 0 ∷ 0 ∷ 0 ∷ 0 ∷ 0 ∷ []

abbrev pub optional_text : Option Text → Json
optional_text none = null
optional_text (some s) = text s

abbrev pub optional_num : Option ℕ → Json
optional_num none = null
optional_num (some n) = num n

-- The dict `content` of `_row_hash`, in the order of the source.
unfoldable pub content : Bytes → Entry → Bytes → DateTime → Json
unfolding hex isoformat
content prev_hash e payload_hash created_at = obj (
    field (codes "prev_hash") (text (hex prev_hash)) (
      field (codes "actor_id") (optional_num e.actor_id) (
        field (codes "actor_role") (text e.actor_role) (
          field (codes "subject_type") (text e.subject_type) (
            field (codes "subject_id") (text e.subject_id) (
              field (codes "action") (text e.action) (
                field (codes "payload_hash") (text (hex payload_hash)) (
                  field (codes "payload") e.payload (
                    field (codes "created_at") (text (isoformat created_at)) (
                      field (codes "ip") (optional_text e.ip)
                        (field (codes "user_agent") (optional_text e.user_agent) end)))))))))))

-- The bytes of a row that are hashed behind its `prev_hash`.
unfoldable pub content_bytes : Bytes → Entry → Bytes → DateTime → Bytes
unfolding content canonical_bytes
content_bytes prev_hash e payload_hash created_at =
    canonical_bytes (content prev_hash e payload_hash created_at)

unfoldable pub compute_row_hash : (Bytes → Bytes) → Bytes → Entry → Bytes → DateTime → Bytes
compute_row_hash keccak prev_hash e payload_hash created_at =
    keccak (prev_hash ++ content_bytes prev_hash e payload_hash created_at)
