-- ===== src/Consent.antt =====
-- app/services/consent.py: an append-only table of grants and withdrawals, of which the newest decides.
use apichain_backend.Base.{
  ℕ, ◌+◌, ◌≡◌, refl, Bool, true, false, not, ◌&&◌, Option, none, some, List, [], ◌∷◌, ◌++◌, ◌==◌,
  arith, if◌then◌else◌, Bool-cases, inl, inr,
}
use apichain_backend.Base.Bytes.{bytes_eq, bytes_eq_refl}
use apichain_backend.Base.Result.{Result, ok, err}
use apichain_backend.Canonical.Text.{Text}
use apichain_backend.Access.Errors.{Refusal, consent_required}

pub data ConsentPurpose : Type 0 where
  data_processing document_upload sms_notifications email_notifications photo_publish :
      ConsentPurpose

pub data GrantedVia : Type 0 where
  onboarder farmer_self : GrantedVia

abbrev pub same_purpose : ConsentPurpose → ConsentPurpose → Bool
same_purpose data_processing data_processing = true
same_purpose document_upload document_upload = true
same_purpose sms_notifications sms_notifications = true
same_purpose email_notifications email_notifications = true
same_purpose photo_publish photo_publish = true
same_purpose _ _ = false

abbrev pub same_via : GrantedVia → GrantedVia → Bool
same_via onboarder onboarder = true
same_via farmer_self farmer_self = true
same_via _ _ = false

pub record ConsentRecord : Type 0 where
  pub id : ℕ
  pub subject_type : Text
  pub subject_id : ℕ
  pub consent_purpose : ConsentPurpose
  pub granted : Bool
  pub granted_via : GrantedVia
  pub text_version : Text

-- The rows in id order, and the sequence.
pub record ConsentTable : Type 0 where
  pub rows : List ConsentRecord
  pub next_id : ℕ

-- Whose consent, and for what.
pub record Subject : Type 0 where
  pub subject_type : Text
  pub subject_id : ℕ
  pub purpose : ConsentPurpose

-- `record_consent`: the table with the new row, and the row.
unfoldable pub record_consent :
    ConsentTable → Subject → Bool → GrantedVia → Text → ConsentTable × ConsentRecord
record_consent table s granted granted_via text_version =
    let row : ConsentRecord = record {
      id = table.next_id;
      subject_type = s.subject_type;
      subject_id = s.subject_id;
      consent_purpose = s.purpose;
      granted = granted;
      granted_via = granted_via;
      text_version = text_version;
    } in
    (record { rows = table.rows ++ row ∷ []; next_id = table.next_id + 1 }, row)

-- `capture_consent`
unfoldable pub capture_consent :
    ConsentTable
    → Subject
    → Bool
    → GrantedVia
    → Text
    → Result Refusal (ConsentTable × ConsentRecord)
unfolding record_consent
capture_consent table s granted granted_via text_version =
    if not granted
    then err consent_required
    else ok (record_consent table s true granted_via text_version)

abbrev pub is_about : Subject → ConsentRecord → Bool
is_about s row =
    bytes_eq row.subject_type s.subject_type
    && (row.subject_id == s.subject_id && same_purpose row.consent_purpose s.purpose)

abbrev pub is_via : Option GrantedVia → ConsentRecord → Bool
is_via none row = true
is_via (some via) row = same_via row.granted_via via

-- The row of the highest id that passes the test.
unfoldable pub newest : (ConsentRecord → Bool) → List ConsentRecord → Option ConsentRecord
newest test [] = none
newest test (row ∷ rows) = elim (newest test rows) [
  | some later ↦ some later
  | none ↦ if test row then some row else none
]

unfoldable pub current : ConsentTable → Subject → Option GrantedVia → Option ConsentRecord
unfolding newest
current table s granted_via = newest (λ row. is_about s row && is_via granted_via row) table.rows

abbrev pub granted_row : Option ConsentRecord → Result Refusal ConsentRecord
granted_row none = err consent_required
granted_row (some row) = if row.granted then ok row else err consent_required

unfoldable pub has_consent : ConsentTable → Subject → Bool
unfolding current
has_consent table s = elim (current table s none) [ none ↦ false | some row ↦ row.granted ]

unfoldable pub require_consent : ConsentTable → Subject → Result Refusal ConsentRecord
unfolding current
require_consent table s = granted_row (current table s none)

-- What an inserted row decides.
newest-append :
    (test : ConsentRecord → Bool) (rows : List ConsentRecord) (row : ConsentRecord)
    → newest test (rows ++ row ∷ []) ≡ (if test row then some row else newest test rows)
unfolding newest
newest-append test [] row = refl
newest-append test (r ∷ rows) row = elim (Bool-cases (test row)) [
  | inl y ↦ rw (newest-append test rows row, y) refl
  | inr n ↦ rw (newest-append test rows row, n) refl
]

same_purpose_refl : (p : ConsentPurpose) → same_purpose p p ≡ true
same_purpose_refl p = ground arith

is_about_new :
    (s : Subject) (table : ConsentTable) (granted : Bool) (via : GrantedVia) (version : Text)
    → is_about s (record_consent table s granted via version).1 ≡ true
unfolding record_consent
is_about_new s table granted via version =
    rw (bytes_eq_refl s.subject_type, same_purpose_refl s.purpose) ground arith

decided_by_new :
    (rows : List ConsentRecord) (row : ConsentRecord) (next_id : ℕ) (s : Subject)
    → is_about s row ≡ true
    → require_consent (record { rows = rows ++ row ∷ []; next_id = next_id }) s
      ≡ granted_row (some row)
unfolding require_consent current
decided_by_new rows row next_id s h =
    rw (newest-append (λ row. is_about s row && is_via none row) rows row) rw h refl

decided_by_old :
    (rows : List ConsentRecord) (row : ConsentRecord) (next_id : ℕ) (s : Subject)
    → is_about s row ≡ false
    → require_consent (record { rows = rows ++ row ∷ []; next_id = next_id }) s
      ≡ granted_row (newest (λ row. is_about s row && is_via none row) rows)
unfolding require_consent current
decided_by_old rows row next_id s h =
    rw (newest-append (λ row. is_about s row && is_via none row) rows row) rw h refl

-- The newest choice decides: after a grant or a withdrawal is recorded, `require_consent` for its
-- subject and purpose returns the new row or refuses, whatever was recorded before, and every other
-- subject and purpose is decided as before.
pub require_consent-record_consent :
    (table : ConsentTable) (s : Subject) (granted : Bool) (via : GrantedVia) (version : Text)
    → (require_consent (record_consent table s granted via version).0 s ≡ (
        if granted
        then ok (record_consent table s granted via version).1
        else err consent_required))
      × ((other : Subject)
          → is_about other (record_consent table s granted via version).1 ≡ false
          → require_consent (record_consent table s granted via version).0 other
            ≡ require_consent table other)
unfolding require_consent current record_consent
require_consent-record_consent table s granted via version = (
  decided_by_new table.rows (record_consent table s granted via version).1 (table.next_id + 1) s
      (is_about_new s table granted via version),
  λ other h.
      decided_by_old table.rows (record_consent table s granted via version).1 (table.next_id + 1)
        other h,
)
