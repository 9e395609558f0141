-- ===== src/Tests/ConsentRuns.antt =====
-- A run of the consent table: a grant that is withdrawn.
use apichain_backend.Base.{◌≡◌, true, false, [], if◌then◌else◌}
use apichain_backend.Base.Result.{ok, err}
use apichain_backend.Canonical.Text.{codes}
use apichain_backend.Access.Errors.{consent_required}
use apichain_backend.Consent.{
  ConsentTable, Subject, photo_publish, farmer_self, record_consent, require_consent, is_about,
  require_consent-record_consent,
}

abbrev photos : Subject
photos = record { subject_type = codes "farmer"; subject_id = 9; purpose = photo_publish }

abbrev granted_table : ConsentTable
granted_table =
    (record_consent (record { rows = []; next_id = 1 }) photos true farmer_self (codes "v1")).0

require_consent-record_consent_example :
    (require_consent (record_consent granted_table photos false farmer_self (codes "v1")).0 photos
      ≡ (if false
          then ok (record_consent granted_table photos false farmer_self (codes "v1")).1
          else err consent_required))
    × ((other : Subject)
        → is_about other (record_consent granted_table photos false farmer_self (codes "v1")).1
          ≡ false
        → require_consent
            (record_consent granted_table photos false farmer_self (codes "v1")).0
            other
          ≡ require_consent granted_table other)
require_consent-record_consent_example =
    require_consent-record_consent granted_table photos false farmer_self (codes "v1")
