-- ===== src/Access/Roles.antt =====
-- The roles, the table of actions and the two guards that stand before every route.
use apichain_backend.Base.{
  ℕ, Bool, true, false, ◌||◌, Option, none, some, List, [], ◌∷◌, ltb, if◌then◌else◌,
}
use apichain_backend.Base.Result.{Result, ok, err, ◌>>=◌}
use apichain_backend.Access.Errors.{
  Refusal, unauthorized, password_change_required, forbidden, password_too_short, password_too_long,
}

pub data Role : Type 0 where
  farmer field_officer operator lab_officer admin : Role

abbrev pub same_role : Role → Role → Bool
same_role farmer farmer = true
same_role field_officer field_officer = true
same_role operator operator = true
same_role lab_officer lab_officer = true
same_role admin admin = true
same_role _ _ = false

pub data Action : Type 0 where
  farmer_enroll farmer_consent document_upload document_read : Action
  farmer_verify_contact farmer_confirm_contact apiary_create apiary_read : Action
  batch_read batch_create batch_harvest_record batch_process_record : Action
  batch_lab_verify batch_package batch_distribute user_manage farmer_read : Action

-- `ACTION_ROLES`
unfoldable pub action_roles : Action → List Role
action_roles farmer_enroll = field_officer ∷ admin ∷ []
action_roles farmer_consent = farmer ∷ field_officer ∷ admin ∷ []
action_roles document_upload = farmer ∷ field_officer ∷ admin ∷ []
action_roles document_read = farmer ∷ field_officer ∷ admin ∷ []
action_roles farmer_verify_contact = farmer ∷ field_officer ∷ admin ∷ []
action_roles farmer_confirm_contact = farmer ∷ field_officer ∷ admin ∷ []
action_roles apiary_create = farmer ∷ field_officer ∷ admin ∷ []
action_roles apiary_read = farmer ∷ field_officer ∷ admin ∷ []
action_roles batch_read = farmer ∷ field_officer ∷ operator ∷ lab_officer ∷ admin ∷ []
action_roles batch_create = farmer ∷ operator ∷ admin ∷ []
action_roles batch_harvest_record = farmer ∷ operator ∷ admin ∷ []
action_roles batch_process_record = operator ∷ admin ∷ []
action_roles batch_lab_verify = lab_officer ∷ admin ∷ []
action_roles batch_package = operator ∷ admin ∷ []
action_roles batch_distribute = operator ∷ admin ∷ []
action_roles user_manage = admin ∷ []
action_roles farmer_read = farmer ∷ field_officer ∷ admin ∷ []

-- `user.role in allowed`
abbrev pub is_allowed : Role → List Role → Bool
is_allowed role [] = false
is_allowed role (r ∷ rest) = same_role role r || is_allowed role rest

-- The columns of a `users` row that the guards read.
pub record User : Type 0 where
  pub id : ℕ
  pub role : Role
  pub is_active : Bool
  pub must_change_password : Bool

-- `get_current_user_pending_ok`, from the user row that the token's subject names; decoding the
-- token is the JWT library's.
unfoldable pub current_user_pending_ok : Option User → Result Refusal User
current_user_pending_ok none = err unauthorized
current_user_pending_ok (some user) = if user.is_active then ok user else err unauthorized

-- `get_current_user`
unfoldable pub current_user : Option User → Result Refusal User
unfolding current_user_pending_ok
current_user found = current_user_pending_ok found >>= λ user.
    if user.must_change_password then err password_change_required else ok user

-- `requires(action)`
unfoldable pub requires : Action → Option User → Result Refusal User
unfolding current_user action_roles
requires action found = current_user found >>= λ user.
    if is_allowed user.role (action_roles action) then ok user else err forbidden

-- `password_policy.check`, on the length of the password in characters and in bytes.
abbrev pub min_length : Role → ℕ
min_length farmer = 8
min_length _ = 15

unfoldable pub check_password : Role → ℕ → ℕ → Result Refusal (Unit {0})
check_password role characters bytes =
    if ltb characters (min_length role)
    then err password_too_short
    else if ltb 72 bytes
    then err password_too_long
    else ok tt
