-- ===== src/Access/Guards.antt =====
-- The two guards of a route, `requires` in app/deps.py and app/services/ownership.py, as conditions.
use apichain_backend.Base.{
  ℕ, ◌≡◌, ◌↔◌, ◌⊎◌, ◌≢◌, refl, true, false, Option, none, some, List, arith, inl,
}
use apichain_backend.Base.Result.{ok}
use apichain_backend.Access.Roles.{
  Role, farmer, field_officer, operator, lab_officer, admin, Action, action_roles, is_allowed, User,
  current_user, current_user_pending_ok, requires,
}
use apichain_backend.Access.Ownership.{
  Farmer, farmer_profile_id, owns, only_for_farmers, assert_acts_for_farmer,
}

-- A route is entered by exactly the stored user that the token names, when the user is active, has no
-- password change pending and has a role that the action lists.
pub requires_iff :
    (action : Action) (found : Option User) (user : User)
    → (requires action found ≡ ok user) ↔ (
        (found ≡ some user)
        × (user.is_active ≡ true)
        × (user.must_change_password ≡ false)
        × (is_allowed user.role (action_roles action) ≡ true))
unfolding requires current_user current_user_pending_ok
requires_iff action found user = ground arith

-- An actor may act for a farmer exactly when the actor is staff or has that farmer's profile.
pub assert_acts_for_farmer_iff :
    (farmers : List Farmer) (actor : User) (farmer_id : ℕ)
    → (assert_acts_for_farmer farmers actor farmer_id ≡ ok tt)
      ↔ ((actor.role ≢ farmer) ⊎ (farmer_profile_id farmers actor ≡ some farmer_id))
unfolding assert_acts_for_farmer
assert_acts_for_farmer_iff farmers actor farmer_id = go actor.role (farmer_profile_id farmers actor)
  where
    go :
        (role : Role) (own : Option ℕ)
        → (only_for_farmers role (owns own farmer_id) ≡ ok tt)
          ↔ ((role ≢ farmer) ⊎ (own ≡ some farmer_id))
    go farmer none = ground arith
    go farmer (some own) = ground arith
    go field_officer own = (λ h. inl (λ e. cc), λ h. refl)
    go operator own = (λ h. inl (λ e. cc), λ h. refl)
    go lab_officer own = (λ h. inl (λ e. cc), λ h. refl)
    go admin own = (λ h. inl (λ e. cc), λ h. refl)
