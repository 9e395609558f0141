-- ===== src/Access/Ownership.antt =====
-- `assert_acts_for_farmer`: a farmer acts only on their own records, staff on any. The profiles are
-- the `farmers` rows, by the id of their user.
use apichain_backend.Base.{ℕ, ◌≡◌, arith, Option, none, some, List, [], ◌∷◌, ◌==◌, if◌then◌else◌}
use apichain_backend.Base.Result.{Result, ok, err}
use apichain_backend.Access.Errors.{Refusal, forbidden}
use apichain_backend.Access.Roles.{Role, farmer, field_officer, operator, lab_officer, admin, User}

pub record Farmer : Type 0 where
  pub id : ℕ
  pub user_id : Option ℕ

abbrev pub profile_of : ℕ → List Farmer → Option ℕ
profile_of user [] = none
profile_of user (f ∷ farmers) = elim f.user_id [
  | none ↦ profile_of user farmers
  | some u ↦ if u == user then some f.id else profile_of user farmers
]

-- `farmer_profile_id`
unfoldable pub farmer_profile_id : List Farmer → User → Option ℕ
farmer_profile_id farmers actor = profile_of actor.id farmers

abbrev pub owns : Option ℕ → ℕ → Result Refusal (Unit {0})
owns none farmer_id = err forbidden
owns (some own) farmer_id = if own == farmer_id then ok tt else err forbidden

-- The check is for farmers alone.
abbrev pub only_for_farmers : Role → Result Refusal (Unit {0}) → Result Refusal (Unit {0})
only_for_farmers farmer checked = checked
only_for_farmers field_officer checked = ok tt
only_for_farmers operator checked = ok tt
only_for_farmers lab_officer checked = ok tt
only_for_farmers admin checked = ok tt

unfoldable pub assert_acts_for_farmer : List Farmer → User → ℕ → Result Refusal (Unit {0})
unfolding farmer_profile_id
assert_acts_for_farmer farmers actor farmer_id =
    only_for_farmers actor.role (owns (farmer_profile_id farmers actor) farmer_id)

owns_refusal :
    (own : Option ℕ) (farmer_id : ℕ) (e : Refusal) → owns own farmer_id ≡ err e → e ≡ forbidden
owns_refusal none farmer_id e h = cc
owns_refusal (some own) farmer_id e h = ground arith

pub assert_acts_for_farmer_refusal :
    (farmers : List Farmer) (actor : User) (farmer_id : ℕ) (e : Refusal)
    → assert_acts_for_farmer farmers actor farmer_id ≡ err e
    → e ≡ forbidden
unfolding assert_acts_for_farmer
assert_acts_for_farmer_refusal farmers actor farmer_id e h = go actor.role h
  where
    go :
        (role : Role)
        → only_for_farmers role (owns (farmer_profile_id farmers actor) farmer_id) ≡ err e
        → e ≡ forbidden
    go farmer g = owns_refusal (farmer_profile_id farmers actor) farmer_id e g
    go field_officer g = cc
    go operator g = cc
    go lab_officer g = cc
    go admin g = cc
