-- ===== src/Verify/Forms.antt =====
-- `_public_form`: unchanged payloads and withheld fields.
use mathlib.Core.Path.{subst}
use apichain_backend.Base.{
  ◌≡◌, ◌⊎◌, refl, sym, ap, ◌∙◌, true, false, Option, none, some, List, ◌∷◌, inl, inr, Bool-cases,
}
use apichain_backend.Canonical.Text.{Text}
use apichain_backend.Canonical.Json.{Json, null, Fields, end, field}
use apichain_backend.Verify.Public.{
  FieldRule, withhold, get_rule, apply_rule, json_eq, Shown, add_shown, public_form,
}
use apichain_backend.Verify.Match.{is_empty}
use apichain_backend.Verify.Equality.{json_eq_sound}

-- A field of a payload.
abbrev pub HasField : Text → Json → Fields → Type 0
HasField key value end = ⊥
HasField key value (field k v fs) = ((k ≡ key) × (v ≡ value)) ⊎ HasField key value fs

pair_of :
    {A B : Type 0} {a c : A} {b d : B}
    → ◌≡◌ {A = Option (A × B)} (some (a, b)) (some (c, d))
    → (a ≡ c) × (b ≡ d)
pair_of e = (cc, cc)

not_empty :
    (key : Text) (keys changed : List Text) → key ∷ keys ≡ changed → is_empty changed ≡ true → ⊥
not_empty key keys changed e h = absurd (never (ap is_empty e ∙ h))
  where
    never : false ≡ true → ⊥
    never q = cc

-- An unchanged payload is the payload.
pub public_form-exact :
    (policy : List (Text × FieldRule)) (fs shown : Fields) (changed : List Text)
    → public_form policy fs ≡ some (shown, changed)
    → is_empty changed ≡ true
    → shown ≡ fs
unfolding public_form
public_form-exact policy end shown changed h e = cc
public_form-exact policy (field key value fs) shown changed h e =
    go (public_form-exact policy fs) (apply_rule (get_rule policy key) value)
      (public_form policy fs) refl h
  where
    go :
        ((gs : Fields) (keys : List Text)
          → public_form policy fs ≡ some (gs, keys)
          → is_empty keys ≡ true
          → gs ≡ fs)
        → (o : Option Json) (rest : Option Shown) → public_form policy fs ≡ rest
        → add_shown key value o rest ≡ some (shown, changed)
        → shown ≡ field key value fs
    go ih none rest r a = cc
    go ih (some w) none r a = cc
    go ih (some w) (some (gs, keys)) r a = elim (Bool-cases (json_eq w value)) [
      | inr n ↦
          (let (seen, listed) = pair_of (rw n at a) in absurd (not_empty key keys changed listed e))
      | inl y ↦
          (let (seen, listed) = pair_of (rw y at a) in
            let same = json_eq_sound w value y in
            let rest = ih gs keys r (ap is_empty listed ∙ e) in cc)
    ]

withheld_value : (v x : Json) → apply_rule withhold v ≡ some x → x ≡ null
unfolding apply_rule
withheld_value v x e = cc

-- A withheld field is shown as null.
pub public_form-withheld :
    (policy : List (Text × FieldRule)) (fs shown : Fields) (changed : List Text) (key : Text)
    (value : Json)
    → public_form policy fs ≡ some (shown, changed)
    → get_rule policy key ≡ withhold
    → HasField key value shown
    → value ≡ null
unfolding public_form apply_rule
public_form-withheld policy end shown changed key value h w m =
    absurd (nowhere shown (pair_of h).0 m)
  where
    nowhere : (fs : Fields) → end ≡ fs → HasField key value fs → ⊥
    nowhere end e m = m
    nowhere (field k v fs) e m = cc
public_form-withheld policy (field k v fs) shown changed key value h w m =
    go (public_form-withheld policy fs) (apply_rule (get_rule policy k) v) (public_form policy fs)
      refl refl h
  where
    go :
        ((gs : Fields) (keys : List Text) (key' : Text) (value' : Json)
          → public_form policy fs ≡ some (gs, keys)
          → get_rule policy key' ≡ withhold
          → HasField key' value' gs
          → value' ≡ null)
        → (o : Option Json) (rest : Option Shown) → apply_rule (get_rule policy k) v ≡ o
        → public_form policy fs ≡ rest
        → add_shown k v o rest ≡ some (shown, changed)
        → value ≡ null
    go ih none rest q r a = cc
    go ih (some x) none q r a = cc
    go ih (some x) (some (gs, keys)) q r a =
        elim (subst (HasField key value) (sym (pair_of a).0) m) [
          | inl (named, held) ↦
              sym held
              ∙ withheld_value v x
                  (ap (λ rule. apply_rule rule v) (sym (ap (get_rule policy) named ∙ w)) ∙ q)
          | inr later ↦ ih gs keys key value r w later
        ]
