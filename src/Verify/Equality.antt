-- ===== src/Verify/Equality.antt =====
-- The comparison of JSON values, and equality.
use apichain_backend.Base.{◌≡◌, refl, ap, Bool, true, false, ◌&&◌, ==_iff}
use apichain_backend.Base.Bytes.{eq_of_bytes_eq}
use apichain_backend.Canonical.Json.{
  Json, null, bool, num, real, text, arr, obj, Items, nil, cons, Fields, end, field,
}
use apichain_backend.Verify.Public.{json_eq, items_eq, fields_eq}

both : (a b : Bool) → (a && b) ≡ true → (a ≡ true) × (b ≡ true)
both true true e = (refl, refl)
both true false e = cc
both false b e = cc

mutual
  unfolding json_eq items_eq fields_eq

  pub json_eq_sound : (v w : Json) → json_eq v w ≡ true → v ≡ w
  json_eq_sound null null e = refl
  json_eq_sound null (bool b) e = cc
  json_eq_sound null (num b) e = cc
  json_eq_sound null (real b) e = cc
  json_eq_sound null (text b) e = cc
  json_eq_sound null (arr b) e = cc
  json_eq_sound null (obj b) e = cc
  json_eq_sound (bool true) null e = cc
  json_eq_sound (bool false) null e = cc
  json_eq_sound (bool true) (bool true) e = refl
  json_eq_sound (bool false) (bool false) e = refl
  json_eq_sound (bool true) (bool false) e = cc
  json_eq_sound (bool false) (bool true) e = cc
  json_eq_sound (bool true) (num b) e = cc
  json_eq_sound (bool false) (num b) e = cc
  json_eq_sound (bool true) (real b) e = cc
  json_eq_sound (bool false) (real b) e = cc
  json_eq_sound (bool true) (text b) e = cc
  json_eq_sound (bool false) (text b) e = cc
  json_eq_sound (bool true) (arr b) e = cc
  json_eq_sound (bool false) (arr b) e = cc
  json_eq_sound (bool true) (obj b) e = cc
  json_eq_sound (bool false) (obj b) e = cc
  json_eq_sound (num a) null e = cc
  json_eq_sound (num a) (bool b) e = cc
  json_eq_sound (num a) (num b) e = ap num ((==_iff a b).0 e)
  json_eq_sound (num a) (real b) e = cc
  json_eq_sound (num a) (text b) e = cc
  json_eq_sound (num a) (arr b) e = cc
  json_eq_sound (num a) (obj b) e = cc
  json_eq_sound (real a) null e = cc
  json_eq_sound (real a) (bool b) e = cc
  json_eq_sound (real a) (num b) e = cc
  json_eq_sound (real a) (real b) e = ap real (eq_of_bytes_eq a b e)
  json_eq_sound (real a) (text b) e = cc
  json_eq_sound (real a) (arr b) e = cc
  json_eq_sound (real a) (obj b) e = cc
  json_eq_sound (text a) null e = cc
  json_eq_sound (text a) (bool b) e = cc
  json_eq_sound (text a) (num b) e = cc
  json_eq_sound (text a) (real b) e = cc
  json_eq_sound (text a) (text b) e = ap text (eq_of_bytes_eq a b e)
  json_eq_sound (text a) (arr b) e = cc
  json_eq_sound (text a) (obj b) e = cc
  json_eq_sound (arr a) null e = cc
  json_eq_sound (arr a) (bool b) e = cc
  json_eq_sound (arr a) (num b) e = cc
  json_eq_sound (arr a) (real b) e = cc
  json_eq_sound (arr a) (text b) e = cc
  json_eq_sound (arr a) (arr b) e = ap arr (items_eq_sound a b e)
  json_eq_sound (arr a) (obj b) e = cc
  json_eq_sound (obj a) null e = cc
  json_eq_sound (obj a) (bool b) e = cc
  json_eq_sound (obj a) (num b) e = cc
  json_eq_sound (obj a) (real b) e = cc
  json_eq_sound (obj a) (text b) e = cc
  json_eq_sound (obj a) (arr b) e = cc
  json_eq_sound (obj a) (obj b) e = ap obj (fields_eq_sound a b e)

  pub items_eq_sound : (xs ys : Items) → items_eq xs ys ≡ true → xs ≡ ys
  items_eq_sound nil nil e = refl
  items_eq_sound nil (cons y ys) e = cc
  items_eq_sound (cons x xs) nil e = cc
  items_eq_sound (cons x xs) (cons y ys) e =
      let (here, there) = both (json_eq x y) (items_eq xs ys) e in
      let same = json_eq_sound x y here in let rest = items_eq_sound xs ys there in cc

  pub fields_eq_sound : (fs gs : Fields) → fields_eq fs gs ≡ true → fs ≡ gs
  fields_eq_sound end end e = refl
  fields_eq_sound end (field l w gs) e = cc
  fields_eq_sound (field k v fs) end e = cc
  fields_eq_sound (field k v fs) (field l w gs) e =
      let (key, more) = both _ _ e in
      let (here, there) = both (json_eq v w) (fields_eq fs gs) more in
      let named = eq_of_bytes_eq k l key in
      let same = json_eq_sound v w here in let rest = fields_eq_sound fs gs there in cc
