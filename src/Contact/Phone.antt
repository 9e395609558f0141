-- ===== src/Contact/Phone.antt =====
-- app/services/phone.py: Kenyan numbers in E.164. What `\s` and `\d` of a pattern match are arguments.
use mathlib.Core.Path.{subst}
use apichain_backend.Base.{
  ℕ, ◌≡◌, refl, sym, ap, ◌∙◌, Bool, true, false, ◌&&◌, ◌||◌, Option, none, some, List, [], ◌∷◌,
  ◌++◌, ◌==◌, length, arith, Bool-cases, inl, inr, if◌then◌else◌,
}
use apichain_backend.Canonical.Text.{Text, codes}

module _ (is_space is_digit : ℕ → Bool) where
  -- `_SEPARATORS`: white space, `-`, `(`, `)` and `.`
  abbrev pub is_separator : ℕ → Bool
  is_separator c = is_space c || (c == 45 || (c == 40 || (c == 41 || c == 46)))

  unfoldable pub compact : Text → Text
  compact [] = []
  compact (c ∷ s) = if is_separator c then compact s else c ∷ compact s

  abbrev pub all_digits : Text → Bool
  all_digits [] = true
  all_digits (c ∷ s) = is_digit c && all_digits s

  -- `([17]\d{8})$`, on a text without white space.
  abbrev pub is_subscriber : Text → Bool
  is_subscriber [] = false
  is_subscriber (c ∷ s) = (c == 49 || c == 55) && (length s == 8 && all_digits s)

  -- What follows a prefix.
  abbrev pub after_prefix : Text → Text → Option Text
  after_prefix [] s = some s
  after_prefix (p ∷ prefix) [] = none
  after_prefix (p ∷ prefix) (c ∷ s) = if p == c then after_prefix prefix s else none

  abbrev pub checked : Option Text → Option Text
  checked none = none
  checked (some s) = if is_subscriber s then some s else none

  abbrev pub first_match : List Text → Text → Option Text
  first_match [] s = none
  first_match (prefix ∷ prefixes) s = elim (checked (after_prefix prefix s)) [
    | some subscriber ↦ some subscriber
    | none ↦ first_match prefixes s
  ]

  -- `_FORMS`, by their prefixes.
  abbrev pub forms : List Text
  forms = codes "+254" ∷ codes "254" ∷ codes "0" ∷ []

  abbrev pub with_country : Option Text → Option Text
  with_country none = none
  with_country (some subscriber) = some (codes "+254" ++ subscriber)

  unfoldable pub to_e164_ke : Option Text → Option Text
  unfolding compact
  to_e164_ke none = none
  to_e164_ke (some raw) = with_country (first_match forms (compact raw))

  -- What the pattern's classes have to do with each other: `1`, `2`, `4`, `5` and `7` are digits, `+` is
  -- no white space, and no digit is a separator.
  pub record Classes : Type 0 where
    pub one : is_digit 49 ≡ true
    pub two : is_digit 50 ≡ true
    pub four : is_digit 52 ≡ true
    pub five : is_digit 53 ≡ true
    pub seven : is_digit 55 ≡ true
    pub plus : is_space 43 ≡ false
    pub apart : (c : ℕ) → is_digit c ≡ true → is_separator c ≡ false

  both : (a b : Bool) → (a && b) ≡ true → (a ≡ true) × (b ≡ true)
  both true true e = (refl, refl)
  both true false e = cc
  both false b e = cc

  compact-all_digits : Classes → (s : Text) → all_digits s ≡ true → compact s ≡ s
  unfolding compact
  compact-all_digits k [] h = refl
  compact-all_digits k (c ∷ s) h =
      let (here, there) = both (is_digit c) (all_digits s) h in
      rw (k.apart c here) (ap (λ t. c ∷ t) (compact-all_digits k s there))

  subscriber_compact : Classes → (s : Text) → is_subscriber s ≡ true → compact s ≡ s
  unfolding compact
  subscriber_compact k [] h = cc
  subscriber_compact k (c ∷ s) h =
      let (first, more) = both (c == 49 || c == 55) (length s == 8 && all_digits s) h in
      let (long, digits) = both (length s == 8) (all_digits s) more in
      rw (k.apart c (lead first)) (ap (λ t. c ∷ t) (compact-all_digits k s digits))
    where
      equal : (m n : ℕ) → (m == n) ≡ true → m ≡ n
      equal m n e = ground arith

      lead : (c == 49 || c == 55) ≡ true → is_digit c ≡ true
      lead e = elim (Bool-cases (c == 49)) [
        | inl y ↦ ap is_digit (equal c 49 y) ∙ k.one
        | inr n ↦ ap is_digit (equal c 55 (rw n at e)) ∙ k.seven
      ]

  first_match-subscriber :
      (prefixes : List Text) (s r : Text) → first_match prefixes s ≡ some r → is_subscriber r ≡ true
  first_match-subscriber [] s r h = cc
  first_match-subscriber (prefix ∷ prefixes) s r h =
      go (first_match-subscriber prefixes s r) (after_prefix prefix s) h
    where
      some-eq : {a b : Text} → some a ≡ some b → a ≡ b
      some-eq e = cc

      go :
          (first_match prefixes s ≡ some r → is_subscriber r ≡ true)
          → (o : Option Text)
          → elim (checked o) [ some subscriber ↦ some subscriber | none ↦ first_match prefixes s ]
            ≡ some r
          → is_subscriber r ≡ true
      go later none e = later e
      go later (some t) e = elim (Bool-cases (is_subscriber t)) [
        | inl y ↦ ap is_subscriber (sym (some-eq (rw y at e))) ∙ y
        | inr n ↦ later (rw n at e)
      ]

  compact_e164 :
      Classes
      → (r : Text) → is_subscriber r ≡ true
      → compact (codes "+254" ++ r) ≡ codes "+254" ++ r
  unfolding compact
  compact_e164 k r h =
      rw k.plus rw (k.apart 50 k.two) rw (k.apart 53 k.five) rw (k.apart 52 k.four)
        (ap (λ t. codes "+254" ++ t) (subscriber_compact k r h))

  chosen :
      (r : Text)
      → is_subscriber r ≡ true
      → with_country (first_match forms (codes "+254" ++ r)) ≡ some (codes "+254" ++ r)
  chosen r h =
      ap
        (λ b. with_country (elim (if b then some r else none) [
          | some subscriber ↦ some subscriber
          | none ↦ first_match (codes "254" ∷ codes "0" ∷ []) (codes "+254" ++ r)
        ]))
        h

  -- A number in E.164 is left as it is.
  pub to_e164_ke_again :
      (raw : Option Text) (e164 : Text)
      → Classes
      → to_e164_ke raw ≡ some e164
      → to_e164_ke (some e164) ≡ some e164
  unfolding to_e164_ke
  to_e164_ke_again none e164 k h = cc
  to_e164_ke_again (some raw) e164 k h = go (first_match forms (compact raw)) refl h
    where
      some-eq : {a b : Text} → some a ≡ some b → a ≡ b
      some-eq q = cc

      go :
          (o : Option Text)
          → first_match forms (compact raw) ≡ o
          → with_country o ≡ some e164
          → with_country (first_match forms (compact e164)) ≡ some e164
      go none f e = cc
      go (some r) f e =
          let valid = first_match-subscriber forms (compact raw) r f in
          subst (λ t. with_country (first_match forms (compact t)) ≡ some t) (some-eq e)
            (ap (λ t. with_country (first_match forms t)) (compact_e164 k r valid) ∙ chosen r valid)
