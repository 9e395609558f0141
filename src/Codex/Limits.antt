-- ===== src/Codex/Limits.antt =====
-- How the rounding and the two rule sets bear on a verdict.
use apichain_backend.Base.{
  ℕ, zero, suc, ◌*◌, ◌^◌, ◌≤◌, ◌<◌, ◌≡◌, refl, sym, ap, ap₂, ◌∙◌, Bool, true, false, inl, inr,
  arith, leb, ◌==◌, Bool-cases, All,
}
use apichain_backend.Base.Bytes.{bytes_eq}
use apichain_backend.Base.Result.{ok}
use apichain_backend.Canonical.Decimal.{Decimal, hundredths, quantize, signed_leb}
use apichain_backend.Canonical.Decimal.Laws.{round_half_even-one}
use apichain_backend.Codex.Rules.{
  Comparator, at_most, at_least, kenya_v1, general_v1, rule_set, tenths,
}
use apichain_backend.Codex.Score.{
  LabMeasurements, ConformanceVerdict, ConformanceReport, is_within_limit, evaluate,
}
use apichain_backend.Codex.Verdicts.{IsMet, evaluate-Means}

-- A common positive factor on both sides changes no comparison.
leb-mul_right : (a b k : ℕ) → 0 < k → leb (a * k) (b * k) ≡ leb a b
leb-mul_right a b k h = elim (Bool-cases (leb a b)) [
  | inl y ↦ let le = mul_le a b (ground arith) in ground arith
  | inr n ↦ let lt = mul_lt b a (ground arith) in ground arith
]
  where
    mul_le : (x y : ℕ) → x ≤ y → x * k ≤ y * k
    mul_le x y le = grind arith

    mul_lt : (x y : ℕ) → x < y → x * k < y * k
    mul_lt x y lt = grind arith

zero-mul_right : (a k : ℕ) → 0 < k → (a * k == 0) ≡ (a == 0)
zero-mul_right a k h = grind arith

signed_leb-mul_right :
    (s : Bool) (a : ℕ) (t : Bool) (b k : ℕ)
    → 0 < k
    → signed_leb s (a * k) t (b * k) ≡ signed_leb s a t b
signed_leb-mul_right false a false b k h = leb-mul_right a b k h
signed_leb-mul_right false a true b k h = rw (zero-mul_right a k h, zero-mul_right b k h) refl
signed_leb-mul_right true a false b k h = refl
signed_leb-mul_right true a true b k h = leb-mul_right b a k h

-- At two places or fewer `hundredths` only scales, so it changes no comparison.
exact_left :
    (s : Bool) (c p : ℕ) (t : Bool) (d k : ℕ)
    → p ≤ 2
    → signed_leb s (hundredths c p * k) t (d * 10 ^ 2) ≡ signed_leb s (c * k) t (d * 10 ^ p)
exact_left s c zero t d k h =
    ap₂ (λ a b. signed_leb s a t b) (omega arith) (omega arith)
    ∙ signed_leb-mul_right s (c * k) t (d * 10 ^ 0) 100 (omega arith)
exact_left s c (suc zero) t d k h =
    ap₂ (λ a b. signed_leb s a t b) (omega arith) (omega arith)
    ∙ signed_leb-mul_right s (c * k) t (d * 10 ^ 1) 10 (omega arith)
exact_left s c (suc (suc zero)) t d k h =
    ap (λ a. signed_leb s (a * k) t (d * 10 ^ 2)) (round_half_even-one c)
exact_left s c (suc (suc (suc p))) t d k h = absurd (omega arith)

exact_right :
    (s : Bool) (c p : ℕ) (t : Bool) (d k : ℕ)
    → p ≤ 2
    → signed_leb t (d * 10 ^ 2) s (hundredths c p * k) ≡ signed_leb t (d * 10 ^ p) s (c * k)
exact_right s c zero t d k h =
    ap₂ (λ a b. signed_leb t b s a) (omega arith) (omega arith)
    ∙ signed_leb-mul_right t (d * 10 ^ 0) s (c * k) 100 (omega arith)
exact_right s c (suc zero) t d k h =
    ap₂ (λ a b. signed_leb t b s a) (omega arith) (omega arith)
    ∙ signed_leb-mul_right t (d * 10 ^ 1) s (c * k) 10 (omega arith)
exact_right s c (suc (suc zero)) t d k h =
    ap (λ a. signed_leb t (d * 10 ^ 2) s (a * k)) (round_half_even-one c)
exact_right s c (suc (suc (suc p))) t d k h = absurd (omega arith)

-- A value of at most two decimal places, as every column of `lab_results` holds, is judged by its
-- exact value: rounding it first changes neither comparison, whatever the limit.
pub is_within_limit-quantize :
    (cmp : Comparator) (x limit : Decimal)
    → x.places ≤ 2
    → is_within_limit cmp (quantize x) limit ≡ is_within_limit cmp x limit
unfolding is_within_limit
is_within_limit-quantize at_most x limit h =
    exact_left x.is_negative x.coefficient x.places limit.is_negative limit.coefficient
      (10 ^ limit.places) h
is_within_limit-quantize at_least x limit h =
    exact_right x.is_negative x.coefficient x.places limit.is_negative limit.coefficient
      (10 ^ limit.places) h

hmf_stricter :
    (x : Decimal)
    → is_within_limit at_most (quantize x) (tenths 400) ≡ true
    → is_within_limit at_most (quantize x) (tenths 800) ≡ true
unfolding is_within_limit
hmf_stricter x h = ground arith

general_registered : rule_set general_v1.version ≡ ok general_v1
unfolding rule_set
general_registered = refl

pub kenya_registered : rule_set kenya_v1.version ≡ ok kenya_v1
unfolding rule_set
kenya_registered = refl

kenya-IsMet :
    (m : LabMeasurements) → All (IsMet m) general_v1.parameters → All (IsMet m) kenya_v1.parameters
unfolding bytes_eq
kenya-IsMet m (a, (b, (c, ((x, e, w), rest)))) = (a, (b, (c, ((x, e, hmf_stricter x w), rest))))

-- The general reading is the stricter one: a panel that passes `codex-general-v1` passes
-- `codex-kenya-v1`.
pub general_pass-kenya_pass :
    (m : LabMeasurements) (general kenya : ConformanceReport)
    → evaluate m general_v1.version ≡ ok general
    → evaluate m kenya_v1.version ≡ ok kenya
    → general.verdict ≡ ConformanceVerdict.pass
    → kenya.verdict ≡ ConformanceVerdict.pass
general_pass-kenya_pass m general kenya eg ek h =
    let (g, eg', mg) = evaluate-Means m general_v1.version {rs = general_v1} general_registered in
    let (k, ek', mk) = evaluate-Means m kenya_v1.version {rs = kenya_v1} kenya_registered in
    let same_g : g ≡ general = cc in
    let same_k : k ≡ kenya = cc in
    let met = (mg ConformanceVerdict.pass).0 (ap (λ r. r.verdict) same_g ∙ h) in
    ap (λ r. r.verdict) (sym same_k) ∙ (mk ConformanceVerdict.pass).1 (kenya-IsMet m met)
