-- ===== src/Contact/Active.antt =====
-- The active codes of a farmer and a channel, and what a change does to them.
use apichain_backend.Base.{
  ℕ, ◌+◌, ◌≤◌, ◌<◌, ◌≡◌, refl, sym, Bool, true, false, none, some, List, [], ◌∷◌, ◌==◌, arith,
  Bool-cases, inl, inr, if◌then◌else◌,
}
use apichain_backend.Contact.Codes.{
  CommChannel, VerificationCode, is_theirs, is_active, active_code, change_code, superseded,
  supersede,
}

abbrev pub one_if : Bool → ℕ
one_if b = if b then 1 else 0

unfoldable pub count_active : ℕ → CommChannel → List VerificationCode → ℕ
count_active farmer_id channel [] = 0
count_active farmer_id channel (row ∷ rows) =
    one_if (is_active farmer_id channel row) + count_active farmer_id channel rows

-- Ids in falling order, below a bound.
abbrev pub Falling : ℕ → List VerificationCode → Type 0
Falling bound [] = Unit
Falling bound (row ∷ rows) = (row.id < bound) × Falling row.id rows

pub Falling-mono :
    (a b : ℕ) (rows : List VerificationCode) → a ≤ b → Falling a rows → Falling b rows
Falling-mono a b [] h f = tt
Falling-mono a b (row ∷ rows) h (lt, f) = (omega arith, f)

-- A change that keeps whose a code is, and its id.
pub record KeepsOwner (f : VerificationCode → VerificationCode) : Type 0 where
  pub same_id : (row : VerificationCode) → (f row).id ≡ row.id
  pub same_owner :
      (farmer_id : ℕ) (channel : CommChannel) (row : VerificationCode)
      → is_theirs farmer_id channel (f row) ≡ is_theirs farmer_id channel row

pub Falling-change_code :
    (id b : ℕ) (f : VerificationCode → VerificationCode) (rows : List VerificationCode)
    → KeepsOwner f
    → Falling b rows
    → Falling b (change_code id f rows)
unfolding change_code
Falling-change_code id b f [] k l = tt
Falling-change_code id b f (row ∷ rows) k (lt, l) = elim (Bool-cases (row.id == id)) [
  | inl y ↦ rw y (
    omega (arith, lt, k.same_id row),
    Falling-mono row.id (f row).id rows (omega (arith, k.same_id row)) l,
  )
  | inr n ↦ rw n (lt, Falling-change_code id row.id f rows k l)
]

pub Falling-supersede :
    (farmer_id : ℕ) (channel : CommChannel) (now b : ℕ) (rows : List VerificationCode)
    → Falling b rows
    → Falling b (supersede farmer_id channel now rows)
unfolding supersede
Falling-supersede farmer_id channel now b [] l = tt
Falling-supersede farmer_id channel now b (row ∷ rows) (lt, l) =
    elim (Bool-cases (is_active farmer_id channel row)) [
      | inl y ↦ rw y (lt, Falling-supersede farmer_id channel now row.id rows l)
      | inr n ↦ rw n (lt, Falling-supersede farmer_id channel now row.id rows l)
    ]

-- A row is no longer active once it is superseded.
superseded_inactive :
    (farmer_id now : ℕ) (channel : CommChannel) (row : VerificationCode)
    → is_active farmer_id channel (superseded now row) ≡ false
superseded_inactive farmer_id now channel row = ground arith

pub count_active-supersede :
    (farmer_id : ℕ) (channel : CommChannel) (now : ℕ) (rows : List VerificationCode)
    → count_active farmer_id channel (supersede farmer_id channel now rows) ≡ 0
unfolding count_active supersede
count_active-supersede farmer_id channel now [] = refl
count_active-supersede farmer_id channel now (row ∷ rows) =
    let rest = count_active-supersede farmer_id channel now rows in
    elim (Bool-cases (is_active farmer_id channel row)) [
      | inl y ↦ rw y rw (superseded_inactive farmer_id now channel row) (omega (arith, rest))
      | inr n ↦ rw n rw n (omega (arith, rest))
    ]

-- No code is active where none is counted.
pub active_code-none :
    (farmer_id : ℕ) (channel : CommChannel) (rows : List VerificationCode)
    → count_active farmer_id channel rows ≡ 0
    → active_code farmer_id channel rows ≡ none
unfolding count_active active_code
active_code-none farmer_id channel [] h = refl
active_code-none farmer_id channel (row ∷ rows) h =
    elim (Bool-cases (is_active farmer_id channel row)) [
      | inl y ↦ absurd (no (count_active farmer_id channel rows) (rw y at h))
      | inr n ↦ rw n (
          active_code-none farmer_id channel rows
            (zero_plus (count_active farmer_id channel rows) (rw n at h)))
    ]
  where
    no : (n : ℕ) → 1 + n ≡ 0 → ⊥
    no n e = omega arith

    zero_plus : (n : ℕ) → 0 + n ≡ 0 → n ≡ 0
    zero_plus n e = omega arith

pub some-eq : {A : Type 0} {a b : A} → some a ≡ some b → a ≡ b
some-eq e = cc

pub active_code-below :
    (farmer_id b : ℕ) (channel : CommChannel) (rows : List VerificationCode)
    (row : VerificationCode)
    → Falling b rows
    → active_code farmer_id channel rows ≡ some row
    → row.id < b
unfolding active_code
active_code-below farmer_id b channel [] row l h = cc
active_code-below farmer_id b channel (r ∷ rows) row (lt, l) h =
    elim (Bool-cases (is_active farmer_id channel r)) [
      | inl y ↦ (let same : r ≡ row = some-eq (rw y at h) in rw (sym same) lt)
      | inr n ↦ omega (arith, lt, active_code-below farmer_id r.id channel rows row l (rw n at h))
    ]

-- What a change of the active code leaves: the count moves with it.
pub count_active-change_code :
    (farmer_id b : ℕ) (channel : CommChannel) (f : VerificationCode → VerificationCode)
    (rows : List VerificationCode) (row : VerificationCode)
    → Falling b rows
    → active_code farmer_id channel rows ≡ some row
    → count_active farmer_id channel (change_code row.id f rows) + 1
      ≡ count_active farmer_id channel rows + one_if (is_active farmer_id channel (f row))
unfolding count_active active_code change_code
count_active-change_code farmer_id b channel f [] row l h = cc
count_active-change_code farmer_id b channel f (r ∷ rows) row (lt, l) h =
    elim (Bool-cases (is_active farmer_id channel r)) [
      | inl y ↦
          (let same : r ≡ row = some-eq (rw y at h) in
            rw (sym same) rw (self r.id) rw y (omega arith))
      | inr n ↦
          (let below = active_code-below farmer_id r.id channel rows row l (rw n at h) in
            let ih = count_active-change_code farmer_id r.id channel f rows row l (rw n at h) in
            rw (apart r.id row.id below) rw n (omega (arith, ih)))
    ]
  where
    self : (a : ℕ) → (a == a) ≡ true
    self a = ground arith

    apart : (a c : ℕ) → c < a → (a == c) ≡ false
    apart a c k = ground arith

-- A change that leaves the code active leaves it the active one.
pub active_code-change_code :
    (farmer_id b : ℕ) (channel : CommChannel) (f : VerificationCode → VerificationCode)
    (rows : List VerificationCode) (row : VerificationCode)
    → Falling b rows
    → active_code farmer_id channel rows ≡ some row
    → is_active farmer_id channel (f row) ≡ true
    → active_code farmer_id channel (change_code row.id f rows) ≡ some (f row)
unfolding active_code change_code
active_code-change_code farmer_id b channel f [] row l h a = cc
active_code-change_code farmer_id b channel f (r ∷ rows) row (lt, l) h a =
    elim (Bool-cases (is_active farmer_id channel r)) [
      | inl y ↦
          (let same : r ≡ row = some-eq (rw y at h) in
            let still : is_active farmer_id channel (f r) ≡ true = rw same a in
            rw (sym same) rw (self r.id) rw still refl)
      | inr n ↦
          (let below = active_code-below farmer_id r.id channel rows row l (rw n at h) in
            let ih = active_code-change_code farmer_id r.id channel f rows row l (rw n at h) a in
            rw (apart r.id row.id below) rw n ih)
    ]
  where
    self : (a : ℕ) → (a == a) ≡ true
    self a = ground arith

    apart : (a c : ℕ) → c < a → (a == c) ≡ false
    apart a c k = ground arith
