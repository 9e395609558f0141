-- ===== src/Sessions/Valid.antt =====
-- The invariant of the table, `IsValid`: ids in order and below the sequence, and each link leads to a
-- later token of the same user; and the changes of one row and `issue` against it.
use mathlib.Core.Path.{subst}
use apichain_backend.Base.{
  ℕ, ◌+◌, ◌≤◌, ◌<◌, ◌≡◌, refl, sym, ap, ◌∙◌, Option, none, some, List, [], ◌∷◌, ◌++◌, ◌==◌, arith,
  Bool-cases, inl, inr, if◌then◌else◌,
}
use apichain_backend.Canonical.Text.{Text}
use apichain_backend.Sessions.Tokens.{
  RefreshToken, TokenTable, TokenSettings, Clock, find_id, change_row, revoked, new_token, issue,
}
use apichain_backend.Sessions.Rows.{
  Rising, Rising-mono, KeepsKeys, revoked-KeepsKeys, some-eq, ==_refl, not_==,
}

-- Whose token an id is.
unfoldable pub user_of : ℕ → List RefreshToken → Option ℕ
user_of id [] = none
user_of id (row ∷ rows) = if row.id == id then some row.user_id else user_of id rows

-- A link of a token of `user_id` leads to a later token of this user.
abbrev pub LinkWithin : List RefreshToken → ℕ → ℕ → Option ℕ → Type 0
LinkWithin rows id user_id none = Unit
LinkWithin rows id user_id (some next) = (id < next) × (user_of next rows ≡ some user_id)

abbrev pub LinksWithin : List RefreshToken → RefreshToken → Type 0
LinksWithin rows row = LinkWithin rows row.id row.user_id row.rotated_to

abbrev pub AllLink : List RefreshToken → List RefreshToken → Type 0
AllLink rows [] = Unit
AllLink rows (row ∷ rest) = LinksWithin rows row × AllLink rows rest

abbrev pub Below : ℕ → List RefreshToken → Type 0
Below bound [] = Unit
Below bound (row ∷ rows) = (row.id < bound) × Below bound rows

pub record IsValid (table : TokenTable) : Type 0 where
  pub rising : Rising 0 table.rows
  pub below : Below table.next_id table.rows
  pub positive : 0 < table.next_id
  pub links : AllLink table.rows table.rows

user_of-change_row :
    (id other : ℕ) (f : RefreshToken → RefreshToken) (rows : List RefreshToken)
    → KeepsKeys f
    → user_of other (change_row id f rows) ≡ user_of other rows
unfolding user_of change_row
user_of-change_row id other f [] k = refl
user_of-change_row id other f (r ∷ rows) k = elim (Bool-cases (r.id == id)) [
  | inl y ↦ rw y (
      ap (λ i. if i == other then some (f r).user_id else user_of other rows) (k.same_id r)
      ∙ ap (λ u. if r.id == other then some u else user_of other rows) (k.same_user r))
  | inr n ↦
      rw n (
        ap (λ o. if r.id == other then some r.user_id else o)
          (user_of-change_row id other f rows k))
]

user_of-append :
    (id : ℕ) (rows : List RefreshToken) (new : RefreshToken) (u : ℕ)
    → user_of id rows ≡ some u
    → user_of id (rows ++ new ∷ []) ≡ some u
unfolding user_of
user_of-append id [] new u h = cc
user_of-append id (r ∷ rows) new u h = elim (Bool-cases (r.id == id)) [
  | inl y ↦ rw y (rw y at h)
  | inr n ↦ rw n (user_of-append id rows new u (rw n at h))
]

user_of_new :
    (rows : List RefreshToken) (new : RefreshToken)
    → Below new.id rows
    → user_of new.id (rows ++ new ∷ []) ≡ some new.user_id
unfolding user_of
user_of_new [] new b = rw (==_refl new.id) refl
user_of_new (r ∷ rows) new (lt, b) =
    rw (not_== r.id new.id (λ e. absurd (less r.id new.id e lt))) (user_of_new rows new b)
  where
    less : (p q : ℕ) → p ≡ q → p < q → ⊥
    less p q e l = omega arith

Rising-change_row :
    (id a : ℕ) (f : RefreshToken → RefreshToken) (rows : List RefreshToken)
    → KeepsKeys f
    → Rising a rows
    → Rising a (change_row id f rows)
unfolding change_row
Rising-change_row id a f [] k r = tt
Rising-change_row id a f (x ∷ rows) k (lt, r) = elim (Bool-cases (x.id == id)) [
  | inl y ↦ rw y (
    omega (arith, lt, k.same_id x),
    Rising-mono (f x).id x.id rows (omega (arith, k.same_id x)) r,
  )
  | inr n ↦ rw n (lt, Rising-change_row id x.id f rows k r)
]

Below-change_row :
    (id b : ℕ) (f : RefreshToken → RefreshToken) (rows : List RefreshToken)
    → KeepsKeys f
    → Below b rows
    → Below b (change_row id f rows)
unfolding change_row
Below-change_row id b f [] k r = tt
Below-change_row id b f (x ∷ rows) k (lt, r) = elim (Bool-cases (x.id == id)) [
  | inl y ↦ rw y (omega (arith, lt, k.same_id x), r)
  | inr n ↦ rw n (lt, Below-change_row id b f rows k r)
]

Below-mono : (a b : ℕ) (rows : List RefreshToken) → a ≤ b → Below a rows → Below b rows
Below-mono a b [] h r = tt
Below-mono a b (x ∷ rows) h (lt, r) = (omega arith, Below-mono a b rows h r)

Below-append :
    (b : ℕ) (rows : List RefreshToken) (new : RefreshToken)
    → Below b rows
    → new.id < b
    → Below b (rows ++ new ∷ [])
Below-append b [] new r h = (h, tt)
Below-append b (x ∷ rows) new (lt, r) h = (lt, Below-append b rows new r h)

Rising-append :
    (a : ℕ) (rows : List RefreshToken) (new : RefreshToken)
    → Rising a rows
    → a < new.id
    → Below new.id rows
    → Rising a (rows ++ new ∷ [])
Rising-append a [] new r h b = (h, tt)
Rising-append a (x ∷ rows) new (lt, r) h (below, b) = (lt, Rising-append x.id rows new r below b)

-- The links survive a table in which every id keeps its user.
pub AllLink-mono :
    (rows rows' rest : List RefreshToken)
    → ((id u : ℕ) → user_of id rows ≡ some u → user_of id rows' ≡ some u)
    → AllLink rows rest
    → AllLink rows' rest
AllLink-mono rows rows' [] keep l = tt
AllLink-mono rows rows' (x ∷ rest) keep (l, ls) =
    (go x.rotated_to l, AllLink-mono rows rows' rest keep ls)
  where
    go :
        (link : Option ℕ)
        → LinkWithin rows x.id x.user_id link
        → LinkWithin rows' x.id x.user_id link
    go none h = tt
    go (some next) (lt, u) = (lt, keep next x.user_id u)

AllLink-append :
    (base rows : List RefreshToken) (new : RefreshToken)
    → AllLink base rows
    → LinksWithin base new
    → AllLink base (rows ++ new ∷ [])
AllLink-append base [] new l n = (n, tt)
AllLink-append base (x ∷ rows) new (l, ls) n = (l, AllLink-append base rows new ls n)

AllLink-change_row :
    (base : List RefreshToken) (id : ℕ) (f : RefreshToken → RefreshToken) (rows : List RefreshToken)
    (row : RefreshToken)
    → find_id id rows ≡ some row
    → AllLink base rows
    → LinksWithin base (f row)
    → AllLink base (change_row id f rows)
unfolding find_id change_row
AllLink-change_row base id f [] row h l n = tt
AllLink-change_row base id f (x ∷ rows) row h (l, ls) n = elim (Bool-cases (x.id == id)) [
  | inl y ↦
      (let same : x ≡ row = some-eq (rw y at h) in
        rw y (subst (λ r. LinksWithin base (f r)) (sym same) n, ls))
  | inr m ↦ rw m (l, AllLink-change_row base id f rows row (rw m at h) ls n)
]

pub link_of_find_id :
    (base rows : List RefreshToken) (id : ℕ) (row : RefreshToken)
    → AllLink base rows
    → find_id id rows ≡ some row
    → LinksWithin base row
unfolding find_id
link_of_find_id base [] id row l h = cc
link_of_find_id base (x ∷ rows) id row (l, ls) h = elim (Bool-cases (x.id == id)) [
  | inl y ↦ (let same : x ≡ row = some-eq (rw y at h) in subst (λ r. LinksWithin base r) same l)
  | inr m ↦ link_of_find_id base rows id row ls (rw m at h)
]

-- A change of one row that keeps the keys and whose new link is sound.
pub change_row-IsValid :
    (table : TokenTable) (id : ℕ) (f : RefreshToken → RefreshToken) (row : RefreshToken)
    → KeepsKeys f
    → find_id id table.rows ≡ some row
    → LinksWithin table.rows (f row)
    → IsValid table
    → IsValid (record table { rows = change_row id f table.rows })
change_row-IsValid table id f row k h n v = record {
  rising = Rising-change_row id 0 f table.rows k v.rising;
  below = Below-change_row id table.next_id f table.rows k v.below;
  positive = v.positive;
  links =
      AllLink-mono table.rows (change_row id f table.rows) (change_row id f table.rows)
        (λ other u e. user_of-change_row id other f table.rows k ∙ e)
        (AllLink-change_row table.rows id f table.rows row h v.links n);
}

pub revoked-IsValid :
    (table : TokenTable) (id now : ℕ) (row : RefreshToken)
    → find_id id table.rows ≡ some row
    → IsValid table
    → IsValid (record table { rows = change_row id (revoked now) table.rows })
revoked-IsValid table id now row h v =
    change_row-IsValid table id (revoked now) row (revoked-KeepsKeys now) h
      (link_of_find_id table.rows table.rows id row v.links h) v

module _ (hash_token : Text → Text) (settings : TokenSettings) where
  pub issue-IsValid :
      (clock : Clock) (user_id : ℕ) (raw : Text) (table : TokenTable)
      → IsValid table
      → IsValid (issue hash_token settings clock user_id raw table).0
  unfolding issue
  issue-IsValid clock user_id raw table v = record {
    rising =
        Rising-append 0 table.rows (new_token hash_token settings clock user_id raw table.next_id)
          v.rising v.positive v.below;
    below =
        Below-append (table.next_id + 1) table.rows
          (new_token hash_token settings clock user_id raw table.next_id)
          (Below-mono table.next_id (table.next_id + 1) table.rows (omega arith) v.below)
          (omega arith);
    positive = omega arith;
    links =
        AllLink-append _ table.rows (new_token hash_token settings clock user_id raw table.next_id)
          (AllLink-mono table.rows _ table.rows
            (λ id u e.
              user_of-append id table.rows
                (new_token hash_token settings clock user_id raw table.next_id) u e)
            v.links)
          tt;
  }

  -- The issued token is the sequence's next, of the given user.
  pub user_of_issued :
      (clock : Clock) (user_id : ℕ) (raw : Text) (table : TokenTable)
      → IsValid table
      → user_of table.next_id (issue hash_token settings clock user_id raw table).0.rows
        ≡ some user_id
  unfolding issue
  user_of_issued clock user_id raw table v =
      user_of_new table.rows (new_token hash_token settings clock user_id raw table.next_id) v.below
