-- ===== src/Sessions/Revocations.antt =====
-- The table after `revoke`, after `revoke_all` and after a detected reuse.
use mathlib.Core.Path.{subst}
use apichain_backend.Base.{
  ℕ, ◌≡◌, refl, sym, ◌∙◌, not, ◌&&◌, Option, none, some, List, [], ◌∷◌, ◌==◌, Bool-cases, inl, inr,
}
use apichain_backend.Canonical.Text.{Text}
use apichain_backend.Sessions.Tokens.{
  RefreshToken, TokenTable, TokenSettings, is_set, find_hash, revoke_for, revoke_all, revoke_found,
  revoke,
}
use apichain_backend.Sessions.Rows.{Rising, find_id_of_find_hash}
use apichain_backend.Sessions.Valid.{
  user_of, LinkWithin, AllLink, Below, IsValid, AllLink-mono, revoked-IsValid,
}

-- What a revocation keeps of a row.
record Same (row after : RefreshToken) : Type 0 where
  id : after.id ≡ row.id
  user : after.user_id ≡ row.user_id
  link : after.rotated_to ≡ row.rotated_to

module _ (user_id now : ℕ) where
  Same-revoke_for : (row : RefreshToken) → Same row (revoke_for user_id now row)
  Same-revoke_for row = elim (Bool-cases (row.user_id == user_id && not (is_set row.revoked_at))) [
    | inl y ↦ rw y record { id = refl; user = refl; link = refl }
    | inr n ↦ rw n record { id = refl; user = refl; link = refl }
  ]

  user_of-revoke_all :
      (id : ℕ) (rows : List RefreshToken)
      → user_of id (revoke_all user_id now rows) ≡ user_of id rows
  unfolding user_of revoke_all
  user_of-revoke_all id [] = refl
  user_of-revoke_all id (row ∷ rows) =
      let same = Same-revoke_for row in rw (same.id, same.user, user_of-revoke_all id rows) refl

  Rising-revoke_all :
      (above : ℕ) (rows : List RefreshToken)
      → Rising above rows
      → Rising above (revoke_all user_id now rows)
  unfolding revoke_all
  Rising-revoke_all above [] r = tt
  Rising-revoke_all above (row ∷ rows) (lt, r) =
      rw (Same-revoke_for row).id (lt, Rising-revoke_all row.id rows r)

  Below-revoke_all :
      (bound : ℕ) (rows : List RefreshToken)
      → Below bound rows
      → Below bound (revoke_all user_id now rows)
  unfolding revoke_all
  Below-revoke_all bound [] b = tt
  Below-revoke_all bound (row ∷ rows) (lt, b) =
      rw (Same-revoke_for row).id (lt, Below-revoke_all bound rows b)

  AllLink-revoke_all :
      (base rows : List RefreshToken)
      → AllLink base rows
      → AllLink base (revoke_all user_id now rows)
  unfolding revoke_all
  AllLink-revoke_all base [] l = tt
  AllLink-revoke_all base (row ∷ rows) (l, ls) =
      let same = Same-revoke_for row in
      (
        subst
            (λ u.
              LinkWithin base (revoke_for user_id now row).id u
                (revoke_for user_id now row).rotated_to)
            (sym same.user)
            (subst (λ i. LinkWithin base i row.user_id (revoke_for user_id now row).rotated_to)
              (sym same.id) (subst (λ o. LinkWithin base row.id row.user_id o) (sym same.link) l)),
        AllLink-revoke_all base rows ls,
      )

  pub revoke_all-IsValid :
      (table : TokenTable)
      → IsValid table
      → IsValid (record table { rows = revoke_all user_id now table.rows })
  revoke_all-IsValid table v = record {
    rising = Rising-revoke_all 0 table.rows v.rising;
    below = Below-revoke_all table.next_id table.rows v.below;
    positive = v.positive;
    links =
        AllLink-mono table.rows (revoke_all user_id now table.rows)
          (revoke_all user_id now table.rows) (λ id u e. user_of-revoke_all id table.rows ∙ e)
          (AllLink-revoke_all table.rows table.rows v.links);
  }

module _ (hash_token : Text → Text) (settings : TokenSettings) where
  revoke-IsValid :
      (now : ℕ) (raw : Text) (table : TokenTable)
      → IsValid table
      → IsValid (revoke hash_token settings now raw table)
  unfolding revoke
  revoke-IsValid now raw table v = go (find_hash (hash_token raw) table.rows) refl
    where
      go :
          (found : Option RefreshToken)
          → find_hash (hash_token raw) table.rows ≡ found
          → IsValid (record table { rows = revoke_found hash_token settings now found table.rows })
      go none f = v
      go (some row) f = elim (Bool-cases (is_set row.revoked_at)) [
        | inl set ↦ rw set v
        | inr unset ↦ rw unset (
            revoked-IsValid table row.id now row
              (find_id_of_find_hash (hash_token raw) 0 table.rows row v.rising f) v)
      ]
