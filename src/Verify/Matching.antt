-- ===== src/Verify/Matching.antt =====
-- The comparison of a stage row with the audit rows of its stage, by the hash of the payload.
use mathlib.Core.Path.{subst}
use apichain_backend.Base.{
  ◌≡◌, ◌⊎◌, refl, sym, ap, ◌∙◌, Bool, true, Option, none, some, List, [], ◌∷◌, inl, inr, Member,
}
use apichain_backend.Base.Bytes.{
  Bytes, bytes_eq, bytes_eq_refl, eq_of_bytes_eq, Bytes-discrete, Collision,
}
use apichain_backend.Canonical.Json.{Json, obj, Fields, canonical_bytes, compute_data_hash}
use apichain_backend.Anchoring.Covering.{Member-of_select_rows}
use apichain_backend.Audit.Content.{AuditRow, genesis_prev_hash}
use apichain_backend.Audit.Chain.{select_rows, verify_chain}
use apichain_backend.Audit.Verdict.{Linked, verify_chain-iff-Linked}
use apichain_backend.Verify.Match.{Found, row_with, is_same, hash_of}

module _ (keccak : Bytes → Bytes) where
  Linked-payload_hash :
      (before : Bytes) (rows : List AuditRow) (row : AuditRow)
      → Linked keccak before rows
      → Member row rows
      → compute_data_hash keccak row.entry.payload ≡ row.payload_hash
  Linked-payload_hash before [] row l m = absurd m
  Linked-payload_hash before (r ∷ rows) row (link, rest) (inl same) =
      subst (λ (x : AuditRow). compute_data_hash keccak x.entry.payload ≡ x.payload_hash) (sym same)
        link.1
  Linked-payload_hash before (r ∷ rows) row (link, rest) (inr m) =
      Linked-payload_hash r.row_hash rows row rest m

  -- One digest of two payloads.
  same_bytes :
      (a b : Json)
      → compute_data_hash keccak a ≡ compute_data_hash keccak b
      → (canonical_bytes a ≡ canonical_bytes b) ⊎ Collision keccak
  unfolding compute_data_hash
  same_bytes a b e = elim (Bytes-discrete (canonical_bytes a) (canonical_bytes b)) [
    | yes same ↦ inl same
    | no differ ↦ inr (canonical_bytes a, canonical_bytes b, differ, e)
  ]

  -- The block has one audit row, and the payload of the stage row prints as that row's payload does.
  pub record Matched (found : Found) (audit_rows : List AuditRow) : Type 0 where
    pub row : AuditRow
    pub payload : Fields
    pub one : audit_rows ≡ row ∷ []
    pub rebuilt : found ≡ row_with (some payload)
    pub agrees :
        (canonical_bytes (obj payload) ≡ canonical_bytes row.entry.payload) ⊎ Collision keccak

  -- The payload of the stage row is that of the block's one audit row.
  pub record Untouched (found : Found) (audit_rows : List AuditRow) : Type 0 where
    pub row : AuditRow
    pub payload : Fields
    pub one : audit_rows ≡ row ∷ []
    pub rebuilt : found ≡ row_with (some payload)
    pub same : row.entry.payload ≡ obj payload

  -- Every audit row holds the hash of its payload.
  abbrev pub Intact : List AuditRow → Type 0
  Intact rows =
      (row : AuditRow)
      → Member row rows
      → compute_data_hash keccak row.entry.payload ≡ row.payload_hash

  pub Matched-is_same :
      (payload : Option Fields) (audit_rows : List AuditRow)
      → Intact audit_rows
      → is_same (hash_of keccak payload) audit_rows ≡ true
      → Matched (row_with payload) audit_rows
  Matched-is_same none [] w h = cc
  Matched-is_same none (row ∷ []) w h = cc
  Matched-is_same none (row ∷ r ∷ rows) w h = cc
  Matched-is_same (some payload) [] w h = cc
  Matched-is_same (some payload) (row ∷ r ∷ rows) w h = cc
  Matched-is_same (some payload) (row ∷ []) w h = record {
    row = row;
    payload = payload;
    one = refl;
    rebuilt = refl;
    agrees = same_bytes (obj payload) row.entry.payload (
        eq_of_bytes_eq (compute_data_hash keccak (obj payload)) row.payload_hash h
        ∙ sym (w row (inl refl)));
  }

  pub is_same-Untouched :
      (payload : Option Fields) (audit_rows : List AuditRow)
      → Intact audit_rows
      → Untouched (row_with payload) audit_rows
      → is_same (hash_of keccak payload) audit_rows ≡ true
  is_same-Untouched payload audit_rows w u =
      let built : payload ≡ some u.payload = row-eq u.rebuilt in
      let digest : compute_data_hash keccak (obj u.payload) ≡ u.row.payload_hash =
        ap (compute_data_hash keccak) (sym u.same)
        ∙ w u.row (subst (Member u.row) (sym u.one) (inl refl)) in
      ap (λ p. is_same (hash_of keccak p) audit_rows) built
      ∙ (ap (is_same (hash_of keccak (some u.payload))) u.one
          ∙ (ap (λ h. bytes_eq h u.row.payload_hash) digest ∙ bytes_eq_refl u.row.payload_hash))
    where
      row-eq : {p q : Option Fields} → row_with p ≡ row_with q → p ≡ q
      row-eq e = cc

  pub Intact-Linked :
      (rows : List AuditRow) (first second : AuditRow → Bool)
      → (verify_chain keccak none none rows).is_ok ≡ true
      → Intact (select_rows second (select_rows first rows))
  Intact-Linked rows first second v = λ row m.
      Linked-payload_hash genesis_prev_hash rows row ((verify_chain-iff-Linked keccak rows).0 v) (
        Member-of_select_rows first row rows
          (Member-of_select_rows second row (select_rows first rows) m))
