-- ===== src/Anchoring/UpgradeLaws.antt =====
-- What the upgrade of anchors keeps and counts.
use mathlib.Core.Path.{subst}
use apichain_backend.Base.{
  ℕ, ◌+◌, ◌≡◌, refl, sym, ap, ◌∙◌, Bool, true, false, Option, none, some, List, [], ◌∷◌, map, ◌==◌,
  arith, Bool-cases, inl, inr, if◌then◌else◌,
}
use apichain_backend.Base.Bytes.{Bytes}
use apichain_backend.Canonical.DateTime.{DateTime}
use apichain_backend.Audit.Content.{AuditRow}
use apichain_backend.Anchoring.Stamp.{MerkleAnchor}
use apichain_backend.Anchoring.Coverage.{AnchorsFrom}
use apichain_backend.Anchoring.Upgrade.{
  Upgrade, upgraded, still_pending, invalid_proof, is_pending, pending_anchors, find_anchor,
  change_anchor, confirmed_by, apply_upgrade, upgrade_anchor, upgrade_found, upgrade_one,
  upgrade_loop, run_upgrade,
}

-- An anchor keeps what it commits to, and one that is confirmed stays as it is.
pub record Kept (a b : MerkleAnchor) : Type 0 where
  pub same_id : b.id ≡ a.id
  pub same_root : b.merkle_root ≡ a.merkle_root
  pub same_from : b.from_audit_id ≡ a.from_audit_id
  pub same_to : b.to_audit_id ≡ a.to_audit_id
  pub same_time : b.anchored_at ≡ a.anchored_at
  pub settled : is_pending a ≡ false → b ≡ a

abbrev pub AllKept : List MerkleAnchor → List MerkleAnchor → Type 0
AllKept [] [] = Unit
AllKept [] (b ∷ after) = ⊥
AllKept (a ∷ before) [] = ⊥
AllKept (a ∷ before) (b ∷ after) = Kept a b × AllKept before after

Kept-same : (a : MerkleAnchor) → Kept a a
Kept-same a = record {
  same_id = refl;
  same_root = refl;
  same_from = refl;
  same_to = refl;
  same_time = refl;
  settled = λ h. refl;
}

AllKept-same : (anchors : List MerkleAnchor) → AllKept anchors anchors
AllKept-same [] = tt
AllKept-same (a ∷ anchors) = (Kept-same a, AllKept-same anchors)

Kept-trans : (a b c : MerkleAnchor) → Kept a b → Kept b c → Kept a c
Kept-trans a b c p q = record {
  same_id = q.same_id ∙ p.same_id;
  same_root = q.same_root ∙ p.same_root;
  same_from = q.same_from ∙ p.same_from;
  same_to = q.same_to ∙ p.same_to;
  same_time = q.same_time ∙ p.same_time;
  settled = λ h. let same = p.settled h in q.settled (ap is_pending same ∙ h) ∙ same;
}

AllKept-trans :
    (first second third : List MerkleAnchor)
    → AllKept first second
    → AllKept second third
    → AllKept first third
AllKept-trans [] [] [] p q = tt
AllKept-trans [] [] (c ∷ third) p q = q
AllKept-trans [] (b ∷ second) third p q = absurd p
AllKept-trans (a ∷ first) [] third p q = absurd p
AllKept-trans (a ∷ first) (b ∷ second) [] p q = q
AllKept-trans (a ∷ first) (b ∷ second) (c ∷ third) (p, ps) (q, qs) =
    (Kept-trans a b c p q, AllKept-trans first second third ps qs)

-- The number of pending anchors.
abbrev pub count_pending : List MerkleAnchor → ℕ
count_pending [] = 0
count_pending (a ∷ anchors) = (if is_pending a then 1 else 0) + count_pending anchors

-- What a change of the anchors keeps and counts.
pub record Upgraded (before after : List MerkleAnchor) (confirmed : ℕ) : Type 0 where
  pub kept : AllKept before after
  pub moved : count_pending after + confirmed ≡ count_pending before

Upgraded-same : (anchors : List MerkleAnchor) → Upgraded anchors anchors 0
Upgraded-same anchors = record { kept = AllKept-same anchors; moved = omega arith }

-- The confirmation of the first anchor of an id, when it is pending.
Upgraded-change_anchor :
    (id : ℕ) (proof : Bytes) (now : DateTime) (anchors : List MerkleAnchor) (a : MerkleAnchor)
    → find_anchor id anchors ≡ some a
    → is_pending a ≡ true
    → Upgraded anchors (change_anchor id (confirmed_by proof now) anchors) 1
unfolding find_anchor change_anchor
Upgraded-change_anchor id proof now [] a f h = cc
Upgraded-change_anchor id proof now (x ∷ anchors) a f h = elim (Bool-cases (x.id == id)) [
  | inl y ↦
      (let same : x ≡ a = some-eq (rw y at f) in
        let open_still : is_pending x ≡ true = ap is_pending same ∙ h in
        rw y (record {
          kept = (
            record {
              same_id = refl;
              same_root = refl;
              same_from = refl;
              same_to = refl;
              same_time = refl;
              settled = λ e. absurd (never (sym open_still ∙ e));
            },
            AllKept-same anchors,
          );
          moved = rw open_still (omega arith);
        }))
  | inr n ↦
      (let rest = Upgraded-change_anchor id proof now anchors a (rw n at f) h in
        rw n (record { kept = (Kept-same x, rest.kept); moved = omega (arith, rest.moved) }))
]
  where
    some-eq : {p q : MerkleAnchor} → some p ≡ some q → p ≡ q
    some-eq e = cc

    never : true ≡ false → ⊥
    never e = cc

find_anchor-id :
    (id : ℕ) (anchors : List MerkleAnchor) (a : MerkleAnchor)
    → find_anchor id anchors ≡ some a
    → a.id ≡ id
unfolding find_anchor
find_anchor-id id [] a f = cc
find_anchor-id id (x ∷ anchors) a f = elim (Bool-cases (x.id == id)) [
  | inl y ↦
      (let same : x ≡ a = some-eq (rw y at f) in
        ap (λ (c : MerkleAnchor). c.id) (sym same) ∙ equal x.id id y)
  | inr n ↦ find_anchor-id id anchors a (rw n at f)
]
  where
    some-eq : {p q : MerkleAnchor} → some p ≡ some q → p ≡ q
    some-eq e = cc

    equal : (m n : ℕ) → (m == n) ≡ true → m ≡ n
    equal m n e = ground arith

module _ (upgrade : Bytes → Upgrade) (claims : ℕ → Bool) (now : DateTime) where
  Upgraded-upgrade_one :
      (id : ℕ) (anchors : List MerkleAnchor)
      → let out = upgrade_one upgrade claims now id anchors in Upgraded anchors out.0 out.1
  unfolding upgrade_anchor
  Upgraded-upgrade_one id anchors = elim (Bool-cases (claims id)) [
    | inr busy ↦ rw busy (Upgraded-same anchors)
    | inl mine ↦ rw mine (found (find_anchor id anchors) refl)
  ]
    where
      answered :
          (a : MerkleAnchor) (u : Upgrade)
          → find_anchor id anchors ≡ some a
          → is_pending a ≡ true
          → let out = apply_upgrade upgrade claims now u a anchors in Upgraded anchors out.0 out.1
      answered a (upgraded proof) f h =
          subst (λ i. Upgraded anchors (change_anchor i (confirmed_by proof now) anchors) 1)
            (sym (find_anchor-id id anchors a f))
            (Upgraded-change_anchor id proof now anchors a f h)
      answered a still_pending f h = Upgraded-same anchors
      answered a invalid_proof f h = Upgraded-same anchors

      found :
          (o : Option MerkleAnchor)
          → find_anchor id anchors ≡ o
          → let out = upgrade_found upgrade claims now o anchors in Upgraded anchors out.0 out.1
      found none f = Upgraded-same anchors
      found (some a) f = elim (Bool-cases (is_pending a)) [
        | inl pending ↦ rw pending (answered a (upgrade a.anchor_proof) f pending)
        | inr done ↦ rw done (Upgraded-same anchors)
      ]

  Upgraded-upgrade_loop :
      (ids : List ℕ) (anchors : List MerkleAnchor)
      → let out = upgrade_loop upgrade claims now ids anchors in Upgraded anchors out.0 out.1
  unfolding upgrade_loop
  Upgraded-upgrade_loop [] anchors = Upgraded-same anchors
  Upgraded-upgrade_loop (id ∷ ids) anchors =
      let one = Upgraded-upgrade_one id anchors in
      let next = (upgrade_one upgrade claims now id anchors).0 in
      let rest = Upgraded-upgrade_loop ids next in
      record {
        kept =
            AllKept-trans anchors next (upgrade_loop upgrade claims now ids next).0 one.kept
              rest.kept;
        moved = omega (arith, one.moved, rest.moved);
      }

  -- A tick of upgrades, whatever the calendars answer and whichever anchors are locked elsewhere: every
  -- anchor keeps its id, root, range and time, one that is confirmed stays as it is, and the count that
  -- is returned is by how many the pending anchors became fewer.
  pub run_upgrade-Upgraded :
      (anchors : List MerkleAnchor)
      → let out = run_upgrade upgrade claims now anchors in Upgraded anchors out.0 out.1
  unfolding run_upgrade
  run_upgrade-Upgraded anchors =
      Upgraded-upgrade_loop (map (λ a. a.id) (pending_anchors anchors)) anchors

-- Anchors that are kept still cover the rows.
pub AnchorsFrom-AllKept :
    (sha256 : Bytes → Bytes) (rows : List AuditRow) (m : ℕ) (before after : List MerkleAnchor)
    → AllKept before after
    → AnchorsFrom sha256 rows m before
    → AnchorsFrom sha256 rows m after
AnchorsFrom-AllKept sha256 rows m [] [] k c = c
AnchorsFrom-AllKept sha256 rows m [] (b ∷ after) k c = absurd k
AnchorsFrom-AllKept sha256 rows m (a ∷ before) [] k c = absurd k
AnchorsFrom-AllKept sha256 rows m (a ∷ before) (b ∷ after) (k, ks) (lt, le, covers, rest) =
    rw (k.same_from, k.same_to, k.same_root)
      (lt, le, covers, AnchorsFrom-AllKept sha256 rows a.to_audit_id before after ks rest)
