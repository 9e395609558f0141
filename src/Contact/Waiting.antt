-- ===== src/Contact/Waiting.antt =====
-- `retry_after`, the wait that a refused send announces, and the sends after it.
use apichain_backend.Base.{
  ℕ, zero, suc, ◌+◌, ◌-◌, ◌*◌, ◌/◌, ◌≤◌, ◌<◌, ◌≡◌, refl, sym, ap, ◌∙◌, Bool, true, false, ◌&&◌,
  Option, none, some, List, [], ◌∷◌, leb, ltb, arith, Bool-cases, inl, inr,
}
use apichain_backend.Contact.Codes.{
  CommChannel, VerificationCode, cooldown, send_window, is_theirs, recent_sends, at_index,
  cooldown_wait, window_wait, whole_seconds, longest_wait, retry_after,
}

-- The clock never went back: no row was created before an older one.
abbrev pub NewestFirst : ℕ → List VerificationCode → Type 0
NewestFirst top [] = Unit
NewestFirst top (row ∷ rows) = (row.created_at ≤ top) × NewestFirst row.created_at rows

module _ (farmer_id : ℕ) (channel : CommChannel) where
  none_recent :
      (later top : ℕ) (rows : List VerificationCode)
      → NewestFirst top rows
      → top + send_window ≤ later
      → recent_sends farmer_id channel later rows ≡ []
  unfolding recent_sends
  none_recent later top [] s l = refl
  none_recent later top (row ∷ rows) (le, s) l =
      rw (out (is_theirs farmer_id channel row) row.created_at later (omega arith))
        (none_recent later row.created_at rows s (omega arith))
    where
      out : (b : Bool) (t u : ℕ) → t + send_window ≤ u → (b && ltb u (t + send_window)) ≡ false
      out true t u h = ground arith
      out false t u h = refl

  -- A send that is counted later is counted now, at the same place.
  at_index-recent_sends :
      (now later top : ℕ) (rows : List VerificationCode) (n t : ℕ)
      → NewestFirst top rows
      → now ≤ later
      → at_index (recent_sends farmer_id channel later rows) n ≡ some t
      → (at_index (recent_sends farmer_id channel now rows) n ≡ some t) × (later < t + send_window)
  unfolding recent_sends
  at_index-recent_sends now later top [] n t s l h = cc
  at_index-recent_sends now later top (row ∷ rows) n t (le, s) l h =
      elim (Bool-cases (is_theirs farmer_id channel row)) [
        | inr other ↦
            rw other (at_index-recent_sends now later row.created_at rows n t s l (rw other at h))
        | inl theirs ↦ elim (Bool-cases (ltb later (row.created_at + send_window))) [
          | inr gone ↦ absurd (
              nothing n t (
                rw (none_recent later row.created_at rows s (ended row.created_at later gone)) at
                  (rw (theirs, gone) at h)))
          | inl live ↦
              (let before : ltb now (row.created_at + send_window) ≡ true = ground arith in
                rw (theirs, before)
                  (here n t row.created_at (recent_sends farmer_id channel now rows)
                    (recent_sends farmer_id channel later rows) (lasts row.created_at later live)
                    (λ m. at_index-recent_sends now later row.created_at rows m t s l)
                    (rw (theirs, live) at h)))
        ]
      ]
    where
      nothing : (m u : ℕ) → at_index [] m ≡ some u → ⊥
      nothing m u e = cc

      ended : (c u : ℕ) → ltb u (c + send_window) ≡ false → c + send_window ≤ u
      ended c u e = ground arith

      lasts : (c u : ℕ) → ltb u (c + send_window) ≡ true → u < c + send_window
      lasts c u e = ground arith

      here :
          (m u c : ℕ) (earlier kept : List ℕ)
          → later < c + send_window
          → ((k : ℕ)
              → at_index kept k ≡ some u
              → (at_index earlier k ≡ some u) × (later < u + send_window))
          → at_index (c ∷ kept) m ≡ some u
          → (at_index (c ∷ earlier) m ≡ some u) × (later < u + send_window)
      here zero u c earlier kept live ih e = let same : c ≡ u = inner e in (e, rw (sym same) live)
        where
          inner : some c ≡ some u → c ≡ u
          inner q = cc
      here (suc m) u c earlier kept live ih e = ih m e

some-eq : {A : Type 0} {a b : A} → some a ≡ some b → a ≡ b
some-eq e = cc

-- The announced seconds cover a wait.
wait_covers : (x : ℕ) → x ≤ whole_seconds x * 1000000
wait_covers x = elim (Bool-cases (ltb ((x + 999999) / 1000000) 1)) [
  | inl y ↦ rw y (small x y)
  | inr n ↦ rw n (omega arith)
]
  where
    small : (y : ℕ) → ltb ((y + 999999) / 1000000) 1 ≡ true → y ≤ 1 * 1000000
    small y e = ground arith

covered : (x w : ℕ) → whole_seconds x ≡ w → x ≤ w * 1000000
covered x w e = omega (arith, wait_covers x, ap (λ s. s * 1000000) e)

longest_left : (x : ℕ) (b : Option ℕ) (w : ℕ) → longest_wait (some x) b ≡ some w → x ≤ w * 1000000
longest_left x none w e = covered x w (some-eq e)
longest_left x (some y) w e = elim (Bool-cases (leb x y)) [
  | inl le ↦ (let c = covered y w (some-eq (rw le at e)) in ground (arith, c))
  | inr gt ↦ covered x w (some-eq (rw gt at e))
]

longest_right : (a : Option ℕ) (y w : ℕ) → longest_wait a (some y) ≡ some w → y ≤ w * 1000000
longest_right none y w e = covered y w (some-eq e)
longest_right (some x) y w e = elim (Bool-cases (leb x y)) [
  | inl le ↦ covered y w (some-eq (rw le at e))
  | inr gt ↦ (let c = covered x w (some-eq (rw gt at e)) in ground (arith, c))
]

-- After the announced wait the cooldown of the last send is over.
cooldown_over :
    (t now w later : ℕ) (b : Option ℕ)
    → longest_wait (cooldown_wait (some t) now) b ≡ some w
    → now + w * 1000000 ≤ later
    → cooldown_wait (some t) later ≡ none
cooldown_over t now w later b e l = elim (Bool-cases (ltb now (t + cooldown))) [
  | inl y ↦
      (let c = longest_left (t + cooldown - now) b w (rw y at e) in
        rw (over t now w later c l) refl)
  | inr n ↦ rw (past t now later n (omega arith)) refl
]
  where
    over :
        (a u v z : ℕ)
        → a + cooldown - u ≤ v * 1000000
        → u + v * 1000000 ≤ z
        → ltb z (a + cooldown) ≡ false
    over a u v z c k = ground arith

    past : (a u z : ℕ) → ltb u (a + cooldown) ≡ false → u ≤ z → ltb z (a + cooldown) ≡ false
    past a u z c k = ground arith

module _ (farmer_id : ℕ) (channel : CommChannel) where
  -- The announced wait is enough: when the clock never went back over the rows, a send that is refused
  -- with a wait is not refused at any time from that many seconds later on, if no send came between.
  pub retry_after_waited :
      (rows : List VerificationCode) (top now wait later : ℕ)
      → NewestFirst top rows
      → retry_after (recent_sends farmer_id channel now rows) now ≡ some wait
      → now + wait * 1000000 ≤ later
      → retry_after (recent_sends farmer_id channel later rows) later ≡ none
  unfolding retry_after
  retry_after_waited rows top now wait later s h l =
      go (at_index (recent_sends farmer_id channel later rows) 0)
        (at_index (recent_sends farmer_id channel later rows) 4) refl refl
    where
      first_over :
          (o : Option ℕ)
          → at_index (recent_sends farmer_id channel later rows) 0 ≡ o
          → cooldown_wait o later ≡ none
      first_over none e = refl
      first_over (some t) e =
          let (same, live) =
            at_index-recent_sends farmer_id channel now later top rows 0 t s (omega arith) e in
          cooldown_over t now wait later
            (window_wait (at_index (recent_sends farmer_id channel now rows) 4) now)
            (ap
                (λ o.
                  longest_wait (cooldown_wait o now)
                    (window_wait (at_index (recent_sends farmer_id channel now rows) 4) now))
                (sym same)
              ∙ h)
            l

      late :
          (a u v z : ℕ)
          → a + send_window - u ≤ v * 1000000
          → u + v * 1000000 ≤ z
          → z < a + send_window
          → ⊥
      late a u v z c k m = omega arith

      fifth_over :
          (o : Option ℕ)
          → at_index (recent_sends farmer_id channel later rows) 4 ≡ o
          → window_wait o later ≡ none
      fifth_over none e = refl
      fifth_over (some t) e =
          let (same, live) =
            at_index-recent_sends farmer_id channel now later top rows 4 t s (omega arith) e in
          let c =
            longest_right (cooldown_wait (at_index (recent_sends farmer_id channel now rows) 0) now)
              (t + send_window - now) wait
              (ap
                  (λ o.
                    longest_wait
                      (cooldown_wait (at_index (recent_sends farmer_id channel now rows) 0) now)
                      (window_wait o now))
                  (sym same)
                ∙ h) in
          absurd (late t now wait later c l live)

      go :
          (o p : Option ℕ)
          → at_index (recent_sends farmer_id channel later rows) 0 ≡ o
          → at_index (recent_sends farmer_id channel later rows) 4 ≡ p
          → longest_wait
              (cooldown_wait (at_index (recent_sends farmer_id channel later rows) 0) later)
              (window_wait (at_index (recent_sends farmer_id channel later rows) 4) later)
            ≡ none
      go o p e f = rw (e, f) rw (first_over o e) rw (fifth_over p f) refl
