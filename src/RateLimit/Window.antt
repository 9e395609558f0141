-- ===== src/RateLimit/Window.antt =====
-- One key's counter over a history of attempts: the bound on what is let through, and the wait.
use apichain_backend.Base.{
  ℕ, ◌+◌, ◌-◌, ◌*◌, ◌≤◌, ◌<◌, ◌≡◌, refl, sym, ap, ◌∙◌, true, false, ◌&&◌, Option, none, some, List,
  [], ◌∷◌, ◌++◌, ltb, leb, arith, Bool-cases, inl, inr, length, Option-cases, if◌then◌else◌, leb→le,
}
use apichain_backend.RateLimit.Events.{
  Limit, window, earlier, Decision, allowed, refused, ceil_seconds, refuse,
}
use apichain_backend.RateLimit.Times.{live, oldest, take_time}

-- How many of the times lie in the span of one window after `from`.
abbrev pub count_span : Limit → ℕ → List ℕ → ℕ
count_span limit from [] = 0
count_span limit from (t ∷ ts) =
    (if ltb from t && leb t (from + window limit) then 1 else 0) + count_span limit from ts

abbrev pub let_through : Decision → ℕ → List ℕ → List ℕ
let_through allowed now taken = now ∷ taken
let_through (refused wait) now taken = taken

-- A run of attempts at the given times, from a counter: the times that were let through, newest first.
unfoldable pub run_takes : Limit → List ℕ → List ℕ → List ℕ → List ℕ × List ℕ
unfolding take_time
run_takes limit [] ts taken = (ts, taken)
run_takes limit (now ∷ clock) ts taken =
    let out = take_time limit now ts in run_takes limit clock out.1 (let_through out.0 now taken)

-- The clock never goes back.
abbrev pub Rising : ℕ → List ℕ → Type 0
Rising from [] = Unit
Rising from (t ∷ ts) = (from ≤ t) × Rising t ts

-- The counter still holds all that was let through and can count later on.
abbrev pub Remembers : Limit → ℕ → List ℕ → List ℕ → Type 0
Remembers limit now ts taken =
    (later : ℕ) → now ≤ later → length (live limit later ts) ≡ length (live limit later taken)

live-live :
    (limit : Limit) (now later : ℕ) (ts : List ℕ)
    → now ≤ later
    → live limit later (live limit now ts) ≡ live limit later ts
unfolding live
live-live limit now later [] h = refl
live-live limit now later (t ∷ ts) h = ground (arith, live-live limit now later ts h)

live-append :
    (limit : Limit) (later now : ℕ) (ts : List ℕ)
    → length (live limit later (ts ++ now ∷ [])) ≡ length (live limit later (now ∷ ts))
unfolding live
live-append limit later now [] = refl
live-append limit later now (t ∷ ts) = ground (arith, live-append limit later now ts)

-- A span that ends at or after `now` counts at most what is live now.
count_span-le-live :
    (limit : Limit) (from now : ℕ) (taken : List ℕ)
    → now ≤ from + window limit
    → count_span limit from taken ≤ length (live limit now taken)
unfolding live
count_span-le-live limit from now [] h = omega arith
count_span-le-live limit from now (t ∷ taken) h =
    ground (arith, count_span-le-live limit from now taken h)

-- One more attempt fits wherever the counter has room.
count_span-room :
    (limit : Limit) (from t : ℕ) (ts taken : List ℕ)
    → length (live limit t ts) ≡ length (live limit t taken)
    → leb limit.max_events (length (live limit t ts)) ≡ false
    → count_span limit from taken ≤ limit.max_events
    → count_span limit from (t ∷ taken) ≤ limit.max_events
count_span-room limit from t ts taken same room before =
    elim (Bool-cases (leb t (from + window limit))) [
      | inl inside ↦
          rw inside (
            room_for
              (count_span-le-live limit from t taken (leb→le t (from + window limit) inside)))
      | inr beyond ↦ rw beyond ground arith
    ]
  where
    room_for :
        count_span limit from taken ≤ length (live limit t taken)
        → (if ltb from t && true then 1 else 0) + count_span limit from taken ≤ limit.max_events
    room_for h = ground arith

Remembers-allowed :
    (limit : Limit) (now t : ℕ) (ts taken : List ℕ)
    → now ≤ t
    → Remembers limit now ts taken
    → Remembers limit t (live limit t ts ++ t ∷ []) (t ∷ taken)
unfolding live
Remembers-allowed limit now t ts taken h r later after =
    let same = r later (omega arith) in
    let step = live-append limit later t (live limit t ts) in
    let old = ap length (live-live limit t later ts after) in ground (arith, same, step, old)

Remembers-refused :
    (limit : Limit) (now t : ℕ) (ts taken : List ℕ)
    → now ≤ t
    → Remembers limit now ts taken
    → Remembers limit t (live limit t ts) taken
Remembers-refused limit now t ts taken h r later after =
    ap length (live-live limit t later ts after) ∙ r later (omega arith)

let_through-refuse :
    (limit : Limit) (o : Option ℕ) (now : ℕ) (taken : List ℕ)
    → let_through (refuse limit o now) now taken ≡ taken
unfolding refuse
let_through-refuse limit none now taken = refl
let_through-refuse limit (some o) now taken = refl

take_time-full :
    (limit : Limit) (now : ℕ) (ts : List ℕ)
    → leb limit.max_events (length (live limit now ts)) ≡ true
    → take_time limit now ts ≡ (refuse limit (oldest (live limit now ts)) now, live limit now ts)
unfolding take_time
take_time-full limit now ts h = rw h refl

take_time-room :
    (limit : Limit) (now : ℕ) (ts : List ℕ)
    → leb limit.max_events (length (live limit now ts)) ≡ false
    → take_time limit now ts ≡ (allowed, live limit now ts ++ now ∷ [])
unfolding take_time
take_time-room limit now ts h = rw h refl

run_takes-full :
    (limit : Limit) (t : ℕ) (clock ts taken : List ℕ)
    → leb limit.max_events (length (live limit t ts)) ≡ true
    → run_takes limit (t ∷ clock) ts taken ≡ run_takes limit clock (live limit t ts) taken
unfolding run_takes
run_takes-full limit t clock ts taken h =
    ap (λ (out : Decision × List ℕ). run_takes limit clock out.1 (let_through out.0 t taken))
      (take_time-full limit t ts h)
    ∙ ap (λ x. run_takes limit clock (live limit t ts) x)
        (let_through-refuse limit (oldest (live limit t ts)) t taken)

run_takes-room :
    (limit : Limit) (t : ℕ) (clock ts taken : List ℕ)
    → leb limit.max_events (length (live limit t ts)) ≡ false
    → run_takes limit (t ∷ clock) ts taken
      ≡ run_takes limit clock (live limit t ts ++ t ∷ []) (t ∷ taken)
unfolding run_takes
run_takes-room limit t clock ts taken h =
    ap (λ (out : Decision × List ℕ). run_takes limit clock out.1 (let_through out.0 t taken))
      (take_time-room limit t ts h)

run_takes_bound_from :
    (limit : Limit) (clock : List ℕ) (now : ℕ) (ts taken : List ℕ) (from : ℕ)
    → Rising now clock
    → Remembers limit now ts taken
    → ((from : ℕ) → count_span limit from taken ≤ limit.max_events)
    → count_span limit from (run_takes limit clock ts taken).1 ≤ limit.max_events
unfolding run_takes
run_takes_bound_from limit [] now ts taken from rising r bound = bound from
run_takes_bound_from limit (t ∷ clock) now ts taken from (le, rising) r bound =
    elim (Bool-cases (leb limit.max_events (length (live limit t ts)))) [
      | inr room ↦ rw (run_takes-room limit t clock ts taken room) (
          run_takes_bound_from limit clock t (live limit t ts ++ t ∷ []) (t ∷ taken) from rising
            (Remembers-allowed limit now t ts taken le r)
            (λ f. count_span-room limit f t ts taken (r t le) room (bound f)))
      | inl full ↦ rw (run_takes-full limit t clock ts taken full) (
          run_takes_bound_from limit clock t (live limit t ts) taken from rising
            (Remembers-refused limit now t ts taken le r) bound)
    ]

-- In any run on a clock that never goes back, from an empty counter, no span of one window length
-- holds more attempts that were let through than the limit.
pub run_takes_bound :
    (limit : Limit) (clock : List ℕ) (from : ℕ)
    → Rising 0 clock
    → count_span limit from (run_takes limit clock [] []).1 ≤ limit.max_events
run_takes_bound limit clock from rising =
    run_takes_bound_from limit clock 0 [] [] from rising (λ later h. refl) (λ f. omega arith)

-- What is live later is no more than what there is.
length-live-le :
    (limit : Limit) (later : ℕ) (ts : List ℕ) → length (live limit later ts) ≤ length ts
unfolding live
length-live-le limit later [] = omega arith
length-live-le limit later (t ∷ ts) = ground (arith, length-live-le limit later ts)

-- The oldest time of a counter leaves the window first.
fewer-live :
    (limit : Limit) (later : ℕ) (ts : List ℕ) (o : ℕ)
    → oldest ts ≡ some o
    → o + window limit ≤ later
    → length (live limit later ts) < length ts
unfolding oldest live
fewer-live limit later [] o e h = cc
fewer-live limit later (t ∷ ts) o e h = elim (Option-cases (oldest ts)) [
  | inl none_left ↦
      (let f = rw none_left at e in ground (arith, length-live-le limit later ts, some-eq t o f))
  | inr (b, found) ↦
      (let f = rw found at e in
        elim (Bool-cases (leb t b)) [
          | inl first ↦
              (let g = rw first at f in
                ground (arith, length-live-le limit later ts, some-eq t o g))
          | inr later_one ↦
              (let g = rw later_one at f in
                ground (arith, fewer-live limit later ts b found (omega (arith, some-eq b o g, h))))
        ])
]
  where
    some-eq : (a b : ℕ) → Path (Option ℕ) (some a) (some b) → a ≡ b
    some-eq a b q = cc

-- The announced wait reaches past the moment when the oldest counted attempt leaves the window.
oldest-le-wait :
    (span now o wait : ℕ)
    → refused (ceil_seconds (o + span - now)) ≡ refused wait
    → o + span ≤ now + wait * 1000000
oldest-le-wait span now o wait e = let f = wait-eq e in ground arith
  where
    wait-eq : {a b : ℕ} → refused a ≡ refused b → a ≡ b
    wait-eq h = cc

not_leb : (a b : ℕ) → b < a → leb a b ≡ false
not_leb a b h = ground arith

oldest-none : (ts : List ℕ) → oldest ts ≡ none → length ts ≡ 0
unfolding oldest
oldest-none [] h = refl
oldest-none (t ∷ ts) h = absurd (go (oldest ts) h)
  where
    go : (o : Option ℕ) → earlier t o ≡ none → ⊥
    go none e = cc
    go (some b) e = cc

-- The counter lets an attempt through once the announced wait has passed.
pub take_time_after_wait :
    (limit : Limit) (now wait later : ℕ) (ts kept : List ℕ)
    → 0 < limit.max_events
    → length ts ≤ limit.max_events
    → take_time limit now ts ≡ (refused wait, kept)
    → now + wait * 1000000 ≤ later
    → (take_time limit later kept).0 ≡ allowed
unfolding refuse
take_time_after_wait limit now wait later ts kept some_allowed fits e passed =
    elim (Bool-cases (leb limit.max_events (length (live limit now ts)))) [
      | inr room ↦ absurd (
          not_refused (
            sym (ap (λ (o : Decision × List ℕ). o.0) (take_time-room limit now ts room))
            ∙ ap (λ (o : Decision × List ℕ). o.0) e))
      | inl full ↦
          let out = sym (take_time-full limit now ts full) ∙ e in
          let same : live limit now ts ≡ kept = ap (λ (o : Decision × List ℕ). o.1) out in
          let answer : refuse limit (oldest (live limit now ts)) now ≡ refused wait =
            ap (λ (o : Decision × List ℕ). o.0) out in
          elim (Option-cases (oldest (live limit now ts))) [
            | inl nothing ↦ absurd (
                let empty = oldest-none (live limit now ts) nothing in
                let reached = leb→le limit.max_events (length (live limit now ts)) full in
                omega arith)
            | inr (o, found) ↦
                let gone : o + window limit ≤ later = omega (
                  arith,
                  passed,
                  oldest-le-wait (window limit) now o wait
                      (ap (λ x. refuse limit x now) (sym found) ∙ answer),
                ) in
                let fewer = fewer-live limit later (live limit now ts) o found gone in
                let room : leb limit.max_events (length (live limit later (live limit now ts)))
                    ≡ false =
                  not_leb limit.max_events (length (live limit later (live limit now ts)))
                    (omega (arith, fewer, length-live-le limit now ts)) in
                ap (λ k. (take_time limit later k).0) (sym same)
                ∙ ap (λ (out : Decision × List ℕ). out.0)
                    (take_time-room limit later (live limit now ts) room)
          ]
    ]
  where
    not_refused : allowed ≡ refused wait → ⊥
    not_refused h = cc
