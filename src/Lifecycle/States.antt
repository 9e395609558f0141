-- ===== src/Lifecycle/States.antt =====
-- `LEGAL`, `next_state` and `assert_transition`.
use apichain_backend.Base.{
  ℕ, ◌≡◌, Bool, true, false, ◌||◌, Option, none, some, arith, leb, if◌then◌else◌,
}
use apichain_backend.Base.Result.{Result, ok, err}
use apichain_backend.Access.Errors.{Refusal, invalid_transition}

pub data BatchState : Type 0 where
  created harvested processed lab_verified packaged distributed : BatchState

abbrev pub same_state : BatchState → BatchState → Bool
same_state created created = true
same_state harvested harvested = true
same_state processed processed = true
same_state lab_verified lab_verified = true
same_state packaged packaged = true
same_state distributed distributed = true
same_state _ _ = false

-- `LEGAL.get(current)`; `DISTRIBUTED` is terminal.
unfoldable pub next_state : BatchState → Option BatchState
next_state created = some harvested
next_state harvested = some processed
next_state processed = some lab_verified
next_state lab_verified = some packaged
next_state packaged = some distributed
next_state distributed = none

unfoldable pub assert_transition : BatchState → BatchState → Result Refusal (Unit {0})
unfolding next_state
assert_transition current target = elim (next_state current) [
  | none ↦ err invalid_transition
  | some next ↦ if same_state next target then ok tt else err invalid_transition
]

-- How many steps a state is from the first.
abbrev pub rank : BatchState → ℕ
rank created = 0
rank harvested = 1
rank processed = 2
rank lab_verified = 3
rank packaged = 4
rank distributed = 5

pub same_state-eq : (s t : BatchState) → same_state s t ≡ true → s ≡ t
same_state-eq s t h = ground arith

pub same_state_refl : (s : BatchState) → same_state s s ≡ true
same_state_refl s = ground arith

-- An accepted transition is the one legal step.
pub next_state_of_assert_transition :
    (current target : BatchState)
    → assert_transition current target ≡ ok tt
    → next_state current ≡ some target
unfolding assert_transition
next_state_of_assert_transition current target h = ground arith

-- Whether a batch in state `s` has the record of stage `t`; the first state has none.
abbrev pub is_reached : BatchState → BatchState → Bool
is_reached s created = false
is_reached s t = leb (rank t) (rank s)

-- One step adds one stage record and takes none away.
pub is_reached-next_state :
    (s u t : BatchState)
    → next_state s ≡ some u
    → is_reached u t ≡ (same_state u t || is_reached s t)
unfolding next_state
is_reached-next_state s u t h = ground arith

pub not_reached_next : (s u : BatchState) → next_state s ≡ some u → is_reached s u ≡ false
unfolding next_state
not_reached_next s u h = ground arith

pub assert_transition_refusal :
    (current target : BatchState) (e : Refusal)
    → assert_transition current target ≡ err e
    → e ≡ invalid_transition
unfolding assert_transition
assert_transition_refusal current target e h = ground arith
