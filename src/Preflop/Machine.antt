-- ===== src/Preflop/Machine.antt =====
-- preflop_history.py: the six positions, the parsed actions and the class `_MutableState`.
use ranges.Prelude.{
  ℕ, ◌+◌, ◌-◌, ◌*◌, Bool, true, false, not, ◌&&◌, List, [], ◌∷◌, ◌++◌, Option, none, some, ltb, leb,
  ◌==◌, if◌then◌else◌, length, filter, Result, ok, err, raise_if, ◌>>=◌, ◌>>◌, update, add,
  empty_set, sum_over, is_empty,
}

-- `POSITIONS`, each by its index: UTG, HJ, CO, BTN, SB, BB.
abbrev pub positions : List ℕ
positions = 0 ∷ 1 ∷ 2 ∷ 3 ∷ 4 ∷ 5 ∷ []

abbrev pub small_blind_position : ℕ
small_blind_position = 4

abbrev pub big_blind_position : ℕ
big_blind_position = 5

-- Half a big blind, in the unit of the amounts.
abbrev pub half_bb : ℕ
half_bb = 500000000000000000000000000

abbrev pub one_bb : ℕ
one_bb = 2 * half_bb

-- `ParsedAction`, by its kind; a percentage is in the same unit.
pub data ParsedAction : Type 0 where
  fold check call all_in : ParsedAction
  raise_by : ℕ → ParsedAction

-- The errors of the state, of the histories and of an observed table.
pub data HistoryError : Type 0 where
  stack_too_small acts_out_of_order raise_too_low raise_beyond_stack below_minimum : HistoryError
  after_the_end wrong_actor fold_for_free check_facing_bet above_highest call_beyond_stack :
      HistoryError
  already_all_in wrong_next_actor not_finished wrong_decision_actor : HistoryError
  folded_and_surviving folded_and_all_in : HistoryError

abbrev pub Checked : Type 0 → Type 0
Checked A = Result HistoryError A

-- The fields of `_MutableState`.
pub record MutableState : Type 0 where
  pub stack : ℕ
  pub contributions : ℕ → ℕ
  pub folded : ℕ → Bool
  pub all_in_set : ℕ → Bool
  pub pending : List ℕ
  pub highest : ℕ
  pub last_full_raise : ℕ
  pub terminal : Bool

abbrev pub blinds : ℕ → ℕ
blinds = update (update (λ x. 0) small_blind_position half_bb) big_blind_position one_bb

unfoldable pub new_state : ℕ → Checked MutableState
new_state stack = do
  raise_if (ltb stack one_bb) stack_too_small
  ok (record {
    stack = stack;
    contributions = blinds;
    folded = empty_set;
    all_in_set = empty_set;
    pending = positions;
    highest = one_bb;
    last_full_raise = one_bb;
    terminal = false;
  })

-- `POSITIONS[index + 1 :] + POSITIONS[:index]`
unfoldable pub behind : ℕ → List ℕ → List ℕ → List ℕ
behind actor [] before = before
behind actor (p ∷ ps) before =
    if p == actor then ps ++ before else behind actor ps (before ++ p ∷ [])

unfoldable pub seat_order_after : ℕ → (ℕ → Bool) → List ℕ
unfolding behind
seat_order_after actor eligible = filter eligible (behind actor positions [])

-- The property `actor`.
unfoldable pub acting : List ℕ → Bool → Option ℕ
acting [] terminal = none
acting (p ∷ ps) terminal = if terminal then none else some p

unfoldable pub actor : MutableState → Option ℕ
unfolding acting
actor r = acting r.pending r.terminal

-- `_remove_pending_actor`
unfoldable pub remove_pending_actor : ℕ → List ℕ → Checked (List ℕ)
remove_pending_actor actor [] = err acts_out_of_order
remove_pending_actor actor (p ∷ ps) = if p == actor then ok ps else err acts_out_of_order

abbrev pub live : MutableState → ℕ → Bool
live r x = not (r.folded x)

-- `_after_action`
unfoldable pub after_action : MutableState → MutableState
after_action r =
    let pending = filter (λ x. not (r.folded x) && not (r.all_in_set x)) r.pending in
    if leb (length (filter (live r) positions)) 1
    then record r { pending = []; terminal = true }
    else record r { pending = pending; terminal = if is_empty pending then true else r.terminal }

-- `_raise`
unfoldable pub raise_to : ℕ → ℕ → Bool → MutableState → Checked MutableState
unfolding seat_order_after
raise_to seat target is_all_in r = do
  let raise_size = target - r.highest
  let all_in_now = if is_all_in then add seat r.all_in_set else r.all_in_set
  raise_if (leb target r.highest) raise_too_low
  raise_if (ltb r.stack target) raise_beyond_stack
  raise_if (not is_all_in && ltb raise_size r.last_full_raise) below_minimum
  ok (record r {
    contributions = update r.contributions seat target;
    highest = target;
    last_full_raise = if leb r.last_full_raise raise_size then raise_size else r.last_full_raise;
    all_in_set = all_in_now;
    pending =
        seat_order_after seat (λ x. not (r.folded x) && not (all_in_now x) && not (x == seat));
  })

-- The actor pays up to an amount, and leaves the queue.
abbrev pub paid : ℕ → ℕ → Bool → List ℕ → MutableState → MutableState
paid seat target is_all_in rest r = record r {
  contributions = update r.contributions seat target;
  all_in_set = if is_all_in then add seat r.all_in_set else r.all_in_set;
  pending = rest;
}

unfoldable pub apply_fold : ℕ → MutableState → Checked MutableState
apply_fold seat r = do
  raise_if (leb r.highest (r.contributions seat)) fold_for_free
  rest ← remove_pending_actor seat r.pending
  ok (record r { pending = rest; folded = add seat r.folded })

unfoldable pub apply_check : ℕ → MutableState → Checked MutableState
apply_check seat r = do
  raise_if (not (r.contributions seat == r.highest)) check_facing_bet
  rest ← remove_pending_actor seat r.pending
  ok (record r { pending = rest })

unfoldable pub apply_call : ℕ → MutableState → Checked MutableState
apply_call seat r = do
  raise_if (ltb r.highest (r.contributions seat)) above_highest
  raise_if (ltb (r.contributions seat) r.highest && ltb r.stack r.highest) call_beyond_stack
  rest ← remove_pending_actor seat r.pending
  ok (
      if ltb (r.contributions seat) r.highest
      then paid seat r.highest (r.highest == r.stack) rest r
      else record r { pending = rest })

-- The stack does not exceed the high bet.
abbrev pub all_in_call : ℕ → MutableState → Checked MutableState
all_in_call seat r = do
  rest ← remove_pending_actor seat r.pending
  ok (paid seat r.stack true rest r)

unfoldable pub apply_all_in : ℕ → MutableState → Checked MutableState
apply_all_in seat r = do
  raise_if (leb r.stack (r.contributions seat)) already_all_in
  if leb r.stack r.highest then all_in_call seat r else raise_to seat r.stack true r

-- The test of `apply` that it is the actor who acts.
abbrev pub acts : ℕ → Option ℕ → Bool
acts seat none = false
acts seat (some p) = p == seat

-- `share_of pot size` is the decimal `pot * size / 100`, rounded as the context of `decimal` rounds.
module _ (share_of : ℕ → ℕ → ℕ) where
  unfoldable pub apply_raise : ℕ → ℕ → MutableState → Checked MutableState
  apply_raise seat size_pct r = do
    raise_if (ltb r.highest (r.contributions seat)) above_highest
    let call_amount = r.highest - r.contributions seat
    let pot_after_call = sum_over positions r.contributions + call_amount
    raise_to seat (r.highest + share_of pot_after_call size_pct) false r

  -- The branches of `apply` on the parsed label.
  unfoldable pub by_kind : ℕ → ParsedAction → MutableState → Checked MutableState
  by_kind seat fold r = apply_fold seat r
  by_kind seat check r = apply_check seat r
  by_kind seat call r = apply_call seat r
  by_kind seat all_in r = apply_all_in seat r
  by_kind seat (raise_by size_pct) r = apply_raise seat size_pct r

  unfoldable pub apply : ℕ → ParsedAction → MutableState → Checked MutableState
  apply seat action r = do
    raise_if r.terminal after_the_end
    raise_if (not (acts seat (actor r))) wrong_actor
    acted ← by_kind seat action r
    ok (after_action acted)
