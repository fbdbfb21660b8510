-- ===== src/Hand/Machine.antt =====
-- gto_hand_history.py: the mutable state of `_Replay`, the forced bets, the end of a betting round,
-- and the queue of players to act after each kind of action.
use ranges.Prelude.{
  ℕ, ◌+◌, ◌-◌, min, Bool, true, false, List, [], ◌∷◌, Option, none, some, String, ltb, leb, ◌==◌,
  ◌&&◌, not, if◌then◌else◌, ok, err, raise_if, ◌>>=◌, ◌>>◌, length, elem, filter, is_empty, update,
  add, empty_set, max_over,
}
use ranges.Hand.Types.{Checked, Street, below_current, above_stack, assertion_pending}
use ranges.Hand.Header.{Table}
use ranges.Hand.Seating.{blind_seats, ordered_after}

-- The fields of `_Replay` that events change. Dictionaries and sets are read at occupied seats only.
pub record Replay : Type 0 where
  pub remaining : ℕ → ℕ
  pub street_contribution : ℕ → ℕ
  pub total_contribution : ℕ → ℕ
  pub folded : ℕ → Bool
  pub all_in : ℕ → Bool
  pub board : List String
  pub street : Street
  pub highest : ℕ
  pub last_full_raise : ℕ
  pub acted_since_full_raise : ℕ → Bool
  pub pending : List ℕ
  pub round_closed : Bool
  pub terminal : Bool

-- A call that mutates the state, or raises.
abbrev pub Action : Type 0
Action = Replay → Checked Replay

-- `seat in self._eligible()` and `seat in self._live()`
abbrev pub eligible : Table → Replay → ℕ → Bool
eligible t r x = elem x t.ordered_seats && not (r.folded x) && not (r.all_in x)

abbrev pub live : Table → Replay → ℕ → Bool
live t r x = elem x t.ordered_seats && not (r.folded x)

unfoldable pub commit_delta : ℕ → ℕ → Bool → Replay → Replay
commit_delta seat amount live_on_street r =
    let paid = min amount (r.remaining seat) in
    record r {
      remaining = update r.remaining seat (r.remaining seat - paid);
      street_contribution =
          if live_on_street
          then update r.street_contribution seat (r.street_contribution seat + paid)
          else r.street_contribution;
      total_contribution = update r.total_contribution seat (r.total_contribution seat + paid);
      all_in = if r.remaining seat - paid == 0 then add seat r.all_in else r.all_in;
    }

unfoldable pub post_antes : ℕ → List ℕ → Replay → Replay
post_antes ante [] r = r
post_antes ante (seat ∷ rest) r = post_antes ante rest (commit_delta seat ante false r)

unfoldable pub post_forced_bets : Table → Replay → Replay
post_forced_bets t r =
    let (small, big) = blind_seats t.ordered_seats t.button_seat in
    let anted = if t.ante == 0 then r else post_antes t.ante t.ordered_seats r in
    let blinds = commit_delta big t.big_blind true (commit_delta small t.small_blind true anted) in
    record blinds { highest = max_over t.ordered_seats blinds.street_contribution }

-- The end of `_normalize_round`: an empty queue closes the round.
abbrev pub with_pending : List ℕ → Replay → Replay
with_pending pending r = record r {
  pending = pending;
  round_closed = if is_empty pending then true else r.round_closed;
}

abbrev pub closed_round : Replay → Replay
closed_round r = record r { pending = []; round_closed = true }

-- `_normalize_round`, by the players who can still act.
unfoldable pub settle : List ℕ → List ℕ → Replay → Replay
settle [] pending r = closed_round r
settle (only ∷ []) pending r =
    if leb r.highest (r.street_contribution only) then closed_round r else with_pending pending r
settle (a ∷ b ∷ rest) pending r = with_pending pending r

unfoldable pub normalize_round : Table → Replay → Replay
normalize_round t r =
    if leb (length (filter (live t r) t.ordered_seats)) 1
    then record r { pending = []; round_closed = true; terminal = true }
    else settle (filter (eligible t r) t.ordered_seats) (filter (eligible t r) r.pending) r

-- The property `actor`.
unfoldable pub first : List ℕ → Option ℕ
first [] = none
first (x ∷ xs) = some x

unfoldable pub actor : Replay → Option ℕ
unfolding first
actor r = if r.round_closed then none else first r.pending

-- `self.pending.pop(0)` behind its assertion.
unfoldable pub pop_actor : ℕ → List ℕ → Checked (List ℕ)
pop_actor seat [] = err assertion_pending
pop_actor seat (x ∷ xs) = if x == seat then ok xs else err assertion_pending

unfoldable pub passive_complete : Table → ℕ → Action
passive_complete t seat r = do
  rest ← pop_actor seat r.pending
  ok (
      normalize_round t
        (record r { acted_since_full_raise = add seat r.acted_since_full_raise; pending = rest }))

unfoldable pub full_aggression : Table → ℕ → ℕ → Replay → Replay
full_aggression t seat raise_size r = normalize_round t (record r {
  last_full_raise = raise_size;
  acted_since_full_raise = add seat empty_set;
  pending = ordered_after t.ordered_seats seat (λ x. eligible t r x && not (x == seat));
})

unfoldable pub short_all_in_aggression : Table → ℕ → Replay → Replay
short_all_in_aggression t seat r = normalize_round t (record r {
  acted_since_full_raise = add seat r.acted_since_full_raise;
  pending =
      ordered_after t.ordered_seats seat
        (λ x. eligible t r x && not (x == seat) && ltb (r.street_contribution x) r.highest);
})

unfoldable pub pay_to : ℕ → ℕ → Action
pay_to seat target r = do
  let current = r.street_contribution seat
  raise_if (ltb target current) below_current
  raise_if (ltb (r.remaining seat) (target - current)) above_stack
  ok (record r {
    remaining = update r.remaining seat (r.remaining seat - (target - current));
    street_contribution = update r.street_contribution seat target;
    total_contribution =
        update r.total_contribution seat (r.total_contribution seat + (target - current));
    all_in = if r.remaining seat - (target - current) == 0 then add seat r.all_in else r.all_in;
  })
