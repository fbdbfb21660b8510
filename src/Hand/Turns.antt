-- ===== src/Hand/Turns.antt =====
-- What each way to end a turn does to the queue: `_passive_complete`, `_full_aggression` and
-- `_short_all_in_aggression` lead to a sound state.
use mathlib.Core.Path.{subst, sym, ap}
use ranges.Prelude.{
  ℕ, ◌≤◌, ◌≡◌, Bool, true, false, List, ◌∷◌, ◌==◌, ltb, ◌&&◌, not, arith, elem, Distinct, add,
  empty_set, length-filter_mono, Bool-cases, inl, inr, ==_iff,
}
use ranges.Hand.Header.{Table}
use ranges.Hand.Actions.{is_street}
use ranges.Hand.Seating.{ordered_after}
use ranges.Hand.Order.{elem-ordered_after, Distinct-ordered_after}
use ranges.Hand.Machine.{Replay, eligible, live, full_aggression, short_all_in_aggression}
use ranges.Hand.Invariant.{Chips, HasQueue, IsSound, contested, normalize_round-IsSound}

-- The state behind a fold, check or call: `seat` leaves the queue.
abbrev pub passed : ℕ → List ℕ → Replay → Replay
passed seat rest r = record r {
  acted_since_full_raise = add seat r.acted_since_full_raise;
  pending = rest;
}

module _ (t : Table) (stacks : ℕ → ℕ) (seat : ℕ) (rest : List ℕ) (old r : Replay) where
  contested_mono :
      ((x : ℕ) → live t r x ≡ true → live t old x ≡ true)
      → contested t r ≡ true
      → contested t old ≡ true
  contested_mono alive k =
      ground (arith, length-filter_mono (live t r) (live t old) t.ordered_seats alive)

  -- `r` is `old` after the fold, check or call of the first player in the queue.
  pub passed-HasQueue :
      old.pending ≡ seat ∷ rest
      → HasQueue t old
      → ((x : ℕ) → (x == seat) ≡ false → eligible t r x ≡ true → eligible t old x ≡ true)
      → ((x : ℕ) → live t r x ≡ true → live t old x ≡ true)
      → ((x : ℕ) → (x == seat) ≡ false → r.street_contribution x ≡ old.street_contribution x)
      → r.highest ≡ old.highest
      → r.acted_since_full_raise ≡ old.acted_since_full_raise
      → (eligible t r seat ≡ true → r.street_contribution seat ≡ r.highest)
      → HasQueue t (passed seat rest r)
  passed-HasQueue e q able alive same high acts met =
      let d : Distinct (seat ∷ rest) = subst Distinct e q.distinct in
      record {
        distinct = d.1;
        matched = λ x a b k. elim (Bool-cases (x == seat)) [
          | inl at ↦
              let here : x ≡ seat = (==_iff x seat).0 at in
              subst (λ y. eligible t r y ≡ true → r.street_contribution y ≡ r.highest) (sym here)
                met a
          | inr off ↦
              ground (arith, e, same x off, q.matched x (able x off a), contested_mono alive k)
        ];
        reopened = λ x a b. elim (Bool-cases (x == seat)) [
          | inl at ↦ ground (arith, d.0)
          | inr off ↦ ground (arith, e, same x off, q.reopened x, ap (λ s. s x) acts)
        ];
      }

-- A bet or raise: everybody else who can act is queued, and only the aggressor has acted.
abbrev pub reopened_by : Table → ℕ → ℕ → Replay → Replay
reopened_by t seat raise_size r = record r {
  last_full_raise = raise_size;
  acted_since_full_raise = add seat empty_set;
  pending = ordered_after t.ordered_seats seat (λ x. eligible t r x && not (x == seat));
}

-- An all-in short of a full raise: those who face more chips are queued.
abbrev pub queued_behind : Table → ℕ → Replay → Replay
queued_behind t seat r = record r {
  acted_since_full_raise = add seat r.acted_since_full_raise;
  pending =
      ordered_after t.ordered_seats seat
        (λ x. eligible t r x && not (x == seat) && ltb (r.street_contribution x) r.highest);
}

module _ (t : Table) (stacks : ℕ → ℕ) (seat : ℕ) (r : Replay) (d : Distinct t.ordered_seats)
    (m : elem seat t.ordered_seats ≡ true) (met : r.street_contribution seat ≡ r.highest) where
  reopened_by-HasQueue : (raise_size : ℕ) → HasQueue t (reopened_by t seat raise_size r)
  reopened_by-HasQueue raise_size =
      let cands : ℕ → Bool = λ x. eligible t r x && not (x == seat) in
      record {
        distinct = Distinct-ordered_after t.ordered_seats seat d m cands;
        matched = λ x a b k. ground (arith, elem-ordered_after t.ordered_seats seat d m cands x);
        reopened = λ x a b. ground (arith, elem-ordered_after t.ordered_seats seat d m cands x);
      }

  queued_behind-HasQueue : Chips t stacks r → HasQueue t (queued_behind t seat r)
  queued_behind-HasQueue c =
      let cands : ℕ → Bool =
        λ x. eligible t r x && not (x == seat) && ltb (r.street_contribution x) r.highest in
      record {
        distinct = Distinct-ordered_after t.ordered_seats seat d m cands;
        matched = λ x a b k.
            ground (arith, elem-ordered_after t.ordered_seats seat d m cands x, c.capped x);
        reopened = λ x a b. ground (arith, elem-ordered_after t.ordered_seats seat d m cands x);
      }

  module _ (c : Chips t stacks r) (opened : r.round_closed ≡ false) (going : r.terminal ≡ false)
      (known : is_street r.street ≡ true) where
    pub full_aggression-IsSound :
        (raise_size : ℕ)
        → t.big_blind ≤ raise_size
        → IsSound t stacks (full_aggression t seat raise_size r)
    unfolding full_aggression
    full_aggression-IsSound raise_size h =
        normalize_round-IsSound t stacks (reopened_by t seat raise_size r)
          (record {
            conserved = c.conserved;
            capped = c.capped;
            broke = c.broke;
            on_street = c.on_street;
            raise_floor = h;
          })
          (reopened_by-HasQueue raise_size) opened going known

    pub short_all_in_aggression-IsSound : IsSound t stacks (short_all_in_aggression t seat r)
    unfolding short_all_in_aggression
    short_all_in_aggression-IsSound =
        normalize_round-IsSound t stacks (queued_behind t seat r) c (queued_behind-HasQueue c)
          opened going known
