-- ===== src/Hand/Invariant.antt =====
-- The invariant of `_Replay`, and `_normalize_round`, which restores its part about the queue.
use mathlib.Core.Path.{subst}
use ranges.Prelude.{
  ℕ, ◌+◌, ◌≤◌, ◌<◌, ◌≡◌, refl, Bool, true, false, List, [], ◌∷◌, ◌==◌, leb, ◌&&◌, not, arith,
  length, filter, is_empty, elem, Distinct, Distinct-filter, elem-filter, inl, inr, Bool-cases,
}
use ranges.Hand.Header.{Table}
use ranges.Hand.Actions.{is_street}
use ranges.Hand.Machine.{
  Replay, eligible, live, normalize_round, settle, with_pending, closed_round,
}

-- At least two players have not folded.
abbrev pub contested : Table → Replay → Bool
contested t r = not (leb (length (filter (live t r) t.ordered_seats)) 1)

-- The chips and the raises: what holds between any two steps of the code.
pub record HasChips (t : Table) (stacks remaining total street : ℕ → ℕ) (all_in : ℕ → Bool)
    (highest last_full_raise : ℕ) : Type 0 where
  -- What a seat has and has put in is its starting stack.
  pub conserved : (x : ℕ) → remaining x + total x ≡ stacks x
  -- Nobody has put in more than the high bet.
  pub capped : (x : ℕ) → elem x t.ordered_seats ≡ true → street x ≤ highest
  -- A player is all-in exactly when nothing is left.
  pub broke : (x : ℕ) → elem x t.ordered_seats ≡ true → all_in x ≡ (remaining x == 0)
  -- What was put in on this street is part of what was put in.
  pub on_street : (x : ℕ) → street x ≤ total x
  -- A minimum raise is never below the big blind.
  pub raise_floor : t.big_blind ≤ last_full_raise

abbrev pub Chips : Table → (ℕ → ℕ) → Replay → Type 0
Chips t stacks r =
    HasChips t stacks r.remaining r.total_contribution r.street_contribution r.all_in r.highest
      r.last_full_raise

-- The queue before it is normalized.
pub record HasQueue (t : Table) (r : Replay) : Type 0 where
  pub distinct : Distinct r.pending
  -- Who can act and is not queued has matched the high bet.
  pub matched :
      (x : ℕ)
      → eligible t r x ≡ true
      → elem x r.pending ≡ false
      → contested t r ≡ true
      → r.street_contribution x ≡ r.highest
  -- Who is queued again after acting faces a wager.
  pub reopened :
      (x : ℕ)
      → elem x r.pending ≡ true
      → r.acted_since_full_raise x ≡ true
      → r.street_contribution x < r.highest

-- The invariant between events.
pub record IsSound (t : Table) (stacks : ℕ → ℕ) (r : Replay) : Type 0 where
  pub chips : Chips t stacks r
  pub queue : HasQueue t r
  -- Who is queued sits at the table, has not folded and has chips.
  pub queued : (x : ℕ) → elem x r.pending ≡ true → eligible t r x ≡ true
  -- The round is closed exactly when nobody is queued.
  pub closes : r.round_closed ≡ is_empty r.pending
  pub ended : r.terminal ≡ true → r.round_closed ≡ true
  pub known : is_street r.street ≡ true

module _ (t : Table) (stacks : ℕ → ℕ) (r : Replay) where
  -- The last player who can act and has matched closes the round.
  only_one :
      (only x : ℕ)
      → filter (eligible t r) t.ordered_seats ≡ only ∷ []
      → eligible t r x ≡ true
      → x ≡ only
  only_one only x e h =
      let listed : elem x (only ∷ []) ≡ (elem x t.ordered_seats && eligible t r x) =
        subst (λ l. elem x l ≡ (elem x t.ordered_seats && eligible t r x)) e
          (elem-filter (eligible t r) x t.ordered_seats) in
      ground arith

  nobody : (x : ℕ) → filter (eligible t r) t.ordered_seats ≡ [] → eligible t r x ≡ true → ⊥
  nobody x e h =
      let listed : elem x [] ≡ (elem x t.ordered_seats && eligible t r x) =
        subst (λ l. elem x l ≡ (elem x t.ordered_seats && eligible t r x)) e
          (elem-filter (eligible t r) x t.ordered_seats) in
      ground arith

  module _ (c : Chips t stacks r) where
    module _ (q : HasQueue t r) (opened : r.round_closed ≡ false) (going : r.terminal ≡ false)
        (known : is_street r.street ≡ true) where
      with_pending-IsSound : IsSound t stacks (with_pending (filter (eligible t r) r.pending) r)
      with_pending-IsSound = record {
        chips = c;
        queue = record {
          distinct = Distinct-filter (eligible t r) r.pending q.distinct;
          matched = λ x a b k. ground (arith, elem-filter (eligible t r) x r.pending, q.matched x);
          reopened = λ x a b. ground (arith, elem-filter (eligible t r) x r.pending, q.reopened x);
        };
        queued = λ x a. ground (arith, elem-filter (eligible t r) x r.pending);
        closes = ground arith;
        ended = λ e. ground arith;
        known = known;
      }

      closed_round-IsSound :
          ((x : ℕ)
            → eligible t r x ≡ true
            → contested t r ≡ true
            → r.street_contribution x ≡ r.highest)
          → IsSound t stacks (closed_round r)
      closed_round-IsSound all = record {
        chips = c;
        queue = record { distinct = tt; matched = λ x a b k. all x a k; reopened = λ x a b. cc };
        queued = λ x a. cc;
        closes = refl;
        ended = λ e. refl;
        known = known;
      }

      settle-IsSound :
          (able : List ℕ)
          → filter (eligible t r) t.ordered_seats ≡ able
          → IsSound t stacks (settle able (filter (eligible t r) r.pending) r)
      unfolding settle
      settle-IsSound [] e = closed_round-IsSound (λ x h _. absurd (nobody x e h))
      settle-IsSound (only ∷ []) e =
          elim (Bool-cases (leb r.highest (r.street_contribution only))) [
            | inl met ↦
                rw met
                  (closed_round-IsSound (λ x h _. ground (arith, only_one only x e h, c.capped x)))
            | inr short ↦ rw short with_pending-IsSound
          ]
      settle-IsSound (a ∷ b ∷ rest) e = with_pending-IsSound

      pub normalize_round-IsSound : IsSound t stacks (normalize_round t r)
      unfolding normalize_round
      normalize_round-IsSound =
          elim (Bool-cases (leb (length (filter (live t r) t.ordered_seats)) 1)) [
            | inl alone ↦ rw alone (record {
              chips = c;
              queue = record {
                distinct = tt;
                matched = λ x a b k. ground arith;
                reopened = λ x a b. cc;
              };
              queued = λ x a. cc;
              closes = refl;
              ended = λ e. refl;
              known = known;
            })
            | inr more ↦ rw more (settle-IsSound _ refl)
          ]
