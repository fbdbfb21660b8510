-- ===== src/Hand/Start.antt =====
-- `_Replay.__init__`: the forced bets and the first queue give a sound state.
use ranges.Prelude.{
  ℕ, ◌+◌, ◌≤◌, ◌<◌, ◌≡◌, refl, Bool, true, false, List, [], ◌∷◌, ◌==◌, if◌then◌else◌, arith, elem,
  Distinct, le-max_over, max_over, Bool-cases, inl, inr,
}
use ranges.Hand.Header.{Table}
use ranges.Hand.Actions.{is_street}
use ranges.Hand.Seating.{next_seat, blind_seats, ordered_after}
use ranges.Hand.Order.{elem-ordered_after, Distinct-ordered_after, next_seat-elem}
use ranges.Hand.Machine.{
  Replay, normalize_round, eligible, commit_delta, post_antes, post_forced_bets,
}
use ranges.Hand.Run.{before_blinds, initial}
use ranges.Hand.Invariant.{IsSound, normalize_round-IsSound}

-- What holds while the forced bets are posted.
record IsPosting (t : Table) (stacks : ℕ → ℕ) (r : Replay) : Type 0 where
  conserved : (x : ℕ) → r.remaining x + r.total_contribution x ≡ stacks x
  broke : (x : ℕ) → elem x t.ordered_seats ≡ true → r.all_in x ≡ (r.remaining x == 0)
  on_street : (x : ℕ) → r.street_contribution x ≤ r.total_contribution x
  raise_floor : r.last_full_raise ≡ t.big_blind
  acted : (x : ℕ) → r.acted_since_full_raise x ≡ false
  opened : r.round_closed ≡ false
  going : r.terminal ≡ false
  known : is_street r.street ≡ true

commit_delta-IsPosting :
    (t : Table) (stacks : ℕ → ℕ) (r : Replay) (seat amount : ℕ) (live_on_street : Bool)
    → IsPosting t stacks r
    → IsPosting t stacks (commit_delta seat amount live_on_street r)
unfolding commit_delta
commit_delta-IsPosting t stacks r seat amount live_on_street p = record {
  conserved = λ x. ground (arith, p.conserved x);
  broke = λ x h. ground (arith, p.broke x h);
  on_street = λ x. ground (arith, p.on_street x);
  raise_floor = p.raise_floor;
  acted = p.acted;
  opened = p.opened;
  going = p.going;
  known = p.known;
}

post_antes-IsPosting :
    (t : Table) (stacks : ℕ → ℕ) (ante : ℕ) (seats : List ℕ) (r : Replay)
    → IsPosting t stacks r
    → IsPosting t stacks (post_antes ante seats r)
unfolding post_antes
post_antes-IsPosting t stacks ante [] r p = p
post_antes-IsPosting t stacks ante (seat ∷ rest) r p =
    post_antes-IsPosting t stacks ante rest (commit_delta seat ante false r)
      (commit_delta-IsPosting t stacks r seat ante false p)

-- Both blinds are posted by players at the table.
pub blind_seats-elem :
    (seats : List ℕ) (button : ℕ)
    → Distinct seats
    → elem button seats ≡ true
    → (elem (blind_seats seats button).0 seats ≡ true)
      × (elem (blind_seats seats button).1 seats ≡ true)
unfolding blind_seats
blind_seats-elem seats button d m =
    let n = next_seat-elem seats button d m in
    let n' = next_seat-elem seats (next_seat seats button) d n in ground arith

module _ (t : Table) (stacks : ℕ → ℕ) (d : Distinct t.ordered_seats)
    (button : elem t.button_seat t.ordered_seats ≡ true)
    (funded : (x : ℕ) → elem x t.ordered_seats ≡ true → 0 < stacks x) where
  before_blinds-IsPosting : IsPosting t stacks (before_blinds t stacks)
  before_blinds-IsPosting = record {
    conserved = λ x. omega arith;
    broke = λ x h. ground (arith, funded x h);
    on_street = λ x. omega arith;
    raise_floor = refl;
    acted = λ x. refl;
    opened = refl;
    going = refl;
    known = refl;
  }

  anted : Replay
  anted =
      if t.ante == 0
      then before_blinds t stacks
      else post_antes t.ante t.ordered_seats (before_blinds t stacks)

  anted-IsPosting : IsPosting t stacks anted
  unfolding anted
  anted-IsPosting = elim (Bool-cases (t.ante == 0)) [
    | inl free ↦ rw free before_blinds-IsPosting
    | inr due ↦
        rw due (post_antes-IsPosting t stacks t.ante t.ordered_seats _ before_blinds-IsPosting)
  ]

  -- From the posted blinds, the queue behind the big blind is sound.
  start-IsSound :
      (r : Replay) (big : ℕ)
      → IsPosting t stacks r
      → elem big t.ordered_seats ≡ true
      → IsSound t stacks (
          normalize_round t (record r {
            highest = max_over t.ordered_seats r.street_contribution;
            pending = ordered_after t.ordered_seats big (eligible t r);
          }))
  start-IsSound r big p m =
      normalize_round-IsSound t stacks
        (record r {
          highest = max_over t.ordered_seats r.street_contribution;
          pending = ordered_after t.ordered_seats big (eligible t r);
        })
        (record {
          conserved = p.conserved;
          capped = λ x h. le-max_over x t.ordered_seats r.street_contribution h;
          broke = p.broke;
          on_street = p.on_street;
          raise_floor = omega (arith, p.raise_floor);
        })
        (record {
          distinct = Distinct-ordered_after t.ordered_seats big d m (eligible t r);
          matched = λ x a b k.
              ground (arith, elem-ordered_after t.ordered_seats big d m (eligible t r) x);
          reopened = λ x a b. ground (arith, p.acted x);
        })
        p.opened p.going p.known

  pub initial-IsSound : IsSound t stacks (initial t stacks)
  unfolding initial post_forced_bets anted
  initial-IsSound =
      let (small, big) = blind_seats t.ordered_seats t.button_seat in
      start-IsSound
        (commit_delta big t.big_blind true (commit_delta small t.small_blind true anted)) big
        (commit_delta-IsPosting t stacks _ big t.big_blind true
          (commit_delta-IsPosting t stacks anted small t.small_blind true anted-IsPosting))
        (blind_seats-elem t.ordered_seats t.button_seat d button).1
