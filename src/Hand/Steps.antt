-- ===== src/Hand/Steps.antt =====
-- Every kind of action keeps the invariant, or is refused with no failed assertion.
use ranges.Prelude.{
  ℕ, ◌+◌, ◌-◌, ◌≤◌, ◌<◌, ◌≡◌, refl, min, true, false, List, ◌∷◌, leb, ltb, Option, none, some,
  ◌>>=◌, arith, elem, Distinct, add, ok, err, Bool-cases, inl, inr,
}
use ranges.Hand.Types.{Kind, Number, over_bound, max_abs_bb}
use ranges.Hand.Header.{Table}
use ranges.Hand.Machine.{
  Replay, eligible, normalize_round, passive_complete, pop_actor, full_aggression, pay_to,
}
use ranges.Hand.Actions.{
  is_street, amount_to, apply_fold, apply_check, apply_call, apply_bet_to, apply_raise_to,
  apply_all_in_to, all_in_call, all_in_over, all_in_raise, by_kind,
}
use ranges.Hand.Invariant.{Chips, HasQueue, IsSound, normalize_round-IsSound}
use ranges.Hand.Turns.{
  passed, passed-HasQueue, full_aggression-IsSound, short_all_in_aggression-IsSound,
}
use ranges.Hand.Ensures.{Ensures, returns, refuses, Ensures-bind, Ensures-raise_if, Ensures-if}
use ranges.Hand.Pay.{paid, pay_to-eq-paid, paid-Chips}

pub passive_complete-ok :
    (t : Table) (seat : ℕ) (rest : List ℕ) (r : Replay)
    → r.pending ≡ seat ∷ rest
    → passive_complete t seat r ≡ ok (normalize_round t (passed seat rest r))
unfolding passive_complete pop_actor ◌>>=◌
passive_complete-ok t seat rest r e = rw e (ground arith)

module _ (t : Table) (stacks : ℕ → ℕ) (d : Distinct t.ordered_seats) (seat : ℕ) (rest : List ℕ)
    (r : Replay) (s : IsSound t stacks r) (e : r.pending ≡ seat ∷ rest)
    (opened : r.round_closed ≡ false) (going : r.terminal ≡ false) where
  able : eligible t r seat ≡ true
  able = s.queued seat (ground (arith, e))

  passive-Ensures :
      (r' : Replay)
      → r'.pending ≡ seat ∷ rest
      → Chips t stacks r'
      → HasQueue t (passed seat rest r')
      → r'.round_closed ≡ false
      → r'.terminal ≡ false
      → is_street r'.street ≡ true
      → Ensures (IsSound t stacks) (passive_complete t seat r')
  passive-Ensures r' p c q o g k =
      rw (passive_complete-ok t seat rest r' p)
        (returns (normalize_round-IsSound t stacks (passed seat rest r') c q o g k))

  fold-Ensures :
      (facing : ℕ) (amount : Option Number)
      → Ensures (IsSound t stacks) (apply_fold t seat facing amount r)
  unfolding apply_fold
  fold-Ensures facing amount = Ensures-raise_if _ _ _ refl λ _. Ensures-raise_if _ _ _ refl λ _.
      passive-Ensures (record r { folded = add seat r.folded }) e s.chips
        (passed-HasQueue t stacks seat rest r (record r { folded = add seat r.folded }) e s.queue
          (λ x o h. ground arith) (λ x h. ground arith) (λ x o. refl) refl refl (λ h. ground arith))
        opened going s.known

  check-Ensures :
      (facing : ℕ) (amount : Option Number)
      → facing ≡ r.highest - r.street_contribution seat
      → Ensures (IsSound t stacks) (apply_check t seat facing amount r)
  unfolding apply_check
  check-Ensures facing amount f = Ensures-raise_if _ _ _ refl λ _. Ensures-raise_if _ _ _ refl λ z.
      passive-Ensures r e s.chips
        (passed-HasQueue t stacks seat rest r r e s.queue (λ x o h. h) (λ x h. h) (λ x o. refl) refl
          refl (λ h. ground (arith, s.chips.capped seat)))
        opened going s.known

  paid-Ensures :
      (target : ℕ)
      → target ≡ min r.highest (r.street_contribution seat + r.remaining seat)
      → Ensures (IsSound t stacks) (pay_to seat target r >>= λ r'. passive_complete t seat r')
  unfolding ◌>>=◌
  paid-Ensures target f =
      let up : r.street_contribution seat ≤ target = ground (arith, s.chips.capped seat, able) in
      let fits : target ≤ r.street_contribution seat + r.remaining seat = omega arith in
      rw (pay_to-eq-paid seat target r up fits) (
        passive-Ensures (paid seat target r) e
          (paid-Chips seat target r up fits t stacks r.highest r.last_full_raise s.chips
            (omega arith) (omega arith) s.chips.raise_floor)
          (passed-HasQueue t stacks seat rest r (paid seat target r) e s.queue
            (λ x o h. ground arith) (λ x h. h) (λ x o. ground arith) refl refl (λ h. ground arith))
          opened going s.known)

  amount_to-Ensures : (amount : Option Number) → Ensures (λ _. Unit {0}) (amount_to amount)
  unfolding amount_to
  amount_to-Ensures none = refuses refl
  amount_to-Ensures (some Number.inexact) = refuses refl
  amount_to-Ensures (some Number.malformed) = refuses refl
  amount_to-Ensures (some Number.infinite) = refuses refl
  amount_to-Ensures (some (Number.below_zero n)) = refuses refl
  amount_to-Ensures (some (Number.exact n)) =
      Ensures-if (ltb max_abs_bb n) (err over_bound) (ok n) (λ _. refuses refl) (λ _. returns tt)

  call-Ensures :
      (facing : ℕ) (amount : Option Number)
      → Ensures (IsSound t stacks) (apply_call t seat facing amount r)
  unfolding apply_call
  call-Ensures facing amount = Ensures-bind _ _ (amount_to-Ensures amount) λ target _ _.
      Ensures-raise_if _ _ _ refl
        λ _. Ensures-raise_if _ _ _ refl λ same. paid-Ensures target (ground arith)

  module _ (target raise_size : ℕ) (up : r.highest < target)
      (fits : target ≤ r.street_contribution seat + r.remaining seat) where
    over : r.street_contribution seat ≤ target
    over = ground (arith, s.chips.capped seat, able)

    raised-Chips : Chips t stacks (record (paid seat target r) { highest = target })
    raised-Chips =
        paid-Chips seat target r over fits t stacks target r.last_full_raise s.chips (omega arith)
          (omega arith) s.chips.raise_floor

    aggression-Ensures :
        t.big_blind ≤ raise_size
        → Ensures (IsSound t stacks) (
            pay_to seat target r >>= λ r'.
            ok (full_aggression t seat raise_size (record r' { highest = target })))
    unfolding ◌>>=◌
    aggression-Ensures h = rw (pay_to-eq-paid seat target r over fits) (
        returns (
          full_aggression-IsSound t stacks seat (record (paid seat target r) { highest = target }) d
            (ground (arith, able)) (ground arith) raised-Chips opened going s.known raise_size h))

  bet_to-Ensures :
      (facing : ℕ) (amount : Option Number)
      → Ensures (IsSound t stacks) (apply_bet_to t seat facing amount r)
  unfolding apply_bet_to
  bet_to-Ensures facing amount = Ensures-bind _ _ (amount_to-Ensures amount) λ target _ _.
      Ensures-raise_if _ _ _ refl λ a. Ensures-raise_if _ _ _ refl λ b.
        Ensures-raise_if _ _ _ refl
          λ c. aggression-Ensures target target (ground arith) (ground arith) (ground arith)

  raise_to-Ensures :
      (facing : ℕ) (amount : Option Number)
      → Ensures (IsSound t stacks) (apply_raise_to t seat facing amount r)
  unfolding apply_raise_to
  raise_to-Ensures facing amount = Ensures-bind _ _ (amount_to-Ensures amount) λ target _ _.
      Ensures-raise_if _ _ _ refl λ a. Ensures-raise_if _ _ _ refl λ b.
        Ensures-raise_if _ _ _ refl λ c. Ensures-raise_if _ _ _ refl λ f.
          aggression-Ensures target (target - r.highest) (ground arith) (ground arith)
            (ground (arith, s.chips.raise_floor))

  all_in_raise-Ensures :
      (target : ℕ)
      → r.highest < target
      → target ≤ r.street_contribution seat + r.remaining seat
      → Ensures (IsSound t stacks) (all_in_raise t seat target r)
  unfolding all_in_raise ◌>>=◌
  all_in_raise-Ensures target up fits =
      let r' : Replay = record (paid seat target r) { highest = target } in
      let c : Chips t stacks r' = raised-Chips target (target - r.highest) up fits in
      let m : elem seat t.ordered_seats ≡ true = ground (arith, able) in
      let met : r'.street_contribution seat ≡ r'.highest = ground arith in
      rw (pay_to-eq-paid seat target r (over target (target - r.highest) up fits) fits) (
        returns (elim (Bool-cases (leb r.last_full_raise (target - r.highest))) [
          | inl full ↦ rw full (
              full_aggression-IsSound t stacks seat r' d m met c opened going s.known
                (target - r.highest) (ground (arith, s.chips.raise_floor)))
          | inr short ↦
              rw short
                (short_all_in_aggression-IsSound t stacks seat r' d m met c opened going s.known)
        ]))

  all_in_over-Ensures :
      (target : ℕ)
      → r.highest < target
      → target ≡ r.street_contribution seat + r.remaining seat
      → Ensures (IsSound t stacks) (all_in_over t seat target r)
  unfolding all_in_over
  all_in_over-Ensures target up f =
      Ensures-raise_if _ _ _ refl λ a. all_in_raise-Ensures target up (omega arith)

  all_in_to-Ensures :
      (facing : ℕ) (amount : Option Number)
      → Ensures (IsSound t stacks) (apply_all_in_to t seat facing amount r)
  unfolding apply_all_in_to
  all_in_to-Ensures facing amount = Ensures-bind _ _ (amount_to-Ensures amount) λ target _ _.
      Ensures-raise_if _ _ _ refl λ a. Ensures-raise_if _ _ _ refl λ b.
        Ensures-if (leb target r.highest) (all_in_call t seat target r)
          (all_in_over t seat target r)
          (λ c. Ensures-raise_if _ _ _ refl λ f. paid-Ensures target (ground arith))
          (λ c. all_in_over-Ensures target (ground arith) (ground arith))

  pub by_kind-Ensures :
      (kind : Kind) (amount : Option Number)
      → Ensures
          (IsSound t stacks)
          (by_kind kind t seat (r.highest - r.street_contribution seat) amount r)
  unfolding by_kind
  by_kind-Ensures Kind.fold amount = fold-Ensures _ amount
  by_kind-Ensures Kind.check amount = check-Ensures _ amount refl
  by_kind-Ensures Kind.call amount = call-Ensures _ amount
  by_kind-Ensures Kind.bet_to amount = bet_to-Ensures _ amount
  by_kind-Ensures Kind.raise_to amount = raise_to-Ensures _ amount
  by_kind-Ensures Kind.all_in_to amount = all_in_to-Ensures _ amount
  by_kind-Ensures _ amount = Ensures-bind _ _ (amount_to-Ensures amount) (λ _ _ _. refuses refl)
