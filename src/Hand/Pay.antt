-- ===== src/Hand/Pay.antt =====
-- `_pay_to` keeps the chips: what leaves the stack is on the table.
use ranges.Prelude.{ℕ, ◌+◌, ◌-◌, ◌≤◌, ◌≡◌, ◌==◌, if◌then◌else◌, arith, update, add, ok, ◌>>=◌}
use ranges.Hand.Header.{Table}
use ranges.Hand.Machine.{Replay, pay_to}
use ranges.Hand.Invariant.{Chips}

-- The state behind a payment that is covered.
abbrev pub paid : ℕ → ℕ → Replay → Replay
paid seat target r =
    let delta = target - r.street_contribution seat in
    record r {
      remaining = update r.remaining seat (r.remaining seat - delta);
      street_contribution = update r.street_contribution seat target;
      total_contribution = update r.total_contribution seat (r.total_contribution seat + delta);
      all_in = if r.remaining seat - delta == 0 then add seat r.all_in else r.all_in;
    }

module _ (seat target : ℕ) (r : Replay) (up : r.street_contribution seat ≤ target)
    (fits : target ≤ r.street_contribution seat + r.remaining seat) where
  pub pay_to-eq-paid : pay_to seat target r ≡ ok (paid seat target r)
  unfolding pay_to ◌>>=◌
  pay_to-eq-paid = ground arith

  pub paid-Chips :
      (t : Table) (stacks : ℕ → ℕ) (high raise : ℕ)
      → Chips t stacks r
      → target ≤ high
      → r.highest ≤ high
      → t.big_blind ≤ raise
      → Chips t stacks (record (paid seat target r) { highest = high; last_full_raise = raise })
  paid-Chips t stacks high raise c a b k = record {
    conserved = λ x. ground (arith, c.conserved x);
    capped = λ x h. ground (arith, c.capped x h);
    broke = λ x h. ground (arith, c.broke x h);
    on_street = λ x. ground (arith, c.on_street x);
    raise_floor = k;
  }
