-- ===== src/Hand/Legal.antt =====
-- `_legal_actions` lists exactly the kinds of action that `_apply_action` accepts for some amount.
use ranges.Prelude.{
  ℕ, ◌+◌, ◌-◌, ◌≤◌, ◌<◌, ◌≡◌, ◌∙◌, min, Bool, true, false, List, [], ◌∷◌, ◌||◌, Option, none, some,
  ◌>>=◌, arith, add, elem, ok, is_ok, ◌↔◌,
}
use ranges.Hand.Types.{
  Kind, fold, check, call, bet_to, raise_to, all_in_to, Number, exact, max_abs_bb,
}
use ranges.Hand.Header.{Table}
use ranges.Hand.Machine.{Replay, passive_complete, pay_to}
use ranges.Hand.Actions.{
  amount_to, by_kind, apply_fold, apply_check, apply_call, apply_bet_to, apply_raise_to,
  apply_all_in_to, all_in_raise,
}
use ranges.Hand.View.{legal_for, minimum_for}
use ranges.Hand.Invariant.{IsSound}
use ranges.Hand.Pay.{paid, pay_to-eq-paid}
use ranges.Hand.Steps.{passive_complete-ok}

abbrev pub same_kind : Kind → Kind → Bool
same_kind fold fold = true
same_kind check check = true
same_kind call call = true
same_kind bet_to bet_to = true
same_kind raise_to raise_to = true
same_kind all_in_to all_in_to = true
same_kind _ _ = false

-- `kind in legal`
abbrev pub lists : Kind → List Kind → Bool
lists k [] = false
lists k (x ∷ xs) = same_kind k x || lists k xs

-- `_apply_action` accepts the kind with the amount.
abbrev pub accepts : Table → Replay → ℕ → Kind → Option Number → Bool
accepts t r seat kind amount =
    is_ok (by_kind kind t seat (r.highest - r.street_contribution seat) amount r)

-- Some bet or raise of the amount is accepted.
abbrev pub raises : Table → Replay → ℕ → ℕ → Bool
raises t r seat target =
    accepts t r seat bet_to (some (exact target)) || accepts t r seat raise_to (some (exact target))

-- `least` is the least amount that passes the test, or no amount passes.
abbrev pub IsLeast : (ℕ → Bool) → Option ℕ → Type 0
IsLeast p none = (n : ℕ) → p n ≡ false
IsLeast p (some m) = (p m ≡ true) × ((n : ℕ) → n < m → p n ≡ false)

pub IsLeast-congr :
    (p q : ℕ → Bool) (least : Option ℕ) → ((n : ℕ) → p n ≡ q n) → IsLeast q least → IsLeast p least
IsLeast-congr p q none same l = λ n. same n ∙ l n
IsLeast-congr p q (some m) same l = (same m ∙ l.0, λ n lt. same n ∙ l.1 n lt)

amount_to-exact : (n : ℕ) → n ≤ max_abs_bb → amount_to (some (exact n)) ≡ ok n
unfolding amount_to
amount_to-exact n h = ground arith

module _ (t : Table) (stacks : ℕ → ℕ) (seat : ℕ) (rest : List ℕ) (r : Replay)
    (s : IsSound t stacks r) (e : r.pending ≡ seat ∷ rest) (bound : stacks seat ≤ max_abs_bb) where
  -- The actor's facts that the proofs use.
  abbrev Facts : Type 0
  Facts =
      (r.street_contribution seat ≤ r.highest)
      × (0 < r.remaining seat)
      × (r.street_contribution seat + r.remaining seat ≤ max_abs_bb)
      × (r.acted_since_full_raise seat ≡ true → r.street_contribution seat < r.highest)

  facts : Facts
  facts =
      let m : elem seat r.pending ≡ true = ground (arith, e) in
      ground (
        arith,
        m,
        s.queued seat m,
        s.chips.capped seat,
        s.chips.broke seat,
        s.chips.conserved seat,
        s.chips.on_street seat,
        s.queue.reopened seat m,
      )

  passes : (r' : Replay) → r'.pending ≡ seat ∷ rest → is_ok (passive_complete t seat r') ≡ true
  passes r' p = rw (passive_complete-ok t seat rest r' p)

  -- The action is listed exactly if some amount is accepted.
  abbrev IsExact : Kind → Type 0
  IsExact kind =
      (lists kind (legal_for seat t r) ≡ true)
      ↔ ((amount : Option Number) × (accepts t r seat kind amount ≡ true))

  fold-IsExact : IsExact fold
  unfolding legal_for by_kind apply_fold ◌>>=◌
  fold-IsExact = (
    λ h. (none, ground (arith, passes (record r { folded = add seat r.folded }) e)),
    λ p. ground (arith, p.1),
  )

  check-IsExact : IsExact check
  unfolding legal_for by_kind apply_check ◌>>=◌
  check-IsExact = (λ h. (none, ground (arith, passes r e)), λ p. ground (arith, p.1))

  module _ (target : ℕ) (up : r.street_contribution seat ≤ target)
      (fits : target ≤ r.street_contribution seat + r.remaining seat) where
    pays : pay_to seat target r ≡ ok (paid seat target r)
    pays = pay_to-eq-paid seat target r up fits

    reads : amount_to (some (exact target)) ≡ ok target
    reads = amount_to-exact target (ground (arith, facts))

    pays_and_passes : is_ok (pay_to seat target r >>= λ r'. passive_complete t seat r') ≡ true
    unfolding ◌>>=◌
    pays_and_passes = rw pays (passes (paid seat target r) e)

  call-IsExact : IsExact call
  unfolding legal_for by_kind apply_call ◌>>=◌
  call-IsExact = (
    λ h.
        let target : ℕ = min r.highest (r.street_contribution seat + r.remaining seat) in
        let up : r.street_contribution seat ≤ target = omega (arith, facts) in
        let fits : target ≤ r.street_contribution seat + r.remaining seat = omega arith in
        (
          some (exact target),
          rw (reads target up fits) (ground (arith, facts, pays_and_passes target up fits)),
        ),
    λ p. ground (arith, p.1, facts),
  )

  bet_to-IsExact : IsExact bet_to
  unfolding legal_for by_kind apply_bet_to ◌>>=◌
  bet_to-IsExact = (
    λ h.
        let target : ℕ = r.street_contribution seat + r.remaining seat in
        let up : r.street_contribution seat ≤ target = omega arith in
        let fits : target ≤ target = omega arith in
        (
          some (exact target),
          rw (reads target up fits) (ground (arith, facts, pays target up fits)),
        ),
    λ p. ground (arith, p.1, facts),
  )

  raise_to-IsExact : IsExact raise_to
  unfolding legal_for by_kind apply_raise_to ◌>>=◌
  raise_to-IsExact = (
    λ h.
        let target : ℕ = r.street_contribution seat + r.remaining seat in
        let up : r.street_contribution seat ≤ target = omega arith in
        let fits : target ≤ target = omega arith in
        (
          some (exact target),
          rw (reads target up fits) (ground (arith, facts, pays target up fits)),
        ),
    λ p. ground (arith, p.1, facts),
  )

  all_in_to-IsExact : IsExact all_in_to
  unfolding legal_for by_kind apply_all_in_to all_in_raise ◌>>=◌
  all_in_to-IsExact = (
    λ h.
        let target : ℕ = r.street_contribution seat + r.remaining seat in
        let up : r.street_contribution seat ≤ target = omega arith in
        let fits : target ≤ target = omega arith in
        (
          some (exact target),
          rw (reads target up fits)
              (ground (arith, facts, pays target up fits, passes (paid seat target r) e)),
        ),
    λ p. ground (arith, p.1, facts),
  )

  -- For every kind: listed exactly if accepted with some amount.
  pub legal_for-IsExact : (kind : Kind) → IsExact kind
  unfolding legal_for by_kind ◌>>=◌
  legal_for-IsExact fold = fold-IsExact
  legal_for-IsExact check = check-IsExact
  legal_for-IsExact call = call-IsExact
  legal_for-IsExact bet_to = bet_to-IsExact
  legal_for-IsExact raise_to = raise_to-IsExact
  legal_for-IsExact all_in_to = all_in_to-IsExact
  legal_for-IsExact _ = (λ h. absurd (ground arith), λ p. ground (arith, p.1))

  minimum_for_least :
      (m target : ℕ) → minimum_for seat t r ≡ some m → target < m → raises t r seat target ≡ false
  unfolding minimum_for by_kind apply_bet_to apply_raise_to amount_to ◌>>=◌
  minimum_for_least m target h lt = ground (arith, facts, s.chips.raise_floor)

  minimum_for_accepted :
      (m : ℕ) → 0 < t.big_blind → minimum_for seat t r ≡ some m → raises t r seat m ≡ true
  unfolding minimum_for by_kind apply_bet_to apply_raise_to ◌>>=◌
  minimum_for_accepted m blind h =
      let up : r.street_contribution seat ≤ m = ground (arith, facts, s.chips.raise_floor) in
      let fits : m ≤ r.street_contribution seat + r.remaining seat = ground arith in
      rw (reads m up fits) (ground (arith, facts, s.chips.raise_floor, pays m up fits))

  minimum_for-none : (target : ℕ) → minimum_for seat t r ≡ none → raises t r seat target ≡ false
  unfolding minimum_for by_kind apply_bet_to apply_raise_to amount_to ◌>>=◌
  minimum_for-none target h = ground (arith, facts, s.chips.raise_floor)

  -- The minimum that the state shows is the least bet or raise that is accepted.
  pub minimum_for-IsLeast :
      (least : Option ℕ)
      → 0 < t.big_blind
      → minimum_for seat t r ≡ least
      → IsLeast (raises t r seat) least
  minimum_for-IsLeast none blind h = λ n. minimum_for-none n h
  minimum_for-IsLeast (some m) blind h =
      (minimum_for_accepted m blind h, λ n lt. minimum_for_least m n h lt)
