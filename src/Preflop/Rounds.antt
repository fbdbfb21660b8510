-- ===== src/Preflop/Rounds.antt =====
-- preflop_history.py: the invariant of `_MutableState`, for stacks that are all the same size.
use mathlib.Core.Path.{subst}
use ranges.Prelude.{
  ℕ, ◌-◌, ◌≤◌, ◌<◌, ◌≡◌, refl, ap, ◌∙◌, Bool, true, false, not, ◌&&◌, List, [], ◌∷◌, arith, leb,
  ◌==◌, if◌then◌else◌, length, filter, ok, ◌>>=◌, update, add, elem, Distinct, empty_set, is_empty,
  Bool-cases, inl, inr, Distinct-filter, elem-filter,
}
use ranges.Preflop.Machine.{
  MutableState, positions, seat_order_after, after_action, raise_to, live, blinds, one_bb,
  new_state,
}
use ranges.Preflop.Queue.{
  elem-seat_order_after, seat_order_after-Distinct, only_member, seat_order_after-eligible,
}

-- No position has put in more than the high bet, nor the high bet is more than a stack; who waits to
-- act sits at the table and is neither folded nor all-in; who is all-in has put in the stack; who is
-- live and not waiting has matched the high bet; someone live has made it; and nobody waits in a
-- round that has ended.
pub record IsSound (r : MutableState) : Type 0 where
  pub capped : (x : ℕ) → r.contributions x ≤ r.highest
  pub roof : r.highest ≤ r.stack
  pub queued :
      (x : ℕ)
      → elem x r.pending ≡ true
      → (elem x positions ≡ true) × (r.folded x ≡ false) × (r.all_in_set x ≡ false)
  pub distinct : Distinct r.pending
  pub ended : r.terminal ≡ true → r.pending ≡ []
  pub committed : (x : ℕ) → r.all_in_set x ≡ true → r.contributions x ≡ r.stack
  pub matched :
      (x : ℕ)
      → elem x positions ≡ true
      → r.folded x ≡ false
      → elem x r.pending ≡ false
      → r.contributions x ≡ r.highest
  pub leader :
      (x : ℕ) × (elem x positions ≡ true) × (r.folded x ≡ false) × (r.contributions x ≡ r.highest)

abbrev starting : ℕ → MutableState
starting stack = record {
  stack = stack;
  contributions = blinds;
  folded = empty_set;
  all_in_set = empty_set;
  pending = positions;
  highest = one_bb;
  last_full_raise = one_bb;
  terminal = false;
}

starting-IsSound : (stack : ℕ) → one_bb ≤ stack → IsSound (starting stack)
starting-IsSound stack h = record {
  capped = λ x. ground arith;
  roof = h;
  queued = λ x m. (m, refl, refl);
  ended = λ t. absurd (cc);
  distinct = (refl, (refl, (refl, (refl, (refl, (refl, tt))))));
  committed = λ x a. absurd (cc);
  matched = λ x m f n. absurd (cc);
  leader = (5, refl, refl, refl);
}

starting-eq :
    (stack : ℕ) (r : MutableState)
    → new_state stack ≡ ok r
    → (one_bb ≤ stack) × (starting stack ≡ r)
unfolding new_state ◌>>=◌
starting-eq stack r h = ground arith

pub new_state-IsSound : (stack : ℕ) (r : MutableState) → new_state stack ≡ ok r → IsSound r
new_state-IsSound stack r h =
    subst IsSound (starting-eq stack r h).1 (starting-IsSound stack (starting-eq stack r h).0)

-- One player left, or the queue without those who cannot act.
alone-IsSound :
    (r : MutableState)
    → IsSound r
    → length (filter (live r) positions) ≤ 1
    → IsSound (record r { pending = []; terminal = true })
alone-IsSound r s l =
    let (w, table, held, made) = s.leader in
    record {
      capped = s.capped;
      roof = s.roof;
      queued = λ x m. absurd (cc);
      ended = λ t. refl;
      distinct = tt;
      committed = s.committed;
      matched = λ x m f n.
          ap r.contributions (only_member (live r) positions x w l m (ap not f) table (ap not held))
          ∙ made;
      leader = s.leader;
    }

no_items : (xs : List ℕ) → is_empty xs ≡ true → xs ≡ []
no_items [] h = refl
no_items (x ∷ xs) h = absurd (cc)

filtered-IsSound :
    (r : MutableState) (b : Bool)
    → IsSound r
    → (b ≡ true
        → is_empty (filter (λ x. not (r.folded x) && not (r.all_in_set x)) r.pending) ≡ true)
    → IsSound (record r {
      pending = filter (λ x. not (r.folded x) && not (r.all_in_set x)) r.pending;
      terminal = b;
    })
filtered-IsSound r b s t =
    let can_act : ℕ → Bool = λ x. not (r.folded x) && not (r.all_in_set x) in
    record {
      capped = s.capped;
      roof = s.roof;
      queued = λ x m. s.queued x (ground (arith, m, elem-filter can_act x r.pending));
      ended = λ u. no_items _ (t u);
      distinct = Distinct-filter can_act r.pending s.distinct;
      committed = s.committed;
      matched = λ x m f n.
          s.matched x m f (ground (arith, n, elem-filter can_act x r.pending, s.queued x, f));
      leader = s.leader;
    }

ended_filter :
    (r : MutableState)
    → IsSound r
    → (if is_empty (filter (λ x. not (r.folded x) && not (r.all_in_set x)) r.pending)
        then true
        else r.terminal)
      ≡ true
    → is_empty (filter (λ x. not (r.folded x) && not (r.all_in_set x)) r.pending) ≡ true
ended_filter r s t = elim (Bool-cases r.terminal) [
  | inl e ↦
      ap (λ (xs : List ℕ). is_empty (filter (λ x. not (r.folded x) && not (r.all_in_set x)) xs))
        (s.ended e)
  | inr n ↦ ground arith
]

pub after_action-IsSound : (r : MutableState) → IsSound r → IsSound (after_action r)
unfolding after_action
after_action-IsSound r s = elim (Bool-cases (leb (length (filter (live r) positions)) 1)) [
  | inl l ↦ subst IsSound (ground arith) (alone-IsSound r s (ground arith))
  | inr n ↦ subst IsSound (ground arith) (
      filtered-IsSound r
        (if is_empty (filter (λ x. not (r.folded x) && not (r.all_in_set x)) r.pending)
          then true
          else r.terminal)
        s (λ t. ended_filter r s t))
]

abbrev pub raised : ℕ → ℕ → Bool → MutableState → MutableState
raised seat target is_all_in r =
    let raise_size = target - r.highest in
    let all_in_now = if is_all_in then add seat r.all_in_set else r.all_in_set in
    record r {
      contributions = update r.contributions seat target;
      highest = target;
      last_full_raise = if leb r.last_full_raise raise_size then raise_size else r.last_full_raise;
      all_in_set = all_in_now;
      pending =
          seat_order_after seat (λ x. not (r.folded x) && not (all_in_now x) && not (x == seat));
    }

pub raise_to-eq :
    (seat target : ℕ) (is_all_in : Bool) (r q : MutableState)
    → raise_to seat target is_all_in r ≡ ok q
    → (r.highest < target) × (target ≤ r.stack) × (raised seat target is_all_in r ≡ q)
unfolding raise_to ◌>>=◌
raise_to-eq seat target is_all_in r q h = ground arith

pub raised-IsSound :
    (seat target : ℕ) (is_all_in : Bool) (r : MutableState)
    → IsSound r
    → elem seat positions ≡ true
    → r.folded seat ≡ false
    → r.terminal ≡ false
    → (is_all_in ≡ true → target ≡ r.stack)
    → r.highest < target
    → target ≤ r.stack
    → IsSound (raised seat target is_all_in r)
raised-IsSound seat target is_all_in r s m f g a l h =
    let all_in_now : ℕ → Bool = if is_all_in then add seat r.all_in_set else r.all_in_set in
    let eligible : ℕ → Bool = λ x. not (r.folded x) && not (all_in_now x) && not (x == seat) in
    record {
      capped = λ x. ground (arith, s.capped x);
      roof = h;
      queued = λ x q.
          let e = seat_order_after-eligible x seat eligible q in
          (
            ground (arith, e, q, elem-seat_order_after x seat eligible m),
            ground (arith, e),
            ground (arith, e),
          );
      ended = λ t. absurd (cc);
      distinct = seat_order_after-Distinct seat eligible;
      committed = λ x e. ground (arith, s.committed x, s.capped x);
      matched = λ x p held q.
          ground (arith, elem-seat_order_after x seat eligible m, s.committed x, s.capped x);
      leader = (seat, m, f, ground arith);
    }
