-- ===== src/Preflop/Histories.antt =====
-- preflop_history.py: what a simulated history tells of the betting.
use mathlib.Core.Path.{subst}
use ranges.Prelude.{
  ℕ, ◌≤◌, ◌≡◌, refl, ap, ◌∙◌, Bool, true, false, not, ◌&&◌, List, [], ◌∷◌, Option, none, some,
  arith, ok, raise_if, ◌>>=◌, elem, >>=-eq-ok, is_ok,
}
use ranges.Preflop.Machine.{
  MutableState, positions, by_kind, apply, acts, actor, acting, ParsedAction, call, new_state,
  wrong_next_actor, wrong_actor, after_the_end,
}
use ranges.Preflop.Rounds.{IsSound, after_action-IsSound, new_state-IsSound}
use ranges.Preflop.Keeps.{by_kind-IsSound, apply_call-eq}
use ranges.Preflop.Run.{
  ActionStep, ParsedHistory, PreflopPublicState, freeze, apply_steps, simulate_history, same_actor,
  expected_actor,
}

-- The one who acts is the first in the queue.
acts-eq :
    (seat : ℕ) (queue : List ℕ) (terminal : Bool)
    → acts seat (acting queue terminal) ≡ true
    → (rest : List ℕ) × (queue ≡ seat ∷ rest) × (terminal ≡ false)
unfolding acting
acts-eq seat [] terminal h = absurd (cc)
acts-eq seat (p ∷ ps) true h = absurd (cc)
acts-eq seat (p ∷ ps) false h = (ps, ground arith, refl)

module _ (share_of : ℕ → ℕ → ℕ) where
  apply-IsSound :
      (seat : ℕ) (action : ParsedAction) (r q : MutableState)
      → IsSound r
      → apply share_of seat action r ≡ ok q
      → IsSound q
  unfolding apply actor ◌>>=◌
  apply-IsSound seat action r q s h =
      let (_, p, h1) = >>=-eq-ok (raise_if r.terminal after_the_end) _ h in
      let (_, p2, h2) = >>=-eq-ok (raise_if (not (acts seat (actor r))) wrong_actor) _ h1 in
      let (acted, k, l) = >>=-eq-ok (by_kind share_of seat action r) _ h2 in
      let (rest, e, t) = acts-eq seat r.pending r.terminal (ground (arith, p2)) in
      subst IsSound (ground (arith, l))
        (after_action-IsSound acted (by_kind-IsSound seat rest r e s share_of action acted k))

  apply_steps-IsSound :
      (completed : Bool) (decision_actor : Option ℕ) (steps : List ActionStep) (r q : MutableState)
      → IsSound r
      → apply_steps share_of completed decision_actor steps r ≡ ok q
      → IsSound q
  unfolding apply_steps
  apply_steps-IsSound completed decision_actor [] r q s h = subst IsSound (ground arith) s
  apply_steps-IsSound completed decision_actor (t ∷ rest) r q s h =
      let (moved, e, k) = >>=-eq-ok (apply share_of t.actor_position t.action r) _ h in
      let (_, p, l) =
        >>=-eq-ok
          (raise_if
            (not completed && not (same_actor (actor moved) (expected_actor rest decision_actor)))
            wrong_next_actor)
          (λ u. apply_steps share_of completed decision_actor rest moved) k in
      apply_steps-IsSound completed decision_actor rest moved q
        (apply-IsSound t.actor_position t.action r moved s e) l

  freeze-ok :
      (completed : Bool) (parsed : ParsedHistory) (stack : ℕ) (found : PreflopPublicState)
      → simulate_history share_of completed parsed stack ≡ ok found
      → (r : MutableState) × IsSound r
        × (freeze r ≡ found)
        × (completed ≡ true → r.terminal ≡ true)
        × (completed ≡ false → same_actor (actor r) parsed.decision_actor ≡ true)
  unfolding simulate_history ◌>>=◌
  freeze-ok completed parsed stack found h =
      let (start, e, k) = >>=-eq-ok (new_state stack) _ h in
      let (r, f, l) =
        >>=-eq-ok (apply_steps share_of completed parsed.decision_actor parsed.steps start) _ k in
      (
        r,
        apply_steps-IsSound completed parsed.decision_actor parsed.steps start r
            (new_state-IsSound stack start e) f,
        ground (arith, l),
        λ c. ground (arith, l, c),
        λ c. ground (arith, l, c),
      )

-- Every position that has not folded has put in exactly the high bet, nobody has put in more, and
-- nobody is left to act.
abbrev pub IsMatched : PreflopPublicState → Type 0
IsMatched found =
    ((x : ℕ)
      → elem x positions ≡ true
      → found.folded x ≡ false
      → found.contributions x ≡ found.highest_bet)
    × ((x : ℕ) → found.contributions x ≤ found.highest_bet)
    × (found.actor_position ≡ none)

freeze-IsMatched : (r : MutableState) → IsSound r → r.terminal ≡ true → IsMatched (freeze r)
unfolding freeze actor acting
freeze-IsMatched r s t =
    let nobody = s.ended t in
    (
      λ x m f. s.matched x m f (ap (elem x) nobody),
      s.capped,
      ap (λ (queue : List ℕ). acting queue r.terminal) nobody,
    )

-- In the public state of a completed history every position that has not folded has put in exactly
-- the high bet, nobody has put in more, and nobody is left to act.
pub simulate_history-IsMatched :
    (share_of : ℕ → ℕ → ℕ) (parsed : ParsedHistory) (stack : ℕ) (found : PreflopPublicState)
    → simulate_history share_of true parsed stack ≡ ok found
    → IsMatched found
simulate_history-IsMatched share_of parsed stack found h =
    let (r, s, e, t, _) = freeze-ok share_of true parsed stack found h in
    subst IsMatched e (freeze-IsMatched r s (t refl))

call_accepted :
    (share_of : ℕ → ℕ → ℕ) (seat : ℕ) (rest : List ℕ) (r : MutableState)
    → IsSound r
    → r.pending ≡ seat ∷ rest
    → r.terminal ≡ false
    → is_ok (apply share_of seat call r) ≡ true
unfolding apply by_kind actor acting ◌>>=◌
call_accepted share_of seat rest r s q t =
    let first : acting r.pending r.terminal ≡ some seat =
      ap (λ (queue : List ℕ). acting queue r.terminal) q ∙ ground arith in
    rw first (rw (apply_call-eq seat rest r q) (ground (arith, s.capped seat, s.roof)))

-- Where a decision history is simulated, the one to act is at the table and neither folded nor
-- all-in, faces no more than the stack, and a call of theirs is accepted.
pub actor_can_call :
    (share_of : ℕ → ℕ → ℕ) (parsed : ParsedHistory) (stack seat : ℕ) (r : MutableState)
    (start : MutableState)
    → new_state stack ≡ ok start
    → apply_steps share_of false parsed.decision_actor parsed.steps start ≡ ok r
    → actor r ≡ some seat
    → (elem seat positions ≡ true)
      × (r.folded seat ≡ false)
      × (r.all_in_set seat ≡ false)
      × (r.highest ≤ r.stack)
      × (is_ok (apply share_of seat call r) ≡ true)
unfolding acting actor
actor_can_call share_of parsed stack seat r start e f a =
    let s =
      apply_steps-IsSound share_of false parsed.decision_actor parsed.steps start r
        (new_state-IsSound stack start e) f in
    let (rest, q, t) = acts-eq seat r.pending r.terminal (ap (acts seat) a ∙ ground arith) in
    let (table, held, free) = s.queued seat (ap (elem seat) q ∙ ground arith) in
    (table, held, free, s.roof, call_accepted share_of seat rest r s q t)
