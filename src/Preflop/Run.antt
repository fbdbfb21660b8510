-- ===== src/Preflop/Run.antt =====
-- preflop_history.py: `simulate_history` on a parsed history, and the test of an observed table.
use ranges.Prelude.{
  ℕ, ◌+◌, Bool, true, false, not, ◌&&◌, ◌||◌, List, [], ◌∷◌, Option, none, some, leb, ◌==◌,
  if◌then◌else◌, ok, raise_if, ◌>>=◌, ◌>>◌, sum_over,
}
use ranges.Preflop.Machine.{
  positions, ParsedAction, MutableState, Checked, new_state, actor, apply, wrong_next_actor,
  not_finished, wrong_decision_actor, folded_and_surviving, folded_and_all_in,
}

pub record ActionStep : Type 0 where
  pub actor_position : ℕ
  pub action : ParsedAction

-- `decision_actor` is None for a completed history.
pub record ParsedHistory : Type 0 where
  pub steps : List ActionStep
  pub decision_actor : Option ℕ

-- `==` on actors.
abbrev pub same_actor : Option ℕ → Option ℕ → Bool
same_actor none none = true
same_actor (some x) (some y) = x == y
same_actor _ _ = false

abbrev pub expected_actor : List ActionStep → Option ℕ → Option ℕ
expected_actor [] decision_actor = decision_actor
expected_actor (s ∷ rest) decision_actor = some s.actor_position

pub record PreflopPublicState : Type 0 where
  pub contributions : ℕ → ℕ
  pub folded : ℕ → Bool
  pub all_in : ℕ → Bool
  pub pending : List ℕ
  pub actor_position : Option ℕ
  pub pot : ℕ
  pub highest_bet : ℕ
  pub last_full_raise : ℕ
  pub terminal : Bool

unfoldable pub freeze : MutableState → PreflopPublicState
freeze r = record {
  contributions = r.contributions;
  folded = r.folded;
  all_in = r.all_in_set;
  pending = r.pending;
  actor_position = actor r;
  pot = sum_over positions r.contributions;
  highest_bet = r.highest;
  last_full_raise = r.last_full_raise;
  terminal = r.terminal;
}

module _ (share_of : ℕ → ℕ → ℕ) where
  -- The loop over the steps, each with the test of the next actor.
  unfoldable pub apply_steps :
      Bool → Option ℕ → List ActionStep → MutableState → Checked MutableState
  apply_steps completed decision_actor [] r = ok r
  apply_steps completed decision_actor (s ∷ rest) r = do
    moved ← apply share_of s.actor_position s.action r
    raise_if (not completed && not (same_actor (actor moved) (expected_actor rest decision_actor)))
        wrong_next_actor
    apply_steps completed decision_actor rest moved

  unfoldable pub simulate_history : Bool → ParsedHistory → ℕ → Checked PreflopPublicState
  simulate_history completed parsed stack = do
    start ← new_state stack
    r ← apply_steps completed parsed.decision_actor parsed.steps start
    raise_if (completed && not r.terminal) not_finished
    raise_if (not completed && not (same_actor (actor r) parsed.decision_actor))
        wrong_decision_actor
    ok (freeze r)

-- `ObservedPreflopState`; what was not read is None, and a contribution has its tolerance.
pub record ObservedPreflopState : Type 0 where
  pub actor_position : Option ℕ
  pub contributions : List (ℕ × ℕ × ℕ)
  pub folded : Option (ℕ → Bool)
  pub survivors : Option (ℕ → Bool)
  pub all_in : Option (ℕ → Bool)

-- Two sets that were both read have a position in common.
abbrev pub overlap : Option (ℕ → Bool) → Option (ℕ → Bool) → List ℕ → Bool
overlap (some s) (some t) (p ∷ ps) = (s p && t p) || overlap (some s) (some t) ps
overlap _ _ _ = false

-- The tests of `create`.
unfoldable pub create : ObservedPreflopState → Checked ObservedPreflopState
create observed = do
  raise_if (overlap observed.folded observed.survivors positions) folded_and_surviving
  raise_if (overlap observed.folded observed.all_in positions) folded_and_all_in
  ok observed

-- Equality of two sets of positions.
abbrev pub same_positions : (ℕ → Bool) → (ℕ → Bool) → List ℕ → Bool
same_positions s t [] = true
same_positions s t (p ∷ ps) = (if s p then t p else not (t p)) && same_positions s t ps

abbrev pub reads_as : Option (ℕ → Bool) → (ℕ → Bool) → Bool
reads_as none actual = true
reads_as (some observed) actual = same_positions actual observed positions

abbrev pub reads_actor : Option ℕ → Option ℕ → Bool
reads_actor none actual = true
reads_actor (some p) actual = same_actor actual (some p)

-- `abs(a - b) <= allowed`
abbrev pub is_near : ℕ → ℕ → ℕ → Bool
is_near a b allowed = leb a (b + allowed) && leb b (a + allowed)

unfoldable pub contributions_near : (ℕ → ℕ) → List (ℕ × ℕ × ℕ) → Bool
contributions_near actual [] = true
contributions_near actual ((p, value, allowed) ∷ rest) =
    is_near (actual p) value allowed && contributions_near actual rest

-- `_compatible`
unfoldable pub compatible : PreflopPublicState → ObservedPreflopState → Bool → Bool
compatible state observed terminal =
    reads_actor observed.actor_position state.actor_position
    && reads_as observed.folded state.folded
    && reads_as observed.survivors (λ p. not (state.folded p))
    && reads_as observed.all_in state.all_in
    && (if terminal then state.terminal else not state.terminal)
    && contributions_near state.contributions observed.contributions
