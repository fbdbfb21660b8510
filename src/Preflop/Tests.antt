-- ===== src/Preflop/Tests.antt =====
-- Simulated preflop histories, and the theorems about them at concrete ones.
use ranges.Preflop.Classes.{
  HandClass, pair, suited, normalize_cards, put, hand_class_for_cards, expand_class_weights,
}
use ranges.Preflop.Cards.{Card, card, normalize_card, invalid_card}
use ranges.Preflop.Counts.{
  weighted_combo_total, total_weight, weighted_combo_total-expand_class_weights,
}
use ranges.Preflop.Given.{given}
use ranges.Preflop.Combos.{weight_in, expand_class_weights-weight_in}
use ranges.Prelude.{
  ℕ, ◌+◌, ◌*◌, ◌/◌, ◌≤◌, ◌≡◌, refl, Bool, true, false, List, [], ◌∷◌, none, some, ok, err, ◌>>=◌,
  elem, is_ok, Result, sum_over, Option,
}
use ranges.Preflop.Machine.{
  MutableState, positions, Checked, ParsedAction, fold, call, raise_by, new_state, apply, half_bb,
  one_bb, apply_fold, apply_call, apply_raise, by_kind, raise_to, after_action, actor, acting,
  seat_order_after, behind, remove_pending_actor, wrong_next_actor,
}
use ranges.Preflop.Run.{
  ActionStep, ParsedHistory, PreflopPublicState, freeze, apply_steps, simulate_history, compatible,
  contributions_near,
}
use ranges.Preflop.Histories.{IsMatched, simulate_history-IsMatched, actor_can_call}

-- The percentage of the pot.
abbrev share : ℕ → ℕ → ℕ
share pot size_pct = pot * size_pct / 100

abbrev step : ℕ → ParsedAction → ActionStep
step position action = record { actor_position = position; action = action }

abbrev opening : List ActionStep
opening = step 0 fold ∷ step 1 fold ∷ step 2 fold ∷ step 3 (raise_by 100) ∷ []

abbrev opened : ParsedHistory
opened = record { steps = opening; decision_actor = some 4 }

abbrev called : ParsedHistory
called = record {
  steps =
      step 0 fold
      ∷ step 1 fold
      ∷ step 2 fold
      ∷ step 3 (raise_by 100)
      ∷ step 4 fold
      ∷ step 5 call
      ∷ [];
  decision_actor = none;
}

abbrev skipping : ParsedHistory
skipping = record { steps = opening; decision_actor = some 5 }

abbrev stack : ℕ
stack = 100 * one_bb

-- The value of a result, or another one.
abbrev value_or : {E A : Type 0} → A → Result E A → A
value_or a (ok b) = b
value_or a (err e) = a

abbrev nothing : PreflopPublicState
nothing = record {
  contributions = λ x. 0;
  folded = λ x. false;
  all_in = λ x. false;
  pending = [];
  actor_position = none;
  pot = 0;
  highest_bet = 0;
  last_full_raise = 0;
  terminal = false;
}

-- Every function of the model, run.
unfoldable run : Bool → ParsedHistory → Checked PreflopPublicState
unfolding simulate_history apply_steps new_state freeze apply by_kind apply_fold apply_call
    apply_raise raise_to seat_order_after behind after_action actor acting remove_pending_actor
    ◌>>=◌ sum_over
run completed parsed = simulate_history share completed parsed stack

called_pot : (value_or nothing (run true called)).pot ≡ 15 * half_bb
unfolding run
called_pot = refl

opened_actor : (value_or nothing (run false opened)).actor_position ≡ some 4
unfolding run
opened_actor = refl

skipping_refused : run false skipping ≡ err wrong_next_actor
unfolding run
skipping_refused = refl

abbrev found : PreflopPublicState
found = value_or nothing (simulate_history share true called stack)

simulates : simulate_history share true called stack ≡ ok found
unfolding run
simulates = refl

simulate_history-IsMatched_example : IsMatched found
simulate_history-IsMatched_example = simulate_history-IsMatched share called stack found simulates

-- A table as it was read: the raise to 3.5 BB, give or take a tenth.
reads_table :
    compatible
      (value_or nothing (run false opened))
      (record {
        actor_position = some 4;
        contributions = (3, 7 * half_bb + 5, one_bb / 10) ∷ [];
        folded = none;
        survivors = none;
        all_in = none;
      })
      false
    ≡ true
unfolding run compatible contributions_near
reads_table = refl

abbrev no_state : MutableState
no_state = record {
  stack = 0;
  contributions = λ x. 0;
  folded = λ x. false;
  all_in_set = λ x. false;
  pending = [];
  highest = 0;
  last_full_raise = 0;
  terminal = false;
}

abbrev start : MutableState
start = value_or no_state (new_state stack)

abbrev moved : MutableState
moved = value_or no_state (apply_steps share false (some 4) opening start)

starts : new_state stack ≡ ok start
unfolding run
starts = refl

moves : apply_steps share false (some 4) opening start ≡ ok moved
unfolding run
moves = refl

small_blind_acts : actor moved ≡ some 4
unfolding run
small_blind_acts = refl

actor_can_call_example :
    (elem 4 positions ≡ true)
    × (moved.folded 4 ≡ false)
    × (moved.all_in_set 4 ≡ false)
    × (moved.highest ≤ moved.stack)
    × (is_ok (apply share 4 call moved) ≡ true)
actor_can_call_example =
    actor_can_call share opened stack 4 moved start starts moves small_blind_acts

-- Aces with weight 1/2 and ace-king suited with weight 1, the king of spades dead.
abbrev aces_and_ace_king : List (HandClass × Option ℕ)
aces_and_ace_king = (pair 0, some 1) ∷ (suited 0 1, some 2) ∷ []

-- Read with the spaces around it, and with the rank in lower case.
king_of_spades : normalize_card " kS " ≡ ok (card 1 0)
unfolding normalize_card
king_of_spades = refl

ten_of_diamonds : normalize_card "10d" ≡ ok (card 4 2)
unfolding normalize_card
ten_of_diamonds = refl

no_card : normalize_card "100" ≡ err invalid_card
unfolding normalize_card
no_card = refl

king_is_dead : normalize_cards (" kS " ∷ []) ≡ ok (card 1 0 ∷ [])
unfolding normalize_cards ◌>>=◌
king_is_dead = refl

king_of_diamonds : normalize_card "Kd" ≡ ok (card 1 2)
unfolding normalize_card
king_of_diamonds = refl

ace_of_diamonds : normalize_card "ad" ≡ ok (card 0 2)
unfolding normalize_card
ace_of_diamonds = refl

abbrev aces_expanded : List ((Card × Card) × ℕ)
aces_expanded =
    ((card 0 0, card 0 1), 1)
    ∷ ((card 0 0, card 0 2), 1)
    ∷ ((card 0 0, card 0 3), 1)
    ∷ ((card 0 1, card 0 2), 1)
    ∷ ((card 0 1, card 0 3), 1)
    ∷ ((card 0 2, card 0 3), 1)
    ∷ ((card 0 1, card 1 1), 2)
    ∷ ((card 0 2, card 1 2), 2)
    ∷ ((card 0 3, card 1 3), 2)
    ∷ []

expands : expand_class_weights 2 aces_and_ace_king (" kS " ∷ []) ≡ ok aces_expanded
unfolding expand_class_weights ◌>>=◌
expands = refl

ace_king : hand_class_for_cards "Kd" "ad" ≡ ok (suited 0 1)
unfolding hand_class_for_cards ◌>>=◌
ace_king = refl

expand_class_weights-weight_in_example : weight_in (card 1 2) (card 0 2) aces_expanded ≡ 2
expand_class_weights-weight_in_example =
    expand_class_weights-weight_in 2 aces_and_ace_king (" kS " ∷ []) "Kd" "ad" expands ace_king
      king_of_diamonds ace_of_diamonds king_is_dead

-- A class of weight 0, a pair, and suited cards.
abbrev jacks : List (HandClass × ℕ)
jacks = (suited 0 1, 0) ∷ (pair 3, 2) ∷ (suited 3 4, 1) ∷ []

abbrev jacks_expanded : List ((Card × Card) × ℕ)
jacks_expanded =
    ((card 3 0, card 3 1), 2)
    ∷ ((card 3 0, card 3 2), 2)
    ∷ ((card 3 0, card 3 3), 2)
    ∷ ((card 3 1, card 3 2), 2)
    ∷ ((card 3 1, card 3 3), 2)
    ∷ ((card 3 2, card 3 3), 2)
    ∷ ((card 3 0, card 4 0), 1)
    ∷ ((card 3 1, card 4 1), 1)
    ∷ ((card 3 2, card 4 2), 1)
    ∷ ((card 3 3, card 4 3), 1)
    ∷ []

jacks_expand : expand_class_weights 2 (given jacks) [] ≡ ok jacks_expanded
unfolding expand_class_weights ◌>>=◌
jacks_expand = refl

weighted_combo_total-expand_class_weights_example :
    weighted_combo_total jacks ≡ ok (total_weight jacks_expanded)
weighted_combo_total-expand_class_weights_example =
    weighted_combo_total-expand_class_weights 2 jacks jacks_expand

sixteen : total_weight jacks_expanded ≡ 16
unfolding total_weight
sixteen = refl

-- A key that is assigned again keeps its place and takes the new value.
put_again :
    put (card 0 0, card 0 1) 3 (((card 0 0, card 0 1), 1) ∷ ((card 0 0, card 0 2), 1) ∷ [])
    ≡ (((card 0 0, card 0 1), 3) ∷ ((card 0 0, card 0 2), 1) ∷ [])
unfolding put
put_again = refl
