-- ===== src/Preflop/Classes.antt =====
-- preflop_history.py: `hand_class_for_cards` and `expand_class_weights`.
use ranges.Prelude.{
  ℕ, Bool, true, false, not, ◌&&◌, ◌||◌, ◌==◌, ltb, if◌then◌else◌, Option, none, some, String, List,
  [], ◌∷◌, map, filter, concat_map, range, ◌+◌, ◌-◌, Result, ok, err, raise_if, ◌>>=◌, ◌>>◌,
}
use ranges.Preflop.Cards.{
  Card, card, normalize_card, ReachError, same_card, unknown_class, duplicate_class, bad_weight,
  duplicate_dead,
}

-- The texts of `ALL_HAND_CLASSES`, the higher rank first.
pub data HandClass : Type 0 where
  pair : ℕ → HandClass
  suited offsuit : ℕ → ℕ → HandClass

abbrev pub same_card_as : Card → Card → Bool
same_card_as a b = a.rank == b.rank && a.suit == b.suit

abbrev pub textured : Bool → ℕ → ℕ → HandClass
textured true high low = suited high low
textured false high low = offsuit high low

-- The class of two different cards.
abbrev pub class_of : Card → Card → HandClass
class_of a b =
    if a.rank == b.rank
    then pair a.rank
    else if ltb a.rank b.rank
    then textured (a.suit == b.suit) a.rank b.rank
    else textured (a.suit == b.suit) b.rank a.rank

unfoldable pub hand_class_for_cards : String → String → Result ReachError HandClass
unfolding normalize_card
hand_class_for_cards first_card second_card = do
  first ← normalize_card first_card
  second ← normalize_card second_card
  raise_if (same_card_as first second) same_card
  ok (class_of first second)

abbrev pub suits : List ℕ
suits = 0 ∷ 1 ∷ 2 ∷ 3 ∷ []

-- The suits of the card pairs of the nested loops.
abbrev pub rising_suits : List (ℕ × ℕ)
rising_suits =
    concat_map
      (λ (left : ℕ). map (λ (right : ℕ). (left, right)) (range (left + 1) (4 - (left + 1))))
      (range 0 4)

abbrev pub equal_suits : List (ℕ × ℕ)
equal_suits = map (λ (suit : ℕ). (suit, suit)) suits

abbrev pub unequal_suits : List (ℕ × ℕ)
unequal_suits =
    concat_map
      (λ (high : ℕ). map (λ (low : ℕ). (high, low)) (filter (λ (low : ℕ). not (high == low)) suits))
      suits

-- The cards of two ranks with the listed suits.
abbrev pub with_suits : ℕ → ℕ → List (ℕ × ℕ) → List (Card × Card)
with_suits high low pairs = map (λ (p : ℕ × ℕ). (card high p.0, card low p.1)) pairs

-- `candidates`
unfoldable pub candidates : HandClass → List (Card × Card)
candidates (pair rank) = with_suits rank rank rising_suits
candidates (suited high low) = with_suits high low equal_suits
candidates (offsuit high low) = with_suits high low unequal_suits

-- Same class, the higher rank first.
abbrev pub same_class : HandClass → HandClass → Bool
same_class (pair r) (pair s) = r == s
same_class (suited h l) (suited i m) = h == i && l == m
same_class (offsuit h l) (offsuit i m) = h == i && l == m
same_class _ _ = false

-- `hand_class in ALL_HAND_CLASS_SET`
abbrev pub is_class : HandClass → Bool
is_class (pair r) = ltb r 13
is_class (suited h l) = ltb h l && ltb l 13
is_class (offsuit h l) = ltb h l && ltb l 13

unfoldable pub class_elem : HandClass → List HandClass → Bool
class_elem c [] = false
class_elem c (d ∷ ds) = same_class c d || class_elem c ds

-- The first loop, with the classes that were met; `whole` is the weight 1 in the unit of the weights,
-- and a negative weight is none.
unfoldable pub check_weights :
    ℕ → List HandClass → List (HandClass × Option ℕ) → Result ReachError (List (HandClass × ℕ))
unfolding class_elem
check_weights whole seen [] = ok []
check_weights whole seen ((d, none) ∷ rest) = do
  raise_if (not (is_class d)) unknown_class
  raise_if (class_elem d seen) duplicate_class
  err bad_weight
check_weights whole seen ((d, some w) ∷ rest) = do
  raise_if (not (is_class d)) unknown_class
  raise_if (class_elem d seen) duplicate_class
  raise_if (ltb whole w) bad_weight
  others ← check_weights whole (d ∷ seen) rest
  ok ((d, w) ∷ others)

unfoldable pub normalize_cards : List String → Result ReachError (List Card)
unfolding normalize_card
normalize_cards [] = ok []
normalize_cards (c ∷ cs) = do
  card ← normalize_card c
  others ← normalize_cards cs
  ok (card ∷ others)

abbrev pub card_elem : Card → List Card → Bool
card_elem c [] = false
card_elem c (d ∷ ds) = same_card_as c d || card_elem c ds

abbrev pub has_repeated_card : List Card → Bool
has_repeated_card [] = false
has_repeated_card (c ∷ cs) = card_elem c cs || has_repeated_card cs

-- The dictionary `combos`, in the order in which its keys were first assigned.
abbrev pub Combos : Type 0
Combos = List ((Card × Card) × ℕ)

abbrev pub same_combo : Card × Card → Card × Card → Bool
same_combo p q = same_card_as p.0 q.0 && same_card_as p.1 q.1

-- `combos[combo] = weight`, which replaces the value of a key that is there.
unfoldable pub put : Card × Card → ℕ → Combos → Combos
put p weight [] = (p, weight) ∷ []
put p weight (e ∷ rest) =
    let others = put p weight rest in if same_combo p e.0 then (e.0, weight) ∷ rest else e ∷ others

-- The inner loop: the card pairs that have no dead card are assigned the weight.
unfoldable pub put_live : List Card → ℕ → List (Card × Card) → Combos → Combos
unfolding put
put_live dead weight [] combos = combos
put_live dead weight (p ∷ ps) combos =
    put_live dead weight ps
      (if card_elem p.0 dead || card_elem p.1 dead then combos else put p weight combos)

-- The outer loop, over the items of `weights`.
unfoldable pub combos_of : List Card → List (HandClass × ℕ) → Combos → Combos
unfolding put_live candidates
combos_of dead [] combos = combos
combos_of dead ((d, w) ∷ rest) combos =
    combos_of dead rest (if w == 0 then combos else put_live dead w (candidates d) combos)

unfoldable pub expand_class_weights :
    ℕ → List (HandClass × Option ℕ) → List String → Result ReachError Combos
unfolding check_weights normalize_cards combos_of
expand_class_weights whole class_weights dead_cards = do
  weights ← check_weights whole [] class_weights
  dead ← normalize_cards dead_cards
  raise_if (has_repeated_card dead) duplicate_dead
  ok (combos_of dead weights [])
