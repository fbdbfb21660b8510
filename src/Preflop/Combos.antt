-- ===== src/Preflop/Combos.antt =====
-- preflop_history.py: the weights that `expand_class_weights` gives the card pairs.
use ranges.Prelude.{
  String, ◌>>=◌, ℕ, ◌+◌, ◌++◌, Option, ◌≡◌, ◌<◌, refl, sym, ap, ◌∙◌, true, false, ◌||◌, ◌==◌,
  if◌then◌else◌, List, [], ◌∷◌, ok, arith, Returns, with_value, Returns->>=, Returns-raise_if,
  Returns-ok, if_true, if_false, Bool-cases, inl, inr,
}
use ranges.Preflop.Cards.{Card, normalize_card}
use ranges.Preflop.Reading.{normalize_card-suit}
use ranges.Preflop.Classes.{
  HandClass, candidates, class_of, hand_class_for_cards, same_card_as, same_class, normalize_cards,
  card_elem, Combos, check_weights, expand_class_weights,
}
use ranges.Preflop.Keys.{live_writes, writes_of, AreClasses, combos_of-writes_of}
use ranges.Preflop.Given.{AreOnce-once, check_weights-Returns, kept_weight, weight_of}
use ranges.Preflop.Pairs.{IsClass, count, is_pair_of, own}

-- The weight of the two cards in a list of weighted card pairs.
abbrev pub weight_in : Card → Card → Combos → ℕ
weight_in a b [] = 0
weight_in a b ((p, w) ∷ rest) = (if is_pair_of a b p then w else 0) + weight_in a b rest

weight_in-append :
    (a b : Card) (xs ys : Combos) → weight_in a b (xs ++ ys) ≡ weight_in a b xs + weight_in a b ys
weight_in-append a b [] ys = omega arith
weight_in-append a b ((p, w) ∷ xs) ys = omega (arith, weight_in-append a b xs ys)

card_elem-same :
    (c d : Card) (cs : List Card) → same_card_as c d ≡ true → card_elem c cs ≡ card_elem d cs
card_elem-same c d [] h = refl
card_elem-same c d (e ∷ cs) h = ground (arith, card_elem-same c d cs h, h)

dead_pair :
    (a b : Card) (dead : List Card) (p : Card × Card)
    → is_pair_of a b p ≡ true
    → (card_elem p.0 dead || card_elem p.1 dead) ≡ (card_elem a dead || card_elem b dead)
dead_pair a b dead p h = ground (
  arith,
  h,
  card_elem-same a p.0 dead,
  card_elem-same b p.1 dead,
  card_elem-same a p.1 dead,
  card_elem-same b p.0 dead,
)

weight_in-live :
    (a b : Card) (dead : List Card) (w n : ℕ) (ps : List (Card × Card))
    → count a b ps ≡ n
    → n < 2
    → weight_in a b (live_writes dead w ps)
      ≡ (if card_elem a dead || card_elem b dead then 0 else if n == 0 then 0 else w)
unfolding live_writes
weight_in-live a b dead w n [] e l = ground (arith, e)
weight_in-live a b dead w n (p ∷ ps) e l = elim (Bool-cases (is_pair_of a b p)) [
  | inl h ↦
      ground
        (arith, dead_pair a b dead p h, h, weight_in-live a b dead w (count a b ps) ps refl, e, l)
  | inr h ↦ ground (arith, h, weight_in-live a b dead w (count a b ps) ps refl, e, l)
]

module _ (a b : Card) (l : a.suit < 4) (m : b.suit < 4) (n : same_card_as a b ≡ false)
    (dead : List Card) where
  class_weight :
      (d : HandClass) (w : ℕ)
      → IsClass d
      → weight_in a b (live_writes dead w (candidates d)) ≡ (
          if card_elem a dead || card_elem b dead
          then 0
          else if same_class (class_of a b) d
          then w
          else 0)
  class_weight d w i = elim (Bool-cases (same_class (class_of a b) d)) [
    | inl h ↦
        weight_in-live a b dead w 1 (candidates d) (own a b l m n d i ∙ if_true _ _ h) (omega arith)
        ∙ ground (arith, h)
    | inr h ↦
        weight_in-live a b dead w 0 (candidates d) (own a b l m n d i ∙ if_false _ _ h)
          (omega arith)
        ∙ ground (arith, h)
  ]

  writes_weight :
      (ws : List (HandClass × ℕ))
      → AreClasses ws
      → weight_in a b (writes_of dead ws)
        ≡ (if card_elem a dead || card_elem b dead then 0 else kept_weight (class_of a b) ws)
  unfolding writes_of AreClasses kept_weight
  writes_weight [] i = ground arith
  writes_weight ((d, w) ∷ rest) (i, is) = ground (
    arith,
    writes_weight rest is,
    class_weight d w i,
    weight_in-append a b (live_writes dead w (candidates d)) (writes_of dead rest),
  )

-- The class of two card texts that are read to different cards.
class_known :
    (a b : String) {x y : Card}
    → normalize_card a ≡ ok x
    → normalize_card b ≡ ok y
    → Returns
        (λ (c : HandClass). (c ≡ class_of x y) × (same_card_as x y ≡ false))
        (hand_class_for_cards a b)
unfolding hand_class_for_cards ◌>>=◌
class_known a b e f = rw e (rw f (Returns-raise_if _ _ _ λ n. with_value (refl, n)))

expanded :
    (whole : ℕ) (items : List (HandClass × Option ℕ)) (dead : List String) (a b : Card)
    (l : a.suit < 4) (m : b.suit < 4) (n : same_card_as a b ≡ false) {ds : List Card}
    → normalize_cards dead ≡ ok ds
    → Returns
        (λ (combos : Combos).
          weight_in a b combos
          ≡ (if card_elem a ds || card_elem b ds then 0 else weight_of (class_of a b) items))
        (expand_class_weights whole items dead)
unfolding expand_class_weights ◌>>=◌
expanded whole items dead a b l m n {ds} k = Returns->>= (check_weights whole [] items) _ λ ws e.
    rw k (
      Returns-raise_if _ _ _ λ _.
        let (cs, g, once) = Returns-ok (check_weights-Returns whole [] items) e in
        with_value (
          ap (weight_in a b) (combos_of-writes_of ds ws cs (AreOnce-once ws once))
          ∙ writes_weight a b l m n ds ws cs
          ∙ ap (λ w. if card_elem a ds || card_elem b ds then 0 else w) (g (class_of a b))))

-- For two card texts that have a hand class, an expansion that succeeds holds for the two cards,
-- in either order, the weight given for that class in total, and nothing if one of them is dead.
pub expand_class_weights-weight_in :
    (whole : ℕ) (items : List (HandClass × Option ℕ)) (dead : List String) (a b : String)
    {x y : Card} {ds : List Card} {c : HandClass} {combos : Combos}
    → expand_class_weights whole items dead ≡ ok combos
    → hand_class_for_cards a b ≡ ok c
    → normalize_card a ≡ ok x
    → normalize_card b ≡ ok y
    → normalize_cards dead ≡ ok ds
    → weight_in x y combos ≡ (if card_elem x ds || card_elem y ds then 0 else weight_of c items)
expand_class_weights-weight_in whole items dead a b {x} {y} {ds} e h p q k =
    let (same, n) = Returns-ok (class_known a b p q) h in
    Returns-ok
      (expanded whole items dead x y (normalize_card-suit a p) (normalize_card-suit b q) n k) e
    ∙ ap (λ d. if card_elem x ds || card_elem y ds then 0 else weight_of d items) (sym same)
