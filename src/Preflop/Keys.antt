-- ===== src/Preflop/Keys.antt =====
-- preflop_history.py: the keys that `expand_class_weights` assigns, each of them once.
use mathlib.Core.List.{append_assoc, append-nil}
use ranges.Prelude.{
  ℕ, ◌+◌, ◌≤◌, ◌<◌, ◌≡◌, refl, sym, ap, ◌∙◌, false, ◌||◌, ◌==◌, if◌then◌else◌, List, [], ◌∷◌, ◌++◌,
  arith, Bool-cases, inl, inr,
}
use ranges.Preflop.Cards.{Card}
use ranges.Preflop.Classes.{
  HandClass, pair, suited, offsuit, Combos, put, put_live, combos_of, candidates, class_of,
  same_card_as, same_class, card_elem,
}
use ranges.Preflop.Pairs.{IsClass, count, is_pair_of, own}

-- The assignments of the inner loop, in order.
unfoldable pub live_writes : List Card → ℕ → List (Card × Card) → Combos
live_writes dead weight [] = []
live_writes dead weight (p ∷ ps) =
    let rest = live_writes dead weight ps in
    if card_elem p.0 dead || card_elem p.1 dead then rest else (p, weight) ∷ rest

-- The assignments of both loops, in order.
unfoldable pub writes_of : List Card → List (HandClass × ℕ) → Combos
unfolding live_writes candidates
writes_of dead [] = []
writes_of dead ((d, w) ∷ rest) =
    let others = writes_of dead rest in
    if w == 0 then others else live_writes dead w (candidates d) ++ others

-- How often two cards, in either order, are a key.
unfoldable key_count : Card → Card → Combos → ℕ
key_count a b [] = 0
key_count a b (e ∷ rest) = (if is_pair_of a b e.0 then 1 else 0) + key_count a b rest

key_count-append :
    (a b : Card) (xs ys : Combos) → key_count a b (xs ++ ys) ≡ key_count a b xs + key_count a b ys
unfolding key_count
key_count-append a b [] ys = omega arith
key_count-append a b (e ∷ xs) ys = omega (arith, key_count-append a b xs ys)

-- Two different cards of the four suits.
abbrev InDeck : Card → Card → Type 0
InDeck a b = (a.suit < 4) × (b.suit < 4) × (same_card_as a b ≡ false)

AreInDeck : List (Card × Card) → Type 0
AreInDeck [] = Unit
AreInDeck (p ∷ ps) = InDeck p.0 p.1 × AreInDeck ps

put-new :
    (p : Card × Card) (w : ℕ) (combos : Combos)
    → key_count p.0 p.1 combos ≡ 0
    → put p w combos ≡ combos ++ (p, w) ∷ []
unfolding put key_count
put-new p w [] h = refl
put-new p w (e ∷ rest) h = ground (arith, h, put-new p w rest)

key_count-live_writes :
    (a b : Card) (dead : List Card) (w : ℕ) (ps : List (Card × Card))
    → key_count a b (live_writes dead w ps) ≤ count a b ps
unfolding live_writes key_count
key_count-live_writes a b dead w [] = omega arith
key_count-live_writes a b dead w (p ∷ ps) = ground (arith, key_count-live_writes a b dead w ps)

put_key :
    (a b : Card) (p : Card × Card) (w : ℕ) (combos : Combos) (ps : List (Card × Card))
    → key_count a b combos + count a b (p ∷ ps) ≤ 1
    → key_count a b (combos ++ (p, w) ∷ []) + count a b ps ≤ 1
unfolding key_count
put_key a b p w combos ps h = ground (arith, h, key_count-append a b combos ((p, w) ∷ []))

key_absent :
    (p : Card × Card) (combos : Combos) (ps : List (Card × Card))
    → key_count p.0 p.1 combos + count p.0 p.1 (p ∷ ps) ≤ 1
    → key_count p.0 p.1 combos ≡ 0
key_absent p combos ps h = ground (arith, h)

fewer :
    (a b : Card) (p : Card × Card) (combos : Combos) (ps : List (Card × Card))
    → key_count a b combos + count a b (p ∷ ps) ≤ 1
    → key_count a b combos + count a b ps ≤ 1
fewer a b p combos ps h = omega (arith, h)

-- The inner loop appends its assignments if none of its keys is there, and none is listed twice.
put_live-eq :
    (dead : List Card) (w : ℕ) (ps : List (Card × Card)) (combos : Combos)
    → AreInDeck ps
    → ((a b : Card) → InDeck a b → key_count a b combos + count a b ps ≤ 1)
    → put_live dead w ps combos ≡ combos ++ live_writes dead w ps
unfolding put_live live_writes AreInDeck
put_live-eq dead w [] combos i once = sym (append-nil combos)
put_live-eq dead w (p ∷ ps) combos i once =
    elim (Bool-cases (card_elem p.0 dead || card_elem p.1 dead)) [
      | inl h ↦ rw h (put_live-eq dead w ps combos i.1 λ a b k. fewer a b p combos ps (once a b k))
      | inr h ↦ rw h (
          ap (put_live dead w ps) (put-new p w combos (key_absent p combos ps (once p.0 p.1 i.0)))
          ∙ put_live-eq dead w ps (combos ++ (p, w) ∷ []) i.1
              (λ a b k. put_key a b p w combos ps (once a b k))
          ∙ append_assoc combos ((p, w) ∷ []) (live_writes dead w ps))
    ]

unfoldable pub AreClasses : List (HandClass × ℕ) → Type 0
AreClasses [] = Unit
AreClasses (e ∷ rest) = IsClass e.0 × AreClasses rest

candidates-AreInDeck : (d : HandClass) → IsClass d → AreInDeck (candidates d)
unfolding candidates AreInDeck
candidates-AreInDeck (pair r) i = ground (arith, i)
candidates-AreInDeck (suited h l) i = ground (arith, i)
candidates-AreInDeck (offsuit h l) i = ground (arith, i)

-- How often a class is listed.
unfoldable pub class_count : HandClass → List (HandClass × ℕ) → ℕ
class_count c [] = 0
class_count c (e ∷ rest) = (if same_class c e.0 then 1 else 0) + class_count c rest

class_keys :
    (dead : List Card) (d : HandClass) (w : ℕ) (rest : List (HandClass × ℕ)) (combos : Combos)
    → IsClass d
    → (a b : Card) → InDeck a b
    → key_count a b combos + class_count (class_of a b) ((d, w) ∷ rest) ≤ 1
    → (key_count a b combos + count a b (candidates d) ≤ 1)
      × (key_count a b (combos ++ live_writes dead w (candidates d))
            + class_count (class_of a b) rest
          ≤ 1)
unfolding class_count
class_keys dead d w rest combos i a b k h =
    let e = own a b k.0 k.1 k.2 d i in
    let f = key_count-append a b combos (live_writes dead w (candidates d)) in
    let g = key_count-live_writes a b dead w (candidates d) in
    (omega (arith, h, e), omega (arith, h, e, f, g))

unlisted :
    (a b : Card) (d : HandClass) (w : ℕ) (combos : Combos) (rest : List (HandClass × ℕ))
    → key_count a b combos + class_count (class_of a b) ((d, w) ∷ rest) ≤ 1
    → key_count a b combos + class_count (class_of a b) rest ≤ 1
unfolding class_count
unlisted a b d w combos rest h = omega (arith, h)

-- The loops are the list of their assignments if no class is listed twice.
combos_of-eq :
    (dead : List Card) (ws : List (HandClass × ℕ)) (combos : Combos)
    → AreClasses ws
    → ((a b : Card) → InDeck a b → key_count a b combos + class_count (class_of a b) ws ≤ 1)
    → combos_of dead ws combos ≡ combos ++ writes_of dead ws
unfolding combos_of writes_of AreClasses
combos_of-eq dead [] combos i once = sym (append-nil combos)
combos_of-eq dead ((d, w) ∷ rest) combos i once = elim (Bool-cases (w == 0)) [
  | inl h ↦
      rw h (combos_of-eq dead rest combos i.1 λ a b k. unlisted a b d w combos rest (once a b k))
  | inr h ↦
      let keys =
        λ (a b : Card) (k : InDeck a b). class_keys dead d w rest combos i.0 a b k (once a b k) in
      let live = live_writes dead w (candidates d) in
      rw h (
        ap (combos_of dead rest) (
          put_live-eq dead w (candidates d) combos (candidates-AreInDeck d i.0)
            λ a b k. (keys a b k).0)
        ∙ combos_of-eq dead rest (combos ++ live) i.1 (λ a b k. (keys a b k).1)
        ∙ append_assoc combos live (writes_of dead rest))
]

pub combos_of-writes_of :
    (dead : List Card) (ws : List (HandClass × ℕ))
    → AreClasses ws
    → ((c : HandClass) → class_count c ws ≤ 1)
    → combos_of dead ws [] ≡ writes_of dead ws
unfolding key_count
combos_of-writes_of dead ws i once =
    combos_of-eq dead ws [] i λ a b _. omega (arith, once (class_of a b))
