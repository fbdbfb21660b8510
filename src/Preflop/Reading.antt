-- ===== src/Preflop/Reading.antt =====
-- preflop_history.py: the suit of a card that `_normalize_card` reads.
use ranges.Prelude.{
  ℕ, ◌+◌, ◌<◌, ◌≡◌, Bool, true, false, ◌&&◌, ◌==◌, if◌then◌else◌, Option, none, some, List, [], ◌∷◌,
  String, codes, length, ok, arith, Returns, with_value, raised, Returns-if, Returns-ok,
}
use ranges.Preflop.Cards.{
  Card, index_of, card_of, read_card, normalize_card, ranks_desc, suit_letters, upper, lower, strip,
}

shifted-bound :
    (b : Bool) (o : Option ℕ) (n : ℕ) {j : ℕ}
    → ((i : ℕ) → o ≡ some i → i < n)
    → (if b then some 0 else elim o [ none ↦ none | some i ↦ some (i + 1) ]) ≡ some j
    → j < n + 1
shifted-bound true o n k h = ground (arith, h)
shifted-bound false none n k h = absurd (cc)
shifted-bound false (some i) n k h = ground (arith, h, k i (λ _. some i))

index_of-bound : (c : ℕ) (cs : List ℕ) (i : ℕ) → index_of c cs ≡ some i → i < length cs
unfolding index_of
index_of-bound c [] i h = absurd (cc)
index_of-bound c (d ∷ ds) i h =
    omega (arith, shifted-bound (c == d) (index_of c ds) (length ds) (index_of-bound c ds) h)

card_of-Returns :
    (r s : Option ℕ)
    → ((i : ℕ) → s ≡ some i → i < 4)
    → Returns (λ (x : Card). x.suit < 4) (card_of r s)
unfolding card_of
card_of-Returns none s k = raised
card_of-Returns (some r) none k = raised
card_of-Returns (some r) (some i) k = with_value (k i (λ _. some i))

lettered :
    (r : Option ℕ) (c : ℕ)
    → Returns (λ (x : Card). x.suit < 4) (card_of r (index_of c suit_letters))
lettered r c = card_of-Returns r (index_of c suit_letters) (index_of-bound c suit_letters)

read_card-Returns : (cs : List ℕ) → Returns (λ (x : Card). x.suit < 4) (read_card cs)
unfolding read_card
read_card-Returns [] = raised
read_card-Returns (a ∷ []) = raised
read_card-Returns (r ∷ s ∷ []) = lettered (index_of (upper r) ranks_desc) (lower s)
read_card-Returns (a ∷ b ∷ s ∷ []) =
    Returns-if (a == 49 && b == 48) _ _ (λ _. lettered (index_of 84 ranks_desc) (lower s))
      λ _. raised
read_card-Returns (a ∷ b ∷ c ∷ d ∷ cs) = raised

pub normalize_card-suit : (text : String) {x : Card} → normalize_card text ≡ ok x → x.suit < 4
unfolding normalize_card
normalize_card-suit text e = Returns-ok (read_card-Returns (strip (codes text))) e
