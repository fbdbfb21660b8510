-- ===== src/Preflop/Cards.antt =====
-- preflop_history.py: `_normalize_card`. A card text is read to the index of its rank in `RANKS_DESC`
-- and of its suit in `SUITS`, in place of the two letters of the normal form. Upper and lower case
-- are those of ASCII: no other character has a rank as upper case or a suit as lower case.
use ranges.Prelude.{
  ℕ, ◌+◌, ◌-◌, Bool, ◌&&◌, ◌||◌, ◌==◌, leb, if◌then◌else◌, Option, none, some, List, [], ◌∷◌,
  is_empty, String, codes, Result, ok, err,
}

pub data ReachError : Type 0 where
  invalid_card same_card unknown_class duplicate_class bad_weight duplicate_dead : ReachError

pub record Card : Type 0 where
  pub rank : ℕ
  pub suit : ℕ

abbrev pub card : ℕ → ℕ → Card
card rank suit = record { rank = rank; suit = suit }

-- The whitespace of Python's `str.strip`.
abbrev is_space : ℕ → Bool
is_space c =
    (leb 9 c && leb c 13)
    || (leb 28 c && leb c 32)
    || (leb 8192 c && leb c 8202)
    || c == 133
    || c == 160
    || c == 5760
    || c == 8232
    || c == 8233
    || c == 8239
    || c == 8287
    || c == 12288

abbrev strip_left : List ℕ → List ℕ
strip_left [] = []
strip_left (c ∷ cs) = let rest = strip_left cs in if is_space c then rest else c ∷ cs

abbrev strip_right : List ℕ → List ℕ
strip_right [] = []
strip_right (c ∷ cs) =
    let rest = strip_right cs in if is_empty rest && is_space c then [] else c ∷ rest

-- `str.strip`
abbrev pub strip : List ℕ → List ℕ
strip text = strip_right (strip_left text)

abbrev pub upper : ℕ → ℕ
upper c = if leb 97 c && leb c 122 then c - 32 else c

abbrev pub lower : ℕ → ℕ
lower c = if leb 65 c && leb c 90 then c + 32 else c

abbrev pub ranks_desc : List ℕ
ranks_desc = codes "AKQJT98765432"

abbrev pub suit_letters : List ℕ
suit_letters = codes "shdc"

-- The index of a letter, if it is there.
unfoldable pub index_of : ℕ → List ℕ → Option ℕ
index_of c [] = none
index_of c (d ∷ ds) =
    let rest = index_of c ds in
    if c == d then some 0 else elim rest [ none ↦ none | some i ↦ some (i + 1) ]

unfoldable pub card_of : Option ℕ → Option ℕ → Result ReachError Card
card_of (some rank) (some suit) = ok (card rank suit)
card_of _ _ = err invalid_card

-- A rank and a suit, or the rank 10 and a suit.
unfoldable pub read_card : List ℕ → Result ReachError Card
unfolding index_of card_of
read_card (r ∷ s ∷ []) = card_of (index_of (upper r) ranks_desc) (index_of (lower s) suit_letters)
read_card (a ∷ b ∷ s ∷ []) =
    if a == 49 && b == 48
    then card_of (index_of 84 ranks_desc) (index_of (lower s) suit_letters)
    else err invalid_card
read_card _ = err invalid_card

-- `_normalize_card`
unfoldable pub normalize_card : String → Result ReachError Card
unfolding read_card
normalize_card text = read_card (strip (codes text))
