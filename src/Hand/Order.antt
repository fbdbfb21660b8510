-- ===== src/Hand/Order.antt =====
-- The order of the seats: `_ordered_after` lists the candidates once round the table.
use native.Mathlib.Nat.{mod-eq_of_lt, mod_self}
use mathlib.Core.Path.{subst}
use mathlib.Core.List.{append_assoc}
use ranges.Prelude.{
  ℕ, zero, suc, ◌+◌, ◌%◌, ◌≡◌, refl, ap, sym, ◌∙◌, Bool, true, false, List, [], ◌∷◌, ◌++◌, ◌==◌,
  ◌&&◌, some, arith, length, get_elem?, filter, elem, Distinct, length-append, filter-append,
  Distinct-middle, Distinct-filter, Distinct-swap, elem-split, ◌||◌, elem-append, elem-filter,
}
use ranges.Hand.Seating.{sorted, insert_sorted, index, next_seat, walk, ordered_after}

elem-insert_sorted : (x y : ℕ) (ys : List ℕ) → elem x (insert_sorted y ys) ≡ ((x == y) || elem x ys)
unfolding insert_sorted
elem-insert_sorted x y [] = refl
elem-insert_sorted x y (z ∷ zs) = ground (arith, elem-insert_sorted x y zs)

pub elem-sorted : (x : ℕ) (xs : List ℕ) → elem x (sorted xs) ≡ elem x xs
unfolding sorted
elem-sorted x [] = refl
elem-sorted x (y ∷ ys) = ground (arith, elem-sorted x ys, elem-insert_sorted x y (sorted ys))

Distinct-insert_sorted :
    (y : ℕ) (ys : List ℕ) → elem y ys ≡ false → Distinct ys → Distinct (insert_sorted y ys)
unfolding insert_sorted
Distinct-insert_sorted y [] h d = (refl, tt)
Distinct-insert_sorted y (z ∷ zs) h d =
    ground (arith, Distinct-insert_sorted y zs, elem-insert_sorted z y zs)

pub Distinct-sorted : (xs : List ℕ) → Distinct xs → Distinct (sorted xs)
unfolding sorted
Distinct-sorted [] d = tt
Distinct-sorted (x ∷ xs) d =
    Distinct-insert_sorted x (sorted xs) (elem-sorted x xs ∙ d.0) (Distinct-sorted xs d.1)

index-append :
    (a : ℕ) (pre post : List ℕ) → elem a pre ≡ false → index a (pre ++ a ∷ post) ≡ length pre
index-append a [] post h = ground arith
index-append a (x ∷ pre) post h = ground (arith, index-append a pre post)

get_elem?-after :
    (pre : List ℕ) (a b : ℕ) (post : List ℕ)
    → get_elem? (pre ++ a ∷ b ∷ post) (length pre + 1) ≡ some b
get_elem?-after [] a b post = ground arith
get_elem?-after (x ∷ pre) a b post = ground (arith, get_elem?-after pre a b post)

-- The seat after an inner one, and after the last one.
pub next_seat-inner :
    (pre : List ℕ) (a b : ℕ) (post : List ℕ)
    → Distinct (pre ++ a ∷ b ∷ post)
    → next_seat (pre ++ a ∷ b ∷ post) a ≡ b
unfolding next_seat
next_seat-inner pre a b post d =
    let m : (length pre + 1) % length (pre ++ a ∷ b ∷ post) ≡ length pre + 1 =
      mod-eq_of_lt (omega (arith, length-append pre (a ∷ b ∷ post))) in
    rw (index-append a pre (b ∷ post) (Distinct-middle pre a (b ∷ post) d).0)
      (rw m (rw (get_elem?-after pre a b post)))

next_seat-last :
    (pre : List ℕ) (a x : ℕ) (xs : List ℕ)
    → x ∷ xs ≡ pre ++ a ∷ []
    → elem a pre ≡ false
    → next_seat (x ∷ xs) a ≡ x
unfolding next_seat
next_seat-last pre a x xs e h =
    let i : index a (x ∷ xs) ≡ length pre =
      subst (λ l. index a l ≡ length pre) (sym e) (index-append a pre [] h) in
    let n : length (x ∷ xs) ≡ length pre + 1 = ap length e ∙ length-append pre (a ∷ []) in
    rw i (rw n (rw (mod_self (length pre + 1))))

module _ (seats : List ℕ) (seat : ℕ) (cands : ℕ → Bool) (d : Distinct seats) where
  next_at :
      (pre : List ℕ) (a b : ℕ) (post : List ℕ)
      → seats ≡ pre ++ (a ∷ b ∷ post)
      → next_seat seats a ≡ b
  next_at pre a b post e = rw e (next_seat-inner pre a b post (subst Distinct e d))

  -- A walk over a stretch of seats that stops short of `seat` lists its candidates.
  walk-stretch :
      (fuel : ℕ) (before : List ℕ) (c : ℕ) (rest : List ℕ) (next : ℕ) (after : List ℕ) (more : ℕ)
      → seats ≡ before ++ (c ∷ (rest ++ next ∷ after))
      → elem seat (c ∷ rest) ≡ false
      → fuel ≡ length (c ∷ rest) + more
      → walk seats seat cands fuel c ≡ filter cands (c ∷ rest) ++ walk seats seat cands more next
  unfolding walk
  walk-stretch zero before c rest next after more e h f = absurd (omega arith)
  walk-stretch (suc fuel) before c [] next after more e h f =
      let s : next_seat seats c ≡ next = next_at before c next after e in
      let g : fuel ≡ more = omega arith in ground arith
  walk-stretch (suc fuel) before c (b ∷ rest) next after more e h f =
      let s : next_seat seats c ≡ b = next_at before c b (rest ++ next ∷ after) e in
      ground (
        arith,
        walk-stretch fuel (before ++ c ∷ []) b rest next after more
            (e ∙ sym (append_assoc before (c ∷ []) (b ∷ (rest ++ next ∷ after)))) (ground arith)
            (omega arith),
      )

  -- A walk to the end of the list goes on at its head.
  walk-end :
      (fuel : ℕ) (before : List ℕ) (c : ℕ) (rest : List ℕ) (x : ℕ) (xs : List ℕ) (more : ℕ)
      → seats ≡ before ++ (c ∷ rest)
      → seats ≡ x ∷ xs
      → elem seat (c ∷ rest) ≡ false
      → fuel ≡ length (c ∷ rest) + more
      → walk seats seat cands fuel c ≡ filter cands (c ∷ rest) ++ walk seats seat cands more x
  unfolding walk
  walk-end zero before c rest x xs more e k h f = absurd (omega arith)
  walk-end (suc fuel) before c [] x xs more e k h f =
      let s : next_seat seats c ≡ x = rw k (
        next_seat-last before c x xs (sym k ∙ e)
          (Distinct-middle before c [] (subst Distinct e d)).0) in
      let g : fuel ≡ more = omega arith in ground arith
  walk-end (suc fuel) before c (b ∷ rest) x xs more e k h f =
      let s : next_seat seats c ≡ b = next_at before c b rest e in
      ground (
        arith,
        walk-end fuel (before ++ c ∷ []) b rest x xs more
            (e ∙ sym (append_assoc before (c ∷ []) (b ∷ rest))) k (ground arith) (omega arith),
      )

  walk-home : (fuel : ℕ) → walk seats seat cands (suc fuel) seat ≡ filter cands (seat ∷ [])
  unfolding walk
  walk-home fuel = ground arith

  -- The rounds of the walk: the seats behind `seat`, those before it, and `seat` itself.
  walk-round :
      (pre post : List ℕ)
      → seats ≡ pre ++ (seat ∷ post)
      → walk seats seat cands (length seats) (next_seat seats seat)
        ≡ filter cands post ++ (filter cands pre ++ filter cands (seat ∷ []))
  walk-round [] [] e =
      let s : next_seat seats seat ≡ seat = rw e (next_seat-last [] seat seat [] refl refl) in
      let l : length seats ≡ suc 0 = ap length e in rw (s, l) (walk-home 0)
  walk-round [] (b ∷ post) e =
      let s : next_seat seats seat ≡ b = next_at [] seat b post e in
      let l : length seats ≡ length (b ∷ post) + 1 = omega (arith, ap length e) in
      let apart = (Distinct-middle [] seat (b ∷ post) (subst Distinct e d)).1 in
      rw s (
        walk-end (length seats) (seat ∷ []) b post seat (b ∷ post) 1 e e apart l
        ∙ ap (λ w. filter cands (b ∷ post) ++ w) (walk-home 0))
  walk-round (a ∷ pre) [] e =
      let s : next_seat seats seat ≡ a = rw e (
        next_seat-last (a ∷ pre) seat a (pre ++ seat ∷ []) refl
          (Distinct-middle (a ∷ pre) seat [] (subst Distinct e d)).0) in
      let l : length seats ≡ length (a ∷ pre) + 1 =
        ap length e ∙ length-append (a ∷ pre) (seat ∷ []) in
      rw s (
        walk-stretch (length seats) [] a pre seat [] 1 e
          (Distinct-middle (a ∷ pre) seat [] (subst Distinct e d)).0 l
        ∙ ap (λ w. filter cands (a ∷ pre) ++ w) (walk-home 0))
  walk-round (a ∷ pre) (b ∷ post) e =
      let s : next_seat seats seat ≡ b = next_at (a ∷ pre) seat b post e in
      let apart = Distinct-middle (a ∷ pre) seat (b ∷ post) (subst Distinct e d) in
      let l : length seats ≡ length (b ∷ post) + (length (a ∷ pre) + 1) =
        omega (arith, ap length e, length-append (a ∷ pre) (seat ∷ b ∷ post)) in
      let e' : seats ≡ ((a ∷ pre) ++ seat ∷ []) ++ (b ∷ post) =
        e ∙ sym (append_assoc (a ∷ pre) (seat ∷ []) (b ∷ post)) in
      rw s (
        walk-end (length seats) ((a ∷ pre) ++ seat ∷ []) b post a (pre ++ (seat ∷ b ∷ post))
          (length (a ∷ pre) + 1) e' e apart.1 l
        ∙ ap (λ w. filter cands (b ∷ post) ++ w)
            (walk-stretch (length (a ∷ pre) + 1) [] a pre seat (b ∷ post) 1 e apart.0 refl
              ∙ ap (λ w. filter cands (a ∷ pre) ++ w) (walk-home 0)))

  -- At a table without a seat listed twice, and with `seat` between two parts of it, the candidates
  -- are listed once, in the order of the seats behind `seat`, round the table, itself last.
  pub ordered_after-eq-rotation :
      (pre post : List ℕ)
      → seats ≡ pre ++ (seat ∷ post)
      → ordered_after seats seat cands ≡ filter cands (post ++ (pre ++ seat ∷ []))
  unfolding ordered_after
  ordered_after-eq-rotation pre post e =
      walk-round pre post e
      ∙ sym (
          filter-append cands post (pre ++ seat ∷ [])
          ∙ ap (λ w. filter cands post ++ w) (filter-append cands pre (seat ∷ [])))

module _ (seats : List ℕ) (seat : ℕ) (d : Distinct seats) (m : elem seat seats ≡ true) where
  -- A candidate is listed exactly if it sits at the table.
  pub elem-ordered_after :
      (cands : ℕ → Bool) (x : ℕ)
      → elem x (ordered_after seats seat cands) ≡ (elem x seats && cands x)
  elem-ordered_after cands x =
      let (pre, post, e) = elem-split seat seats m in
      let inside : elem x seats ≡ (elem x pre || elem x (seat ∷ post)) =
        ap (elem x) e ∙ elem-append x pre (seat ∷ post) in
      rw (ordered_after-eq-rotation seats seat cands d pre post e) (
        ground (
          arith,
          inside,
          elem-filter cands x (post ++ (pre ++ seat ∷ [])),
          elem-append x post (pre ++ seat ∷ []),
          elem-append x pre (seat ∷ []),
        ))

  -- Nobody is listed twice.
  pub Distinct-ordered_after : (cands : ℕ → Bool) → Distinct (ordered_after seats seat cands)
  Distinct-ordered_after cands =
      let (pre, post, e) = elem-split seat seats m in
      subst Distinct (sym (ordered_after-eq-rotation seats seat cands d pre post e)) (
        Distinct-filter cands (post ++ (pre ++ seat ∷ [])) (
          Distinct-swap (pre ++ seat ∷ []) post
            (subst Distinct (e ∙ sym (append_assoc pre (seat ∷ []) post)) d)))

  pub next_seat-elem : elem (next_seat seats seat) seats ≡ true
  next_seat-elem = let (pre, post, e) = elem-split seat seats m in next_in pre post e
    where
      next_in :
          (pre post : List ℕ)
          → seats ≡ pre ++ (seat ∷ post)
          → elem (next_seat seats seat) seats ≡ true
      next_in [] [] e =
          let s : next_seat seats seat ≡ seat =
            subst (λ l. next_seat l seat ≡ seat) (sym e)
              (next_seat-last [] seat seat [] refl refl) in
          rw s m
      next_in (a ∷ pre) [] e =
          let s : next_seat seats seat ≡ a =
            subst (λ l. next_seat l seat ≡ a) (sym e)
              (next_seat-last (a ∷ pre) seat a (pre ++ seat ∷ []) refl
                (Distinct-middle (a ∷ pre) seat [] (subst Distinct e d)).0) in
          rw s (subst (λ l. elem a l ≡ true) (sym e) (ground arith))
      next_in pre (b ∷ post) e =
          let s : next_seat seats seat ≡ b =
            subst (λ l. next_seat l seat ≡ b) (sym e)
              (next_seat-inner pre seat b post (subst Distinct e d)) in
          rw s (
            subst (λ l. elem b l ≡ true) (sym e)
              (ground (arith, elem-append b pre (seat ∷ b ∷ post))))
