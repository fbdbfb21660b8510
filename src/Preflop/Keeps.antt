-- ===== src/Preflop/Keeps.antt =====
-- preflop_history.py: every action keeps the invariant of `_MutableState`.
use mathlib.Core.Path.{subst}
use ranges.Prelude.{
  ℕ, ◌+◌, ◌-◌, ◌<◌, ◌≡◌, refl, ap, ◌∙◌, Bool, true, false, ◌||◌, List, ◌∷◌, arith, ltb, leb, ◌==◌,
  if◌then◌else◌, ok, err, ◌>>=◌, add, elem, Distinct, sum_over, Bool-cases, inl, inr,
}
use ranges.Preflop.Machine.{
  MutableState, positions, raise_to, paid, remove_pending_actor, apply_fold, apply_check,
  apply_call, apply_all_in, apply_raise, by_kind, fold_for_free, check_facing_bet, above_highest,
  call_beyond_stack, already_all_in, ParsedAction, fold, check, call, all_in, raise_by,
}
use ranges.Preflop.Rounds.{IsSound, raised-IsSound, raise_to-eq}

remove_pending_actor-head :
    (seat : ℕ) (rest : List ℕ) → remove_pending_actor seat (seat ∷ rest) ≡ ok rest
unfolding remove_pending_actor
remove_pending_actor-head seat rest = ground arith

clash : {b : Bool} {A : Type 0} → b ≡ false → b ≡ true → A
clash f t = absurd (cc)

-- A round with someone in the queue has not ended.
started : (r : MutableState) → IsSound r → (x : ℕ) → elem x r.pending ≡ true → r.terminal ≡ false
started r s x m = elim (Bool-cases r.terminal) [
  | inl t ↦ absurd (ground (arith, m, ap (elem x) (s.ended t)))
  | inr f ↦ f
]

module _ (seat : ℕ) (rest : List ℕ) (r : MutableState) (s : IsSound r)
    (e : r.pending ≡ seat ∷ rest) where
  in_queue : (x : ℕ) → elem x r.pending ≡ ((x == seat) || elem x rest)
  in_queue x = ap (elem x) e

  away : elem seat rest ≡ false
  away = (subst Distinct e s.distinct).0

  rest-Distinct : Distinct rest
  rest-Distinct = (subst Distinct e s.distinct).1

  opened : r.terminal ≡ false
  opened = started r s seat (ap (elem seat) e ∙ ground arith)

  fold-IsSound :
      r.contributions seat < r.highest
      → IsSound (record r { pending = rest; folded = add seat r.folded })
  fold-IsSound l =
      let (w, table, held, made) = s.leader in
      record {
        capped = s.capped;
        roof = s.roof;
        queued = λ x m. ground (arith, s.queued x, in_queue x, away);
        ended = λ t. clash opened t;
        distinct = rest-Distinct;
        committed = s.committed;
        matched = λ x m f n. ground (arith, s.matched x, in_queue x);
        leader = (w, table, ground arith, made);
      }

  check-IsSound : r.contributions seat ≡ r.highest → IsSound (record r { pending = rest })
  check-IsSound l = record {
    capped = s.capped;
    roof = s.roof;
    queued = λ x m. ground (arith, s.queued x, in_queue x);
    ended = λ t. clash opened t;
    distinct = rest-Distinct;
    committed = s.committed;
    matched = λ x m f n. ground (arith, s.matched x, in_queue x);
    leader = s.leader;
  }

  paid-IsSound :
      (target : ℕ) (is_all_in : Bool)
      → target ≡ r.highest
      → (is_all_in ≡ true → target ≡ r.stack)
      → IsSound (paid seat target is_all_in rest r)
  paid-IsSound target is_all_in t a =
      let (w, table, held, made) = s.leader in
      record {
        capped = λ x. ground (arith, s.capped x);
        roof = s.roof;
        queued = λ x m. ground (arith, s.queued x, in_queue x, away);
        ended = λ t. clash opened t;
        distinct = rest-Distinct;
        committed = λ x m. ground (arith, s.committed x, s.capped x, s.roof);
        matched = λ x m f n. ground (arith, s.matched x, in_queue x);
        leader = (w, table, held, ground arith);
      }

raise_to-IsSound :
    (seat target : ℕ) (is_all_in : Bool) (r q : MutableState)
    → IsSound r
    → elem seat r.pending ≡ true
    → (is_all_in ≡ true → target ≡ r.stack)
    → raise_to seat target is_all_in r ≡ ok q
    → IsSound q
raise_to-IsSound seat target is_all_in r q s m a h =
    let (l, u, e) = raise_to-eq seat target is_all_in r q h in
    let (table, held, free) = s.queued seat m in
    subst IsSound e (raised-IsSound seat target is_all_in r s table held (started r s seat m) a l u)

-- What an action of the first position in the queue leads to.
module _ (seat : ℕ) (rest : List ℕ) (r : MutableState) (e : r.pending ≡ seat ∷ rest) where
  popped : remove_pending_actor seat r.pending ≡ ok rest
  popped = ap (remove_pending_actor seat) e ∙ remove_pending_actor-head seat rest

  pub apply_fold-eq : apply_fold seat r ≡ (
      if leb r.highest (r.contributions seat)
      then err fold_for_free
      else ok (record r { pending = rest; folded = add seat r.folded }))
  unfolding apply_fold ◌>>=◌
  apply_fold-eq = rw popped (ground arith)

  pub apply_check-eq : apply_check seat r ≡ (
      if r.contributions seat == r.highest
      then ok (record r { pending = rest })
      else err check_facing_bet)
  unfolding apply_check ◌>>=◌
  apply_check-eq = rw popped (ground arith)

  pub apply_call-eq : apply_call seat r ≡ (
      if ltb r.highest (r.contributions seat)
      then err above_highest
      else if r.contributions seat == r.highest
      then ok (record r { pending = rest })
      else if ltb r.stack r.highest
      then err call_beyond_stack
      else ok (paid seat r.highest (r.highest == r.stack) rest r))
  unfolding apply_call ◌>>=◌
  apply_call-eq = rw popped (ground arith)

  pub apply_all_in-eq : apply_all_in seat r ≡ (
      if leb r.stack (r.contributions seat)
      then err already_all_in
      else if leb r.stack r.highest
      then ok (paid seat r.stack true rest r)
      else raise_to seat r.stack true r)
  unfolding apply_all_in ◌>>=◌
  apply_all_in-eq = rw popped (ground arith)

  module _ (s : IsSound r) where
    waiting : elem seat r.pending ≡ true
    waiting = ap (elem seat) e ∙ ground arith

    pub by_kind-IsSound :
        (share_of : ℕ → ℕ → ℕ) (action : ParsedAction) (q : MutableState)
        → by_kind share_of seat action r ≡ ok q
        → IsSound q
    unfolding by_kind apply_raise ◌>>=◌
    by_kind-IsSound share_of fold q h =
        subst IsSound (ground (arith, apply_fold-eq, h))
          (fold-IsSound seat rest r s e (ground (arith, apply_fold-eq, h)))
    by_kind-IsSound share_of check q h =
        subst IsSound (ground (arith, apply_check-eq, h))
          (check-IsSound seat rest r s e (ground (arith, apply_check-eq, h)))
    by_kind-IsSound share_of call q h = elim (Bool-cases (r.contributions seat == r.highest)) [
      | inl m ↦
          subst IsSound (ground (arith, apply_call-eq, h))
            (check-IsSound seat rest r s e (ground arith))
      | inr n ↦
          subst IsSound (ground (arith, apply_call-eq, h))
            (paid-IsSound seat rest r s e r.highest (r.highest == r.stack) refl (λ t. ground arith))
    ]
    by_kind-IsSound share_of all_in q h = elim (Bool-cases (leb r.stack r.highest)) [
      | inl m ↦
          subst IsSound (ground (arith, apply_all_in-eq, h))
            (paid-IsSound seat rest r s e r.stack true (ground (arith, s.roof)) (λ t. refl))
      | inr n ↦
          raise_to-IsSound seat r.stack true r q s waiting (λ t. refl)
            (ground (arith, apply_all_in-eq, h))
    ]
    by_kind-IsSound share_of (raise_by size_pct) q h =
        raise_to-IsSound seat
          (r.highest
            + share_of (sum_over positions r.contributions + (r.highest - r.contributions seat))
                size_pct)
          false r q s waiting (λ t. absurd (cc)) (ground (arith, h))
