-- ===== src/Pipeline/Loop.antt =====
-- public_history_pipeline.py: the invariant over the loop of `advance_decoder_watermark`.
use mathlib.Core.Path.{subst}
use ranges.Prelude.{
  ℕ, ◌≡◌, ◌≢◌, ◌≤◌, inl, inr, refl, sym, ap, ◌∙◌, true, not, ◌&&◌, ◌==◌, List, [], ◌∷◌, some, arith,
  ◌>>=◌, Succeeds, succeeds, Succeeds->>=, elem, filter, Distinct, elem-filter, Distinct-filter,
  Bool-cases, if_true, if_false, String, str_elem,
}
use ranges.Hand.Seating.{sorted, insert_sorted}
use ranges.Pipeline.State.{Candidate, CandidateResult, Coordinator}
use ranges.Pipeline.Process.{Processed, process_candidate}
use ranges.Pipeline.Coordinator.{
  pending_ids, find_candidate, without_candidate, process_found, process_ready, after_result,
  unresolved_after,
}
use ranges.Pipeline.Steady.{IsSteady, Processes}
use ranges.Pipeline.Keeps.{quiet}
use ranges.Pipeline.Gaps.{process_candidate-Succeeds}

-- Numbers that do not fall, from a first bound on.
abbrev pub Rises : ℕ → List ℕ → Type 0
Rises low [] = Unit
Rises low (x ∷ xs) = (low ≤ x) × Rises x xs

insert_sorted-Rises :
    (low x : ℕ) (ys : List ℕ) → low ≤ x → Rises low ys → Rises low (insert_sorted x ys)
unfolding insert_sorted
insert_sorted-Rises low x [] l r = (l, tt)
insert_sorted-Rises low x (y ∷ ys) l r = ground (arith, insert_sorted-Rises y x ys)

pub sorted-Rises :
    (low : ℕ) (xs : List ℕ) → ((x : ℕ) → elem x xs ≡ true → low ≤ x) → Rises low (sorted xs)
unfolding sorted
sorted-Rises low [] f = tt
sorted-Rises low (x ∷ xs) f =
    insert_sorted-Rises low x (sorted xs) (f x (ground arith))
      (sorted-Rises low xs λ y h. f y (ground (arith, h)))

find_candidate-found :
    (i : ℕ) (cs : List Candidate)
    → elem i (pending_ids cs) ≡ true
    → (c : Candidate) × (find_candidate i cs ≡ some c) × (c.frame_id ≡ i)
unfolding find_candidate
find_candidate-found i [] h = absurd (cc)
find_candidate-found i (c ∷ cs) h = elim (Bool-cases (c.frame_id == i)) [
  | inl e ↦ (c, if_true _ _ e, ground (arith, e))
  | inr e ↦
      let (d, f, g) = find_candidate-found i cs (ground (arith, h, e)) in (d, if_false _ _ e ∙ f, g)
]

pending_ids-without :
    (i : ℕ) (cs : List Candidate)
    → pending_ids (without_candidate i cs) ≡ filter (λ j. not (j == i)) (pending_ids cs)
unfolding without_candidate
pending_ids-without i [] = refl
pending_ids-without i (c ∷ cs) = ground (arith, pending_ids-without i cs)

-- What is asked of the ids that are ready, and of the coordinator.
pub record IsReady (ids : List ℕ) (through : ℕ) (k : Coordinator) : Type 0 where
  pub steady : IsSteady k
  pub are_pending : (i : ℕ) → elem i ids ≡ true → elem i (pending_ids k.pending) ≡ true
  pub are_positive : (i : ℕ) → elem i ids ≡ true → i ≢ 0
  pub are_reached : (i : ℕ) → elem i ids ≡ true → i ≤ through
  pub are_distinct : Distinct ids
  pub rise : Rises k.last_processed_frame_id ids
  pub last_reached : k.last_processed_frame_id ≤ through
  pub proven_processed : k.proven_through_frame_id ≤ k.last_processed_frame_id
  pub distinct : Distinct (pending_ids k.pending)

-- What the loop leaves.
pub record IsDone (ids : List ℕ) (through : ℕ) (k k' : Coordinator) : Type 0 where
  pub steady : IsSteady k'
  pub same_watermark : k'.decoder_watermark ≡ k.decoder_watermark
  pub last_reached : k'.last_processed_frame_id ≤ through
  pub proven_processed : k'.proven_through_frame_id ≤ k'.last_processed_frame_id
  pub distinct : Distinct (pending_ids k'.pending)
  pub left :
      (i : ℕ)
      → elem i (pending_ids k'.pending) ≡ (elem i (pending_ids k.pending) && not (elem i ids))
  pub retires :
      (t : String) → str_elem t k.retired_hand_ids ≡ true → str_elem t k'.retired_hand_ids ≡ true

module _ (i : ℕ) (ids : List ℕ) (through : ℕ) (k : Coordinator) (s : IsReady (i ∷ ids) through k)
    (c : Candidate) (f : c.frame_id ≡ i) (done : Processed)
    (p : Processes c (record k { pending = without_candidate i k.pending }) done.0) where
  settled : IsSteady (after_result c done)
  settled =
      quiet done.0 done.0.last_rejection done.0.pending c.frame_id done.0.decoder_watermark
        done.0.next_owner (unresolved_after done.1.disposition c done.0.unresolved_rejections)
        p.steady

  ids_left : pending_ids done.0.pending ≡ filter (λ j. not (j == i)) (pending_ids k.pending)
  ids_left = ap pending_ids p.same_pending ∙ pending_ids-without i k.pending

  still :
      (j : ℕ)
      → elem j (pending_ids done.0.pending) ≡ (elem j (pending_ids k.pending) && not (j == i))
  still j = ap (elem j) ids_left ∙ elem-filter (λ x. not (x == i)) j (pending_ids k.pending)

  still-Distinct : Distinct (pending_ids done.0.pending)
  still-Distinct = subst Distinct (sym ids_left) (Distinct-filter (λ x. not (x == i)) _ s.distinct)

  through_reached : c.frame_id ≤ through
  through_reached = omega (arith, f, s.are_reached i (ground arith))

  proven_reached : done.0.proven_through_frame_id ≤ c.frame_id
  proven_reached = elim p.proven [
    | inl e ↦ omega (arith, e)
    | inr l ↦ omega (arith, l, f, s.rise.0, s.proven_processed)
  ]

  next-IsReady : IsReady ids through (after_result c done)
  next-IsReady = record {
    steady = settled;
    are_pending = λ j h. ground (arith, still j, s.are_pending j, h, s.are_distinct.0);
    are_positive = λ j h. s.are_positive j (ground (arith, h));
    are_reached = λ j h. s.are_reached j (ground (arith, h));
    are_distinct = s.are_distinct.1;
    rise = subst (λ x. Rises x ids) (sym f) s.rise.1;
    last_reached = through_reached;
    proven_processed = proven_reached;
    distinct = still-Distinct;
  }

  first-IsDone : IsDone (i ∷ []) through k (after_result c done)
  first-IsDone = record {
    steady = settled;
    same_watermark = p.same_watermark;
    last_reached = through_reached;
    proven_processed = proven_reached;
    distinct = still-Distinct;
    left = λ j. ground (arith, still j);
    retires = p.retires;
  }

found-Succeeds :
    (i : ℕ) (ids : List ℕ) (through : ℕ) (k : Coordinator)
    → IsReady (i ∷ ids) through k
    → Succeeds
        (λ (done : Processed). IsReady ids through done.0 × IsDone (i ∷ []) through k done.0)
        (process_found i (find_candidate i k.pending) k)
unfolding ◌>>=◌
found-Succeeds i ids through k s =
    let (c, e, f) = find_candidate-found i k.pending (s.are_pending i (ground arith)) in
    let popped = record k { pending = without_candidate i k.pending } in
    let z : c.frame_id ≢ 0 = λ h. s.are_positive i (ground arith) (sym f ∙ h) in
    rw e (
      Succeeds->>= (process_candidate c popped) _
        (process_candidate-Succeeds c z popped (
          quiet k k.last_rejection (without_candidate i k.pending) k.last_processed_frame_id
            k.decoder_watermark k.next_owner k.unresolved_rejections s.steady))
        λ done _ p.
          succeeds
            (next-IsReady i ids through k s c f done p, first-IsDone i ids through k s c f done p))

chained :
    (i : ℕ) (ids : List ℕ) (through : ℕ) (k m n : Coordinator)
    → IsDone (i ∷ []) through k m
    → IsDone ids through m n
    → IsDone (i ∷ ids) through k n
chained i ids through k m n a b = record {
  steady = b.steady;
  same_watermark = b.same_watermark ∙ a.same_watermark;
  last_reached = b.last_reached;
  proven_processed = b.proven_processed;
  distinct = b.distinct;
  left = λ j. ground (arith, b.left j, a.left j);
  retires = λ t h. b.retires t (a.retires t h);
}

pub process_ready-Succeeds :
    (ids : List ℕ) (through : ℕ) (k : Coordinator)
    → IsReady ids through k
    → Succeeds
        (λ (done : Coordinator × List CandidateResult). IsDone ids through k done.0)
        (process_ready ids k)
unfolding process_ready ◌>>=◌
process_ready-Succeeds [] through k s = succeeds (record {
  steady = s.steady;
  same_watermark = refl;
  last_reached = s.last_reached;
  proven_processed = s.proven_processed;
  distinct = s.distinct;
  left = λ j. ground arith;
  retires = λ t h. h;
})
process_ready-Succeeds (i ∷ ids) through k s =
    Succeeds->>= (process_found i (find_candidate i k.pending) k) _
      (found-Succeeds i ids through k s)
      λ done _ p.
        Succeeds->>= (process_ready ids done.0) _ (process_ready-Succeeds ids through done.0 p.0)
          λ rest _ q. succeeds (chained i ids through k done.0 rest.0 p.1 q)
