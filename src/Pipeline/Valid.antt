-- ===== src/Pipeline/Valid.antt =====
-- public_history_pipeline.py: the coordinator behind any sequence of calls.
use mathlib.Core.Path.{subst}
use ranges.Prelude.{
  ℕ, ◌≡◌, ◌≤◌, ◌<◌, refl, sym, ap, ◌∙◌, true, false, ◌&&◌, ltb, leb, List, [], ◌∷◌, ◌++◌, arith,
  String, str_elem, Succeeds, succeeds, Succeeds->>=, Succeeds-skip, Succeeds-Returns, Returns,
  with_value, Returns->>=, Returns-raise_if, Returns-ok, elem, filter, Distinct, elem-filter,
  Distinct-filter, elem-append,
}
use ranges.Hand.Order.{elem-sorted, Distinct-sorted}
use ranges.Recorder.Observation.{RawSnapshot}
use ranges.Recorder.Anchor.{CollectorConfig}
use ranges.Recorder.Probe.{new_recorder}
use ranges.Pipeline.State.{
  Candidate, CandidateResult, Coordinator, new_coordinator, check_candidate,
}
use ranges.Pipeline.Coordinator.{
  pending_ids, submit_candidate, ready_ids, advance_decoder_watermark, process_ready,
}
use ranges.Pipeline.Steady.{IsSteady}
use ranges.Pipeline.Keeps.{quiet}
use ranges.Pipeline.Loop.{IsReady, IsDone, sorted-Rises, process_ready-Succeeds}

-- The invariant between two calls: the frames that are proven, processed and passed stand in this
-- order, and what is buffered lies behind all of them, each frame once.
pub record IsValid (k : Coordinator) : Type 0 where
  pub steady : IsSteady k
  pub proven_processed : k.proven_through_frame_id ≤ k.last_processed_frame_id
  pub processed_passed : k.last_processed_frame_id ≤ k.decoder_watermark
  pub buffered : (i : ℕ) → elem i (pending_ids k.pending) ≡ true → k.decoder_watermark < i
  pub distinct : Distinct (pending_ids k.pending)

pub new_coordinator-IsValid : (c : CollectorConfig) → IsValid (new_coordinator c)
unfolding new_coordinator new_recorder
new_coordinator-IsValid c = record {
  steady = record {
    same_config = refl;
    bundled = λ e. absurd (cc);
    unretired = λ e. absurd (cc);
    blocked = λ e. absurd (cc);
  };
  proven_processed = omega arith;
  processed_passed = omega arith;
  buffered = λ i h. absurd (cc);
  distinct = tt;
}

pending_ids-append :
    (cs : List Candidate) (c : Candidate)
    → pending_ids (cs ++ c ∷ []) ≡ pending_ids cs ++ c.frame_id ∷ []
pending_ids-append [] c = refl
pending_ids-append (d ∷ cs) c = ap (λ xs. d.frame_id ∷ xs) (pending_ids-append cs c)

Distinct-append_one :
    (xs : List ℕ) (x : ℕ) → Distinct xs → elem x xs ≡ false → Distinct (xs ++ x ∷ [])
Distinct-append_one [] x d h = (refl, tt)
Distinct-append_one (y ∷ ys) x d h =
    ground (arith, Distinct-append_one ys x, elem-append y ys (x ∷ []))

submitted :
    (k : Coordinator) (c : Candidate)
    → IsValid k
    → k.decoder_watermark < c.frame_id
    → elem c.frame_id (pending_ids k.pending) ≡ false
    → IsValid (record k { pending = k.pending ++ c ∷ [] })
submitted k c v l n = record {
  steady =
      quiet k k.last_rejection (k.pending ++ c ∷ []) k.last_processed_frame_id k.decoder_watermark
        k.next_owner k.unresolved_rejections v.steady;
  proven_processed = v.proven_processed;
  processed_passed = v.processed_passed;
  buffered = λ i h. ground (
    arith,
    v.buffered i,
    h,
    ap (elem i) (pending_ids-append k.pending c),
    elem-append i (pending_ids k.pending) (c.frame_id ∷ []),
    l,
  );
  distinct =
      subst Distinct (sym (pending_ids-append k.pending c)) (Distinct-append_one _ _ v.distinct n);
}

checked-Returns :
    (c : Candidate) → Returns (λ (d : Candidate). d.frame_id ≡ c.frame_id) (check_candidate c)
unfolding check_candidate
checked-Returns c = Returns-raise_if _ _ _ λ _. with_value refl

pub submit_candidate-Returns :
    (i : ℕ) (snapshot : RawSnapshot) (k : Coordinator)
    → IsValid k
    → Returns IsValid (submit_candidate i snapshot k)
unfolding submit_candidate
submit_candidate-Returns i snapshot k v = Returns->>= _ _ λ c e. Returns-raise_if _ _ _ λ a.
    Returns-raise_if _ _ _ λ b. Returns-raise_if _ _ _ λ d.
      let f : c.frame_id ≡ i =
        Returns-ok (checked-Returns (record { frame_id = i; snapshot = snapshot })) e in
      with_value
        (submitted k c v (ground (arith, a, f)) (ap (λ x. elem x (pending_ids k.pending)) f ∙ d))

ready_elem :
    (k : Coordinator) (through i : ℕ)
    → elem i (ready_ids through k.pending) ≡ (elem i (pending_ids k.pending) && leb i through)
ready_elem k through i =
    elem-sorted i _ ∙ elem-filter (λ j. leb j through) i (pending_ids k.pending)

readied :
    (k : Coordinator) (through : ℕ)
    → IsValid k
    → k.decoder_watermark ≤ through
    → IsReady (ready_ids through k.pending) through k
readied k through v l = record {
  steady = v.steady;
  are_pending = λ i h. ground (arith, ready_elem k through i, h);
  are_positive = λ i h e. ground (arith, v.buffered i, ready_elem k through i, h, e);
  are_reached = λ i h. ground (arith, ready_elem k through i, h);
  are_distinct = Distinct-sorted _ (Distinct-filter (λ j. leb j through) _ v.distinct);
  rise =
      sorted-Rises k.last_processed_frame_id (filter (λ j. leb j through) (pending_ids k.pending))
        λ i h. ground (
          arith,
          v.buffered i,
          elem-filter (λ j. leb j through) i (pending_ids k.pending),
          h,
          v.processed_passed,
        );
  last_reached = omega (arith, v.processed_passed, l);
  proven_processed = v.proven_processed;
  distinct = v.distinct;
}

-- What an advance leaves.
pub record IsAdvanced (through : ℕ) (k k' : Coordinator) : Type 0 where
  pub valid : IsValid k'
  pub passed : k'.decoder_watermark ≡ through
  pub left :
      (i : ℕ) → elem i (pending_ids k'.pending) ≡ (elem i (pending_ids k.pending) && ltb through i)
  pub retires :
      (t : String) → str_elem t k.retired_hand_ids ≡ true → str_elem t k'.retired_hand_ids ≡ true

passed-IsAdvanced :
    (through : ℕ) (k k' : Coordinator)
    → IsDone (ready_ids through k.pending) through k k'
    → IsAdvanced through k (record k' { decoder_watermark = through })
passed-IsAdvanced through k k' d =
    let left : (i : ℕ)
        → elem i (pending_ids k'.pending) ≡ (elem i (pending_ids k.pending) && ltb through i) =
      λ i. ground (arith, d.left i, ready_elem k through i) in
    record {
      valid = record {
        steady =
            quiet k' k'.last_rejection k'.pending k'.last_processed_frame_id through k'.next_owner
              k'.unresolved_rejections d.steady;
        proven_processed = d.proven_processed;
        processed_passed = d.last_reached;
        buffered = λ i h. ground (arith, left i, h);
        distinct = d.distinct;
      };
      passed = refl;
      left = left;
      retires = d.retires;
    }

pub advance-Succeeds :
    (through : ℕ) (k : Coordinator)
    → IsValid k
    → k.decoder_watermark ≤ through
    → Succeeds
        (λ (done : Coordinator × List CandidateResult). IsAdvanced through k done.0)
        (advance_decoder_watermark through k)
unfolding advance_decoder_watermark
advance-Succeeds through k v l = Succeeds-skip _ _ _ (ground (arith, l)) (
    Succeeds->>= (process_ready (ready_ids through k.pending) k) _
      (process_ready-Succeeds (ready_ids through k.pending) through k (readied k through v l))
      λ done _ d. succeeds (passed-IsAdvanced through k done.0 d))

pub advance-Returns :
    (through : ℕ) (k : Coordinator)
    → IsValid k
    → Returns
        (λ (done : Coordinator × List CandidateResult). IsAdvanced through k done.0)
        (advance_decoder_watermark through k)
unfolding advance_decoder_watermark
advance-Returns through k v = Returns-raise_if _ _ _ λ h.
    Returns->>= (process_ready (ready_ids through k.pending) k) _ λ done e. with_value (
      passed-IsAdvanced through k done.0 (
        Returns-ok
          (Succeeds-Returns (
            process_ready-Succeeds (ready_ids through k.pending) through k
              (readied k through v (ground (arith, h)))))
          e))
