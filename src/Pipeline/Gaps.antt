-- ===== src/Pipeline/Gaps.antt =====
-- public_history_pipeline.py: the invariant over one candidate of a gapped coordinator, and of
-- any.
use ranges.Prelude.{
  ◌+◌, ◌≡◌, ◌≢◌, inl, inr, refl, sym, ap, ◌∙◌, Bool, true, false, ◌||◌, str_eq, str_elem,
  if◌then◌else◌, String, List, ok, arith, Succeeds, Succeeds-weaken, succeeds, Succeeds-if,
  Bool-cases,
}
use ranges.Recorder.Probe.{probe, is_accepted, new_recorder}
use ranges.Pipeline.State.{
  CandidateResult, Candidate, Coordinator, PublicHistoryStatus, waiting_for_anchor, tracking,
  gapped, CandidateDisposition, text_or, add_text, make_recorder,
}
use ranges.Pipeline.Process.{
  up_to_gap, ignored_result, Processed, is_blank, process_gapped, gapped_probed, note_gapped,
  is_ignored, process_as, process_candidate,
}
use ranges.Pipeline.Accepts.{accepts_retiring}
use ranges.Pipeline.Steady.{IsSteady, Processes, accepted-Processes}
use ranges.Pipeline.Names.{str_eq-true}
use ranges.Pipeline.Keeps.{
  quiet, rejects, grows, Succeeds-processed, waiting-Succeeds, tracking-Succeeds,
}

transfer :
    (c : Candidate) (k k' : Coordinator) (blocked : List String) (unknown : Bool)
    → Processes c (record k { gapped_hand_ids = blocked; unknown_hand_before_gap = unknown }) k'
    → Processes c k k'
transfer c k k' blocked unknown p = record {
  steady = p.steady;
  same_pending = p.same_pending;
  same_watermark = p.same_watermark;
  same_last = p.same_last;
  proven = p.proven;
  retires = p.retires;
}

owned :
    (c : Candidate) (k k' : Coordinator)
    → Processes c (record k { next_owner = k.next_owner + 1 }) k'
    → Processes c k k'
owned c k k' p = record {
  steady = p.steady;
  same_pending = p.same_pending;
  same_watermark = p.same_watermark;
  same_last = p.same_last;
  proven = p.proven;
  retires = p.retires;
}

-- A gapped coordinator that blocks more hands.
blocks :
    (k : Coordinator) (hand_id : String) (unknown : Bool)
    → k.status ≡ gapped
    → IsSteady k
    → IsSteady (record k {
      gapped_hand_ids = add_text hand_id k.gapped_hand_ids;
      unknown_hand_before_gap = unknown;
    })
blocks k hand_id unknown w s = record {
  same_config = s.same_config;
  bundled = λ e. absurd (cc);
  unretired = s.unretired;
  blocked = λ e b. grows hand_id k.gapped_hand_ids _ (s.blocked e b);
}

-- A hand outside a list is not the one that stands in it.
outside :
    (raw other : String) (ts us : List String)
    → str_elem raw ts ≡ false
    → str_elem raw us ≡ false
    → (is_blank other ≡ false → str_elem other us ≡ true)
    → str_elem raw (add_text other ts) ≡ false
outside raw other ts us f g h = elim (Bool-cases (str_eq raw other)) [
  | inl e ↦ ground (arith, f, h, sym (ap (λ t. str_elem t us) (str_eq-true _ _ e)) ∙ g)
  | inr e ↦ ground (arith, e, f)
]

module _ (c : Candidate) (z : c.frame_id ≢ 0) where
  behind_gap :
      (k : Coordinator)
      → k.status ≡ gapped
      → IsSteady k
      → is_ignored c k ≡ false
      → Succeeds
          (λ (done : Processed). Processes c k done.0)
          (gapped_probed c
            (make_recorder k)
            (probe (make_recorder k) c.snapshot)
            (record k { next_owner = k.next_owner + 1 }))
  unfolding gapped_probed is_ignored new_recorder
  behind_gap k w s g =
      let blocked = text_or k.active_hand_id k.expected_hand_id in
      let made = record k { next_owner = k.next_owner + 1 } in
      let r = make_recorder k in
      Succeeds-if (is_accepted (probe r c.snapshot).status) _ _
        (λ a.
          Succeeds-processed
            (accepts_retiring c r made CandidateDisposition.anchored z a
              (add_text blocked k.retired_hand_ids))
            (λ k' i. owned c k k' (
              accepted-Processes c r made (add_text blocked k.retired_hand_ids) refl z
                (outside c.snapshot.hand_id blocked k.retired_hand_ids k.gapped_hand_ids
                  (ground (arith, g)) (ground (arith, g)) (s.blocked w))
                (grows blocked k.retired_hand_ids) k' i)))
        (λ _. succeeds (
          owned c k _ (
            rejects c made _ (
              quiet k k.last_rejection k.pending k.last_processed_frame_id k.decoder_watermark
                (k.next_owner + 1) k.unresolved_rejections s))))

  either :
      (k : Coordinator)
      → k.status ≡ gapped
      → IsSteady k
      → (result : CandidateResult)
      → Succeeds
          (λ (done : Processed). Processes c k done.0)
          (if is_ignored c k
            then ok (k, result)
            else gapped_probed c
                (make_recorder k)
                (probe (make_recorder k) c.snapshot)
                (record k { next_owner = k.next_owner + 1 }))
  either k w s result =
      Succeeds-if (is_ignored c k) _ _ (λ _. succeeds (rejects c k k.last_rejection s))
        (behind_gap k w s)

  noted :
      (k : Coordinator) (b : Bool)
      → k.status ≡ gapped
      → IsSteady k
      → (result : Coordinator → CandidateResult)
      → let n =
          if b
          then record k {
            gapped_hand_ids = add_text c.snapshot.hand_id k.gapped_hand_ids;
            unknown_hand_before_gap = is_blank c.snapshot.hand_id || k.unknown_hand_before_gap;
          }
          else k in
        Succeeds
          (λ (done : Processed). Processes c k done.0)
          (if is_ignored c n
            then ok (n, result n)
            else gapped_probed c
                (make_recorder n)
                (probe (make_recorder n) c.snapshot)
                (record n { next_owner = n.next_owner + 1 }))
  noted k false w s result = either k w s (result k)
  noted k true w s result =
      let n = record k {
        gapped_hand_ids = add_text c.snapshot.hand_id k.gapped_hand_ids;
        unknown_hand_before_gap = is_blank c.snapshot.hand_id || k.unknown_hand_before_gap;
      } in
      Succeeds-weaken (either n w (blocks k c.snapshot.hand_id _ w s) (result n))
        λ done p. transfer c k done.0 _ _ p

  gapped-Succeeds :
      (k : Coordinator)
      → k.status ≡ gapped
      → IsSteady k
      → Succeeds (λ (done : Processed). Processes c k done.0) (process_gapped c k)
  unfolding process_gapped note_gapped
  gapped-Succeeds k w s =
      noted k (up_to_gap k.gap_frame_id c.frame_id) w s
        (ignored_result c (text_or k.active_hand_id k.expected_hand_id))

  by_status :
      (k : Coordinator) (status : PublicHistoryStatus)
      → k.status ≡ status
      → IsSteady k
      → Succeeds (λ (done : Processed). Processes c k done.0) (process_as status c k)
  by_status k waiting_for_anchor w s = waiting-Succeeds c k s z w
  by_status k tracking w s = tracking-Succeeds c k s z w
  by_status k gapped w s = gapped-Succeeds k w s

  -- A candidate never raises, whatever the status is.
  pub process_candidate-Succeeds :
      (k : Coordinator)
      → IsSteady k
      → Succeeds (λ (done : Processed). Processes c k done.0) (process_candidate c k)
  unfolding process_candidate
  process_candidate-Succeeds k s = by_status k k.status refl s
