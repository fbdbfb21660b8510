-- ===== src/Pipeline/Recovery.antt =====
-- public_history_pipeline.py: the way out of a gap with a frame.
use mathlib.Core.Path.{subst}
use ranges.Prelude.{
  ◌≡◌, ◌≢◌, sym, ap, ◌∙◌, true, false, some, arith, str_elem, Succeeds, Succeeds-if,
  Succeeds-weaken, if_false, ◌+◌, Returns-ok,
}
use ranges.Hand.Types.{PublicHandHistory}
use ranges.Pipeline.State.{Coordinator, tracking, gapped}
use ranges.Pipeline.Process.{is_blank}
use ranges.Pipeline.State.{Candidate, CandidateDisposition, make_recorder, text_or, add_text}
use ranges.Pipeline.Process.{
  Processed, process_candidate, process_as, process_gapped, gapped_probed, note_gapped, is_ignored,
  up_to_gap,
}
use ranges.Recorder.Probe.{probe, is_accepted}
use ranges.Pipeline.Accepts.{accepts_retiring, IsAccepted, bundle, accepted-named}
use ranges.Pipeline.Names.{Shows-hand_id, read_snapshot-Returns}

-- What a candidate that recovers leaves.
pub record IsRecovered (c : Candidate) (k : Coordinator) (done : Processed) : Type 0 where
  pub history : PublicHandHistory
  pub tracks : done.0.status ≡ tracking
  pub follows : done.0.active_hand_id ≡ c.snapshot.hand_id
  pub publishes : done.0.accepted_frame ≡ some (bundle c history)
  pub retires :
      done.0.retired_hand_ids
      ≡ add_text (text_or k.active_hand_id k.expected_hand_id) k.retired_hand_ids

false_true : {A : Type 0} → false ≡ true → A
false_true h = absurd (cc)

recovered :
    (c : Candidate) (k : Coordinator) (done : Processed)
    → IsAccepted c
        (make_recorder k)
        (record k { next_owner = k.next_owner + 1 })
        (add_text (text_or k.active_hand_id k.expected_hand_id) k.retired_hand_ids)
        done.0
    → IsRecovered c k done
recovered c k done i = record {
  history = i.history;
  tracks = ap (λ (x : Coordinator). x.status) i.is_state;
  follows =
      ap (λ (x : Coordinator). x.active_hand_id) i.is_state
      ∙ Shows-hand_id _ i.snapshot i.history i.shows
      ∙ (Returns-ok (read_snapshot-Returns c.snapshot) i.was_read).0;
  publishes = ap (λ (x : Coordinator). x.accepted_frame) i.is_state;
  retires = ap (λ (x : Coordinator). x.retired_hand_ids) i.is_state;
}

probed-IsRecovered :
    (c : Candidate) (k : Coordinator)
    → c.frame_id ≢ 0
    → is_accepted (probe (make_recorder k) c.snapshot).status ≡ true
    → Succeeds (IsRecovered c k) (
        gapped_probed c
          (make_recorder k)
          (probe (make_recorder k) c.snapshot)
          (record k { next_owner = k.next_owner + 1 }))
unfolding gapped_probed
probed-IsRecovered c k z a =
    let r = make_recorder k in
    let made = record k { next_owner = k.next_owner + 1 } in
    Succeeds-if (is_accepted (probe r c.snapshot).status) _ _
      (λ _.
        Succeeds-weaken
          (accepts_retiring c r made CandidateDisposition.anchored z a
            (add_text (text_or k.active_hand_id k.expected_hand_id) k.retired_hand_ids))
          (λ done p. recovered c k done p.0))
      (λ f. false_true (sym f ∙ a))

not_ignored :
    (c : Candidate) (k : Coordinator)
    → k.unknown_hand_before_gap ≡ false
    → up_to_gap k.gap_frame_id c.frame_id ≡ false
    → str_elem c.snapshot.hand_id k.gapped_hand_ids ≡ false
    → str_elem c.snapshot.hand_id k.retired_hand_ids ≡ false
    → is_blank c.snapshot.hand_id ≡ false
    → is_ignored c k ≡ false
unfolding is_ignored
not_ignored c k u g b r n = ground (arith, u, g, b, r, n)

noted_behind :
    (c : Candidate) (k : Coordinator)
    → up_to_gap k.gap_frame_id c.frame_id ≡ false
    → note_gapped c k ≡ k
unfolding note_gapped
noted_behind c k g = if_false _ _ g

gapped-IsRecovered :
    (c : Candidate) (k : Coordinator)
    → up_to_gap k.gap_frame_id c.frame_id ≡ false
    → is_ignored c k ≡ false
    → c.frame_id ≢ 0
    → is_accepted (probe (make_recorder k) c.snapshot).status ≡ true
    → Succeeds (IsRecovered c k) (process_gapped c k)
unfolding process_gapped
gapped-IsRecovered c k g i z a = rw (noted_behind c k g) (rw i (probed-IsRecovered c k z a))

-- A gapped coordinator that knows every hand before its gap takes a candidate behind the gap, of a
-- hand that is neither blocked nor retired, which a new recorder accepts: it tracks that hand,
-- publishes the candidate's bundle and retires the hand of the gap.
pub process_candidate-IsRecovered :
    (c : Candidate) (k : Coordinator)
    → k.status ≡ gapped
    → k.unknown_hand_before_gap ≡ false
    → up_to_gap k.gap_frame_id c.frame_id ≡ false
    → str_elem c.snapshot.hand_id k.gapped_hand_ids ≡ false
    → str_elem c.snapshot.hand_id k.retired_hand_ids ≡ false
    → c.frame_id ≢ 0
    → is_accepted (probe (make_recorder k) c.snapshot).status ≡ true
    → Succeeds (IsRecovered c k) (process_candidate c k)
unfolding process_candidate
process_candidate-IsRecovered c k w u g b r z a =
    subst (λ s. Succeeds (IsRecovered c k) (process_as s c k)) (sym w)
      (gapped-IsRecovered c k g
        (not_ignored c k u g b r (accepted-named (make_recorder k) c.snapshot a).1) z a)
