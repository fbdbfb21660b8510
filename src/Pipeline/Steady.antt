-- ===== src/Pipeline/Steady.antt =====
-- public_history_pipeline.py: the invariant of the coordinator between candidates.
use mathlib.Core.Path.{subst}
use ranges.Prelude.{
  ◌≡◌, ◌≢◌, ◌≤◌, ◌⊎◌, inl, refl, sym, ap, ◌∙◌, true, false, str_elem, String, List, none, some, ok,
  Returns-ok,
}
use ranges.Recorder.Observation.{SnapshotObservation, read_snapshot}
use ranges.Recorder.Probe.{Recorder}
use ranges.Recorder.Shows.{Shows}
use ranges.Pipeline.State.{Candidate, AcceptedFrame, Coordinator, tracking, gapped, text_or}
use ranges.Pipeline.Process.{is_blank}
use ranges.Pipeline.Accepts.{IsAccepted, bundle}
use ranges.Pipeline.Names.{Shows-hand_id, read_snapshot-Returns}

-- The published bundle: its transcript is the recorder's, which has no error, and replays to a state
-- that the observation read from its snapshot matches.
pub record IsBundle (k : Coordinator) (a : AcceptedFrame) : Type 0 where
  pub snapshot : SnapshotObservation
  pub is_published : k.accepted_frame ≡ some a
  pub is_proven : a.frame_id ≡ k.proven_through_frame_id
  pub is_positive : a.frame_id ≢ 0
  pub is_retained : k.recorder.history ≡ some a.history
  pub has_no_error : k.recorder.error ≡ none
  pub is_active : k.active_hand_id ≡ a.history.hand_id
  pub is_named : a.snapshot.hand_id ≡ a.history.hand_id
  pub was_read : read_snapshot a.snapshot ≡ ok snapshot
  pub shows : Shows k.config snapshot a.history

-- A tracked hand has its bundle and was never retired; the hand of a gap is blocked.
pub record IsSteady (k : Coordinator) : Type 0 where
  pub same_config : k.recorder.config ≡ k.config
  pub bundled : k.status ≡ tracking → (a : AcceptedFrame) × IsBundle k a
  pub unretired : k.status ≡ tracking → str_elem k.active_hand_id k.retired_hand_ids ≡ false
  pub blocked :
      k.status ≡ gapped
      → is_blank (text_or k.active_hand_id k.expected_hand_id) ≡ false
      → str_elem (text_or k.active_hand_id k.expected_hand_id) k.gapped_hand_ids ≡ true

-- What a candidate does to the coordinator, in any status.
pub record Processes (c : Candidate) (k k' : Coordinator) : Type 0 where
  pub steady : IsSteady k'
  pub same_pending : k'.pending ≡ k.pending
  pub same_watermark : k'.decoder_watermark ≡ k.decoder_watermark
  pub same_last : k'.last_processed_frame_id ≡ k.last_processed_frame_id
  pub proven :
      (k'.proven_through_frame_id ≡ c.frame_id)
      ⊎ (k'.proven_through_frame_id ≤ k.proven_through_frame_id)
  pub retires :
      (t : String) → str_elem t k.retired_hand_ids ≡ true → str_elem t k'.retired_hand_ids ≡ true

module _ (c : Candidate) (r : Recorder) (k : Coordinator) (retired : List String)
    (same : r.config ≡ k.config) (z : c.frame_id ≢ 0)
    (fresh : str_elem c.snapshot.hand_id retired ≡ false)
    (grows : (t : String) → str_elem t k.retired_hand_ids ≡ true → str_elem t retired ≡ true) where
  pub accepted-Processes : (k' : Coordinator) → IsAccepted c r k retired k' → Processes c k k'
  accepted-Processes k' i =
      let named : i.history.hand_id ≡ c.snapshot.hand_id =
        Shows-hand_id r.config i.snapshot i.history i.shows
        ∙ (Returns-ok (read_snapshot-Returns c.snapshot) i.was_read).0 in
      subst (Processes c k) (sym i.is_state) (record {
        steady = record {
          same_config = same;
          bundled = λ _. (
            bundle c i.history,
            record {
              snapshot = i.snapshot;
              is_published = refl;
              is_proven = refl;
              is_positive = z;
              is_retained = refl;
              has_no_error = refl;
              is_active = refl;
              is_named = sym named;
              was_read = i.was_read;
              shows = subst (λ d. Shows d i.snapshot i.history) same i.shows;
            },
          );
          unretired = λ _. ap (λ t. str_elem t retired) named ∙ fresh;
          blocked = λ e. absurd (cc);
        };
        same_pending = refl;
        same_watermark = refl;
        same_last = refl;
        proven = inl refl;
        retires = grows;
      })
