-- ===== src/Pipeline/Accepts.antt =====
-- public_history_pipeline.py: the commit of an accepted probe and `_accepted_result` behind it.
use ranges.Prelude.{
  ◌≡◌, ◌≢◌, refl, sym, ap, ◌∙◌, true, false, str_eq, String, List, ok, err, ◌>>=◌, Succeeds,
  succeeds, Returns-ok, arith,
}
use ranges.Hand.Types.{PublicHandHistory}
use ranges.Recorder.Observation.{RawSnapshot, Collected, SnapshotObservation, read_snapshot}
use ranges.Recorder.Probe.{
  Recorder, ProbeStatus, probe_read, probe_result, probe_snapshot, probe, is_accepted,
}
use ranges.Recorder.Shows.{Shows, IsProof, probe-IsProof}
use ranges.Recorder.Commits.{committed, commit-accepted}
use ranges.Pipeline.State.{CandidateDisposition, Candidate, AcceptedFrame, check_frame, Coordinator}
use ranges.Pipeline.Process.{Processed, accepted_state, accepted_result, commit_to}
use ranges.Pipeline.Names.{str_eq_refl, Shows-hand_id, read_snapshot-Returns}

-- The bundle of an accepted candidate.
abbrev pub bundle : Candidate → PublicHandHistory → AcceptedFrame
bundle c h = record { frame_id = c.frame_id; snapshot = c.snapshot; history = h }

-- What an accepted candidate leaves of the coordinator.
pub record IsAccepted (c : Candidate) (r : Recorder) (k : Coordinator) (retired : List String)
    (done : Coordinator) : Type 0 where
  pub history : PublicHandHistory
  pub snapshot : SnapshotObservation
  pub was_read : read_snapshot c.snapshot ≡ ok snapshot
  pub shows : Shows r.config snapshot history
  pub is_state :
      done
      ≡ accepted_state c history
          (bundle c history)
          (record k { recorder = committed r history snapshot; retired_hand_ids = retired })

check_frame-ok :
    (a : AcceptedFrame)
    → a.frame_id ≢ 0
    → a.snapshot.hand_id ≡ a.history.hand_id
    → check_frame a ≡ ok a
unfolding check_frame ◌>>=◌
check_frame-ok a z e =
    ground (arith, z, ap (str_eq a.snapshot.hand_id) (sym e), str_eq_refl a.snapshot.hand_id)

module _ (c : Candidate) (r : Recorder) (k : Coordinator) (d : CandidateDisposition)
    (z : c.frame_id ≢ 0) (a : is_accepted (probe r c.snapshot).status ≡ true) where
  proof : IsProof r c.snapshot (probe r c.snapshot)
  proof = probe-IsProof r c.snapshot a

  result-Succeeds :
      (retired : List String)
      → Succeeds
          (λ (done : Processed). IsAccepted c r k retired done.0 × (done.1.disposition ≡ d))
          (accepted_result c d (record k {
            recorder = committed r proof.history proof.snapshot;
            retired_hand_ids = retired;
          }))
  unfolding accepted_result ◌>>=◌
  result-Succeeds retired =
      let named =
        Shows-hand_id r.config proof.snapshot proof.history proof.shows
        ∙ (Returns-ok (read_snapshot-Returns c.snapshot) proof.was_read).0 in
      rw (check_frame-ok (bundle c proof.history) z (sym named)) (
        succeeds (
          record {
            history = proof.history;
            snapshot = proof.snapshot;
            was_read = proof.was_read;
            shows = proof.shows;
            is_state = refl;
          },
          refl,
        ))

  pub accepts :
      Succeeds
        (λ (done : Processed).
          IsAccepted c r k k.retired_hand_ids done.0 × (done.1.disposition ≡ d))
        (commit_to (probe r c.snapshot) r k >>= λ k'. accepted_result c d k')
  unfolding commit_to ◌>>=◌
  accepts = rw (commit-accepted r c.snapshot proof a) (result-Succeeds k.retired_hand_ids)

  pub accepts_retiring :
      (retired : List String)
      → Succeeds
          (λ (done : Processed). IsAccepted c r k retired done.0 × (done.1.disposition ≡ d))
          (commit_to (probe r c.snapshot) r k >>= λ k'.
            accepted_result c d (record k' { retired_hand_ids = retired }))
  unfolding commit_to ◌>>=◌
  accepts_retiring retired = rw (commit-accepted r c.snapshot proof a) (result-Succeeds retired)

named_result :
    (r : Recorder) (s : SnapshotObservation) (m : Collected (ProbeStatus × PublicHandHistory))
    → (probe_result r s m).candidate_hand_id ≡ s.hand_id
named_result r s (ok found) = refl
named_result r s (err e) = refl

named_read :
    (r : Recorder) (raw : RawSnapshot) (m : Collected SnapshotObservation)
    → read_snapshot raw ≡ m
    → is_accepted (probe_read r m).status ≡ true
    → ((probe_read r m).candidate_hand_id ≡ raw.hand_id) × (str_eq raw.hand_id "" ≡ false)
unfolding probe_snapshot
named_read r raw (ok s) e a =
    let (n, b) = Returns-ok (read_snapshot-Returns raw) e in (named_result r s _ ∙ n, b)
named_read r raw (err x) e a = absurd (cc)

-- An accepted probe names the hand of the snapshot, and there is one.
pub accepted-named :
    (r : Recorder) (raw : RawSnapshot)
    → is_accepted (probe r raw).status ≡ true
    → ((probe r raw).candidate_hand_id ≡ raw.hand_id) × (str_eq raw.hand_id "" ≡ false)
unfolding probe
accepted-named r raw a = named_read r raw (read_snapshot raw) refl a
