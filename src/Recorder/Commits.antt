-- ===== src/Recorder/Commits.antt =====
-- gto_event_collector.py: `commit` on probes of the recorder and of earlier versions.
use ranges.Prelude.{
  Option, Returns, with_value, raised, Returns-raise_if, ◌+◌, ◌≡◌, ◌≢◌, refl, sym, ap, ◌∙◌, true,
  false, ◌==◌, if◌then◌else◌, none, some, ok, err, is_ok, ◌>>=◌, Bool-cases, if_true, if_false,
  ==-same, ==-other, inl, inr, arith,
}
use ranges.Hand.Types.{PublicHandHistory}
use ranges.Recorder.Observation.{
  Collected, RawSnapshot, SnapshotObservation, read_snapshot, foreign_probe, rejected_probe,
  stale_probe,
}
use ranges.Recorder.Probe.{
  ProbeStatus, Probe, Recorder, is_accepted, probe, probe_snapshot, probe_read, probe_result,
  commit, commit_values,
}
use ranges.Recorder.Shows.{IsProof, probe-IsProof}

-- The recorder that a commit of a transcript and its observation leaves.
abbrev pub committed : Recorder → PublicHandHistory → SnapshotObservation → Recorder
committed r h s = record r {
  history = some h;
  last_snapshot = some s;
  error = none;
  version = r.version + 1;
}

probe_result-owner :
    (r : Recorder) (s : SnapshotObservation) (m : Collected (ProbeStatus × PublicHandHistory))
    → ((probe_result r s m).owner ≡ r.owner) × ((probe_result r s m).base_version ≡ r.version)
probe_result-owner r s (ok found) = (refl, refl)
probe_result-owner r s (err e) = (refl, refl)

probe_read-owner :
    (r : Recorder) (m : Collected SnapshotObservation)
    → ((probe_read r m).owner ≡ r.owner) × ((probe_read r m).base_version ≡ r.version)
unfolding probe_snapshot
probe_read-owner r (ok s) = probe_result-owner r s _
probe_read-owner r (err e) = (refl, refl)

pub probe-owner :
    (r : Recorder) (raw : RawSnapshot)
    → ((probe r raw).owner ≡ r.owner) × ((probe r raw).base_version ≡ r.version)
unfolding probe
probe-owner r raw = probe_read-owner r (read_snapshot raw)

-- `commit` as tests.
pub commit-eq-if :
    (p : Probe) (r : Recorder)
    → commit p r ≡ (
        if p.owner == r.owner
        then (if is_accepted p.status
            then commit_values r p p.history p.snapshot
            else err rejected_probe)
        else err foreign_probe)
unfolding commit ◌>>=◌
commit-eq-if p r = ground arith

pub commit_values-eq-if :
    (r : Recorder) (p : Probe) (h : PublicHandHistory) (s : SnapshotObservation)
    → commit_values r p (some h) (some s)
      ≡ (if p.base_version == r.version then ok (committed r h s, h) else err stale_probe)
unfolding ◌>>=◌
commit_values-eq-if r p h s = ground arith

commit-current :
    (p : Probe) (r : Recorder) (h : PublicHandHistory) (s : SnapshotObservation)
    → p.owner ≡ r.owner
    → is_accepted p.status ≡ true
    → p.history ≡ some h
    → p.snapshot ≡ some s
    → commit p r
      ≡ (if p.base_version == r.version then ok (committed r h s, h) else err stale_probe)
commit-current p r h s o a eh es =
    commit-eq-if p r
    ∙ if_true _ _ (==-same o)
    ∙ if_true _ _ a
    ∙ ap (λ x. commit_values r p x p.snapshot) eh
    ∙ ap (commit_values r p (some h)) es
    ∙ commit_values-eq-if r p h s

-- A probe that was accepted is committed to the recorder it was made on: the recorder's transcript
-- and observation are the probe's, the error is gone and the version counts on.
pub commit-accepted :
    (r : Recorder) (raw : RawSnapshot) (i : IsProof r raw (probe r raw))
    → is_accepted (probe r raw).status ≡ true
    → commit (probe r raw) r ≡ ok (committed r i.history i.snapshot, i.history)
commit-accepted r raw i a =
    commit-current (probe r raw) r i.history i.snapshot (probe-owner r raw).0 a i.has_history
      i.has_snapshot
    ∙ if_true _ _ (==-same (probe-owner r raw).1)

-- A rejected probe is not committed.
commit-rejected :
    (p : Probe) (r : Recorder)
    → p.owner ≡ r.owner
    → is_accepted p.status ≡ false
    → commit p r ≡ err rejected_probe
commit-rejected p r o a = commit-eq-if p r ∙ if_true _ _ (==-same o) ∙ if_false _ _ a

-- A probe can be committed to the unchanged recorder it was made on exactly if it was accepted.
pub is_ok-commit-probe :
    (r : Recorder) (raw : RawSnapshot)
    → is_ok (commit (probe r raw) r) ≡ is_accepted (probe r raw).status
is_ok-commit-probe r raw = elim (Bool-cases (is_accepted (probe r raw).status)) [
  | inl a ↦ ap is_ok (commit-accepted r raw (probe-IsProof r raw a) a) ∙ sym a
  | inr a ↦ ap is_ok (commit-rejected (probe r raw) r (probe-owner r raw).0 a) ∙ sym a
]

-- A probe is refused by its recorder once the version has moved: as stale if it was accepted, as
-- rejected otherwise.
pub commit-probe-stale :
    (r r' : Recorder) (raw : RawSnapshot)
    → r'.owner ≡ r.owner
    → r'.version ≢ r.version
    → commit (probe r raw) r'
      ≡ err (if is_accepted (probe r raw).status then stale_probe else rejected_probe)
commit-probe-stale r r' raw o v =
    let mine = (probe-owner r raw).0 ∙ sym o in
    elim (Bool-cases (is_accepted (probe r raw).status)) [
      | inl a ↦
          let i = probe-IsProof r raw a in
          commit-current (probe r raw) r' i.history i.snapshot mine a i.has_history i.has_snapshot
          ∙ if_false _ _ (==-other λ e. v (sym e ∙ (probe-owner r raw).1))
          ∙ ap err (sym (if_true _ _ a))
      | inr a ↦ commit-rejected (probe r raw) r' mine a ∙ ap err (sym (if_false _ _ a))
    ]

-- What a commit that succeeds has taken.
pub record Taken (p : Probe) (r r' : Recorder) : Type 0 where
  pub history : PublicHandHistory
  pub snapshot : SnapshotObservation
  pub was_accepted : is_accepted p.status ≡ true
  pub has_history : p.history ≡ some history
  pub has_snapshot : p.snapshot ≡ some snapshot
  pub is_committed : r' ≡ committed r history snapshot

commit_values-Returns :
    (p : Probe) (r : Recorder) (o : Option PublicHandHistory) (os : Option SnapshotObservation)
    → is_accepted p.status ≡ true
    → p.history ≡ o
    → p.snapshot ≡ os
    → Returns (λ (done : Recorder × PublicHandHistory). Taken p r done.0) (commit_values r p o os)
commit_values-Returns p r none os a eh es = raised
commit_values-Returns p r (some h) none a eh es = raised
commit_values-Returns p r (some h) (some s) a eh es = Returns-raise_if _ _ _ λ _.
    with_value (record {
      history = h;
      snapshot = s;
      was_accepted = a;
      has_history = eh;
      has_snapshot = es;
      is_committed = refl;
    })

pub commit-Returns :
    (p : Probe) (r : Recorder)
    → Returns (λ (done : Recorder × PublicHandHistory). Taken p r done.0) (commit p r)
unfolding commit
commit-Returns p r = Returns-raise_if _ _ _ λ _.
    Returns-raise_if _ _ _
      λ a. commit_values-Returns p r p.history p.snapshot (ground arith) refl refl
