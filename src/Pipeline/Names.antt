-- ===== src/Pipeline/Names.antt =====
-- public_history_pipeline.py: the hand ids of a snapshot, its observation and its transcript.
use ranges.Prelude.{
  ◌≡◌, refl, sym, ◌∙◌, true, false, String, str_eq, eq_iff, Returns, with_value, Returns->>=,
  Returns-raise_if, Returns-ok, arith, Bool-cases, inl, inr,
}
use ranges.Hand.Types.{PublicHandHistory}
use ranges.Hand.View.{ReplayedHandState, freeze}
use ranges.Hand.Run.{replay_public_hand}
use ranges.Recorder.Observation.{RawSnapshot, SnapshotObservation, read_snapshot}
use ranges.Recorder.Anchor.{CollectorConfig, matches}
use ranges.Recorder.Shows.{Shows}

pub str_eq_refl : (s : String) → str_eq s s ≡ true
str_eq_refl s = (eq_iff s s).1 refl

pub str_eq-true : (s t : String) → str_eq s t ≡ true → s ≡ t
str_eq-true s t = (eq_iff s t).0

pub str_eq_comm : (s t : String) → str_eq s t ≡ str_eq t s
str_eq_comm s t = elim (Bool-cases (str_eq s t)) [
  | inl e ↦ e ∙ sym ((eq_iff t s).1 (sym ((eq_iff s t).0 e)))
  | inr e ↦ elim (Bool-cases (str_eq t s)) [
    | inl f ↦ (eq_iff s t).1 (sym ((eq_iff t s).0 f)) ∙ sym f
    | inr f ↦ e ∙ sym f
  ]
]

replay-hand_id :
    (h : PublicHandHistory)
    → Returns (λ (r : ReplayedHandState). r.hand_id ≡ h.hand_id) (replay_public_hand h)
unfolding replay_public_hand freeze
replay-hand_id h = Returns->>= _ _ λ t _. Returns->>= _ _ λ r _. with_value refl

pub Shows-hand_id :
    (c : CollectorConfig) (s : SnapshotObservation) (h : PublicHandHistory)
    → Shows c s h
    → h.hand_id ≡ s.hand_id
unfolding Shows matches
Shows-hand_id c s h (r, e, m) =
    sym (Returns-ok (replay-hand_id h) e) ∙ str_eq-true r.hand_id s.hand_id (ground arith)

-- A snapshot that can be read names a hand, which is that of the observation.
pub read_snapshot-Returns :
    (raw : RawSnapshot)
    → Returns
        (λ (s : SnapshotObservation). (s.hand_id ≡ raw.hand_id) × (str_eq raw.hand_id "" ≡ false))
        (read_snapshot raw)
unfolding read_snapshot
read_snapshot-Returns raw = Returns-raise_if _ _ _ λ e. Returns->>= _ _ λ _ _.
    Returns->>= _ _ λ pot _. Returns->>= _ _ λ players _. Returns-raise_if _ _ _ λ _.
      Returns-raise_if _ _ _ λ _.
        Returns-raise_if _ _ _
          λ _. Returns-raise_if _ _ _ λ _. Returns-raise_if _ _ _ λ _. with_value (refl, e)
