-- ===== src/Pipeline/Keeps.antt =====
-- public_history_pipeline.py: the invariant over one candidate of a waiting or tracking
-- coordinator.
use ranges.Prelude.{
  ℕ, ◌≡◌, ◌≢◌, inr, refl, ap, ◌∙◌, Bool, true, false, not, ◌&&◌, str_eq, str_elem, if◌then◌else◌,
  String, List, Option, arith, Succeeds, succeeds, Succeeds-if,
}
use ranges.Recorder.Probe.{Recorder, probe, is_accepted, Probe, new_recorder}
use ranges.Pipeline.State.{
  Checked, Candidate, Coordinator, waiting_for_anchor, tracking, CandidateDisposition, text_or,
  add_text, Rejection,
}
use ranges.Pipeline.Process.{
  disposition_of, Processed, is_blank, process_waiting, waiting_probed, process_tracking,
  tracking_probed, end_hand, replace_with_waiting_recorder,
}
use ranges.Pipeline.Accepts.{IsAccepted, accepts, accepts_retiring, accepted-named}
use ranges.Pipeline.Steady.{IsSteady, Processes, accepted-Processes}
use ranges.Pipeline.Names.{str_eq_comm, str_eq-true}

-- The fields that the invariant does not read.
pub quiet :
    (k : Coordinator) (rejection : Option Rejection) (pending : List Candidate)
    (last watermark owner : ℕ) (entries : List (ℕ × String))
    → IsSteady k
    → IsSteady (record k {
      last_rejection = rejection;
      pending = pending;
      last_processed_frame_id = last;
      decoder_watermark = watermark;
      next_owner = owner;
      unresolved_rejections = entries;
    })
quiet k rejection pending last watermark owner entries s = record {
  same_config = s.same_config;
  bundled = λ e.
      let (a, b) = s.bundled e in
      (
        a,
        record {
          snapshot = b.snapshot;
          is_published = b.is_published;
          is_proven = b.is_proven;
          is_positive = b.is_positive;
          is_retained = b.is_retained;
          has_no_error = b.has_no_error;
          is_active = b.is_active;
          is_named = b.is_named;
          was_read = b.was_read;
          shows = b.shows;
        },
      );
  unretired = s.unretired;
  blocked = s.blocked;
}

-- A candidate that changes none of them but the text of the rejection.
pub rejects :
    (c : Candidate) (k : Coordinator) (rejection : Option Rejection)
    → IsSteady k
    → Processes c k (record k { last_rejection = rejection })
rejects c k rejection s = record {
  steady =
      quiet k rejection k.pending k.last_processed_frame_id k.decoder_watermark k.next_owner
        k.unresolved_rejections s;
  same_pending = refl;
  same_watermark = refl;
  same_last = refl;
  proven = inr (omega arith);
  retires = λ t e. e;
}

-- A waiting coordinator that expects another hand.
expects :
    (c : Candidate) (k : Coordinator) (rejection : Option Rejection) (expected : String)
    → k.status ≡ waiting_for_anchor
    → IsSteady k
    → Processes c k (record k { expected_hand_id = expected; last_rejection = rejection })
expects c k rejection expected w s = record {
  steady = record {
    same_config = s.same_config;
    bundled = λ e. absurd (cc);
    unretired = s.unretired;
    blocked = λ e. absurd (cc);
  };
  same_pending = refl;
  same_watermark = refl;
  same_last = refl;
  proven = inr (omega arith);
  retires = λ t e. e;
}

pub Succeeds-processed :
    {c : Candidate} {k n : Coordinator} {r : Recorder} {retired : List String}
    {d : CandidateDisposition} {m : Checked Processed}
    → Succeeds (λ (done : Processed). IsAccepted c r n retired done.0 × (done.1.disposition ≡ d)) m
    → ((k' : Coordinator) → IsAccepted c r n retired k' → Processes c k k')
    → Succeeds (λ (done : Processed). Processes c k done.0) m
Succeeds-processed (succeeds p) f = succeeds (f _ p.0)

text_or-same : (a b : String) → a ≡ b → text_or a b ≡ b
text_or-same a b e = ground (arith, e)

pub grows :
    (a : String) (ts : List String) (t : String)
    → str_elem t ts ≡ true
    → str_elem t (add_text a ts) ≡ true
grows a ts t h = ground (arith, h)

module _ (c : Candidate) (k : Coordinator) (s : IsSteady k) (z : c.frame_id ≢ 0) where
  pub waiting-Succeeds :
      k.status ≡ waiting_for_anchor
      → Succeeds (λ (done : Processed). Processes c k done.0) (process_waiting c k)
  unfolding process_waiting waiting_probed
  waiting-Succeeds w =
      Succeeds-if
        (not (is_blank c.snapshot.hand_id) && str_elem c.snapshot.hand_id k.retired_hand_ids) _ _
        (λ _. succeeds (rejects c k _ s))
        λ g.
          Succeeds-if (is_accepted (probe k.recorder c.snapshot).status) _ _
            (λ a. Succeeds-processed (accepts c k.recorder k CandidateDisposition.anchored z a) (
              accepted-Processes c k.recorder k k.retired_hand_ids s.same_config z
                (ground (arith, g, (accepted-named k.recorder c.snapshot a).1)) (λ t e. e)))
            (λ _. succeeds (expects c k _ _ w s))

  ended :
      (b : Bool) (hand_id : String) (rejection : Option Rejection)
      → Processes c k
          (record (if b
            then replace_with_waiting_recorder hand_id
                (record k { retired_hand_ids = add_text k.active_hand_id k.retired_hand_ids })
            else k) { last_rejection = rejection })
  unfolding replace_with_waiting_recorder new_recorder
  ended false hand_id rejection = rejects c k rejection s
  ended true hand_id rejection = record {
    steady = record {
      same_config = refl;
      bundled = λ e. absurd (cc);
      unretired = λ e. absurd (cc);
      blocked = λ e. absurd (cc);
    };
    same_pending = refl;
    same_watermark = refl;
    same_last = refl;
    proven = inr (omega arith);
    retires = grows k.active_hand_id k.retired_hand_ids;
  }

  tracking_retired : Probe → List String
  tracking_retired p =
      if p.replaces_hand
        && not (str_eq k.active_hand_id (text_or p.candidate_hand_id c.snapshot.hand_id))
      then add_text k.active_hand_id k.retired_hand_ids
      else k.retired_hand_ids

  tracking_grows :
      (p : Probe) (t : String)
      → str_elem t k.retired_hand_ids ≡ true
      → str_elem t (tracking_retired p) ≡ true
  unfolding tracking_retired
  tracking_grows p t h = ground (arith, h, grows k.active_hand_id k.retired_hand_ids t h)

  -- The hand of an accepted candidate is not retired, nor by the hand that it replaces.
  not_retired :
      (b : Bool) (raw active : String) (ts : List String)
      → (str_eq raw active ≡ false → str_elem raw ts ≡ false)
      → (str_eq raw active ≡ true → str_elem raw ts ≡ false)
      → str_elem raw (if b && not (str_eq active raw) then add_text active ts else ts) ≡ false
  not_retired b raw active ts f g = ground (arith, f, g, str_eq_comm raw active)

  tracking_fresh :
      k.status ≡ tracking
      → is_accepted (probe k.recorder c.snapshot).status ≡ true
      → (not (is_blank c.snapshot.hand_id)
          && not (str_eq c.snapshot.hand_id k.active_hand_id)
          && str_elem c.snapshot.hand_id k.retired_hand_ids)
        ≡ false
      → str_elem c.snapshot.hand_id (tracking_retired (probe k.recorder c.snapshot)) ≡ false
  unfolding tracking_retired
  tracking_fresh w a g =
      let raw = c.snapshot.hand_id in
      let p = probe k.recorder c.snapshot in
      let (n, b) = accepted-named k.recorder c.snapshot a in
      ap
        (λ h. str_elem raw (
          if p.replaces_hand && not (str_eq k.active_hand_id h)
          then add_text k.active_hand_id k.retired_hand_ids
          else k.retired_hand_ids))
        (text_or-same _ _ n)
      ∙ not_retired p.replaces_hand raw k.active_hand_id k.retired_hand_ids
          (λ e. ground (arith, g, b, e))
          (λ e. ap (λ t. str_elem t k.retired_hand_ids) (str_eq-true _ _ e) ∙ s.unretired w)

  pub tracking-Succeeds :
      k.status ≡ tracking
      → Succeeds (λ (done : Processed). Processes c k done.0) (process_tracking c k)
  unfolding process_tracking tracking_probed end_hand tracking_retired
  tracking-Succeeds w =
      Succeeds-if
        (not (is_blank c.snapshot.hand_id)
          && not (str_eq c.snapshot.hand_id k.active_hand_id)
          && str_elem c.snapshot.hand_id k.retired_hand_ids)
        _ _ (λ _. succeeds (rejects c k _ s))
        λ g.
          let p = probe k.recorder c.snapshot in
          Succeeds-if (is_accepted p.status) _ _
            (λ a.
              Succeeds-processed
                (accepts_retiring c k.recorder k (disposition_of p.status) z a (tracking_retired p))
                (accepted-Processes c k.recorder k (tracking_retired p) s.same_config z
                  (tracking_fresh w a g) (tracking_grows p)))
            (λ _. succeeds (ended _ _ _))
