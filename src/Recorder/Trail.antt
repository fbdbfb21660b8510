-- ===== src/Recorder/Trail.antt =====
-- gto_event_collector.py: a recorder behind any sequence of calls, with the probes that its callers
-- hold.
use mathlib.Core.Path.{subst}
use ranges.Prelude.{
  ℕ, ◌+◌, ◌≡◌, refl, sym, ◌∙◌, Bool, true, false, if◌then◌else◌, Option, none, some, List, [], ◌∷◌,
  String, ok, Returns, with_value, Returns->>=, Returns-raise_if, Returns-if, Returns-ok,
}
use ranges.Hand.Types.{PublicHandHistory}
use ranges.Recorder.Observation.{CollectionError, RawSnapshot, SnapshotObservation}
use ranges.Recorder.Anchor.{CollectorConfig}
use ranges.Recorder.Probe.{
  Probe, Recorder, new_recorder, is_accepted, probe, commit, reset, invalidate_gap, observe,
}
use ranges.Recorder.Shows.{Shows, probe-IsProof}
use ranges.Recorder.Commits.{Taken, commit-Returns}

-- A probe that some caller holds.
pub data IsHeld (p : Probe) : List Probe → Type 0 where
  newest : {ps : List Probe} → IsHeld p (p ∷ ps)
  older : {q : Probe} {ps : List Probe} → IsHeld p ps → IsHeld p (q ∷ ps)

-- The recorder that `observe` and the other calls leave, with every probe that was ever made.
pub data Reaches (c : CollectorConfig) (owner : ℕ) : List Probe → Recorder → Type 0 where
  starts : Reaches c owner [] (new_recorder c owner)
  probes :
      {ps : List Probe} {r : Recorder} (raw : RawSnapshot)
      → Reaches c owner ps r
      → Reaches c owner (probe r raw ∷ ps) r
  commits :
      {ps : List Probe} {r r' : Recorder} {h : PublicHandHistory} (p : Probe)
      → Reaches c owner ps r
      → IsHeld p ps
      → commit p r ≡ ok (r', h)
      → Reaches c owner ps r'
  observes :
      {ps : List Probe} {r r' : Recorder} {o : Option PublicHandHistory} (raw : RawSnapshot)
      → Reaches c owner ps r
      → observe raw r ≡ ok (r', o)
      → Reaches c owner ps r'
  resets : {ps : List Probe} {r : Recorder} → Reaches c owner ps r → Reaches c owner ps (reset r)
  invalidates :
      {ps : List Probe} {r r' : Recorder} (reason : String)
      → Reaches c owner ps r
      → invalidate_gap reason r ≡ ok r'
      → Reaches c owner ps r'

-- The retained transcript replays to a state that the retained observation matches.
pub data Retained (c : CollectorConfig)
    : Option PublicHandHistory → Option SnapshotObservation → Type 0 where
  nothing : Retained c none none
  retains :
      {h : PublicHandHistory} {s : SnapshotObservation} → Shows c s h → Retained c (some h) (some s)

-- The same of what a probe carries.
record Carried (c : CollectorConfig) (p : Probe) : Type 0 where
  history : PublicHandHistory
  snapshot : SnapshotObservation
  has_history : p.history ≡ some history
  has_snapshot : p.snapshot ≡ some snapshot
  shows : Shows c snapshot history

-- What stays true of a recorder, whatever is called.
abbrev IsKept : CollectorConfig → Recorder → Type 0
IsKept c r = (r.config ≡ c) × Retained c r.history r.last_snapshot

carried :
    (c : CollectorConfig) (r : Recorder) (raw : RawSnapshot)
    → r.config ≡ c
    → is_accepted (probe r raw).status ≡ true
    → Carried c (probe r raw)
carried c r raw e a =
    let i = probe-IsProof r raw a in
    record {
      history = i.history;
      snapshot = i.snapshot;
      has_history = i.has_history;
      has_snapshot = i.has_snapshot;
      shows = subst (λ d. Shows d i.snapshot i.history) e i.shows;
    }

some-injective : {A : Type 0} {a b : A} → some a ≡ some b → a ≡ b
some-injective h = cc

-- A commit of a probe that carries a proof retains it.
taken :
    (c : CollectorConfig) (p : Probe) (r r' : Recorder)
    → r.config ≡ c
    → Taken p r r'
    → Carried c p
    → IsKept c r'
taken c p r r' e t k =
    let f : k.history ≡ t.history = some-injective (sym k.has_history ∙ t.has_history) in
    let g : k.snapshot ≡ t.snapshot = some-injective (sym k.has_snapshot ∙ t.has_snapshot) in
    subst (λ (x : Recorder). (x.config ≡ c) × Retained c x.history x.last_snapshot)
      (sym t.is_committed)
      (e, retains (subst (λ s. Shows c s t.history) g (subst (Shows c k.snapshot) f k.shows)))

refused :
    (c : CollectorConfig) (r : Recorder) (b : Bool) (e : Option CollectionError)
    → IsKept c r
    → let base = if b then reset r else r in
      IsKept c (record base { error = e; version = base.version + 1 })
unfolding reset
refused c r true e (k, _) = (k, nothing)
refused c r false e k = k

observe-Returns :
    (c : CollectorConfig) (raw : RawSnapshot) (r : Recorder)
    → IsKept c r
    → Returns (λ (done : Recorder × Option PublicHandHistory). IsKept c done.0) (observe raw r)
unfolding observe
observe-Returns c raw r k =
    Returns-if (is_accepted (probe r raw).status) _ _
      (λ a. Returns->>= (commit (probe r raw) r) _ λ done m. with_value (
        taken c (probe r raw) r done.0 k.0 (Returns-ok (commit-Returns _ r) m)
          (carried c r raw k.0 a)))
      (λ _. with_value (refused c r (probe r raw).replaces_hand (probe r raw).error k))

invalidate_gap-Returns :
    (c : CollectorConfig) (reason : String) (r : Recorder)
    → IsKept c r
    → Returns (IsKept c) (invalidate_gap reason r)
unfolding invalidate_gap
invalidate_gap-Returns c reason r k = Returns-raise_if _ _ _ λ _. with_value k

holding :
    (c : CollectorConfig) (r : Recorder) (raw : RawSnapshot) (ps : List Probe)
    → r.config ≡ c
    → ((p : Probe) → IsHeld p ps → is_accepted p.status ≡ true → Carried c p)
    → (p : Probe) → IsHeld p (probe r raw ∷ ps)
    → is_accepted p.status ≡ true
    → Carried c p
holding c r raw ps e k p newest a = carried c r raw e a
holding c r raw ps e k p (older h) a = k p h a

traced :
    {c : CollectorConfig} {owner : ℕ} {ps : List Probe} {r : Recorder}
    → Reaches c owner ps r
    → IsKept c r × ((p : Probe) → IsHeld p ps → is_accepted p.status ≡ true → Carried c p)
unfolding new_recorder reset
traced starts = ((refl, nothing), λ p h a. elim h [ ])
traced {c = c} (probes {ps} {r} raw k) =
    let (i, held) = traced k in (i, holding c r raw ps i.0 held)
traced {c = c} (commits {ps} {r} {r'} p k h e) =
    let (i, held) = traced k in
    let t = Returns-ok (commit-Returns p r) e in
    (taken c p r r' i.0 t (held p h t.was_accepted), held)
traced {c = c} (observes {ps} {r} raw k e) =
    let (i, held) = traced k in (Returns-ok (observe-Returns c raw r i) e, held)
traced (resets k) = let (i, held) = traced k in ((i.0, nothing), held)
traced {c = c} (invalidates {ps} {r} reason k e) =
    let (i, held) = traced k in (Returns-ok (invalidate_gap-Returns c reason r i) e, held)

-- After any calls of probe, commit, observe, reset and invalidate_gap, in any order and with
-- probes of any age, a recorder retains a transcript only together with an observation that
-- matches the state which the transcript replays to.
pub Reaches-Retained :
    {c : CollectorConfig} {owner : ℕ} {ps : List Probe} {r : Recorder}
    → Reaches c owner ps r
    → Retained c r.history r.last_snapshot
Reaches-Retained k = (traced k).0.1
