-- ===== src/Pipeline/Calls.antt =====
-- public_history_pipeline.py: sequences of calls of the coordinator.
use ranges.Prelude.{
  ℕ, ◌≡◌, refl, ◌∙◌, Bool, true, false, ◌||◌, List, [], ◌∷◌, Option, ok, err, arith, ◌>>=◌, String,
  str_elem, Returns, with_value, Returns->>=, Returns-raise_if, Returns-ok, if◌then◌else◌,
}
use ranges.Recorder.Observation.{Collected, RawSnapshot}
use ranges.Recorder.Probe.{Recorder, invalidate_gap}
use ranges.Pipeline.State.{Coordinator, Checked, add_text}
use ranges.Pipeline.Process.{is_blank, recorded}
use ranges.Pipeline.Coordinator.{
  submit_candidate, advance_decoder_watermark, report_gap, mark_gap, block_rejections,
  is_behind_gap,
}
use ranges.Pipeline.Keeps.{grows}
use ranges.Pipeline.Names.{str_eq_refl}
use ranges.Pipeline.Valid.{IsValid, submit_candidate-Returns, advance-Returns}

invalidate_gap-config :
    (reason : String) (r : Recorder)
    → Returns (λ (s : Recorder). s.config ≡ r.config) (invalidate_gap reason r)
unfolding invalidate_gap
invalidate_gap-config reason r = Returns-raise_if _ _ _ λ _. with_value refl

recorded-ok : {A : Type 0} (m : Collected A) {a : A} → recorded m ≡ ok a → m ≡ ok a
recorded-ok (ok a) h = cc
recorded-ok (err e) h = cc

kept_if : {A : Type 0} (P : A → Type 0) (b : Bool) (x y : A) → P x → P y → P (if b then x else y)
kept_if P true x y p q = p
kept_if P false x y p q = q

blocked_still :
    (g : Option ℕ) (entries : List (ℕ × String)) (found : List String × Bool) (t : String)
    → str_elem t found.0 ≡ true
    → str_elem t (block_rejections g entries found).0 ≡ true
unfolding block_rejections
blocked_still g [] found t h = h
blocked_still g ((i, u) ∷ rest) found t h = blocked_still g rest _ t (
    kept_if (λ (x : List String × Bool). str_elem t x.0 ≡ true) (is_behind_gap g i) found _ h
      (grows u found.0 t h))

pub unlocated_still :
    (g : Option ℕ) (entries : List (ℕ × String)) (found : List String × Bool)
    → found.1 ≡ true
    → (block_rejections g entries found).1 ≡ true
unfolding block_rejections
unlocated_still g [] found h = h
unlocated_still g ((i, u) ∷ rest) found h = unlocated_still g rest _ (
    kept_if (λ (x : List String × Bool). x.1 ≡ true) (is_behind_gap g i) found
      (add_text u found.0, is_blank u || found.1) h (ground (arith, h)))

added : (t : String) (ts : List String) → is_blank t ≡ false → str_elem t (add_text t ts) ≡ true
added t ts b = ground (arith, b, str_eq_refl t)

mark_gap-IsValid :
    (reason : String) (frame_id : Option ℕ) (k : Coordinator) (r : Recorder)
    → r.config ≡ k.config
    → IsValid k
    → IsValid (mark_gap reason frame_id (record k { recorder = r }))
unfolding mark_gap
mark_gap-IsValid reason frame_id k r e v = record {
  steady = record {
    same_config = e;
    bundled = λ t. absurd (cc);
    unretired = λ t. absurd (cc);
    blocked = λ _ b. blocked_still _ k.unresolved_rejections _ _ (added _ k.gapped_hand_ids b);
  };
  proven_processed = v.proven_processed;
  processed_passed = v.processed_passed;
  buffered = v.buffered;
  distinct = v.distinct;
}

report_gap-Returns :
    (reason : String) (frame_id : Option ℕ) (k : Coordinator)
    → IsValid k
    → Returns IsValid (report_gap reason frame_id k)
unfolding report_gap
report_gap-Returns reason frame_id k v = Returns-raise_if _ _ _ λ _. Returns-raise_if _ _ _ λ _.
    Returns->>= (recorded (invalidate_gap reason k.recorder)) _ λ r e. with_value (
      mark_gap-IsValid reason frame_id k r
        (Returns-ok (invalidate_gap-config reason k.recorder) (recorded-ok _ e)
          ∙ v.steady.same_config)
        v)

-- The calls that change the coordinator.
pub data Call : Type 0 where
  submits : ℕ → RawSnapshot → Call
  advances : ℕ → Call
  reports : String → Option ℕ → Call

unfoldable pub call : Call → Coordinator → Checked Coordinator
unfolding ◌>>=◌
call (submits frame_id snapshot) k = submit_candidate frame_id snapshot k
call (advances through) k = advance_decoder_watermark through k >>= λ done. ok done.0
call (reports reason frame_id) k = report_gap reason frame_id k

-- A coordinator that calls without an error lead to.
pub data Leads (k : Coordinator) : Coordinator → Type 0 where
  stays : Leads k k
  calls : {m n : Coordinator} (x : Call) → Leads k m → call x m ≡ ok n → Leads k n

call-Returns : (x : Call) (k : Coordinator) → IsValid k → Returns IsValid (call x k)
unfolding call
call-Returns (submits i snapshot) k v = submit_candidate-Returns i snapshot k v
call-Returns (advances through) k v =
    Returns->>= (advance_decoder_watermark through k) _
      λ done e. with_value (Returns-ok (advance-Returns through k v) e).valid
call-Returns (reports reason frame_id) k v = report_gap-Returns reason frame_id k v

pub Leads-IsValid : {k m : Coordinator} → Leads k m → IsValid k → IsValid m
Leads-IsValid stays v = v
Leads-IsValid (calls {m} {n} x l e) v = Returns-ok (call-Returns x m (Leads-IsValid l v)) e
