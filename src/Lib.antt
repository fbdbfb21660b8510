-- ===== src/Lib.antt =====
-- Ranges: a poker assistant that reads a table from screenshots. This library models its parts that
-- decide without an image: the replay of a public hand history, the betting of the preflop histories
-- of a blueprint, the detector and the ring of keyframes, and the recorder and the coordinator that turn
-- observations of the table into a transcript.
--
-- Hand models gto_hand_history.py. A transcript of a no-limit hold'em hand (`PublicHandHistory`) is
-- replayed by the class `_Replay`, and the state that it ends in is frozen for the other parts.
--   * Hand/Types: the data classes, `_decimal` and the errors. An error is one constructor for each
--     `raise`; the three `AssertionError`s are told apart.
--   * Hand/Seating: `_next_seat`, `_blind_seats`, `_ordered_after`.
--   * Hand/Header: `_validate_header`, whose results are the `Table`.
--   * Hand/Machine: the fields that change (`Replay`), `_eligible`, `_live`, `_commit_delta`,
--     `_post_forced_bets`, `_normalize_round`, `actor`, `_passive_complete`, `_full_aggression`,
--     `_short_all_in_aggression`, `_pay_to`.
--   * Hand/Actions and Hand/Deals: `_apply_action` and `_apply_deal`.
--   * Hand/View: `_legal_actions` and `freeze`.
--   * Hand/Run: `apply`, `__init__` and `replay_public_hand`.
--   The other files hold the invariant of the replay (Invariant, Turns), that each step keeps it
--   (Pay, Steps, Events, Start, Tables, Totals), what it gives for a whole transcript (Soundness),
--   the order of the seats (Order), and what a state offers its actor (Legal, Extend, Offers).
--
-- Amounts are natural numbers in a unit of 10^-20 big blinds: within the bound that `_decimal` tests,
-- the sums of such decimals fit the 28 digits of the context of `decimal`, so they are exact. An
-- amount with more places, which that context would round, is not modelled. An amount as it is
-- given (`Number`) is such a decimal or one of the values that `_decimal` refuses.
-- Sets and dictionaries over seats are functions. No loop needs fuel: `_ordered_after` counts
-- its rounds down from the number of seats, the others run over lists.
--
-- Preflop models the class `_MutableState` of preflop_history.py, which plays the history of a
-- blueprint node with six players of equal stacks (Preflop/Machine), and on top of it
-- `simulate_history` and `_compatible` (Preflop/Run), for histories that are parsed already. A
-- position is its index in `POSITIONS`. Amounts are natural numbers in a unit of 10^-27 big blinds,
-- which is what the 28 digits of the context of `decimal` resolve from one big blind up; the
-- product `pot * size / 100`, which that context rounds, is the parameter `share_of`. Sums are
-- exact. Queue, Rounds, Keeps and Histories hold the proofs. Preflop/Cards models `_normalize_card`
-- on texts, and Preflop/Classes `hand_class_for_cards` and `expand_class_weights`, with hand classes
-- as data in place of their texts and weights as numbers of a unit, which are added and multiplied
-- exactly. The dictionary of card pairs is the list of its items in the order of their first
-- assignment. Reading, Pairs, Keys, Given and Combos hold the proofs. Preflop/Counts models
-- `hand_class_combo_count` and `_weighted_combo_total` of preflop_blueprint.py.
--
-- Capture models the class `KeyframeRing` of live_capture.py, which hands keyframes from the
-- capture thread to a consumer. Each method holds the lock of the condition for its whole body, so
-- a method is a function on the state `Ring` (Capture/Ring), and the interleavings of the threads
-- are the sequences of calls (Capture/Trace). Calls, Valid, Retention, Ledger, Guard, Merge and
-- Ranges hold the proofs. Capture/Detector models the class `KeyframeDetector`, which selects the
-- keyframes; the comparison of two frames (`FrameSignature.compare`, arithmetic of numpy on pixels)
-- is the parameter `compare`, and its fractions are floats that are only compared. Rising and Watch
-- hold the proofs, Watch with the ring behind the detector.
--
-- Recorder models gto_event_collector.py. An observation of the whole table (Recorder/Observation)
-- anchors a transcript before any voluntary action (Recorder/Anchor) or proves the next action or
-- deal of the retained one (Recorder/Infer, Recorder/Advance); `PublicHandEventRecorder` tells the two steps `probe`
-- and `commit` apart (Recorder/Probe). Every transcript is tested by the replay of Hand. Amounts
-- are in the unit of Hand. The lock is held by each method, so a method is a function on the state;
-- the token that ties a probe to its recorder is a number. Shows, Commits, Moves, Statuses and Trail
-- hold the proofs. The words of the overlay of a player are given as `_canonical_action` finds
-- them, and texts trimmed.
--
-- Pipeline models public_history_pipeline.py. The coordinator (Pipeline/State) buffers decoded
-- observations by frame, and once the decoder's watermark has passed them it gives them to its
-- recorder in the order of their frames (Pipeline/Process, Pipeline/Coordinator). It waits for an
-- anchor, tracks a hand or is gapped, and publishes a snapshot with its transcript only for the last
-- frame passed (Pipeline/Readiness). Each method holds the lock, so the threads' interleavings are
-- the sequences of calls (Pipeline/Calls). Sets of hands are lists, the recorder factory makes
-- recorders of one configuration with new tokens, and `==` of transcripts is Hand/Equality. Names,
-- Accepts, Steady, Keeps, Gaps, Loop and Valid hold the invariant; Promises, Ready, Answers, Lost and
-- Recovery what it gives.
--
-- Not modelled: `wait_for_pending` and `wake_consumers`, which block on the condition and change no
-- state; the wire format and the fingerprint of a transcript; the parsing of preflop histories and
-- the search for the one that matches a table; the parts that read images, draw windows, speak HTTP
-- or run the solver. The type tests of the source (`isinstance`) hold by the types of the model.
pub mod Prelude
pub mod Hand
pub mod Preflop
pub mod Capture
pub mod Recorder
pub mod Pipeline
