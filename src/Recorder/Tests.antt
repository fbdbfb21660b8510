-- ===== src/Recorder/Tests.antt =====
-- Observations of a three-handed hand: the blinds, and a raise.
use ranges.Prelude.{
  ℕ, ◌≡◌, refl, true, false, some, List, [], ◌∷◌, String, ok, err, is_ok, ◌>>=◌, arith,
}
use ranges.Hand.Types.{PublicHandHistory, Street, preflop, flop}
use ranges.Hand.Tests.{run}
use ranges.Recorder.Observation.{
  RawPlayer, RawSnapshot, VisibleAction, no_action, PlayerStatus, active, PlayerObservation,
  stale_probe,
}
use ranges.Recorder.Observation
use ranges.Recorder.Observation.{
  read_snapshot, check_board, read_players, has_repeat, has_repeated_text, flags_agree,
  insert_player, sort_players,
}
use ranges.Recorder.Infer.{
  infer_action, infer_for, event_for, target_of, new_explicit_action, highest_of,
}
use ranges.Recorder.Advance.{advance, advance_action, advance_deal, deal_event, append_event}
use ranges.Recorder.Anchor.{
  initial_history, matches, player_matches, players_match, any_action, at_seat, player_at,
  all_in_list, CollectorConfig, anchor_history,
}
use ranges.Recorder.Probe.{
  Recorder, Probe, new_recorder, probe, probe_snapshot, evaluate, continue_hand, commit,
  is_accepted, events_added, anchored, advanced,
}
use ranges.Recorder.Shows.{IsProof, probe-IsProof}
use ranges.Recorder.Commits.{is_ok-commit-probe, commit-probe-stale}
use ranges.Recorder.Statuses.{Outcome, probe-Outcome}
use ranges.Recorder.Trail.{Reaches, starts, probes, commits, newest, Retained, Reaches-Retained}

abbrev pub config : CollectorConfig
config = record {
  small_blind_bb = 5;
  big_blind_bb = 10;
  ante_bb = 0;
  rake_rate_pct = 0;
  rake_cap_bb = 0;
  amount_tolerance_bb = 0;
}

abbrev pub player : ℕ → String → ℕ → ℕ → VisibleAction → RawPlayer
player seat position stack bet action = record {
  seat = seat;
  position = position;
  stack = some stack;
  current_bet = some bet;
  status = active;
  visible_action = action;
  is_dealer = false;
}

abbrev pub table : String → ℕ → ℕ → ℕ → VisibleAction → ℕ → RawSnapshot
table hand_id pot stack bet action next = record {
  hand_id = hand_id;
  street = preflop;
  board = [];
  pot = some pot;
  dealer_seat = 1;
  action_on_seat = some next;
  players =
      player 4 "SB" 395 5 no_action
      ∷ player 1 "BTN" stack bet action
      ∷ player 7 "BB" 490 10 no_action
      ∷ [];
}

abbrev pub blinds : RawSnapshot
blinds = table "h1" 15 1000 0 no_action 1

abbrev pub raised : RawSnapshot
raised = table "h1" 45 970 30 Observation.raise 4

abbrev fresh : Recorder
fresh = new_recorder config 1

-- Opens all that a probe calls.
unfoldable pub run_probe : Recorder → RawSnapshot → Probe
unfolding probe probe_snapshot evaluate continue_hand initial_history advance advance_action
    advance_deal infer_action infer_for event_for target_of deal_event append_event
    new_explicit_action matches player_matches players_match any_action at_seat player_at highest_of
    all_in_list read_snapshot check_board read_players has_repeat has_repeated_text flags_agree
    insert_player sort_players run new_recorder
run_probe = probe

abbrev p1 : Probe
p1 = run_probe fresh blinds

-- The recorder behind the commits of both observations.
abbrev anchored_recorder : Recorder
anchored_recorder = record fresh { history = p1.history; last_snapshot = p1.snapshot; version = 1 }

abbrev p2 : Probe
p2 = run_probe anchored_recorder raised

p1_status : p1.status ≡ anchored
unfolding run_probe
p1_status = refl

p2_status : p2.status ≡ advanced
unfolding run_probe
p2_status = refl

abbrev read : String → ℕ → ℕ → ℕ → PlayerObservation
read position seat stack bet = record {
  seat = seat;
  position = position;
  stack = stack;
  current_bet = bet;
  status = active;
  visible_action = no_action;
  is_dealer = false;
}

abbrev pub p1_history : PublicHandHistory
p1_history = anchor_history config (record {
  hand_id = "h1";
  street = preflop;
  board = [];
  pot = 15;
  dealer_seat = 1;
  action_on_seat = some 1;
  players = read "BTN" 1 1000 0 ∷ read "SB" 4 395 5 ∷ read "BB" 7 490 10 ∷ [];
})

p1_commits : commit (probe fresh blinds) fresh ≡ ok (anchored_recorder, p1_history)
unfolding run_probe commit ◌>>=◌
p1_commits = refl

abbrev held : List Probe
held = probe anchored_recorder raised ∷ probe fresh blinds ∷ []

anchored_Reaches : Reaches config 1 held anchored_recorder
anchored_Reaches =
    probes raised (commits (probe fresh blinds) (probes blinds starts) newest p1_commits)

p2_accepted : is_accepted (probe anchored_recorder raised).status ≡ true
unfolding run_probe
p2_accepted = refl

probe-IsProof_example : IsProof anchored_recorder raised (probe anchored_recorder raised)
probe-IsProof_example = probe-IsProof anchored_recorder raised p2_accepted

probe-Outcome_example :
    Outcome anchored_recorder.history p2.status p2.history p2.base_event_count p2.snapshot
unfolding run_probe
probe-Outcome_example = probe-Outcome anchored_recorder raised

abbrev heads_up : Street → List String → ℕ → RawPlayer → RawPlayer → ℕ → RawSnapshot
heads_up street board pot small big next = record {
  hand_id = "h2";
  street = street;
  board = board;
  pot = some pot;
  dealer_seat = 1;
  action_on_seat = some next;
  players = small ∷ big ∷ [];
}

abbrev behind : Recorder → Probe → Recorder
behind r p = record r { history = p.history; last_snapshot = p.snapshot }

-- The blinds; the small blind calls; the big blind checks and the flop is dealt.
abbrev h1 : Probe
h1 =
    run_probe fresh
      (heads_up preflop [] 15 (player 1 "SB" 995 5 no_action) (player 2 "BB" 990 10 no_action) 1)

abbrev h2 : Probe
h2 = run_probe (behind fresh h1) (
    heads_up preflop [] 20 (player 1 "SB" 990 10 Observation.call) (player 2 "BB" 990 10 no_action)
      2)

abbrev h3 : Probe
h3 = run_probe (behind fresh h2) (
    heads_up flop ("Ah" ∷ "Kd" ∷ "2c" ∷ []) 20 (player 1 "SB" 990 0 no_action)
      (player 2 "BB" 990 0 Observation.check) 2)

h3_status : h3.status ≡ advanced
unfolding run_probe
h3_status = refl

-- One probe takes a check and a flop.
h3_adds_two : events_added h3 ≡ 2
unfolding run_probe events_added
h3_adds_two = refl

is_ok-commit-probe_example :
    is_ok (commit (probe anchored_recorder raised) anchored_recorder)
    ≡ is_accepted (probe anchored_recorder raised).status
is_ok-commit-probe_example = is_ok-commit-probe anchored_recorder raised

commit-probe-stale_example : commit (probe fresh blinds) anchored_recorder ≡ err stale_probe
unfolding run_probe
commit-probe-stale_example =
    commit-probe-stale fresh anchored_recorder blinds refl (λ e. omega arith)

Reaches-Retained_example : Retained config anchored_recorder.history anchored_recorder.last_snapshot
Reaches-Retained_example = Reaches-Retained anchored_Reaches
