-- ===== src/Rdt/Tests/Window.antt =====
-- The congestion window at concrete inputs.
use networking_learning.Base.{ℕ, ◌+◌, ◌<◌, ◌↔◌, ◌≡◌, refl, inl, true, [], ◌∷◌, arith}
use networking_learning.Rdt.Cwnd.{
  Cwnd, slow_start, congest_avoid, ack_slow_start_fn, ack_cong_avoid_fn, dup_ack_fn, halved,
  init_cwnd, ack_cwnd, confirm_three_dups,
}
use networking_learning.Rdt.Cwnd.Invariant.{
  IsValid, ack, timeout, run, apply, run-init_cwnd-IsValid,
}
use networking_learning.Rdt.Cwnd.Recovery.{
  dup_acks, recovering, halved-lt-two_iff, dup_acks_lem, recovery-exit, timeouts_same,
}
use networking_learning.Rdt.Cwnd.Growth.{ack_list, slow_start-ends, avoid-growth}

abbrev pub start : Cwnd
start = record {
  window = 4;
  prior_window = 0;
  ack_this_round = 9;
  ssthresh = 7;
  timeout_ack = 0;
  last_ack = 10;
  dup_ack = 0;
  state = record { state = slow_start; ack = ack_slow_start_fn; dup_ack = dup_ack_fn };
}

abbrev avoiding : Cwnd
avoiding = record start {
  ack_this_round = 1;
  state = record { state = congest_avoid; ack = ack_cong_avoid_fn; dup_ack = dup_ack_fn };
}

start-IsValid : IsValid 4096 start
start-IsValid = ground arith

avoiding-IsValid : IsValid 4096 avoiding
avoiding-IsValid = ground arith

start_runs : (run (ack 11 ∷ ack 12 ∷ ack 13 ∷ []) start).state.state ≡ congest_avoid
unfolding run apply
start_runs = refl

run-init_cwnd-IsValid_example :
    IsValid 4099 (run (ack 1 ∷ ack 1 ∷ timeout 1 ∷ []) (init_cwnd start))
run-init_cwnd-IsValid_example =
    run-init_cwnd-IsValid (ack 1 ∷ ack 1 ∷ timeout 1 ∷ []) start (omega arith)

halved-lt-two_iff_example : (halved 3 < 2) ↔ ◌≡◌ {A = ℕ} 3 3
halved-lt-two_iff_example = halved-lt-two_iff 3

dup_acks_lem_example :
    (dup_acks 5 start ≡ recovering start 2) × ((confirm_three_dups (dup_acks 5 start)).1 ≡ true)
dup_acks_lem_example = dup_acks_lem 5 start (omega arith) (omega arith) start-IsValid (inl refl)

recovery-exit_example :
    let after = ack_cwnd (confirm_three_dups (dup_acks 3 start)).0 12 in
    (after.state.state ≡ congest_avoid)
    × (after.window ≡ 2)
    × (after.ssthresh ≡ 2)
    × (after.dup_ack ≡ 0)
    × (after.ack_this_round ≡ 0)
    × (after.last_ack ≡ 12)
recovery-exit_example =
    recovery-exit 3 start 12 (omega arith) (omega arith) start-IsValid (inl refl) (omega arith)
      (omega arith)

timeouts_same_example : run (timeout 5 ∷ timeout 5 ∷ timeout 5 ∷ []) start ≡ record start {
  window = 1;
  dup_ack = 0;
  timeout_ack = 5;
  ssthresh = 2;
  state = record { state = slow_start; ack = ack_slow_start_fn; dup_ack = dup_ack_fn };
}
timeouts_same_example = timeouts_same start 2 5

slow_start-ends_example :
    let after = ack_cwnd (ack_list (11 ∷ 13 ∷ []) start) 14 in
    (after.state.state ≡ congest_avoid)
    × (after.window ≡ 7)
    × (after.ssthresh ≡ 7)
    × (after.ack_this_round ≡ 0)
slow_start-ends_example =
    slow_start-ends (11 ∷ 13 ∷ []) 14 start (omega arith) start-IsValid refl (omega arith)
      (omega arith) (omega arith)

avoid-growth_example :
    let after = ack_cwnd (ack_list (11 ∷ 12 ∷ []) avoiding) 15 in
    (after.window ≡ 4 + 1)
    × (after.ack_this_round ≡ 0)
    × (after.ssthresh ≡ 7)
    × (after.state.state ≡ congest_avoid)
avoid-growth_example =
    avoid-growth (11 ∷ 12 ∷ []) 15 avoiding (omega arith) avoiding-IsValid refl (omega arith)
      (omega arith) (omega arith) (omega arith) (omega arith)
