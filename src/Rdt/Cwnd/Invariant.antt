-- ===== src/Rdt/Cwnd/Invariant.antt =====
-- What holds of the congestion window between two calls of mp2/src/adt.c.
use networking_learning.Base.{ℕ, ◌+◌, ◌^◌, ◌≤◌, ◌<◌, ◌≡◌, List, [], ◌∷◌, length, arith, u64_mod}
use networking_learning.Rdt.Cwnd.{
  Cwnd, Phase, slow_start, congest_avoid, AckFn, ack_slow_start_fn, ack_cong_avoid_fn,
  ack_fast_recov_fn, DupFn, dup_ack_fn, dup_ack_fast_recov_fn, init_cwnd, ack_cwnd,
  confirm_three_dups, timeout_cwnd,
}

-- The functions that a phase installs.
abbrev pub ack_of : Phase → AckFn
ack_of slow_start = ack_slow_start_fn
ack_of congest_avoid = ack_cong_avoid_fn
ack_of _ = ack_fast_recov_fn

abbrev pub dup_of : Phase → DupFn
dup_of slow_start = dup_ack_fn
dup_of congest_avoid = dup_ack_fn
dup_of _ = dup_ack_fast_recov_fn

-- The counter of duplicates that a phase allows: at most two before the fast recovery.
abbrev pub DupsFit : Phase → ℕ → Type 0
DupsFit slow_start n = n ≤ 2
DupsFit congest_avoid n = n ≤ 2
DupsFit _ n = n ≡ 3

-- The relation of window, threshold and acks of the round that a phase keeps.
abbrev pub WindowFits : Phase → Cwnd → Type 0
WindowFits slow_start c = c.window ≤ c.ssthresh
WindowFits congest_avoid c = c.ack_this_round < c.window
WindowFits _ c = c.ssthresh ≤ c.window

-- `b` bounds the window and the threshold.
pub record IsValid (b : ℕ) (c : Cwnd) : Type 0 where
  pub ack_pointer : c.state.ack ≡ ack_of c.state.state
  pub dup_pointer : c.state.dup_ack ≡ dup_of c.state.state
  pub window_pos : 1 ≤ c.window
  pub ssthresh_pos : 1 ≤ c.ssthresh
  pub window_le : c.window ≤ b
  pub ssthresh_le : c.ssthresh ≤ b
  pub dups : DupsFit c.state.state c.dup_ack
  pub fits : WindowFits c.state.state c

-- Room for three more segments in a `size_t`, beside a round of acks.
abbrev pub HasRoom : ℕ → Type 0
HasRoom b = (5 ≤ b) × (b + 2 ^ 33 < u64_mod)

-- The calls that the sender makes.
pub data Call : Type 0 where
  ack : ℕ → Call
  confirm : Call
  timeout : ℕ → Call

unfoldable pub apply : Call → Cwnd → Cwnd
unfolding ack_cwnd confirm_three_dups timeout_cwnd
apply (ack n) c = ack_cwnd c n
apply confirm c = (confirm_three_dups c).0
apply (timeout n) c = timeout_cwnd c n

unfoldable pub run : List Call → Cwnd → Cwnd
run [] c = c
run (k ∷ ks) c = run ks (apply k c)

pub IsValid-mono : {a b : ℕ} {c : Cwnd} → IsValid a c → a ≤ b → IsValid b c
IsValid-mono v h = record {
  ack_pointer = v.ack_pointer;
  dup_pointer = v.dup_pointer;
  window_pos = v.window_pos;
  ssthresh_pos = v.ssthresh_pos;
  window_le = omega arith;
  ssthresh_le = omega arith;
  dups = v.dups;
  fits = v.fits;
}

pub init_cwnd-IsValid : (c : Cwnd) → IsValid 4096 (init_cwnd c)
unfolding init_cwnd
init_cwnd-IsValid c = ground arith

pub ack_cwnd-IsValid :
    {b : ℕ} (c : Cwnd) (n : ℕ) → HasRoom b → IsValid b c → IsValid (b + 1) (ack_cwnd c n)
unfolding ack_cwnd
ack_cwnd-IsValid c n r v = ground arith

pub confirm_three_dups-IsValid :
    {b : ℕ} (c : Cwnd) → IsValid b c → IsValid b (confirm_three_dups c).0
unfolding confirm_three_dups
confirm_three_dups-IsValid c v = ground arith

pub timeout_cwnd-IsValid :
    {b : ℕ} (c : Cwnd) (n : ℕ) → HasRoom b → IsValid b c → IsValid b (timeout_cwnd c n)
unfolding timeout_cwnd
timeout_cwnd-IsValid c n r v = ground arith

pub apply-IsValid :
    {b : ℕ} (k : Call) (c : Cwnd) → HasRoom b → IsValid b c → IsValid (b + 1) (apply k c)
unfolding apply
apply-IsValid (ack n) c r v = ack_cwnd-IsValid c n r v
apply-IsValid confirm c r v = IsValid-mono (confirm_three_dups-IsValid c v) (omega arith)
apply-IsValid (timeout n) c r v = IsValid-mono (timeout_cwnd-IsValid c n r v) (omega arith)

run-IsValid :
    (ks : List Call) (b : ℕ) (c : Cwnd)
    → 5 ≤ b
    → b + length ks + 2 ^ 33 < u64_mod
    → IsValid b c
    → IsValid (b + length ks) (run ks c)
unfolding run
run-IsValid [] b c h r v = IsValid-mono v (omega arith)
run-IsValid (k ∷ ks) b c h r v =
    IsValid-mono
      (run-IsValid ks (b + 1) (apply k c) (omega arith) (omega arith)
        (apply-IsValid k c (omega arith) v))
      (omega arith)

-- From `initCwnd`, whatever the memory held before, any sequence of fewer than 2 ^ 62 calls of
-- `ackCwnd`, `confirmThreeDups` and `timeoutCwnd` leaves the window and the threshold between 1
-- and 4096 plus the number of calls (so no `size_t` wraps), the function pointers those of the
-- phase, the counter of duplicates at most 2 before the fast recovery and 3 within it, the window
-- at most the threshold in slow start, and the acks of the round below the window in congestion
-- avoidance.
pub run-init_cwnd-IsValid :
    (ks : List Call) (c : Cwnd)
    → length ks < 2 ^ 62
    → IsValid (4096 + length ks) (run ks (init_cwnd c))
run-init_cwnd-IsValid ks c h =
    run-IsValid ks 4096 (init_cwnd c) (omega arith) (omega arith) (init_cwnd-IsValid c)
