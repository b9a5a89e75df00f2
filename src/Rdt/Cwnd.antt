-- ===== src/Rdt/Cwnd.antt =====
-- The congestion window of mp2/src/adt.c: struct CongestionWindow and the functions on it. A
-- function that updates `*cwnd` returns the new record. `size_t` fields wrap at 2 ^ 64, `uint32_t`
-- ones at 2 ^ 32; `dupAck` is an `int`, and `++` on it is written without a wrap.
pub mod Invariant
pub mod Recovery
pub mod Growth
use networking_learning.Base.{
  ℕ, ◌+◌, ◌/◌, Bool, true, false, not, ltb, leb, ◌==◌, if◌then◌else◌, add64, sub32, u32_mod, ◌-◌,
}

-- SLOW_START, CONGEST_AVOID, FAST_RECOV and FAST_RECOV_RETRANS.
pub data Phase : Type 0 where
  slow_start congest_avoid fast_recov fast_recov_retrans : Phase

-- The functions that the pointer `ack` can name.
pub data AckFn : Type 0 where
  ack_slow_start_fn ack_cong_avoid_fn ack_fast_recov_fn : AckFn

-- The functions that the pointer `dupAck` can name.
pub data DupFn : Type 0 where
  dup_ack_fn dup_ack_fast_recov_fn : DupFn

pub record CState : Type 0 where
  pub state : Phase
  pub ack : AckFn
  pub dup_ack : DupFn

pub record Cwnd : Type 0 where
  pub window : ℕ
  pub prior_window : ℕ
  pub ack_this_round : ℕ
  pub ssthresh : ℕ
  pub timeout_ack : ℕ
  pub last_ack : ℕ
  pub dup_ack : ℕ
  pub state : CState

unfoldable pub clear_dup : Cwnd → Cwnd
clear_dup c = record c { dup_ack = 0 }

-- The value that `__halveWindow` gives `ssthresh`.
unfoldable pub halved : ℕ → ℕ
halved w = if ltb 2 w then w / 2 else 2

unfoldable pub halve_window : Cwnd → Cwnd
unfolding halved
halve_window c = record c { ssthresh = halved c.window }

unfoldable pub to_slow_start : Cwnd → Cwnd
to_slow_start c = record c {
  state = record { state = slow_start; ack = ack_slow_start_fn; dup_ack = dup_ack_fn };
}

unfoldable pub to_cong_avoid : Cwnd → Cwnd
to_cong_avoid c = record c {
  state = record { state = congest_avoid; ack = ack_cong_avoid_fn; dup_ack = dup_ack_fn };
  ack_this_round = 0;
}

unfoldable pub to_fast_recov : Cwnd → Cwnd
to_fast_recov c = record c { state = record (c.state) { state = fast_recov } }

unfoldable pub to_fast_recov_retrans : Cwnd → Cwnd
to_fast_recov_retrans c = record c {
  state = record {
    state = fast_recov_retrans;
    ack = ack_fast_recov_fn;
    dup_ack = dup_ack_fast_recov_fn;
  };
}

-- `__dupAck`: the third duplicate starts the fast recovery.
unfoldable pub on_dup_ack : Cwnd → Cwnd
unfolding halve_window to_fast_recov_retrans
on_dup_ack c =
    let c₁ = record c { dup_ack = c.dup_ack + 1 } in
    let c₂ = halve_window c₁ in
    if leb 3 c₁.dup_ack
    then to_fast_recov_retrans (record c₂ { window = add64 c₂.ssthresh 3 })
    else c₁

unfoldable pub ack_slow_start : Cwnd → ℕ → Cwnd
unfolding clear_dup to_cong_avoid
ack_slow_start c ack_num =
    let c₁ = clear_dup c in
    let c₂ = record c₁ { window = add64 c₁.window 1 } in
    if leb c₂.ssthresh c₂.window then to_cong_avoid c₂ else c₂

unfoldable pub ack_cong_avoid : Cwnd → ℕ → Cwnd
unfolding clear_dup
ack_cong_avoid c ack_num =
    let c₁ = clear_dup c in
    let c₂ = record c₁ { ack_this_round = add64 c₁.ack_this_round (sub32 ack_num c₁.last_ack) } in
    if leb c₂.window c₂.ack_this_round
    then record c₂ { window = add64 c₂.window 1; ack_this_round = 0 }
    else c₂

unfoldable pub ack_fast_recov : Cwnd → ℕ → Cwnd
unfolding clear_dup to_cong_avoid
ack_fast_recov c ack_num = to_cong_avoid (clear_dup (record c { window = c.ssthresh }))

unfoldable pub dup_ack_fast_recov : Cwnd → Cwnd
dup_ack_fast_recov c = record c { window = add64 c.window 1 }

-- The calls through the two pointers.
unfoldable pub call_ack : AckFn → Cwnd → ℕ → Cwnd
unfolding ack_slow_start ack_cong_avoid ack_fast_recov
call_ack ack_slow_start_fn c ack_num = ack_slow_start c ack_num
call_ack ack_cong_avoid_fn c ack_num = ack_cong_avoid c ack_num
call_ack ack_fast_recov_fn c ack_num = ack_fast_recov c ack_num

unfoldable pub call_dup_ack : DupFn → Cwnd → Cwnd
unfolding on_dup_ack dup_ack_fast_recov
call_dup_ack dup_ack_fn c = on_dup_ack c
call_dup_ack dup_ack_fast_recov_fn c = dup_ack_fast_recov c

-- `-1` goes through the `uint32_t` fields, so `priorWindow` is 2 ^ 32 - 1. `ackThisRound` keeps
-- what the memory held.
unfoldable pub init_cwnd : Cwnd → Cwnd
unfolding to_slow_start
init_cwnd c = to_slow_start (record c {
  window = 4;
  prior_window = u32_mod - 1;
  last_ack = u32_mod - 1;
  timeout_ack = u32_mod - 1;
  dup_ack = 0;
  ssthresh = 4096;
})

unfoldable pub ack_cwnd : Cwnd → ℕ → Cwnd
unfolding call_ack call_dup_ack
ack_cwnd c ack_num =
    if ack_num == c.last_ack
    then call_dup_ack c.state.dup_ack c
    else record (call_ack c.state.ack c ack_num) { last_ack = ack_num }

unfoldable pub is_fast_recov_retrans : Phase → Bool
is_fast_recov_retrans fast_recov_retrans = true
is_fast_recov_retrans _ = false

unfoldable pub confirm_three_dups : Cwnd → Cwnd × Bool
unfolding is_fast_recov_retrans to_fast_recov
confirm_three_dups c =
    if is_fast_recov_retrans c.state.state then (to_fast_recov c, true) else (c, false)

unfoldable pub timeout_cwnd : Cwnd → ℕ → Cwnd
unfolding halve_window clear_dup to_slow_start
timeout_cwnd c ack_num =
    let c₁ =
      if not (ack_num == c.timeout_ack)
      then halve_window (record c { timeout_ack = ack_num })
      else c in
    to_slow_start (record (clear_dup c₁) { window = 1 })
