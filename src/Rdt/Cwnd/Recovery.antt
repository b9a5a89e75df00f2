-- ===== src/Rdt/Cwnd/Recovery.antt =====
-- Duplicate acks, fast recovery and timeouts of mp2/src/adt.c.
use networking_learning.Base.{
  ℕ, zero, suc, ◌+◌, ◌-◌, ◌≤◌, ◌<◌, ◌≡◌, ◌≢◌, refl, ◌/◌, ◌==◌, ◌⊎◌, inl, inr, ◌∙◌, ◌↔◌, arith, true,
  false, u64_mod, replicate, ap, leb, if◌then◌else◌, le_split,
}
use networking_learning.Rdt.Cwnd.{
  Cwnd, Phase, slow_start, congest_avoid, fast_recov, fast_recov_retrans, ack_slow_start_fn,
  dup_ack_fn, ack_fast_recov_fn, dup_ack_fast_recov_fn, halved, ack_cwnd, confirm_three_dups,
  timeout_cwnd,
}
use networking_learning.Rdt.Cwnd.Invariant.{IsValid, HasRoom, run, apply, timeout}

-- `n` duplicates of the last ack.
unfoldable pub dup_acks : ℕ → Cwnd → Cwnd
dup_acks zero c = c
dup_acks (suc n) c = dup_acks n (ack_cwnd c c.last_ack)

-- The phases outside fast recovery, and those within.
abbrev pub IsOpen : Phase → Type 0
IsOpen p = (p ≡ slow_start) ⊎ (p ≡ congest_avoid)

abbrev pub IsRecovering : Phase → Type 0
IsRecovering p = (p ≡ fast_recov) ⊎ (p ≡ fast_recov_retrans)

-- `__halveWindow` is meant to keep the threshold at 2 at least; it does so for every window but 3.
pub halved-lt-two_iff : (w : ℕ) → (halved w < 2) ↔ (w ≡ 3)
unfolding halved
halved-lt-two_iff w = ground arith

halved_is : (w : ℕ) → halved w ≡ (if leb w 2 then 2 else w / 2)
unfolding halved
halved_is w = ground arith

halved-le : (w b : ℕ) → 2 ≤ b → w ≤ b → halved w ≤ b
unfolding halved
halved-le w b h k = ground arith

-- The window `k` duplicates after the one that started the recovery.
abbrev pub recovering : Cwnd → ℕ → Cwnd
recovering c k = record c {
  window = halved c.window + 3 + k;
  ssthresh = halved c.window;
  dup_ack = 3;
  state = record {
    state = fast_recov_retrans;
    ack = ack_fast_recov_fn;
    dup_ack = dup_ack_fast_recov_fn;
  };
}

dup_step_early :
    {b : ℕ} (c : Cwnd)
    → IsValid b c
    → IsOpen c.state.state
    → c.dup_ack ≤ 1
    → ack_cwnd c c.last_ack ≡ record c { dup_ack = c.dup_ack + 1 }
unfolding ack_cwnd
dup_step_early c v o h = ground arith

dup_step_third :
    {b : ℕ} (c : Cwnd)
    → HasRoom b
    → IsValid b c
    → IsOpen c.state.state
    → c.dup_ack ≡ 2
    → ack_cwnd c c.last_ack ≡ recovering c 0
unfolding ack_cwnd
dup_step_third c r v o h = ground arith

dup_step_recovering :
    (c : Cwnd)
    → c.state.dup_ack ≡ dup_ack_fast_recov_fn
    → c.window + 1 < u64_mod
    → ack_cwnd c c.last_ack ≡ record c { window = c.window + 1 }
unfolding ack_cwnd
dup_step_recovering c p h = ground arith

counted-IsValid :
    {b : ℕ} (c : Cwnd)
    → IsValid b c
    → IsOpen c.state.state
    → c.dup_ack ≤ 1
    → IsValid b (record c { dup_ack = c.dup_ack + 1 })
counted-IsValid c v o h = ground arith

-- Within the recovery each duplicate adds one segment to the window, and nothing else changes.
pub dup_acks_inflate :
    (n : ℕ) (c : Cwnd)
    → c.state.dup_ack ≡ dup_ack_fast_recov_fn
    → c.window + n < u64_mod
    → dup_acks n c ≡ record c { window = c.window + n }
unfolding dup_acks
dup_acks_inflate zero c p h = ground arith
dup_acks_inflate (suc n) c p h =
    rw (dup_step_recovering c p (omega arith))
      (ground (arith, dup_acks_inflate n (record c { window = c.window + 1 })))

-- The first two duplicates change the counter alone.
pub dup_acks_early :
    {b : ℕ} (n : ℕ) (c : Cwnd)
    → IsValid b c
    → IsOpen c.state.state
    → c.dup_ack + n ≤ 2
    → dup_acks n c ≡ record c { dup_ack = c.dup_ack + n }
unfolding dup_acks
dup_acks_early zero c v o h = ground arith
dup_acks_early (suc n) c v o h = rw (dup_step_early c v o (omega arith)) (
    ground (
      arith,
      dup_acks_early n (record c { dup_ack = c.dup_ack + 1 }) (counted-IsValid c v o (omega arith))
          o (omega arith),
    ))

open_dups : {b : ℕ} (c : Cwnd) → IsValid b c → IsOpen c.state.state → c.dup_ack ≤ 2
open_dups c v o = ground arith

dups_split : (n : ℕ) → n ≤ 2 → (n ≤ 1) ⊎ (n ≡ 2)
dups_split n h = omega arith

dup_acks_late :
    (b n k : ℕ) (c : Cwnd)
    → HasRoom b
    → IsValid b c
    → IsOpen c.state.state
    → c.dup_ack + n ≡ 3 + k
    → b + n + 3 < u64_mod
    → dup_acks n c ≡ recovering c k
unfolding dup_acks
dup_acks_late b zero k c r v o e m = absurd (omega (arith, open_dups c v o))
dup_acks_late b (suc n) k c r v o e m = elim (dups_split c.dup_ack (open_dups c v o)) [
  | inl few ↦ rw (dup_step_early c v o few) (
      dup_acks_late b n k (record c { dup_ack = c.dup_ack + 1 }) r (counted-IsValid c v o few) o
        (omega arith) (omega arith))
  | inr two ↦ rw (dup_step_third c r v o two) (
      ground (
        arith,
        halved-le c.window b (omega arith) v.window_le,
        dup_acks_inflate n (recovering c 0) refl
            (omega (arith, halved-le c.window b (omega arith) v.window_le)),
      ))
]

-- Outside fast recovery, `n` duplicates of the last ack leave the counter at `c.dup_ack + n` and
-- change nothing else while that is at most 2; from 3 on the threshold is the halved window and the
-- window is the threshold, three segments and one more for each duplicate past the third. The next
-- `confirmThreeDups` is true exactly from the third duplicate on.
pub dup_acks_lem :
    {b : ℕ} (n : ℕ) (c : Cwnd)
    → HasRoom b
    → b + n + 3 < u64_mod
    → IsValid b c
    → IsOpen c.state.state
    → (dup_acks n c ≡ (
        if leb (c.dup_ack + n) 2
        then record c { dup_ack = c.dup_ack + n }
        else recovering c (c.dup_ack + n - 3)))
      × ((confirm_three_dups (dup_acks n c)).1 ≡ leb 3 (c.dup_ack + n))
unfolding confirm_three_dups
dup_acks_lem {b} n c r m v o = elim (le_split 2 (c.dup_ack + n)) [
  | inl few ↦ rw (dup_acks_early n c v o few) (ground arith, ground arith)
  | inr many ↦
      rw (dup_acks_late b n (c.dup_ack + n - 3) c r v o (omega arith) m)
        (ground arith, ground arith)
]

-- A whole episode outside fast recovery, from a valid state with room for the duplicates: three or
-- more duplicates, the confirmation and then an ack of new data end in congestion avoidance, with the
-- window and the threshold both at half of the window before, or at 2 if that was at most 2, and with
-- the counters of duplicates and of the round at 0.
pub recovery-exit :
    {b : ℕ} (n : ℕ) (c : Cwnd) (new_ack : ℕ)
    → HasRoom b
    → b + n + 3 < u64_mod
    → IsValid b c
    → IsOpen c.state.state
    → 3 ≤ c.dup_ack + n
    → new_ack ≢ c.last_ack
    → let after = ack_cwnd (confirm_three_dups (dup_acks n c)).0 new_ack in
      (after.state.state ≡ congest_avoid)
      × (after.window ≡ (if leb c.window 2 then 2 else c.window / 2))
      × (after.ssthresh ≡ (if leb c.window 2 then 2 else c.window / 2))
      × (after.dup_ack ≡ 0)
      × (after.ack_this_round ≡ 0)
      × (after.last_ack ≡ new_ack)
unfolding confirm_three_dups ack_cwnd
recovery-exit {b} n c new_ack r m v o h ne =
    rw (dup_acks_late b n (c.dup_ack + n - 3) c r v o (omega arith) m, halved_is c.window)
      (ground arith)

-- A confirmation is given once: after it, no further duplicate is confirmed.
pub confirm_once :
    (c : Cwnd) (n : ℕ)
    → c.state.dup_ack ≡ dup_ack_fast_recov_fn
    → c.window + n < u64_mod
    → (confirm_three_dups c).1 ≡ true
    → (confirm_three_dups (dup_acks n (confirm_three_dups c).0)).1 ≡ false
unfolding confirm_three_dups
confirm_once c n p h t = ground (arith, dup_acks_inflate n (confirm_three_dups c).0)

timeout_twice : (c : Cwnd) (n : ℕ) → timeout_cwnd (timeout_cwnd c n) n ≡ timeout_cwnd c n
unfolding timeout_cwnd
timeout_twice c n = ground arith

timeouts_once : (c : Cwnd) (k n : ℕ) → run (replicate (suc k) (timeout n)) c ≡ timeout_cwnd c n
unfolding run apply
timeouts_once c zero n = refl
timeouts_once c (suc k) n =
    ap (run (replicate k (timeout n))) (timeout_twice c n) ∙ timeouts_once c k n

-- One or more timeouts on an ack number, with no ack between them, leave slow start with a window of
-- 1 and no duplicates counted; the threshold becomes half of the window before them, or 2 if that was
-- at most 2, once and for all of them together, and it stays if the last timeout before was on the
-- same number.
pub timeouts_same :
    (c : Cwnd) (k n : ℕ)
    → run (replicate (suc k) (timeout n)) c ≡ record c {
      window = 1;
      dup_ack = 0;
      timeout_ack = n;
      ssthresh =
          if n == c.timeout_ack then c.ssthresh else if leb c.window 2 then 2 else c.window / 2;
      state = record { state = slow_start; ack = ack_slow_start_fn; dup_ack = dup_ack_fn };
    }
unfolding timeout_cwnd halved
timeouts_same c k n = timeouts_once c k n ∙ ground arith
