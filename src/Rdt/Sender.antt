-- ===== src/Rdt/Sender.antt =====
-- The statistics of the sender in mp2/src/adt.c: which sequence number comes next, and whether the
-- window admits it. `char` flags are Booleans, but for `recvFin`, which takes bits of the network.
pub mod Acks
pub mod Send
pub mod Laws
pub mod Packets
pub mod Burst
pub mod Batch
use networking_learning.Base.{
  ℕ, ◌+◌, ◌-◌, ◌/◌, ◌%◌, Bool, true, false, ◌&&◌, ◌||◌, ltb, ◌==◌, if◌then◌else◌, u32_mod, sub64,
  sub32, add32,
}
use networking_learning.Rdt.Constants.{max_payload_len}
use networking_learning.Rdt.Cwnd.{Cwnd, init_cwnd}
use networking_learning.Rdt.Timer.{Timer, init_timer}

pub record SenderStat : Type 0 where
  pub cwnd : Cwnd
  pub total_seq : ℕ
  pub send_base : ℕ
  pub last_sent : ℕ
  pub highest_seq : ℕ
  pub last_chunk : ℕ
  pub timer : Timer
  pub retrans : Bool
  pub recv_fin : ℕ

pub record DiffStat : Type 0 where
  pub send_base : ℕ
  pub three_dups : Bool

-- `stat` comes with whatever the memory held; `fd` is the new timer's descriptor.
unfoldable pub init_sender_stat : SenderStat → ℕ → ℕ → SenderStat
unfolding init_cwnd init_timer
init_sender_stat stat total_bytes fd = record stat {
  send_base = 0;
  highest_seq = u32_mod - 1;
  last_sent = u32_mod - 1;
  total_seq = (1 + sub64 total_bytes 1 / max_payload_len) % u32_mod;
  last_chunk =
      if total_bytes % max_payload_len == 0 then max_payload_len else total_bytes % max_payload_len;
  retrans = false;
  recv_fin = 0;
  cwnd = init_cwnd stat.cwnd;
  timer = init_timer fd;
}

-- `__allowSend`
unfoldable pub in_window : Cwnd → ℕ → ℕ → Bool
in_window c base next_seq = ltb (sub32 next_seq base) c.window

unfoldable pub allow_send : SenderStat → ℕ → Bool
unfolding in_window
allow_send s next_seq =
    (s.retrans || in_window s.cwnd s.send_base next_seq) && ltb next_seq s.total_seq

-- `__getNextSeq`
unfoldable pub seq_after : ℕ → ℕ
seq_after last_sent = add32 last_sent 1

unfoldable pub get_next_seq : SenderStat → ℕ
unfolding seq_after
get_next_seq s =
    if s.retrans || ltb s.last_sent s.send_base then s.send_base else seq_after s.last_sent

unfoldable pub update_next_seq : SenderStat → ℕ → SenderStat × ℕ
unfolding get_next_seq
update_next_seq s last_sent =
    let s₁ = record s { last_sent = last_sent } in
    let s₂ = if s₁.last_sent == s₁.send_base then record s₁ { retrans = false } else s₁ in
    let s₃ = if ltb s₂.highest_seq last_sent then record s₂ { highest_seq = last_sent } else s₂ in
    (s₃, get_next_seq s₃)
