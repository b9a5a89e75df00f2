-- ===== src/Rdt/Sender/Laws.antt =====
-- What holds of the sender's statistics, and what the window lets out.
use networking_learning.Base.{ℕ, ◌+◌, ◌-◌, ◌*◌, ◌≤◌, ◌<◌, ◌≡◌, ◌⊎◌, false, ltb, min, u32_mod, arith}
use networking_learning.Rdt.Constants.{max_payload_len}
use networking_learning.Rdt.Timer.{Timer}
use networking_learning.Rdt.Sender.{
  SenderStat, init_sender_stat, allow_send, get_next_seq, update_next_seq,
}

-- `initSenderStat` cuts a file of 1 to 1444 * (2 ^ 32 - 1) bytes into `totalSeq` chunks: all but the
-- last are full, and the last holds 1 to 1444 bytes.
pub init_sender_stat-partition :
    (stat : SenderStat) (total_bytes fd : ℕ)
    → 0 < total_bytes
    → total_bytes ≤ 1444 * (u32_mod - 1)
    → let s = init_sender_stat stat total_bytes fd in
      (1 ≤ s.total_seq)
      × ((s.total_seq - 1) * max_payload_len + s.last_chunk ≡ total_bytes)
      × (1 ≤ s.last_chunk)
      × (s.last_chunk ≤ max_payload_len)
unfolding init_sender_stat
init_sender_stat-partition stat n fd h k = ground arith

-- The sequence number before the first one sent is `-1`.
abbrev pub unsent : ℕ
unsent = u32_mod - 1

pub record IsValid (s : SenderStat) : Type 0 where
  pub total_lt : s.total_seq < u32_mod
  pub base_lt : s.send_base < u32_mod
  pub window_pos : 1 ≤ s.cwnd.window
  pub sent_in_range : (s.last_sent < s.total_seq) ⊎ ((s.last_sent ≡ unsent) × (s.send_base ≡ 0))
  pub highest : s.highest_seq ≡ unsent

-- The end of what may be in flight: the window's, or the file's.
abbrev pub limit : SenderStat → ℕ
limit s = min (s.send_base + s.cwnd.window) s.total_seq

pub init_sender_stat-IsValid :
    (stat : SenderStat) (total_bytes fd : ℕ) → IsValid (init_sender_stat stat total_bytes fd)
unfolding init_sender_stat
init_sender_stat-IsValid stat n fd = ground arith

pub base-le-get_next_seq : (s : SenderStat) → IsValid s → s.send_base ≤ get_next_seq s
unfolding get_next_seq
base-le-get_next_seq s v = ground arith

pub get_next_seq-lt : (s : SenderStat) → IsValid s → get_next_seq s < u32_mod
unfolding get_next_seq
get_next_seq-lt s v = ground arith

-- The next sequence number is let out exactly if it lies below the limit.
pub allow_send-next :
    (s : SenderStat) → IsValid s → allow_send s (get_next_seq s) ≡ ltb (get_next_seq s) (limit s)
unfolding allow_send get_next_seq
allow_send-next s v = ground arith

-- The statistics after the packet `seq` went out.
abbrev pub after_sent : SenderStat → ℕ → Timer → SenderStat
after_sent s seq t = record s { last_sent = seq; retrans = false; timer = t }

pub update_next_seq_lem :
    (s : SenderStat) (t : Timer)
    → IsValid s
    → get_next_seq s < s.total_seq
    → update_next_seq (record s { timer = t }) (get_next_seq s)
      ≡ (after_sent s (get_next_seq s) t, get_next_seq s + 1)
unfolding update_next_seq get_next_seq
update_next_seq_lem s t v h = ground arith

pub after_sent-IsValid :
    (s : SenderStat) (t : Timer)
    → IsValid s
    → get_next_seq s < s.total_seq
    → IsValid (after_sent s (get_next_seq s) t)
      × (get_next_seq (after_sent s (get_next_seq s) t) ≡ get_next_seq s + 1)
unfolding get_next_seq
after_sent-IsValid s t v h = ground arith
