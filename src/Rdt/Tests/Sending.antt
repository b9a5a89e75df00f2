-- ===== src/Rdt/Tests/Sending.antt =====
-- The sender at concrete inputs.
use networking_learning.Base.{
  ℕ, ◌+◌, ◌-◌, ◌*◌, ◌≤◌, ◌<◌, ◌≡◌, refl, inl, inr, true, false, List, [], ◌∷◌, ◌++◌, length, arith,
  replicate, u32_mod, take, drop, done, ◌>>=◌, length-replicate,
}
use networking_learning.Rdt.Constants.{
  AckPacket, RdtPacket, sent, interrupted, again, max_payload_len, zero_packet,
}
use networking_learning.Rdt.Cwnd.{timeout_cwnd}
use networking_learning.Rdt.Timer.{Replies}
use networking_learning.Rdt.Timer
use networking_learning.Rdt.Sender.{
  SenderStat, DiffStat, get_next_seq, allow_send, init_sender_stat,
}
use networking_learning.Rdt.Sender.Laws.{IsValid, init_sender_stat-partition}
use networking_learning.Rdt.Sender.Packets.{
  Describes, packet_at, packets, packet_for_lem, prepare_packet-wraps,
}
use networking_learning.Rdt.Sender.Send.{Sent, sendpkts, packet_for, prepare_packet}
use networking_learning.Rdt.Sender.Burst.{span, after_burst, sendpkts-all, sendpkts-refused}
use networking_learning.Rdt.Sender.Acks.{ack_all, merge}
use networking_learning.Rdt.Sender.Batch.{
  acked, admitted, answered, awaits_retrans, wants_retrans, merged_cwnd, timer_runs, ack_all_lem,
  merge_lem,
}
use networking_learning.Rdt.Transfer.{AckReply, packet, recv_all}
use networking_learning.Rdt.Transfer.Guard.{
  IsGuarded, merge-sendpkts-IsGuarded, lost_retransmission,
}
use networking_learning.Rdt.Transfer.Reading.{recv_all_lem}
use networking_learning.Rdt.Tests.Window.{start}

-- Three chunks, the last of one byte.
abbrev file : List ℕ
file = replicate 2889 7

-- Chunk 0 is sent and not acked.
abbrev stat : SenderStat
stat = record {
  cwnd = start;
  total_seq = 3;
  send_base = 0;
  last_sent = 0;
  highest_seq = u32_mod - 1;
  last_chunk = 1;
  timer = record { fd = 4; running = true };
  retrans = false;
  recv_fin = 0;
}

stat-IsValid : IsValid stat
stat-IsValid = ground arith

stat-Describes : Describes stat file
stat-Describes = omega (arith, length-replicate {A = ℕ} 2889 7)

init_sender_stat-partition_example :
    let s = init_sender_stat stat 2889 4 in
    (1 ≤ s.total_seq)
    × ((s.total_seq - 1) * max_payload_len + s.last_chunk ≡ 2889)
    × (1 ≤ s.last_chunk)
    × (s.last_chunk ≤ max_payload_len)
init_sender_stat-partition_example =
    init_sender_stat-partition stat 2889 4 (omega arith) (omega arith)

packet_for_lem_example : packet_for file stat 2 ≡ done (packet_at file 3 2)
packet_for_lem_example = packet_for_lem stat file 2 stat-Describes (omega arith)

sendpkts-all_example :
    sendpkts (sent ∷ interrupted ∷ sent ∷ []) false file stat true
    ≡ done (record {
      succeeds = true;
      stat = after_burst (span stat) stat;
      writable = true;
      out = packets file 3 (get_next_seq stat) (span stat);
    })
unfolding get_next_seq
sendpkts-all_example =
    sendpkts-all (sent ∷ interrupted ∷ sent ∷ []) file stat stat-IsValid stat-Describes tt
      (omega arith)

sendpkts-refused_example :
    sendpkts (sent ∷ again ∷ []) false file stat true
    ≡ done (record {
      succeeds = true;
      stat = after_burst 1 stat;
      writable = false;
      out = packets file 3 (get_next_seq stat) 1;
    })
unfolding get_next_seq
sendpkts-refused_example =
    sendpkts-refused (sent ∷ []) [] file stat stat-IsValid stat-Describes tt (omega arith)

abbrev ack_of : ℕ → AckPacket
ack_of n = record { seq_num = 0; ack_num = n; fin_byte = 0 }

ack_all_lem_example :
    let seen = acked (admitted 0 (ack_of 1 ∷ ack_of 0 ∷ ack_of 1 ∷ [])) stat in
    let c = seen.cwnd in
    ack_all (ack_of 1 ∷ ack_of 0 ∷ ack_of 1 ∷ []) stat ≡ (
      record seen {
        cwnd = record c { state = record (c.state) { state = answered c.state.state } };
      },
      record { send_base = 1; three_dups = awaits_retrans c.state.state },
    )
ack_all_lem_example = ack_all_lem (ack_of 1 ∷ ack_of 0 ∷ ack_of 1 ∷ []) stat

abbrev replies : Replies
replies = record { reads = Timer.again ∷ []; settime_fails = false }

abbrev news : DiffStat
news = record { send_base = 1; three_dups = false }

abbrev no_news : DiffStat
no_news = record { send_base = 0; three_dups = false }

merge_lem_example :
    merge replies stat news true
    ≡ done (record stat {
      send_base = 1;
      retrans = wants_retrans stat news true;
      cwnd = merged_cwnd stat news true;
      timer = record { fd = 4; running = timer_runs stat news true };
    })
merge_lem_example = merge_lem replies stat news true tt refl (omega arith) (omega arith)

merge-sendpkts-IsGuarded_example :
    (out : Sent) × ((merge replies stat no_news true >>= λ s'.
    sendpkts (sent ∷ sent ∷ []) false file s' true)
      ≡ done out)
    × (out.succeeds ≡ true)
    × (out.writable ≡ true)
    × (out.stat.retrans ≡ false)
    × IsGuarded out.stat
unfolding get_next_seq timeout_cwnd
merge-sendpkts-IsGuarded_example =
    merge-sendpkts-IsGuarded replies (sent ∷ sent ∷ []) file stat no_news true tt refl stat-IsValid
      stat-Describes (inl (omega arith)) (omega arith) (omega arith) refl (inr refl) tt
      (omega arith)

-- A retransmission that the socket has refused.
abbrev refused : SenderStat
refused = record stat {
  cwnd = record start { window = 1 };
  timer = record { fd = 4; running = false };
  retrans = true;
}

lost_retransmission_example :
    (out : Sent) × ((merge replies refused no_news false >>= λ s'. sendpkts [] false file s' true)
      ≡ done out)
    × (out.stat.retrans ≡ false)
    × (out.stat.timer.running ≡ false)
    × (out.stat.send_base < get_next_seq out.stat)
    × (allow_send out.stat (get_next_seq out.stat) ≡ false)
lost_retransmission_example =
    lost_retransmission replies [] false file refused no_news true (ground arith) refl refl
      (omega arith) (omega arith) (omega arith) refl (omega arith)

recv_all_lem_example :
    recv_all 4096
      (packet (ack_of 1) ∷ AckReply.interrupted ∷ packet (ack_of 2) ∷ AckReply.again ∷ [])
    ≡ done (ack_of 1 ∷ ack_of 2 ∷ [])
recv_all_lem_example =
    recv_all_lem 4096
      (packet (ack_of 1) ∷ AckReply.interrupted ∷ packet (ack_of 2) ∷ AckReply.again ∷ []) tt

-- A file of `n` bytes that is never computed.
unfoldable constant_file : ℕ → List ℕ
constant_file n = replicate n 7

length-constant_file : (n : ℕ) → length (constant_file n) ≡ n
unfolding constant_file
length-constant_file n = length-replicate n 7

prepare_packet-wraps_example :
    (p : RdtPacket) × (prepare_packet zero_packet (constant_file 4_294_990_000) 2_974_369 10 false
      ≡ done p)
    × (p.seq_num ≡ 2_974_369)
    × (p.content
        ≡ take 10 (drop (max_payload_len * 2_974_369 - u32_mod) (constant_file 4_294_990_000))
          ++ drop 10 (zero_packet.content))
prepare_packet-wraps_example =
    prepare_packet-wraps zero_packet (constant_file 4_294_990_000) 2_974_369 10 false (omega arith)
      (omega arith) (omega (arith, length-constant_file 4_294_990_000))
