-- ===== src/Rdt/Receiver/Buffer.antt =====
-- `check_and_sent_buffer` of mp2/src/receiver_main.c: the cumulative ack, and the packets of the
-- queue that have become due.
use networking_learning.Base.{
  ℕ, zero, suc, ◌%◌, Bool, true, false, ltb, ◌==◌, if◌then◌else◌, List, ◌++◌, Proc, done, blocked,
  ◌>>=◌, add32, sub32,
}
use networking_learning.Rdt.Constants.{AckPacket, RdtPacket, window_slots, zero_packet, SendReply}
use networking_learning.Rdt.Receiver.{
  ReceiverQ, update, build_ack_packet, WriteReply, write_to_file, send_ack_packet,
}

abbrev pub is_full : ReceiverQ → ℕ → Bool
is_full q n = q.buflen (n % window_slots) == 1

-- The first loop: the first sequence number from `n` on whose slot is empty. Where the fuel of one
-- round for each slot runs out, every slot is full and the code repeats for ever.
unfoldable pub scan : ℕ → ReceiverQ → ℕ → Proc ℕ
scan zero q n = blocked
scan (suc fuel) q n = elim (is_full q n) [ true ↦ scan fuel q (add32 n 1) | false ↦ done n ]

unfoldable pub zero_ack : AckPacket
zero_ack = record { seq_num = 0; ack_num = 0; fin_byte = 0 }

-- The ack, and the queue and the packet as `build_ack_packet` leaves them.
unfoldable pub cumulative_ack : ReceiverQ → RdtPacket → ℕ → ℕ → AckPacket × ReceiverQ
unfolding build_ack_packet zero_ack
cumulative_ack q pkt ret_seq_num last_ack_num =
    let slot = sub32 last_ack_num 1 % window_slots in
    let (ack, last_pkt) = build_ack_packet zero_ack (q.buffer slot) last_ack_num in
    if ltb ret_seq_num last_ack_num
    then (ack, record q { buffer = update q.buffer slot last_pkt })
    else ((build_ack_packet zero_ack pkt last_ack_num).0, q)

-- The state of the second loop: `retval`, the queue, `ret_seq_num` and the file.
pub record Flush : Type 0 where
  pub retval : ℕ
  pub queue : ReceiverQ
  pub ret_seq_num : ℕ
  pub file : List ℕ

-- One round, whose write has taken the bytes `bytes`.
unfoldable pub flush_one : List ℕ → Flush → Flush
unfolding zero_packet
flush_one bytes st =
    let slot = st.ret_seq_num % window_slots in
    record {
      retval = if (st.queue.buffer slot).fin_byte == 1 then 1 else st.retval;
      queue = record (st.queue) {
        buflen = update st.queue.buflen slot 0;
        buffer = update st.queue.buffer slot zero_packet;
      };
      ret_seq_num = add32 st.ret_seq_num 1;
      file = st.file ++ bytes;
    }

-- `writes n` are the replies to the calls of `write` that store the packet `n`. A round empties a
-- slot, so fuel for one round more than there are slots is enough.
unfoldable pub flush : ℕ → (ℕ → List WriteReply) → Flush → Proc Flush
unfolding flush_one
flush zero writes st = blocked
flush (suc fuel) writes st = elim (is_full st.queue st.ret_seq_num) [
  | true ↦
      write_to_file (writes st.ret_seq_num) (st.queue.buffer (st.ret_seq_num % window_slots))
      >>= λ bytes. flush fuel writes (flush_one bytes st)
  | false ↦ done st
]

-- The result is the state of the second loop when it ends, and the ack that was sent.
unfoldable pub check_and_sent_buffer :
    (ℕ → List WriteReply)
    → List SendReply
    → ℕ
    → ReceiverQ
    → RdtPacket
    → List ℕ
    → Proc (Flush × AckPacket)
check_and_sent_buffer writes sends seq_num q pkt file =
    scan window_slots q seq_num >>= λ last_ack_num.
    let (ack, q') = cumulative_ack q pkt seq_num last_ack_num in
    send_ack_packet sends ack >>= λ ack'.
    flush (suc window_slots) writes
      (record { retval = 0; queue = q'; ret_seq_num = seq_num; file = file })
    >>= λ st. done (st, ack')
