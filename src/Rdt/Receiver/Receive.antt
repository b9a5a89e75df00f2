-- ===== src/Rdt/Receiver/Receive.antt =====
-- The loop of `reliablyReceive` in mp2/src/receiver_main.c.
use networking_learning.Base.{
  ℕ, Bool, true, false, not, ltb, ◌==◌, if◌then◌else◌, List, [], ◌∷◌, ◌++◌, replicate, Proc, done,
  blocked, ◌>>=◌, add32,
}
use networking_learning.Rdt.Constants.{AckPacket, RdtPacket, zero_packet, SendReply}
use networking_learning.Rdt.Receiver.{
  ReceiverQ, build_ack_packet, WriteReply, write_to_file, send_ack_packet, map_to_queue, Peer,
  RecvReply, recv_packet,
}
use networking_learning.Rdt.Receiver.Buffer.{Flush, zero_ack, check_and_sent_buffer}

-- The variables of the loop, `si_other`, the file and the acks handed to the network, oldest first.
pub record Recv : Type 0 where
  pub rec_queue : ReceiverQ
  pub last_ack_num : ℕ
  pub recv_fin_byte : Bool
  pub si_other : Peer
  pub file : List ℕ
  pub acks : List AckPacket

unfoldable pub zero_queue : ReceiverQ
unfolding zero_packet
zero_queue = record {
  buffer = λ slot. zero_packet;
  buflen = λ slot. 0;
  start = 0;
  end = 0;
  len = 0;
}

-- The file is new or truncated.
unfoldable pub init_recv : Recv
unfolding zero_queue
init_recv = record {
  rec_queue = zero_queue;
  last_ack_num = 0;
  recv_fin_byte = false;
  si_other = record { port = 0; addr = 0 };
  file = [];
  acks = [];
}

-- The replies to the system calls of one round, but for the writes.
pub record Arrival : Type 0 where
  pub recvs : List RecvReply
  pub sends : List SendReply

unfoldable pub final_ack : ℕ → AckPacket
final_ack last_ack_num = record { seq_num = 0; ack_num = last_ack_num; fin_byte = 1 }

-- `wait_for_break` hands out 45 final acks, whatever `sendto` says.
unfoldable pub wait_for_break : Recv → Recv
unfolding final_ack
wait_for_break s = record s {
  recv_fin_byte = true;
  acks = s.acks ++ replicate 45 (final_ack s.last_ack_num);
}

-- `build_ack_packet` on a fresh ack, and `send_ack_packet`.
unfoldable pub acknowledge : List SendReply → RdtPacket → Recv → Proc Recv
unfolding build_ack_packet zero_ack
acknowledge sends packet s =
    send_ack_packet sends (build_ack_packet zero_ack packet s.last_ack_num).0 >>= λ ack.
    done (record s { acks = s.acks ++ ack ∷ [] })

-- The variables once the packet that is due is written.
unfoldable pub due_written : RdtPacket → List ℕ → Recv → Recv
due_written packet bytes s = record s {
  last_ack_num = add32 packet.seq_num 1;
  file = s.file ++ bytes;
}

-- The variables once `check_and_sent_buffer` has returned.
unfoldable pub buffer_emptied : Flush × AckPacket → Recv → Recv
buffer_emptied r s =
    let s₁ = record s {
      rec_queue = r.0.queue;
      last_ack_num = r.0.ret_seq_num;
      file = r.0.file;
      acks = s.acks ++ r.1 ∷ [];
    } in
    if r.0.retval == 1 then wait_for_break s₁ else s₁

-- The branch for the packet that is due.
unfoldable pub receive_due : (ℕ → List WriteReply) → List SendReply → RdtPacket → Recv → Proc Recv
receive_due writes sends packet s = write_to_file (writes packet.seq_num) packet >>= λ bytes.
    let s₁ = due_written packet bytes s in
    if packet.fin_byte == 1
    then done (wait_for_break s₁)
    else check_and_sent_buffer writes sends s₁.last_ack_num s₁.rec_queue packet s₁.file >>= λ r.
        done (buffer_emptied r s₁)

-- What a round does with the packet that `recvPacket` left.
unfoldable pub receive_packet :
    (ℕ → List WriteReply) → List SendReply → Bool → RdtPacket → Recv → Proc Recv
receive_packet writes sends good packet s =
    if not good
    then (if s.last_ack_num == 0 then done s else acknowledge sends packet s)
    else if packet.seq_num == s.last_ack_num
    then receive_due writes sends packet s
    else if ltb s.last_ack_num packet.seq_num
    then acknowledge sends packet (record s { rec_queue = map_to_queue s.rec_queue packet })
    else acknowledge sends packet s

-- One round of the loop.
unfoldable pub round : (ℕ → List WriteReply) → Arrival → Recv → Proc Recv
round writes a s = recv_packet a.recvs s.si_other >>= λ r.
    receive_packet writes a.sends r.0 r.1 (record s { si_other = r.2 })

-- The loop ends with the round that sets `recv_fin_byte`.
unfoldable pub receive_loop : (ℕ → List WriteReply) → List Arrival → Recv → Proc Recv
receive_loop writes [] s = if s.recv_fin_byte then done s else blocked
receive_loop writes (a ∷ rest) s =
    if s.recv_fin_byte then done s else round writes a s >>= λ s'. receive_loop writes rest s'
