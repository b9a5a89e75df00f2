-- ===== src/Rdt/Receiver.antt =====
-- The pieces of mp2/src/receiver_main.c: the queue of packets that came early, the file that is
-- written, the acks and the arrival of a packet. The replies of system calls are arguments.
pub mod Buffer
pub mod Receive
pub mod Writing
pub mod Slots
pub mod Flushing
pub mod Reassembly
pub mod Due
pub mod Acking
pub mod Delivery
pub mod Arriving
pub mod Peers
pub mod Complete
use networking_learning.Base.{
  ℕ, suc, ◌+◌, ◌-◌, ◌%◌, Bool, true, false, not, ◌&&◌, ltb, leb, ◌==◌, if◌then◌else◌, List, [], ◌∷◌,
  ◌++◌, take, drop, Proc, done, exited, blocked, fault, ◌>>=◌,
}
use networking_learning.Rdt.Constants.{
  AckPacket, RdtPacket, max_payload_len, window_slots, rdt_packet_size, SendReply, sent,
}

-- The two arrays of WINDOW slots are functions, only ever used at an index modulo WINDOW.
pub record ReceiverQ : Type 0 where
  pub buffer : ℕ → RdtPacket
  pub buflen : ℕ → ℕ
  pub start : ℕ
  pub end : ℕ
  pub len : ℕ

-- An assignment to a cell of an array.
abbrev pub update {ℓ} : {A : Type ℓ} → (ℕ → A) → ℕ → A → ℕ → A
update f i v j = if j == i then v else f j

unfoldable pub build_ack_packet : AckPacket → RdtPacket → ℕ → AckPacket × RdtPacket
build_ack_packet ack packet new_ack_num = (
  record ack { ack_num = new_ack_num; fin_byte = packet.fin_byte },
  record packet { seq_num = packet.ack_num },
)

-- A reply to `write`: the number of bytes taken, or an error.
pub data WriteReply : Type 0 where
  wrote : ℕ → WriteReply
  failed : WriteReply

-- The `do` loop of `write_to_file`, at `writed_size`: the bytes that it still writes.
unfoldable pub write_loop : List WriteReply → List ℕ → ℕ → ℕ → Proc (List ℕ)
write_loop [] content writed total = blocked
write_loop (wrote n ∷ rs) content writed total =
    let bytes = take n (take (total - writed) (drop writed content)) in
    let rest = write_loop rs content (writed + n) total in
    if ltb (writed + n) total then (rest >>= λ more. done (bytes ++ more)) else done bytes
write_loop (failed ∷ rs) content writed total = exited

-- A `payload` above the array's size makes `write` read past the packet.
unfoldable pub write_to_file : List WriteReply → RdtPacket → Proc (List ℕ)
unfolding write_loop
write_to_file rs packet =
    if leb packet.payload max_payload_len
    then write_loop rs packet.content 0 packet.payload
    else fault

-- Returns once the ack is handed to the network.
unfoldable pub send_ack_packet : List SendReply → AckPacket → Proc AckPacket
send_ack_packet [] ack = blocked
send_ack_packet (SendReply.sent ∷ rs) ack = done ack
send_ack_packet (SendReply.interrupted ∷ rs) ack = send_ack_packet rs ack
send_ack_packet (_ ∷ rs) ack = exited

unfoldable pub map_to_queue : ReceiverQ → RdtPacket → ReceiverQ
map_to_queue q packet =
    let slot = packet.seq_num % window_slots in
    record q { buffer = update q.buffer slot packet; buflen = update q.buflen slot 1 }

-- The address and port of a socket address.
pub record Peer : Type 0 where
  pub port : ℕ
  pub addr : ℕ

-- A datagram: its size, what `*packet` holds after the read, and its sender.
pub record Datagram : Type 0 where
  pub size : ℕ
  pub packet : RdtPacket
  pub sender : Peer

-- A reply to `recvfrom`: a datagram, EINTR, another error.
pub data RecvReply : Type 0 where
  datagram : Datagram → RecvReply
  interrupted failed : RecvReply

abbrev pub same_peer : Peer → Peer → Bool
same_peer a b = a.port == b.port && a.addr == b.addr

-- What `recvPacket` does with a datagram: whether it returns 0, and the new `si_other`.
unfoldable pub accept : Datagram → Peer → Bool × Peer
accept d si_other =
    let si = if d.packet.seq_num == 0 then d.sender else si_other in
    if not (d.size == rdt_packet_size)
    then (false, si_other)
    else if not (same_peer d.sender si)
    then (false, si)
    else (true, si)

unfoldable pub recv_packet : List RecvReply → Peer → Proc (Bool × RdtPacket × Peer)
unfolding accept
recv_packet [] si_other = blocked
recv_packet (datagram d ∷ rs) si_other =
    let (good, si) = accept d si_other in done (good, d.packet, si)
recv_packet (RecvReply.interrupted ∷ rs) si_other = recv_packet rs si_other
recv_packet (RecvReply.failed ∷ rs) si_other = exited
