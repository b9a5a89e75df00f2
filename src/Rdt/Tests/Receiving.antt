-- ===== src/Rdt/Tests/Receiving.antt =====
-- The receiver at concrete inputs.
use networking_learning.Base.{
  ℕ, zero, suc, ◌+◌, ◌*◌, ◌≤◌, ◌<◌, ◌≡◌, refl, true, false, List, [], ◌∷◌, length, arith, replicate,
  take, ap, sym, subst, lt_or_le, inl, inr, ◌%◌, ◌∙◌, done, length-replicate, ◌==◌,
}
use networking_learning.Rdt.Constants.{RdtPacket, SendReply, max_payload_len, window_slots}
use networking_learning.Rdt.Sender.Packets.{chunk, packet_at}
use networking_learning.Rdt.Receiver.{WriteReply, wrote, ReceiverQ, write_to_file, map_to_queue}
use networking_learning.Rdt.Receiver.Buffer.{flush, Flush, is_full}
use networking_learning.Rdt.Receiver.Receive.{Recv, init_recv, zero_queue, receive_packet}
use networking_learning.Rdt.Receiver.Writing.{AllProgress, Completes, write_to_file_lem}
use networking_learning.Rdt.Receiver.Slots.{
  FirstEmpty, Slots, Carries, packet_at-Carries, update-ne, slots_differ,
}
use networking_learning.Rdt.Receiver.Flushing.{Flushed, flush_lem, flush-map_to_queue, chunk-le}
use networking_learning.Rdt.Receiver.Reassembly.{init_recv-Reassembles}
use networking_learning.Rdt.Receiver.Delivery.{Delivered, receive_packet_lem}

-- Two chunks, the last of 56 bytes.
abbrev pub file : List ℕ
file = replicate 1500 7

-- A system that takes one byte with each write.
abbrev pub byte_by_byte : ℕ → List WriteReply
byte_by_byte n = replicate 1444 (wrote 1)

AllProgress-replicate : (n : ℕ) → AllProgress (replicate n (wrote 1))
AllProgress-replicate zero = tt
AllProgress-replicate (suc n) = (omega arith, AllProgress-replicate n)

byte_by_byte-Completes : (k n : ℕ) → n ≤ max_payload_len → Completes (byte_by_byte k) n
byte_by_byte-Completes k n h = (
  AllProgress-replicate 1444,
  omega (arith, length-replicate 1444 (wrote 1)),
  omega (arith, length-replicate 1444 (wrote 1)),
)

abbrev tiny : RdtPacket
tiny = record {
  seq_num = 4097;
  ack_num = 0;
  payload = 3;
  fin_byte = 0;
  content = 1 ∷ 2 ∷ 3 ∷ 4 ∷ [];
}

write_to_file_lem_example :
    write_to_file (wrote 1 ∷ wrote 1 ∷ wrote 5 ∷ []) tiny ≡ done (1 ∷ 2 ∷ 3 ∷ [])
write_to_file_lem_example =
    write_to_file_lem (wrote 1 ∷ wrote 1 ∷ wrote 5 ∷ []) tiny (omega arith) (omega arith)

init_recv-lt : (n : ℕ) → 0 < n → init_recv.last_ack_num < n
unfolding init_recv
init_recv-lt n h = h

pub file-Completes : (k : ℕ) → k < 2 → Completes (byte_by_byte k) (length (chunk file k))
file-Completes k h = byte_by_byte-Completes k (length (chunk file k)) (chunk-le file 2 k)

receive_packet_lem_example :
    (s' : Recv) × (receive_packet byte_by_byte
        (SendReply.interrupted ∷ SendReply.sent ∷ [])
        true
        (packet_at file 2 1)
        init_recv
      ≡ done s')
    × Delivered file 2 1 init_recv s'
receive_packet_lem_example =
    receive_packet_lem file 2 byte_by_byte file-Completes (omega arith)
      (SendReply.interrupted ∷ SendReply.sent ∷ []) 1 init_recv tt
      (init_recv-Reassembles file 2 (omega arith)) (init_recv-lt 2 (omega arith)) (omega arith)
      (omega (arith, init_recv-lt 2))

zero_queue-empty : (k : ℕ) → is_full zero_queue k ≡ false
unfolding zero_queue
zero_queue-empty k = refl

zero_queue-Slots : (n : ℕ) → Slots file 2 n zero_queue
zero_queue-Slots n k h l f = absurd (cc (zero_queue-empty k, f))

-- The second chunk waits in the queue, the first is written.
abbrev waiting : ReceiverQ
waiting = map_to_queue zero_queue (packet_at file 2 1)

abbrev flushing : Flush
flushing = record {
  retval = 0;
  queue = waiting;
  ret_seq_num = 1;
  file = take (max_payload_len * 1) file;
}

waiting-here : is_full waiting 1 ≡ true
unfolding map_to_queue packet_at
waiting-here = refl

waiting-empty : (k : ℕ) → 1 < k → k < 1 + window_slots → is_full waiting k ≡ false
unfolding map_to_queue packet_at zero_queue
waiting-empty k h l =
    ap (λ x. x == 1) (update-ne (λ slot. 0) 1 (k % window_slots) 1 (slots_differ 1 k h l))

waiting-packet : waiting.buffer 1 ≡ packet_at file 2 1
unfolding map_to_queue packet_at
waiting-packet = refl

waiting-FirstEmpty : FirstEmpty waiting 1 2
waiting-FirstEmpty = record {
  le = omega arith;
  empty = waiting-empty 2 (omega arith) (omega arith);
  full = λ k a b. let e : k ≡ 1 = omega arith in ap (is_full waiting) e ∙ waiting-here;
}

waiting-Slots : Slots file 2 1 waiting
waiting-Slots k h l f = elim (lt_or_le 1 k) [
  | inl lt ↦ absurd (cc (waiting-empty k lt l, f))
  | inr le ↦
      let e : 1 ≡ k = omega arith in
      subst (λ k. (k < 2) × Carries file 2 k (waiting.buffer (k % window_slots))) e
        (omega arith, subst (Carries file 2 1) (sym waiting-packet) (packet_at-Carries file 2 1))
]

flush_lem_example :
    (st' : Flush) × (flush 4097 byte_by_byte flushing ≡ done st') × Flushed file 2 1 2 0 st'
flush_lem_example =
    flush_lem file 2 byte_by_byte file-Completes (omega arith) 4097 flushing 2 waiting-FirstEmpty
      (omega arith) (omega arith) (omega arith) refl waiting-Slots

zero_queue-free : is_full zero_queue 2 ≡ false
unfolding zero_queue
zero_queue-free = refl

flush-map_to_queue_example :
    (st' : Flush) × (flush 2 byte_by_byte (record {
      retval = 0;
      queue = map_to_queue zero_queue tiny;
      ret_seq_num = 1;
      file = 9 ∷ [];
    })
      ≡ done st')
    × (st'.file ≡ 9 ∷ 1 ∷ 2 ∷ 3 ∷ [])
    × (st'.ret_seq_num ≡ 2)
    × (is_full st'.queue 1 ≡ false)
flush-map_to_queue_example =
    flush-map_to_queue byte_by_byte zero_queue tiny 1 0 0 (9 ∷ []) refl (omega arith) (omega arith)
      (byte_by_byte-Completes 1 3 (omega arith)) zero_queue-free
