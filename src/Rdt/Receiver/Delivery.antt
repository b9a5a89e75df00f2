-- ===== src/Rdt/Receiver/Delivery.antt =====
-- One round of `reliablyReceive` of mp2/src/receiver_main.c: the file stays the chunks received so
-- far, and every ack names the chunk that is due.
use networking_learning.Base.{
  ℕ, ◌+◌, ◌*◌, ◌≤◌, ◌<◌, ◌≡◌, ◌∙◌, sym, refl, ◌⊎◌, inl, inr, true, ◌==◌, if◌then◌else◌, List,
  length, done, arith, u32_mod, ==→eq, take-all,
}
use networking_learning.Rdt.Constants.{RdtPacket, max_payload_len, window_slots, SendReply}
use networking_learning.Rdt.Sender.Packets.{chunk, packet_at}
use networking_learning.Rdt.Receiver.{WriteReply, map_to_queue}
use networking_learning.Rdt.Receiver.Writing.{Completes}
use networking_learning.Rdt.Receiver.Receive.{Recv, acknowledge, receive_due, receive_packet}
use networking_learning.Rdt.Receiver.Reassembly.{EndsSent, Acked, Reassembles, Slots-map_to_queue}
use networking_learning.Rdt.Receiver.Due.{receive_due_lem}
use networking_learning.Rdt.Receiver.Acking.{acknowledge_lem}

order : (a b : ℕ) → (a ≡ b) ⊎ ((b < a) ⊎ (a < b))
order a b = omega arith

-- The three branches for an accepted packet.
module _ (writes : ℕ → List WriteReply) (sends : List SendReply) (p : RdtPacket) (s : Recv) where
  branch_due :
      p.seq_num ≡ s.last_ack_num
      → receive_packet writes sends true p s ≡ receive_due writes sends p s
  unfolding receive_packet
  branch_due h = ground arith

  branch_early :
      s.last_ack_num < p.seq_num
      → receive_packet writes sends true p s
        ≡ acknowledge sends p (record s { rec_queue = map_to_queue s.rec_queue p })
  unfolding receive_packet
  branch_early h = ground arith

  branch_old :
      p.seq_num < s.last_ack_num → receive_packet writes sends true p s ≡ acknowledge sends p s
  unfolding receive_packet
  branch_old h = ground arith

module _ (file : List ℕ) (total : ℕ) where
  seq_of : (k : ℕ) → (packet_at file total k).seq_num ≡ k
  unfolding packet_at
  seq_of k = refl

  -- What a round with the chunk `k` comes to.
  pub record Delivered (k : ℕ) (s s' : Recv) : Type 0 where
    pub valid : Reassembles file total s'
    pub reaches :
        (if k == s.last_ack_num then s.last_ack_num + 1 else s.last_ack_num) ≤ s'.last_ack_num
    pub acked : Acked s.acks s'.acks s'.last_ack_num

  -- In a state that puts the file together, once `recv_fin_byte` is set, the file that was written is
  -- the file that was sent, if its chunks cover it.
  pub finished-file :
      (s : Recv)
      → length file ≤ max_payload_len * total
      → Reassembles file total s
      → s.recv_fin_byte ≡ true
      → s.file ≡ file
  finished-file s h v f =
      let e : s.last_ack_num ≡ total = ==→eq s.last_ack_num total (sym v.fin_is ∙ f) in
      v.file_is ∙ take-all (max_payload_len * s.last_ack_num) file (omega arith)

  module _ (writes : ℕ → List WriteReply)
      (completes : (k : ℕ) → k < total → Completes (writes k) (length (chunk file k)))
      (small : total + window_slots < u32_mod) where
    -- A packet of the file, within the window of the queue, is taken: the round returns, the file holds
    -- the chunks from the first on without a gap, the number that is due never falls and rises if its
    -- chunk came, and an ack or more go out, each naming the number that is now due. It holds while the
    -- file is not complete, if the writes progress and complete, the acks are sent in the end, and the
    -- file has fewer than 2 ^ 32 - 4096 chunks.
    pub receive_packet_lem :
        (sends : List SendReply) (k : ℕ) (s : Recv)
        → EndsSent sends
        → Reassembles file total s
        → s.last_ack_num < total
        → k < total
        → k < s.last_ack_num + window_slots
        → (s' : Recv) × (receive_packet writes sends true (packet_at file total k) s ≡ done s')
          × Delivered k s s'
    receive_packet_lem sends k s ends v run lt near = elim (order k s.last_ack_num) [
      | inl e ↦
          let (s', ran, v', le, ack) =
            receive_due_lem file total writes completes small sends s ends v run in
          (
            s',
            rw e (
                branch_due writes sends (packet_at file total s.last_ack_num) s
                  (seq_of s.last_ack_num)
                ∙ ran),
            record { valid = v'; reaches = ground arith; acked = ack },
          )
      | inr (inl early) ↦
          let q = map_to_queue s.rec_queue (packet_at file total k) in
          let (slots, same) =
            Slots-map_to_queue file total s.last_ack_num k s.rec_queue v.slots early near lt in
          let (s', ran, v', l, f, ack) =
            acknowledge_lem file total sends (packet_at file total k) (record s { rec_queue = q })
              ends
              (record {
                le = v.le;
                file_is = v.file_is;
                slots = slots;
                empty = same ∙ v.empty;
                fin_is = v.fin_is;
              }) in
          (
            s',
            branch_early writes sends (packet_at file total k) s (rw (seq_of k) early) ∙ ran,
            record { valid = v'; reaches = ground arith; acked = ack },
          )
      | inr (inr old) ↦
          let (s', ran, v', l, f, ack) =
            acknowledge_lem file total sends (packet_at file total k) s ends v in
          (
            s',
            branch_old writes sends (packet_at file total k) s (rw (seq_of k) old) ∙ ran,
            record { valid = v'; reaches = ground arith; acked = ack },
          )
    ]
