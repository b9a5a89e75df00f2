-- ===== src/Rdt/Receiver/Acking.antt =====
-- The acks of mp2/src/receiver_main.c: one for a packet, and the final ones.
use networking_learning.Base.{
  ℕ, ◌*◌, ◌≡◌, ◌∙◌, ap, sym, refl, false, List, [], ◌∷◌, ◌++◌, take, done, arith, replicate, eq→==,
  length-append, append_assoc, All-append,
}
use networking_learning.Rdt.Constants.{AckPacket, RdtPacket, max_payload_len, SendReply}
use networking_learning.Rdt.Receiver.{build_ack_packet}
use networking_learning.Rdt.Receiver.Buffer.{is_full, zero_ack}
use networking_learning.Rdt.Receiver.Receive.{Recv, wait_for_break, final_ack, acknowledge}
use networking_learning.Rdt.Receiver.Slots.{Slots}
use networking_learning.Rdt.Receiver.Reassembly.{
  EndsSent, send_ack_packet_lem, Acked, All-replicate, Reassembles,
}

pub Acked-trans : {a b c : List AckPacket} {due : ℕ} → Acked a b due → Acked b c due → Acked a c due
Acked-trans {a} {b} {c} {due} x y = record {
  new = x.new ++ y.new;
  sent_one = omega (arith, x.sent_one, length-append x.new y.new);
  appended = y.appended ∙ ap (λ r. r ++ y.new) x.appended ∙ append_assoc a x.new y.new;
  name_due = All-append (λ p. p.ack_num ≡ due) x.new y.new x.name_due y.name_due;
}

module _ (file : List ℕ) (total : ℕ) where
  pub acknowledge_lem :
      (sends : List SendReply) (p : RdtPacket) (s : Recv)
      → EndsSent sends
      → Reassembles file total s
      → (s' : Recv) × (acknowledge sends p s ≡ done s')
        × Reassembles file total s'
        × (s'.last_ack_num ≡ s.last_ack_num)
        × (s'.file ≡ s.file)
        × Acked s.acks s'.acks s'.last_ack_num
  unfolding acknowledge build_ack_packet
  acknowledge_lem sends p s ends v =
      let ack = (build_ack_packet zero_ack p s.last_ack_num).0 in
      (
        record s { acks = s.acks ++ ack ∷ [] },
        rw (send_ack_packet_lem sends ack ends),
        record {
          le = v.le;
          file_is = v.file_is;
          slots = v.slots;
          empty = v.empty;
          fin_is = v.fin_is;
        },
        refl,
        refl,
        record { new = ack ∷ []; sent_one = omega arith; appended = refl; name_due = (refl, tt) },
      )

  -- The end of the loop: the last chunk is written, and the final acks go out.
  pub finish :
      (s : Recv)
      → s.last_ack_num ≡ total
      → s.file ≡ take (max_payload_len * s.last_ack_num) file
      → Slots file total s.last_ack_num s.rec_queue
      → is_full s.rec_queue s.last_ack_num ≡ false
      → Reassembles file total (wait_for_break s)
        × Acked s.acks (wait_for_break s).acks (wait_for_break s).last_ack_num
  unfolding wait_for_break final_ack
  finish s e f sl em = (
    record {
      le = omega arith;
      file_is = f;
      slots = sl;
      empty = em;
      fin_is = sym (eq→== s.last_ack_num total e);
    },
    record {
      new = replicate 45 (final_ack s.last_ack_num);
      sent_one = omega arith;
      appended = refl;
      name_due = All-replicate (λ a. a.ack_num ≡ s.last_ack_num) 45 (final_ack s.last_ack_num) refl;
    },
  )
