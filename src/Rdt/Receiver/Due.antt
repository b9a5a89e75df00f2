-- ===== src/Rdt/Receiver/Due.antt =====
-- The packet that is due in `reliablyReceive` of mp2/src/receiver_main.c: it is written, with the
-- packets of the queue that follow it.
use networking_learning.Base.{
  ℕ, ◌+◌, ◌-◌, ◌*◌, ◌%◌, ◌≤◌, ◌<◌, ◌≡◌, ◌≢◌, ◌∙◌, ap, subst, sym, refl, inl, inr, true, false, ltb,
  ◌==◌, ◌&&◌, if◌then◌else◌, List, [], ◌∷◌, ◌++◌, take, length, done, ◌>>=◌, arith, Bool-cases,
  u32_mod, add32, ne→==, ==→eq, ==→ne,
}
use networking_learning.Rdt.Constants.{
  AckPacket, RdtPacket, max_payload_len, window_slots, SendReply,
}
use networking_learning.Rdt.Sender.Packets.{chunk, packet_at}
use networking_learning.Rdt.Receiver.{ReceiverQ, WriteReply, write_to_file}
use networking_learning.Rdt.Receiver.Writing.{Completes}
use networking_learning.Rdt.Receiver.Buffer.{is_full, Flush, check_and_sent_buffer}
use networking_learning.Rdt.Receiver.Receive.{
  Recv, wait_for_break, receive_due, due_written, buffer_emptied,
}
use networking_learning.Rdt.Receiver.Slots.{Slots, packet_at-Carries}
use networking_learning.Rdt.Receiver.Flushing.{Flushed, write_slot, file_grows}
use networking_learning.Rdt.Receiver.Acking.{Acked-trans, finish}
use networking_learning.Rdt.Receiver.Reassembly.{
  EndsSent, Acked, Reassembles, Slots-next, Emptied, check_and_sent_buffer_lem,
}

module _ (file : List ℕ) (total : ℕ) where
  -- The state in which the chunk that was due is written.
  abbrev next_due : Recv → Recv
  next_due s = record s {
    last_ack_num = s.last_ack_num + 1;
    file = take (max_payload_len * (s.last_ack_num + 1)) file;
  }

  due_written_lem :
      (s : Recv)
      → Reassembles file total s
      → s.last_ack_num + 1 < u32_mod
      → due_written (packet_at file total s.last_ack_num) (chunk file s.last_ack_num) s ≡ next_due s
  unfolding due_written packet_at
  due_written_lem s v h =
      let e : add32 s.last_ack_num 1 ≡ s.last_ack_num + 1 = omega arith in
      let f =
        ap (λ x. x ++ chunk file s.last_ack_num) v.file_is ∙ file_grows file total s.last_ack_num in
      λ i. record s { last_ack_num = e i; file = f i }

  module _ (writes : ℕ → List WriteReply)
      (completes : (k : ℕ) → k < total → Completes (writes k) (length (chunk file k)))
      (small : total + window_slots < u32_mod) where
    -- The state that the second loop of `check_and_sent_buffer` leaves.
    abbrev emptied : Flush × AckPacket → Recv → Recv
    emptied r s = record s {
      rec_queue = r.0.queue;
      last_ack_num = r.0.ret_seq_num;
      file = r.0.file;
      acks = s.acks ++ r.1 ∷ [];
    }

    -- Whether the last chunk is among those written.
    due-total :
        (n due retval : ℕ)
        → n ≢ total
        → n ≤ due
        → retval ≡ (if ltb n due && due == total then 1 else 0)
        → (retval == 1) ≡ (due == total)
    due-total n due retval ne le e = ground arith

    buffer_emptied_lem :
        (s : Recv) (n : ℕ) (r : Flush × AckPacket)
        → s.recv_fin_byte ≡ false
        → n ≢ total
        → Emptied file total writes completes small n s.file r
        → Reassembles file total (buffer_emptied r s)
          × (n ≤ (buffer_emptied r s).last_ack_num)
          × Acked s.acks (buffer_emptied r s).acks (buffer_emptied r s).last_ack_num
    unfolding buffer_emptied wait_for_break
    buffer_emptied_lem s n r fin ne em = elim (Bool-cases (r.0.retval == 1)) [
      | inl raised ↦ rw raised (
          let (v, ack) =
            finish file total (emptied r s)
              (fl.seq
                ∙ ==→eq em.due total
                    (sym (due-total n em.due r.0.retval ne em.ge fl.retval_is) ∙ raised))
              file_ok slots_ok empty_ok in
          (v, n-le, Acked-trans one ack))
      | inr not_raised ↦ rw not_raised (
        record {
          le = omega (arith, fl.seq, em.le_total);
          file_is = file_ok;
          slots = slots_ok;
          empty = empty_ok;
          fin_is =
              fin
              ∙ sym (sym (due-total n em.due r.0.retval ne em.ge fl.retval_is) ∙ not_raised)
              ∙ ap (λ j. j == total) (sym fl.seq);
        },
        n-le,
        one,
      )
    ]
      where
        fl : Flushed file total n em.due 0 r.0
        fl = em.flushed

        file_ok : r.0.file ≡ take (max_payload_len * r.0.ret_seq_num) file
        file_ok = fl.file_is ∙ ap (λ j. take (max_payload_len * j) file) (sym fl.seq)

        slots_ok : Slots file total r.0.ret_seq_num r.0.queue
        slots_ok = subst (λ j. Slots file total j r.0.queue) (sym fl.seq) fl.slots

        empty_ok : is_full r.0.queue r.0.ret_seq_num ≡ false
        empty_ok = ap (is_full r.0.queue) fl.seq ∙ fl.empty

        n-le : n ≤ r.0.ret_seq_num
        n-le = omega (arith, fl.seq, em.ge)

        one : Acked s.acks (s.acks ++ r.1 ∷ []) r.0.ret_seq_num
        one = record {
          new = r.1 ∷ [];
          sent_one = omega arith;
          appended = refl;
          name_due = (em.names ∙ sym fl.seq, tt);
        }

    write_due :
        (s : Recv)
        → s.last_ack_num < total
        → write_to_file (writes s.last_ack_num) (packet_at file total s.last_ack_num)
          ≡ done (chunk file s.last_ack_num)
    write_due s lt =
        write_slot file total writes s.last_ack_num (packet_at file total s.last_ack_num)
          (completes s.last_ack_num lt) (packet_at-Carries file total s.last_ack_num)

    fin_due : (n : ℕ) → ((packet_at file total n).fin_byte == 1) ≡ (n + 1 == total)
    unfolding packet_at
    fin_due n = ground arith

    pub seq_due : (n : ℕ) → (packet_at file total n).seq_num ≡ n
    unfolding packet_at
    seq_due n = refl

    -- No slot is full at the end of the file.
    end_empty :
        (n m : ℕ) (q : ReceiverQ)
        → Slots file total n q
        → n ≤ m
        → m < n + window_slots
        → total ≤ m
        → is_full q m ≡ false
    end_empty n m q s h l t = elim (Bool-cases (is_full q m)) [
      | inl full ↦ absurd (omega (arith, (s m h l full).0))
      | inr empty ↦ empty
    ]

    receive_due-fin :
        (sends : List SendReply) (s : Recv) (p : RdtPacket) (bytes : List ℕ)
        → write_to_file (writes p.seq_num) p ≡ done bytes
        → (p.fin_byte == 1) ≡ true
        → receive_due writes sends p s ≡ done (wait_for_break (due_written p bytes s))
    unfolding receive_due
    receive_due-fin sends s p bytes w f = rw (w, f)

    receive_due-more :
        (sends : List SendReply) (s : Recv) (p : RdtPacket) (bytes : List ℕ)
        → write_to_file (writes p.seq_num) p ≡ done bytes
        → (p.fin_byte == 1) ≡ false
        → let t = due_written p bytes s in
          receive_due writes sends p s ≡ (
            check_and_sent_buffer writes sends t.last_ack_num t.rec_queue p t.file >>= λ r.
            done (buffer_emptied r t))
    unfolding receive_due
    receive_due-more sends s p bytes w f = rw (w, f)

    pub receive_due_lem :
        (sends : List SendReply) (s : Recv)
        → EndsSent sends
        → Reassembles file total s
        → s.last_ack_num < total
        → (s' : Recv) × (receive_due writes sends (packet_at file total s.last_ack_num) s ≡ done s')
          × Reassembles file total s'
          × (s.last_ack_num + 1 ≤ s'.last_ack_num)
          × Acked s.acks s'.acks s'.last_ack_num
    unfolding wait_for_break
    receive_due_lem sends s ends v lt = elim (Bool-cases (s.last_ack_num + 1 == total)) [
      | inl last ↦
          let e = ==→eq (s.last_ack_num + 1) total last in
          let (v', ack) = finish file total (next_due s) e refl later (
            end_empty (s.last_ack_num + 1) (s.last_ack_num + 1) s.rec_queue later (omega arith)
              (omega arith) (omega arith)) in
          (
            wait_for_break (next_due s),
            receive_due-fin sends s (packet_at file total s.last_ack_num)
                  (chunk file s.last_ack_num) due (fin_due s.last_ack_num ∙ last)
                ∙ ap (λ t. done (wait_for_break t)) written,
            v',
            omega arith,
            ack,
          )
      | inr more ↦
          let (r, run, em) =
            check_and_sent_buffer_lem file total writes completes small sends (s.last_ack_num + 1)
              s.rec_queue (packet_at file total s.last_ack_num) (next_due s).file ends (omega arith)
              (omega arith) slot_free refl later in
          let (v', le, ack) =
            buffer_emptied_lem (next_due s) (s.last_ack_num + 1) r
              (v.fin_is ∙ ne→== s.last_ack_num total (omega arith))
              (==→ne (s.last_ack_num + 1) total more) em in
          (
            buffer_emptied r (next_due s),
            receive_due-more sends s (packet_at file total s.last_ack_num)
                  (chunk file s.last_ack_num) due (fin_due s.last_ack_num ∙ more)
                ∙ ap
                    (λ (t : Recv).
                      check_and_sent_buffer writes sends t.last_ack_num t.rec_queue
                        (packet_at file total s.last_ack_num) t.file
                      >>= λ r. done (buffer_emptied r t))
                    written
                ∙ rw run,
            v',
            le,
            ack,
          )
    ]
      where
        later : Slots file total (s.last_ack_num + 1) s.rec_queue
        later = Slots-next file total s.last_ack_num s.rec_queue v.empty v.slots

        due :
            write_to_file
              (writes (packet_at file total s.last_ack_num).seq_num)
              (packet_at file total s.last_ack_num)
            ≡ done (chunk file s.last_ack_num)
        due =
            subst
              (λ j.
                write_to_file (writes j) (packet_at file total s.last_ack_num)
                ≡ done (chunk file s.last_ack_num))
              (sym (seq_due s.last_ack_num)) (write_due s lt)

        written :
            due_written (packet_at file total s.last_ack_num) (chunk file s.last_ack_num) s
            ≡ next_due s
        written = due_written_lem s v (omega arith)

        slot_free : is_full s.rec_queue (s.last_ack_num + 1 + window_slots - 1) ≡ false
        slot_free =
            let e : (s.last_ack_num + 1 + window_slots - 1) % window_slots
                ≡ s.last_ack_num % window_slots =
              omega arith in
            ap (λ j. s.rec_queue.buflen j == 1) e ∙ v.empty
