-- ===== src/Rdt/Receiver/Reassembly.antt =====
-- The receiver of mp2/src/receiver_main.c puts the chunks of the file together again: what one
-- packet does to the queue, the file and the acks.
use networking_learning.Base.{
  ℕ, zero, suc, ◌+◌, ◌-◌, ◌*◌, ◌%◌, ◌≤◌, ◌<◌, ◌≡◌, ◌≢◌, ◌∙◌, ap, subst, sym, refl, ◌⊎◌, inl, inr,
  false, ◌==◌, List, [], ◌∷◌, ◌++◌, take, length, done, arith, lt_or_le, All, u32_mod, replicate,
}
use networking_learning.Rdt.Constants.{
  AckPacket, RdtPacket, max_payload_len, window_slots, SendReply,
}
use networking_learning.Rdt.Sender.Packets.{chunk, packet_at}
use networking_learning.Rdt.Receiver.{ReceiverQ, WriteReply, send_ack_packet, map_to_queue}
use networking_learning.Rdt.Receiver.Writing.{Completes}
use networking_learning.Rdt.Receiver.Buffer.{is_full, Flush, cumulative_ack, check_and_sent_buffer}
use networking_learning.Rdt.Receiver.Receive.{Recv, init_recv}
use networking_learning.Rdt.Receiver.Slots.{
  FirstEmpty, Slots, Carries, scan_lem, packet_at-Carries, update_self, update-ne, slots_differ,
}
use networking_learning.Rdt.Receiver.Flushing.{Flushed, flush_lem, first-le-total}

-- Replies with which `send_ack_packet` returns.
abbrev pub EndsSent : List SendReply → Type 0
EndsSent [] = ⊥
EndsSent (SendReply.sent ∷ rs) = Unit
EndsSent (SendReply.interrupted ∷ rs) = EndsSent rs
EndsSent (_ ∷ rs) = ⊥

pub send_ack_packet_lem :
    (rs : List SendReply) (ack : AckPacket) → EndsSent rs → send_ack_packet rs ack ≡ done ack
unfolding send_ack_packet
send_ack_packet_lem [] ack h = absurd h
send_ack_packet_lem (SendReply.sent ∷ rs) ack h = refl
send_ack_packet_lem (SendReply.interrupted ∷ rs) ack h = send_ack_packet_lem rs ack h
send_ack_packet_lem (SendReply.again ∷ rs) ack h = absurd h
send_ack_packet_lem (SendReply.failed ∷ rs) ack h = absurd h

-- Acks were sent between two states, and all of them name the number that is due in the second.
pub record Acked (before after : List AckPacket) (due : ℕ) : Type 0 where
  pub new : List AckPacket
  pub sent_one : 1 ≤ length new
  pub appended : after ≡ before ++ new
  pub name_due : All (λ a. a.ack_num ≡ due) new

pub All-replicate {ℓ} : {A : Type 0} (P : A → Type ℓ) (n : ℕ) (a : A) → P a → All P (replicate n a)
All-replicate P zero a h = tt
All-replicate P (suc n) a h = (h, All-replicate P n a h)

slot_cases :
    (k j : ℕ) → (j % window_slots ≡ k % window_slots) ⊎ (j % window_slots ≢ k % window_slots)
slot_cases k j = omega arith

module _ (file : List ℕ) (total : ℕ) where
  -- What holds of the receiver between two packets.
  pub record Reassembles (s : Recv) : Type 0 where
    pub le : s.last_ack_num ≤ total
    pub file_is : s.file ≡ take (max_payload_len * s.last_ack_num) file
    pub slots : Slots file total s.last_ack_num s.rec_queue
    pub empty : is_full s.rec_queue s.last_ack_num ≡ false
    pub fin_is : s.recv_fin_byte ≡ (s.last_ack_num == total)

  pub init_recv-Reassembles : 1 ≤ total → Reassembles init_recv
  unfolding init_recv
  init_recv-Reassembles h = record {
    le = omega arith;
    file_is = refl;
    slots = λ k a b f. absurd (cc);
    empty = refl;
    fin_is = ground arith;
  }

  -- A packet that is due empties no slot, and the numbers that follow keep theirs.
  pub Slots-next :
      (n : ℕ) (q : ReceiverQ)
      → is_full q n ≡ false
      → Slots file total n q
      → Slots file total (n + 1) q
  Slots-next n q e s k a b f = elim (lt_or_le k (n + window_slots)) [
    | inl near ↦ s k (omega arith) near f
    | inr far ↦
        let p : k % window_slots ≡ n % window_slots = omega arith in
        absurd (cc (ap (λ j. q.buflen j == 1) p))
  ]

  -- Storing an early packet of the window keeps the slots.
  pub Slots-map_to_queue :
      (n k : ℕ) (q : ReceiverQ)
      → Slots file total n q
      → n < k
      → k < n + window_slots
      → k < total
      → Slots file total n (map_to_queue q (packet_at file total k))
        × (is_full (map_to_queue q (packet_at file total k)) n ≡ is_full q n)
  unfolding map_to_queue packet_at
  Slots-map_to_queue n k q s h l t = (
    λ j a b f. elim (slot_cases k j) [
      | inl same ↦
          let e : k ≡ j = omega arith in
          (
            omega arith,
            subst (Carries file total j)
                (sym (update_self q.buffer (k % window_slots) (j % window_slots) _ same))
                (subst (λ i. Carries file total i (packet_at file total k)) e
                  (packet_at-Carries file total k)),
          )
      | inr other ↦
          let (lt, c) = s j a b (
            sym
              (ap (λ x. x == 1) (update-ne q.buflen (k % window_slots) (j % window_slots) 1 other))
            ∙ f) in
          (
            lt,
            subst (Carries file total j)
                (sym (update-ne q.buffer (k % window_slots) (j % window_slots) _ other)) c,
          )
    ],
    ap (λ x. x == 1)
        (update-ne q.buflen (k % window_slots) (n % window_slots) 1
          (λ e. slots_differ n k h l (sym e))),
  )

  buffer-cumulative_ack :
      (a b i : ℕ) (q : ReceiverQ) (p : RdtPacket)
      → let old = q.buffer i in
        let new = (cumulative_ack q p a b).1.buffer i in
        (new.payload ≡ old.payload) × (new.fin_byte ≡ old.fin_byte) × (new.content ≡ old.content)
  unfolding cumulative_ack
  buffer-cumulative_ack a b i q p = ground arith

  Carries-same :
      (k : ℕ) (old new : RdtPacket)
      → Carries file total k old
      → new.payload ≡ old.payload
      → new.fin_byte ≡ old.fin_byte
      → new.content ≡ old.content
      → Carries file total k new
  Carries-same k old new c p f t = record {
    payload = p ∙ c.payload;
    fin_byte = f ∙ c.fin_byte;
    content = rw (p, t) c.content;
  }

  buflen-cumulative_ack :
      (a b : ℕ) (q : ReceiverQ) (p : RdtPacket) → (cumulative_ack q p a b).1.buflen ≡ q.buflen
  unfolding cumulative_ack
  buflen-cumulative_ack a b q p = ground arith

  ack_num-cumulative_ack :
      (a b : ℕ) (q : ReceiverQ) (p : RdtPacket) → (cumulative_ack q p a b).0.ack_num ≡ b
  unfolding cumulative_ack
  ack_num-cumulative_ack a b q p = ground arith

  -- The ack leaves what the receiver reads of the slots.
  Slots-cumulative_ack :
      (n a b : ℕ) (q : ReceiverQ) (p : RdtPacket)
      → Slots file total n q
      → Slots file total n (cumulative_ack q p a b).1
  Slots-cumulative_ack n a b q p s k h l f =
      let (lt, c) =
        s k h l (ap (λ g. g (k % window_slots) == 1) (sym (buflen-cumulative_ack a b q p)) ∙ f) in
      let (same_payload, same_fin, same_content) =
        buffer-cumulative_ack a b (k % window_slots) q p in
      (
        lt,
        Carries-same k (q.buffer (k % window_slots))
            ((cumulative_ack q p a b).1.buffer (k % window_slots)) c same_payload same_fin
            same_content,
      )

  FirstEmpty-cumulative_ack :
      (n m a b : ℕ) (q : ReceiverQ) (p : RdtPacket)
      → FirstEmpty q n m
      → FirstEmpty (cumulative_ack q p a b).1 n m
  FirstEmpty-cumulative_ack n m a b q p first = record {
    le = first.le;
    empty = ap (λ g. g (m % window_slots) == 1) (buflen-cumulative_ack a b q p) ∙ first.empty;
    full = λ k h l.
        ap (λ g. g (k % window_slots) == 1) (buflen-cumulative_ack a b q p) ∙ first.full k h l;
  }

  module _ (writes : ℕ → List WriteReply)
      (completes : (k : ℕ) → k < total → Completes (writes k) (length (chunk file k)))
      (small : total + window_slots < u32_mod) where
    -- What `check_and_sent_buffer` leaves when the number `n` is due.
    pub record Emptied (n : ℕ) (out : List ℕ) (r : Flush × AckPacket) : Type 0 where
      pub due : ℕ
      pub ge : n ≤ due
      pub le_total : due ≤ total
      pub names : r.1.ack_num ≡ due
      pub flushed : Flushed file total n due 0 r.0

    pub check_and_sent_buffer_lem :
        (sends : List SendReply) (n : ℕ) (q : ReceiverQ) (p : RdtPacket) (out : List ℕ)
        → EndsSent sends
        → n ≤ total
        → 1 ≤ n
        → is_full q (n + window_slots - 1) ≡ false
        → out ≡ take (max_payload_len * n) file
        → Slots file total n q
        → (r : Flush × AckPacket) × (check_and_sent_buffer writes sends n q p out ≡ done r)
          × Emptied n out r
    unfolding check_and_sent_buffer
    check_and_sent_buffer_lem sends n q p out ends le pos e f s =
        let (m, ran, first, near) =
          scan_lem window_slots q n (n + window_slots - 1) (omega arith) (omega arith) e
            (omega arith) in
        let (ack, q') = cumulative_ack q p n m in
        let (st, run, fl) =
          flush_lem file total writes completes small (suc window_slots)
            (record { retval = 0; queue = q'; ret_seq_num = n; file = out }) m
            (FirstEmpty-cumulative_ack n m n m q p first) (omega arith) (omega arith) le f
            (Slots-cumulative_ack n n m q p s) in
        (
          (st, ack),
          rw (ran, send_ack_packet_lem sends ack ends, run),
          record {
            due = m;
            ge = first.le;
            le_total =
                first-le-total file total writes completes small n m first (omega arith) le s;
            names = ack_num-cumulative_ack n m q p;
            flushed = fl;
          },
        )
