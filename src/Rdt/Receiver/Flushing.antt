-- ===== src/Rdt/Receiver/Flushing.antt =====
-- The second loop of `check_and_sent_buffer` in mp2/src/receiver_main.c: it writes the chunks up to
-- the first empty slot.
use networking_learning.Base.{
  ℕ, zero, suc, ◌+◌, ◌-◌, ◌*◌, ◌%◌, ◌≤◌, ◌<◌, ◌≡◌, ◌∙◌, ap, subst, sym, refl, inl, inr, true, false,
  ltb, ◌==◌, ◌&&◌, if◌then◌else◌, List, ◌++◌, take, drop, length, done, arith, take-add, lt_or_le,
  u32_mod, length-take,
}
use networking_learning.Rdt.Constants.{RdtPacket, max_payload_len, window_slots, zero_packet}
use networking_learning.Rdt.Sender.Packets.{chunk}
use networking_learning.Rdt.Sender.Send.{from_bool}
use networking_learning.Rdt.Receiver.{ReceiverQ, WriteReply, write_to_file, map_to_queue}
use networking_learning.Rdt.Receiver.Writing.{Completes, write_to_file_lem}
use networking_learning.Rdt.Receiver.Buffer.{is_full, Flush, flush_one, flush}
use networking_learning.Rdt.Receiver.Slots.{
  update_self, update-ne, slots_differ, FirstEmpty, Carries, Slots,
}

flush-stop :
    (fuel : ℕ) (writes : ℕ → List WriteReply) (st : Flush)
    → is_full st.queue st.ret_seq_num ≡ false
    → flush (suc fuel) writes st ≡ done st
unfolding flush
flush-stop fuel writes st h = rw (h, flush)

module _ (file : List ℕ) (total : ℕ) where
  -- The state of the second loop after it has written up to `m`.
  pub record Flushed (n m retval : ℕ) (st : Flush) : Type 0 where
    pub seq : st.ret_seq_num ≡ m
    pub file_is : st.file ≡ take (max_payload_len * m) file
    pub slots : Slots file total m st.queue
    pub empty : is_full st.queue m ≡ false
    pub retval_is : st.retval ≡ (if ltb n m && m == total then 1 else retval)

  pub file_grows :
      (n : ℕ)
      → take (max_payload_len * n) file ++ chunk file n ≡ take (max_payload_len * (n + 1)) file
  unfolding chunk
  file_grows n =
      sym (take-add (max_payload_len * n) max_payload_len file)
      ∙ (let e : max_payload_len * n + max_payload_len ≡ max_payload_len * (n + 1) = omega arith in
          ap (λ k. take k file) e)

  pub chunk-le : (n : ℕ) → length (chunk file n) ≤ max_payload_len
  unfolding chunk
  chunk-le n = omega (arith, length-take max_payload_len (drop (max_payload_len * n) file))

  -- Emptying the slot of `n` leaves the slots of the other numbers of the window.
  is_full-flush_one :
      (bytes : List ℕ) (st : Flush) (k : ℕ)
      → st.ret_seq_num < k
      → k < st.ret_seq_num + window_slots
      → is_full (flush_one bytes st).queue k ≡ is_full st.queue k
  unfolding flush_one
  is_full-flush_one bytes st k h l =
      ap (λ x. x == 1)
        (update-ne st.queue.buflen (st.ret_seq_num % window_slots) (k % window_slots) 0
          (slots_differ st.ret_seq_num k h l))

  Slots-flush_one :
      (bytes : List ℕ) (st : Flush)
      → Slots file total st.ret_seq_num st.queue
      → Slots file total (st.ret_seq_num + 1) (flush_one bytes st).queue
  unfolding flush_one
  Slots-flush_one bytes st s k h l f = elim (lt_or_le k (st.ret_seq_num + window_slots)) [
    | inl near ↦
        let ne = slots_differ st.ret_seq_num k (omega arith) near in
        let (lt, c) =
          s k (omega arith) near (sym (is_full-flush_one bytes st k (omega arith) near) ∙ f) in
        (
          lt,
          subst (Carries file total k)
              (sym (
                update-ne st.queue.buffer (st.ret_seq_num % window_slots) (k % window_slots)
                  zero_packet ne))
              c,
        )
    | inr far ↦
        let e =
          update_self st.queue.buflen (st.ret_seq_num % window_slots) (k % window_slots) 0
            (omega arith) in
        absurd (cc e)
  ]

  -- The bytes of a full slot of the window reach the file.
  pub write_slot :
      (writes : ℕ → List WriteReply) (n : ℕ) (p : RdtPacket)
      → Completes (writes n) (length (chunk file n))
      → Carries file total n p
      → write_to_file (writes n) p ≡ done (chunk file n)
  write_slot writes n p w c =
      write_to_file_lem (writes n) p (omega (arith, chunk-le n))
        (subst (Completes (writes n)) (sym c.payload) w)
      ∙ ap done c.content

  module _ (writes : ℕ → List WriteReply)
      (completes : (k : ℕ) → k < total → Completes (writes k) (length (chunk file k)))
      (small : total + window_slots < u32_mod) where
    flush_step :
        (fuel : ℕ) (st : Flush)
        → is_full st.queue st.ret_seq_num ≡ true
        → st.ret_seq_num < total
        → Carries file total st.ret_seq_num (st.queue.buffer (st.ret_seq_num % window_slots))
        → flush (suc fuel) writes st ≡ flush fuel writes (flush_one (chunk file st.ret_seq_num) st)
    unfolding flush
    flush_step fuel st h lt c = rw (
      h,
      flush,
      write_slot writes st.ret_seq_num (st.queue.buffer (st.ret_seq_num % window_slots))
          (completes st.ret_seq_num lt) c,
    )

    -- The first empty slot stands no later than the end of the file.
    pub first-le-total :
        {q : ReceiverQ} (n m : ℕ)
        → FirstEmpty q n m
        → m < n + window_slots
        → n ≤ total
        → Slots file total n q
        → m ≤ total
    first-le-total n m first near le s = elim (lt_or_le n m) [
      | inl more ↦ omega (
        arith,
        (s (m - 1) (omega arith) (omega arith) (first.full (m - 1) (omega arith) (omega arith))).0,
      )
      | inr end ↦ omega arith
    ]

    -- What one round of the second loop leaves: the same first empty slot, one chunk further.
    FirstEmpty-flush_one :
        (bytes : List ℕ) (st : Flush) (m : ℕ)
        → FirstEmpty st.queue st.ret_seq_num m
        → m < st.ret_seq_num + window_slots
        → st.ret_seq_num < m
        → FirstEmpty (flush_one bytes st).queue (st.ret_seq_num + 1) m
    FirstEmpty-flush_one bytes st m first near lt = record {
      le = omega arith;
      empty = is_full-flush_one bytes st m lt near ∙ first.empty;
      full = λ k a b.
          is_full-flush_one bytes st k (omega arith) (omega arith) ∙ first.full k (omega arith) b;
    }

    retval_step :
        (n m fin retval : ℕ)
        → n < m
        → m ≤ total
        → fin ≡ from_bool (n + 1 == total)
        → (if ltb (n + 1) m && m == total then 1 else (if fin == 1 then 1 else retval))
          ≡ (if ltb n m && m == total then 1 else retval)
    retval_step n m fin retval h le e = ground arith

    -- One round goes one chunk further.
    flush_one_fields :
        (st : Flush)
        → st.ret_seq_num + 1 < u32_mod
        → st.file ≡ take (max_payload_len * st.ret_seq_num) file
        → let st₁ = flush_one (chunk file st.ret_seq_num) st in
          (st.ret_seq_num + 1 ≡ st₁.ret_seq_num)
          × (st₁.file ≡ take (max_payload_len * (st.ret_seq_num + 1)) file)
          × (st₁.retval ≡ (
              if (st.queue.buffer (st.ret_seq_num % window_slots)).fin_byte == 1
              then 1
              else st.retval))
    unfolding flush_one
    flush_one_fields st h f =
        (omega arith, ap (λ x. x ++ chunk file st.ret_seq_num) f ∙ file_grows st.ret_seq_num, refl)

    -- The second loop returns: it writes the chunks up to the first empty slot, clears their slots, and
    -- raises `retval` exactly if the last chunk of the file is among them. It starts with the file
    -- written up to its first number, slots that hold packets of the file, fuel past the first empty
    -- slot, and writes that progress and complete; the file has fewer than 2 ^ 32 - 4096 chunks.
    pub flush_lem :
        (fuel : ℕ) (st : Flush) (m : ℕ)
        → FirstEmpty st.queue st.ret_seq_num m
        → m < st.ret_seq_num + window_slots
        → m < st.ret_seq_num + fuel
        → st.ret_seq_num ≤ total
        → st.file ≡ take (max_payload_len * st.ret_seq_num) file
        → Slots file total st.ret_seq_num st.queue
        → (st' : Flush) × (flush fuel writes st ≡ done st') × Flushed st.ret_seq_num m st.retval st'
    flush_lem zero st m first near enough le f s = absurd (omega (arith, first.le))
    flush_lem (suc fuel) st m first near enough le f s = elim (lt_or_le st.ret_seq_num m) [
      | inl more ↦
          let n = st.ret_seq_num in
          let st₁ = flush_one (chunk file n) st in
          let m-le = first-le-total n m first near le s in
          let t = first.full n (omega arith) more in
          let (lt, c) = s n (omega arith) (omega arith) t in
          let (q, f₁, r₁) = flush_one_fields st (omega arith) f in
          let (st', run, fl) =
            flush_lem fuel st₁ m
              (subst (λ j. FirstEmpty st₁.queue j m) q
                (FirstEmpty-flush_one (chunk file n) st m first near more))
              (omega arith) (omega arith) (omega arith)
              (f₁ ∙ ap (λ j. take (max_payload_len * j) file) q)
              (subst (λ j. Slots file total j st₁.queue) q (Slots-flush_one (chunk file n) st s)) in
          (
            st',
            flush_step fuel st t lt c ∙ run,
            record {
              seq = fl.seq;
              file_is = fl.file_is;
              slots = fl.slots;
              empty = fl.empty;
              retval_is =
                  fl.retval_is
                  ∙ rw (← q, r₁)
                      (retval_step n m (st.queue.buffer (n % window_slots)).fin_byte st.retval more
                        m-le c.fin_byte);
            },
          )
      | inr end ↦
          let e : st.ret_seq_num ≡ m = omega (arith, first.le) in
          (
            st,
            flush-stop fuel writes st (ap (is_full st.queue) e ∙ first.empty),
            record {
              seq = e;
              file_is = f ∙ ap (λ j. take (max_payload_len * j) file) e;
              slots = subst (λ j. Slots file total j st.queue) e s;
              empty = first.empty;
              retval_is = ground arith;
            },
          )
    ]

flush-round :
    (fuel : ℕ) (writes : ℕ → List WriteReply) (st : Flush) (bytes : List ℕ)
    → is_full st.queue st.ret_seq_num ≡ true
    → write_to_file (writes st.ret_seq_num) (st.queue.buffer (st.ret_seq_num % window_slots))
      ≡ done bytes
    → flush (suc fuel) writes st ≡ flush fuel writes (flush_one bytes st)
unfolding flush
flush-round fuel writes st bytes h w = rw (h, flush, w)

map_to_queue-full :
    (q : ReceiverQ) (p : RdtPacket) (n : ℕ)
    → p.seq_num ≡ n + window_slots
    → is_full (map_to_queue q p) n ≡ true
unfolding map_to_queue
map_to_queue-full q p n e =
    ap (λ x. x == 1)
      (update_self q.buflen (p.seq_num % window_slots) (n % window_slots) 1 (omega arith))

map_to_queue-buffer :
    (q : ReceiverQ) (p : RdtPacket) (n : ℕ)
    → p.seq_num ≡ n + window_slots
    → (map_to_queue q p).buffer (n % window_slots) ≡ p
unfolding map_to_queue
map_to_queue-buffer q p n e =
    update_self q.buffer (p.seq_num % window_slots) (n % window_slots) p (omega arith)

map_to_queue-other :
    (q : ReceiverQ) (p : RdtPacket) (n : ℕ)
    → p.seq_num ≡ n + window_slots
    → is_full (map_to_queue q p) (n + 1) ≡ is_full q (n + 1)
unfolding map_to_queue
map_to_queue-other q p n e =
    ap (λ x. x == 1)
      (update-ne q.buflen (p.seq_num % window_slots) ((n + 1) % window_slots) 1 (omega arith))

flush_one-emptied :
    (bytes : List ℕ) (st : Flush) → is_full (flush_one bytes st).queue st.ret_seq_num ≡ false
unfolding flush_one
flush_one-emptied bytes st =
    ap (λ x. x == 1)
      (update_self st.queue.buflen (st.ret_seq_num % window_slots) (st.ret_seq_num % window_slots) 0
        refl)

flush_one-next :
    (bytes : List ℕ) (st : Flush)
    → is_full (flush_one bytes st).queue (st.ret_seq_num + 1)
      ≡ is_full st.queue (st.ret_seq_num + 1)
unfolding flush_one
flush_one-next bytes st =
    ap (λ x. x == 1)
      (update-ne st.queue.buflen (st.ret_seq_num % window_slots)
        ((st.ret_seq_num + 1) % window_slots) 0
        (slots_differ st.ret_seq_num (st.ret_seq_num + 1) (omega arith) (omega arith)))

flush_one-ends :
    (bytes : List ℕ) (st : Flush)
    → st.ret_seq_num + 1 < u32_mod
    → ((flush_one bytes st).ret_seq_num ≡ st.ret_seq_num + 1)
      × ((flush_one bytes st).file ≡ st.file ++ bytes)
unfolding flush_one
flush_one-ends bytes st l = (omega arith, refl)

-- The queue does not check that a packet lies within its window: one that stands WINDOW numbers past
-- the number `n` is stored in the slot of `n`. If the slot of `n + 1` is empty and the writes progress
-- and complete, the second loop then returns from `n` with `n + 1` due and the slot of `n` empty: it
-- has written the payload of that packet, and nothing else, in the place of the packet `n`.
pub flush-map_to_queue :
    (writes : ℕ → List WriteReply) (q : ReceiverQ) (p : RdtPacket) (n fuel retval : ℕ)
    (out : List ℕ)
    → p.seq_num ≡ n + window_slots
    → n + 1 < u32_mod
    → p.payload ≤ max_payload_len
    → Completes (writes n) p.payload
    → is_full q (n + 1) ≡ false
    → let st : Flush = record {
      retval = retval;
      queue = map_to_queue q p;
      ret_seq_num = n;
      file = out;
    } in
      (st' : Flush) × (flush (suc (suc fuel)) writes st ≡ done st')
      × (st'.file ≡ out ++ take p.payload p.content)
      × (st'.ret_seq_num ≡ n + 1)
      × (is_full st'.queue n ≡ false)
flush-map_to_queue writes q p n fuel retval out e in_range small c empty =
    let st : Flush = record {
      retval = retval;
      queue = map_to_queue q p;
      ret_seq_num = n;
      file = out;
    } in
    let bytes = take p.payload p.content in
    let st₁ = flush_one bytes st in
    let (due, written) = flush_one-ends bytes st in_range in
    let next : is_full st₁.queue st₁.ret_seq_num ≡ false =
      ap (is_full st₁.queue) due ∙ flush_one-next bytes st ∙ map_to_queue-other q p n e ∙ empty in
    (
      st₁,
      flush-round (suc fuel) writes st bytes (map_to_queue-full q p n e) (
            subst (λ x. write_to_file (writes n) x ≡ done bytes) (sym (map_to_queue-buffer q p n e))
              (write_to_file_lem (writes n) p small c))
          ∙ flush-stop fuel writes st₁ next,
      written,
      due,
      flush_one-emptied bytes st,
    )
