-- ===== src/Rdt/Receiver/Complete.antt =====
-- The loop of `reliablyReceive` in mp2/src/receiver_main.c, from its start to the whole file.
use networking_learning.Base.{
  ℕ, ◌+◌, ◌*◌, ◌≤◌, ◌<◌, ◌≡◌, ◌≢◌, ◌∙◌, sym, refl, ◌⊎◌, inl, inr, Bool, true, false, ◌==◌,
  if◌then◌else◌, List, [], ◌∷◌, length, done, arith, Bool-cases, u32_mod, ==→eq, eq→==, ne→==,
  eq_or_ne,
}
use networking_learning.Rdt.Constants.{
  RdtPacket, max_payload_len, window_slots, rdt_packet_size, SendReply,
}
use networking_learning.Rdt.Sender.Packets.{chunk, packet_at}
use networking_learning.Rdt.Receiver.{Peer, Datagram, WriteReply, accept}
use networking_learning.Rdt.Receiver.Writing.{Completes}
use networking_learning.Rdt.Receiver.Receive.{
  Recv, Arrival, init_recv, receive_packet, round, receive_loop,
}
use networking_learning.Rdt.Receiver.Reassembly.{EndsSent, Reassembles, init_recv-Reassembles}
use networking_learning.Rdt.Receiver.Delivery.{finished-file, receive_packet_lem}
use networking_learning.Rdt.Receiver.Arriving.{Carries, round_run}
use networking_learning.Rdt.Receiver.Peers.{
  receive_packet-Keeps, IsAccepted, accepted, stranger, accept_lem,
}

-- How far the numbers `ks` reach from `b`: they contain `b`, and after it `b + 1`, and so on; what
-- stands between does not count.
abbrev pub reach : ℕ → List ℕ → ℕ
reach b [] = b
reach b (k ∷ ks) = reach (if k == b then b + 1 else b) ks

-- Every number lies below `total`, and less than WINDOW past what the numbers before it reach.
abbrev pub AllNear : ℕ → ℕ → List ℕ → Type 0
AllNear total b [] = Unit
AllNear total b (k ∷ ks) =
    (k < total) × (k < b + window_slots) × AllNear total (if k == b then b + 1 else b) ks

-- Each round gets its chunk of the file from the peer, after any number of interruptions, and its ack
-- is sent in the end.
abbrev pub Brings : List ℕ → ℕ → Peer → List Arrival → List ℕ → Type 0
Brings file total peer [] [] = Unit
Brings file total peer (a ∷ rounds) (k ∷ ks) =
    Carries a.recvs
      (record { size = rdt_packet_size; packet = packet_at file total k; sender = peer })
    × EndsSent a.sends
    × Brings file total peer rounds ks
Brings file total peer [] (k ∷ ks) = ⊥
Brings file total peer (a ∷ rounds) [] = ⊥

module _ (file : List ℕ) (total : ℕ) (peer : Peer) where
  record IsUnderway (b : ℕ) (s : Recv) : Type 0 where
    whole : Reassembles file total s
    reached : b ≤ s.last_ack_num
    known : (s.si_other ≡ peer) ⊎ (s.last_ack_num ≡ 0)

  with_peer-Reassembles :
      (s : Recv) (p : Peer)
      → Reassembles file total s
      → Reassembles file total (record s { si_other = p })
  with_peer-Reassembles s p v = record {
    le = v.le;
    file_is = v.file_is;
    slots = v.slots;
    empty = v.empty;
    fin_is = v.fin_is;
  }

  reach_step :
      (k b last next : ℕ)
      → b ≤ last
      → (if k == last then last + 1 else last) ≤ next
      → (if k == b then b + 1 else b) ≤ next
  reach_step k b last next h r = ground arith

  module _ (writes : ℕ → List WriteReply)
      (completes : (k : ℕ) → k < total → Completes (writes k) (length (chunk file k)))
      (small : total + window_slots < u32_mod) where
    taken_round :
        (sends : List SendReply) (k b : ℕ) (s : Recv)
        → EndsSent sends
        → IsUnderway b s
        → s.last_ack_num < total
        → k < total
        → k < b + window_slots
        → (s' : Recv) × (receive_packet writes sends true
              (packet_at file total k)
              (record s { si_other = peer })
            ≡ done s')
          × IsUnderway (if k == b then b + 1 else b) s'
    taken_round sends k b s ends v run lt near =
        let s₁ : Recv = record s { si_other = peer } in
        let (s', ran, d) =
          receive_packet_lem file total writes completes small sends k s₁ ends
            (with_peer-Reassembles s peer v.whole) run lt (omega (arith, v.reached)) in
        (
          s',
          ran,
          record {
            whole = d.valid;
            reached = reach_step k b s.last_ack_num s'.last_ack_num v.reached d.reaches;
            known = inl (receive_packet-Keeps writes sends (packet_at file total k) s₁ s' ran);
          },
        )

    seq_of : (k : ℕ) → (packet_at file total k).seq_num ≡ k
    unfolding packet_at
    seq_of k = refl

    ignored :
        (sends : List SendReply) (p : RdtPacket) (s : Recv)
        → s.last_ack_num ≡ 0
        → receive_packet writes sends false p s ≡ done s
    unfolding receive_packet
    ignored sends p s z = rw (eq→== s.last_ack_num 0 z) refl

    round_lem :
        (a : Arrival) (k b : ℕ) (s : Recv)
        → Carries a.recvs
            (record { size = rdt_packet_size; packet = packet_at file total k; sender = peer })
        → EndsSent a.sends
        → IsUnderway b s
        → s.last_ack_num < total
        → k < total
        → k < b + window_slots
        → (s' : Recv) × (round writes a s ≡ done s') × IsUnderway (if k == b then b + 1 else b) s'
    round_lem a k b s carries ends v run lt near =
        by (accept d s.si_other) refl (accept_lem (packet_at file total k) peer s.si_other)
      where
        d : Datagram
        d = record { size = rdt_packet_size; packet = packet_at file total k; sender = peer }

        by :
            (r : Bool × Peer)
            → accept d s.si_other ≡ r
            → IsAccepted (packet_at file total k) peer s.si_other r
            → (s' : Recv) × (round writes a s ≡ done s')
              × IsUnderway (if k == b then b + 1 else b) s'
        by r e accepted =
            let (s', ran, v') = taken_round a.sends k b s ends v run lt near in
            (s', round_run writes a s d true peer carries e ∙ ran, v')
        by r e (stranger ne other) = elim v.known [
          | inl q ↦ absurd (other q)
          | inr z ↦ (
            s,
            round_run writes a s d false s.si_other carries e
                ∙ ignored a.sends (packet_at file total k) s z,
            record {
              whole = v.whole;
              reached =
                  let not_first : k ≢ b = λ q. ne (seq_of k ∙ q ∙ omega (arith, v.reached, z)) in
                  rw (ne→== k b not_first) v.reached;
              known = inr z;
            },
          )
        ]

    loop_stop :
        (rounds : List Arrival) (s : Recv)
        → s.recv_fin_byte ≡ true
        → receive_loop writes rounds s ≡ done s
    unfolding receive_loop
    loop_stop [] s f = rw f refl
    loop_stop (a ∷ rounds) s f = rw f refl

    loop_step :
        (a : Arrival) (rounds : List Arrival) (s s' : Recv)
        → s.recv_fin_byte ≡ false
        → round writes a s ≡ done s'
        → receive_loop writes (a ∷ rounds) s ≡ receive_loop writes rounds s'
    unfolding receive_loop
    loop_step a rounds s s' f e = rw (e, f) refl

    -- What the loop leaves when the file is complete.
    abbrev Ends : List Arrival → Recv → Type 0
    Ends rounds s =
        (s' : Recv) × (receive_loop writes rounds s ≡ done s')
        × (s'.file ≡ file)
        × (s'.last_ack_num ≡ total)

    ended :
        (rounds : List Arrival) (s : Recv)
        → length file ≤ max_payload_len * total
        → Reassembles file total s
        → s.recv_fin_byte ≡ true
        → Ends rounds s
    ended rounds s h v f = (
      s,
      loop_stop rounds s f,
      finished-file file total s h v f,
      ==→eq s.last_ack_num total (sym v.fin_is ∙ f),
    )

    unfinished :
        (s : Recv) → Reassembles file total s → s.recv_fin_byte ≡ false → s.last_ack_num < total
    unfinished s v f = elim (eq_or_ne s.last_ack_num total) [
      | inl q ↦ absurd (cc (f, v.fin_is, eq→== s.last_ack_num total q))
      | inr ne ↦ omega (arith, v.le, ne)
    ]

    loop_lem :
        (rounds : List Arrival) (ks : List ℕ) (b : ℕ) (s : Recv)
        → length file ≤ max_payload_len * total
        → Brings file total peer rounds ks
        → AllNear total b ks
        → total ≤ reach b ks
        → IsUnderway b s
        → Ends rounds s
    loop_lem [] [] b s h brings near far v =
        let whole = v.whole in
        let last : s.last_ack_num ≡ total = omega (arith, whole.le, v.reached, far) in
        ended [] s h whole (whole.fin_is ∙ eq→== s.last_ack_num total last)
    loop_lem [] (k ∷ ks) b s h brings near far v = absurd brings
    loop_lem (a ∷ rounds) [] b s h brings near far v = absurd brings
    loop_lem (a ∷ rounds) (k ∷ ks) b s h (carries, ends, brings) (lt, near, nears) far v =
        elim (Bool-cases s.recv_fin_byte) [
          | inl f ↦ ended (a ∷ rounds) s h v.whole f
          | inr f ↦
              let (next, ran, v') =
                round_lem a k b s carries ends v (unfinished s v.whole f) lt near in
              let (s', run, whole_file, last) =
                loop_lem rounds ks (if k == b then b + 1 else b) next h brings nears far v' in
              (s', loop_step a rounds s next f ran ∙ run, whole_file, last)
        ]

    init-IsUnderway : 1 ≤ total → IsUnderway 0 init_recv
    unfolding init_recv
    init-IsUnderway h = record {
      whole = init_recv-Reassembles file total h;
      reached = omega arith;
      known = inr refl;
    }

    -- From its start, the loop returns with the file that was sent: each round brings a chunk of the
    -- file from one peer, after any number of interruptions; the chunks may come early, late and more
    -- than once, each less than WINDOW past what came in order before it, and they contain the chunks
    -- of the file in order. The writes progress and complete, the acks are sent in the end, and the
    -- file has 1 to 2 ^ 32 - 4097 chunks, which cover it.
    pub receive_loop_lem :
        (rounds : List Arrival) (ks : List ℕ)
        → 1 ≤ total
        → length file ≤ max_payload_len * total
        → Brings file total peer rounds ks
        → AllNear total 0 ks
        → total ≤ reach 0 ks
        → (s' : Recv) × (receive_loop writes rounds init_recv ≡ done s')
          × (s'.file ≡ file)
          × (s'.last_ack_num ≡ total)
    receive_loop_lem rounds ks pos h brings near far =
        loop_lem rounds ks 0 init_recv h brings near far (init-IsUnderway pos)
