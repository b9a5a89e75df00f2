-- ===== src/Rdt/Receiver/Peers.antt =====
-- The peer that `reliablyReceive` of mp2/src/receiver_main.c takes packets from (`si_other`): which
-- packets it takes, and that the rest of a round keeps it.
use networking_learning.Base.{
  ℕ, ◌≡◌, ◌≢◌, ◌∙◌, ap, subst, sym, refl, inl, inr, Bool, true, false, ◌==◌, ◌&&◌, if◌then◌else◌,
  List, [], ◌∷◌, ◌++◌, Proc, done, exited, blocked, fault, ◌>>=◌, arith, ltb, Bool-cases, ==→eq,
  eq→==, ne→==, eq_or_ne,
}
use networking_learning.Rdt.Constants.{AckPacket, RdtPacket, rdt_packet_size, SendReply}
use networking_learning.Rdt.Receiver.{
  Peer, WriteReply, same_peer, accept, write_to_file, send_ack_packet, build_ack_packet,
  map_to_queue,
}
use networking_learning.Rdt.Receiver.Buffer.{Flush, zero_ack, check_and_sent_buffer}
use networking_learning.Rdt.Receiver.Receive.{
  Recv, acknowledge, due_written, buffer_emptied, wait_for_break, receive_due, receive_packet,
}

-- A packet leaves the peer as it is.
abbrev pub Keeps : Peer → Proc Recv → Type 0
Keeps peer r = (s' : Recv) → r ≡ done s' → s'.si_other ≡ peer

bind-Keeps :
    {A : Type 0} (peer : Peer) (x : Proc A) (f : A → Proc Recv)
    → ((a : A) → Keeps peer (f a))
    → Keeps peer (x >>= f)
bind-Keeps peer (done a) f h s' e = h a s' e
bind-Keeps peer exited f h s' e = absurd (cc e)
bind-Keeps peer blocked f h s' e = absurd (cc e)
bind-Keeps peer fault f h s' e = absurd (cc e)

done-Keeps : (peer : Peer) (s : Recv) → s.si_other ≡ peer → Keeps peer (done s)
done-Keeps peer s h s' e = ap (λ (t : Recv). t.si_other) (sym (done_inj s s' e)) ∙ h
  where
    done_inj : (s s' : Recv) → done s ≡ done s' → s ≡ s'
    done_inj s s' e = cc e

acknowledge-Keeps :
    (sends : List SendReply) (p : RdtPacket) (s : Recv) → Keeps s.si_other (acknowledge sends p s)
unfolding acknowledge
acknowledge-Keeps sends p s =
    bind-Keeps s.si_other (send_ack_packet sends (build_ack_packet zero_ack p s.last_ack_num).0)
      (λ ack. done (record s { acks = s.acks ++ ack ∷ [] }))
      (λ ack. done-Keeps s.si_other (record s { acks = s.acks ++ ack ∷ [] }) refl)

buffer_emptied-Keeps :
    (r : Flush × AckPacket) (s : Recv) → (buffer_emptied r s).si_other ≡ s.si_other
unfolding buffer_emptied wait_for_break
buffer_emptied-Keeps r s = ground arith

wait_for_break-Keeps : (s : Recv) → (wait_for_break s).si_other ≡ s.si_other
unfolding wait_for_break
wait_for_break-Keeps s = refl

-- The rest of the branch for the packet that is due, once it is written.
due_rest : (ℕ → List WriteReply) → List SendReply → RdtPacket → Recv → Proc Recv
due_rest writes sends p s =
    if p.fin_byte == 1
    then done (wait_for_break s)
    else check_and_sent_buffer writes sends s.last_ack_num s.rec_queue p s.file >>= λ r.
        done (buffer_emptied r s)

due_rest-Keeps :
    (writes : ℕ → List WriteReply) (sends : List SendReply) (p : RdtPacket) (s : Recv)
    → Keeps s.si_other (due_rest writes sends p s)
unfolding due_rest
due_rest-Keeps writes sends p s = elim (Bool-cases (p.fin_byte == 1)) [
  | inl e ↦ rw e (done-Keeps s.si_other (wait_for_break s) (wait_for_break-Keeps s))
  | inr e ↦ rw e (
      bind-Keeps s.si_other (check_and_sent_buffer writes sends s.last_ack_num s.rec_queue p s.file)
        (λ r. done (buffer_emptied r s))
        (λ r. done-Keeps s.si_other (buffer_emptied r s) (buffer_emptied-Keeps r s)))
]

receive_due-Keeps :
    (writes : ℕ → List WriteReply) (sends : List SendReply) (p : RdtPacket) (s : Recv)
    → Keeps s.si_other (receive_due writes sends p s)
unfolding receive_due due_written due_rest
receive_due-Keeps writes sends p s =
    bind-Keeps s.si_other (write_to_file (writes p.seq_num) p)
      (λ bytes. due_rest writes sends p (due_written p bytes s))
      (λ bytes. due_rest-Keeps writes sends p (due_written p bytes s))

pub receive_packet-Keeps :
    (writes : ℕ → List WriteReply) (sends : List SendReply) (p : RdtPacket) (s : Recv)
    → Keeps s.si_other (receive_packet writes sends true p s)
unfolding receive_packet
receive_packet-Keeps writes sends p s = elim (Bool-cases (p.seq_num == s.last_ack_num)) [
  | inl due ↦ rw due (receive_due-Keeps writes sends p s)
  | inr other ↦ elim (Bool-cases (ltb s.last_ack_num p.seq_num)) [
    | inl early ↦
        rw (other, early)
          (acknowledge-Keeps sends p (record s { rec_queue = map_to_queue s.rec_queue p }))
    | inr old ↦ rw (other, old) (acknowledge-Keeps sends p s)
  ]
]

-- How `recvPacket` takes a packet of the right size from the peer.
pub data IsAccepted (p : RdtPacket) (peer before : Peer) : Bool × Peer → Type 0 where
  accepted : IsAccepted p peer before (true, peer)
  stranger : p.seq_num ≢ 0 → before ≢ peer → IsAccepted p peer before (false, before)

same_peer-eq : (a b : Peer) → same_peer a b ≡ true → a ≡ b
same_peer-eq a b e =
    let (p, q) = both (a.port == b.port) (a.addr == b.addr) e in
    ap (λ x. record { port = x; addr = a.addr }) (==→eq a.port b.port p)
    ∙ ap (λ x. record { port = b.port; addr = x }) (==→eq a.addr b.addr q)
  where
    both : (x y : Bool) → (x && y) ≡ true → (x ≡ true) × (y ≡ true)
    both true true e = (refl, refl)
    both true false e = absurd (cc e)
    both false y e = absurd (cc e)

same_peer_refl : (a : Peer) → same_peer a a ≡ true
same_peer_refl a = rw (eq→== a.port a.port refl, eq→== a.addr a.addr refl) refl

pub accept_lem :
    (p : RdtPacket) (peer before : Peer)
    → IsAccepted p peer before
        (accept (record { size = rdt_packet_size; packet = p; sender = peer }) before)
unfolding accept
accept_lem p peer before = elim (eq_or_ne p.seq_num 0) [
  | inl q ↦ rw (eq→== p.seq_num 0 q, same_peer_refl peer) accepted
  | inr ne ↦ elim (Bool-cases (same_peer peer before)) [
    | inl e ↦
        rw (ne→== p.seq_num 0 ne, e)
          (subst (λ b. IsAccepted p peer before (true, b)) (same_peer-eq peer before e) accepted)
    | inr e ↦
        rw (ne→== p.seq_num 0 ne, e)
          (stranger ne (λ q. differ (sym (same_peer_refl peer) ∙ ap (same_peer peer) (sym q) ∙ e)))
  ]
]
  where
    differ : true ≡ false → ⊥
    differ e = cc e
