-- ===== src/Rdt/Receiver/Arriving.antt =====
-- A datagram that reaches `recvPacket` of mp2/src/receiver_main.c, and the round that it starts.
use networking_learning.Base.{
  ℕ, ◌≡◌, ◌≢◌, ◌∙◌, ap, refl, ◌⊎◌, inl, inr, Bool, false, ◌==◌, if◌then◌else◌, List, [], ◌∷◌, ◌++◌,
  done, ne→==, Bool-cases,
}
use networking_learning.Rdt.Constants.{RdtPacket, rdt_packet_size, SendReply}
use networking_learning.Rdt.Receiver.{
  Peer, Datagram, RecvReply, datagram, WriteReply, same_peer, accept, recv_packet, build_ack_packet,
}
use networking_learning.Rdt.Receiver.Buffer.{zero_ack}
use networking_learning.Rdt.Receiver.Receive.{Recv, Arrival, acknowledge, receive_packet, round}
use networking_learning.Rdt.Receiver.Reassembly.{EndsSent, send_ack_packet_lem}

-- The datagram comes after any number of interruptions.
abbrev pub Carries : List RecvReply → Datagram → Type 0
Carries [] d = ⊥
Carries (datagram e ∷ rs) d = e ≡ d
Carries (RecvReply.interrupted ∷ rs) d = Carries rs d
Carries (RecvReply.failed ∷ rs) d = ⊥

recv_packet_lem :
    (rs : List RecvReply) (d : Datagram) (peer : Peer)
    → Carries rs d
    → recv_packet rs peer ≡ done ((accept d peer).0, d.packet, (accept d peer).1)
unfolding recv_packet
recv_packet_lem [] d peer c = absurd c
recv_packet_lem (datagram e ∷ rs) d peer c =
    ap (λ x. done ((accept x peer).0, x.packet, (accept x peer).1)) c
recv_packet_lem (RecvReply.interrupted ∷ rs) d peer c = recv_packet_lem rs d peer c
recv_packet_lem (RecvReply.failed ∷ rs) d peer c = absurd c

-- The round, once it is known what `recvPacket` makes of the datagram.
pub round_run :
    (writes : ℕ → List WriteReply) (a : Arrival) (s : Recv) (d : Datagram) (good : Bool)
    (peer : Peer)
    → Carries a.recvs d
    → accept d s.si_other ≡ (good, peer)
    → round writes a s ≡ receive_packet writes a.sends good d.packet (record s { si_other = peer })
unfolding round
round_run writes a s d good peer c e = rw (recv_packet_lem a.recvs d s.si_other c, e) refl

-- The datagram has the wrong size, or it is not the first packet of a transfer and comes from
-- somebody else than the peer.
abbrev pub IsRejected : Datagram → Peer → Type 0
IsRejected d peer =
    (d.size ≢ rdt_packet_size) ⊎ (d.packet.seq_num ≢ 0) × (same_peer d.sender peer ≡ false)

accept-rejected : (d : Datagram) (peer : Peer) → IsRejected d peer → accept d peer ≡ (false, peer)
unfolding accept
accept-rejected d peer (inl size) = rw (ne→== d.size rdt_packet_size size) refl
accept-rejected d peer (inr (seq, other)) = elim (Bool-cases (d.size == rdt_packet_size)) [
  | inl e ↦ rw (e, ne→== d.packet.seq_num 0 seq, other) refl
  | inr e ↦ rw e refl
]

acknowledge_run :
    (sends : List SendReply) (p : RdtPacket) (s : Recv)
    → EndsSent sends
    → acknowledge sends p s
      ≡ done (record s {
        acks =
            s.acks ++ record { seq_num = 0; ack_num = s.last_ack_num; fin_byte = p.fin_byte } ∷ [];
      })
unfolding acknowledge build_ack_packet zero_ack
acknowledge_run sends p s ends =
    rw (send_ack_packet_lem sends (build_ack_packet zero_ack p s.last_ack_num).0 ends) refl

-- A round with a datagram that `recvPacket` rejects, with an ack that is sent in the end, returns:
-- before the first chunk nothing changes at all, and afterwards exactly one ack goes out, for the number
-- that is due and with the last byte of the datagram's packet as its own; the file, the queue, the
-- number that is due and the peer stay.
pub round-rejected :
    (writes : ℕ → List WriteReply) (a : Arrival) (s : Recv) (d : Datagram)
    → Carries a.recvs d
    → IsRejected d s.si_other
    → EndsSent a.sends
    → round writes a s
      ≡ done (
          if s.last_ack_num == 0 then s else record s {
            acks =
                s.acks
                ++ record { seq_num = 0; ack_num = s.last_ack_num; fin_byte = d.packet.fin_byte }
                  ∷ [];
          })
unfolding receive_packet
round-rejected writes a s d c rejected ends =
    round_run writes a s d false s.si_other c (accept-rejected d s.si_other rejected)
    ∙ elim (Bool-cases (s.last_ack_num == 0)) [
      | inl none_yet ↦ rw none_yet refl
      | inr some_yet ↦ rw some_yet (acknowledge_run a.sends d.packet s ends)
    ]
