-- ===== src/Rdt/Tests/Rounds.antt =====
-- Rounds of the receiver at concrete inputs.
use networking_learning.Base.{ℕ, ◌≡◌, refl, inl, [], ◌∷◌, ◌++◌, arith, done, length-replicate}
use networking_learning.Rdt.Constants.{rdt_packet_size, SendReply, zero_packet}
use networking_learning.Rdt.Sender.Packets.{packet_at}
use networking_learning.Rdt.Receiver.{Peer, Datagram, RecvReply, datagram}
use networking_learning.Rdt.Receiver.Receive.{Recv, Arrival, init_recv, round, receive_loop}
use networking_learning.Rdt.Receiver.Arriving.{round-rejected}
use networking_learning.Rdt.Receiver.Complete.{receive_loop_lem}
use networking_learning.Rdt.Tests.Receiving.{file, byte_by_byte, file-Completes}

abbrev peer : Peer
peer = record { port = 5; addr = 6 }

abbrev brings : ℕ → Arrival
brings k = record {
  recvs =
      RecvReply.interrupted
      ∷ datagram (record { size = rdt_packet_size; packet = packet_at file 2 k; sender = peer })
      ∷ [];
  sends = SendReply.sent ∷ [];
}

-- The second chunk comes early, and each of them twice.
receive_loop_lem_example :
    (s' : Recv) × (receive_loop byte_by_byte
        (brings 1 ∷ brings 0 ∷ brings 0 ∷ brings 1 ∷ [])
        init_recv
      ≡ done s')
    × (s'.file ≡ file)
    × (s'.last_ack_num ≡ 2)
receive_loop_lem_example =
    receive_loop_lem file 2 peer byte_by_byte file-Completes (omega arith)
      (brings 1 ∷ brings 0 ∷ brings 0 ∷ brings 1 ∷ []) (1 ∷ 0 ∷ 0 ∷ 1 ∷ []) (omega arith)
      (omega (arith, length-replicate {A = ℕ} 1500 7))
      (refl, tt, (refl, tt, (refl, tt, (refl, tt, tt))))
      (
        omega arith,
        omega arith,
        (omega arith, omega arith, (omega arith, omega arith, (omega arith, omega arith, tt))),
      )
      (omega arith)

abbrev short : Datagram
short = record { size = 3; packet = zero_packet; sender = peer }

abbrev one_written : Recv
one_written = record init_recv { last_ack_num = 1; si_other = peer }

round-rejected_example :
    round byte_by_byte
      (record { recvs = datagram short ∷ []; sends = SendReply.sent ∷ [] })
      one_written
    ≡ done (record one_written {
      acks =
          one_written.acks
          ++ record { seq_num = 0; ack_num = 1; fin_byte = short.packet.fin_byte } ∷ [];
    })
round-rejected_example =
    round-rejected byte_by_byte
      (record { recvs = datagram short ∷ []; sends = SendReply.sent ∷ [] }) one_written short refl
      (inl (omega arith)) tt
