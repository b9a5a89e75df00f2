-- ===== src/Rdt/Transfer.antt =====
-- The event loop of the sender, `reliablyTransfer` of mp2/src/sender_main.c: what a batch of events
-- does, and the whole transfer. The events and the replies of system calls are arguments.
pub mod Guard
pub mod Reading
use networking_learning.Base.{
  ℕ, zero, suc, Bool, true, false, not, ◌||◌, ltb, leb, if◌then◌else◌, List, [], ◌∷◌, ◌++◌,
  replicate, Proc, done, exited, blocked, fault, ◌>>=◌,
}
use networking_learning.Rdt.Constants.{AckPacket, RdtPacket, window_slots, zero_packet, SendReply}
use networking_learning.Rdt.Timer.{Timer, ReadReply, Replies, drain}
use networking_learning.Rdt.Sender.{SenderStat, init_sender_stat}
use networking_learning.Rdt.Sender.Acks.{ack_all, merge}
use networking_learning.Rdt.Sender.Send.{Sent, sendpkts}

-- A reply to `recvfrom`: what the cell of the buffer holds after the read, EINTR, EWOULDBLOCK or
-- EAGAIN, another error.
pub data AckReply : Type 0 where
  packet : AckPacket → AckReply
  interrupted again failed : AckReply

-- `recvAll` with `room` cells left: the packets that it stores.
unfoldable pub recv_all : ℕ → List AckReply → Proc (List AckPacket)
recv_all zero rs = done []
recv_all (suc room) [] = blocked
recv_all (suc room) (packet p ∷ rs) = recv_all room rs >>= λ ps. done (p ∷ ps)
recv_all (suc room) (interrupted ∷ rs) = recv_all (suc room) rs
recv_all (suc room) (again ∷ rs) = done []
recv_all (suc room) (failed ∷ rs) = exited

-- An event of `epoll_wait`: on the socket, with its EPOLLIN bit and the replies to the reads, and its
-- EPOLLOUT bit; or on the timer, with the replies to `read`.
pub data Event : Type 0 where
  socket : Bool → List AckReply → Bool → Event
  timer : List ReadReply → Event

-- The variables that the loop over the events changes; `packets` is `pktBuffer[0..nPackets)`.
pub record Poll : Type 0 where
  pub stat : SenderStat
  pub sock_writable : Bool
  pub packets : List AckPacket
  pub has_timeout : Bool

-- `stat.timer.running = FALSE`
abbrev pub timer_off : SenderStat → SenderStat
timer_off s = record s { timer = record (s.timer) { running = false } }

unfoldable pub handle_event : Event → Poll → Proc Poll
handle_event (socket input rs output) p =
    (if input then recv_all window_slots rs else done p.packets) >>= λ packets.
    done (record p { packets = packets; sock_writable = if output then true else p.sock_writable })
handle_event (timer rs) p = drain rs >>= λ round. done (record p {
  stat = timer_off p.stat;
  has_timeout = if leb 1 round then true else p.has_timeout;
})

unfoldable pub handle_events : List Event → Poll → Proc Poll
handle_events [] p = done p
handle_events (e ∷ es) p = handle_event e p >>= λ p'. handle_events es p'

abbrev pub has_packets : List AckPacket → Bool
has_packets [] = false
has_packets (p ∷ ps) = true

-- What the events of a batch come to, before anything is sent.
unfoldable pub process : Replies → Poll → Proc SenderStat
process r p =
    if has_packets p.packets || p.has_timeout
    then (let (s, pending) = ack_all p.packets p.stat in merge r s pending p.has_timeout)
    else done p.stat

-- The variables of the loop, and the packets handed to the network, oldest first.
pub record Transfer : Type 0 where
  pub stat : SenderStat
  pub sock_writable : Bool
  pub out : List RdtPacket

-- The events of one round, and the replies to its system calls.
pub record Turn : Type 0 where
  pub events : List Event
  pub timer : Replies
  pub sends : List SendReply
  pub settime_fails : Bool

-- `if (sendpkts(...)) diep("sendpkts");`
unfoldable pub send_or_die :
    List SendReply → Bool → List ℕ → SenderStat → Bool → List RdtPacket → Proc Transfer
send_or_die sends fails file s writable out = sendpkts sends fails file s writable >>= λ r.
    if r.succeeds
    then done (record { stat = r.stat; sock_writable = r.writable; out = out ++ r.out })
    else exited

-- One round of the `while` loop.
unfoldable pub turn : List ℕ → Turn → Transfer → Proc Transfer
turn file t s =
    handle_events t.events
      (record { stat = s.stat; sock_writable = s.sock_writable; packets = []; has_timeout = false })
    >>= λ p. process t.timer p >>= λ stat.
        send_or_die t.sends t.settime_fails file stat p.sock_writable s.out

unfoldable pub transfer_loop : List ℕ → List Turn → Transfer → Proc Transfer
transfer_loop file [] s = if ltb s.stat.send_base s.stat.total_seq then blocked else done s
transfer_loop file (t ∷ ts) s =
    if ltb s.stat.send_base s.stat.total_seq
    then (turn file t s >>= λ s'. transfer_loop file ts s')
    else done s

-- The packet that is sent twenty times at the end.
unfoldable pub lastpkt : RdtPacket
unfolding zero_packet
lastpkt = record zero_packet { ack_num = 7 }

-- From the mapped file and the new timer's descriptor on; `stat` is uninitialised memory, and the
-- first replies are those to the first call of `sendpkts`. Errors of the last sends are ignored.
unfoldable pub reliably_transfer :
    List ℕ → ℕ → ℕ → SenderStat → List SendReply → Bool → List Turn → Proc Transfer
reliably_transfer file bytes_to_transfer fd stat sends fails turns =
    send_or_die sends fails file (init_sender_stat stat bytes_to_transfer fd) true [] >>= λ s.
    transfer_loop file turns s >>= λ s'. done (record s' { out = s'.out ++ replicate 20 lastpkt })
