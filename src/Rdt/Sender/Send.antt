-- ===== src/Rdt/Sender/Send.antt =====
-- `prepare_packet` and `sendpkts` of mp2/src/sender_main.c.
use networking_learning.Base.{
  ℕ, ◌+◌, Bool, true, false, ◌&&◌, leb, ◌==◌, if◌then◌else◌, List, [], ◌∷◌, ◌++◌, mul32, length,
  take, drop, Proc, done, blocked, fault, ◌>>=◌,
}
use networking_learning.Rdt.Constants.{
  RdtPacket, max_payload_len, zero_packet, SendReply, sent, interrupted, again, failed,
}
use networking_learning.Rdt.Timer.{start_timer_if_not_running}
use networking_learning.Rdt.Sender.{SenderStat, allow_send, get_next_seq, update_next_seq}

abbrev pub from_bool : Bool → ℕ
from_bool true = 1
from_bool false = 0

-- The product of an `int` and a `uint32_t` is a `uint32_t`. A read past the mapped file is a fault.
unfoldable pub prepare_packet : RdtPacket → List ℕ → ℕ → ℕ → Bool → Proc RdtPacket
prepare_packet pkt file seq len last_seq =
    let offset = mul32 max_payload_len seq in
    if leb (offset + len) (length file)
    then done (record {
      seq_num = seq;
      ack_num = 0;
      payload = len;
      fin_byte = from_bool last_seq;
      content = take len (drop offset file) ++ drop len pkt.content;
    })
    else fault

-- What `sendpkts` leaves: its return value (`true` for 0, `false` for -1), `*stat`,
-- `*sockWritable`, and the packets handed to the network.
pub record Sent : Type 0 where
  pub succeeds : Bool
  pub stat : SenderStat
  pub writable : Bool
  pub out : List RdtPacket

abbrev pub add_out : RdtPacket → Sent → Sent
add_out p r = record r { out = p ∷ r.out }

-- The packet of one round of the loop.
unfoldable pub packet_for : List ℕ → SenderStat → ℕ → Proc RdtPacket
unfolding prepare_packet zero_packet
packet_for file s seq =
    prepare_packet zero_packet file seq
      (if seq + 1 == s.total_seq then s.last_chunk else max_payload_len) (seq + 1 == s.total_seq)

-- The `for` loop, and the `while` loop within it that repeats after EINTR: each round takes a reply.
-- `fails` says whether the only call of `timerfd_settime` fails: once it succeeded the timer runs.
unfoldable pub send_loop : List SendReply → Bool → List ℕ → SenderStat → ℕ → Proc Sent
send_loop [] fails file s seq =
    if allow_send s seq
    then blocked
    else done (record { succeeds = true; stat = s; writable = true; out = [] })
send_loop (r ∷ rs) fails file s seq =
    let retry = send_loop rs fails file s seq in
    let after = λ (p : RdtPacket). start_timer_if_not_running fails s.timer >>= λ t.
    let (s', seq') = update_next_seq (record s { timer = t }) seq in
    send_loop rs fails file s' seq' >>= λ rest. done (add_out p rest) in
    if allow_send s seq
    then (packet_for file s seq >>= λ p. elim r [
      | sent ↦ after p
      | interrupted ↦ retry
      | again ↦ done (record { succeeds = true; stat = s; writable = false; out = [] })
      | failed ↦ done (record { succeeds = false; stat = s; writable = true; out = [] })
    ])
    else done (record { succeeds = true; stat = s; writable = true; out = [] })

unfoldable pub sendpkts : List SendReply → Bool → List ℕ → SenderStat → Bool → Proc Sent
unfolding send_loop packet_for
sendpkts rs fails file s writable =
    if writable && allow_send s (get_next_seq s)
    then send_loop rs fails file s (get_next_seq s)
    else done (record { succeeds = true; stat = s; writable = writable; out = [] })
