-- ===== src/Rdt/Sender/Acks.antt =====
-- How a batch of acks and a timeout change the sender: `ackAll` and `merge` of
-- mp2/src/sender_main.c.
use Prim.Native.Nat.{bit_or}
use networking_learning.Base.{
  ℕ, Bool, not, ltb, leb, if◌then◌else◌, List, [], ◌∷◌, ◌%◌, u32_mod, Proc, done, ◌>>=◌,
}
use networking_learning.Rdt.Constants.{AckPacket}
use networking_learning.Rdt.Cwnd.{ack_cwnd, confirm_three_dups, timeout_cwnd}
use networking_learning.Rdt.Timer.{Timer, Replies, start_timer, stop_timer}
use networking_learning.Rdt.Sender.{SenderStat, DiffStat, get_next_seq}

-- The body of the loop of `ackAll` for one packet: the statistics and `pending->sendBase`.
unfoldable pub ack_one : AckPacket → SenderStat × ℕ → SenderStat × ℕ
ack_one p (s, base) =
    if leb base p.ack_num
    then (
      record s { recv_fin = bit_or s.recv_fin p.fin_byte; cwnd = ack_cwnd s.cwnd p.ack_num },
      p.ack_num,
    )
    else (s, base)

unfoldable pub ack_loop : List AckPacket → SenderStat × ℕ → SenderStat × ℕ
ack_loop [] st = st
ack_loop (p ∷ ps) st = ack_loop ps (ack_one p st)

-- The list is `pkts[0..len)`.
unfoldable pub ack_all : List AckPacket → SenderStat → SenderStat × DiffStat
unfolding ack_loop
ack_all pkts s =
    let (s', base) = ack_loop pkts (s, s.send_base) in
    let (c, three) = confirm_three_dups s'.cwnd in
    (record s' { cwnd = c }, record { send_base = base; three_dups = three })

unfoldable pub with_timer : (Timer → Proc Timer) → SenderStat → Proc SenderStat
with_timer f s = f s.timer >>= λ t. done (record s { timer = t })

-- The branch of `merge` in which the base advances.
unfoldable pub advance : Replies → SenderStat → ℕ → Proc SenderStat
unfolding with_timer
advance r s base =
    let s₁ = record s { send_base = base % u32_mod } in
    if not s₁.retrans
    then (if ltb s₁.send_base (get_next_seq s₁)
        then with_timer (start_timer r) s₁
        else with_timer (stop_timer r) s₁)
    else done s₁

-- The branch in which it does not.
unfoldable pub catch_timeout : SenderStat → Bool → SenderStat
catch_timeout s has_timeout =
    let s₁ = record s { retrans = has_timeout } in
    if not s.retrans
    then (if has_timeout then record s₁ { cwnd = timeout_cwnd s.cwnd s.send_base } else s₁)
    else s

-- `r` answers the only timer call that `merge` makes: where `advance` makes one, `retrans` is FALSE
-- afterwards.
unfoldable pub merge : Replies → SenderStat → DiffStat → Bool → Proc SenderStat
unfolding advance catch_timeout with_timer
merge r s pending has_timeout =
    let s₁ = record s { retrans = pending.three_dups } in
    (if ltb s₁.send_base pending.send_base
      then advance r s₁ pending.send_base
      else done (catch_timeout s₁ has_timeout))
    >>= λ s₂. if s₂.retrans then with_timer (stop_timer r) s₂ else done s₂
