-- ===== src/Rdt/Sender/Batch.antt =====
-- What a batch of acks and a timeout come to: `ackAll` and `merge` of mp2/src/sender_main.c.
use Prim.Native.Nat.{bit_or}
use networking_learning.Base.{
  ◌∙◌, ap, leb→gt, map, Bool-cases, leb→le, ℕ, ◌<◌, ◌≡◌, inl, inr, refl, Bool, true, false, not,
  ◌==◌, ◌&&◌, ◌||◌, ltb, max, u32_mod, arith, List, [], ◌∷◌, if◌then◌else◌, done, leb,
}
use networking_learning.Rdt.Constants.{AckPacket}
use networking_learning.Rdt.Cwnd.{
  Cwnd, Phase, slow_start, congest_avoid, fast_recov, fast_recov_retrans, ack_cwnd,
  confirm_three_dups, timeout_cwnd,
}
use networking_learning.Rdt.Cwnd.Growth.{ack_list}
use networking_learning.Rdt.Timer.{
  Timer, Replies, ReadReply, expired, again, interrupted, failed, Ends, drain, start_timer,
  stop_timer,
}
use networking_learning.Rdt.Sender.{SenderStat, DiffStat, get_next_seq}
use networking_learning.Rdt.Sender.Laws.{unsent}
use networking_learning.Rdt.Sender.Acks.{ack_one, ack_loop, ack_all, merge}

-- The greatest of `base` and the ack numbers.
abbrev pub max_ack : ℕ → List AckPacket → ℕ
max_ack base [] = base
max_ack base (p ∷ ps) = max_ack (max base p.ack_num) ps

-- The packets that are not below `base` or an earlier packet of the batch.
abbrev pub admitted : ℕ → List AckPacket → List AckPacket
admitted base [] = []
admitted base (p ∷ ps) =
    let rest = admitted p.ack_num ps in
    let skip = admitted base ps in if leb base p.ack_num then p ∷ rest else skip

abbrev pub fin_bits : ℕ → List AckPacket → ℕ
fin_bits bits [] = bits
fin_bits bits (p ∷ ps) = fin_bits (bit_or bits p.fin_byte) ps

-- The statistics when the window has seen the packets of a list, in order.
abbrev pub acked : List AckPacket → SenderStat → SenderStat
acked ps s = record s {
  cwnd = ack_list (map (λ p. p.ack_num) ps) s.cwnd;
  recv_fin = fin_bits s.recv_fin ps;
}

ack_loop_lem :
    (ps : List AckPacket) (s : SenderStat) (base : ℕ)
    → ack_loop ps (s, base) ≡ (acked (admitted base ps) s, max_ack base ps)
unfolding ack_loop ack_one ack_list
ack_loop_lem [] s base = refl
ack_loop_lem (p ∷ ps) s base = elim (Bool-cases (leb base p.ack_num)) [
  | inl new ↦ rw new (
      ack_loop_lem ps
        (record s { recv_fin = bit_or s.recv_fin p.fin_byte; cwnd = ack_cwnd s.cwnd p.ack_num })
        p.ack_num
      ∙ let e : p.ack_num ≡ max base p.ack_num = omega (arith, leb→le _ _ new) in
        ap (λ b. (acked (p ∷ admitted p.ack_num ps) s, max_ack b ps)) e)
  | inr old ↦ rw old (
      ack_loop_lem ps s base
      ∙ let e : base ≡ max base p.ack_num = omega (arith, leb→gt _ _ old) in
        ap (λ b. (acked (admitted base ps) s, max_ack b ps)) e)
]

-- The phase in which the third duplicate has not been answered yet.
abbrev pub awaits_retrans : Phase → Bool
awaits_retrans slow_start = false
awaits_retrans congest_avoid = false
awaits_retrans fast_recov = false
awaits_retrans fast_recov_retrans = true

-- The phase once it is.
abbrev pub answered : Phase → Phase
answered slow_start = slow_start
answered congest_avoid = congest_avoid
answered fast_recov = fast_recov
answered fast_recov_retrans = fast_recov

confirm_three_dups_lem :
    (c : Cwnd)
    → confirm_three_dups c ≡ (
      record c { state = record (c.state) { state = answered c.state.state } },
      awaits_retrans c.state.state,
    )
unfolding confirm_three_dups
confirm_three_dups_lem c = ground arith

-- `ackAll` shows the window the packets that are not below the base or an earlier packet of the
-- batch, in order, and no other; the base that it reports is the greatest of the base and of all the
-- ack numbers. Three duplicates are reported exactly if the window then stands in the phase
-- FAST_RECOV_RETRANS, and its phase is then FAST_RECOV. Of the statistics only the window and the bits
-- of `recvFin` change.
pub ack_all_lem :
    (ps : List AckPacket) (s : SenderStat)
    → let seen = acked (admitted s.send_base ps) s in
      let c = seen.cwnd in
      ack_all ps s ≡ (
        record seen {
          cwnd = record c { state = record (c.state) { state = answered c.state.state } };
        },
        record { send_base = max_ack s.send_base ps; three_dups = awaits_retrans c.state.state },
      )
unfolding ack_all
ack_all_lem ps s =
    let c = (acked (admitted s.send_base ps) s).cwnd in
    rw (ack_loop_lem ps s s.send_base, confirm_three_dups_lem c)

-- `retrans` after `merge`: three duplicates, or a timeout that no new ack outdates.
abbrev pub wants_retrans : SenderStat → DiffStat → Bool → Bool
wants_retrans s pending has_timeout =
    pending.three_dups || (not (ltb s.send_base pending.send_base) && has_timeout)

-- The window after `merge`: a timeout counts if nothing else asks for a retransmission.
abbrev pub merged_cwnd : SenderStat → DiffStat → Bool → Cwnd
merged_cwnd s pending has_timeout =
    if not pending.three_dups && not (ltb s.send_base pending.send_base) && has_timeout
    then timeout_cwnd s.cwnd s.send_base
    else s.cwnd

-- The timer after `merge`: off before a retransmission; when the base advances, on exactly if
-- something was sent (`lastSent` is not the -1 of the start) and the last of it is not acked yet; and
-- else as it was.
abbrev pub timer_runs : SenderStat → DiffStat → Bool → Bool
timer_runs s pending has_timeout =
    if wants_retrans s pending has_timeout
    then false
    else if ltb s.send_base pending.send_base
    then not (s.last_sent == unsent) && not (ltb s.last_sent pending.send_base)
    else s.timer.running

drain-Ends : (rs : List ReadReply) → Ends rs → (n : ℕ) × (drain rs ≡ done n)
unfolding drain
drain-Ends [] h = absurd h
drain-Ends (expired n ∷ rs) h = (n, refl)
drain-Ends (again ∷ rs) h = (0, refl)
drain-Ends (interrupted ∷ rs) h = drain-Ends rs h
drain-Ends (failed ∷ rs) h = absurd h

start_timer_lem :
    (r : Replies) (t : Timer)
    → Ends r.reads
    → r.settime_fails ≡ false
    → start_timer r t ≡ done (record t { running = true })
unfolding start_timer
start_timer_lem r t h f = rw ((drain-Ends r.reads h).1, f)

stop_timer_lem :
    (r : Replies) (t : Timer)
    → Ends r.reads
    → r.settime_fails ≡ false
    → stop_timer r t ≡ done (record t { running = false })
unfolding stop_timer
stop_timer_lem r t h f = elim (Bool-cases t.running) [
  | inl on ↦ rw (on, (drain-Ends r.reads h).1, f)
  | inr off ↦ rw off (ground arith)
]

-- `merge` when the timer's system calls end and do not fail, and the acked and the last sent number
-- are words of 32 bits: it returns; the base becomes the greater of the two, and `retrans`, the window
-- and the timer are those described above, also where nothing was sent before. Nothing else changes.
pub merge_lem :
    (r : Replies) (s : SenderStat) (pending : DiffStat) (has_timeout : Bool)
    → Ends r.reads
    → r.settime_fails ≡ false
    → pending.send_base < u32_mod
    → s.last_sent < u32_mod
    → merge r s pending has_timeout
      ≡ done (record s {
        send_base = max s.send_base pending.send_base;
        retrans = wants_retrans s pending has_timeout;
        cwnd = merged_cwnd s pending has_timeout;
        timer = record (s.timer) { running = timer_runs s pending has_timeout };
      })
unfolding merge get_next_seq
merge_lem r s pending has_timeout h f small k =
    ground (arith, start_timer_lem r s.timer h f, stop_timer_lem r s.timer h f)
