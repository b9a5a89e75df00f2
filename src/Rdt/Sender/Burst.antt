-- ===== src/Rdt/Sender/Burst.antt =====
-- What `sendpkts` of mp2/src/sender_main.c sends in one call.
use networking_learning.Base.{
  ℕ, zero, suc, ◌+◌, ◌-◌, ◌≤◌, ◌<◌, ◌≡◌, inl, inr, refl, ◌∙◌, true, false, ◌==◌, max, arith, List,
  [], ◌∷◌, ◌++◌, if◌then◌else◌, done, lt→ltb, le→ltb, lt_or_le, ◌>>=◌,
}
use networking_learning.Rdt.Constants.{SendReply, sent, interrupted, again, failed}
use networking_learning.Rdt.Timer.{Timer, start_timer_if_not_running}
use networking_learning.Rdt.Sender.{SenderStat, allow_send, get_next_seq}
use networking_learning.Rdt.Sender.Laws.{
  IsValid, limit, allow_send-next, after_sent, update_next_seq_lem, after_sent-IsValid,
}
use networking_learning.Rdt.Sender.Packets.{Describes, packet_at, packets, packet_for_lem}
use networking_learning.Rdt.Sender.Send.{add_out, send_loop, sendpkts}

-- Replies that neither refuse nor fail.
abbrev pub AllTaken : List SendReply → Type 0
AllTaken [] = Unit
AllTaken (sent ∷ rs) = AllTaken rs
AllTaken (interrupted ∷ rs) = AllTaken rs
AllTaken (_ ∷ rs) = ⊥

-- How many packets such replies take.
abbrev pub taken : List SendReply → ℕ
taken [] = 0
taken (sent ∷ rs) = suc (taken rs)
taken (_ ∷ rs) = taken rs

abbrev pub running_timer : SenderStat → Timer
running_timer s = record (s.timer) { running = true }

-- The statistics after `n` packets went out.
unfoldable pub burst : ℕ → SenderStat → SenderStat
burst zero s = s
burst (suc n) s = burst n (after_sent s (get_next_seq s) (running_timer s))

started : (t : Timer) → start_timer_if_not_running false t ≡ done (record t { running = true })
unfolding start_timer_if_not_running
started t = ground arith

let_out :
    (s : SenderStat) → IsValid s → get_next_seq s < limit s → allow_send s (get_next_seq s) ≡ true
let_out s v h = allow_send-next s v ∙ lt→ltb _ _ h

held_back :
    (s : SenderStat) → IsValid s → limit s ≤ get_next_seq s → allow_send s (get_next_seq s) ≡ false
held_back s v h = allow_send-next s v ∙ le→ltb _ _ h

-- One round whose packet goes out.
send_loop-sent :
    (rs : List SendReply) (file : List ℕ) (s : SenderStat)
    → IsValid s
    → Describes s file
    → get_next_seq s < limit s
    → send_loop (sent ∷ rs) false file s (get_next_seq s) ≡ (
        send_loop rs false file
          (after_sent s (get_next_seq s) (running_timer s))
          (get_next_seq s + 1)
        >>= λ rest. done (add_out (packet_at file s.total_seq (get_next_seq s)) rest))
unfolding send_loop
send_loop-sent rs file s v d h = rw (
  let_out s v h,
  packet_for_lem s file (get_next_seq s) d (omega arith),
  started s.timer,
  update_next_seq_lem s (running_timer s) v (omega arith),
)

send_loop-interrupted :
    (rs : List SendReply) (file : List ℕ) (s : SenderStat)
    → IsValid s
    → Describes s file
    → get_next_seq s < limit s
    → send_loop (interrupted ∷ rs) false file s (get_next_seq s)
      ≡ send_loop rs false file s (get_next_seq s)
unfolding send_loop
send_loop-interrupted rs file s v d h =
    rw (let_out s v h, packet_for_lem s file (get_next_seq s) d (omega arith))

send_loop-again :
    (rs : List SendReply) (file : List ℕ) (s : SenderStat)
    → IsValid s
    → Describes s file
    → get_next_seq s < limit s
    → send_loop (again ∷ rs) false file s (get_next_seq s)
      ≡ done (record { succeeds = true; stat = s; writable = false; out = [] })
unfolding send_loop
send_loop-again rs file s v d h =
    rw (let_out s v h, packet_for_lem s file (get_next_seq s) d (omega arith))

send_loop-end :
    (rs : List SendReply) (file : List ℕ) (s : SenderStat)
    → IsValid s
    → limit s ≤ get_next_seq s
    → send_loop rs false file s (get_next_seq s)
      ≡ done (record { succeeds = true; stat = s; writable = true; out = [] })
unfolding send_loop
send_loop-end [] file s v h = rw (held_back s v h)
send_loop-end (r ∷ rs) file s v h = rw (held_back s v h)

-- The numbers from `get_next_seq s` on, as far as the replies and the limit go.
abbrev pub span : SenderStat → ℕ
span s = limit s - get_next_seq s

Describes-after_sent :
    (s : SenderStat) (seq : ℕ) (t : Timer) (file : List ℕ)
    → Describes s file
    → Describes (after_sent s seq t) file
Describes-after_sent s seq t file d = omega arith

send_loop_all :
    (rs : List SendReply) (n : ℕ) (file : List ℕ) (s : SenderStat)
    → IsValid s
    → Describes s file
    → AllTaken rs
    → n + get_next_seq s ≡ max (limit s) (get_next_seq s)
    → n ≤ taken rs
    → send_loop rs false file s (get_next_seq s)
      ≡ done (record {
        succeeds = true;
        stat = burst n s;
        writable = true;
        out = packets file s.total_seq (get_next_seq s) n;
      })
unfolding burst packets
send_loop_all rs zero file s v d a e k = send_loop-end rs file s v (omega arith)
send_loop_all [] (suc n) file s v d a e k = absurd (omega arith)
send_loop_all (sent ∷ rs) (suc n) file s v d a e k =
    let t = running_timer s in
    let s' = after_sent s (get_next_seq s) t in
    let (v', q) = after_sent-IsValid s t v (omega arith) in
    send_loop-sent rs file s v d (omega arith)
    ∙ rw (← q) (
        rw (
          send_loop_all rs n file s' v' (Describes-after_sent s (get_next_seq s) t file d) a
            (omega arith) (omega arith)))
send_loop_all (interrupted ∷ rs) (suc n) file s v d a e k =
    send_loop-interrupted rs file s v d (omega arith) ∙ send_loop_all rs (suc n) file s v d a e k
send_loop_all (again ∷ rs) (suc n) file s v d a e k = absurd a
send_loop_all (failed ∷ rs) (suc n) file s v d a e k = absurd a

zero_span : (s : SenderStat) → limit s ≤ get_next_seq s → span s ≡ 0
zero_span s h = omega arith

-- `j` packets taken, and then a refusal.
send_loop_refused :
    (rs rest : List SendReply) (file : List ℕ) (s : SenderStat)
    → IsValid s
    → Describes s file
    → AllTaken rs
    → taken rs + get_next_seq s < limit s
    → send_loop (rs ++ again ∷ rest) false file s (get_next_seq s)
      ≡ done (record {
        succeeds = true;
        stat = burst (taken rs) s;
        writable = false;
        out = packets file s.total_seq (get_next_seq s) (taken rs);
      })
unfolding burst packets
send_loop_refused [] rest file s v d a h = send_loop-again rest file s v d h'
  where
    h' : get_next_seq s < limit s
    h' = omega arith
send_loop_refused (sent ∷ rs) rest file s v d a h =
    let t = running_timer s in
    let s' = after_sent s (get_next_seq s) t in
    let (v', q) = after_sent-IsValid s t v (omega arith) in
    send_loop-sent (rs ++ again ∷ rest) file s v d (omega arith)
    ∙ rw (← q) (
        rw (
          send_loop_refused rs rest file s' v' (Describes-after_sent s (get_next_seq s) t file d) a
            (omega arith)))
send_loop_refused (interrupted ∷ rs) rest file s v d a h =
    send_loop-interrupted (rs ++ again ∷ rest) file s v d (omega arith)
    ∙ send_loop_refused rs rest file s v d a h
send_loop_refused (again ∷ rs) rest file s v d a h = absurd a
send_loop_refused (failed ∷ rs) rest file s v d a h = absurd a

-- The statistics after a burst of `n` packets, in closed form.
abbrev pub after_burst : ℕ → SenderStat → SenderStat
after_burst n s = if n == 0 then s else after_sent s (get_next_seq s + n - 1) (running_timer s)

burst_lem :
    (n : ℕ) (s : SenderStat)
    → IsValid s
    → get_next_seq s + n ≤ max (limit s) (get_next_seq s)
    → burst n s ≡ after_burst n s
unfolding burst
burst_lem zero s v h = refl
burst_lem (suc n) s v h =
    let t = running_timer s in
    let s' = after_sent s (get_next_seq s) t in
    let (v', q) = after_sent-IsValid s t v (omega arith) in
    burst_lem n s' v' (omega arith) ∙ ground arith

-- For valid statistics that describe a file below 4 GiB, with the socket writable and replies that
-- take packets enough, `sendpkts` returns 0 and leaves the
-- socket writable: it has sent the chunks from `getNextSeq` up to the limit of the window and of the
-- file, each once and in order, as the packets that carry them; the last of them is `lastSent`, no
-- retransmission is pending and the timer runs, and nothing else has changed. With nothing to send
-- nothing has changed at all.
pub sendpkts-all :
    (rs : List SendReply) (file : List ℕ) (s : SenderStat)
    → IsValid s
    → Describes s file
    → AllTaken rs
    → span s ≤ taken rs
    → sendpkts rs false file s true
      ≡ done (record {
        succeeds = true;
        stat = after_burst (span s) s;
        writable = true;
        out = packets file s.total_seq (get_next_seq s) (span s);
      })
unfolding sendpkts packets
sendpkts-all rs file s v d a k = elim (lt_or_le (get_next_seq s) (limit s)) [
  | inl lt ↦ rw (let_out s v lt) (
      send_loop_all rs (span s) file s v d a (omega arith) k
      ∙ rw (burst_lem (span s) s v (omega arith)))
  | inr le ↦ rw (held_back s v le, zero_span s le)
]

-- For valid statistics that describe a file below 4 GiB, with the socket writable and a reply EAGAIN after fewer packets than the limit lets out, `sendpkts`
-- returns 0 and leaves the socket not writable: it has sent the packets before the refusal, and the
-- statistics are those after the last of them.
pub sendpkts-refused :
    (rs rest : List SendReply) (file : List ℕ) (s : SenderStat)
    → IsValid s
    → Describes s file
    → AllTaken rs
    → taken rs < span s
    → sendpkts (rs ++ again ∷ rest) false file s true
      ≡ done (record {
        succeeds = true;
        stat = after_burst (taken rs) s;
        writable = false;
        out = packets file s.total_seq (get_next_seq s) (taken rs);
      })
unfolding sendpkts
sendpkts-refused rs rest file s v d a k = rw (let_out s v (omega arith)) (
    send_loop_refused rs rest file s v d a (omega arith)
    ∙ rw (burst_lem (taken rs) s v (omega arith)))
