-- ===== src/Rdt/Transfer/Guard.antt =====
-- Whether the sender of mp2/src/sender_main.c can wait for ever: while data is in flight the timer
-- must run.
use networking_learning.Base.{
  ℕ, ◌+◌, ◌≤◌, ◌<◌, ◌≡◌, refl, ◌⊎◌, inl, inr, Bool, true, false, List, [], done, ◌>>=◌, arith, max,
  u32_mod,
}
use networking_learning.Rdt.Constants.{SendReply}
use networking_learning.Rdt.Timer.{Replies, Ends}
use networking_learning.Rdt.Cwnd.{timeout_cwnd}
use networking_learning.Rdt.Sender.{SenderStat, DiffStat, get_next_seq, allow_send}
use networking_learning.Rdt.Sender.Laws.{IsValid, limit, unsent}
use networking_learning.Rdt.Sender.Packets.{Describes, packets}
use networking_learning.Rdt.Sender.Acks.{merge}
use networking_learning.Rdt.Sender.Batch.{wants_retrans, merged_cwnd, timer_runs, merge_lem}
use networking_learning.Rdt.Sender.Send.{Sent, sendpkts}
use networking_learning.Rdt.Sender.Burst.{AllTaken, taken, span, after_burst, sendpkts-all}

last_sent-lt : (s : SenderStat) → IsValid s → s.last_sent < u32_mod
last_sent-lt s v = elim v.sent_in_range [
  | inl l ↦ omega (arith, l, v.total_lt)
  | inr e ↦ omega (arith, e.0)
]

-- Nothing is in flight, or the timer runs.
abbrev pub IsGuarded : SenderStat → Type 0
IsGuarded s = (get_next_seq s ≡ s.send_base) ⊎ (s.timer.running ≡ true)

-- The statistics after `merge`.
abbrev pub merged : SenderStat → DiffStat → Bool → SenderStat
merged s pending has_timeout = record s {
  send_base = max s.send_base pending.send_base;
  retrans = wants_retrans s pending has_timeout;
  cwnd = merged_cwnd s pending has_timeout;
  timer = record (s.timer) { running = timer_runs s pending has_timeout };
}

-- A merge leaves a retransmission pending, or the sender guarded.
merged-IsGuarded :
    (s : SenderStat) (pending : DiffStat) (has_timeout : Bool)
    → s.retrans ≡ false
    → IsValid s
    → (s.last_sent < s.total_seq) ⊎ (pending.send_base ≤ s.send_base)
    → IsGuarded s ⊎ (has_timeout ≡ true)
    → ((merged s pending has_timeout).retrans ≡ true) ⊎ IsGuarded (merged s pending has_timeout)
unfolding get_next_seq
merged-IsGuarded s pending has_timeout r v h g = ground arith

timeout_window :
    (s : SenderStat) (pending : DiffStat) (has_timeout : Bool)
    → 1 ≤ s.cwnd.window
    → 1 ≤ (merged_cwnd s pending has_timeout).window
unfolding timeout_cwnd
timeout_window s pending has_timeout h = ground arith

sent_after :
    (last total base new : ℕ)
    → (last < total) ⊎ ((last ≡ unsent) × (base ≡ 0))
    → (last < total) ⊎ (new ≤ base)
    → (last < total) ⊎ ((last ≡ unsent) × (max base new ≡ 0))
sent_after last total base new (inl l) h = inl l
sent_after last total base new (inr (e, z)) (inl l) = inl l
sent_after last total base new (inr (e, z)) (inr le) = inr (e, omega arith)

merged-IsValid :
    (s : SenderStat) (pending : DiffStat) (has_timeout : Bool)
    → IsValid s
    → (s.last_sent < s.total_seq) ⊎ (pending.send_base ≤ s.send_base)
    → pending.send_base < u32_mod
    → IsValid (merged s pending has_timeout)
merged-IsValid s pending has_timeout v l k = record {
  total_lt = v.total_lt;
  base_lt = omega arith;
  window_pos = timeout_window s pending has_timeout v.window_pos;
  sent_in_range =
      sent_after s.last_sent s.total_seq s.send_base pending.send_base v.sent_in_range l;
  highest = v.highest;
}

Describes-merged :
    (s : SenderStat) (pending : DiffStat) (has_timeout : Bool) (file : List ℕ)
    → Describes s file
    → Describes (merged s pending has_timeout) file
Describes-merged s pending has_timeout file d = omega arith

after_burst-IsGuarded :
    (s : SenderStat)
    → IsValid s
    → s.send_base < s.total_seq
    → (s.retrans ≡ true) ⊎ IsGuarded s
    → ((after_burst (span s) s).retrans ≡ false) × IsGuarded (after_burst (span s) s)
unfolding get_next_seq
after_burst-IsGuarded s v h g = ground arith

-- No wait without a timer: from statistics with no retransmission pending in which nothing is in
-- flight or the timer runs, or with a timeout just caught, `merge` and a `sendpkts` whose packets are
-- all taken leave no retransmission pending, and again nothing in flight or the timer running, as
-- long as the file is not acked whole. The timer's system calls end and do not fail, the statistics
-- are valid and describe a file below 4 GiB, every acked number lies within the file, and nothing is
-- acked before something was sent.
pub merge-sendpkts-IsGuarded :
    (r : Replies) (rs : List SendReply) (file : List ℕ) (s : SenderStat) (pending : DiffStat)
    (has_timeout : Bool)
    → Ends r.reads
    → r.settime_fails ≡ false
    → IsValid s
    → Describes s file
    → (s.last_sent < s.total_seq) ⊎ (pending.send_base ≤ s.send_base)
    → pending.send_base < s.total_seq
    → s.send_base < s.total_seq
    → s.retrans ≡ false
    → IsGuarded s ⊎ (has_timeout ≡ true)
    → AllTaken rs
    → span (merged s pending has_timeout) ≤ taken rs
    → (out : Sent) × ((merge r s pending has_timeout >>= λ s'. sendpkts rs false file s' true)
        ≡ done out)
      × (out.succeeds ≡ true)
      × (out.writable ≡ true)
      × (out.stat.retrans ≡ false)
      × IsGuarded out.stat
merge-sendpkts-IsGuarded r rs file s pending t ends ok v d l k b q g taken_all enough =
    let s' = merged s pending t in
    let v' = merged-IsValid s pending t v l (omega (arith, v.total_lt)) in
    let d' = Describes-merged s pending t file d in
    let (q', g') =
      after_burst-IsGuarded s' v' (omega arith) (merged-IsGuarded s pending t q v l g) in
    (
      record {
        succeeds = true;
        stat = after_burst (span s') s';
        writable = true;
        out = packets file s'.total_seq (get_next_seq s') (span s');
      },
      rw (merge_lem r s pending t ends ok (omega (arith, v.total_lt)) (last_sent-lt s v))
          (sendpkts-all rs file s' v' d' taken_all enough),
      refl,
      refl,
      q',
      g',
    )

-- A batch with no news: `merge` only clears `retrans`.
merge-idle :
    (r : Replies) (s : SenderStat) (pending : DiffStat)
    → pending.three_dups ≡ false
    → pending.send_base ≤ s.send_base
    → merge r s pending false ≡ done (record s { retrans = false })
unfolding merge
merge-idle r s pending three old = ground arith

sendpkts-held :
    (rs : List SendReply) (fails : Bool) (file : List ℕ) (s : SenderStat) (writable : Bool)
    → allow_send s (get_next_seq s) ≡ false
    → sendpkts rs fails file s writable
      ≡ done (record { succeeds = true; stat = s; writable = writable; out = [] })
unfolding sendpkts
sendpkts-held rs fails file s writable h = ground arith

forgotten_held :
    (s : SenderStat)
    → IsValid s
    → s.send_base ≤ s.last_sent
    → s.last_sent < s.total_seq
    → limit s ≤ s.last_sent + 1
    → let s' = record s { retrans = false } in
      (s.send_base < get_next_seq s') × (allow_send s' (get_next_seq s') ≡ false)
unfolding get_next_seq allow_send
forgotten_held s v fl l lim = ground arith

-- A retransmission is lost when the socket refuses it: with a retransmission pending (so the timer is
-- stopped) and the window used up, a batch of acks with no news cancels it, and the sender goes on
-- with nothing to send and no timer, although data is in flight.
pub lost_retransmission :
    (r : Replies) (rs : List SendReply) (fails : Bool) (file : List ℕ) (s : SenderStat)
    (pending : DiffStat) (writable : Bool)
    → IsValid s
    → s.retrans ≡ true
    → s.timer.running ≡ false
    → s.send_base ≤ s.last_sent
    → s.last_sent < s.total_seq
    → limit s ≤ s.last_sent + 1
    → pending.three_dups ≡ false
    → pending.send_base ≤ s.send_base
    → (out : Sent) × ((merge r s pending false >>= λ s'. sendpkts rs fails file s' writable)
        ≡ done out)
      × (out.stat.retrans ≡ false)
      × (out.stat.timer.running ≡ false)
      × (out.stat.send_base < get_next_seq out.stat)
      × (allow_send out.stat (get_next_seq out.stat) ≡ false)
lost_retransmission r rs fails file s pending writable v q off fl l lim three old =
    let s' = record s { retrans = false } in
    let (flight, held) = forgotten_held s v fl l lim in
    (
      record { succeeds = true; stat = s'; writable = writable; out = [] },
      rw (merge-idle r s pending three old) (sendpkts-held rs fails file s' writable held),
      refl,
      off,
      flight,
      held,
    )
