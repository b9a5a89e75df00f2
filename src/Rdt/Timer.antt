-- ===== src/Rdt/Timer.antt =====
-- The retransmission timer of mp2/src/adt.c. The replies of `read` and `timerfd_settime`, which the
-- kernel gives, are arguments.
use networking_learning.Base.{
  ℕ, Bool, true, false, not, if◌then◌else◌, List, [], ◌∷◌, Proc, done, exited, blocked, ◌>>=◌,
}

pub record Timer : Type 0 where
  pub fd : ℕ
  pub running : Bool

-- A reply to `read` on the descriptor: the number of expirations, EAGAIN or EWOULDBLOCK, EINTR, or
-- another error.
pub data ReadReply : Type 0 where
  expired : ℕ → ReadReply
  again interrupted failed : ReadReply

unfoldable pub drain : List ReadReply → Proc ℕ
drain [] = blocked
drain (expired round ∷ rs) = done round
drain (again ∷ rs) = done 0
drain (interrupted ∷ rs) = drain rs
drain (failed ∷ rs) = exited

-- The kernel's replies to one call below: those to `read`, and whether `timerfd_settime` fails.
pub record Replies : Type 0 where
  pub reads : List ReadReply
  pub settime_fails : Bool

-- `fd` is what `timerfd_create` returned.
unfoldable pub init_timer : ℕ → Timer
init_timer fd = record { fd = fd; running = false }

unfoldable pub start_timer_if_not_running : Bool → Timer → Proc Timer
start_timer_if_not_running fails t =
    if not t.running then (if fails then exited else done (record t { running = true })) else done t

unfoldable pub start_timer : Replies → Timer → Proc Timer
unfolding drain
start_timer r t = drain r.reads >>= λ round.
    if r.settime_fails then exited else done (record t { running = true })

unfoldable pub stop_timer : Replies → Timer → Proc Timer
unfolding drain
stop_timer r t =
    if t.running
    then (drain r.reads >>= λ round.
        if r.settime_fails then exited else done (record t { running = false }))
    else done t

-- Replies with which a call returns: reads that end in an answer, and no failure.
abbrev pub Ends : List ReadReply → Type 0
Ends [] = ⊥
Ends (expired round ∷ rs) = Unit
Ends (again ∷ rs) = Unit
Ends (interrupted ∷ rs) = Ends rs
Ends (failed ∷ rs) = ⊥
