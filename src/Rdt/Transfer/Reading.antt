-- ===== src/Rdt/Transfer/Reading.antt =====
-- The packets that `recvAll` of mp2/src/sender_main.c takes from the socket.
use networking_learning.Base.{ℕ, zero, suc, ◌≡◌, refl, List, [], ◌∷◌, take, done}
use networking_learning.Rdt.Constants.{AckPacket}
use networking_learning.Rdt.Transfer.{AckReply, packet, interrupted, again, failed, recv_all}

-- The packets before the first refusal.
abbrev pub packets_before : List AckReply → List AckPacket
packets_before [] = []
packets_before (packet p ∷ rs) = p ∷ packets_before rs
packets_before (interrupted ∷ rs) = packets_before rs
packets_before (_ ∷ rs) = []

-- Replies with which `room` cells fill up or the socket runs dry.
abbrev pub Stops : ℕ → List AckReply → Type 0
Stops zero rs = Unit
Stops (suc room) [] = ⊥
Stops (suc room) (packet p ∷ rs) = Stops room rs
Stops (suc room) (interrupted ∷ rs) = Stops (suc room) rs
Stops (suc room) (again ∷ rs) = Unit
Stops (suc room) (failed ∷ rs) = ⊥

-- `recvAll` returns the packets that arrive before the socket runs dry, in order, and no more than
-- there are cells; an interrupted read is repeated and loses nothing.
pub recv_all_lem :
    (room : ℕ) (rs : List AckReply)
    → Stops room rs
    → recv_all room rs ≡ done (take room (packets_before rs))
unfolding recv_all
recv_all_lem zero rs h = refl
recv_all_lem (suc room) [] h = absurd h
recv_all_lem (suc room) (packet p ∷ rs) h = rw (recv_all_lem room rs h)
recv_all_lem (suc room) (interrupted ∷ rs) h = recv_all_lem (suc room) rs h
recv_all_lem (suc room) (again ∷ rs) h = refl
recv_all_lem (suc room) (failed ∷ rs) h = absurd h
