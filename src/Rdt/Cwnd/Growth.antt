-- ===== src/Rdt/Cwnd/Growth.antt =====
-- How acks of new data open the window of mp2/src/adt.c: by one segment for each ack in slow start,
-- by one for each window's worth of segments in congestion avoidance.
use networking_learning.Base.{
  ℕ, ◌+◌, ◌-◌, ◌≤◌, ◌<◌, ◌≡◌, ◌≢◌, refl, ◌∙◌, ap, List, [], ◌∷◌, length, arith, u32_mod,
}
use networking_learning.Rdt.Cwnd.{Cwnd, slow_start, congest_avoid, ack_cwnd}
use networking_learning.Rdt.Cwnd.Invariant.{IsValid, HasRoom}

-- The acks of a list, in order.
unfoldable pub ack_list : List ℕ → Cwnd → Cwnd
ack_list [] c = c
ack_list (n ∷ ns) c = ack_list ns (ack_cwnd c n)

-- Each ack differs from the one before.
abbrev pub AllNew : ℕ → List ℕ → Type 0
AllNew last [] = Unit
AllNew last (n ∷ ns) = (n ≢ last) × AllNew n ns

-- Each ack is above the one before, and a `uint32_t`.
abbrev pub Ascending : ℕ → List ℕ → Type 0
Ascending last [] = Unit
Ascending last (n ∷ ns) = (last < n) × (n < u32_mod) × Ascending n ns

abbrev pub last_of : ℕ → List ℕ → ℕ
last_of last [] = last
last_of last (n ∷ ns) = last_of n ns

slow_start_step :
    {b : ℕ} (c : Cwnd) (n : ℕ)
    → HasRoom b
    → IsValid b c
    → c.state.state ≡ slow_start
    → n ≢ c.last_ack
    → c.window + 1 < c.ssthresh
    → ack_cwnd c n ≡ record c { window = c.window + 1; dup_ack = 0; last_ack = n }
unfolding ack_cwnd
slow_start_step c n r v p h k = ground arith

slow_start_step-IsValid :
    {b : ℕ} (c : Cwnd) (n : ℕ)
    → IsValid b c
    → c.state.state ≡ slow_start
    → c.window + 1 < c.ssthresh
    → IsValid b (record c { window = c.window + 1; dup_ack = 0; last_ack = n })
slow_start_step-IsValid c n v p k = ground arith

slow_list :
    (b : ℕ) (ns : List ℕ) (c : Cwnd)
    → HasRoom b
    → IsValid b c
    → c.state.state ≡ slow_start
    → AllNew c.last_ack ns
    → c.window + length ns < c.ssthresh
    → let after = ack_list ns c in
      (after.window ≡ c.window + length ns)
      × (after.ssthresh ≡ c.ssthresh)
      × (after.state.state ≡ slow_start)
      × (after.last_ack ≡ last_of c.last_ack ns)
      × IsValid b after
unfolding ack_list
slow_list b [] c r v p h k = (omega arith, refl, p, refl, v)
slow_list b (n ∷ ns) c r v p h k =
    rw (slow_start_step c n r v p h.0 (omega arith), ack_list)
      (let (w, t, ph, l, v') =
          slow_list b ns (record c { window = c.window + 1; dup_ack = 0; last_ack = n }) r
            (slow_start_step-IsValid c n v p (omega arith)) p h.1 (omega arith) in
        (omega arith, t, ph, l, v'))

slow_start_last :
    {b : ℕ} (c : Cwnd) (n : ℕ)
    → HasRoom b
    → IsValid b c
    → c.state.state ≡ slow_start
    → n ≢ c.last_ack
    → c.window + 1 ≡ c.ssthresh
    → let after = ack_cwnd c n in
      (after.state.state ≡ congest_avoid)
      × (after.window ≡ c.ssthresh)
      × (after.ssthresh ≡ c.ssthresh)
      × (after.ack_this_round ≡ 0)
unfolding ack_cwnd
slow_start_last c n r v p h k = ground arith

-- In slow start each ack of new data adds one segment to the window while that stays below the
-- threshold: phase and threshold stay.
pub slow_start-growth :
    {b : ℕ} (ns : List ℕ) (c : Cwnd)
    → HasRoom b
    → IsValid b c
    → c.state.state ≡ slow_start
    → AllNew c.last_ack ns
    → c.window + length ns < c.ssthresh
    → let after = ack_list ns c in
      (after.window ≡ c.window + length ns)
      × (after.ssthresh ≡ c.ssthresh)
      × (after.state.state ≡ slow_start)
slow_start-growth {b} ns c r v p h k =
    let (w, t, ph, l, v') = slow_list b ns c r v p h k in (w, t, ph)

-- The ack of new data that brings the window of slow start up to the threshold starts congestion
-- avoidance, with the window at the threshold and an empty round.
pub slow_start-ends :
    {b : ℕ} (ns : List ℕ) (n : ℕ) (c : Cwnd)
    → HasRoom b
    → IsValid b c
    → c.state.state ≡ slow_start
    → AllNew c.last_ack ns
    → n ≢ last_of c.last_ack ns
    → c.window + length ns + 1 ≡ c.ssthresh
    → let after = ack_cwnd (ack_list ns c) n in
      (after.state.state ≡ congest_avoid)
      × (after.window ≡ c.ssthresh)
      × (after.ssthresh ≡ c.ssthresh)
      × (after.ack_this_round ≡ 0)
slow_start-ends {b} ns n c r v p h ne e =
    let (w, t, ph, l, v') = slow_list b ns c r v p h (omega arith) in
    let (q, w', t', z) = slow_start_last (ack_list ns c) n r v' ph (rw l ne) (omega arith) in
    (q, w' ∙ t, t' ∙ t, z)

avoid_step :
    {b : ℕ} (c : Cwnd) (n : ℕ)
    → HasRoom b
    → IsValid b c
    → c.state.state ≡ congest_avoid
    → c.last_ack < n
    → n < u32_mod
    → c.ack_this_round + (n - c.last_ack) < c.window
    → ack_cwnd c n
      ≡ record c { dup_ack = 0; last_ack = n; ack_this_round = c.ack_this_round + (n - c.last_ack) }
unfolding ack_cwnd
avoid_step c n r v p h k s = ground arith

avoid_step-IsValid :
    {b : ℕ} (c : Cwnd) (n : ℕ)
    → IsValid b c
    → c.state.state ≡ congest_avoid
    → c.ack_this_round + (n - c.last_ack) < c.window
    → IsValid b (record c {
      dup_ack = 0;
      last_ack = n;
      ack_this_round = c.ack_this_round + (n - c.last_ack);
    })
avoid_step-IsValid c n v p s = ground arith

last_of-le : (last : ℕ) (ns : List ℕ) → Ascending last ns → last ≤ last_of last ns
last_of-le last [] h = omega arith
last_of-le last (n ∷ ns) h = omega (arith, last_of-le n ns h.2)

ack_list-avoid :
    (b : ℕ) (ns : List ℕ) (c : Cwnd)
    → HasRoom b
    → IsValid b c
    → c.state.state ≡ congest_avoid
    → Ascending c.last_ack ns
    → c.ack_this_round + (last_of c.last_ack ns - c.last_ack) < c.window
    → let after = ack_list ns c in
      (after.window ≡ c.window)
      × (after.ack_this_round ≡ c.ack_this_round + (last_of c.last_ack ns - c.last_ack))
      × (after.ssthresh ≡ c.ssthresh)
      × (after.last_ack ≡ last_of c.last_ack ns)
      × IsValid b after
      × (after.state.state ≡ congest_avoid)
unfolding ack_list
ack_list-avoid b [] c r v p h k = (refl, omega arith, refl, refl, v, p)
ack_list-avoid b (n ∷ ns) c r v p h k =
    rw (avoid_step c n r v p h.0 h.1 (omega (arith, last_of-le n ns h.2)), ack_list)
      (let (w, a, t, l, v', p') =
          ack_list-avoid b ns
            (record c {
              dup_ack = 0;
              last_ack = n;
              ack_this_round = c.ack_this_round + (n - c.last_ack);
            })
            r (avoid_step-IsValid c n v p (omega (arith, last_of-le n ns h.2))) p h.2
            (omega (arith, last_of-le n ns h.2)) in
        (w, omega (arith, last_of-le n ns h.2), t, l, v', p'))

avoid_last :
    {b : ℕ} (c : Cwnd) (n : ℕ)
    → HasRoom b
    → IsValid b c
    → c.state.state ≡ congest_avoid
    → c.last_ack < n
    → n < u32_mod
    → c.window ≤ c.ack_this_round + (n - c.last_ack)
    → let after = ack_cwnd c n in
      (after.window ≡ c.window + 1)
      × (after.ack_this_round ≡ 0)
      × (after.ssthresh ≡ c.ssthresh)
      × (after.state.state ≡ congest_avoid)
unfolding ack_cwnd
avoid_last c n r v p h k s = ground arith

-- In congestion avoidance the segments that ascending acks cover are counted, and the window and
-- the threshold stay as long as the round has covered fewer than a window's worth of them.
pub avoid-round :
    {b : ℕ} (ns : List ℕ) (c : Cwnd)
    → HasRoom b
    → IsValid b c
    → c.state.state ≡ congest_avoid
    → Ascending c.last_ack ns
    → c.ack_this_round + (last_of c.last_ack ns - c.last_ack) < c.window
    → let after = ack_list ns c in
      (after.window ≡ c.window)
      × (after.ack_this_round ≡ c.ack_this_round + (last_of c.last_ack ns - c.last_ack))
      × (after.ssthresh ≡ c.ssthresh)
      × (after.state.state ≡ congest_avoid)
avoid-round {b} ns c r v p h k =
    let (w, a, t, l, v', p') = ack_list-avoid b ns c r v p h k in (w, a, t, p')

-- The ack with which a round of congestion avoidance has covered a window's worth of segments or
-- more adds one segment to the window, keeps the threshold and starts a new round.
pub avoid-growth :
    {b : ℕ} (ns : List ℕ) (n : ℕ) (c : Cwnd)
    → HasRoom b
    → IsValid b c
    → c.state.state ≡ congest_avoid
    → Ascending c.last_ack ns
    → c.ack_this_round + (last_of c.last_ack ns - c.last_ack) < c.window
    → last_of c.last_ack ns < n
    → n < u32_mod
    → c.window ≤ c.ack_this_round + (n - c.last_ack)
    → let after = ack_cwnd (ack_list ns c) n in
      (after.window ≡ c.window + 1)
      × (after.ack_this_round ≡ 0)
      × (after.ssthresh ≡ c.ssthresh)
      × (after.state.state ≡ congest_avoid)
avoid-growth {b} ns n c r v p h k lt small full =
    let (w, a, t, l, v', p') = ack_list-avoid b ns c r v p h k in
    let (w', z, t', q) =
      avoid_last (ack_list ns c) n r v' p' (rw l lt) small
        (omega (arith, last_of-le c.last_ack ns h)) in
    (w' ∙ ap (λ x. x + 1) w, z, t' ∙ t, q)
