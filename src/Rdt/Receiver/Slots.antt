-- ===== src/Rdt/Receiver/Slots.antt =====
-- The queue of the receiver of mp2/src/receiver_main.c: what its slots hold, and what
-- `check_and_sent_buffer` does with them.
use networking_learning.Base.{
  ℕ, zero, suc, ◌+◌, ◌%◌, ◌≤◌, ◌<◌, ◌≡◌, ◌≢◌, ◌∙◌, ap, eq→==, ne→==, refl, inl, inr, true, false,
  ◌==◌, List, take, length, done, arith, Bool-cases, lt_or_le, u32_mod, add32, take-append_length,
}
use networking_learning.Rdt.Constants.{RdtPacket, window_slots}
use networking_learning.Rdt.Sender.Packets.{chunk, packet_at}
use networking_learning.Rdt.Sender.Send.{from_bool}
use networking_learning.Rdt.Receiver.{ReceiverQ, update}
use networking_learning.Rdt.Receiver.Buffer.{is_full, scan}

pub update_self {ℓ} : {A : Type ℓ} (f : ℕ → A) (i j : ℕ) (v : A) → j ≡ i → update f i v j ≡ v
update_self f i j v h = rw (eq→== j i h)

pub update-ne {ℓ} : {A : Type ℓ} (f : ℕ → A) (i j : ℕ) (v : A) → j ≢ i → update f i v j ≡ f j
update-ne f i j v h = rw (ne→== j i h)

pub slots_differ : (n k : ℕ) → n < k → k < n + window_slots → k % window_slots ≢ n % window_slots
slots_differ n k h l = omega arith

-- `m` is the first number from `n` on whose slot is empty.
pub record FirstEmpty (q : ReceiverQ) (n m : ℕ) : Type 0 where
  pub le : n ≤ m
  pub empty : is_full q m ≡ false
  pub full : (k : ℕ) → n ≤ k → k < m → is_full q k ≡ true

FirstEmpty-here : (q : ReceiverQ) (n : ℕ) → is_full q n ≡ false → FirstEmpty q n n
FirstEmpty-here q n h = record { le = omega arith; empty = h; full = λ k a b. absurd (omega arith) }

FirstEmpty-step :
    {q : ReceiverQ} (n : ℕ) {m : ℕ} → is_full q n ≡ true → FirstEmpty q (n + 1) m → FirstEmpty q n m
FirstEmpty-step {q} n h f = record {
  le = omega arith;
  empty = f.empty;
  full = λ k a b. elim (lt_or_le n k) [
    | inl lt ↦ f.full k (omega arith) b
    | inr le ↦ let e : k ≡ n = omega arith in ap (is_full q) e ∙ h
  ];
}

FirstEmpty-tail : {q : ReceiverQ} {n m : ℕ} → n < m → FirstEmpty q n m → FirstEmpty q (n + 1) m
FirstEmpty-tail h f = record {
  le = omega arith;
  empty = f.empty;
  full = λ k a b. f.full k (omega arith) b;
}

pub next_seq : (n : ℕ) → n + 1 < u32_mod → add32 n 1 ≡ n + 1
next_seq n h = omega arith

full-lt : (q : ReceiverQ) (n e : ℕ) → n ≤ e → is_full q n ≡ true → is_full q e ≡ false → n < e
full-lt q n e h t f = elim (lt_or_le n e) [
  | inl lt ↦ lt
  | inr le ↦ let p : n ≡ e = omega arith in absurd (cc (ap (is_full q) p))
]

-- The first loop ends at the first number from its start on whose slot is empty, if there is an empty
-- slot within its fuel and below 2 ^ 32.
pub scan_lem :
    (fuel : ℕ) (q : ReceiverQ) (n e : ℕ)
    → n ≤ e
    → e < n + fuel
    → is_full q e ≡ false
    → e < u32_mod
    → (m : ℕ) × (scan fuel q n ≡ done m) × FirstEmpty q n m × (m ≤ e)
unfolding scan
scan_lem zero q n e h k f s = absurd (omega arith)
scan_lem (suc fuel) q n e h k f s = elim (Bool-cases (is_full q n)) [
  | inl t ↦
      let lt = full-lt q n e h t f in
      let (m, run, first, le) = scan_lem fuel q (n + 1) e (omega arith) (omega arith) f s in
      (m, rw (t, scan, next_seq n (omega arith)) run, FirstEmpty-step n t first, le)
  | inr x ↦ (n, rw (x, scan), FirstEmpty-here q n x, h)
]

module _ (file : List ℕ) (total : ℕ) where
  -- The packet has what the receiver reads of the packet of the chunk `k`.
  pub record Carries (k : ℕ) (p : RdtPacket) : Type 0 where
    pub payload : p.payload ≡ length (chunk file k)
    pub fin_byte : p.fin_byte ≡ from_bool (k + 1 == total)
    pub content : take p.payload p.content ≡ chunk file k

  -- Of the numbers of the window from `n` on, a full slot holds the packet with its chunk.
  abbrev pub Slots : ℕ → ReceiverQ → Type 0
  Slots n q =
      (k : ℕ)
      → n ≤ k
      → k < n + window_slots
      → is_full q k ≡ true
      → (k < total) × Carries k (q.buffer (k % window_slots))

  pub packet_at-Carries : (k : ℕ) → Carries k (packet_at file total k)
  unfolding packet_at
  packet_at-Carries k = record {
    payload = refl;
    fin_byte = refl;
    content = take-append_length (length (chunk file k)) (chunk file k) _ refl;
  }
