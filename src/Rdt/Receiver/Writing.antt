-- ===== src/Rdt/Receiver/Writing.antt =====
-- `write_to_file` of mp2/src/receiver_main.c: short writes, and what reaches the file.
use networking_learning.Base.{
  ℕ, ◌+◌, ◌-◌, ◌≤◌, ◌<◌, ◌≡◌, ◌∙◌, ap, sym, inl, inr, List, [], ◌∷◌, ◌++◌, take, drop, length, done,
  arith, take-add, drop-add, take-take, take-all, length-take, lt→ltb, le→ltb, lt_or_le, le→leb,
}
use networking_learning.Rdt.Constants.{RdtPacket, max_payload_len}
use networking_learning.Rdt.Receiver.{WriteReply, wrote, failed, write_loop, write_to_file}

-- Each reply takes a byte or more.
abbrev pub AllProgress : List WriteReply → Type 0
AllProgress [] = Unit
AllProgress (wrote n ∷ rs) = (0 < n) × AllProgress rs
AllProgress (failed ∷ rs) = ⊥

-- Replies with which a write of `total` bytes ends: none fails, each takes a byte or more, and there
-- is one for each byte.
abbrev pub Completes : List WriteReply → ℕ → Type 0
Completes rs total = AllProgress rs × (1 ≤ length rs) × (total ≤ length rs)

-- One write of `n` bytes or what is left, and the rest.
write_split :
    (n left : ℕ) (xs : List ℕ)
    → n < left
    → take left xs ≡ take n (take left xs) ++ take (left - n) (drop n xs)
write_split n left xs h =
    let e : left ≡ n + (left - n) = omega arith in
    ap (λ k. take k xs) e
    ∙ take-add n (left - n) xs
    ∙ ap (λ r. r ++ take (left - n) (drop n xs)) (sym (take-take n left xs (omega arith)))

write_loop_lem :
    (rs : List WriteReply) (content : List ℕ) (writed total : ℕ)
    → AllProgress rs
    → 1 ≤ length rs
    → total - writed ≤ length rs
    → write_loop rs content writed total ≡ done (take (total - writed) (drop writed content))
unfolding write_loop
write_loop_lem [] content w total p h k = absurd (omega arith)
write_loop_lem (wrote n ∷ rs) content w total p h k = elim (lt_or_le (w + n) total) [
  | inl lt ↦
      rw (lt→ltb _ _ lt, write_loop_lem rs content (w + n) total p.1 (omega arith) (omega arith))
        (ap done (
          sym (
            write_split n (total - w) (drop w content) (omega arith)
            ∙ let e : total - w - n ≡ total - (w + n) = omega arith in
              ap (λ r. take n (take (total - w) (drop w content)) ++ r)
                (ap (λ k. take k (drop n (drop w content))) e
                  ∙ ap (take (total - (w + n))) (sym (drop-add w n content))))))
  | inr le ↦ rw (le→ltb _ _ le) (
      ap done (
        take-all n (take (total - w) (drop w content))
          (omega (arith, length-take (total - w) (drop w content)))))
]
write_loop_lem (failed ∷ rs) content w total p h k = absurd p

-- However the system splits the writes, if they progress and complete, `write_to_file` returns for a
-- packet whose payload fits its array, and it has written exactly the first `payload` bytes of the
-- content.
pub write_to_file_lem :
    (rs : List WriteReply) (packet : RdtPacket)
    → packet.payload ≤ max_payload_len
    → Completes rs packet.payload
    → write_to_file rs packet ≡ done (take packet.payload packet.content)
unfolding write_to_file
write_to_file_lem rs packet h c = rw (le→leb _ _ h) (
    write_loop_lem rs packet.content 0 packet.payload c.0 c.1 (omega arith)
    ∙ let e : packet.payload - 0 ≡ packet.payload = omega arith in
      ap (λ k. done (take k packet.content)) e)
