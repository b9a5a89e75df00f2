-- ===== src/Http/Connection/Receiving.antt =====
-- `recv_header` of mp1/src: a header that arrives in pieces.
use networking_learning.Base.{
  ℕ, zero, suc, ◌+◌, ◌-◌, ◌*◌, ◌≤◌, ◌<◌, ◌≡◌, ◌≢◌, ◌∙◌, ap, subst, sym, refl, inl, inr, leb, List,
  [], ◌∷◌, ◌++◌, map, length, take, drop, Option, none, some, arith, All, Proc, done, Bool-cases,
  le→leb, leb→le, lt→ltb, le→ltb, append_assoc, append-nil, length-append, take-append_length,
  drop-append_length, lt_or_le,
}
use networking_learning.Http.CString.{bytes, joined}
use networking_learning.Http.Parse.{strstr}
use networking_learning.Http.Connection.{
  RecvSome, got, max_buffer, c_string, grown, resized, cut_header, recv_loop, recv_header,
}
use networking_learning.Http.Connection.Search.{strstr-append, strstr_prefix, c_string-append}

grown_enough : (fuel size need : ℕ) → need ≤ size → need ≤ grown fuel size need
unfolding grown
grown_enough zero size need h = h
grown_enough (suc fuel) size need h = rw (le→leb need size h) h

grown_twice : (fuel size need : ℕ) → need ≤ 2 * size → need ≤ grown (suc fuel) size need
unfolding grown
grown_twice fuel size need h = elim (Bool-cases (leb need size)) [
  | inl e ↦ rw e (leb→le need size e)
  | inr e ↦ rw e (grown_enough fuel (2 * size) need h)
]

grown_lower : (fuel size need : ℕ) → size ≤ grown fuel size need
unfolding grown
grown_lower zero size need = omega arith
grown_lower (suc fuel) size need = elim (Bool-cases (leb need size)) [
  | inl e ↦ rw e (omega arith)
  | inr e ↦ rw e (let h = grown_lower fuel (2 * size) need in omega (arith, h))
]

-- The size for a piece of fewer than 1024 bytes more.
resized_lem :
    (size need : ℕ)
    → 512 ≤ size
    → need ≤ size + 1024
    → (need ≤ resized size need) × (512 ≤ resized size need)
unfolding resized
resized_lem size need h l = elim (lt_or_le size need) [
  | inl e ↦
      let low = grown_lower 64 (2 * size) need in
      rw (lt→ltb size need e)
        (grown_twice 63 (2 * size) need (omega (arith, h, l)), omega (arith, low, h))
  | inr e ↦ rw (le→ltb size need e) (e, h)
]

-- A header: no NUL, and the empty line stands at its end and nowhere before.
pub record IsHeader (h : List ℕ) : Type 0 where
  pub at : ℕ
  pub found : strstr h (bytes "\r\n\r\n") ≡ some at
  pub at_end : at + 4 ≡ length h
  pub plain : All (λ c. c ≢ 0) h

recv_step :
    (chunk : List ℕ) (rs : List RecvSome) (size : ℕ) (received : List ℕ)
    → length chunk < max_buffer
    → length received + length chunk + 1 ≤ resized size (length received + length chunk + 1)
    → recv_loop (got chunk ∷ rs) size received
      ≡ cut_header
          (received ++ chunk)
          rs
          (recv_loop rs (resized size (length received + length chunk + 1)) (received ++ chunk))
          (strstr (c_string (received ++ chunk)) (bytes "\r\n\r\n"))
unfolding recv_loop
recv_step chunk rs size received l fits =
    rw
      (
        lt→ltb (length chunk) max_buffer l,
        le→leb (length received + length chunk + 1)
            (resized size (length received + length chunk + 1)) fits,
      )
      refl

cut_end :
    (buf : List ℕ) (rs : List RecvSome) (rest : Proc (Option (List ℕ × List ℕ × List RecvSome)))
    (at : ℕ)
    → length buf - (at + 4) ≤ max_buffer
    → cut_header buf rs rest (some at) ≡ done (some (take (at + 4) buf, drop (at + 4) buf, rs))
cut_end buf rs rest at small = rw (le→leb (length buf - (at + 4)) max_buffer small) refl

-- Every piece fits the buffer of `recv`.
abbrev pub Small : List (List ℕ) → Type 0
Small = All (λ c. length c < max_buffer)

All-split : (p q : List ℕ) → All (λ c. c ≢ 0) (p ++ q) → All (λ c. c ≢ 0) p × All (λ c. c ≢ 0) q
All-split [] q a = (tt, a)
All-split (c ∷ p) q a = let (b, d) = All-split p q a.1 in ((a.0, b), d)

module _ (h : List ℕ) (header : IsHeader h) (last content : List ℕ) (rs : List RecvSome)
    (proper : 0 < length last) (small : length (last ++ content) < max_buffer) where
  whole_found : strstr (c_string (h ++ content)) (bytes "\r\n\r\n") ≡ some header.at
  whole_found =
      ap (λ s. strstr s (bytes "\r\n\r\n")) (c_string-append h content header.plain)
      ∙ strstr-append h (c_string content) (bytes "\r\n\r\n") header.at header.found
          (omega (arith, header.at_end))

  cut_whole :
      (rest : Proc (Option (List ℕ × List ℕ × List RecvSome)))
      → cut_header (h ++ content) rs rest (strstr (c_string (h ++ content)) (bytes "\r\n\r\n"))
        ≡ done (some (h, content, rs))
  cut_whole rest =
      ap (cut_header (h ++ content) rs rest) whole_found
      ∙ cut_end (h ++ content) rs rest header.at
          (omega (arith, header.at_end, small, length-append h content, length-append last content))
      ∙ ap (λ t. done (some (t, drop (header.at + 4) (h ++ content), rs)))
          (take-append_length (header.at + 4) h content (sym header.at_end))
      ∙ ap (λ t. done (some (h, t, rs)))
          (ap (λ n. drop n (h ++ content)) header.at_end ∙ drop-append_length h content)

  part_missing :
      (p q : List ℕ) → p ++ q ≡ h → 0 < length q → strstr (c_string p) (bytes "\r\n\r\n") ≡ none
  part_missing p q e more =
      let (a, b) = All-split p q (subst (All (λ c. c ≢ 0)) (sym e) header.plain) in
      let same : c_string p ≡ p =
        ap c_string (sym (append-nil p)) ∙ c_string-append p [] a ∙ append-nil p in
      ap (λ s. strstr s (bytes "\r\n\r\n")) same
      ∙ strstr_prefix p q (bytes "\r\n\r\n") header.at
          (ap (λ s. strstr s (bytes "\r\n\r\n")) e ∙ header.found)
          (omega (arith, header.at_end, more, length-append p q, ap length e))

  recv_loop_lem :
      (pieces : List (List ℕ)) (size : ℕ) (received : List ℕ)
      → Small pieces
      → 512 ≤ size
      → length received + 1 ≤ size
      → received ++ (joined pieces ++ last) ≡ h
      → recv_loop (map got pieces ++ (got (last ++ content) ∷ rs)) size received
        ≡ done (some (h, content, rs))
  recv_loop_lem [] size received fits low room whole =
      let (enough, low') =
        resized_lem size (length received + length (last ++ content) + 1) low
          (omega (arith, room, small)) in
      recv_step (last ++ content) rs size received small enough
      ∙ subst
          (λ b.
            cut_header b rs
              (recv_loop rs (resized size (length received + length (last ++ content) + 1))
                (received ++ (last ++ content)))
              (strstr (c_string b) (bytes "\r\n\r\n"))
            ≡ done (some (h, content, rs)))
          (sym (sym (append_assoc received last content) ∙ ap (λ t. t ++ content) whole))
          (cut_whole (
            recv_loop rs (resized size (length received + length (last ++ content) + 1))
              (received ++ (last ++ content))))
  recv_loop_lem (piece ∷ pieces) size received fits low room whole =
      let (enough, low') =
        resized_lem size (length received + length piece + 1) low (omega (arith, room, fits.0)) in
      let e : (received ++ piece) ++ (joined pieces ++ last) ≡ h =
        append_assoc received piece (joined pieces ++ last)
        ∙ ap (λ t. received ++ t) (sym (append_assoc piece (joined pieces) last))
        ∙ whole in
      recv_step piece (map got pieces ++ (got (last ++ content) ∷ rs)) size received fits.0 enough
      ∙ ap
          (cut_header (received ++ piece) (map got pieces ++ (got (last ++ content) ∷ rs)) (
            recv_loop (map got pieces ++ (got (last ++ content) ∷ rs))
              (resized size (length received + length piece + 1)) (received ++ piece)))
          (part_missing (received ++ piece) (joined pieces ++ last) e
            (omega (arith, proper, length-append (joined pieces) last)))
      ∙ recv_loop_lem pieces (resized size (length received + length piece + 1)) (received ++ piece)
          fits.1 low' (omega (arith, enough, length-append received piece)) e

-- A header that arrives in any pieces of fewer than 1024 bytes is returned whole, and so is what the
-- last piece holds after it; nothing is written outside a buffer.
pub recv_header_lem :
    (h last content : List ℕ) (rs : List RecvSome) (pieces : List (List ℕ))
    → IsHeader h
    → 0 < length last
    → length (last ++ content) < max_buffer
    → Small pieces
    → joined pieces ++ last ≡ h
    → recv_header (map got pieces ++ (got (last ++ content) ∷ rs)) ≡ done (some (h, content, rs))
unfolding recv_header
recv_header_lem h last content rs pieces header proper small fits whole =
    recv_loop_lem h header last content rs proper small pieces 512 [] fits (omega arith)
      (omega arith) whole
