-- ===== src/Http/Response/Laws.antt =====
-- The text of the response of mp1/src/http_server.c.
use networking_learning.Base.{
  ℕ, zero, suc, ◌+◌, ◌-◌, ◌/◌, ◌%◌, ◌^◌, ◌≤◌, ◌<◌, ◌≡◌, ◌∙◌, refl, ap, true, false, ltb, List, [],
  ◌∷◌, ◌++◌, take, length, u32_mod, u64_mod, sub64, done, fault, ◌>>=◌, arith, length-append,
  take-all, lt→ltb, le→leb, inl, inr, Bool-cases,
}
use networking_learning.Http.CString.{
  bytes, starts_with, strcat_all, strcat_all_lem, joined, length-joined,
}
use networking_learning.Http.Request.{took}
use networking_learning.Http.Response.{
  HttpResponse, decimal, print_int, ok_response, error_text, error_response, sprintf_at, set_nul,
  store_nul, status_line, generate_response, respond_loop,
}

pub length-decimal : (fuel n : ℕ) → length (decimal fuel n) ≤ fuel
length-decimal zero n = omega arith
length-decimal (suc fuel) n = elim (Bool-cases (ltb n 10)) [
  | inl e ↦ rw e (omega arith)
  | inr e ↦ rw e (
      omega (
        arith,
        length-append (decimal fuel (n / 10)) ((48 + n % 10) ∷ []),
        length-decimal fuel (n / 10),
      ))
]

length-print_int : (cl : ℕ) → length (print_int cl) ≤ 11
unfolding print_int
length-print_int cl = elim (Bool-cases (ltb (cl % u32_mod) (2 ^ 31))) [
  | inl e ↦ rw e (omega (arith, length-decimal 10 (cl % u32_mod)))
  | inr e ↦ rw e (omega (arith, length-decimal 10 (u32_mod - cl % u32_mod)))
]

abbrev line_length : HttpResponse → ℕ
line_length rep = length rep.version + 1 + length rep.status + 1 + length rep.reason

length-status_line :
    (rep : HttpResponse) (end : List ℕ)
    → length (joined (status_line rep end)) ≡ line_length rep + length end
length-status_line rep end = omega (arith, length-joined (status_line rep end))

error_text_lem :
    (rep : HttpResponse)
    → error_text rep ≡ done (joined (status_line rep (bytes "\r\n\r\n")), line_length rep + 4 + 1)
unfolding error_text
error_text_lem rep =
    let len = length-status_line rep (bytes "\r\n\r\n") in
    rw (
      strcat_all_lem (line_length rep + 4 + 1) [] (status_line rep (bytes "\r\n\r\n"))
        (omega arith))

store_nul-outside : (size : ℕ) (s : List ℕ) → store_nul 0 (s, size) ≡ fault
unfolding store_nul set_nul
store_nul-outside size s = ground arith

store_nul-inside : (size : ℕ) (s : List ℕ) → length s ≤ size → store_nul 1 (s, size) ≡ done s
unfolding store_nul set_nul
store_nul-inside size s e = rw (lt→ltb size (size + 1) (omega arith), take-all size s (omega arith))

error_response_lem : (rep : HttpResponse) → error_response rep ≡ fault
unfolding error_response
error_response_lem rep =
    ap (λ p. p >>= store_nul 0) (error_text_lem rep)
    ∙ store_nul-outside (line_length rep + 4 + 1) (joined (status_line rep (bytes "\r\n\r\n")))

-- For every status that does not start with 200, `generate_response` writes a NUL one byte past the
-- end of its buffer: the status line and the empty line, with their own NUL, fit the buffer and fill it,
-- so all is well until the last store; that goes out of bounds, and in a buffer of one byte more the
-- same store is inside and changes nothing.
pub generate_response-overrun :
    (rep : HttpResponse)
    → starts_with (bytes "200") rep.status ≡ false
    → (text : List ℕ) × (size : ℕ) × (error_text rep ≡ done (text, size))
      × (text ≡ joined (status_line rep (bytes "\r\n\r\n")))
      × (length text + 1 ≡ size)
      × (generate_response rep ≡ fault)
      × ((error_text rep >>= store_nul 1) ≡ done text)
unfolding generate_response
generate_response-overrun rep h =
    let text = joined (status_line rep (bytes "\r\n\r\n")) in
    let size = line_length rep + 4 + 1 in
    let full : length text + 1 ≡ size = omega (arith, length-status_line rep (bytes "\r\n\r\n")) in
    (
      text,
      size,
      error_text_lem rep,
      refl,
      full,
      rw (h, error_response_lem rep),
      ap (λ p. p >>= store_nul 1) (error_text_lem rep)
          ∙ store_nul-inside size text (omega (arith, full)),
    )

abbrev pub response_text : HttpResponse → List ℕ
response_text rep =
    (joined (status_line rep (bytes "\r\n")) ++ (bytes "Content-Length: " ++ print_int rep.cl))
    ++ bytes "\r\n\r\n"

sprintf_at-end :
    (size : ℕ) (s t : List ℕ) (n : ℕ)
    → length s ≡ n
    → n + length t < size
    → sprintf_at size s n t ≡ done (s ++ t)
unfolding sprintf_at
sprintf_at-end size s t n e h =
    rw (lt→ltb (n + length t) size h, le→leb n (length s) (omega arith), take-all n s (omega arith))

ok_response_lem : (rep : HttpResponse) → ok_response rep ≡ done (response_text rep)
unfolding ok_response
ok_response_lem rep =
    let line = joined (status_line rep (bytes "\r\n")) in
    let header = bytes "Content-Length: " ++ print_int rep.cl in
    let len = length-status_line rep (bytes "\r\n") in
    let size = line_length rep + 2 + 30 + 4 in
    let digits = length-print_int rep.cl in
    let both = length-append line header in
    ap
      (λ x. x >>= λ s. sprintf_at size s (line_length rep + 2) header >>= λ s'.
        strcat_all size s' (bytes "\r\n\r\n" ∷ []))
      (strcat_all_lem size [] (status_line rep (bytes "\r\n")) (omega arith))
    ∙ ap (λ x. x >>= λ s'. strcat_all size s' (bytes "\r\n\r\n" ∷ []))
        (sprintf_at-end size line header (line_length rep + 2) len (omega arith))
    ∙ strcat_all_lem size (line ++ header) (bytes "\r\n\r\n" ∷ []) (omega arith)

-- For a status that starts with 200 `generate_response` returns the status line, the header
-- Content-Length with the number of bytes as an `int` and the empty line, with their length, and
-- writes nothing past the end of its buffer.
pub generate_response-ok :
    (rep : HttpResponse)
    → starts_with (bytes "200") rep.status ≡ true
    → generate_response rep ≡ done (response_text rep, length (response_text rep))
unfolding generate_response
generate_response-ok rep h = rw (h, ok_response_lem rep)

-- After a short `send`, `respond` starts the text again: of a text of which the connection first takes
-- `k` bytes and then all that is asked for, it gets the first `k` bytes, and then the text from its
-- beginning up to the byte that its length less `k` counts.
pub respond_loop-repeats :
    (k : ℕ) (text : List ℕ)
    → 0 < k
    → k < length text
    → length text < u64_mod
    → respond_loop (took k ∷ took (length text - k) ∷ []) text (length text)
      ≡ done (take k text ++ take (length text - k) text)
unfolding respond_loop
respond_loop-repeats k text p h l =
    let first : sub64 (length text) k ≡ length text - k = omega arith in
    let last : sub64 (length text - k) (length text - k) ≡ 0 = omega arith in
    rw (first, lt→ltb 0 (length text - k) (omega arith), last)
