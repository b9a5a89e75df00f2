-- ===== src/Http/Connection/Serving.antt =====
-- A download with the programs of mp1/src: the answer of the server, and what the client stores.
use networking_learning.Base.{
  Bool, Bool-cases, ==→ne, ℕ, zero, suc, ◌+◌, ◌-◌, ◌^◌, ◌≤◌, ◌<◌, ◌≡◌, ◌≢◌, ◌∙◌, ap, subst, sym,
  refl, inl, inr, true, false, ◌==◌, if◌then◌else◌, List, [], ◌∷◌, ◌++◌, map, length, drop, Option,
  some, arith, All, All-append, done, ◌>>=◌, le→leb, lt→ltb, le→ltb, ne→==, length-append, take-all,
  take-append-drop, length-drop, lt_or_le, sub64, u64_mod,
}
use networking_learning.Http.CString.{bytes, joined, IsDigit, Absent}
use networking_learning.Http.Request.{SendSome, took, failed}
use networking_learning.Http.Request.Text.{Sends}
use networking_learning.Http.Response.{
  HttpResponse, decimal, generate_response, respond, respond_loop, http_ok,
}
use networking_learning.Http.Response.Laws.{response_text, length-decimal, generate_response-ok}
use networking_learning.Http.Parse.{strstr, next_offset, parse_response_header}
use networking_learning.Http.Parse.Decimal.{decimal-IsDigit, strtol-decimal}
use networking_learning.Http.Parse.RoundTrip.{print_int-decimal, parse_text_lem}
use networking_learning.Http.Connection.{
  RecvSome, got, max_buffer, recv_header, send_file, answer, answer_file,
}
use networking_learning.Http.Connection.Receiving.{IsHeader, Small, recv_header_lem}
use networking_learning.Http.Fetch.{store_body, receive_response, zero_response}

pub strstr_end :
    (s : List ℕ)
    → Absent b'\r' s
    → strstr (s ++ bytes "\r\n\r\n") (bytes "\r\n\r\n") ≡ some (length s)
strstr_end [] h = refl
strstr_end (c ∷ s) h = rw (ne→== b'\r' c (λ e. h.0 (sym e)), strstr_end s h.1) refl

digits-Absent : (c : ℕ) (s : List ℕ) → c < 48 → All IsDigit s → Absent c s
digits-Absent c [] l h = tt
digits-Absent c (d ∷ s) l h = ((λ e. absurd (omega (arith, e, l, h.0.0))), digits-Absent c s l h.1)

-- The answer's header, from the digits of the length.
abbrev pub ok_header : List ℕ → List ℕ
ok_header digits = bytes "HTTP/1.1 200 OK\r\nContent-Length: " ++ (digits ++ bytes "\r\n\r\n")

abbrev pub later : ℕ → Option ℕ → Option ℕ
later zero o = o
later (suc n) o = next_offset (later n o)

pub later-some : (n k : ℕ) → later n (some k) ≡ some (n + k)
later-some zero k = ap some (omega arith)
later-some (suc n) k = ap next_offset (later-some n k) ∙ ap some (omega arith)

abbrev pub no_nul : List ℕ → Bool
no_nul [] = true
no_nul (c ∷ s) = if c == 0 then false else no_nul s

pub no_nul→All : (s : List ℕ) → no_nul s ≡ true → All (λ c. c ≢ 0) s
no_nul→All [] h = tt
no_nul→All (c ∷ s) h = elim (Bool-cases (c == 0)) [
  | inl e ↦ absurd (cc (rw e at h))
  | inr e ↦ (==→ne c 0 e, no_nul→All s (rw e at h))
]

digits-plain : (s : List ℕ) → All IsDigit s → All (λ c. c ≢ 0) (s ++ bytes "\r\n\r\n")
digits-plain s d =
    All-append (λ c. c ≢ 0) s (bytes "\r\n\r\n") (digits-Absent 0 s (omega arith) d)
      (no_nul→All (bytes "\r\n\r\n") refl)

ok_header-IsHeader : (digits : List ℕ) → All IsDigit digits → IsHeader (ok_header digits)
ok_header-IsHeader digits d = record {
  at = 33 + length digits;
  found =
      ap (later 33) (strstr_end digits (digits-Absent b'\r' digits (omega arith) d))
      ∙ later-some 33 (length digits);
  at_end = omega (arith, length-append digits (bytes "\r\n\r\n"));
  plain =
      All-append (λ c. c ≢ 0) (bytes "HTTP/1.1 200 OK\r\nContent-Length: ")
        (digits ++ bytes "\r\n\r\n") (no_nul→All (bytes "HTTP/1.1 200 OK\r\nContent-Length: ") refl)
        (digits-plain digits d);
}

pub send_file_lem :
    (rs : List SendSome) (left : List ℕ) → Sends (length left) rs → send_file rs left ≡ done left
unfolding send_file
send_file_lem [] left s = absurd s
send_file_lem (failed ∷ rs) left s = absurd s
send_file_lem (took k ∷ rs) left (some_byte, le, inl e) =
    rw (le→ltb 0 (length left - k) (omega (arith, e)))
      (ap done (take-all k left (omega (arith, e))))
send_file_lem (took k ∷ rs) left (some_byte, le, inr more) = elim (lt_or_le k (length left)) [
  | inl lt ↦
      rw
        (
          lt→ltb 0 (length left - k) (omega (arith, lt)),
          send_file_lem rs (drop k left) (subst (λ n. Sends n rs) (sym (length-drop k left)) more),
        )
        (ap done (take-append-drop k left))
  | inr ge ↦ rw (le→ltb 0 (length left - k) (omega (arith, ge))) (ap done (take-all k left ge))
]

store_body_lem :
    (body : List (List ℕ)) (content_length received : ℕ)
    → All (λ c. (0 < length c) × (length c ≤ max_buffer)) body
    → received + length (joined body) ≡ content_length
    → store_body (map got body) content_length received ≡ done (joined body)
unfolding store_body
store_body_lem [] content_length received fits e =
    rw (le→ltb received content_length (omega (arith, e))) refl
store_body_lem (c ∷ body) content_length received fits e =
    let l = length-append c (joined body) in
    rw
      (
        lt→ltb received content_length (omega (arith, e, l, fits.0.0)),
        le→leb (length c) max_buffer fits.0.1,
        store_body_lem body content_length (received + length c) fits.1 (omega (arith, e, l)),
      )
      refl

respond_loop_whole :
    (text : List ℕ) (n : ℕ)
    → length text ≡ n
    → n < u64_mod
    → respond_loop (took n ∷ []) text n ≡ done text
unfolding respond_loop
respond_loop_whole text n e l =
    let zero_left : sub64 n n ≡ 0 = omega (arith, l) in
    rw zero_left (ap done (take-all n text (omega (arith, e))))

abbrev ok_response_of : ℕ → HttpResponse
ok_response_of n = record {
  version = bytes "HTTP/1.1";
  status = bytes "200";
  reason = bytes "OK";
  cl = n;
}

respond_run :
    (rs : List SendSome) (n : ℕ)
    → n < 2 ^ 31
    → respond rs http_ok n ≡ (generate_response (ok_response_of n) >>= λ r. respond_loop rs r.0 r.1)
unfolding respond http_ok
respond_run rs n h = rw (ne→== n (u64_mod - 1) (λ e. absurd (omega (arith, h, e)))) refl

text_header : (n : ℕ) → n < 2 ^ 31 → response_text (ok_response_of n) ≡ ok_header (decimal 10 n)
text_header n h = ap ok_header (print_int-decimal n h)

file_run :
    (sends sendfiles : List SendSome) (contents header : List ℕ)
    → respond sends http_ok (length contents) ≡ done header
    → send_file sendfiles contents ≡ done contents
    → answer_file sends sendfiles (some contents) ≡ done (0, header ++ contents)
file_run sends sendfiles contents header r s = rw (r, s) refl

pub answer_run :
    (files : List ℕ → Option (List ℕ)) (sends sendfiles : List SendSome)
    (path contents header : List ℕ)
    → files path ≡ some contents
    → respond sends http_ok (length contents) ≡ done header
    → send_file sendfiles contents ≡ done contents
    → answer files sends sendfiles path ≡ done (0, header ++ contents)
unfolding answer
answer_run files sends sendfiles path contents header f r s =
    ap (answer_file sends sendfiles) f ∙ file_run sends sendfiles contents header r s

receive_run :
    (recvs rest : List RecvSome) (header content body : List ℕ) (rep : HttpResponse)
    → recv_header recvs ≡ done (some (header, content, rest))
    → parse_response_header zero_response header ≡ done (true, rep)
    → store_body rest rep.cl (length content) ≡ done body
    → receive_response recvs ≡ done (content ++ body)
unfolding receive_response
receive_run recvs rest header content body rep e p b = rw (e, p, b) refl

pub respond_lem :
    (n : ℕ)
    → n < 2 ^ 31
    → respond (took (length (ok_header (decimal 10 n))) ∷ []) http_ok n
      ≡ done (ok_header (decimal 10 n))
respond_lem n h =
    let header = ok_header (decimal 10 n) in
    respond_run (took (length header) ∷ []) n h
    ∙ ap (λ r. r >>= λ q. respond_loop (took (length header) ∷ []) q.0 q.1)
        (generate_response-ok (ok_response_of n) refl)
    ∙ ap (λ t. respond_loop (took (length header) ∷ []) t (length t)) (text_header n h)
    ∙ respond_loop_whole header (length header) refl
        (omega (arith, length-append (decimal 10 n) (bytes "\r\n\r\n"), length-decimal 10 n))

-- A file of fewer than 2 ^ 31 bytes that the server has, with a header that one `send` takes and calls of
-- `sendfile` that progress: the server exits with 0 after it has sent the header and the file. If this
-- arrives at the client in pieces of fewer than 1024 bytes, of which one holds the end of the header
-- and perhaps the start of the file, the client stores the file.
pub download :
    (files : List ℕ → Option (List ℕ)) (path contents : List ℕ) (sendfiles : List SendSome)
    (pieces : List (List ℕ)) (last content : List ℕ) (body : List (List ℕ))
    → files path ≡ some contents
    → length contents < 2 ^ 31
    → Sends (length contents) sendfiles
    → Small pieces
    → 0 < length last
    → length (last ++ content) < max_buffer
    → All (λ c. (0 < length c) × (length c ≤ max_buffer)) body
    → joined pieces ++ last ≡ ok_header (decimal 10 (length contents))
    → content ++ joined body ≡ contents
    → (answer files (took (length (ok_header (decimal 10 (length contents)))) ∷ []) sendfiles path
        ≡ done (0, ok_header (decimal 10 (length contents)) ++ contents))
      × (receive_response (map got pieces ++ (got (last ++ content) ∷ map got body))
          ≡ done contents)
download files path contents sendfiles pieces last content body f l sends small proper fits parts h
      c =
    let n = length contents in
    let header = ok_header (decimal 10 n) in
    let digits = decimal-IsDigit 10 n in
    (
      answer_run files (took (length header) ∷ []) sendfiles path contents header f
          (respond_lem n l) (send_file_lem sendfiles contents sends),
      receive_run (map got pieces ++ (got (last ++ content) ∷ map got body)) (map got body) header
            content (joined body)
            (record {
              version = bytes "HTTP/1.1 ";
              status = bytes "200 ";
              reason = bytes "OK\r";
              cl = n;
            })
            (recv_header_lem header last content (map got body) pieces
              (ok_header-IsHeader (decimal 10 n) digits) proper fits small h)
            (parse_text_lem zero_response (decimal 10 n) n digits
              (strtol-decimal n 13 (10 ∷ 13 ∷ 10 ∷ []) l refl))
            (store_body_lem body n (length content) parts
              (sym (length-append content (joined body)) ∙ ap length c))
          ∙ ap done c,
    )
