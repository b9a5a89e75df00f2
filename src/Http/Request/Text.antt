-- ===== src/Http/Request/Text.antt =====
-- The text of the request of mp1/src/http_client.c: the buffer holds it, and it is sent whole.
use networking_learning.Base.{
  ℕ, ◌+◌, ◌-◌, ◌%◌, ◌≤◌, ◌<◌, ◌≡◌, ◌∙◌, ◌⊎◌, ◌>>=◌, subst, sym, append_assoc, ap, refl, List, [],
  ◌∷◌, ◌++◌, length, drop, u64_mod, arith, done, lt→ltb, le→ltb, lt_or_le, inl, inr,
  take-append-drop, length-drop, drop-add, take-all,
}
use networking_learning.Http.CString.{bytes, strcat_all, strcat_all_lem, joined, length-joined}
use networking_learning.Http.Request.{
  HttpRequest, request_str_size, generate_request, pieces, SendSome, took, failed, send_request,
}

-- The text, line by line.
abbrev pub request_text : HttpRequest → List ℕ
request_text r =
    (r.method ++ (bytes " " ++ (r.request_uri ++ (bytes " " ++ (r.version ++ bytes "\r\n")))))
    ++ ((bytes "User-Agent: " ++ (r.ua ++ bytes "\r\n"))
        ++ ((bytes "Host: " ++ (r.host ++ (bytes ":" ++ (r.port ++ bytes "\r\n"))))
            ++ ((bytes "Accept: " ++ (r.accept ++ bytes "\r\n"))
                ++ bytes "Connection: Keep-Alive\r\n\r\n")))

abbrev pub field_bytes : HttpRequest → ℕ
field_bytes r =
    length r.method
    + length r.request_uri
    + length r.version
    + length r.ua
    + length r.accept
    + length r.host
    + length r.port

joined-pieces : (r : HttpRequest) → joined (pieces r) ≡ request_text r
joined-pieces r = simp append_assoc

joined-length : (r : HttpRequest) → length (joined (pieces r)) ≡ field_bytes r + 63
joined-length r = omega (arith, length-joined (pieces r))

request_str_size_lem :
    (r : HttpRequest) → field_bytes r + 64 < u64_mod → request_str_size r ≡ field_bytes r + 63
unfolding request_str_size
request_str_size_lem r h = omega arith

generate_request-strcat_all :
    (r : HttpRequest)
    → generate_request r ≡ (
        strcat_all ((request_str_size r + 1) % u64_mod) [] (pieces r) >>= λ text.
        done (text, request_str_size r))
unfolding generate_request
generate_request-strcat_all r = refl

-- `generate_request` writes the request line, the headers User-Agent, Host, Accept and Connection
-- and the empty line into a buffer that `request_str_size` measures: nothing is written past its
-- end, and the length that it returns is that of the text.
pub generate_request_lem :
    (r : HttpRequest)
    → field_bytes r + 64 < u64_mod
    → generate_request r ≡ done (request_text r, length (request_text r))
generate_request_lem r h =
    let size = request_str_size_lem r h in
    let len = joined-length r in
    let text = joined-pieces r in
    generate_request-strcat_all r
    ∙ ap (λ x. x >>= λ text. done (text, request_str_size r))
        (strcat_all_lem ((request_str_size r + 1) % u64_mod) [] (pieces r) (omega arith))
    ∙ ap (λ n. done (joined (pieces r), n)) (size ∙ sym len)
    ∙ ap (λ t. done (t, length t)) text

-- Every `send` takes at least one byte of the `n` that are left, and the replies are enough.
abbrev pub Sends : ℕ → List SendSome → Type 0
Sends n [] = ⊥
Sends n (took k ∷ rs) = (1 ≤ k) × (k ≤ n) × ((k ≡ n) ⊎ Sends (n - k) rs)
Sends n (failed ∷ rs) = ⊥

-- However the system splits it, the request is sent whole: the loop ends, and the connection has
-- taken what stood from the offset on, each byte once and in order.
pub send_request_lem :
    (rs : List SendSome) (text : List ℕ) (sent : ℕ)
    → sent ≤ length text
    → Sends (length text - sent) rs
    → send_request rs text sent ≡ done (drop sent text)
unfolding send_request
send_request_lem [] text sent h s = absurd s
send_request_lem (failed ∷ rs) text sent h s = absurd s
send_request_lem (took k ∷ rs) text sent h (pos, le, inl e) =
    rw (le→ltb (sent + k) (length text) (omega arith))
      (ap done (take-all k (drop sent text) (omega (arith, length-drop sent text))))
send_request_lem (took k ∷ rs) text sent h (pos, le, inr more) =
    elim (lt_or_le (sent + k) (length text)) [
      | inl lt ↦
          let left : length text - sent - k ≡ length text - (sent + k) = omega arith in
          rw (
            lt→ltb (sent + k) (length text) lt,
            send_request_lem rs text (sent + k) (omega arith) (subst (λ n. Sends n rs) left more),
            drop-add sent k text,
            take-append-drop k (drop sent text),
          )
      | inr ge ↦
          rw (le→ltb (sent + k) (length text) ge)
            (ap done (take-all k (drop sent text) (omega (arith, length-drop sent text))))
    ]
