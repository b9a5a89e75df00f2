-- ===== src/Http/Parse/RoundTrip.antt =====
-- The client reads what the server writes: `parse_response_header` of mp1/src/http_client.c on the
-- text of `generate_response` of mp1/src/http_server.c.
use networking_learning.Base.{
  some, All, ◌>>=◌, ℕ, ◌+◌, ◌^◌, ◌<◌, ◌%◌, ◌≡◌, ◌∙◌, ap, refl, true, List, [], ◌∷◌, ◌++◌, length,
  done, arith, ◌==◌, u32_mod, lt→ltb, ==_refl,
}
use networking_learning.Http.CString.{bytes, IsDigit}
use networking_learning.Http.Response.{HttpResponse, print_int, decimal, generate_response}
use networking_learning.Http.Response.Laws.{response_text, generate_response-ok}
use networking_learning.Http.Parse.{
  parse_response_header, parse_length, parse_value, parse_status, parse_reason, strstr, strtol,
}
use networking_learning.Http.Parse.Decimal.{strtol-decimal, strstr-digits, decimal-IsDigit}

pub print_int-decimal : (n : ℕ) → n < 2 ^ 31 → print_int n ≡ decimal 10 n
unfolding print_int
print_int-decimal n h = let e : n % u32_mod ≡ n = omega arith in rw (e, lt→ltb n (2 ^ 31) h)

parse_length_lem :
    (rep : HttpResponse) (digits : List ℕ) (n : ℕ)
    → All IsDigit digits
    → strtol (digits ++ bytes "\r\n\r\n") ≡ (n, length digits)
    → parse_length rep (bytes "Content-Length: " ++ (digits ++ bytes "\r\n\r\n"))
      ≡ (true, record rep { cl = n })
unfolding parse_length parse_value
parse_length_lem rep digits n d read =
    let text = bytes "Content-Length: " ++ (digits ++ bytes "\r\n\r\n") in
    let line = strstr-digits digits (13 ∷ 10 ∷ []) d in
    let line_end : strstr text (bytes "\r\n") ≡ some (16 + length digits) =
      rw line (ap some (omega arith)) in
    ap (parse_value rep text) line_end
    ∙ ap (λ r. (16 + r.1 == 16 + length digits, record rep { cl = r.0 })) read
    ∙ ap (λ b. (b, record rep { cl = n })) (==_refl (16 + length digits))

pub parse_text_lem :
    (rep : HttpResponse) (digits : List ℕ) (n : ℕ)
    → All IsDigit digits
    → strtol (digits ++ bytes "\r\n\r\n") ≡ (n, length digits)
    → parse_response_header rep
        (bytes "HTTP/1.1 200 OK\r\nContent-Length: " ++ (digits ++ bytes "\r\n\r\n"))
      ≡ done (
        true,
        record {
          version = bytes "HTTP/1.1 ";
          status = bytes "200 ";
          reason = bytes "OK\r";
          cl = n;
        },
      )
unfolding parse_response_header parse_status parse_reason
parse_text_lem rep digits n d read = ap done (
    parse_length_lem
      (record {
        version = bytes "HTTP/1.1 ";
        status = bytes "200 ";
        reason = bytes "OK\r";
        cl = rep.cl;
      })
      digits n d read)

-- The client reads the number of bytes that the server has written for a file of fewer than 2 ^ 31
-- bytes, and accepts the header. Of the status line each token keeps the delimiter that follows it.
pub parse-generate_response :
    (rep : HttpResponse) (n : ℕ)
    → n < 2 ^ 31
    → (generate_response
          (record { version = bytes "HTTP/1.1"; status = bytes "200"; reason = bytes "OK"; cl = n })
        >>= λ text. parse_response_header rep text.0)
      ≡ done (
        true,
        record {
          version = bytes "HTTP/1.1 ";
          status = bytes "200 ";
          reason = bytes "OK\r";
          cl = n;
        },
      )
parse-generate_response rep n h =
    let digits = decimal 10 n in
    let sent : HttpResponse = record {
      version = bytes "HTTP/1.1";
      status = bytes "200";
      reason = bytes "OK";
      cl = n;
    } in
    let text : response_text sent
        ≡ bytes "HTTP/1.1 200 OK\r\nContent-Length: " ++ (digits ++ bytes "\r\n\r\n") =
      ap (λ d. bytes "HTTP/1.1 200 OK\r\nContent-Length: " ++ (d ++ bytes "\r\n\r\n"))
        (print_int-decimal n h) in
    ap (λ r. r >>= λ text. parse_response_header rep text.0) (generate_response-ok sent refl)
    ∙ ap (parse_response_header rep) text
    ∙ parse_text_lem rep digits n (decimal-IsDigit 10 n)
        (strtol-decimal n 13 (10 ∷ 13 ∷ 10 ∷ []) h refl)
