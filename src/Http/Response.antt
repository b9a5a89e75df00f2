-- ===== src/Http/Response.antt =====
-- The response: `generate_response` and `respond` of mp1/src/http_server.c, and
-- `parse_response_header` of mp1/src/http_client.c.
pub mod Laws
use networking_learning.Base.{
  ℕ, zero, suc, ◌+◌, ◌-◌, ◌*◌, ◌/◌, ◌%◌, ◌^◌, Bool, true, false, ltb, leb, ◌==◌, ◌&&◌,
  if◌then◌else◌, List, [], ◌∷◌, ◌++◌, take, drop, length, u32_mod, u64_mod, sub64, Proc, done,
  exited, blocked, fault, ◌>>=◌, Option, some, none,
}
use networking_learning.Http.Request.{SendSome, took, failed}
use networking_learning.Http.CString.{
  bytes, starts_with, strcat_all, is_digit, skip_spaces, digits_value,
}

pub record HttpResponse : Type 0 where
  pub version : List ℕ
  pub status : List ℕ
  pub reason : List ℕ
  pub cl : ℕ

pub record HttpStatus : Type 0 where
  pub status_code : List ℕ
  pub reason : List ℕ

unfoldable pub http_error : HttpStatus
http_error = record { status_code = bytes "400"; reason = bytes "Bad Request" }

unfoldable pub http_ok : HttpStatus
http_ok = record { status_code = bytes "200"; reason = bytes "OK" }

unfoldable pub http_not_found : HttpStatus
http_not_found = record { status_code = bytes "404"; reason = bytes "NOT FOUND" }

-- The decimal digits of `n`, at most `fuel` of them; an `int` has at most 10.
abbrev pub decimal : ℕ → ℕ → List ℕ
decimal zero n = []
decimal (suc fuel) n =
    let front = decimal fuel (n / 10) in
    if ltb n 10 then (b'0' + n) ∷ [] else front ++ ((b'0' + n % 10) ∷ [])

-- `%d` of the conversion of a `size_t` to `int`.
unfoldable pub print_int : ℕ → List ℕ
print_int cl =
    let w = cl % u32_mod in if ltb w (2 ^ 31) then decimal 10 w else b'-' ∷ decimal 10 (u32_mod - w)

-- `sprintf` at the offset `start` of the string of a buffer of `size` bytes; past the string's NUL it
-- leaves the string as it is.
unfoldable pub sprintf_at : ℕ → List ℕ → ℕ → List ℕ → Proc (List ℕ)
sprintf_at size s start t =
    if ltb (start + length t) size
    then done (if leb start (length s) then take start s ++ t else s)
    else fault

-- `s[index] = 0` in a buffer of `size` bytes.
unfoldable pub set_nul : ℕ → List ℕ → ℕ → Proc (List ℕ)
set_nul size s index = if ltb index size then done (take index s) else fault

-- The strings before the header.
abbrev pub status_line : HttpResponse → List ℕ → List (List ℕ)
status_line rep end = rep.version ∷ bytes " " ∷ rep.status ∷ bytes " " ∷ rep.reason ∷ end ∷ []

-- The branch of `generate_response` for the status 200. The lengths are those of strings in memory,
-- far from the end of `int`.
unfoldable pub ok_response : HttpResponse → Proc (List ℕ)
ok_response rep =
    let cl_loc = length rep.version + 1 + length rep.status + 1 + length rep.reason + 2 in
    let size = cl_loc + 30 + 4 in
    strcat_all size [] (status_line rep (bytes "\r\n")) >>= λ s.
    sprintf_at size s cl_loc (bytes "Content-Length: " ++ print_int rep.cl) >>= λ s'.
    strcat_all size s' (bytes "\r\n\r\n" ∷ [])

-- The branch for the others up to the last `strcat`: the text, and `length`, the size of the buffer.
unfoldable pub error_text : HttpResponse → Proc (List ℕ × ℕ)
error_text rep =
    let size = length rep.version + 1 + length rep.status + 1 + length rep.reason + 4 + 1 in
    strcat_all size [] (status_line rep (bytes "\r\n\r\n")) >>= λ s. done (s, size)

-- `response[length] = 0` for that text and `length`, in a buffer of `more` bytes more than `length`.
unfoldable pub store_nul : ℕ → List ℕ × ℕ → Proc (List ℕ)
unfolding set_nul
store_nul more r = set_nul (r.1 + more) r.0 r.1

-- The branch with that store; the buffer has no byte more.
unfoldable pub error_response : HttpResponse → Proc (List ℕ)
unfolding error_text store_nul
error_response rep = error_text rep >>= store_nul 0

-- The text, and its length that is returned.
unfoldable pub generate_response : HttpResponse → Proc (List ℕ × ℕ)
generate_response rep =
    (if starts_with (bytes "200") rep.status then ok_response rep else error_response rep)
    >>= λ text. done (text, length text)

-- The loop of `respond`: every `send` starts at the beginning of the text, and asks for the `left`
-- bytes that are still to be counted. The result is what the connection has taken.
unfoldable pub respond_loop : List SendSome → List ℕ → ℕ → Proc (List ℕ)
respond_loop [] text left = blocked
respond_loop (failed ∷ rs) text left = exited
respond_loop (took n ∷ rs) text left =
    let rest = respond_loop rs text (sub64 left n) in
    if ltb 0 (sub64 left n)
    then (rest >>= λ more. done (take n text ++ more))
    else done (take n text)

-- A `content_length` of -1 stands for none.
unfoldable pub respond : List SendSome → HttpStatus → ℕ → Proc (List ℕ)
unfolding generate_response respond_loop
respond rs status content_length =
    generate_response (record {
      version = bytes "HTTP/1.1";
      status = status.status_code;
      reason = status.reason;
      cl = if content_length == u64_mod - 1 then 0 else content_length;
    })
    >>= λ r. respond_loop rs r.0 r.1
