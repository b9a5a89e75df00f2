-- ===== src/Http/Connection.antt =====
-- A connection of mp1/src/http_server.c: the child process reads the header of the request, cuts it
-- into words, and answers with the file. The client reads its answer with the same `recv_header`.
pub mod Words
pub mod Search
pub mod Receiving
pub mod Serving
pub mod Requests
use networking_learning.Base.{
  ℕ, zero, suc, ◌+◌, ◌-◌, ◌*◌, ◌==◌, ◌&&◌, Bool, true, false, ltb, leb, if◌then◌else◌, List, [],
  ◌∷◌, ◌++◌, take, drop, length, Option, none, some, sub64, u64_mod, Proc, done, exited, blocked,
  fault, ◌>>=◌,
}
use networking_learning.Http.CString.{bytes}
use networking_learning.Http.Request.{HttpRequest, SendSome, took, failed}
use networking_learning.Http.Response.{HttpResponse, respond, http_error, http_ok, http_not_found}
use networking_learning.Http.Parse.{strstr, is_empty}

-- MAX_BUFFER, and MAXDATASIZE of the client
abbrev pub max_buffer : ℕ
max_buffer = 1024

-- The replies of `recv`. An end of the stream is a read of no bytes.
pub data RecvSome : Type 0 where
  got : List ℕ → RecvSome
  broken : RecvSome

-- The bytes of a buffer up to its first NUL.
abbrev pub c_string : List ℕ → List ℕ
c_string [] = []
c_string (c ∷ s) = let rest = c_string s in if c == 0 then [] else c ∷ rest

-- `response_length` doubled until `need` bytes fit; from 512 on, 64 doublings pass every `size_t`.
unfoldable pub grown : ℕ → ℕ → ℕ → ℕ
grown zero size need = size
grown (suc fuel) size need =
    let more = grown fuel (2 * size) need in if leb need size then size else more

-- `response_length` for `need` bytes.
unfoldable pub resized : ℕ → ℕ → ℕ
resized size need = if ltb size need then grown 64 (2 * size) need else size

-- What `recv_header` returns once `end` is known: the header, the bytes after it in `buf`, and the
-- replies that are left; `rest` is what the loop comes to without it.
abbrev pub cut_header :
    List ℕ
    → List RecvSome
    → Proc (Option (List ℕ × List ℕ × List RecvSome))
    → Option ℕ
    → Proc (Option (List ℕ × List ℕ × List RecvSome))
cut_header response_buf rs rest none = rest
cut_header response_buf rs rest (some end) =
    if leb (length response_buf - (end + 4)) max_buffer
    then done (some (take (end + 4) response_buf, drop (end + 4) response_buf, rs))
    else fault

-- The loop of `recv_header`, with `size` bytes in `response_buf`, of which `received` are filled. The
-- result none is -1.
unfoldable pub recv_loop :
    List RecvSome → ℕ → List ℕ → Proc (Option (List ℕ × List ℕ × List RecvSome))
recv_loop [] size received = blocked
recv_loop (broken ∷ rs) size received = done none
recv_loop (got chunk ∷ rs) size received =
    let need = length received + length chunk + 1 in
    let response_buf = received ++ chunk in
    let rest = recv_loop rs (resized size need) response_buf in
    if ltb (length chunk) max_buffer && leb need (resized size need)
    then cut_header response_buf rs rest (strstr (c_string response_buf) (bytes "\r\n\r\n"))
    else fault

unfoldable pub recv_header : List RecvSome → Proc (Option (List ℕ × List ℕ × List RecvSome))
recv_header rs = recv_loop rs 512 []

abbrev pub skip_blanks : List ℕ → List ℕ
skip_blanks [] = []
skip_blanks (c ∷ s) = let rest = skip_blanks s in if c == b' ' then rest else c ∷ s

-- The bytes up to the next blank, and those after that.
abbrev pub cut_word : List ℕ → List ℕ × List ℕ
cut_word [] = ([], [])
cut_word (c ∷ s) = let r = cut_word s in if c == b' ' then ([], s) else (c ∷ r.0, r.1)

-- `strtok` with a blank; the second part is what it keeps for the next call.
abbrev pub strtok : List ℕ → Option (List ℕ × List ℕ)
strtok s = let t = skip_blanks s in if is_empty t then none else some (cut_word t)

-- The three calls of `assign_struct_var`, on what `strtok` has returned. The result is whether 0 is
-- returned, and the request as far as it is filled.
abbrev pub assign_version : HttpRequest → Option (List ℕ × List ℕ) → Bool × HttpRequest
assign_version req none = (false, req)
assign_version req (some c) = (true, record req { version = c.0 })

abbrev pub assign_uri : HttpRequest → Option (List ℕ × List ℕ) → Bool × HttpRequest
assign_uri req none = (false, req)
assign_uri req (some b) = assign_version (record req { request_uri = b.0 }) (strtok b.1)

abbrev pub assign_method : HttpRequest → Option (List ℕ × List ℕ) → Bool × HttpRequest
assign_method req none = (false, req)
assign_method req (some a) = assign_uri (record req { method = a.0 }) (strtok a.1)

-- The request line ends at the offset `header_ptr`.
abbrev pub parse_line : HttpRequest → List ℕ → Option ℕ → Bool × HttpRequest
parse_line req request none = (false, req)
parse_line req request (some header_ptr) = assign_method req (strtok (take header_ptr request))

unfoldable pub parse_request_header : HttpRequest → List ℕ → Bool × HttpRequest
parse_request_header req request_str =
    if is_empty request_str
    then (false, req)
    else parse_line req request_str (strstr request_str (bytes "\r\n"))

-- `http_request request = {0}`
unfoldable pub zero_request : HttpRequest
zero_request = record {
  method = [];
  request_uri = [];
  version = [];
  ua = [];
  accept = [];
  host = [];
  port = [];
  keepalive = 0;
}

-- The loop around `sendfile`, with the contents of the file that are left to send.
unfoldable pub send_file : List SendSome → List ℕ → Proc (List ℕ)
send_file [] left = blocked
send_file (failed ∷ rs) left = exited
send_file (took n ∷ rs) left =
    let rest = send_file rs (drop n left) in
    if ltb 0 (length left - n)
    then (rest >>= λ more. done (take n left ++ more))
    else done (take n left)

-- The answer once the file is looked up: the exit code, and what the connection has taken.
abbrev pub answer_file : List SendSome → List SendSome → Option (List ℕ) → Proc (ℕ × List ℕ)
answer_file sends sendfiles none =
    respond sends http_not_found (u64_mod - 1) >>= λ out. done (1, out)
answer_file sends sendfiles (some contents) = respond sends http_ok (length contents) >>= λ out.
    send_file sendfiles contents >>= λ body. done (0, out ++ body)

-- The answer to a request that was read. `files` are the files that can be read and measured, by their
-- paths.
unfoldable pub answer :
    (List ℕ → Option (List ℕ)) → List SendSome → List SendSome → List ℕ → Proc (ℕ × List ℕ)
answer files sends sendfiles path = answer_file sends sendfiles (files path)

-- The request line that was read decides: an error, or the file at the path after its first byte.
unfoldable pub handle_request :
    (List ℕ → Option (List ℕ))
    → List SendSome
    → List SendSome
    → Bool × HttpRequest
    → Proc (ℕ × List ℕ)
unfolding answer
handle_request files sends sendfiles (ok, request) =
    if ok
    then answer files sends sendfiles (drop 1 request.request_uri)
    else respond sends http_error (u64_mod - 1) >>= λ out. done (1, out)

-- The child process.
unfoldable pub serve :
    List RecvSome → (List ℕ → Option (List ℕ)) → List SendSome → List SendSome → Proc (ℕ × List ℕ)
unfolding recv_header parse_request_header handle_request zero_request
serve recvs files sends sendfiles = recv_header recvs >>= λ r. elim r [
  | none ↦ handle_request files sends sendfiles (false, zero_request)
  | some h ↦ handle_request files sends sendfiles (parse_request_header zero_request h.0)
]
