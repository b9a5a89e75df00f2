-- ===== src/Http/Request.antt =====
-- The request of mp1/src/http_client.c: it is cut out of the URL, measured and printed.
pub mod Url
pub mod Text
use networking_learning.Base.{
  ℕ, ◌+◌, ◌-◌, ◌%◌, ◌≡◌, Bool, true, false, not, ltb, leb, ◌==◌, ◌&&◌, if◌then◌else◌, List, [], ◌∷◌,
  ◌++◌, take, drop, length, u64_mod, Proc, done, fault, exited, blocked, ◌>>=◌,
}
use networking_learning.Http.CString.{
  bytes, starts_with, strchrnul, strcat_all, atoi, ℤ, pos, negsuc,
}

pub record HttpRequest : Type 0 where
  pub method : List ℕ
  pub request_uri : List ℕ
  pub version : List ℕ
  pub ua : List ℕ
  pub accept : List ℕ
  pub host : List ℕ
  pub port : List ℕ
  pub keepalive : ℕ

-- The bytes of `s` from the offset `start` up to `stop`. With the offsets the other way round the
-- length would wrap, and `memcpy` would leave the string.
unfoldable pub slice : List ℕ → ℕ → ℕ → Proc (List ℕ)
slice s start stop =
    if leb start stop && leb stop (length s)
    then done (take (stop - start) (drop start s))
    else fault

unfoldable pub protocol : List ℕ
protocol = bytes "http://"

-- The assignments at the end of `build_request`.
unfoldable pub filled : List ℕ → List ℕ → List ℕ → HttpRequest
filled host port path = record {
  method = bytes "GET";
  request_uri = path;
  version = bytes "HTTP/1.1";
  ua = bytes "Wget/1.12 (linux-gnu)";
  accept = bytes "*/*";
  host = host;
  port = port;
  keepalive = 1;
}

-- `p > 65536 || 6 < 0`
unfoldable pub invalid_port : ℤ → Bool
invalid_port (pos p) = ltb 65536 p
invalid_port (negsuc p) = false

-- The part of `build_request` after the protocol; `s` is the string at `host_ptr`, and the pointers
-- are offsets in it. The result is whether 0 is returned, and the request.
unfoldable pub split : HttpRequest → List ℕ → Proc (Bool × HttpRequest)
unfolding invalid_port
split req s =
    let port_ptr = strchrnul s b':' in
    let path_ptr = strchrnul s b'/' in
    let end_ptr = length s in
    let path = if path_ptr == end_ptr then bytes "/" else drop path_ptr s in
    if not (port_ptr == end_ptr) && leb path_ptr port_ptr
    then done (false, req)
    else if port_ptr == end_ptr
    then (slice s 0 path_ptr >>= λ host. done (true, filled host (bytes "80") path))
    else slice s 0 port_ptr >>= λ host. slice s (port_ptr + 1) path_ptr >>= λ port.
        atoi port >>= λ p.
        done (if invalid_port p then (false, req) else (true, filled host port path))

unfoldable pub build_request : HttpRequest → List ℕ → Proc (Bool × HttpRequest)
unfolding protocol split
build_request req input =
    if starts_with protocol input
    then split req (drop (length protocol) input)
    else done (false, req)

-- In `size_t`.
unfoldable pub request_str_size : HttpRequest → ℕ
request_str_size r =
    (length r.method
      + 1
      + length r.request_uri
      + 1
      + length r.version
      + 2
      + 12
      + length r.ua
      + 2
      + 8
      + length r.accept
      + 2
      + 6
      + length r.host
      + 1
      + length r.port
      + 2
      + 22
      + 4)
    % u64_mod

-- The strings that `generate_request` appends one after the other.
abbrev pub pieces : HttpRequest → List (List ℕ)
pieces r =
    r.method
    ∷ bytes " "
    ∷ r.request_uri
    ∷ bytes " "
    ∷ r.version
    ∷ bytes "\r\n"
    ∷ bytes "User-Agent: "
    ∷ r.ua
    ∷ bytes "\r\n"
    ∷ bytes "Host: "
    ∷ r.host
    ∷ bytes ":"
    ∷ r.port
    ∷ bytes "\r\n"
    ∷ bytes "Accept: "
    ∷ r.accept
    ∷ bytes "\r\n"
    ∷ bytes "Connection: Keep-Alive"
    ∷ bytes "\r\n"
    ∷ bytes "\r\n"
    ∷ []

-- The text, and the length that is returned. The buffer of `retval + 1` bytes starts as the empty
-- string.
unfoldable pub generate_request : HttpRequest → Proc (List ℕ × ℕ)
unfolding request_str_size
generate_request r =
    let retval = request_str_size r in
    strcat_all ((retval + 1) % u64_mod) [] (pieces r) >>= λ text. done (text, retval)

-- The loop of `main` that sends `text` from the offset `sent` on, with the replies of `send`: how
-- many bytes it takes. The result is what the connection has taken.
pub data SendSome : Type 0 where
  took : ℕ → SendSome
  failed : SendSome

unfoldable pub send_request : List SendSome → List ℕ → ℕ → Proc (List ℕ)
send_request [] text sent = blocked
send_request (failed ∷ rs) text sent = exited
send_request (took n ∷ rs) text sent =
    let rest = send_request rs text (sent + n) in
    let out = take n (drop sent text) in
    if ltb (sent + n) (length text) then (rest >>= λ more. done (out ++ more)) else done out
