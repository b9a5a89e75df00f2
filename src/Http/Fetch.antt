-- ===== src/Http/Fetch.antt =====
-- The client of mp1/src/http_client.c from its argument to the file that it stores, on a connection that
-- is made.
use networking_learning.Base.{
  ℕ, ◌+◌, ltb, leb, if◌then◌else◌, List, [], ◌∷◌, ◌++◌, length, none, some, Proc, done, exited,
  blocked, fault, ◌>>=◌,
}
use networking_learning.Http.Request.{SendSome, build_request, generate_request, send_request}
use networking_learning.Http.Response.{HttpResponse}
use networking_learning.Http.Parse.{parse_response_header}
use networking_learning.Http.Connection.{
  RecvSome, got, broken, max_buffer, recv_header, zero_request,
}

-- The loop that stores the body; `received` bytes are stored already.
unfoldable pub store_body : List RecvSome → ℕ → ℕ → Proc (List ℕ)
store_body [] content_length received = if ltb received content_length then blocked else done []
store_body (broken ∷ rs) content_length received =
    if ltb received content_length then exited else done []
store_body (got chunk ∷ rs) content_length received =
    let rest = store_body rs content_length (received + length chunk) in
    let stored =
      if leb (length chunk) max_buffer then (rest >>= λ more. done (chunk ++ more)) else fault in
    if ltb received content_length then stored else done []

-- `http_response response = {0}`
unfoldable pub zero_response : HttpResponse
zero_response = record { version = []; status = []; reason = []; cl = 0 }

-- After the request is sent: what is stored in the file `output`.
unfoldable pub receive_response : List RecvSome → Proc (List ℕ)
unfolding recv_header zero_response store_body
receive_response recvs = recv_header recvs >>= λ r. elim r [
  | none ↦ exited
  | some (header, content, rest) ↦ parse_response_header zero_response header >>= λ p.
      if p.0
      then (store_body rest p.1.cl (length content) >>= λ body. done (content ++ body))
      else exited
]

-- What the connection has taken, and what is stored.
unfoldable pub fetch : List ℕ → List SendSome → List RecvSome → Proc (List ℕ × List ℕ)
unfolding zero_request receive_response
fetch input sends recvs = build_request zero_request input >>= λ b.
    if b.0
    then (generate_request b.1 >>= λ r. send_request sends r.0 0 >>= λ sent.
        receive_response recvs >>= λ output. done (sent, output))
    else exited
