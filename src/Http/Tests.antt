-- ===== src/Http/Tests.antt =====
-- The HTTP programs at concrete inputs.
mod Download
use networking_learning.Base.{
  ℕ, ◌+◌, List, ◌>>=◌, ◌≡◌, refl, inr, true, false, [], ◌∷◌, length, arith, some, done,
}
use networking_learning.Http.CString.{bytes}
use networking_learning.Http.Request.{
  HttpRequest, filled, build_request, generate_request, send_request, took,
}
use networking_learning.Http.Request.Url.{Url, IsPlain, build_request-url, build_request-refused}
use networking_learning.Http.Request.Text.{request_text, generate_request_lem, send_request_lem}
use networking_learning.Base.{◌>>=◌, fault}
use networking_learning.Http.Response.{
  error_text, store_nul, HttpResponse, generate_response, respond_loop,
}
use networking_learning.Http.Response.Laws.{
  response_text, generate_response-overrun, generate_response-ok, respond_loop-repeats,
}
use networking_learning.Http.Parse.{parse_response_header}
use networking_learning.Http.Parse.RoundTrip.{parse-generate_response}

abbrev empty : HttpRequest
empty = record {
  method = [];
  request_uri = [];
  version = [];
  ua = [];
  accept = [];
  host = [];
  port = [];
  keepalive = 0;
}

abbrev page : Url
page = record { host = bytes "a.b"; port = some (bytes "8080"); path = some (bytes "x/y") }

page-IsPlain : IsPlain page
page-IsPlain = record {
  host_colon = omega arith;
  host_slash = omega arith;
  port = omega arith;
  path = omega arith;
}

build_request-url_example :
    build_request empty (bytes "http://a.b:8080/x/y")
    ≡ done (true, filled (bytes "a.b") (bytes "8080") (bytes "/x/y"))
build_request-url_example = build_request-url empty page page-IsPlain

build_request-refused_example : build_request empty (bytes "http://a/b:1") ≡ done (false, empty)
build_request-refused_example =
    build_request-refused empty (bytes "http://a/b:1") (bytes "a") (bytes "b:1")
      (inr (refl, omega arith, omega arith))

abbrev get_page : HttpRequest
get_page = filled (bytes "a.b") (bytes "8080") (bytes "/x/y")

generate_request_lem_example :
    generate_request get_page ≡ done (request_text get_page, length (request_text get_page))
unfolding filled
generate_request_lem_example = generate_request_lem get_page (omega arith)

send_request_lem_example : send_request (took 1 ∷ took 2 ∷ []) (bytes "GET") 0 ≡ done (bytes "GET")
send_request_lem_example =
    send_request_lem (took 1 ∷ took 2 ∷ []) (bytes "GET") 0 (omega arith) (omega arith)

abbrev not_found : HttpResponse
not_found = record {
  version = bytes "HTTP/1.1";
  status = bytes "404";
  reason = bytes "NOT FOUND";
  cl = 0;
}

generate_response-overrun_example :
    (text : List ℕ) × (size : ℕ) × (error_text not_found ≡ done (text, size))
    × (text ≡ bytes "HTTP/1.1 404 NOT FOUND\r\n\r\n")
    × (length text + 1 ≡ size)
    × (generate_response not_found ≡ fault)
    × ((error_text not_found >>= store_nul 1) ≡ done text)
generate_response-overrun_example = generate_response-overrun not_found refl

abbrev found : HttpResponse
found = record { version = bytes "HTTP/1.1"; status = bytes "200"; reason = bytes "OK"; cl = 4096 }

respond_loop-repeats_example :
    respond_loop (took 2 ∷ took 3 ∷ []) (bytes "HTTP/") 5 ≡ done (bytes "HTHTT")
respond_loop-repeats_example =
    respond_loop-repeats 2 (bytes "HTTP/") (omega arith) (omega arith) (omega arith)

parse-generate_response_example :
    (generate_response found >>= λ text. parse_response_header not_found text.0)
    ≡ done (
      true,
      record {
        version = bytes "HTTP/1.1 ";
        status = bytes "200 ";
        reason = bytes "OK\r";
        cl = 4096;
      },
    )
parse-generate_response_example = parse-generate_response not_found 4096 (omega arith)
