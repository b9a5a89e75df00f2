-- ===== src/Http/Tests/Download.antt =====
-- A download of mp1/src at a concrete request and file.
use networking_learning.Base.{
  Bool, Bool-cases, ==→ne, if◌then◌else◌, true, false, inl, inr, ℕ, ◌≡◌, ◌==◌, refl, List, [], ◌∷◌,
  ◌++◌, length, Option, some, arith, done,
}
use networking_learning.Http.CString.{bytes, Absent}
use networking_learning.Http.Request.{HttpRequest, took, generate_request}
use networking_learning.Http.Request.Text.{request_text}
use networking_learning.Http.Connection.{got, answer, serve}
use networking_learning.Http.Connection.Serving.{ok_header, download}
use networking_learning.Http.Connection.Requests.{is_text→IsText, serve_lem}
use networking_learning.Http.Fetch.{receive_response}

abbrev lacks : ℕ → List ℕ → Bool
lacks c [] = true
lacks c (d ∷ s) = if d == c then false else lacks c s

lacks→Absent : (c : ℕ) (s : List ℕ) → lacks c s ≡ true → Absent c s
lacks→Absent c [] h = tt
lacks→Absent c (d ∷ s) h = elim (Bool-cases (d == c)) [
  | inl e ↦ absurd (cc (rw e at h))
  | inr e ↦ (==→ne d c e, lacks→Absent c s (rw e at h))
]

abbrev page : HttpRequest
page = record {
  method = bytes "GET";
  request_uri = bytes "/x";
  version = bytes "HTTP/1.1";
  ua = bytes "Wget/1.12 (linux-gnu)";
  accept = bytes "*/*";
  host = bytes "a.b";
  port = bytes "8080";
  keepalive = 1;
}

abbrev files : List ℕ → Option (List ℕ)
files path = some (bytes "hello")

serve_lem_example :
    (generate_request page ≡ done (request_text page, length (request_text page)))
    × (serve
          (got (request_text page ++ []) ∷ [])
          files
          (took (length (ok_header (bytes "5"))) ∷ [])
          (took 2 ∷ took 3 ∷ [])
        ≡ done (0, ok_header (bytes "5") ++ bytes "hello"))
serve_lem_example =
    serve_lem page files (bytes "hello") (took 2 ∷ took 3 ∷ []) [] (request_text page) [] []
      (omega arith)
      (record {
        method = is_text→IsText page.method refl;
        request_uri = is_text→IsText page.request_uri refl;
        version = is_text→IsText page.version refl;
        ua = is_text→IsText page.ua refl;
        accept = is_text→IsText page.accept refl;
        host = is_text→IsText page.host refl;
        port = is_text→IsText page.port refl;
      })
      (lacks→Absent b' ' page.method refl, lacks→Absent b'\r' page.method refl)
      (lacks→Absent b' ' page.request_uri refl, lacks→Absent b'\r' page.request_uri refl)
      (lacks→Absent b' ' page.version refl, lacks→Absent b'\r' page.version refl) refl (omega arith)
      (omega arith, omega arith, inr (omega arith, omega arith, inl refl)) tt (omega arith)
      (omega arith) refl

download_example :
    (answer files (took (length (ok_header (bytes "5"))) ∷ []) (took 5 ∷ []) (bytes "x")
      ≡ done (0, ok_header (bytes "5") ++ bytes "hello"))
    × (receive_response (
          got (bytes "HTTP/1.1 200 OK\r\n")
          ∷ got (bytes "Content-Length: 5\r\n\r\nhe")
          ∷ got (bytes "llo")
          ∷ [])
        ≡ done (bytes "hello"))
download_example =
    download files (bytes "x") (bytes "hello") (took 5 ∷ []) (bytes "HTTP/1.1 200 OK\r\n" ∷ [])
      (bytes "Content-Length: 5\r\n\r\n") (bytes "he") (bytes "llo" ∷ []) refl (omega arith)
      (omega arith, omega arith, inl refl) (omega arith, tt) (omega arith) (omega arith)
      ((omega arith, omega arith), tt) refl refl
