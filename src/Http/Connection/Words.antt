-- ===== src/Http/Connection/Words.antt =====
-- The request line, as mp1/src/http_client.c writes it and mp1/src/http_server.c reads it.
use networking_learning.Base.{
  ℕ, ◌+◌, ◌<◌, ◌≡◌, ◌≢◌, ◌∙◌, ap, sym, refl, true, List, [], ◌∷◌, ◌++◌, length, some, arith, done,
  append_assoc, ne→==, take-append_length, u64_mod, All-append,
}
use networking_learning.Http.CString.{bytes, Absent}
use networking_learning.Http.Request.{HttpRequest, generate_request}
use networking_learning.Http.Request.Text.{request_text, field_bytes, generate_request_lem}
use networking_learning.Http.Parse.{strstr}
use networking_learning.Http.Connection.{
  cut_word, strtok, assign_method, assign_uri, assign_version, parse_line, parse_request_header,
}

-- A word has a first byte, and no blank and no carriage return.
abbrev pub IsWord : List ℕ → Type 0
IsWord [] = ⊥
IsWord (c ∷ s) = Absent b' ' (c ∷ s) × Absent b'\r' (c ∷ s)

cut_word-append : (s t : List ℕ) → Absent b' ' s → cut_word (s ++ (b' ' ∷ t)) ≡ (s, t)
cut_word-append [] t h = refl
cut_word-append (c ∷ s) t h =
    rw (ne→== c b' ' h.0) (ap (λ (r : List ℕ × List ℕ). (c ∷ r.0, r.1)) (cut_word-append s t h.1))

cut_word-all : (s : List ℕ) → Absent b' ' s → cut_word s ≡ (s, [])
cut_word-all [] h = refl
cut_word-all (c ∷ s) h =
    rw (ne→== c b' ' h.0) (ap (λ (r : List ℕ × List ℕ). (c ∷ r.0, r.1)) (cut_word-all s h.1))

strtok-word : (s t : List ℕ) → IsWord s → strtok (s ++ (b' ' ∷ t)) ≡ some (s, t)
strtok-word [] t h = absurd h
strtok-word (c ∷ s) t (h, k) = rw (ne→== c b' ' h.0) (ap some (cut_word-append (c ∷ s) t h))

strtok-last : (s : List ℕ) → IsWord s → strtok s ≡ some (s, [])
strtok-last [] h = absurd h
strtok-last (c ∷ s) (h, k) = rw (ne→== c b' ' h.0) (ap some (cut_word-all (c ∷ s) h))

strstr-line :
    (s t : List ℕ)
    → Absent b'\r' s
    → strstr (s ++ (b'\r' ∷ b'\n' ∷ t)) (bytes "\r\n") ≡ some (length s)
strstr-line [] t h = refl
strstr-line (c ∷ s) t h = rw (ne→== b'\r' c (λ e. h.0 (sym e)), strstr-line s t h.1) refl

-- The words of the request line with blanks between them.
abbrev line_of : HttpRequest → List ℕ
line_of r = r.method ++ (b' ' ∷ (r.request_uri ++ (b' ' ∷ r.version)))

abbrev headers_of : HttpRequest → List ℕ
headers_of r =
    (bytes "User-Agent: " ++ (r.ua ++ bytes "\r\n"))
    ++ ((bytes "Host: " ++ (r.host ++ (bytes ":" ++ (r.port ++ bytes "\r\n"))))
        ++ ((bytes "Accept: " ++ (r.accept ++ bytes "\r\n"))
            ++ bytes "Connection: Keep-Alive\r\n\r\n"))

text-line : (r : HttpRequest) → request_text r ≡ line_of r ++ (b'\r' ∷ b'\n' ∷ headers_of r)
text-line r = simp append_assoc

Absent-word : (s : List ℕ) → IsWord s → Absent b'\r' s
Absent-word [] h = tt
Absent-word (c ∷ s) h = h.1

Absent-line :
    (r : HttpRequest)
    → IsWord r.method
    → IsWord r.request_uri
    → IsWord r.version
    → Absent b'\r' (line_of r)
Absent-line r m u v =
    All-append (λ d. d ≢ b'\r') r.method (b' ' ∷ (r.request_uri ++ (b' ' ∷ r.version)))
      (Absent-word r.method m)
      (
        (λ e. absurd (omega (arith, e))),
        All-append (λ d. d ≢ b'\r') r.request_uri (b' ' ∷ r.version) (Absent-word r.request_uri u)
            ((λ e. absurd (omega (arith, e))), Absent-word r.version v),
      )

assign_lem :
    (req r : HttpRequest)
    → IsWord r.method
    → IsWord r.request_uri
    → IsWord r.version
    → assign_method req (strtok (line_of r))
      ≡ (true, record req { method = r.method; request_uri = r.request_uri; version = r.version })
assign_lem req r m u v =
    let a = record req { method = r.method } in
    let b = record a { request_uri = r.request_uri } in
    ap (assign_method req) (strtok-word r.method (r.request_uri ++ (b' ' ∷ r.version)) m)
    ∙ ap (assign_uri a) (strtok-word r.request_uri r.version u)
    ∙ ap (assign_version b) (strtok-last r.version v)

header_run :
    (req : HttpRequest) (line rest : List ℕ)
    → Absent b'\r' line
    → parse_request_header req (line ++ (b'\r' ∷ b'\n' ∷ rest)) ≡ assign_method req (strtok line)
unfolding parse_request_header
header_run req [] rest h = refl
header_run req (c ∷ s) rest h =
    ap (parse_line req (c ∷ s ++ (b'\r' ∷ b'\n' ∷ rest))) (strstr-line (c ∷ s) rest h)
    ∙ ap (λ t. assign_method req (strtok t))
        (take-append_length (length (c ∷ s)) (c ∷ s) (b'\r' ∷ b'\n' ∷ rest) refl)

pub parse_request_header-request_text :
    (req r : HttpRequest)
    → IsWord r.method
    → IsWord r.request_uri
    → IsWord r.version
    → parse_request_header req (request_text r)
      ≡ (true, record req { method = r.method; request_uri = r.request_uri; version = r.version })
parse_request_header-request_text req r m u v =
    ap (parse_request_header req) (text-line r)
    ∙ header_run req (line_of r) (headers_of r) (Absent-line r m u v)
    ∙ assign_lem req r m u v

-- The server reads from the text of a request with words for its method, URI and version, no blank and
-- no carriage return in them and less than 2 ^ 64 bytes in all, exactly these three words.
pub parse-generate_request :
    (req r : HttpRequest)
    → field_bytes r + 64 < u64_mod
    → IsWord r.method
    → IsWord r.request_uri
    → IsWord r.version
    → (text : List ℕ) × (generate_request r ≡ done (text, length text))
      × (parse_request_header req text ≡ (
        true,
        record req { method = r.method; request_uri = r.request_uri; version = r.version },
      ))
parse-generate_request req r size m u v =
    (request_text r, generate_request_lem r size, parse_request_header-request_text req r m u v)
