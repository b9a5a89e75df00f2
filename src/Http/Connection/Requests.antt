-- ===== src/Http/Connection/Requests.antt =====
-- A request of the client of mp1/src/http_client.c that reaches the server of mp1/src/http_server.c.
use networking_learning.Base.{
  inl, inr, Bool, Bool-cases, ==→ne, if◌then◌else◌, ℕ, ◌+◌, ◌^◌, ◌<◌, ◌≡◌, ◌≢◌, ◌∙◌, ap, subst, sym,
  refl, true, false, ◌==◌, List, [], ◌∷◌, ◌++◌, map, length, drop, Option, some, arith, All,
  All-append, done, ne→==, append_assoc, length-append, u64_mod,
}
use networking_learning.Http.CString.{bytes, joined, Absent}
use networking_learning.Http.Request.{HttpRequest, SendSome, took, generate_request}
use networking_learning.Http.Request.Text.{generate_request_lem, Sends, request_text, field_bytes}
use networking_learning.Http.Response.{decimal}
use networking_learning.Http.Parse.{strstr}
use networking_learning.Http.Connection.{
  RecvSome, got, max_buffer, recv_header, parse_request_header, zero_request, answer,
  handle_request, serve,
}
use networking_learning.Http.Connection.Words.{IsWord, parse_request_header-request_text}
use networking_learning.Http.Connection.Receiving.{IsHeader, Small, recv_header_lem}
use networking_learning.Http.Connection.Serving.{
  ok_header, strstr_end, later, later-some, no_nul→All, respond_lem, send_file_lem, answer_run,
}

-- No carriage return and no NUL.
abbrev pub IsText : List ℕ → Type 0
IsText = All (λ c. (c ≢ b'\r') × (c ≢ 0))

abbrev lines_text : List (List ℕ) → List ℕ
lines_text [] = b'\r' ∷ b'\n' ∷ []
lines_text (l ∷ ls) = l ++ (b'\r' ∷ b'\n' ∷ lines_text ls)

text-Absent : (s : List ℕ) → IsText s → Absent b'\r' s
text-Absent [] h = tt
text-Absent (c ∷ s) h = (h.0.0, text-Absent s h.1)

text-plain : (s : List ℕ) → IsText s → All (λ c. c ≢ 0) s
text-plain [] h = tt
text-plain (c ∷ s) h = (h.0.1, text-plain s h.1)

strstr_line :
    (s t : List ℕ) (c : ℕ)
    → Absent b'\r' s
    → c ≢ b'\r'
    → strstr (s ++ (b'\r' ∷ b'\n' ∷ c ∷ t)) (bytes "\r\n\r\n")
      ≡ later (length s) (later 2 (strstr (c ∷ t) (bytes "\r\n\r\n")))
strstr_line [] t c h ne = rw (ne→== b'\r' c (λ e. ne (sym e))) refl
strstr_line (d ∷ s) t c h ne = rw (ne→== b'\r' d (λ e. h.0 (sym e)), strstr_line s t c h.1 ne) refl

-- A line of the header: it is not empty.
abbrev IsLine : List ℕ → Type 0
IsLine s = (0 < length s) × IsText s

lines-found :
    (l : List ℕ) (ls : List (List ℕ))
    → IsLine l
    → All IsLine ls
    → (at : ℕ) × (strstr (lines_text (l ∷ ls)) (bytes "\r\n\r\n") ≡ some at)
      × (at + 4 ≡ length (lines_text (l ∷ ls)))
lines-found l [] h k =
    (length l, strstr_end l (text-Absent l h.1), omega (arith, length-append l (bytes "\r\n\r\n")))
lines-found l ([] ∷ ls) h k = absurd (omega (arith, k.0.0))
lines-found l ((c ∷ m) ∷ ls) h k =
    let (at, found, len) = lines-found (c ∷ m) ls k.0 k.1 in
    let rest = lines_text ((c ∷ m) ∷ ls) in
    (
      length l + (2 + at),
      strstr_line l (m ++ (b'\r' ∷ b'\n' ∷ lines_text ls)) c (text-Absent l h.1) k.0.1.0.0
          ∙ ap (λ o. later (length l) (later 2 o)) found
          ∙ ap (later (length l)) (later-some 2 at)
          ∙ later-some (length l) (2 + at),
      omega (arith, len, length-append l (b'\r' ∷ b'\n' ∷ rest)),
    )

lines-plain : (ls : List (List ℕ)) → All IsLine ls → All (λ c. c ≢ 0) (lines_text ls)
lines-plain [] h = no_nul→All (bytes "\r\n") refl
lines-plain (l ∷ ls) h =
    All-append (λ c. c ≢ 0) l (b'\r' ∷ b'\n' ∷ lines_text ls) (text-plain l h.0.1)
      ((λ e. absurd (omega (arith, e))), ((λ e. absurd (omega (arith, e))), lines-plain ls h.1))

lines-IsHeader :
    (l : List ℕ) (ls : List (List ℕ)) → IsLine l → All IsLine ls → IsHeader (lines_text (l ∷ ls))
lines-IsHeader l ls h k =
    let (at, found, len) = lines-found l ls h k in
    record { at = at; found = found; at_end = len; plain = lines-plain (l ∷ ls) (h, k) }

-- The lines of a request.
abbrev lines_of : HttpRequest → List (List ℕ)
lines_of r =
    (bytes "User-Agent: " ++ r.ua)
    ∷ (bytes "Host: " ++ (r.host ++ (bytes ":" ++ r.port)))
    ∷ (bytes "Accept: " ++ r.accept)
    ∷ bytes "Connection: Keep-Alive"
    ∷ []

abbrev first_line : HttpRequest → List ℕ
first_line r = r.method ++ (b' ' ∷ (r.request_uri ++ (b' ' ∷ r.version)))

text-lines : (r : HttpRequest) → request_text r ≡ lines_text (first_line r ∷ lines_of r)
text-lines r = simp append_assoc

-- Every field is a text without carriage returns and NULs.
pub record IsPlain (r : HttpRequest) : Type 0 where
  pub method : IsText r.method
  pub request_uri : IsText r.request_uri
  pub version : IsText r.version
  pub ua : IsText r.ua
  pub accept : IsText r.accept
  pub host : IsText r.host
  pub port : IsText r.port

abbrev pub is_text : List ℕ → Bool
is_text [] = true
is_text (c ∷ s) = if c == b'\r' then false else if c == 0 then false else is_text s

pub is_text→IsText : (s : List ℕ) → is_text s ≡ true → IsText s
is_text→IsText [] h = tt
is_text→IsText (c ∷ s) h = elim (Bool-cases (c == b'\r')) [
  | inl e ↦ absurd (cc (rw e at h))
  | inr e ↦ elim (Bool-cases (c == 0)) [
    | inl f ↦ absurd (cc (rw (e, f) at h))
    | inr f ↦ ((==→ne c b'\r' e, ==→ne c 0 f), is_text→IsText s (rw (e, f) at h))
  ]
]

IsText-append : (s t : List ℕ) → IsText s → IsText t → IsText (s ++ t)
IsText-append s t h k = All-append (λ c. (c ≢ b'\r') × (c ≢ 0)) s t h k

-- The lines of a request with plain fields.
lines_of-IsLine : (r : HttpRequest) → IsPlain r → All IsLine (lines_of r)
lines_of-IsLine r p = (
  (
    omega arith,
    IsText-append (bytes "User-Agent: ") r.ua (is_text→IsText (bytes "User-Agent: ") refl) p.ua,
  ),
  (
    (
      omega arith,
      IsText-append (bytes "Host: ") (r.host ++ (bytes ":" ++ r.port))
          (is_text→IsText (bytes "Host: ") refl)
          (IsText-append r.host (bytes ":" ++ r.port) p.host
            (IsText-append (bytes ":") r.port (is_text→IsText (bytes ":") refl) p.port)),
    ),
    (
      (
        omega arith,
        IsText-append (bytes "Accept: ") r.accept (is_text→IsText (bytes "Accept: ") refl) p.accept,
      ),
      ((omega arith, is_text→IsText (bytes "Connection: Keep-Alive") refl), tt),
    ),
  ),
)

first_line-IsLine : (r : HttpRequest) → IsPlain r → IsLine (first_line r)
first_line-IsLine r p = (
  omega (arith, length-append r.method (b' ' ∷ (r.request_uri ++ (b' ' ∷ r.version)))),
  IsText-append r.method (b' ' ∷ (r.request_uri ++ (b' ' ∷ r.version))) p.method (
      IsText-append (bytes " ") (r.request_uri ++ (b' ' ∷ r.version))
        (is_text→IsText (bytes " ") refl)
        (IsText-append r.request_uri (b' ' ∷ r.version) p.request_uri
          (IsText-append (bytes " ") r.version (is_text→IsText (bytes " ") refl) p.version))),
)

request-IsHeader : (r : HttpRequest) → IsPlain r → IsHeader (request_text r)
request-IsHeader r p =
    subst IsHeader (sym (text-lines r))
      (lines-IsHeader (first_line r) (lines_of r) (first_line-IsLine r p) (lines_of-IsLine r p))

abbrev parsed : HttpRequest → HttpRequest
parsed r = record zero_request {
  method = r.method;
  request_uri = r.request_uri;
  version = r.version;
}

serve_run :
    (recvs rest : List RecvSome) (files : List ℕ → Option (List ℕ))
    (sends sendfiles : List SendSome) (header content : List ℕ)
    → recv_header recvs ≡ done (some (header, content, rest))
    → serve recvs files sends sendfiles
      ≡ handle_request files sends sendfiles (parse_request_header zero_request header)
unfolding serve
serve_run recvs rest files sends sendfiles header content e = rw e refl

handle_run :
    (files : List ℕ → Option (List ℕ)) (sends sendfiles : List SendSome) (r : HttpRequest)
    → handle_request files sends sendfiles (true, r)
      ≡ answer files sends sendfiles (drop 1 r.request_uri)
unfolding handle_request
handle_run files sends sendfiles r = refl

-- A request with plain fields, with words for its method, URI and version and less than 2 ^ 64 bytes in
-- all, is written by the client; if it arrives at the server in pieces of fewer than 1024 bytes, the
-- server looks up its URI after the first byte. If this is a file of fewer than 2 ^ 31 bytes, one `send`
-- takes the header of the answer and the calls of `sendfile` progress, the server sends this header
-- and the file, and exits with 0.
pub serve_lem :
    (r : HttpRequest) (files : List ℕ → Option (List ℕ)) (contents : List ℕ)
    (sendfiles : List SendSome) (pieces : List (List ℕ)) (last content : List ℕ)
    (rest : List RecvSome)
    → field_bytes r + 64 < u64_mod
    → IsPlain r
    → IsWord r.method
    → IsWord r.request_uri
    → IsWord r.version
    → files (drop 1 r.request_uri) ≡ some contents
    → length contents < 2 ^ 31
    → Sends (length contents) sendfiles
    → Small pieces
    → 0 < length last
    → length (last ++ content) < max_buffer
    → joined pieces ++ last ≡ request_text r
    → (generate_request r ≡ done (request_text r, length (request_text r)))
      × (serve
            (map got pieces ++ (got (last ++ content) ∷ rest))
            files
            (took (length (ok_header (decimal 10 (length contents)))) ∷ [])
            sendfiles
          ≡ done (0, ok_header (decimal 10 (length contents)) ++ contents))
serve_lem r files contents sendfiles pieces last content rest size p m u v f l s small proper fits
      whole =
    let header = ok_header (decimal 10 (length contents)) in
    let sends : List SendSome = took (length header) ∷ [] in
    (
      generate_request_lem r size,
      serve_run (map got pieces ++ (got (last ++ content) ∷ rest)) rest files sends sendfiles
            (request_text r) content
            (recv_header_lem (request_text r) last content rest pieces (request-IsHeader r p) proper
              fits small whole)
          ∙ ap (handle_request files sends sendfiles)
              (parse_request_header-request_text zero_request r m u v)
          ∙ handle_run files sends sendfiles (parsed r)
          ∙ answer_run files sends sendfiles (drop 1 r.request_uri) contents header f
              (respond_lem (length contents) l) (send_file_lem sendfiles contents s),
    )
