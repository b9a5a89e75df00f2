-- ===== src/Http/Request/Url.antt =====
-- `build_request` of mp1/src/http_client.c and the URLs that it takes apart.
use networking_learning.Base.{
  ℕ, suc, ◌+◌, ◌-◌, ◌≤◌, ◌<◌, ◌≡◌, ◌≢◌, ◌∙◌, ap, refl, true, false, ◌==◌, if◌then◌else◌, List, [],
  ◌∷◌, ◌++◌, take, drop, length, All, arith, ne→==, eq→==, le→leb, le→ltb, lt→leb, ==_refl,
  Bool-cases, Option, none, some, ◌⊎◌, inl, inr, length-append, take-append_length,
  drop-append_length, drop-add, done,
}
use networking_learning.Http.CString.{
  bytes, starts_with, strchrnul, atoi, pos, Absent, IsDigit, digits_value, strchrnul-append,
  atoi-digits,
}
use networking_learning.Http.Request.{HttpRequest, filled, split, slice, build_request, protocol}

-- http://host[:port][/path]; `path` is what follows the slash.
pub record Url : Type 0 where
  pub host : List ℕ
  pub port : Option (List ℕ)
  pub path : Option (List ℕ)

abbrev pub port_text : Option (List ℕ) → List ℕ
port_text none = []
port_text (some p) = b':' ∷ p

abbrev pub path_text : Option (List ℕ) → List ℕ
path_text none = []
path_text (some p) = b'/' ∷ p

-- The text of the URL after the protocol.
abbrev pub url_text : Url → List ℕ
url_text u = u.host ++ (port_text u.port ++ path_text u.path)

abbrev pub IsPort : Option (List ℕ) → Type 0
IsPort none = Unit
IsPort (some p) = All IsDigit p × (digits_value 0 p ≤ 65536)

abbrev pub NoColon : Option (List ℕ) → Type 0
NoColon none = Unit
NoColon (some p) = Absent b':' p

pub record IsPlain (u : Url) : Type 0 where
  pub host_colon : Absent b':' u.host
  pub host_slash : Absent b'/' u.host
  pub port : IsPort u.port
  pub path : NoColon u.path

-- What is asked for where the URL leaves the port or the path out.
abbrev pub port_or_80 : Option (List ℕ) → List ℕ
port_or_80 none = bytes "80"
port_or_80 (some p) = p

abbrev pub path_or_root : Option (List ℕ) → List ℕ
path_or_root none = bytes "/"
path_or_root (some p) = b'/' ∷ p

strchrnul-Absent : (c : ℕ) (s : List ℕ) → Absent c s → strchrnul s c ≡ length s
strchrnul-Absent c [] h = refl
strchrnul-Absent c (d ∷ s) h = rw (ne→== d c h.0) (ap suc (strchrnul-Absent c s h.1))

digits-no_slash : (s : List ℕ) → All IsDigit s → Absent b'/' s
digits-no_slash [] h = tt
digits-no_slash (d ∷ s) h = let (lo, hi) = h.0 in (omega arith, digits-no_slash s h.1)

slice_lem :
    (s : List ℕ) (start stop : ℕ)
    → start ≤ stop
    → stop ≤ length s
    → slice s start stop ≡ done (take (stop - start) (drop start s))
unfolding slice
slice_lem s start stop h l = rw (le→leb start stop h, le→leb stop (length s) l)

slice-prefix : (s : List ℕ) (stop : ℕ) → stop ≤ length s → slice s 0 stop ≡ done (take stop s)
slice-prefix s stop l =
    let e : stop - 0 ≡ stop = omega arith in
    slice_lem s 0 stop (omega arith) l ∙ ap (λ k. done (take k s)) e

module _ (req : HttpRequest) (s : List ℕ) (b : ℕ) where
  split-no_port :
      strchrnul s b':' ≡ length s
      → strchrnul s b'/' ≡ b
      → b ≤ length s
      → split req s
        ≡ done
            (true, filled (take b s) (bytes "80") (if b == length s then bytes "/" else drop b s))
  unfolding split
  split-no_port c p h = rw (c, p, ==_refl (length s), slice-prefix s b h)

  split-port :
      (a v : ℕ)
      → strchrnul s b':' ≡ a
      → strchrnul s b'/' ≡ b
      → a < b
      → b ≤ length s
      → atoi (take (b - (a + 1)) (drop (a + 1) s)) ≡ done (pos v)
      → v ≤ 65536
      → split req s
        ≡ done (
          true,
          filled
              (take a s)
              (take (b - (a + 1)) (drop (a + 1) s))
              (if b == length s then bytes "/" else drop b s),
        )
  unfolding split
  split-port a v c p lt h e l = rw (
    c,
    p,
    ne→== a (length s) (omega arith),
    lt→leb b a lt,
    slice-prefix s a (omega arith),
    slice_lem s (a + 1) b (omega arith) h,
    e,
    le→ltb 65536 v l,
  )

-- The tail of the URL: nothing, or a slash and what follows it.
path_pos :
    (n : ℕ) (t : Option (List ℕ))
    → (if n == n + length (path_text t) then bytes "/" else path_text t) ≡ path_or_root t
path_pos n none = rw (eq→== n (n + 0) (omega arith))
path_pos n (some t) = rw (ne→== n (n + suc (length t)) (omega arith))

slash_pos : (t : Option (List ℕ)) → strchrnul (path_text t) b'/' ≡ 0
slash_pos none = refl
slash_pos (some t) = refl

colon_pos : (t : Option (List ℕ)) → NoColon t → strchrnul (path_text t) b':' ≡ length (path_text t)
colon_pos none h = refl
colon_pos (some t) h = ap suc (strchrnul-Absent b':' t h)

-- The URL without a port.
plain_url :
    (req : HttpRequest) (h : List ℕ) (t : Option (List ℕ))
    → Absent b':' h
    → Absent b'/' h
    → NoColon t
    → split req (h ++ path_text t) ≡ done (true, filled h (bytes "80") (path_or_root t))
plain_url req h t c d n =
    let len = length-append h (path_text t) in
    split-no_port req (h ++ path_text t) (length h)
      (strchrnul-append b':' h (path_text t) c ∙ omega (arith, colon_pos t n))
      (strchrnul-append b'/' h (path_text t) d ∙ omega (arith, slash_pos t)) (omega arith)
    ∙ rw (
      take-append_length (length h) h (path_text t) refl,
      drop-append_length h (path_text t),
      len,
      path_pos (length h) t,
    )

port_url :
    (req : HttpRequest) (h p : List ℕ) (t : Option (List ℕ))
    → Absent b':' h
    → Absent b'/' h
    → IsPort (some p)
    → split req (h ++ (b':' ∷ (p ++ path_text t))) ≡ done (true, filled h p (path_or_root t))
port_url req h p t c d i =
    let r = p ++ path_text t in
    let s = h ++ (b':' ∷ r) in
    let a = length h in
    let b = a + 1 + length p in
    let len = length-append h (b':' ∷ r) in
    let len_r = length-append p (path_text t) in
    let len_s : length s ≡ b + length (path_text t) = omega arith in
    let rest : drop (a + 1) s ≡ r =
      drop-add a 1 s ∙ ap (drop 1) (drop-append_length h (b':' ∷ r)) in
    let size : b - (a + 1) ≡ length p = omega arith in
    let port : take (b - (a + 1)) (drop (a + 1) s) ≡ p =
      ap (λ k. take k (drop (a + 1) s)) size
      ∙ ap (take (length p)) rest
      ∙ take-append_length (length p) p (path_text t) refl in
    let tail : drop b s ≡ path_text t =
      drop-add (a + 1) (length p) s
      ∙ ap (drop (length p)) rest
      ∙ drop-append_length p (path_text t) in
    let slash = strchrnul-append b'/' p (path_text t) (digits-no_slash p i.0) in
    split-port req s b a (digits_value 0 p) (strchrnul-append b':' h (b':' ∷ r) c ∙ (omega arith))
      (strchrnul-append b'/' h (b':' ∷ r) d ∙ (omega (arith, slash, slash_pos t))) (omega arith)
      (omega arith) (ap atoi port ∙ atoi-digits p i.0 (omega (arith, i.1))) i.1
    ∙ rw (port, tail, take-append_length a h (b':' ∷ r) refl, len_s, path_pos b t)

url_cases :
    (req : HttpRequest) (h : List ℕ) (p t : Option (List ℕ))
    → Absent b':' h
    → Absent b'/' h
    → IsPort p
    → NoColon t
    → split req (h ++ (port_text p ++ path_text t))
      ≡ done (true, filled h (port_or_80 p) (path_or_root t))
url_cases req h none t c d i n = plain_url req h t c d n
url_cases req h (some p) t c d i n = port_url req h p t c d i

-- `build_request` takes apart every URL http://host[:port][/path] with no colon or slash in the
-- host, a decimal port up to 65536 and no colon in the path: the request asks for the path at the
-- host and the port, port 80 and the path / where they are left out.
pub build_request-url :
    (req : HttpRequest) (u : Url)
    → IsPlain u
    → build_request req (bytes "http://" ++ url_text u)
      ≡ done (true, filled u.host (port_or_80 u.port) (path_or_root u.path))
unfolding build_request protocol
build_request-url req u v =
    url_cases req u.host u.port u.path v.host_colon v.host_slash v.port v.path

strchrnul-le : (c : ℕ) (h t : List ℕ) → strchrnul (h ++ (c ∷ t)) c ≤ length h
strchrnul-le c [] t = rw (==_refl c) (omega arith)
strchrnul-le c (d ∷ h) t =
    let rest = strchrnul-le c h t in
    elim (Bool-cases (d == c)) [ inl e ↦ rw e (omega arith) | inr e ↦ rw e (omega (arith, rest)) ]

split-refused :
    (req : HttpRequest) (s : List ℕ)
    → strchrnul s b':' ≢ length s
    → strchrnul s b'/' ≤ strchrnul s b':'
    → split req s ≡ done (false, req)
unfolding split
split-refused req s ne le =
    rw (ne→== (strchrnul s b':') (length s) ne, le→leb (strchrnul s b'/') (strchrnul s b':') le)

-- A URL whose first colon comes after its first slash is refused, and so is a text without the
-- protocol; the request is left as it was.
pub build_request-refused :
    (req : HttpRequest) (input host path : List ℕ)
    → (starts_with protocol input ≡ false)
      ⊎ ((input ≡ bytes "http://" ++ (host ++ (b'/' ∷ path)))
          × Absent b':' host
          × (strchrnul path b':' < length path))
    → build_request req input ≡ done (false, req)
unfolding build_request
build_request-refused req input host path (inl e) = rw e
build_request-refused req input host path (inr (e, c, l)) =
    let s = host ++ (b'/' ∷ path) in
    let colon = strchrnul-append b':' host (b'/' ∷ path) c in
    let len = length-append host (b'/' ∷ path) in
    rw e (split-refused req s (omega arith) (omega (arith, strchrnul-le b'/' host path)))
