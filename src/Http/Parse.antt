-- ===== src/Http/Parse.antt =====
-- `parse_response_header` of mp1/src/http_client.c.
pub mod Decimal
pub mod RoundTrip
use networking_learning.Base.{
  Option, none, some, ℕ, zero, suc, ◌+◌, ◌-◌, ◌*◌, ◌/◌, ◌%◌, ◌^◌, Bool, true, false, ltb, leb, ◌==◌,
  ◌&&◌, ◌||◌, if◌then◌else◌, List, [], ◌∷◌, ◌++◌, take, drop, length, u64_mod, sub64, min, Proc,
  done, fault, ◌>>=◌,
}
use networking_learning.Http.CString.{bytes, starts_with, is_digit, skip_spaces, digits_value}
use networking_learning.Http.Response.{HttpResponse}

abbrev pub next_offset : Option ℕ → Option ℕ
next_offset none = none
next_offset (some k) = some (suc k)

-- The offset of the first occurrence of `needle`; `none` is NULL.
abbrev pub strstr : List ℕ → List ℕ → Option ℕ
strstr [] needle = none
strstr (c ∷ s) needle =
    let rest = strstr s needle in if starts_with needle (c ∷ s) then some 0 else next_offset rest

-- The offset of the first `needle`.
abbrev pub strchr : List ℕ → ℕ → Option ℕ
strchr [] needle = none
strchr (c ∷ s) needle =
    let rest = strchr s needle in if c == needle then some 0 else next_offset rest

-- `*s == 0`
abbrev pub is_empty : List ℕ → Bool
is_empty [] = true
is_empty (c ∷ s) = false

-- How many digits stand at the start.
abbrev pub digit_count : List ℕ → ℕ
digit_count [] = 0
digit_count (c ∷ s) = let rest = digit_count s in if is_digit c then suc rest else 0

-- The largest `long`.
abbrev pub long_max : ℕ
long_max = 2 ^ 63 - 1

-- `strtol` in base 10 on a string whose spaces are gone: the value as the `size_t` that it is
-- assigned to, and the number of bytes read, 0 where there is no number.
abbrev strtol_signed : List ℕ → ℕ × ℕ
strtol_signed [] = (0, 0)
strtol_signed (c ∷ s) =
    if (c == b'-' || c == b'+') && ltb 0 (digit_count s)
    then (
      (if c == b'-'
          then sub64 0 (min (digits_value 0 s) (2 ^ 63))
          else min (digits_value 0 s) long_max),
      1 + digit_count s,
    )
    else (min (digits_value 0 (c ∷ s)) long_max, digit_count (c ∷ s))

-- The value, and the number of bytes up to `endptr`.
unfoldable pub strtol : List ℕ → ℕ × ℕ
strtol s =
    let t = skip_spaces s in
    let r = strtol_signed t in (r.0, if r.1 == 0 then 0 else length s - length t + r.1)

-- The value of the header whose text starts at `cl_ptr`, if `strtol` ends where the line ends. The
-- results of these functions are whether 0 is returned, and the response as far as it is filled.
unfoldable pub parse_value : HttpResponse → List ℕ → Option ℕ → Bool × HttpResponse
parse_value rep cl_ptr none = (false, rep)
parse_value rep cl_ptr (some line_end) =
    let r = strtol (drop 16 cl_ptr) in (16 + r.1 == line_end, record rep { cl = r.0 })

-- The last part: the header Content-Length.
unfoldable pub parse_length : HttpResponse → List ℕ → Bool × HttpResponse
parse_length rep s = elim (strstr s (bytes "Content-Length: ")) [
  | none ↦ (false, rep)
  | some at ↦ parse_value rep (drop at s) (strstr (drop at s) (bytes "\r\n"))
]

-- The Reason-Phrase from `s` on. Where the carriage return ends the text, the pointer goes past the
-- NUL. `strndup` is given one byte more than the token has, and takes the delimiter with it.
unfoldable pub parse_reason : HttpResponse → List ℕ → Proc (Bool × HttpResponse)
parse_reason rep s = if is_empty s then done (false, rep) else elim (strchr s b'\r') [
  | none ↦ done (false, rep)
  | some at ↦
      let rep₁ = record rep { reason = take (at + 1) s } in
      if is_empty (drop (at + 1) s)
      then fault
      else if is_empty (drop (at + 2) s)
      then done (false, rep₁)
      else done (parse_length rep₁ (drop (at + 2) s))
]

unfoldable pub parse_status : HttpResponse → List ℕ → Proc (Bool × HttpResponse)
parse_status rep s = if is_empty s then done (false, rep) else elim (strchr s b' ') [
  | none ↦ done (false, rep)
  | some at ↦ parse_reason (record rep { status = take (at + 1) s }) (drop (at + 1) s)
]

unfoldable pub parse_response_header : HttpResponse → List ℕ → Proc (Bool × HttpResponse)
parse_response_header rep s = elim (strchr s b' ') [
  | none ↦ done (false, rep)
  | some at ↦ parse_status (record rep { version = take (at + 1) s }) (drop (at + 1) s)
]
