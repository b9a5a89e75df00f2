-- ===== src/Http/CString.antt =====
-- What mp1/src uses of the C library's strings. A string is the list of its bytes up to the NUL.
use networking_learning.Base.{
  ℕ, zero, suc, ◌+◌, ◌-◌, ◌*◌, ◌^◌, ◌≤◌, ◌<◌, ◌≡◌, ◌≢◌, ap, refl, Bool, true, false, ltb, leb, ◌==◌,
  ◌&&◌, ◌||◌, if◌then◌else◌, List, [], ◌∷◌, ◌++◌, length, All, arith, ne→==, lt→ltb, Proc, done,
  fault, ◌>>=◌, length-append, append_assoc, append-nil, ◌∙◌, sym,
}
use Prim.Native.Char.{code}
use Prim.Native.String.{String}

-- The bytes of a literal.
abbrev pub bytes : String → List ℕ
bytes String.[] = []
bytes (String.◌∷◌ c s) = code c ∷ bytes s

-- `strncmp(s, prefix, strlen(prefix))` is 0.
abbrev pub starts_with : List ℕ → List ℕ → Bool
starts_with [] s = true
starts_with (c ∷ prefix) [] = false
starts_with (c ∷ prefix) (d ∷ s) = c == d && starts_with prefix s

-- The offset of the first `c`, or of the end: `strchrnul`.
abbrev pub strchrnul : List ℕ → ℕ → ℕ
strchrnul [] c = 0
strchrnul (d ∷ s) c = if d == c then 0 else suc (strchrnul s c)

-- `strcat` onto the string of a buffer of `size` bytes.
abbrev pub strcat : ℕ → List ℕ → List ℕ → Proc (List ℕ)
strcat size s t = if ltb (length s + length t) size then done (s ++ t) else fault

-- One `strcat` after the other.
abbrev pub strcat_all : ℕ → List ℕ → List (List ℕ) → Proc (List ℕ)
strcat_all size s [] = done s
strcat_all size s (t ∷ ts) = strcat size s t >>= λ s'. strcat_all size s' ts

-- A C `int`.
pub data ℤ : Type 0 where
  pos : ℕ → ℤ
  negsuc : ℕ → ℤ

abbrev pub is_space : ℕ → Bool
is_space c = c == b' ' || (leb 9 c && leb c 13)

abbrev pub is_digit : ℕ → Bool
is_digit c = leb b'0' c && leb c b'9'

abbrev pub skip_spaces : List ℕ → List ℕ
skip_spaces [] = []
skip_spaces (c ∷ s) = if is_space c then skip_spaces s else c ∷ s

-- The number that the digits at the start of a string write, after `acc`.
abbrev pub digits_value : ℕ → List ℕ → ℕ
digits_value acc [] = acc
digits_value acc (c ∷ s) = if is_digit c then digits_value (acc * 10 + (c - b'0')) s else acc

abbrev pub negated : ℕ → ℤ
negated zero = pos 0
negated (suc n) = negsuc n

-- `atoi` of a string without white space at its start; undefined where the value is no `int`.
abbrev signed : List ℕ → Proc ℤ
signed [] = done (pos 0)
signed (c ∷ s) =
    let plain = digits_value 0 (c ∷ s) in
    let v = digits_value 0 s in
    if c == b'-'
    then (if leb v (2 ^ 31) then done (negated v) else fault)
    else if c == b'+'
    then (if ltb v (2 ^ 31) then done (pos v) else fault)
    else if ltb plain (2 ^ 31)
    then done (pos plain)
    else fault

abbrev pub atoi : List ℕ → Proc ℤ
atoi s = signed (skip_spaces s)

abbrev pub Absent : ℕ → List ℕ → Type 0
Absent c = All (λ d. d ≢ c)

pub strchrnul-append :
    (c : ℕ) (s t : List ℕ) → Absent c s → strchrnul (s ++ t) c ≡ length s + strchrnul t c
strchrnul-append c [] t h = omega arith
strchrnul-append c (d ∷ s) t h = rw (ne→== d c h.0) (omega (arith, strchrnul-append c s t h.1))

abbrev pub IsDigit : ℕ → Type 0
IsDigit c = (48 ≤ c) × (c ≤ 57)

pub atoi-digits :
    (s : List ℕ)
    → All IsDigit s
    → digits_value 0 s < 2 ^ 31
    → atoi s ≡ done (pos (digits_value 0 s))
atoi-digits [] h l = refl
atoi-digits (c ∷ s) h l =
    let (lo, hi) = h.0 in
    let space : is_space c ≡ false = ground arith in
    rw (
      space,
      ne→== c 45 (omega arith),
      ne→== c 43 (omega arith),
      lt→ltb (digits_value 0 (c ∷ s)) (2 ^ 31) l,
    )

abbrev pub joined : List (List ℕ) → List ℕ
joined [] = []
joined (t ∷ ts) = t ++ joined ts

-- Strings that fit the buffer with their NUL are joined, and no byte outside it is written.
pub strcat_all_lem :
    (size : ℕ) (s : List ℕ) (ts : List (List ℕ))
    → length s + length (joined ts) < size
    → strcat_all size s ts ≡ done (s ++ joined ts)
strcat_all_lem size s [] h = ap done (sym (append-nil s))
strcat_all_lem size s (t ∷ ts) h =
    let e = length-append t (joined ts) in
    let d = length-append s t in
    rw (lt→ltb (length s + length t) size (omega arith))
      (strcat_all_lem size (s ++ t) ts (omega arith) ∙ ap done (append_assoc s t (joined ts)))

abbrev pub total_length : List (List ℕ) → ℕ
total_length [] = 0
total_length (t ∷ ts) = length t + total_length ts

pub length-joined : (ts : List (List ℕ)) → length (joined ts) ≡ total_length ts
length-joined [] = refl
length-joined (t ∷ ts) = omega (arith, length-append t (joined ts), length-joined ts)
