-- ===== src/Http/Parse/Decimal.antt =====
-- Decimal numbers in the text of a response: what `sprintf` prints, `strtol` reads.
use networking_learning.Base.{
  some, ℕ, zero, suc, ◌+◌, ◌-◌, ◌*◌, ◌/◌, ◌%◌, ◌^◌, ◌≤◌, ◌<◌, ◌≡◌, ◌∙◌, ap, refl, true, false, List,
  [], ◌∷◌, ◌++◌, length, All, All-append, arith, length-append, lt→ltb, le→ltb, le→leb, ne→==, inl,
  inr, lt_or_le, min,
}
use networking_learning.Http.CString.{bytes, IsDigit, is_digit, is_space, digits_value}
use networking_learning.Http.Response.{decimal}
use networking_learning.Http.Parse.{strstr, digit_count, strtol, long_max}

is_digit_lem : (c : ℕ) → IsDigit c → is_digit c ≡ true
is_digit_lem c h = let (lo, hi) = h in rw (le→leb 48 c lo, le→leb c 57 hi)

decimal_cases : (n : ℕ) → (n < 10) → IsDigit (48 + n)
decimal_cases n h = omega arith

pub decimal-IsDigit : (fuel n : ℕ) → All IsDigit (decimal fuel n)
decimal-IsDigit zero n = tt
decimal-IsDigit (suc fuel) n = elim (lt_or_le n 10) [
  | inl lt ↦ rw (lt→ltb n 10 lt) (omega arith, tt)
  | inr ge ↦ rw (le→ltb n 10 ge) (
      All-append IsDigit (decimal fuel (n / 10)) ((48 + n % 10) ∷ [])
        (decimal-IsDigit fuel (n / 10)) (omega arith, tt))
]

digits_value-append :
    (acc d : ℕ) (s t : List ℕ)
    → All IsDigit s
    → is_digit d ≡ false
    → digits_value acc (s ++ (d ∷ t)) ≡ digits_value acc s
digits_value-append acc d [] t h e = rw e
digits_value-append acc d (c ∷ s) t h e =
    rw (is_digit_lem c h.0) (digits_value-append (acc * 10 + (c - 48)) d s t h.1 e)

digits_value-last :
    (acc d : ℕ) (s : List ℕ)
    → All IsDigit s
    → IsDigit d
    → digits_value acc (s ++ (d ∷ [])) ≡ digits_value acc s * 10 + (d - 48)
digits_value-last acc d [] h e = rw (is_digit_lem d e)
digits_value-last acc d (c ∷ s) h e =
    rw (is_digit_lem c h.0) (digits_value-last (acc * 10 + (c - 48)) d s h.1 e)

digits_value-decimal : (fuel n : ℕ) → n < 10 ^ fuel → digits_value 0 (decimal fuel n) ≡ n
digits_value-decimal zero n h = omega arith
digits_value-decimal (suc fuel) n h = elim (lt_or_le n 10) [
  | inl lt ↦ rw (lt→ltb n 10 lt, is_digit_lem (48 + n) (omega arith)) (omega arith)
  | inr ge ↦
      let p : 10 ^ suc fuel ≡ 10 * 10 ^ fuel = omega arith in
      let front = digits_value-decimal fuel (n / 10) (omega arith) in
      rw (le→ltb n 10 ge) (
        digits_value-last 0 (48 + n % 10) (decimal fuel (n / 10)) (decimal-IsDigit fuel (n / 10))
          (omega arith)
        ∙ omega (arith, front))
]

digit_count-append :
    (d : ℕ) (s t : List ℕ)
    → All IsDigit s
    → is_digit d ≡ false
    → digit_count (s ++ (d ∷ t)) ≡ length s
digit_count-append d [] t h e = rw e
digit_count-append d (c ∷ s) t h e =
    rw (is_digit_lem c h.0) (ap suc (digit_count-append d s t h.1 e))

-- The end of the line after digits.
pub strstr-digits :
    (s t : List ℕ) → All IsDigit s → strstr (s ++ (13 ∷ 10 ∷ t)) (bytes "\r\n") ≡ some (length s)
strstr-digits [] t h = refl
strstr-digits (c ∷ s) t h =
    let (lo, hi) = h.0 in rw (ne→== 13 c (omega arith), strstr-digits s t h.1)

decimal-long : (fuel n : ℕ) → 1 ≤ length (decimal (suc fuel) n)
decimal-long fuel n = elim (lt_or_le n 10) [
  | inl lt ↦ rw (lt→ltb n 10 lt) (omega arith)
  | inr ge ↦
      rw (le→ltb n 10 ge)
        (omega (arith, length-append (decimal fuel (n / 10)) ((48 + n % 10) ∷ [])))
]

strtol-digits :
    (d : ℕ) (s t : List ℕ)
    → All IsDigit s
    → 1 ≤ length s
    → digits_value 0 s ≤ long_max
    → is_digit d ≡ false
    → strtol (s ++ (d ∷ t)) ≡ (digits_value 0 s, length s)
unfolding strtol
strtol-digits d [] t h l m e = absurd (omega arith)
strtol-digits d (c ∷ s) t h l m e =
    let (lo, hi) = h.0 in
    let space : is_space c ≡ false = ground arith in
    let v = digits_value-append 0 d (c ∷ s) t h e in
    let k = digit_count-append d (c ∷ s) t h e in
    let whole = length (s ++ (d ∷ t)) in
    let value : min (digits_value 0 (c ∷ s)) long_max ≡ digits_value 0 (c ∷ s) = omega (arith, m) in
    let count : suc whole - suc whole + suc (length s) ≡ suc (length s) = omega arith in
    rw
      (
        space,
        ne→== c 45 (omega arith),
        ne→== c 43 (omega arith),
        v,
        k,
        ne→== (suc (length s)) 0 (omega arith),
      )
      (ap (λ x. (x, suc whole - suc whole + suc (length s))) value
        ∙ ap (λ y. (digits_value 0 (c ∷ s), y)) count)

-- What `sprintf` prints of a number below 2 ^ 31, `strtol` reads.
pub strtol-decimal :
    (n d : ℕ) (t : List ℕ)
    → n < 2 ^ 31
    → is_digit d ≡ false
    → strtol (decimal 10 n ++ (d ∷ t)) ≡ (n, length (decimal 10 n))
strtol-decimal n d t h e =
    let v = digits_value-decimal 10 n (omega arith) in
    strtol-digits d (decimal 10 n) t (decimal-IsDigit 10 n) (decimal-long 9 n) (omega (arith, v)) e
    ∙ ap (λ x. (x, length (decimal 10 n))) v
