-- ===== src/Http/Connection/Search.antt =====
-- `strstr` on what has arrived so far in `recv_header` of mp1/src/http_server.c.
use networking_learning.Base.{
  ℕ, suc, ◌+◌, ◌≤◌, ◌<◌, ◌≡◌, ◌≢◌, ◌∙◌, ap, sym, refl, inl, inr, true, false, ◌==◌, ◌&&◌, List, [],
  ◌∷◌, ◌++◌, length, Option, none, some, arith, All, Bool-cases, ne→==,
}
use networking_learning.Http.CString.{starts_with}
use networking_learning.Http.Parse.{strstr, next_offset}
use networking_learning.Http.Connection.{c_string}

starts_with_short : (n s : List ℕ) → length s < length n → starts_with n s ≡ false
starts_with_short [] s h = absurd (omega (arith, h))
starts_with_short (c ∷ n) [] h = refl
starts_with_short (c ∷ n) (d ∷ s) h = ground (arith, starts_with_short n s (omega (arith, h)))

starts_with-append : (n s t : List ℕ) → starts_with n s ≡ true → starts_with n (s ++ t) ≡ true
starts_with-append [] s t h = refl
starts_with-append (c ∷ n) [] t h = absurd (cc h)
starts_with-append (c ∷ n) (d ∷ s) t h = ground (arith, starts_with-append n s t)

strstr_short : (s n : List ℕ) → length s < length n → strstr s n ≡ none
strstr_short [] n h = refl
strstr_short (c ∷ s) n h = rw (starts_with_short n (c ∷ s) h, strstr_short s n (omega (arith, h)))

next_offset-some :
    (o : Option ℕ) (i : ℕ) → next_offset o ≡ some i → (j : ℕ) × (o ≡ some j) × (i ≡ suc j)
next_offset-some none i h = absurd (cc h)
next_offset-some (some j) i h = (j, refl, cc h)

starts_with_prefix : (n s t : List ℕ) → starts_with n (s ++ t) ≡ false → starts_with n s ≡ false
starts_with_prefix n s t h = elim (Bool-cases (starts_with n s)) [
  | inl e ↦ absurd (cc (starts_with-append n s t e, h))
  | inr e ↦ e
]

starts_with_enough :
    (n s t : List ℕ) → length n ≤ length s → starts_with n (s ++ t) ≡ starts_with n s
starts_with_enough [] s t h = refl
starts_with_enough (c ∷ n) [] t h = absurd (omega (arith, h))
starts_with_enough (c ∷ n) (d ∷ s) t h =
    ap (λ b. c == d && b) (starts_with_enough n s t (omega (arith, h)))

strstr_step :
    (c : ℕ) (s n : List ℕ) (i : ℕ)
    → starts_with n (c ∷ s) ≡ false
    → strstr s n ≡ some i
    → strstr (c ∷ s) n ≡ some (suc i)
strstr_step c s n i e f = rw (e, f) refl

strstr_here : (c : ℕ) (s n : List ℕ) → starts_with n (c ∷ s) ≡ true → strstr (c ∷ s) n ≡ some 0
strstr_here c s n e = rw e refl

-- The first occurrence, in a text that goes on.
pub strstr-append :
    (s t n : List ℕ) (i : ℕ)
    → strstr s n ≡ some i
    → i + length n ≤ length s
    → strstr (s ++ t) n ≡ some i
strstr-append [] t n i h l = absurd (cc h)
strstr-append (c ∷ s) t n i h l = elim (Bool-cases (starts_with n (c ∷ s))) [
  | inl e ↦
      strstr_here c (s ++ t) n (starts_with-append n (c ∷ s) t e) ∙ sym (strstr_here c s n e) ∙ h
  | inr e ↦
      let (j, f, g) = next_offset-some (strstr s n) i (rw e at h) in
      strstr_step c (s ++ t) n j (starts_with_enough n (c ∷ s) t (omega (arith, l, g)) ∙ e)
        (strstr-append s t n j f (omega (arith, l, g)))
      ∙ ap some (sym g)
]

some_zero : (i : ℕ) → some 0 ≡ some i → i ≡ 0
some_zero i h = cc h

-- Before the end of the first occurrence there is none.
pub strstr_prefix :
    (s t n : List ℕ) (i : ℕ)
    → strstr (s ++ t) n ≡ some i
    → length s < i + length n
    → strstr s n ≡ none
strstr_prefix [] t n i h l = refl
strstr_prefix (c ∷ s) t n i h l = elim (Bool-cases (starts_with n (c ∷ (s ++ t)))) [
  | inl e ↦
      strstr_short (c ∷ s) n
        (let z : i ≡ 0 = some_zero i (sym (strstr_here c (s ++ t) n e) ∙ h) in omega (arith, l, z))
  | inr e ↦
      let (j, f, g) = next_offset-some (strstr (s ++ t) n) i (rw e at h) in
      rw (starts_with_prefix n (c ∷ s) t e, strstr_prefix s t n j f (omega (arith, l, g)))
]

pub c_string-append : (s t : List ℕ) → All (λ c. c ≢ 0) s → c_string (s ++ t) ≡ s ++ c_string t
c_string-append [] t h = refl
c_string-append (c ∷ s) t h = rw (ne→== c 0 h.0) (ap (λ l. c ∷ l) (c_string-append s t h.1))
