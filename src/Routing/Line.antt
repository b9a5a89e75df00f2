-- ===== src/Routing/Line.antt =====
-- The lines that the programs of mp3/src read: `str_split`, and the numbers in them. An `int` is a
-- number below 2 ^ 32, shifted by 2 ^ 31, so the order is that of the `int`s.
use networking_learning.Base.{
  ℕ, zero, suc, ◌+◌, ◌-◌, ◌^◌, Bool, false, ltb, ◌==◌, ◌||◌, if◌then◌else◌, List, [], ◌∷◌, ◌++◌,
  Proc, done, exited, fault, ◌>>=◌,
}
use networking_learning.Http.CString.{ℤ, pos, negsuc, skip_spaces, digits_value, is_digit}

-- `acc` is the part of the current word that has been read.
abbrev split_from : List ℕ → List ℕ → List (List ℕ)
split_from acc [] = acc ∷ []
split_from acc (c ∷ s) =
    let rest = split_from (if c == b' ' then [] else acc ++ (c ∷ [])) s in
    if c == b' ' then acc ∷ rest else rest

-- The words between single spaces, empty ones included.
unfoldable pub str_split : List ℕ → List (List ℕ)
str_split input = split_from [] input

abbrev starts_with_digit : List ℕ → Bool
starts_with_digit [] = false
starts_with_digit (c ∷ s) = is_digit c

abbrev in_range : ℤ → Proc ℤ
in_range (pos n) = if ltb n (2 ^ 31) then done (pos n) else exited
in_range (negsuc n) = if ltb n (2 ^ 31) then done (negsuc n) else exited

abbrev minus : ℕ → ℤ
minus zero = pos 0
minus (suc n) = negsuc n

abbrev stoi_signed : List ℕ → Proc ℤ
stoi_signed [] = exited
stoi_signed (c ∷ s) =
    let unsigned = c ∷ s in
    let digits = if c == b'-' || c == b'+' then s else unsigned in
    let value = digits_value 0 digits in
    if starts_with_digit digits
    then in_range (if c == b'-' then minus value else pos value)
    else exited

-- `stoi` throws where there is no number or the number is no `int`; nothing catches it.
unfoldable pub stoi : List ℕ → Proc ℤ
stoi s = stoi_signed (skip_spaces s)

-- The id of a node.
unfoldable pub id_of : ℤ → ℕ
id_of (pos n) = 2 ^ 31 + n
id_of (negsuc n) = 2 ^ 31 - 1 - n

-- `-1` for an id.
abbrev pub no_node : ℕ
no_node = 2147483647

abbrev pub word : List (List ℕ) → ℕ → Proc (List ℕ)
word [] n = fault
word (w ∷ ws) zero = done w
word (w ∷ ws) (suc n) = word ws n

-- The three numbers of a line: two nodes and a cost.
unfoldable pub read_line : List ℕ → Proc (ℕ × ℕ × ℤ)
unfolding str_split stoi id_of
read_line input =
    let splitted = str_split input in
    word splitted 0 >>= λ a. stoi a >>= λ node1. word splitted 1 >>= λ b. stoi b >>= λ node2.
    word splitted 2 >>= λ c. stoi c >>= λ dist. done (id_of node1, id_of node2, dist)
