-- ===== src/Routing/LinkState/Nearest.antt =====
-- `get_idx_of_min_cost` of mp3/src/linkstate.cpp returns a node at the least distance.
use networking_learning.Base.{
  ℕ, ◌≤◌, ◌<◌, ◌≡◌, ◌∙◌, ◌⊎◌, inl, inr, ap, sym, refl, ltb, ◌==◌, ◌||◌, if◌then◌else◌, [], ◌∷◌,
  length, some, arith, Bool-cases, eq→==, ==→eq,
}
use networking_learning.Routing.Map.{Map, find, Above, Ascending, find-Above, Ascending-tail}
use networking_learning.Routing.Line.{no_node}
use networking_learning.Routing.LinkState.{int_max}
use networking_learning.Routing.LinkState.Table.{min_from, get_idx_of_min_cost}

-- The result is the entry that stood first, or one of `m`; it is no greater than any of them.
record IsLeast (m : Map ℕ) (min ret k d : ℕ) : Type 0 where
  from_where : ((k ≡ ret) × (d ≡ min)) ⊎ (find m k ≡ some d)
  le : d ≤ min
  least : (x e : ℕ) → find m x ≡ some e → d ≤ e

abbrev chosen_min : ℕ → ℕ → ℕ
chosen_min min v = if ltb v min then v else min

abbrev chosen : ℕ → ℕ → ℕ → ℕ → ℕ
chosen min ret k v =
    if ltb v min
    then k
    else if v == min
    then (if ret == no_node || ltb k ret then k else ret)
    else ret

choice :
    (min ret k v : ℕ)
    → ((chosen_min min v ≡ v) × (chosen min ret k v ≡ k))
      ⊎ ((chosen_min min v ≡ min) × (chosen min ret k v ≡ ret))
choice min ret k v = ground arith

from_where_cons :
    (m : Map ℕ) (min ret k v min' ret' j d : ℕ)
    → Above k m
    → ((min' ≡ v) × (ret' ≡ k)) ⊎ ((min' ≡ min) × (ret' ≡ ret))
    → ((j ≡ ret') × (d ≡ min')) ⊎ (find m j ≡ some d)
    → ((j ≡ ret) × (d ≡ min)) ⊎ (find ((k, v) ∷ m) j ≡ some d)
unfolding find
from_where_cons m min ret k v min' ret' j d a (inl (p, q)) (inl (x, y)) =
    inr (rw (eq→== k j (omega arith)) (ap some (omega arith)))
from_where_cons m min ret k v min' ret' j d a (inr (p, q)) (inl (x, y)) =
    inl (omega arith, omega arith)
from_where_cons m min ret k v min' ret' j d a c (inr f) = elim (Bool-cases (k == j)) [
  | inl e ↦ absurd (cc (find-Above m k j a (omega (arith, ==→eq k j e)), f))
  | inr ne ↦ inr (rw ne f)
]

find_cons_le :
    (m : Map ℕ) (k v d x e : ℕ)
    → d ≤ v
    → ((x e : ℕ) → find m x ≡ some e → d ≤ e)
    → find ((k, v) ∷ m) x ≡ some e
    → d ≤ e
unfolding find
find_cons_le m k v d x e l h f = ground (arith, h x e)

not_in_nil : (x e : ℕ) → ¬ (find {V = ℕ} [] x ≡ some e)
unfolding find
not_in_nil x e h = cc h

find_head : (m : Map ℕ) (k v : ℕ) → find ((k, v) ∷ m) k ≡ some v
unfolding find
find_head m k v = rw (eq→== k k refl)

min_from_lem :
    (m : Map ℕ) (min ret : ℕ) → Ascending m → (d : ℕ) × IsLeast m min ret (min_from min ret m) d
min_from_lem [] min ret a =
    (min, record { from_where = inl (refl, refl); le = omega arith; least = find_nil })
  where
    find_nil : (x e : ℕ) → find [] x ≡ some e → min ≤ e
    find_nil x e h = absurd (not_in_nil x e h)
min_from_lem ((k, v) ∷ m) min ret a =
    let (d, r) = min_from_lem m (chosen_min min v) (chosen min ret k v) (Ascending-tail m k a) in
    let le_min : chosen_min min v ≤ min = ground arith in
    let le_v : chosen_min min v ≤ v = ground arith in
    (
      d,
      record {
        from_where =
            from_where_cons m min ret k v (chosen_min min v) (chosen min ret k v)
              (min_from (chosen_min min v) (chosen min ret k v) m) d a (choice min ret k v)
              r.from_where;
        le = omega (arith, r.le);
        least = λ x e. find_cons_le m k v d x e (omega (arith, r.le)) r.least;
      },
    )

-- With an entry, and none past INT_MAX, the result is the key of a least entry.
pub get_idx_of_min_cost_lem :
    (m : Map ℕ)
    → Ascending m
    → ((x e : ℕ) → find m x ≡ some e → e ≤ int_max)
    → 0 < length m
    → (d : ℕ) × (find m (get_idx_of_min_cost m) ≡ some d) × ((x e : ℕ) → find m x ≡ some e → d ≤ e)
unfolding get_idx_of_min_cost
get_idx_of_min_cost_lem [] a b h = absurd (omega arith)
get_idx_of_min_cost_lem ((k, v) ∷ m) a b h =
    let v_le = b k v (find_head m k v) in
    let (d, r) = min_from_lem m v k (Ascending-tail m k a) in
    let eq_min : chosen_min int_max v ≡ v = ground arith in
    let eq_ret : chosen int_max no_node k v ≡ k = ground arith in
    (
      d,
      rw (eq_min, eq_ret)
          (elim (from_where_cons m v k k v v k (min_from v k m) d a (inl (refl, refl))
            r.from_where) [
              | inl p ↦ ap (find ((k, v) ∷ m)) p.0 ∙ find_head m k v ∙ ap some (sym p.1)
              | inr f ↦ f
            ]),
      λ x e. find_cons_le m k v d x e r.le r.least,
    )
