-- ===== src/Routing/LinkState/Improving.antt =====
-- One relaxation in the search of mp3/src/linkstate.cpp: it improves the neighbour or leaves it alone.
use networking_learning.Base.{
  ℕ, ◌≤◌, ◌≡◌, ◌⊎◌, inl, inr, false, ltb, ◌==◌, some, arith, Bool-cases, ==→eq, ltb→lt, ltb→le,
  le→ltb,
}
use networking_learning.Routing.Map.{Map, find, insert}
use networking_learning.Routing.LinkState.Table.{Search, relax, touch, value_at}

-- What a relaxation makes of a state: the neighbour gets the distance and the predecessor.
abbrev pub improved : ℕ → ℕ → ℕ → Search → Search
improved cur_id nei new_dist s = record s {
  prevs = insert nei cur_id s.prevs;
  distance_to_root = insert nei new_dist s.distance_to_root;
}

touch-found : (m : Map ℕ) (k v : ℕ) → find m k ≡ some v → touch m k ≡ m
unfolding touch
touch-found m k v e = rw e

-- The neighbour is improved or left alone; at a tie it has a predecessor.
pub relax_cases :
    (cur_id nei old_dist new_dist : ℕ) (s : Search)
    → (new_dist ≡ old_dist → (p : ℕ) × (find s.prevs nei ≡ some p))
    → ((relax cur_id nei old_dist new_dist s ≡ improved cur_id nei new_dist s)
        × (new_dist ≤ old_dist))
      ⊎ ((relax cur_id nei old_dist new_dist s ≡ s) × (old_dist ≤ new_dist))
unfolding relax
relax_cases cur_id nei old_dist new_dist s f = elim (Bool-cases (new_dist == old_dist)) [
  | inr ne ↦ elim (Bool-cases (ltb new_dist old_dist)) [
    | inl lt ↦ inl (rw (ne, lt), omega (arith, ltb→lt new_dist old_dist lt))
    | inr ge ↦ inr (rw (ne, ge), ltb→le new_dist old_dist ge)
  ]
  | inl e ↦
      let eq = ==→eq new_dist old_dist e in
      let (p, g) = f eq in
      let lt : ltb new_dist old_dist ≡ false = le→ltb new_dist old_dist (omega arith) in
      elim (Bool-cases (ltb cur_id (value_at s.prevs nei))) [
        | inl smaller ↦ inl (rw (e, lt, smaller, touch-found s.prevs nei p g), omega arith)
        | inr other ↦ inr (rw (e, lt, other, touch-found s.prevs nei p g), omega arith)
      ]
]

pub relax-record_dist :
    (cur_id nei old_dist new_dist : ℕ) (s : Search)
    → (relax cur_id nei old_dist new_dist s).record_dist ≡ s.record_dist
unfolding relax
relax-record_dist cur_id nei old_dist new_dist s = ground arith

pub relax-visited :
    (cur_id nei old_dist new_dist : ℕ) (s : Search)
    → (relax cur_id nei old_dist new_dist s).visited ≡ s.visited
unfolding relax
relax-visited cur_id nei old_dist new_dist s = ground arith
