-- ===== src/Routing/DistVec/Vectors.antt =====
-- What holds of a distance vector of mp3/src/distvec.cpp, and how it changes.
use networking_learning.Base.{
  ℕ, ◌+◌, ◌*◌, ◌≤◌, ◌<◌, ◌≡◌, ◌≢◌, ◌∙◌, refl, ◌⊎◌, inl, inr, true, false, Option, none, some, arith,
}
use networking_learning.Routing.Map.{Map, find, Ascending}
use networking_learning.Routing.LinkState.{Graph, is_some, int_max}
use networking_learning.Routing.LinkState.Table.{value_at, zero_id}
use networking_learning.Routing.LinkState.Hops.{IsNextHop}
use networking_learning.Routing.DistVec.{Vector}

abbrev pub far_of : Option ℕ → ℕ
far_of none = int_max
far_of (some d) = d

-- The distance in a vector; INT_MAX where there is none.
abbrev pub far : Map ℕ → ℕ → ℕ
far m x = far_of (find m x)

abbrev pub hop_of : Option ℕ → ℕ
hop_of none = zero_id
hop_of (some h) = h

pub value_at-find : (m : Map ℕ) (k : ℕ) → value_at m k ≡ hop_of (find m k)
unfolding value_at
value_at-find m k = refl

-- What a change lowers: the distance, or the next hop at the same distance.
abbrev pub rank : Vector → ℕ → ℕ
rank v x = far v.distance_to x * 4294967296 + hop_of (find v.forwarding_table x)

-- A vector of the node `u` of the graph `g`.
pub record IsVector (g : Graph) (u : ℕ) (v : Vector) : Type 0 where
  pub ascending : Ascending v.distance_to
  pub known : (x : ℕ) → is_some (find v.distance_to x) ≡ is_some (find g x)
  pub own : find v.distance_to u ≡ some 0
  pub bounded : (x d : ℕ) → find v.distance_to x ≡ some d → d ≤ int_max
  pub hop :
      (x d : ℕ)
      → x ≢ u
      → find v.distance_to x ≡ some d
      → d < int_max
      → (h : ℕ) × (find v.forwarding_table x ≡ some h) × IsNextHop g u h x d
  pub home : find v.forwarding_table u ≡ some u
  pub small : (x h : ℕ) → find v.forwarding_table x ≡ some h → h < 4294967296

-- From `v` to `w` no rank rises; a distance that becomes finite is at most `limit` of its node.
pub record Grows (g : Graph) (limit : ℕ → ℕ) (v w : Vector) : Type 0 where
  pub lower : (x : ℕ) → far w.distance_to x ≤ far v.distance_to x
  pub rank_le : (x : ℕ) → rank w x ≤ rank v x
  pub changed :
      w.is_changed ≡ true
      → (v.is_changed ≡ true) ⊎ ((x : ℕ) × (is_some (find g x) ≡ true) × (rank w x < rank v x))
  pub unchanged :
      w.is_changed ≡ false
      → (v.is_changed ≡ false) × ((x : ℕ) → far w.distance_to x ≡ far v.distance_to x)
  pub reach :
      (x : ℕ)
      → far w.distance_to x < int_max
      → (far v.distance_to x < int_max) ⊎ (far w.distance_to x ≤ limit x)

pub Grows-refl : (g : Graph) (limit : ℕ → ℕ) (v : Vector) → Grows g limit v v
Grows-refl g limit v = record {
  lower = λ x. omega arith;
  rank_le = λ x. omega arith;
  changed = λ c. inl c;
  unchanged = λ c. (c, λ x. refl);
  reach = λ x l. inl l;
}

pub Grows-trans :
    (g : Graph) (limit : ℕ → ℕ) (u v w : Vector)
    → Grows g limit u v
    → Grows g limit v w
    → Grows g limit u w
Grows-trans g limit u v w a b = record {
  lower = λ x. omega (arith, a.lower x, b.lower x);
  rank_le = λ x. omega (arith, a.rank_le x, b.rank_le x);
  changed = λ c. elim (b.changed c) [
    | inl d ↦ elim (a.changed d) [
      | inl e ↦ inl e
      | inr (x, i, l) ↦ inr (x, i, omega (arith, l, b.rank_le x))
    ]
    | inr (x, i, l) ↦ inr (x, i, omega (arith, l, a.rank_le x))
  ];
  unchanged = λ c. let (d, f) = b.unchanged c in let (e, h) = a.unchanged d in (e, λ x. f x ∙ h x);
  reach = λ x l. elim (b.reach x l) [
    | inl m ↦ elim (a.reach x m) [ inl n ↦ inl n | inr n ↦ inr (omega (arith, n, b.lower x)) ]
    | inr n ↦ inr n
  ];
}
