-- ===== src/Routing/DistVec/Optimal.antt =====
-- A settled network of mp3/src/distvec.cpp knows the distances of the graph.
use networking_learning.Base.{ℕ, ◌+◌, ◌≤◌, ◌<◌, ◌≡◌, ◌≢◌, ◌∙◌, ap, sym, inl, inr, true, some, arith}
use networking_learning.Routing.Map.{find, some_inj, Option-cases}
use networking_learning.Routing.LinkState.{Graph, is_some, int_max}
use networking_learning.Routing.LinkState.Paths.{
  cost, cost_in, Walk, here, step, IsDistance, IsGraph,
}
use networking_learning.Routing.LinkState.Hops.{IsNextHop}
use networking_learning.Routing.DistVec.{Router, Network, start_vector}
use networking_learning.Routing.DistVec.Vectors.{far, far_of}
use networking_learning.Routing.DistVec.Networks.{vector-Walk}
use networking_learning.Routing.DistVec.Rounds.{IsSettled}

-- What a node of the settled network knows: its distance to every node, INT_MAX exactly where no walk
-- leads, and the first hop of a shortest way to each node in reach.
pub record IsInformed (g : Graph) (u : ℕ) (r : Router) : Type 0 where
  pub complete :
      (x : ℕ)
      → is_some (find g x) ≡ true
      → (d : ℕ) × (find r.distance_to x ≡ some d) × (d ≤ int_max)
  pub reached : (x d : ℕ) → find r.distance_to x ≡ some d → d < int_max → IsDistance g u x d
  pub unreached : (x e : ℕ) → find r.distance_to x ≡ some int_max → ¬ Walk g u x e
  pub next_hop :
      (x d : ℕ)
      → x ≢ u
      → find r.distance_to x ≡ some d
      → d < int_max
      → (h : ℕ) × (find r.node.forwarding_table x ≡ some h) × IsNextHop g u h x d

module _ (g : Graph) (valid : IsGraph g) (c : ℕ) (costs : (x y w : ℕ) → cost g x y ≡ some w → w ≤ c)
    (net : Network) (settled : IsSettled g c net) where
  router_of : (u : ℕ) → is_some (find g u) ≡ true → (r : Router) × (find net u ≡ some r)
  router_of u i = elim (Option-cases (find net u)) [
    | inl f ↦ absurd (cc (i, settled.nodes u, ap is_some f))
    | inr (r, f) ↦ (r, f)
  ]

  edge_start : (a y w : ℕ) → cost g a y ≡ some w → is_some (find g a) ≡ true
  edge_start a y w k = elim (Option-cases (find g a)) [
    | inr (n, f) ↦ ap is_some f
    | inl f ↦ absurd (cc (k, ap (λ o. cost_in o y) f))
  ]

  walk_end : (u x e : ℕ) → is_some (find g u) ≡ true → Walk g u x e → is_some (find g x) ≡ true
  walk_end u x e i (here y d p q) = ap (λ z. is_some (find g z)) p ∙ i
  walk_end u x e i (step {x = a} walk y w k' k sum) = edge_start y a w (valid.mutual_ends y a ∙ k)

  -- Along a walk from `u` to `x`, the distance from `u` grows by at most its cost.
  walk_bound :
      (u x e z : ℕ) (r s : Router)
      → Walk g u x e
      → find net u ≡ some r
      → find net x ≡ some s
      → far s.distance_to z < int_max
      → (far r.distance_to z < int_max) × (far r.distance_to z ≤ e + far s.distance_to z)
  walk_bound u x e z r s (here y d p q) fr fs less =
      let same : r ≡ s = some_inj (sym fr ∙ ap (find net) (sym p) ∙ fs) in
      let same_far = ap (λ (t : Router). far t.distance_to z) same in
      (omega (arith, same_far, less), omega (arith, same_far))
  walk_bound u x e z r s (step {x = a} {d = b} walk y w k' k sum) fr fs less =
      let (t, ft) = router_of a (edge_start a y w k) in
      let near = settled.relaxed a y w z t s ft fs k less in
      let room = settled.room y z s fs less in
      let small = costs a y w k in
      let (l, bound) = walk_bound u a b z r t walk fr ft (omega (arith, near, room, small)) in
      (l, omega (arith, bound, near, sum))

  least_of :
      (u x e : ℕ) (r : Router)
      → find net u ≡ some r
      → Walk g u x e
      → (far r.distance_to x < int_max) × (far r.distance_to x ≤ e)
  least_of u x e r f walk =
      let (s, fs) = router_of x (walk_end u x e (sym (settled.nodes u) ∙ ap is_some f) walk) in
      let is_s = settled.router x s fs in
      let vector = is_s.vector in
      let home : far s.distance_to x ≡ 0 = ap far_of vector.own in
      let (a, b) = walk_bound u x e x r s walk f fs (omega (arith, home)) in
      (a, omega (arith, b, home))

  pub settled-IsInformed : (u : ℕ) (r : Router) → find net u ≡ some r → IsInformed g u r
  settled-IsInformed u r f =
      let is_r = settled.router u r f in
      let vector = is_r.vector in
      record {
        complete = λ x i. elim (Option-cases (find r.distance_to x)) [
          | inl fd ↦ absurd (cc (i, vector.known x))
          | inr (d, fd) ↦ (d, fd, vector.bounded x d fd)
        ];
        reached = λ x d fd l. record {
          walk = vector-Walk g u (start_vector r) vector x d fd l;
          least = λ e w. let (a, b) = least_of u x e r f w in omega (arith, b, ap far_of fd);
        };
        unreached = λ x e fd w. let (a, b) = least_of u x e r f w in omega (arith, a, ap far_of fd);
        next_hop = vector.hop;
      }
