-- ===== src/Routing/DistVec/Printing.antt =====
-- `next_hops` of mp3/src/distvec.cpp, on the network that the rounds leave.
use networking_learning.Base.{
  ℕ, zero, suc, ◌+◌, ◌≤◌, ◌<◌, ◌≡◌, ◌≢◌, ◌∙◌, ap, sym, refl, inl, inr, true, List, [], ◌∷◌, ◌++◌,
  some, arith, done, eq_or_ne, eq→==, ne→==,
}
use networking_learning.Routing.Map.{find, Option-cases}
use networking_learning.Routing.LinkState.{Graph, is_some, int_max}
use networking_learning.Routing.LinkState.Paths.{
  cost, cost_in, Walk, here, step, IsDistance, IsGraph,
}
use networking_learning.Routing.LinkState.Hops.{Walk-cons}
use networking_learning.Routing.DistVec.{Router, Network}
use networking_learning.Routing.DistVec.Vectors.{value_at-find}
use networking_learning.Routing.DistVec.Views.{find-view, node_of}
use networking_learning.Routing.DistVec.Learning.{IsLearned}
use networking_learning.Routing.DistVec.Output.{hops_loop, next_hops}

-- The nodes of a way from `u` to `x` of the cost `d`, without `x`.
abbrev pub IsWay : Graph → ℕ → ℕ → List ℕ → ℕ → Type 0
IsWay g x u [] d = (u ≡ x) × (d ≡ 0)
IsWay g x u (h ∷ hops) d =
    (h ≡ u) × (v w e : ℕ) × (cost g u v ≡ some w) × (w + e ≡ d) × IsWay g x v hops e

-- The body of the loop, where the entry is there.
pub hops_loop-last :
    (fuel : ℕ) (h : Network) (k : ℕ) (r s : Router) (to v : ℕ) (res : List ℕ)
    → find r.node.forwarding_table to ≡ some v
    → find h v ≡ some s
    → s.node.id ≡ to
    → hops_loop (suc fuel) h k r to res ≡ done (h, res ++ r.node.id ∷ [])
unfolding hops_loop
hops_loop-last fuel h k r s to v res f fs q =
    rw (value_at-find r.node.forwarding_table to, f, fs, eq→== s.node.id to q) refl

hops_loop-more :
    (fuel : ℕ) (h : Network) (k : ℕ) (r s : Router) (to v : ℕ) (res : List ℕ)
    → find r.node.forwarding_table to ≡ some v
    → find h v ≡ some s
    → s.node.id ≢ to
    → hops_loop (suc fuel) h k r to res ≡ hops_loop fuel h v s to (res ++ r.node.id ∷ [])
unfolding hops_loop
hops_loop-more fuel h k r s to v res f fs ne =
    rw (value_at-find r.node.forwarding_table to, f, fs, ne→== s.node.id to ne) refl

append_one : (res : List ℕ) (a : ℕ) (l : List ℕ) → (res ++ a ∷ []) ++ l ≡ res ++ a ∷ l
append_one [] a l = refl
append_one (b ∷ res) a l = ap (λ m. b ∷ m) (append_one res a l)

module _ (g : Graph) (valid : IsGraph g) (h : Network) (learned : IsLearned g h) where
  pub router_id : (u : ℕ) (r : Router) → find h u ≡ some r → r.node.id ≡ u
  router_id u r f = let graph = learned.graph in graph.id_is u r.node (find-view h u ∙ ap node_of f)

  router_at : (u v w : ℕ) → cost g u v ≡ some w → (s : Router) × (find h v ≡ some s)
  router_at u v w k = elim (Option-cases (find h v)) [
    | inr e ↦ e
    | inl f ↦ elim (Option-cases (find g v)) [
      | inl z ↦ absurd (cc (sym (valid.mutual_ends v u) ∙ ap (λ o. cost_in o u) z, k))
      | inr (n, z) ↦ absurd (cc (sym (learned.nodes v) ∙ ap is_some f, ap is_some z))
    ]
  ]

  walk_end : (v x e : ℕ) → is_some (find g v) ≡ true → Walk g v x e → is_some (find g x) ≡ true
  walk_end v x e i (here y d p q) = ap (λ z. is_some (find g z)) p ∙ i
  walk_end v x e i (step {x = a} walk y w k' k sum) = elim (Option-cases (find g y)) [
    | inl z ↦ absurd (cc (sym (valid.mutual_ends y a) ∙ ap (λ o. cost_in o a) z, k))
    | inr (n, z) ↦ ap is_some z
  ]

  -- The rest of a shortest way is a shortest way.
  rest_of :
      (u x d v w e : ℕ) (s : Router)
      → IsDistance g u x d
      → d < int_max
      → cost g u v ≡ some w
      → Walk g v x e
      → w + e ≡ d
      → find h v ≡ some s
      → find s.distance_to x ≡ some e
  rest_of u x d v w e s v_d less k walk sum fs =
      let informed = learned.informed v s fs in
      let (a, fa, la) =
        informed.complete x (walk_end v x e (sym (learned.nodes v) ∙ ap is_some fs) walk) in
      elim (eq_or_ne a int_max) [
        | inl q ↦ absurd (informed.unreached x e (fa ∙ ap some q) walk)
        | inr ne ↦
            let near = informed.reached x a fa (omega (arith, ne, la)) in
            let low = v_d.least (w + a) (Walk-cons g u v x w a k near.walk) in
            let same : a ≡ e = omega (arith, near.least e walk, low, sum) in fa ∙ ap some same
      ]

  hops_loop_lem :
      (fuel u x d : ℕ) (r : Router) (res : List ℕ)
      → find h u ≡ some r
      → u ≢ x
      → find r.distance_to x ≡ some d
      → d < int_max
      → d ≤ fuel
      → (hops : List ℕ) × (hops_loop fuel h u r x res ≡ done (h, res ++ hops)) × IsWay g x u hops d
  hops_loop_lem zero u x d r res f ne fd less le =
      let informed = learned.informed u r f in
      let (v, fv, hop) = informed.next_hop x d (λ q. ne (sym q)) fd less in
      let positive = valid.positive u v hop.edge hop.is_edge in
      absurd (omega (arith, positive, hop.sum, le))
  hops_loop_lem (suc fuel) u x d r res f ne fd less le =
      let informed = learned.informed u r f in
      let least = informed.reached x d fd less in
      let (v, fv, hop) = informed.next_hop x d (λ q. ne (sym q)) fd less in
      let (s, fs) = router_at u v hop.edge hop.is_edge in
      let positive = valid.positive u v hop.edge hop.is_edge in
      elim (eq_or_ne v x) [
        | inl q ↦
            let low =
              least.least (hop.edge + 0)
                (Walk-cons g u v x hop.edge 0 hop.is_edge (here x 0 (sym q) refl)) in
            (
              u ∷ [],
              hops_loop-last fuel h u r s x v res fv fs (router_id v s fs ∙ q)
                  ∙ ap (λ i. done (h, res ++ i ∷ [])) (router_id u r f),
              (refl, v, hop.edge, 0, hop.is_edge, omega (arith, low, hop.sum), (q, refl)),
            )
        | inr other ↦
            let rest =
              rest_of u x d v hop.edge hop.rest s least less hop.is_edge hop.walk hop.sum fs in
            let (hops, run, way) =
              hops_loop_lem fuel v x hop.rest s (res ++ r.node.id ∷ []) fs other rest
                (omega (arith, less, hop.sum)) (omega (arith, positive, hop.sum, le)) in
            (
              u ∷ hops,
              hops_loop-more fuel h u r s x v res fv fs (λ z. other (sym (router_id v s fs) ∙ z))
                  ∙ run
                  ∙ ap (λ l. done (h, l))
                      (append_one res r.node.id hops ∙ ap (λ i. res ++ i ∷ hops) (router_id u r f)),
              (refl, v, hop.edge, hop.rest, hop.is_edge, hop.sum, way),
            )
      ]

-- On the network that the rounds leave over a well-formed graph, between different nodes with a finite
-- distance, `next_hops` returns the nodes of a shortest way, without the last, and changes nothing.
pub next_hops_lem :
    (g : Graph) (h : Network) (u x d : ℕ) (r : Router)
    → IsGraph g
    → IsLearned g h
    → find h u ≡ some r
    → u ≢ x
    → find r.distance_to x ≡ some d
    → d < int_max
    → (hops : List ℕ) × (next_hops h u x ≡ done (h, hops)) × IsWay g x u hops d × IsDistance g u x d
unfolding next_hops
next_hops_lem g h u x d r valid learned f ne fd less =
    let (hops, run, way) =
      hops_loop_lem g valid h learned int_max u x d r [] f ne fd less (omega (arith, less)) in
    let informed = learned.informed u r f in (hops, rw f run, way, informed.reached x d fd less)
