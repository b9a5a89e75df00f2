-- ===== src/Routing/DistVec/Learning.antt =====
-- mp3/src/distvec.cpp after a line and the rounds: what its nodes know, and that it is what
-- mp3/src/linkstate.cpp computes.
use networking_learning.Base.{
  ℕ, ◌*◌, ◌≤◌, ◌<◌, ◌≡◌, ◌∙◌, ap, subst, sym, inl, inr, true, length, none, some, arith, done,
  eq_or_ne,
}
use networking_learning.Http.CString.{ℤ}
use networking_learning.Routing.Map.{find, Option-cases}
use networking_learning.Routing.Line.{no_node}
use networking_learning.Routing.LinkState
use networking_learning.Routing.LinkState.{Node, Graph, is_some, contains, int_max}
use networking_learning.Routing.LinkState.Table.{Tables, build_forwarding_table}
use networking_learning.Routing.LinkState.Paths.{cost, IsGraph, Fits}
use networking_learning.Routing.LinkState.Routes.{IsRouted, build_forwarding_table_lem}
use networking_learning.Routing.LinkState.Graphs.{change_edge-IsGraph}
use networking_learning.Routing.DistVec.{
  Router, Network, change_edge, build_nodes_forwarding_tables,
}
use networking_learning.Routing.DistVec.Optimal.{IsInformed, settled-IsInformed}
use networking_learning.Routing.DistVec.Views.{view}
use networking_learning.Routing.DistVec.Starting.{IsBase}
use networking_learning.Routing.DistVec.Settled.{
  change_edge-IsSettled, settled-Fits, settled-IsBase, settled-IsGraph, settled-cost,
}

-- What the rounds leave: every node of the graph `g` is there and informed, the edges are those of `g`,
-- and the next line can change the network.
pub record IsLearned (g : Graph) (h : Network) : Type 0 where
  pub nodes : (x : ℕ) → is_some (find h x) ≡ is_some (find g x)
  pub informed : (u : ℕ) (r : Router) → find h u ≡ some r → IsInformed g u r
  pub edges : (x y : ℕ) → cost (view h) x y ≡ cost g x y
  pub graph : IsGraph (view h)
  pub base : IsBase h

-- A line changes the graph under the network as `change_edge` of link state routing does. From a
-- network as lines and rounds leave it, with ids of 32 bits, and with c * n below INT_MAX for n nodes
-- and costs of at most `c`, the rounds end; then every node knows its distance to every node of that
-- graph, INT_MAX exactly where no walk leads, and a first hop of a shortest way, and the network is
-- again as lines and rounds leave it.
pub build_lem :
    (net : Network) (a b : ℕ) (d : ℤ) (c : ℕ)
    → IsBase net
    → IsGraph (view net)
    → a < 4294967296
    → b < 4294967296
    → ((x y w : ℕ) → cost (LinkState.change_edge (view net) a b d) x y ≡ some w → w ≤ c)
    → c * length (change_edge net a b d) < int_max
    → (h : Network) × (build_nodes_forwarding_tables (change_edge net a b d) ≡ done h)
      × IsLearned (LinkState.change_edge (view net) a b d) h
build_lem net a b d c base valid la lb costs fits =
    let g = LinkState.change_edge (view net) a b d in
    let is_graph = change_edge-IsGraph (view net) a b d valid in
    let (h, run, settled) = change_edge-IsSettled net a b d c base valid la lb costs fits in
    (
      h,
      run,
      record {
        nodes = settled.nodes;
        informed = settled-IsInformed g is_graph c costs h settled;
        edges = settled-cost g is_graph c h settled;
        graph = settled-IsGraph g is_graph c h settled;
        base = settled-IsBase g is_graph c h settled;
      },
    )

-- The distances of both programs are the same.
agree :
    (g : Graph) (u : ℕ) (t : Tables) (r : Router)
    → IsRouted g u t
    → IsInformed g u r
    → (x : ℕ) → is_some (find g x) ≡ true
    → find t.distance x ≡ find r.distance_to x
agree g u t r routed informed x i =
    let (d, fd, ld) = routed.complete x i in
    let (e, fe, le) = informed.complete x i in fd ∙ ap some (same d e fd ld fe le) ∙ sym fe
  where
    same :
        (d e : ℕ)
        → find t.distance x ≡ some d
        → d ≤ int_max
        → find r.distance_to x ≡ some e
        → e ≤ int_max
        → d ≡ e
    same d e fd ld fe le = elim (eq_or_ne d int_max) [
      | inl p ↦ elim (eq_or_ne e int_max) [
        | inl q ↦ p ∙ sym q
        | inr q ↦
            let near = informed.reached x e fe (omega (arith, q, le)) in
            absurd (routed.unreached x e (fd ∙ ap some p) near.walk)
      ]
      | inr p ↦
          let near = routed.reached x d fd (omega (arith, p, ld)) in
          elim (eq_or_ne e int_max) [
            | inl q ↦ absurd (informed.unreached x d (fe ∙ ap some q) near.walk)
            | inr q ↦
                let close = informed.reached x e fe (omega (arith, q, le)) in
                omega (arith, near.least e close.walk, close.least d near.walk)
          ]
    ]

-- From a network as lines and rounds leave it, with ids of 32 bits, no node called -1, and c * n below
-- INT_MAX for n nodes and costs of at most `c`: after the same line, the rounds of distance vector
-- routing and the search of link state routing from any node both return, and the distances from that
-- node to every node are the same.
pub distances_agree :
    (net : Network) (a b : ℕ) (d : ℤ) (c : ℕ)
    → IsBase net
    → IsGraph (view net)
    → a < 4294967296
    → b < 4294967296
    → ((x y w : ℕ) → cost (LinkState.change_edge (view net) a b d) x y ≡ some w → w ≤ c)
    → c * length (change_edge net a b d) < int_max
    → find (LinkState.change_edge (view net) a b d) no_node ≡ none
    → (h : Network) × (build_nodes_forwarding_tables (change_edge net a b d) ≡ done h)
      × ((u : ℕ) (n : Node)
          → find (LinkState.change_edge (view net) a b d) u ≡ some n
          → (t : Tables) × (r : Router) × (build_forwarding_table
                (LinkState.change_edge (view net) a b d)
                n
              ≡ done t)
            × (find h u ≡ some r)
            × ((x : ℕ)
                → is_some (find (LinkState.change_edge (view net) a b d) x) ≡ true
                → find t.distance x ≡ find r.distance_to x))
distances_agree net a b d c base valid la lb costs fits no_minus =
    let g = LinkState.change_edge (view net) a b d in
    let is_graph = change_edge-IsGraph (view net) a b d valid in
    let (h, run, settled) = change_edge-IsSettled net a b d c base valid la lb costs fits in
    (
      h,
      run,
      λ u n f.
          let is_id = is_graph.id_is u n f in
          let sums =
            subst (Fits g) (sym is_id)
              (settled-Fits g is_graph c h settled costs u (ap is_some f)) in
          let (t, run_t, routed) =
            build_forwarding_table_lem g n is_graph (ap (find g) is_id ∙ f) no_minus sums in
          elim (Option-cases (find h u)) [
            | inl z ↦ absurd (cc (settled.nodes u, ap is_some z, ap is_some f))
            | inr (r, z) ↦ (
              t,
              r,
              run_t,
              z,
              agree g u t r (subst (λ v. IsRouted g v t) is_id routed)
                  (settled-IsInformed g is_graph c costs h settled u r z),
            )
          ],
    )
