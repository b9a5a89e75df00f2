-- ===== src/Routing/LinkState/Routes.antt =====
-- What `build_forwarding_table` of mp3/src/linkstate.cpp leaves for a node: the distances from it, and
-- the first hops of shortest ways.
use networking_learning.Base.{
  ℕ, ◌+◌, ◌≤◌, ◌<◌, ◌≡◌, ◌≢◌, ◌∙◌, refl, inl, inr, true, length, none, some, arith, done,
}
use networking_learning.Routing.Map.{find}
use networking_learning.Routing.Line.{no_node}
use networking_learning.Routing.LinkState.{Node, Graph, is_some, int_max}
use networking_learning.Routing.LinkState.Table.{init_search, Tables, build_forwarding_table}
use networking_learning.Routing.LinkState.Paths.{cost, Walk, IsDistance, IsGraph, Fits}
use networking_learning.Routing.LinkState.Distances.{search_lem, init-IsSearch}
use networking_learning.Routing.LinkState.Hops.{IsNextHop}
use networking_learning.Routing.LinkState.Filling.{recorded, fill_table_lem}

module _ (g : Graph) (root : ℕ) where
  -- Every node has an entry in the distances: its distance from the root, or INT_MAX where no walk
  -- leads to it. The table has the first hop of a shortest way to each node in reach, -1 for the
  -- others, and the root for itself. The predecessors lead back.
  pub record IsRouted (t : Tables) : Type 0 where
    pub complete :
        (x : ℕ) → is_some (find g x) ≡ true → (d : ℕ) × (find t.distance x ≡ some d) × (d ≤ int_max)
    pub reached : (x d : ℕ) → find t.distance x ≡ some d → d < int_max → IsDistance g root x d
    pub unreached : (x e : ℕ) → find t.distance x ≡ some int_max → ¬ Walk g root x e
    pub next_hop :
        (x d : ℕ)
        → x ≢ root
        → find t.distance x ≡ some d
        → d < int_max
        → (h : ℕ) × (find t.node.forwarding_table x ≡ some h) × IsNextHop g root h x d
    pub no_hop :
        (x : ℕ) → find t.distance x ≡ some int_max → find t.node.forwarding_table x ≡ some no_node
    pub self : find t.node.forwarding_table root ≡ some root
    pub back :
        (x d : ℕ)
        → x ≢ root
        → find t.distance x ≡ some d
        → d < int_max
        → (p a w : ℕ) × (find t.prevs x ≡ some p)
          × (find t.distance p ≡ some a)
          × (a < int_max)
          × (cost g p x ≡ some w)
          × (a + w ≡ d)

-- For a node of a well-formed graph with no node called -1 and no sum of a distance and a cost that
-- reaches INT_MAX, `build_forwarding_table` returns, and what it leaves is what the record above says.
pub build_forwarding_table_lem :
    (g : Graph) (n : Node)
    → IsGraph g
    → find g n.id ≡ some n
    → find g no_node ≡ none
    → Fits g n.id
    → (t : Tables) × (build_forwarding_table g n ≡ done t) × IsRouted g n.id t
unfolding build_forwarding_table
build_forwarding_table_lem g n valid node no_minus fits =
    let (s, run, cv, end) =
      search_lem g n.id valid fits (length g) n.id (init_search g n) (init-IsSearch g valid n node)
        (omega arith) in
    let v = cv.1 in
    let (table, filled, f) =
      fill_table_lem g n.id valid no_minus cv.0 s v end g s.forwarding_table valid.ascending
        (λ x h. h) in
    let t : Tables = record {
      node = record n { forwarding_table = table };
      distance = s.record_dist;
      prevs = s.prevs;
    } in
    (
      t,
      rw (run, filled) refl,
      record {
        complete = recorded g n.id valid no_minus cv.0 s v end;
        reached = v.near;
        unreached = v.far;
        next_hop = λ x d ne r l. f.hops x d (let (a, b) = v.seen_node x d r in a) ne r l;
        no_hop = λ x r. f.others x (inr (inr r)) ∙ v.table_far x r;
        self = f.others n.id (inr (inl refl)) ∙ v.table_root;
        back = λ x d ne r l.
            let (p, b) = v.before x d ne (inr r) l in
            (p, b.dist, b.edge, b.found, b.reached, b.finite, b.is_edge, b.sum);
      },
    )
