-- ===== src/Routing/LinkState/Topology.antt =====
-- The lines of the topology of mp3/src/linkstate.cpp, read one by one.
use networking_learning.Base.{
  ℕ, ◌≡◌, ◌∙◌, ap, refl, ◌==◌, ◌&&◌, ◌||◌, if◌then◌else◌, List, [], ◌∷◌, Option, none, done, ◌>>=◌,
}
use networking_learning.Http.CString.{ℤ}
use networking_learning.Routing.Map.{find_nil}
use networking_learning.Routing.Line.{read_line}
use networking_learning.Routing.LinkState.{Node, Graph, build_graph, change_edge}
use networking_learning.Routing.LinkState.State.{LinkState, empty, add_line}
use networking_learning.Routing.LinkState.Output.{read_topology}
use networking_learning.Routing.LinkState.Paths.{cost, cost_in, IsGraph}
use networking_learning.Routing.LinkState.Edges.{wanted}
use networking_learning.Routing.LinkState.Graphs.{
  change_edge-cost, change_edge-IsGraph, empty-IsGraph,
}

-- Each line has its two nodes and its number.
abbrev pub Reads : List (List ℕ) → List (ℕ × ℕ × ℤ) → Type 0
Reads [] [] = Unit
Reads (line ∷ lines) (l ∷ ls) = (read_line line ≡ done l) × Reads lines ls
Reads [] (l ∷ ls) = ⊥
Reads (line ∷ lines) [] = ⊥

-- The cost between two nodes: the last line that names both decides, and `c` where none does.
abbrev pub last_cost : List (ℕ × ℕ × ℤ) → ℕ → ℕ → Option ℕ → Option ℕ
last_cost [] x y c = c
last_cost ((a, b, d) ∷ ls) x y c =
    last_cost ls x y (if (a == x && b == y) || (b == x && a == y) then wanted d else c)

build_graph_run :
    (line : List ℕ) (g : Graph) (a b : ℕ) (d : ℤ)
    → read_line line ≡ done (a, b, d)
    → build_graph line g ≡ done (change_edge g a b d)
unfolding build_graph
build_graph_run line g a b d e = rw e refl

add_line_run :
    (line : List ℕ) (ls : LinkState) (g : Graph)
    → build_graph line ls.graph ≡ done g
    → add_line line ls ≡ done (record ls { graph = g })
unfolding add_line
add_line_run line ls g e = rw e refl

read_topology_from :
    (lines : List (List ℕ)) (edges : List (ℕ × ℕ × ℤ)) (ls : LinkState)
    → Reads lines edges
    → IsGraph ls.graph
    → (ls' : LinkState) × (read_topology lines ls ≡ done ls')
      × IsGraph ls'.graph
      × ((x y : ℕ) → cost ls'.graph x y ≡ last_cost edges x y (cost ls.graph x y))
unfolding read_topology
read_topology_from [] [] ls r v = (ls, refl, v, λ x y. refl)
read_topology_from [] (l ∷ edges) ls r v = absurd r
read_topology_from (line ∷ lines) [] ls r v = absurd r
read_topology_from (line ∷ lines) ((a, b, d) ∷ edges) ls (r, rs) v =
    let g = change_edge ls.graph a b d in
    let run = add_line_run line ls g (build_graph_run line ls.graph a b d r) in
    let (ls', run', v', costs) =
      read_topology_from lines edges (record ls { graph = g }) rs
        (change_edge-IsGraph ls.graph a b d v) in
    (
      ls',
      ap (λ p. p >>= read_topology lines) run ∙ run',
      v',
      λ x y. costs x y ∙ ap (last_cost edges x y) (change_edge-cost ls.graph a b d x y),
    )

-- If every line is read, so is the topology; the graph is well-formed, and the last line that names
-- two nodes decides the cost between them, in both directions.
pub read_topology_lem :
    (lines : List (List ℕ)) (edges : List (ℕ × ℕ × ℤ))
    → Reads lines edges
    → (ls : LinkState) × (read_topology lines empty ≡ done ls)
      × IsGraph ls.graph
      × ((x y : ℕ) → cost ls.graph x y ≡ last_cost edges x y none)
unfolding empty
read_topology_lem lines edges r =
    let (ls, run, v, costs) = read_topology_from lines edges empty r empty-IsGraph in
    (
      ls,
      run,
      v,
      λ x y. costs x y ∙ ap (λ o. last_cost edges x y (cost_in o y)) (find_nil {V = Node} x),
    )
