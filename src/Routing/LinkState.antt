-- ===== src/Routing/LinkState.antt =====
-- The class Node and the graph of mp3/src/linkstate.cpp.
pub mod Table
pub mod Paths
pub mod Nearest
pub mod Invariant
pub mod Improving
pub mod Relaxing
pub mod Neighbours
pub mod Reaching
pub mod Visiting
pub mod Distances
pub mod Hops
pub mod Filling
pub mod Routes
pub mod Edges
pub mod Graphs
pub mod State
pub mod Same
pub mod WayBack
pub mod Keeping
pub mod Network
pub mod Topology
pub mod Printing
pub mod Output
use networking_learning.Base.{
  ℕ, zero, suc, ◌==◌, ltb, if◌then◌else◌, Bool, true, false, List, [], ◌∷◌, ◌++◌, Proc, done, fault,
  ◌>>=◌, Option, none, some,
}
use networking_learning.Http.CString.{ℤ, pos, negsuc}
use networking_learning.Routing.Map.{Map, find, insert, erase}
use networking_learning.Routing.Line.{read_line}

-- INT_MAX
abbrev pub int_max : ℕ
int_max = 2147483647

pub record Node : Type 0 where
  pub id : ℕ
  pub neibours : List ℕ
  pub edges : Map ℕ
  pub forwarding_table : Map ℕ

unfoldable pub new_node : ℕ → Node
unfolding insert
new_node id = record { id = id; neibours = []; edges = []; forwarding_table = insert id id [] }

-- `find` on a vector.
abbrev pub contains : ℕ → List ℕ → Bool
contains a [] = false
contains a (b ∷ l) = let rest = contains a l in if b == a then true else rest

-- `erase` of the first occurrence, if there is one.
abbrev pub erase_first : ℕ → List ℕ → List ℕ
erase_first a [] = []
erase_first a (b ∷ l) = let rest = erase_first a l in if b == a then l else b ∷ rest

abbrev pub is_some {ℓ} : {A : Type ℓ} → Option A → Bool
is_some none = false
is_some (some a) = true

unfoldable pub remove_nei : Node → ℕ → Node
remove_nei n nei_id =
    if is_some (find n.edges nei_id)
    then record n { neibours = erase_first nei_id n.neibours; edges = erase nei_id n.edges }
    else n

unfoldable pub add_or_update_nei : Node → ℕ → ℕ → Node
add_or_update_nei n nei_id edge_cost = record n {
  neibours = if is_some (find n.edges nei_id) then n.neibours else n.neibours ++ nei_id ∷ [];
  edges = insert nei_id edge_cost n.edges;
}

-- The value at `find(k)->second`; past the end it is undefined.
abbrev pub at_find {ℓ} : {A : Type ℓ} → Option A → Proc A
at_find none = fault
at_find (some a) = done a

unfoldable pub forwarding_hop : Node → ℕ → Proc ℕ
forwarding_hop n dest_id = at_find (find n.forwarding_table dest_id)

unfoldable pub get_edge_cost : Node → ℕ → Proc ℕ
get_edge_cost n nei_id = at_find (find n.edges nei_id)

abbrev pub Graph : Type 0
Graph = Map Node

-- A node's side of a line: `dist > 0` is an edge, anything else removes it.
unfoldable pub change_nei : Node → ℕ → ℤ → Node
change_nei n nei_id (negsuc k) = remove_nei n nei_id
change_nei n nei_id (pos zero) = remove_nei n nei_id
change_nei n nei_id (pos (suc k)) = add_or_update_nei n nei_id (suc k)

-- The node is created where it is missing; a new node has no edge to remove.
unfoldable pub change_side : Graph → ℕ → ℕ → ℤ → Graph
change_side g node nei dist = elim (find g node) [
  | some n ↦ insert node (change_nei n nei dist) g
  | none ↦
      insert node
        (elim dist [
          | pos zero ↦ new_node node
          | pos (suc k) ↦ add_or_update_nei (new_node node) nei (suc k)
          | negsuc k ↦ new_node node
        ])
        g
]

-- `build_graph` once its line is read.
unfoldable pub change_edge : Graph → ℕ → ℕ → ℤ → Graph
unfolding change_side
change_edge g node1 node2 dist = change_side (change_side g node1 node2 dist) node2 node1 dist

unfoldable pub build_graph : List ℕ → Graph → Proc Graph
unfolding read_line change_edge
build_graph input g = read_line input >>= λ l. done (change_edge g l.0 l.1 l.2)
