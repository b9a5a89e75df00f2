-- ===== src/Routing/LinkState/Table.antt =====
-- `build_forwarding_table` of mp3/src/linkstate.cpp: Dijkstra's algorithm from one node, and the next
-- hops from it.
use networking_learning.Base.{
  ℕ, zero, suc, ◌+◌, ◌==◌, ◌&&◌, ◌||◌, not, ltb, if◌then◌else◌, true, false, List, [], ◌∷◌, length,
  Proc, done, fault, blocked, ◌>>=◌, none, some,
}
use networking_learning.Routing.Map.{Map, find, insert, erase}
use networking_learning.Routing.Line.{no_node}
use networking_learning.Routing.LinkState.{Node, Graph, int_max, at_find, get_edge_cost, is_some}

-- `min` and `ret` of `get_idx_of_min_cost`, over the entries that are left.
abbrev pub min_from : ℕ → ℕ → Map ℕ → ℕ
min_from min ret [] = ret
min_from min ret ((k, v) ∷ m) =
    min_from (if ltb v min then v else min)
      (if ltb v min
        then k
        else if v == min
        then (if ret == no_node || ltb k ret then k else ret)
        else ret)
      m

unfoldable pub get_idx_of_min_cost : Map ℕ → ℕ
get_idx_of_min_cost map = min_from int_max no_node map

-- The sum of two `int`s; undefined where it is none.
unfoldable pub int_add : ℕ → ℕ → Proc ℕ
int_add a b = let c = a + b in if ltb int_max c then fault else done c

-- `m[k]` where it is read: a missing entry is created as 0, which as an id is this number.
abbrev pub zero_id : ℕ
zero_id = 2147483648

unfoldable pub value_at : Map ℕ → ℕ → ℕ
value_at m k = elim (find m k) [ none ↦ zero_id | some v ↦ v ]

unfoldable pub touch : Map ℕ → ℕ → Map ℕ
touch m k = if is_some (find m k) then m else insert k zero_id m

-- The variables of the loop.
pub record Search : Type 0 where
  pub distance_to_root : Map ℕ
  pub record_dist : Map ℕ
  pub prevs : Map ℕ
  pub visited : Map (Unit {0})
  pub forwarding_table : Map ℕ

-- The body of the loop over the neighbours of `cur`, for a neighbour with a known cost and distance.
unfoldable pub relax : ℕ → ℕ → ℕ → ℕ → Search → Search
unfolding touch
relax cur_id nei old_dist new_dist s =
    let tie = new_dist == old_dist in
    let s₁ = if tie then record s { prevs = touch s.prevs nei } else s in
    if ltb new_dist old_dist || (tie && ltb cur_id (value_at s.prevs nei))
    then record s₁ {
      prevs = insert nei cur_id s₁.prevs;
      distance_to_root = insert nei new_dist s₁.distance_to_root;
    }
    else s₁

unfoldable pub visit_nei : Node → ℕ → ℕ → ℕ → Search → Proc Search
unfolding relax get_edge_cost int_add
visit_nei cur cur_id dist nei s =
    if is_some (find s.visited nei)
    then done s
    else at_find (find s.distance_to_root nei) >>= λ old_dist. get_edge_cost cur nei >>= λ cost.
        int_add dist cost >>= λ new_dist. done (relax cur_id nei old_dist new_dist s)

unfoldable pub visit_neis : Node → ℕ → ℕ → List ℕ → Search → Proc Search
visit_neis cur cur_id dist [] s = done s
visit_neis cur cur_id dist (nei ∷ rest) s =
    visit_nei cur cur_id dist nei s >>= λ s'. visit_neis cur cur_id dist rest s'

-- One round of the outer loop.
unfoldable pub visit : Graph → Search → Proc Search
visit graph s =
    let cur_id = get_idx_of_min_cost s.distance_to_root in
    at_find (find s.distance_to_root cur_id) >>= λ dist.
    let s₁ = record s {
      visited = insert cur_id tt s.visited;
      record_dist = insert cur_id dist s.record_dist;
      distance_to_root = erase cur_id s.distance_to_root;
    } in
    if dist == int_max
    then done (record s₁ {
      forwarding_table = insert cur_id no_node s₁.forwarding_table;
      prevs = insert cur_id no_node s₁.prevs;
    })
    else at_find (find graph cur_id) >>= λ cur. visit_neis cur cur_id dist cur.neibours s₁

-- A round visits one node more, so as many rounds as there are nodes are enough.
unfoldable pub search : ℕ → Graph → Search → Proc Search
search zero graph s = if ltb (length s.visited) (length graph) then blocked else done s
search (suc fuel) graph s = elim (ltb (length s.visited) (length graph)) [
  | true ↦ visit graph s >>= λ s'. search fuel graph s'
  | false ↦ done s
]

-- INT_MAX for every node of the graph.
unfoldable pub all_far : Graph → Map ℕ → Map ℕ
all_far [] map = map
all_far ((k, n) ∷ graph) map = all_far graph (insert k int_max map)

unfoldable pub init_search : Graph → Node → Search
unfolding all_far
init_search graph n = record {
  distance_to_root = insert n.id 0 (all_far graph []);
  record_dist = [];
  prevs = insert n.id no_node [];
  visited = [];
  forwarding_table = n.forwarding_table;
}

-- The loop that goes back from a node to its predecessor until that is the root.
unfoldable pub first_hop : ℕ → Map ℕ → ℕ → ℕ → ℕ → Proc ℕ
first_hop zero prevs id next p = blocked
first_hop (suc fuel) prevs id next p =
    let rest = λ (q : ℕ). first_hop fuel prevs id p q in
    if p == id then done next else at_find (find prevs p) >>= rest

-- The entries for the nodes of `keys`, with the predecessors and the table so far. `prev_itr` is found
-- before `prevs[k]` may create the entry.
unfoldable pub fill_table : ℕ → Graph → ℕ → Map ℕ → Map ℕ → Proc (Map ℕ × Map ℕ)
unfolding first_hop touch
fill_table fuel [] id prevs table = done (prevs, table)
fill_table fuel ((k, n) ∷ rest) id prevs table = elim (k == id) [
  | true ↦ fill_table fuel rest id prevs table
  | false ↦ elim (value_at prevs k == no_node || not (is_some (find prevs k))) [
    | true ↦ fill_table fuel rest id (touch prevs k) table
    | false ↦ first_hop fuel prevs id k (value_at prevs k) >>= λ next.
        fill_table fuel rest id prevs (insert k next table)
  ]
]

-- What `build_forwarding_table` leaves: the node's table, and its entries in `totalDistance` and
-- `prevOfThatNode`.
pub record Tables : Type 0 where
  pub node : Node
  pub distance : Map ℕ
  pub prevs : Map ℕ

-- A walk back to the root is shorter than INT_MAX steps, since each step lowers the distance.
unfoldable pub build_forwarding_table : Graph → Node → Proc Tables
unfolding init_search
build_forwarding_table graph n = search (length graph) graph (init_search graph n) >>= λ s.
    fill_table int_max graph n.id s.prevs s.forwarding_table >>= λ r.
    done
      (record { node = record n { forwarding_table = r.1 }; distance = s.record_dist; prevs = r.0 })
