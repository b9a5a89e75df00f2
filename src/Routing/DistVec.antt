-- ===== src/Routing/DistVec.antt =====
-- The class Node and the rounds of mp3/src/distvec.cpp: nodes tell their neighbours their distances
-- until nothing changes.
pub mod Members
pub mod Vectors
pub mod Comparing
pub mod Updating
pub mod Pushing
pub mod Sending
pub mod Networks
pub mod Stepping
pub mod Budgets
pub mod Rounds
pub mod Settling
pub mod Optimal
pub mod Views
pub mod Fresh
pub mod Starting
pub mod Initial
pub mod Beginning
pub mod Settled
pub mod Learning
pub mod Output
pub mod Printing
pub mod Reading
pub mod Reread
pub mod Kept
pub mod Messages
pub mod Results
pub mod Lines
pub mod Program
use networking_learning.Base.{
  ℕ, zero, suc, ◌+◌, ◌*◌, ◌^◌, ◌==◌, ◌||◌, ltb, if◌then◌else◌, Bool, true, false, List, [], ◌∷◌,
  ◌++◌, length, Proc, done, fault, blocked, ◌>>=◌, Option, none, some,
}
use networking_learning.Http.CString.{ℤ, pos, negsuc}
use networking_learning.Routing.Map.{Map, find, insert}
use networking_learning.Routing.Line.{read_line}
use networking_learning.Routing.LinkState.{
  Node, Graph, int_max, is_some, at_find, new_node, remove_nei, add_or_update_nei, get_edge_cost,
}
use networking_learning.Routing.LinkState.Table.{int_add, value_at, touch}

-- The members `id`, `neibours`, `edges` and `forwarding_table` are those of linkstate.cpp, with the
-- same functions on them; they are the field `node`.
pub record Router : Type 0 where
  pub node : Node
  pub distance_to : Map ℕ
  pub updates : List (ℕ × Map ℕ)
  pub be_updated : Bool

abbrev pub Network : Type 0
Network = Map Router

unfoldable pub new_router : ℕ → Router
unfolding insert
new_router id = record {
  node = new_node id;
  distance_to = insert id 0 [];
  updates = [];
  be_updated = true;
}

unfoldable pub drop_nei : Router → ℕ → Router
drop_nei r nei_id = record r { node = remove_nei r.node nei_id }

unfoldable pub set_nei : Router → ℕ → ℕ → Router
set_nei r nei_id edge_cost = record r {
  node = add_or_update_nei r.node nei_id edge_cost;
  be_updated = true;
}

unfoldable pub initial_distance_of_node : Router → ℕ → Router
initial_distance_of_node r node_id = record r {
  be_updated = true;
  distance_to = insert node_id int_max r.distance_to;
}

abbrev pub with_update : Router → ℕ × Map ℕ → Router
with_update r u = record r { updates = r.updates ++ u ∷ [] }

-- The loop of `send_update`, over the neighbours that are left.
unfoldable pub push_loop : List ℕ → ℕ × Map ℕ → Network → Proc Network
push_loop [] u graph = done graph
push_loop (nei ∷ rest) u graph =
    at_find (find graph nei) >>= λ r. push_loop rest u (insert nei (with_update r u) graph)

abbrev pub is_cons {ℓ} : {A : Type ℓ} → List A → Bool
is_cons [] = false
is_cons (x ∷ xs) = true

unfoldable pub send_update : Router → Network → Proc (Bool × Network)
send_update r graph =
    if r.be_updated
    then (push_loop r.node.neibours (r.node.id, r.distance_to) graph >>= λ g.
        done (is_cons r.node.neibours, g))
    else done (false, graph)

-- `m[k]` where distances are read: a missing entry is created as 0.
unfoldable pub cost_at : Map ℕ → ℕ → ℕ
cost_at m k = elim (find m k) [ none ↦ 0 | some d ↦ d ]

unfoldable pub touch_cost : Map ℕ → ℕ → Map ℕ
touch_cost m k = if is_some (find m k) then m else insert k 0 m

-- What the loops of `update_distance_and_forwarding_table` change.
pub record Vector : Type 0 where
  pub distance_to : Map ℕ
  pub forwarding_table : Map ℕ
  pub is_changed : Bool

-- A way of the cost `new_dist` to `dest` by the neighbour `nei`.
unfoldable pub compare_way : ℕ → ℕ → ℕ → Vector → Vector
compare_way nei dest new_dist v =
    let old = cost_at v.distance_to dest in
    let distance_to = touch_cost v.distance_to dest in
    if ltb new_dist old
    then record {
      distance_to = insert dest new_dist distance_to;
      forwarding_table = insert dest nei v.forwarding_table;
      is_changed = true;
    }
    else if old == new_dist
    then (if ltb nei (value_at v.forwarding_table dest)
        then record {
          distance_to = distance_to;
          forwarding_table = insert dest nei v.forwarding_table;
          is_changed = true;
        }
        else record v {
          distance_to = distance_to;
          forwarding_table = touch v.forwarding_table dest;
        })
    else record v { distance_to = distance_to }

-- The body of the inner loop.
unfoldable pub update_entry : Node → ℕ → ℕ → ℕ → Vector → Proc Vector
update_entry n nei dest given_dist v = get_edge_cost n nei >>= λ nei_edge.
    if nei_edge == int_max || given_dist == int_max
    then done v
    else int_add nei_edge given_dist >>= λ new_dist. done (compare_way nei dest new_dist v)

unfoldable pub update_entries : Node → ℕ → Map ℕ → Vector → Proc Vector
update_entries n nei [] v = done v
update_entries n nei ((dest, given_dist) ∷ rest) v =
    update_entry n nei dest given_dist v >>= λ v'. update_entries n nei rest v'

unfoldable pub update_loop : Node → List (ℕ × Map ℕ) → Vector → Proc Vector
update_loop n [] v = done v
update_loop n ((nei, m) ∷ rest) v = update_entries n nei m v >>= λ v'. update_loop n rest v'

abbrev pub start_vector : Router → Vector
start_vector r = record {
  distance_to = r.distance_to;
  forwarding_table = r.node.forwarding_table;
  is_changed = false;
}

abbrev pub end_vector : Router → Vector → Router
end_vector r v = record {
  node = record r.node { forwarding_table = v.forwarding_table };
  distance_to = v.distance_to;
  updates = [];
  be_updated = v.is_changed;
}

-- The result is also the flag `be_updated`.
unfoldable pub update_router : Router → Proc Router
update_router r = update_loop r.node r.updates (start_vector r) >>= λ v. done (end_vector r v)

abbrev pub count_if : Bool → ℕ → ℕ
count_if b count = if b then suc count else count

-- The first loop of a round, over the keys of the map, with the number of nodes that have sent.
unfoldable pub send_all : List ℕ → Network → ℕ → Proc (Network × ℕ)
send_all [] graph count = done (graph, count)
send_all (k ∷ rest) graph count = at_find (find graph k) >>= λ r.
    send_update r graph >>= λ s. send_all rest s.1 (count_if s.0 count)

-- The second loop: every node works on its own state only.
unfoldable pub update_all : Network → Proc (Network × ℕ)
update_all [] = done ([], 0)
update_all ((k, r) ∷ rest) = update_router r >>= λ r'.
    update_all rest >>= λ u. done ((k, r') ∷ u.0, count_if r'.be_updated u.1)

abbrev pub keys {ℓ} : {V : Type ℓ} → Map V → List ℕ
keys [] = []
keys ((k, v) ∷ m) = k ∷ keys m

-- A round; the second part of the result is whether the loop goes on.
unfoldable pub exchange : Network → Proc (Network × Bool)
exchange graph = send_all (keys graph) graph 0 >>= λ s.
    if s.1 == 0 then done (s.0, false) else update_all s.0 >>= λ u. done (u.0, ltb 0 u.1)

unfoldable pub rounds : ℕ → Network → Proc Network
rounds zero graph = blocked
rounds (suc fuel) graph =
    exchange graph >>= λ e. elim e.1 [ true ↦ rounds fuel e.0 | false ↦ done e.0 ]

-- A round with a change lowers a distance or, at the same distance, a next hop; there are as many
-- of them as pairs of nodes, each below 2 ^ 32.
abbrev pub rounds_bound : Network → ℕ
rounds_bound graph = 2 ^ 64 * (length graph * length graph) + 1

unfoldable pub build_nodes_forwarding_tables : Network → Proc Network
build_nodes_forwarding_tables graph = rounds (rounds_bound graph) graph

-- A node's side of a line.
unfoldable pub change_router : Router → ℕ → ℤ → Router
change_router r nei_id (negsuc k) = drop_nei r nei_id
change_router r nei_id (pos zero) = drop_nei r nei_id
change_router r nei_id (pos (suc k)) = set_nei r nei_id (suc k)

abbrev pub first_router : ℕ → ℕ → ℤ → Router
first_router node nei (negsuc k) = new_router node
first_router node nei (pos zero) = new_router node
first_router node nei (pos (suc k)) = set_nei (new_router node) nei (suc k)

abbrev pub stored_router : Option Router → ℕ → ℕ → ℤ → Router
stored_router (some r) node nei dist = change_router r nei dist
stored_router none node nei dist = first_router node nei dist

unfoldable pub change_side : Network → ℕ → ℕ → ℤ → Network
change_side graph node nei dist = insert node (stored_router (find graph node) node nei dist) graph

-- The body of the inner loop of `initial_all_dist`, for the node with the key `k`.
unfoldable pub far_step : ℕ → ℕ → Router → Router
far_step k j r = if k == j then r else initial_distance_of_node r j

abbrev pub far_row : ℕ → List ℕ → Router → Router
far_row k [] r = r
far_row k (j ∷ rest) r = far_row k rest (far_step k j r)

abbrev pub far_rows : List ℕ → Network → Network
far_rows all [] = []
far_rows all ((k, r) ∷ rest) = (k, far_row k all r) ∷ far_rows all rest

unfoldable pub initial_all_dist : Network → Network
initial_all_dist graph = far_rows (keys graph) graph

unfoldable pub change_edge : Network → ℕ → ℕ → ℤ → Network
change_edge graph node1 node2 dist =
    initial_all_dist (change_side (change_side graph node1 node2 dist) node2 node1 dist)

unfoldable pub build_graph : List ℕ → Network → Proc Network
unfolding read_line
build_graph input graph = read_line input >>= λ l. done (change_edge graph l.0 l.1 l.2)
