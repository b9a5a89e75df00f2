-- ===== src/Routing/LinkState/State.antt =====
-- The class Link_State of mp3/src/linkstate.cpp: the tables of all nodes, and the ways of messages.
use networking_learning.Base.{
  ℕ, zero, suc, ◌==◌, if◌then◌else◌, List, [], ◌∷◌, ◌++◌, Proc, done, blocked, ◌>>=◌,
}
use networking_learning.Routing.Map.{Map, find, insert}
use networking_learning.Routing.LinkState.{Graph, at_find, int_max, build_graph}
use networking_learning.Routing.LinkState.Table.{Tables, build_forwarding_table}

pub record LinkState : Type 0 where
  pub graph : Graph
  pub prev_of_that_node : Map (Map ℕ)
  pub total_distance : Map (Map ℕ)

unfoldable pub empty : LinkState
empty = record { graph = []; prev_of_that_node = []; total_distance = [] }

unfoldable pub add_line : List ℕ → LinkState → Proc LinkState
unfolding build_graph
add_line input ls = build_graph input ls.graph >>= λ g. done (record ls { graph = g })

-- What `build_forwarding_table` writes: the node `k` of the graph, and the node's two entries.
unfoldable pub store : ℕ → Tables → LinkState → LinkState
store k t ls = record {
  graph = insert k t.node ls.graph;
  prev_of_that_node = insert t.node.id t.prevs ls.prev_of_that_node;
  total_distance = insert t.node.id t.distance ls.total_distance;
}

unfoldable pub build_node : ℕ → LinkState → Proc LinkState
unfolding build_forwarding_table store
build_node k ls = at_find (find ls.graph k) >>= λ n.
    build_forwarding_table ls.graph n >>= λ t. done (store k t ls)

-- The loop over the keys of the graph, which stay the same in it.
unfoldable pub build_nodes : Graph → LinkState → Proc LinkState
unfolding build_node
build_nodes [] ls = done ls
build_nodes ((k, n) ∷ rest) ls = build_node k ls >>= λ ls'. build_nodes rest ls'

unfoldable pub build_nodes_forwarding_tables : LinkState → Proc LinkState
unfolding build_nodes
build_nodes_forwarding_tables ls = build_nodes ls.graph ls

-- The loop of `next_hops`; `result` is what is there already.
unfoldable pub hops_loop : ℕ → Map ℕ → ℕ → ℕ → List ℕ → Proc (List ℕ)
hops_loop zero prevs from curr result = blocked
hops_loop (suc fuel) prevs from curr result =
    let rest = λ (prev : ℕ). hops_loop fuel prevs from prev (result ++ prev ∷ []) in
    if curr == from then done (result ++ from ∷ []) else at_find (find prevs curr) >>= rest

-- Each step back lowers the distance, so INT_MAX rounds are enough.
unfoldable pub next_hops : LinkState → ℕ → ℕ → Proc (List ℕ)
next_hops ls from to =
    at_find (find ls.prev_of_that_node from) >>= λ prevs. hops_loop int_max prevs from to []
