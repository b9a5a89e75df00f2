-- ===== src/Routing/DistVec/Output.antt =====
-- What the program of mp3/src/distvec.cpp writes: the tables and the messages, after the first
-- topology and after each change. Reading `m[k]` creates a missing entry, so printing changes the
-- network as well.
use networking_learning.Base.{
  ℕ, zero, suc, ◌==◌, leb, if◌then◌else◌, List, [], ◌∷◌, ◌++◌, drop, length, Proc, done, blocked,
  ◌>>=◌,
}
use networking_learning.Http.CString.{bytes}
use networking_learning.Http.Response.{print_int}
use networking_learning.Routing.Map.{find, insert}
use networking_learning.Routing.Line.{str_split, stoi, id_of, word}
use networking_learning.Routing.LinkState.{at_find, int_max, is_some}
use networking_learning.Routing.LinkState.Table.{value_at, touch}
use networking_learning.Routing.LinkState.Output.{print_id, print_words}
use networking_learning.Routing.DistVec.{
  Router, Network, keys, cost_at, touch_cost, build_graph, build_nodes_forwarding_tables,
}

-- What reading the two entries for `dest` leaves.
abbrev pub read_entries : Router → ℕ → Router
read_entries r dest = record r {
  node = record r.node { forwarding_table = touch r.node.forwarding_table dest };
  distance_to = touch_cost r.distance_to dest;
}

-- The line for `dest`. Distances are never negative here.
unfoldable pub entry_text : Router → ℕ → List ℕ
entry_text r dest =
    let cost = cost_at r.distance_to dest in
    let next = value_at r.node.forwarding_table dest in
    if cost == int_max
    then []
    else print_id dest ++ bytes " " ++ print_id next ++ bytes " " ++ print_int cost ++ bytes "\n"

-- The inner loop of `print_results`.
unfoldable pub print_row : List ℕ → Router → Router × List ℕ
print_row [] r = (r, [])
print_row (dest ∷ rest) r =
    let out = print_row rest (read_entries r dest) in (out.0, entry_text r dest ++ out.1)

unfoldable pub print_tables : List ℕ → Network → Network × List ℕ
print_tables all [] = ([], [])
print_tables all ((k, r) ∷ net) =
    let row = print_row all r in
    let rest = print_tables all net in ((k, row.0) ∷ rest.0, row.1 ++ rest.1)

-- What `graph[k]->forwarding_table[to]` leaves, for the node `r` with the key `k`.
abbrev pub read_hop : ℕ → Router → ℕ → Network → Network
read_hop k r to graph =
    if is_some (find r.node.forwarding_table to)
    then graph
    else insert k
        (record r { node = record r.node { forwarding_table = touch r.node.forwarding_table to } })
        graph

-- The loop of `next_hops`, at the node `r` with the key `k`.
unfoldable pub hops_loop : ℕ → Network → ℕ → Router → ℕ → List ℕ → Proc (Network × List ℕ)
hops_loop zero graph k r to result = blocked
hops_loop (suc fuel) graph k r to result =
    let hop = value_at r.node.forwarding_table to in
    let graph' = read_hop k r to graph in
    let hops = result ++ r.node.id ∷ [] in
    at_find (find graph' hop) >>= λ next.
    let rest = hops_loop fuel graph' hop next to hops in
    if next.node.id == to then done (graph', hops) else rest

-- Each hop lowers the distance to `to`, so INT_MAX hops are enough.
unfoldable pub next_hops : Network → ℕ → ℕ → Proc (Network × List ℕ)
next_hops graph from to = at_find (find graph from) >>= λ r. hops_loop int_max graph from r to []

abbrev pub print_hops : List ℕ → List ℕ
print_hops [] = []
print_hops (h ∷ hops) = let rest = print_hops hops in print_id h ++ bytes " " ++ rest

unfoldable pub message_head : ℕ → ℕ → List ℕ
message_head from to = bytes "from " ++ print_id from ++ bytes " to " ++ print_id to

-- `graph` after `from_node->distanceToThatNode[to]` was read, for the node `r` with the key `from`.
abbrev pub read_distance : Network → ℕ → ℕ → Router → Network
read_distance graph from to r =
    insert from (record r { distance_to = touch_cost r.distance_to to }) graph

-- The body of the loop once the line is split. The program writes the head before it follows
-- the hops.
unfoldable pub send_message : Network → ℕ → ℕ → List ℕ → Proc (Network × List ℕ)
send_message graph from to message = at_find (find graph from) >>= λ r.
    let dist = cost_at r.distance_to to in
    let graph' = read_distance graph from to r in
    if dist == int_max
    then done
        (graph', message_head from to ++ bytes " cost infinite hops unreachable message" ++ message)
    else next_hops graph' from to >>= λ hops. done (
      hops.0,
      message_head from to
          ++ bytes " cost "
          ++ print_int dist
          ++ bytes " hops "
          ++ print_hops hops.1
          ++ bytes "message"
          ++ message,
    )

-- One line of the message file.
unfoldable pub print_message : Network → List ℕ → Proc (Network × List ℕ)
unfolding str_split stoi id_of
print_message graph line =
    let splitted = str_split line in
    word splitted 0 >>= λ a. stoi a >>= λ node1. word splitted 1 >>= λ b. stoi b >>= λ node2.
    send_message graph (id_of node1) (id_of node2) (print_words (drop 2 splitted))

unfoldable pub print_messages : Network → List (List ℕ) → Proc (Network × List ℕ)
print_messages graph [] = done (graph, [])
print_messages graph (line ∷ lines) = print_message graph line >>= λ out.
    print_messages out.0 lines >>= λ rest. done (rest.0, out.1 ++ rest.1)

unfoldable pub print_results : Network → List (List ℕ) → Proc (Network × List ℕ)
print_results graph message_file =
    let tables = print_tables (keys graph) graph in
    if leb 8 (length graph)
    then (print_messages tables.0 message_file >>= λ out. done (out.0, tables.1 ++ out.1))
    else done tables

-- The lines of the topology.
unfoldable pub read_topology : List (List ℕ) → Network → Proc Network
read_topology [] graph = done graph
read_topology (line ∷ lines) graph = build_graph line graph >>= λ g. read_topology lines g

-- The lines of the changes, each followed by the results.
unfoldable pub follow_changes : List (List ℕ) → List (List ℕ) → Network → Proc (List ℕ)
follow_changes [] message_file graph = done []
follow_changes (line ∷ lines) message_file graph = build_graph line graph >>= λ changed.
    build_nodes_forwarding_tables changed >>= λ built. print_results built message_file >>= λ out.
    follow_changes lines message_file out.0 >>= λ text. done (out.1 ++ text)

-- The program on the lines of its three files; the result is what it writes to its output file.
unfoldable pub distance_vector : List (List ℕ) → List (List ℕ) → List (List ℕ) → Proc (List ℕ)
distance_vector topofile messagefile changesfile = read_topology topofile [] >>= λ graph.
    build_nodes_forwarding_tables graph >>= λ built. print_results built messagefile >>= λ out.
    follow_changes changesfile messagefile out.0 >>= λ text. done (out.1 ++ text)
