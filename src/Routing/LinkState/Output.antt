-- ===== src/Routing/LinkState/Output.antt =====
-- What the program of mp3/src/linkstate.cpp writes: the tables and the messages, after the first
-- topology and after each change.
use networking_learning.Base.{
  ℕ, ◌+◌, ◌^◌, ◌==◌, if◌then◌else◌, List, [], ◌∷◌, ◌++◌, drop, Proc, done, fault, ◌>>=◌, none, some,
}
use networking_learning.Http.CString.{bytes}
use networking_learning.Http.Response.{print_int}
use networking_learning.Routing.Map.{Map, find}
use networking_learning.Routing.Line.{str_split, stoi, id_of, no_node, word}
use networking_learning.Routing.LinkState.{Node, Graph, at_find, int_max, forwarding_hop}
use networking_learning.Routing.LinkState.State.{
  LinkState, empty, add_line, build_nodes_forwarding_tables, next_hops,
}

-- `%d` of an id.
abbrev pub print_id : ℕ → List ℕ
print_id id = print_int (id + 2 ^ 31)

-- `m[k]` of distances. The entry that it creates where there is none is 0 as well, so it is not kept.
unfoldable pub distance_at : Map ℕ → ℕ → ℕ
distance_at m k = elim (find m k) [ none ↦ 0 | some v ↦ v ]

unfoldable pub entry_text : ℕ → ℕ → ℕ → List ℕ
entry_text dest next cost =
    if next == no_node
    then []
    else print_id dest ++ bytes " " ++ print_id next ++ bytes " " ++ print_int cost ++ bytes "\n"

-- The line of the node `from` for `dest`.
unfoldable pub print_entry : LinkState → ℕ → Node → ℕ → Proc (List ℕ)
unfolding forwarding_hop distance_at
print_entry ls from n dest = forwarding_hop n dest >>= λ next.
    at_find (find ls.total_distance from) >>= λ distance.
    done (entry_text dest next (distance_at distance dest))

unfoldable pub print_row : LinkState → ℕ → Node → Graph → Proc (List ℕ)
unfolding print_entry
print_row ls from n [] = done []
print_row ls from n ((dest, m) ∷ rest) =
    print_entry ls from n dest >>= λ line. print_row ls from n rest >>= λ text. done (line ++ text)

unfoldable pub print_tables : LinkState → Graph → Proc (List ℕ)
unfolding print_row
print_tables ls [] = done []
print_tables ls ((from, n) ∷ rest) =
    print_row ls from n ls.graph >>= λ row. print_tables ls rest >>= λ text. done (row ++ text)

-- The hops from `end() - 2` down to `begin()`; with one hop, `end() - 2` is before the first.
abbrev pub print_back : List ℕ → List ℕ
print_back [] = []
print_back (h ∷ []) = []
print_back (h ∷ i ∷ rest) = let text = print_back (i ∷ rest) in text ++ print_id h ++ bytes " "

abbrev pub print_hops : List ℕ → Proc (List ℕ)
print_hops [] = fault
print_hops (h ∷ []) = fault
print_hops (h ∷ i ∷ rest) = done (print_back (h ∷ i ∷ rest))

abbrev pub print_words : List (List ℕ) → List ℕ
print_words [] = bytes "\n"
print_words (w ∷ words) = let text = print_words words in bytes " " ++ w ++ text

-- One line of the message file.
unfoldable pub print_message : LinkState → List ℕ → Proc (List ℕ)
unfolding str_split stoi id_of distance_at next_hops
print_message ls line =
    let splitted = str_split line in
    word splitted 0 >>= λ a. stoi a >>= λ from. word splitted 1 >>= λ b. stoi b >>= λ to.
    at_find (find ls.total_distance (id_of from)) >>= λ distance.
    let dist = distance_at distance (id_of to) in
    let head = bytes "from " ++ print_id (id_of from) ++ bytes " to " ++ print_id (id_of to) in
    let message = print_words (drop 2 splitted) in
    if dist == int_max
    then done (head ++ bytes " cost infinite hops unreachable message" ++ message)
    else next_hops ls (id_of from) (id_of to) >>= λ hops. print_hops hops >>= λ text. done (
        head
        ++ bytes " cost "
        ++ print_int dist
        ++ bytes " hops "
        ++ text
        ++ bytes "message"
        ++ message)

unfoldable pub print_messages : LinkState → List (List ℕ) → Proc (List ℕ)
unfolding print_message
print_messages ls [] = done []
print_messages ls (line ∷ lines) =
    print_message ls line >>= λ out. print_messages ls lines >>= λ text. done (out ++ text)

unfoldable pub print_results : LinkState → List (List ℕ) → Proc (List ℕ)
unfolding print_tables print_messages
print_results ls message_file = print_tables ls ls.graph >>= λ tables.
    print_messages ls message_file >>= λ messages. done (tables ++ messages)

-- The lines of the topology.
unfoldable pub read_topology : List (List ℕ) → LinkState → Proc LinkState
unfolding add_line
read_topology [] ls = done ls
read_topology (line ∷ lines) ls = add_line line ls >>= λ ls'. read_topology lines ls'

-- The lines of the changes, each followed by the results.
unfoldable pub follow_changes : List (List ℕ) → List (List ℕ) → LinkState → Proc (List ℕ)
unfolding add_line build_nodes_forwarding_tables print_results
follow_changes [] message_file ls = done []
follow_changes (line ∷ lines) message_file ls = add_line line ls >>= λ changed.
    build_nodes_forwarding_tables changed >>= λ built. print_results built message_file >>= λ out.
    follow_changes lines message_file built >>= λ text. done (out ++ text)

-- The program on the lines of its three files; the result is what it writes to its output file.
unfoldable pub link_state : List (List ℕ) → List (List ℕ) → List (List ℕ) → Proc (List ℕ)
unfolding read_topology follow_changes build_nodes_forwarding_tables print_results empty
link_state topofile messagefile changesfile = read_topology topofile empty >>= λ ls.
    build_nodes_forwarding_tables ls >>= λ built. print_results built messagefile >>= λ out.
    follow_changes changesfile messagefile built >>= λ text. done (out ++ text)
