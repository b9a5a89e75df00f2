-- ===== src/Routing/Tests/Vectors.antt =====
-- The results on mp3/src/distvec.cpp, on the network of the line `1 2 3`.
use networking_learning.Base.{
  ℕ, ◌*◌, ◌≤◌, ◌<◌, ◌≡◌, ◌∙◌, subst, sym, refl, List, [], ◌∷◌, ◌++◌, length, done, none, some,
  arith, true, false, drop,
}
use networking_learning.Http.CString.{pos, bytes}
use networking_learning.Routing.Map.{find, insert}
use networking_learning.Routing.Line.{read_line, str_split, stoi, id_of}
use networking_learning.Routing.LinkState.{
  Node, is_some, int_max, new_node, add_or_update_nei, remove_nei, get_edge_cost,
}
use networking_learning.Routing.LinkState.Table.{
  Tables, build_forwarding_table, value_at, touch, int_add,
}
use networking_learning.Routing.LinkState.Paths.{cost}
use networking_learning.Routing.LinkState.Graphs.{empty-IsGraph}
use networking_learning.Routing.LinkState.Edges.{wanted}
use networking_learning.Routing.LinkState.Output.{print_words}
use networking_learning.Routing.LinkState.Topology.{last_cost}
use networking_learning.Routing.DistVec.{
  Router, Network, keys, change_edge, change_side, initial_all_dist, build_nodes_forwarding_tables,
  build_graph, rounds, exchange, send_all, send_update, push_loop, update_all, update_router,
  update_loop, update_entries, update_entry, compare_way, cost_at, touch_cost, far_step,
  initial_distance_of_node, change_router, set_nei, drop_nei, new_router,
}
use networking_learning.Routing.DistVec.Starting.{empty-IsBase}
use networking_learning.Routing.DistVec.Learning.{IsLearned, build_lem, distances_agree}
use networking_learning.Routing.DistVec.Output.{
  distance_vector, read_topology, print_message, print_tables, entry_text,
}
use networking_learning.Routing.DistVec.Reading.{tables_text}
use networking_learning.Routing.DistVec.Kept.{IsLine, print_tables_lem}
use networking_learning.Routing.DistVec.Messages.{IsMessage, Names, print_message_lem}
use networking_learning.Routing.DistVec.Results.{AllName, IsResults}
use networking_learning.Routing.DistVec.Lines.{length-change_edge}
use networking_learning.Routing.DistVec.Program.{ArePrinted, distance_vector_lem}
use networking_learning.Routing.Tests.{
  one, two, pair, pair-IsGraph, pair_edges, no_minus, line_read,
}

abbrev started : Network
started = change_edge [] one two (pos 3)

fits : 3 * length started < int_max
fits = omega (arith, length-change_edge [] one two (pos 3))

cheap : (x y w : ℕ) → cost pair x y ≡ some w → w ≤ 3
cheap x y w k = let (a, b) = pair_edges x y w k in omega (arith, a)

build_lem_example :
    (h : Network) × (build_nodes_forwarding_tables started ≡ done h) × IsLearned pair h
build_lem_example =
    build_lem [] one two (pos 3) 3 empty-IsBase empty-IsGraph (omega arith) (omega arith) cheap fits

distances_agree_example :
    (h : Network) × (build_nodes_forwarding_tables started ≡ done h)
    × ((u : ℕ) (n : Node)
        → find pair u ≡ some n
        → (t : Tables) × (r : Router) × (build_forwarding_table pair n ≡ done t)
          × (find h u ≡ some r)
          × ((x : ℕ) → is_some (find pair x) ≡ true → find t.distance x ≡ find r.distance_to x))
distances_agree_example =
    distances_agree [] one two (pos 3) 3 empty-IsBase empty-IsGraph (omega arith) (omega arith)
      cheap fits no_minus

-- The two nodes after the rounds.
abbrev first : Router
first = record {
  node = record {
    id = one;
    neibours = two ∷ [];
    edges = (two, 3) ∷ [];
    forwarding_table = (one, one) ∷ (two, two) ∷ [];
  };
  distance_to = (one, 0) ∷ (two, 3) ∷ [];
  updates = [];
  be_updated = false;
}

abbrev second : Router
second = record {
  node = record {
    id = two;
    neibours = one ∷ [];
    edges = (one, 3) ∷ [];
    forwarding_table = (one, one) ∷ (two, two) ∷ [];
  };
  distance_to = (one, 3) ∷ (two, 0) ∷ [];
  updates = [];
  be_updated = false;
}

abbrev informed : Network
informed = (one, first) ∷ (two, second) ∷ []

run : build_nodes_forwarding_tables started ≡ done informed
unfolding build_nodes_forwarding_tables rounds exchange send_all send_update push_loop update_all
    update_router update_loop update_entries update_entry compare_way cost_at touch_cost far_step
    initial_distance_of_node change_router set_nei drop_nei new_router new_node change_edge
    change_side initial_all_dist find insert add_or_update_nei remove_nei get_edge_cost value_at
    touch int_add
run = refl

done_inj : {a b : Network} → done a ≡ done b → a ≡ b
done_inj h = cc h

informed-IsLearned : IsLearned pair informed
informed-IsLearned =
    let (h, built, learned) =
      build_lem [] one two (pos 3) 3 empty-IsBase empty-IsGraph (omega arith) (omega arith) cheap
        fits in
    subst (IsLearned pair) (done_inj (sym built ∙ run)) learned

print_tables_lem_example :
    ((print_tables (keys informed) informed).1 ≡ tables_text (keys informed) informed)
    × ((u x : ℕ) (r : Router)
        → find informed u ≡ some r
        → is_some (find pair x) ≡ true
        → IsLine pair u x (entry_text r x))
    × IsLearned pair (print_tables (keys informed) informed).0
print_tables_lem_example = print_tables_lem pair informed informed-IsLearned

names_in :
    (h : Network)
    → is_some (find h one) ≡ true
    → is_some (find h two) ≡ true
    → Names h (bytes "1 2 hi")
unfolding str_split stoi id_of
names_in h a b = record {
  first = bytes "1";
  second = bytes "2";
  node1 = pos 1;
  node2 = pos 2;
  word1 = refl;
  read1 = refl;
  word2 = refl;
  read2 = refl;
  known1 = a;
  known2 = b;
}

informed_names : Names informed (bytes "1 2 hi")
unfolding find
informed_names = names_in informed refl refl

print_message_lem_example :
    (text : List ℕ) × (print_message informed (bytes "1 2 hi") ≡ done (informed, text))
    × IsMessage pair
        (id_of informed_names.node1)
        (id_of informed_names.node2)
        (print_words (drop 2 (str_split (bytes "1 2 hi"))))
        text
print_message_lem_example =
    print_message_lem pair pair-IsGraph informed informed-IsLearned (bytes "1 2 hi") informed_names

topology_read : read_topology (bytes "1 2 3" ∷ []) [] ≡ done started
unfolding read_topology build_graph read_line str_split stoi id_of
topology_read = refl

started_names : AllName started (bytes "1 2 hi" ∷ [])
unfolding change_edge change_side initial_all_dist find insert
started_names = (names_in started refl refl, tt)

wanted_three : (w : ℕ) → wanted (pos 3) ≡ some w → w ≤ 3
wanted_three w e = let q : some 3 ≡ some w = e in omega (arith, some_three w q)
  where
    some_three : (w : ℕ) → some 3 ≡ some w → 3 ≡ w
    some_three w e = cc e

distance_vector_lem_example :
    (out rest : List ℕ) × (distance_vector
        (bytes "1 2 3" ∷ [])
        (bytes "1 2 hi" ∷ [])
        (bytes "1 2 3" ∷ [])
      ≡ done (out ++ rest))
    × IsResults (λ x y. last_cost ((one, two, pos 3) ∷ []) x y none) (bytes "1 2 hi" ∷ []) out
    × ArePrinted
        (λ x y. last_cost ((one, two, pos 3) ∷ []) x y none)
        ((one, two, pos 3) ∷ [])
        (bytes "1 2 hi" ∷ [])
        rest
distance_vector_lem_example =
    distance_vector_lem (bytes "1 2 3" ∷ []) (bytes "1 2 hi" ∷ []) (bytes "1 2 3" ∷ [])
      ((one, two, pos 3) ∷ []) ((one, two, pos 3) ∷ []) 3 (line_read, tt) (line_read, tt)
      ((omega arith, omega arith, wanted_three), tt) ((omega arith, omega arith, wanted_three), tt)
      (omega arith)
      (λ net r.
        subst (λ n. AllName n (bytes "1 2 hi" ∷ [])) (done_inj (sym topology_read ∙ r))
          started_names)
