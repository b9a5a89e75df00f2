-- ===== src/Routing/Tests.antt =====
-- The results on mp3/src/linkstate.cpp, on the network of the line `1 2 3`.
mod Vectors
use networking_learning.Base.{
  ℕ, ◌≡◌, ◌≢◌, ◌∙◌, ap, subst, sym, refl, ◌⊎◌, inl, inr, List, [], ◌∷◌, none, some, arith, done,
  eq_or_ne, ◌==◌, ◌&&◌, ◌||◌, if◌then◌else◌, true, false, ==→eq, Bool,
}
use networking_learning.Http.CString.{pos, bytes}
use networking_learning.Routing.Map.{Map, find, insert, find_nil, some_inj, erase}
use networking_learning.Routing.Line.{no_node, read_line, str_split, stoi, id_of}
use networking_learning.Routing.LinkState.{
  Node, Graph, is_some, int_max, new_node, add_or_update_nei, change_side, change_edge,
}
use networking_learning.Routing.LinkState.Table.{
  Tables, build_forwarding_table, search, visit, get_idx_of_min_cost, visit_neis, visit_nei,
  fill_table, value_at,
}
use networking_learning.Routing.LinkState.State.{
  LinkState, empty, build_nodes_forwarding_tables, next_hops, hops_loop,
}
use networking_learning.Routing.LinkState.Output.{read_topology, link_state, entry_text}
use networking_learning.Http.Response.{print_int}
use networking_learning.Routing.LinkState.Paths.{
  cost, cost_in, Walk, here, step, IsDistance, IsGraph, Fits,
}
use networking_learning.Routing.LinkState.Graphs.{
  change_edge-cost, change_edge-IsGraph, empty-IsGraph,
}
use networking_learning.Routing.LinkState.Routes.{IsRouted, build_forwarding_table_lem}
use networking_learning.Routing.LinkState.Same.{SameEdges}
use networking_learning.Routing.LinkState.WayBack.{WayBack}
use networking_learning.Routing.LinkState.Topology.{last_cost, read_topology_lem}
use networking_learning.Routing.LinkState.Printing.{message_lem}

abbrev one : ℕ
one = 2147483649

abbrev two : ℕ
two = 2147483650

abbrev pair : Graph
pair = change_edge [] one two (pos 3)

abbrev network : LinkState
network = record { graph = pair; prev_of_that_node = []; total_distance = [] }

pair-IsGraph : IsGraph pair
pair-IsGraph = change_edge-IsGraph [] one two (pos 3) empty-IsGraph

abbrev In : ℕ → Type 0
In x = (x ≡ one) ⊎ (x ≡ two)

ends_by :
    (p q r t : Bool) (w : ℕ)
    → (if (p && q) || (r && t) then some 3 else none) ≡ some w
    → (w ≡ 3) × ((p ≡ true) × (q ≡ true) ⊎ (r ≡ true) × (t ≡ true))
ends_by true true r t w e = (sym (some_inj e), inl (refl, refl))
ends_by true false true true w e = (sym (some_inj e), inr (refl, refl))
ends_by false q true true w e = (sym (some_inj e), inr (refl, refl))
ends_by true false false t w e = absurd (cc e)
ends_by true false true false w e = absurd (cc e)
ends_by false q false t w e = absurd (cc e)
ends_by false q true false w e = absurd (cc e)

pair-cost :
    (x y : ℕ)
    → cost pair x y ≡ (if (one == x && two == y) || (two == x && one == y) then some 3 else none)
pair-cost x y =
    change_edge-cost [] one two (pos 3) x y
    ∙ ap (λ c. if (one == x && two == y) || (two == x && one == y) then some 3 else c)
        (ap (λ o. cost_in o y) (find_nil {V = Node} x))

pair_edges :
    (x y w : ℕ) → cost pair x y ≡ some w → (w ≡ 3) × ((one ≡ x) × (two ≡ y) ⊎ (two ≡ x) × (one ≡ y))
pair_edges x y w e =
    let (is_three, ends) =
      ends_by (one == x) (two == y) (two == x) (one == y) w (sym (pair-cost x y) ∙ e) in
    (
      is_three,
      elim ends [
        | inl (a, b) ↦ inl (==→eq one x a, ==→eq two y b)
        | inr (a, b) ↦ inr (==→eq two x a, ==→eq one y b)
      ],
    )

no_minus : find pair no_node ≡ none
unfolding change_edge change_side find insert
no_minus = refl

line_read : read_line (bytes "1 2 3") ≡ done (one, two, pos 3)
unfolding read_line str_split stoi id_of
line_read = refl

inside : (root x d : ℕ) → Walk pair root x d → (x ≡ root) ⊎ In root × In x
inside root x d (here y e p q) = inl p
inside root x d (step {x = a} {d = b} walk y w e k sum) =
    let (is_three, ends) = pair_edges a y w k in
    let in_a : In a = elim ends [ inl (p, q) ↦ inl (sym p) | inr (p, q) ↦ inr (sym p) ] in
    let in_y : In y = elim ends [ inl (p, q) ↦ inr (sym q) | inr (p, q) ↦ inl (sym q) ] in
    elim (inside root a b walk) [
      | inl e' ↦ inr (subst In e' in_a, in_y)
      | inr (r, i) ↦ inr (r, in_y)
    ]

one_step : (root x : ℕ) → root ≢ x → In root → In x → Walk pair root x 3
unfolding change_edge change_side find insert add_or_update_nei new_node
one_step root x ne (inl p) (inl q) = absurd (ne (p ∙ sym q))
one_step root x ne (inl p) (inr q) =
    step (here one 0 (sym p) refl) x 3 3 (subst (λ z. cost pair one z ≡ some 3) (sym q) refl) refl
one_step root x ne (inr p) (inl q) =
    step (here two 0 (sym p) refl) x 3 3 (subst (λ z. cost pair two z ≡ some 3) (sym q) refl) refl
one_step root x ne (inr p) (inr q) = absurd (ne (p ∙ sym q))

pair-Fits : (root : ℕ) → Fits pair root
pair-Fits root x y d w v k = elim (inside root x d v.walk) [
  | inl e ↦ let (a, b) = pair_edges x y w k in omega (arith, v.least 0 (here x 0 e refl), a)
  | inr (r, i) ↦ elim (eq_or_ne root x) [
    | inl e ↦ let (a, b) = pair_edges x y w k in omega (arith, v.least 0 (here x 0 (sym e) refl), a)
    | inr ne ↦
        let (a, b) = pair_edges x y w k in omega (arith, v.least 3 (one_step root x ne r i), a)
  ]
]

abbrev node_one : Node
node_one = record {
  id = one;
  neibours = two ∷ [];
  edges = (two, 3) ∷ [];
  forwarding_table = (one, one) ∷ [];
}

one_found : find pair one ≡ some node_one
unfolding change_edge change_side find insert add_or_update_nei new_node
one_found = refl

two_found : is_some (find pair two) ≡ true
unfolding change_edge change_side find insert
two_found = refl

build_forwarding_table_lem_example :
    (t : Tables) × (build_forwarding_table pair node_one ≡ done t) × IsRouted pair one t
build_forwarding_table_lem_example =
    build_forwarding_table_lem pair node_one pair-IsGraph one_found no_minus (pair-Fits one)

message_lem_example :
    (built : LinkState) × (distance : Map ℕ) × (d : ℕ) × (build_nodes_forwarding_tables network
      ≡ done built)
    × IsGraph built.graph
    × SameEdges pair built.graph
    × (find built.total_distance one ≡ some distance)
    × (find distance two ≡ some d)
    × (((d ≡ int_max) × ((e : ℕ) → ¬ Walk pair one two e))
        ⊎ ((hops : List ℕ) × (next_hops built one two ≡ done hops)
            × WayBack pair one two hops d
            × IsDistance pair one two d))
message_lem_example =
    message_lem network one two pair-IsGraph no_minus pair-Fits (ap is_some one_found) two_found

read_topology_lem_example :
    (ls : LinkState) × (read_topology (bytes "1 2 3" ∷ []) empty ≡ done ls)
    × IsGraph ls.graph
    × ((x y : ℕ) → cost ls.graph x y ≡ last_cost ((one, two, pos 3) ∷ []) x y none)
read_topology_lem_example =
    read_topology_lem (bytes "1 2 3" ∷ []) ((one, two, pos 3) ∷ []) (line_read, tt)

-- The whole program on one line of topology and one message.
output :
    link_state (bytes "1 2 3" ∷ []) (bytes "1 2 hi" ∷ []) []
    ≡ done (bytes "1 1 0\n2 2 3\n1 1 3\n2 2 0\nfrom 1 to 2 cost 3 hops 1 message hi\n")
unfolding link_state find insert search visit add_or_update_nei new_node get_idx_of_min_cost
    visit_neis visit_nei erase fill_table value_at hops_loop entry_text print_int
output = refl
