-- ===== src/Routing/LinkState/Printing.antt =====
-- `print_results` of mp3/src/linkstate.cpp: every entry that it reads is there.
use networking_learning.Base.{
  ℕ, ◌≡◌, ◌∙◌, ap, sym, refl, ◌⊎◌, inl, inr, List, [], ◌∷◌, ◌++◌, none, some, arith, done, eq_or_ne,
  true,
}
use networking_learning.Routing.Map.{
  Map, find, find_first, find_later, find-Above, some_inj, Ascending, Ascending-tail,
}
use networking_learning.Routing.LinkState.{Node, Graph, is_some, int_max, forwarding_hop}
use networking_learning.Routing.LinkState.Table.{Tables}
use networking_learning.Routing.LinkState.State.{
  LinkState, build_nodes_forwarding_tables, next_hops,
}
use networking_learning.Routing.LinkState.Output.{
  entry_text, distance_at, print_entry, print_row, print_tables,
}
use networking_learning.Routing.LinkState.Routes.{IsRouted}
use networking_learning.Routing.LinkState.Same.{SameEdges}
use networking_learning.Routing.LinkState.Network.{Routed, is_some_cons, build_nodes_lem}
use networking_learning.Routing.Line.{no_node}
use networking_learning.Routing.LinkState.Paths.{Walk, IsDistance, IsGraph, Fits}
use networking_learning.Routing.LinkState.WayBack.{WayBack, next_hops_lem}

-- A node has an entry for every node.
table_entry :
    (g : Graph) (root : ℕ) (t : Tables) (x : ℕ)
    → IsRouted g root t
    → is_some (find g x) ≡ true
    → (h : ℕ) × (find t.node.forwarding_table x ≡ some h)
table_entry g root t x r f = elim (eq_or_ne x root) [
  | inl e ↦ (root, ap (find t.node.forwarding_table) e ∙ r.self)
  | inr ne ↦
      let (d, dist, bound) = r.complete x f in
      elim (eq_or_ne d int_max) [
        | inl e ↦ (_, r.no_hop x (dist ∙ ap some e))
        | inr nd ↦ let (h, hop, n) = r.next_hop x d ne dist (omega (arith, bound, nd)) in (h, hop)
      ]
]

entry_run :
    (ls : LinkState) (from : ℕ) (n : Node) (x h : ℕ) (m : Map ℕ)
    → find n.forwarding_table x ≡ some h
    → find ls.total_distance from ≡ some m
    → print_entry ls from n x ≡ done (entry_text x h (distance_at m x))
unfolding print_entry forwarding_hop
entry_run ls from n x h m f t = rw (f, t) refl

row_run :
    (ls : LinkState) (from : ℕ) (n : Node) (x : ℕ) (m : Node) (rest : Graph) (line text : List ℕ)
    → print_entry ls from n x ≡ done line
    → print_row ls from n rest ≡ done text
    → print_row ls from n ((x, m) ∷ rest) ≡ done (line ++ text)
unfolding print_row
row_run ls from n x m rest line text e f = rw (e, f) refl

tables_run :
    (ls : LinkState) (x : ℕ) (m : Node) (rest : Graph) (row text : List ℕ)
    → print_row ls x m ls.graph ≡ done row
    → print_tables ls rest ≡ done text
    → print_tables ls ((x, m) ∷ rest) ≡ done (row ++ text)
unfolding print_tables
tables_run ls x m rest row text e f = rw (e, f) refl

module _ (g : Graph) (ls : LinkState) (same : SameEdges g ls.graph)
    (routed : (x : ℕ) → is_some (find g x) ≡ true → Routed g ls x) where
  row_lem :
      (from : ℕ) (r : Routed g ls from) (rest : Graph)
      → ((x : ℕ) → is_some (find rest x) ≡ true → is_some (find g x) ≡ true)
      → (text : List ℕ) × (print_row ls from r.tables.node rest ≡ done text)
  unfolding print_row
  row_lem from r [] inside = ([], refl)
  row_lem from r ((x, m) ∷ rest) inside =
      let (h, f) =
        table_entry g from r.tables x r.routed (inside x (ap is_some (find_first rest x m))) in
      let line = entry_text x h (distance_at r.tables.distance x) in
      let e = entry_run ls from r.tables.node x h r.tables.distance f r.distance in
      let (text, run) = row_lem from r rest (λ y i. inside y (is_some_cons rest x m y i)) in
      (line ++ text, row_run ls from r.tables.node x m rest line text e run)

  tables_from :
      (rest : Graph)
      → Ascending rest
      → ((x : ℕ) (n : Node) → find rest x ≡ some n → find ls.graph x ≡ some n)
      → (text : List ℕ) × (print_tables ls rest ≡ done text)
  unfolding print_tables
  tables_from [] up inside = ([], refl)
  tables_from ((x, m) ∷ rest) up inside =
      let found : find ls.graph x ≡ some m = inside x m (find_first rest x m) in
      let r : Routed g ls x = routed x (same.nodes x ∙ ap is_some found) in
      let (row, e) = row_lem x r ls.graph (λ y i. same.nodes y ∙ i) in
      let (text, run) = tables_from rest (Ascending-tail rest x up) (λ y n f. elim (eq_or_ne x y) [
        | inl q ↦ absurd (cc (sym (find-Above rest x y up (omega (arith, q))) ∙ f))
        | inr ne ↦ inside y n (find_later rest x m y ne ∙ f)
      ]) in
      (
        row ++ text,
        tables_run ls x m rest row text
            (ap (λ n. print_row ls x n ls.graph) (some_inj (sym found ∙ r.node)) ∙ e) run,
      )

-- For a well-formed graph with no node called -1 and no sum of a distance and a cost that reaches
-- INT_MAX, the tables are built, and then all of them are written: no entry that the loops read is
-- missing.
pub print_tables_lem :
    (ls : LinkState)
    → IsGraph ls.graph
    → find ls.graph no_node ≡ none
    → ((x : ℕ) → Fits ls.graph x)
    → (built : LinkState) × (text : List ℕ) × (build_nodes_forwarding_tables ls ≡ done built)
      × (print_tables built built.graph ≡ done text)
print_tables_lem ls valid no_minus fits =
    let (built, run, valid', same, routed) = build_nodes_lem ls valid no_minus fits in
    let (text, e) =
      tables_from ls.graph built same routed built.graph valid'.ascending (λ x n f. f) in
    (built, text, run, e)

-- For a well-formed graph with no node called -1 and no sum of a distance and a cost that reaches
-- INT_MAX, the tables are built, and the graph stays well-formed with the same edges; then, for two of its nodes, either the distance is INT_MAX and no walk
-- leads from one to the other, or `next_hops` returns the hops of a way of that distance, the least.
pub message_lem :
    (ls : LinkState) (from to : ℕ)
    → IsGraph ls.graph
    → find ls.graph no_node ≡ none
    → ((x : ℕ) → Fits ls.graph x)
    → is_some (find ls.graph from) ≡ true
    → is_some (find ls.graph to) ≡ true
    → (built : LinkState) × (distance : Map ℕ) × (d : ℕ) × (build_nodes_forwarding_tables ls
        ≡ done built)
      × IsGraph built.graph
      × SameEdges ls.graph built.graph
      × (find built.total_distance from ≡ some distance)
      × (find distance to ≡ some d)
      × (((d ≡ int_max) × ((e : ℕ) → ¬ Walk ls.graph from to e))
          ⊎ ((hops : List ℕ) × (next_hops built from to ≡ done hops)
              × WayBack ls.graph from to hops d
              × IsDistance ls.graph from to d))
message_lem ls from to valid no_minus fits is_from is_to =
    let (built, run, valid', same, routed) = build_nodes_lem ls valid no_minus fits in
    let r : Routed ls.graph built from = routed from is_from in
    let (d, dist, bound) = r.routed.complete to is_to in
    (
      built,
      r.tables.distance,
      d,
      run,
      valid',
      same,
      r.distance,
      dist,
      elim (eq_or_ne d int_max) [
        | inl e ↦ inl (e, λ w. r.routed.unreached to w (dist ∙ ap some e))
        | inr ne ↦ inr (
            next_hops_lem ls.graph from r.tables valid r.routed built to d r.prevs dist
              (omega (arith, bound, ne)))
      ],
    )
