-- ===== src/Routing/DistVec/Program.antt =====
-- The program of mp3/src/distvec.cpp on the lines of its three files.
use networking_learning.Base.{
  ℕ, zero, suc, ◌+◌, ◌*◌, ◌≤◌, ◌<◌, ◌≡◌, ◌∙◌, ap, sym, refl, List, [], ◌∷◌, ◌++◌, length, Option,
  none, arith, done, ◌>>=◌, ◌==◌, ◌&&◌, ◌||◌, if◌then◌else◌,
}
use networking_learning.Http.CString.{ℤ}
use networking_learning.Routing.Map.{find, find_nil}
use networking_learning.Routing.LinkState.{Node, is_some, int_max}
use networking_learning.Routing.LinkState.Paths.{cost, cost_in, IsGraph}
use networking_learning.Routing.LinkState.Edges.{wanted}
use networking_learning.Routing.LinkState.Topology.{Reads, last_cost}
use networking_learning.Routing.DistVec.{
  Network, change_edge, build_graph, build_nodes_forwarding_tables,
}
use networking_learning.Routing.DistVec.Views.{view}
use networking_learning.Routing.DistVec.Starting.{IsBase, Key}
use networking_learning.Routing.DistVec.Initial.{is_some-view}
use networking_learning.Routing.DistVec.Output.{
  print_results, read_topology, follow_changes, distance_vector,
}
use networking_learning.Routing.DistVec.Results.{
  AllName, AllName-more, IsResults, print_results_lem,
}
use networking_learning.Routing.DistVec.Lines.{
  AllSmall, Costs, Costs-change, IsReady, Key-change_edge, build_graph_run, change_edge-IsReady,
  empty-IsReady, length-change_edge, length-learned, ready_rounds, view-cost,
}

-- The rounds and the results after them.
record Round (net : Network) (costs : ℕ → ℕ → Option ℕ) (messages : List (List ℕ)) : Type 0 where
  built : Network
  next : Network
  text : List ℕ
  run : build_nodes_forwarding_tables net ≡ done built
  printed : print_results built messages ≡ done (next, text)
  results : IsResults costs messages text
  base : IsBase next
  graph : IsGraph (view next)
  edges : (x y : ℕ) → cost (view next) x y ≡ costs x y
  known : (x : ℕ) → Key net x → Key next x
  size : length next ≡ length net

IsResults-costs :
    (p q : ℕ → ℕ → Option ℕ) (messages : List (List ℕ)) (text : List ℕ)
    → ((x y : ℕ) → p x y ≡ q x y)
    → IsResults p messages text
    → IsResults q messages text
IsResults-costs p q messages text same r = record {
  g = r.g;
  graph = r.graph;
  edges = λ x y. r.edges x y ∙ same x y;
  net = r.net;
  learned = r.learned;
  after = r.after;
  names = r.names;
  sent = r.sent;
  text_is = r.text_is;
  few = r.few;
  many = r.many;
}

round_lem :
    (net : Network) (c : ℕ) (costs : ℕ → ℕ → Option ℕ) (messages : List (List ℕ))
    → IsReady net
    → Costs c (view net)
    → c * length net < int_max
    → AllName net messages
    → ((x y : ℕ) → cost (view net) x y ≡ costs x y)
    → Round net costs messages
round_lem net c costs messages ready small fits names same =
    let (h, run, learned) = ready_rounds net c ready small fits in
    let key : (x : ℕ) → is_some (find h x) ≡ is_some (find net x) =
      λ x. learned.nodes x ∙ is_some-view net x in
    let (j, text, printed, kept, results) =
      print_results_lem (view net) h messages ready.graph learned
        (AllName-more net h messages (λ x i. key x ∙ i) names) in
    record {
      built = h;
      next = j;
      text = text;
      run = run;
      printed = printed;
      results = IsResults-costs (cost (view net)) costs messages text same results;
      base = kept.base;
      graph = kept.graph;
      edges = λ x y. kept.edges x y ∙ same x y;
      known = λ x i. kept.nodes x ∙ is_some-view net x ∙ i;
      size = length-learned net j ready kept;
    }

-- What is written for the changes: the results after each, with the costs that the lines up to it set.
abbrev pub ArePrinted : (ℕ → ℕ → Option ℕ) → List (ℕ × ℕ × ℤ) → List (List ℕ) → List ℕ → Type 0
ArePrinted costs [] messages text = text ≡ []
ArePrinted costs (l ∷ ls) messages text =
    (out rest : List ℕ) × (text ≡ out ++ rest)
    × IsResults (λ x y. last_cost (l ∷ []) x y (costs x y)) messages out
    × ArePrinted (λ x y. last_cost (l ∷ []) x y (costs x y)) ls messages rest

follow_step :
    (line : List ℕ) (lines messages : List (List ℕ)) (net changed built next : Network)
    (out rest : List ℕ)
    → build_graph line net ≡ done changed
    → build_nodes_forwarding_tables changed ≡ done built
    → print_results built messages ≡ done (next, out)
    → follow_changes lines messages next ≡ done rest
    → follow_changes (line ∷ lines) messages net ≡ done (out ++ rest)
unfolding follow_changes
follow_step line lines messages net changed built next out rest a b p f = rw (a, b, p, f) refl

mul-le : (c m n : ℕ) → m ≤ n → c * m ≤ c * n
mul-le zero m n l = omega arith
mul-le (suc c) m n l = omega (arith, mul-le c m n l, mul_step c m, mul_step c n)
  where
    mul_step : (c m : ℕ) → suc c * m ≡ m + c * m
    mul_step c m = grind arith

follow_changes_lem :
    (lines : List (List ℕ)) (moves : List (ℕ × ℕ × ℤ)) (messages : List (List ℕ)) (c : ℕ)
    (net : Network) (costs : ℕ → ℕ → Option ℕ)
    → Reads lines moves
    → AllSmall c moves
    → IsBase net
    → IsGraph (view net)
    → Costs c (view net)
    → c * (length net + 2 * length moves) < int_max
    → AllName net messages
    → ((x y : ℕ) → cost (view net) x y ≡ costs x y)
    → (text : List ℕ) × (follow_changes lines messages net ≡ done text)
      × ArePrinted costs moves messages text
unfolding follow_changes
follow_changes_lem [] [] messages c net costs r s base graph small fits names same =
    ([], refl, refl)
follow_changes_lem [] (l ∷ moves) messages c net costs r s base graph small fits names same =
    absurd r
follow_changes_lem (line ∷ lines) [] messages c net costs r s base graph small fits names same =
    absurd r
follow_changes_lem (line ∷ lines) ((a, b, d) ∷ moves) messages c net costs (r, rs)
      ((la, lb, ld), ss) base graph small fits names same =
    let changed = change_edge net a b d in
    let costs' : ℕ → ℕ → Option ℕ = λ x y. last_cost ((a, b, d) ∷ []) x y (costs x y) in
    let grown = length-change_edge net a b d in
    let small' = Costs-change net a b d c small ld in
    let at : (x y : ℕ) → cost (view changed) x y ≡ costs' x y = λ x y.
      view-cost net a b d x y
      ∙ ap (λ k. if (a == x && b == y) || (b == x && a == y) then wanted d else k) (same x y) in
    let round =
      round_lem changed c costs' messages (change_edge-IsReady net a b d base graph la lb) small'
        (omega (
          arith,
          fits,
          mul-le c (length changed) (length net + 2 * length ((a, b, d) ∷ moves))
              (omega (arith, grown)),
        ))
        (AllName-more net changed messages (λ x. Key-change_edge net a b d x) names) at in
    let (rest, run, printed) =
      follow_changes_lem lines moves messages c round.next costs' rs ss round.base round.graph
        (λ x y w k. small' x y w (at x y ∙ sym (round.edges x y) ∙ k))
        (omega (
          arith,
          fits,
          mul-le c (length round.next + 2 * length moves)
              (length net + 2 * length ((a, b, d) ∷ moves)) (omega (arith, grown, round.size)),
        ))
        (AllName-more net round.next messages (λ x i. round.known x (Key-change_edge net a b d x i))
          names)
        round.edges in
    (
      round.text ++ rest,
      follow_step line lines messages net changed round.built round.next round.text rest
          (build_graph_run line net a b d r) round.run round.printed run,
      (round.text, rest, refl, round.results, printed),
    )

-- The network that the topology makes.
record IsTopology (c : ℕ) (edges : List (ℕ × ℕ × ℤ)) (costs : ℕ → ℕ → Option ℕ) (size : ℕ)
    (net : Network) : Type 0 where
  ready : IsReady net
  small : Costs c (view net)
  last : (x y : ℕ) → cost (view net) x y ≡ last_cost edges x y (costs x y)
  length_le : length net ≤ size + 2 * length edges

read_from :
    (lines : List (List ℕ)) (edges : List (ℕ × ℕ × ℤ)) (c : ℕ) (net : Network)
    → Reads lines edges
    → AllSmall c edges
    → IsReady net
    → Costs c (view net)
    → (out : Network) × (read_topology lines net ≡ done out)
      × IsTopology c edges (cost (view net)) (length net) out
unfolding read_topology
read_from [] [] c net r s ready small = (
  net,
  refl,
  record { ready = ready; small = small; last = λ x y. refl; length_le = omega arith },
)
read_from [] (l ∷ edges) c net r s ready small = absurd r
read_from (line ∷ lines) [] c net r s ready small = absurd r
read_from (line ∷ lines) ((a, b, d) ∷ edges) c net (r, rs) ((la, lb, ld), ss) ready small =
    let changed = change_edge net a b d in
    let (out, run, is) =
      read_from lines edges c changed rs ss
        (change_edge-IsReady net a b d ready.base ready.graph la lb)
        (Costs-change net a b d c small ld) in
    (
      out,
      ap (λ p. p >>= read_topology lines) (build_graph_run line net a b d r) ∙ run,
      record {
        ready = is.ready;
        small = is.small;
        last = λ x y. is.last x y ∙ ap (last_cost edges x y) (view-cost net a b d x y);
        length_le = omega (arith, is.length_le, length-change_edge net a b d);
      },
    )

distance_vector_run :
    (topofile messagefile changesfile : List (List ℕ)) (net built next : Network)
    (out rest : List ℕ)
    → read_topology topofile [] ≡ done net
    → build_nodes_forwarding_tables net ≡ done built
    → print_results built messagefile ≡ done (next, out)
    → follow_changes changesfile messagefile next ≡ done rest
    → distance_vector topofile messagefile changesfile ≡ done (out ++ rest)
unfolding distance_vector
distance_vector_run topofile messagefile changesfile net built next out rest a b p f =
    rw (a, b, p, f) refl

no_cost : (x y : ℕ) → cost (view []) x y ≡ none
no_cost x y = ap (λ o. cost_in o y) (find_nil {V = Node} x)

-- Where every line of the topology and of the changes is read, with ids of 32 bits and costs of at most
-- `c`, twice as many nodes as lines times `c` stay below INT_MAX, and every message is between two nodes
-- of the topology, the program returns. It writes the results for the topology and then those after
-- each change: the tables of a network where every node knows its distances and the first hops of
-- shortest ways, and with 8 nodes or more the messages along shortest ways, all for the graph in which
-- the last line that names two nodes decides the cost between them.
pub distance_vector_lem :
    (topofile messagefile changesfile : List (List ℕ)) (edges moves : List (ℕ × ℕ × ℤ)) (c : ℕ)
    → Reads topofile edges
    → Reads changesfile moves
    → AllSmall c edges
    → AllSmall c moves
    → c * (2 * length edges + 2 * length moves) < int_max
    → ((net : Network) → read_topology topofile [] ≡ done net → AllName net messagefile)
    → (out rest : List ℕ) × (distance_vector topofile messagefile changesfile ≡ done (out ++ rest))
      × IsResults (λ x y. last_cost edges x y none) messagefile out
      × ArePrinted (λ x y. last_cost edges x y none) moves messagefile rest
distance_vector_lem topofile messagefile changesfile edges moves c r rs s ss fits names =
    let costs : ℕ → ℕ → Option ℕ = λ x y. last_cost edges x y none in
    let (net, read, is) =
      read_from topofile edges c [] r s empty-IsReady (λ x y w k. absurd (cc (no_cost x y, k))) in
    let at : (x y : ℕ) → cost (view net) x y ≡ costs x y =
      λ x y. is.last x y ∙ ap (last_cost edges x y) (no_cost x y) in
    let round =
      round_lem net c costs messagefile is.ready is.small
        (omega (
          arith,
          fits,
          mul-le c (length net) (2 * length edges + 2 * length moves) (omega (arith, is.length_le)),
        ))
        (names net read) at in
    let (rest, run, printed) =
      follow_changes_lem changesfile moves messagefile c round.next costs rs ss round.base
        round.graph (λ x y w k. is.small x y w (at x y ∙ sym (round.edges x y) ∙ k))
        (omega (
          arith,
          fits,
          mul-le c (length round.next + 2 * length moves) (2 * length edges + 2 * length moves)
              (omega (arith, is.length_le, round.size)),
        ))
        (AllName-more net round.next messagefile round.known (names net read)) round.edges in
    (
      round.text,
      rest,
      distance_vector_run topofile messagefile changesfile net round.built round.next round.text
          rest read round.run round.printed run,
      round.results,
      printed,
    )
