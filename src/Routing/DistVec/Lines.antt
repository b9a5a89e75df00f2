-- ===== src/Routing/DistVec/Lines.antt =====
-- What the lines of mp3/src/distvec.cpp leave: networks from which the rounds start, their costs and sizes.
use networking_learning.Base.{
  ℕ, suc, ◌+◌, ◌*◌, ◌≤◌, ◌<◌, ◌≡◌, ◌∙◌, ap, subst, sym, refl, inl, inr, List, [], ◌∷◌, length, Bool,
  some, arith, done, ◌==◌, ◌&&◌, ◌||◌, Bool-cases, if◌then◌else◌, ltb,
}
use networking_learning.Http.CString.{ℤ}
use networking_learning.Routing.Map.{find, insert, find_nil}
use networking_learning.Routing.Line.{read_line}
use networking_learning.Routing.LinkState.{Node, Graph, is_some, int_max}
use networking_learning.Routing.LinkState.Paths.{cost, IsGraph}
use networking_learning.Routing.LinkState.Edges.{wanted}
use networking_learning.Routing.LinkState.Graphs.{
  change_edge-cost, change_edge-IsGraph, empty-IsGraph,
}
use networking_learning.Routing.DistVec.{
  Router, Network, keys, stored_router, change_side, far_rows, initial_all_dist, change_edge,
  build_graph, build_nodes_forwarding_tables,
}
use networking_learning.Routing.DistVec.Networks.{IsNetwork}
use networking_learning.Routing.DistVec.Settling.{rounds-IsSettled}
use networking_learning.Routing.DistVec.Optimal.{settled-IsInformed}
use networking_learning.Routing.DistVec.Views.{view, view-change_edge}
use networking_learning.Routing.DistVec.Starting.{IsBase, Key, Key-insert, empty-IsBase}
use networking_learning.Routing.DistVec.Initial.{is_some-view, is_some-far_rows, change_edge-IsBase}
use networking_learning.Routing.DistVec.Beginning.{change_edge-IsNetwork}
use networking_learning.Routing.DistVec.Settled.{
  settled-IsBase, settled-IsGraph, settled-cost, key_small,
}
use networking_learning.Routing.DistVec.Learning.{IsLearned}
use networking_learning.Routing.DistVec.Results.{length_same}

-- A network from which the rounds start.
pub record IsReady (net : Network) : Type 0 where
  pub base : IsBase net
  pub graph : IsGraph (view net)
  pub start : (c : ℕ) → IsNetwork (view net) c net

pub empty-IsReady : IsReady []
empty-IsReady = record {
  base = empty-IsBase;
  graph = empty-IsGraph;
  start = λ c. record {
    ascending = tt;
    nodes = λ x. ap is_some (find_nil {V = Router} x) ∙ sym (ap is_some (find_nil {V = Node} x));
    router = λ u r f. absurd (cc (f, find_nil {V = Router} u));
    idle = λ u r f. absurd (cc (f, find_nil {V = Router} u));
    limited = λ u x r f. absurd (cc (f, find_nil {V = Router} u));
    relaxed = λ u v w x r s f. absurd (cc (f, find_nil {V = Router} u));
  };
}

pub change_edge-IsReady :
    (net : Network) (a b : ℕ) (d : ℤ)
    → IsBase net
    → IsGraph (view net)
    → a < 4294967296
    → b < 4294967296
    → IsReady (change_edge net a b d)
change_edge-IsReady net a b d base valid la lb =
    let same = sym (view-change_edge net a b d) in
    record {
      base = change_edge-IsBase net a b d la lb base;
      graph = subst IsGraph same (change_edge-IsGraph (view net) a b d valid);
      start = λ c.
          subst (λ g. IsNetwork g c (change_edge net a b d)) same
            (change_edge-IsNetwork net a b d c base valid la lb);
    }

abbrev pub Costs : ℕ → Graph → Type 0
Costs c g = (x y w : ℕ) → cost g x y ≡ some w → w ≤ c

-- The rounds from a network that is ready.
pub ready_rounds :
    (net : Network) (c : ℕ)
    → IsReady net
    → Costs c (view net)
    → c * length net < int_max
    → (h : Network) × (build_nodes_forwarding_tables net ≡ done h) × IsLearned (view net) h
ready_rounds net c ready costs fits =
    let g = view net in
    let (h, run, settled) =
      rounds-IsSettled g c net ready.graph costs
        (λ x i. key_small net ready.base x (sym (is_some-view net x) ∙ i)) (ready.start c) fits in
    (
      h,
      run,
      record {
        nodes = settled.nodes;
        informed = settled-IsInformed g ready.graph c costs h settled;
        edges = settled-cost g ready.graph c h settled;
        graph = settled-IsGraph g ready.graph c h settled;
        base = settled-IsBase g ready.graph c h settled;
      },
    )

-- The ids of a line have 32 bits, and the cost that it sets is at most `c`.
abbrev pub IsSmall : ℕ → ℕ × ℕ × ℤ → Type 0
IsSmall c (a, b, d) = (a < 4294967296) × (b < 4294967296) × ((w : ℕ) → wanted d ≡ some w → w ≤ c)

abbrev pub AllSmall : ℕ → List (ℕ × ℕ × ℤ) → Type 0
AllSmall c [] = Unit
AllSmall c (l ∷ ls) = IsSmall c l × AllSmall c ls

pub view-cost :
    (net : Network) (a b : ℕ) (d : ℤ) (x y : ℕ)
    → cost (view (change_edge net a b d)) x y
      ≡ (if (a == x && b == y) || (b == x && a == y) then wanted d else cost (view net) x y)
view-cost net a b d x y =
    ap (λ g. cost g x y) (view-change_edge net a b d) ∙ change_edge-cost (view net) a b d x y

pub Costs-change :
    (net : Network) (a b : ℕ) (d : ℤ) (c : ℕ)
    → Costs c (view net)
    → ((w : ℕ) → wanted d ≡ some w → w ≤ c)
    → Costs c (view (change_edge net a b d))
Costs-change net a b d c costs small x y w k =
    elim (Bool-cases ((a == x && b == y) || (b == x && a == y))) [
      | inl e ↦ small w (sym (by e) ∙ k)
      | inr e ↦ costs x y w (sym (by e) ∙ k)
    ]
  where
    by :
        {t : Bool}
        → ((a == x && b == y) || (b == x && a == y)) ≡ t
        → cost (view (change_edge net a b d)) x y ≡ (if t then wanted d else cost (view net) x y)
    by e = view-cost net a b d x y ∙ ap (λ z. if z then wanted d else cost (view net) x y) e

length-insert : (k : ℕ) (r : Router) (net : Network) → length (insert k r net) ≤ suc (length net)
unfolding insert
length-insert k r [] = omega arith
length-insert k r ((b, s) ∷ net) = elim (Bool-cases (b == k)) [
  | inl e ↦ rw e (omega arith)
  | inr ne ↦ elim (Bool-cases (ltb k b)) [
    | inl l ↦ rw (ne, l) (omega arith)
    | inr l ↦ rw (ne, l) (omega (arith, length-insert k r net))
  ]
]

length-far_rows : (all : List ℕ) (net : Network) → length (far_rows all net) ≡ length net
length-far_rows all [] = refl
length-far_rows all ((k, r) ∷ net) = ap suc (length-far_rows all net)

pub length-change_edge :
    (net : Network) (a b : ℕ) (d : ℤ) → length (change_edge net a b d) ≤ 2 + length net
unfolding change_edge initial_all_dist change_side
length-change_edge net a b d =
    let m = change_side net a b d in
    omega (
      arith,
      length-far_rows (keys (change_side m b a d)) (change_side m b a d),
      length-insert b (stored_router (find m b) b a d) m,
      length-insert a (stored_router (find net a) a b d) net,
    )

pub Key-change_edge :
    (net : Network) (a b : ℕ) (d : ℤ) (x : ℕ) → Key net x → Key (change_edge net a b d) x
unfolding change_edge initial_all_dist change_side
Key-change_edge net a b d x k =
    let m = change_side net a b d in
    is_some-far_rows (keys (change_side m b a d)) (change_side m b a d) x
    ∙ Key-insert m b (stored_router (find m b) b a d) x
        (Key-insert net a (stored_router (find net a) a b d) x k)

pub build_graph_run :
    (line : List ℕ) (net : Network) (a b : ℕ) (d : ℤ)
    → read_line line ≡ done (a, b, d)
    → build_graph line net ≡ done (change_edge net a b d)
unfolding build_graph
build_graph_run line net a b d e = rw e refl

pub length-learned :
    (net h : Network) → IsReady net → IsLearned (view net) h → length h ≡ length net
length-learned net h ready learned =
    let base = learned.base in
    let base₀ = ready.base in
    length_same h net base.ascending base₀.ascending (λ x. learned.nodes x ∙ is_some-view net x)
