-- ===== src/Routing/LinkState/Same.antt =====
-- Tables of mp3/src/linkstate.cpp over two graphs with the same nodes and edges: the tables of the
-- nodes are what the program changes while it builds them.
use networking_learning.Base.{ℕ, ◌≡◌, ◌∙◌, sym}
use networking_learning.Routing.Map.{find}
use networking_learning.Routing.LinkState.{Graph, is_some}
use networking_learning.Routing.LinkState.Table.{Tables}
use networking_learning.Routing.LinkState.Paths.{cost, Walk, here, step, IsDistance, Fits}
use networking_learning.Routing.LinkState.Hops.{IsNextHop}
use networking_learning.Routing.LinkState.Routes.{IsRouted}

pub record SameEdges (g h : Graph) : Type 0 where
  pub nodes : (x : ℕ) → is_some (find g x) ≡ is_some (find h x)
  pub costs : (x y : ℕ) → cost g x y ≡ cost h x y

pub SameEdges-sym : (g h : Graph) → SameEdges g h → SameEdges h g
SameEdges-sym g h e = record { nodes = λ x. sym (e.nodes x); costs = λ x y. sym (e.costs x y) }

pub SameEdges-trans : (g h i : Graph) → SameEdges g h → SameEdges h i → SameEdges g i
SameEdges-trans g h i e f = record {
  nodes = λ x. e.nodes x ∙ f.nodes x;
  costs = λ x y. e.costs x y ∙ f.costs x y;
}

Walk-same : (g h : Graph) (root x d : ℕ) → SameEdges g h → Walk g root x d → Walk h root x d
Walk-same g h root x d e (here y d' p q) = here y d' p q
Walk-same g h root x d e (step {x = a} {d = b} walk y w c k sum) =
    step (Walk-same g h root a b e walk) y w c (sym (e.costs a y) ∙ k) sum

IsDistance-same :
    (g h : Graph) (root x d : ℕ) → SameEdges g h → IsDistance g root x d → IsDistance h root x d
IsDistance-same g h root x d e v = record {
  walk = Walk-same g h root x d e v.walk;
  least = λ c w. v.least c (Walk-same h g root x c (SameEdges-sym g h e) w);
}

pub Fits-same : (g h : Graph) (root : ℕ) → SameEdges g h → Fits g root → Fits h root
Fits-same g h root e fits x y d w v k =
    fits x y d w (IsDistance-same h g root x d (SameEdges-sym g h e) v) (e.costs x y ∙ k)

IsNextHop-same :
    (g h : Graph) (root hop x d : ℕ)
    → SameEdges g h
    → IsNextHop g root hop x d
    → IsNextHop h root hop x d
IsNextHop-same g h root hop x d e v = record {
  edge = v.edge;
  is_edge = sym (e.costs root hop) ∙ v.is_edge;
  rest = v.rest;
  walk = Walk-same g h hop x v.rest e v.walk;
  sum = v.sum;
}

pub IsRouted-same :
    (g h : Graph) (root : ℕ) (t : Tables) → SameEdges g h → IsRouted g root t → IsRouted h root t
IsRouted-same g h root t e v = record {
  complete = λ x i. v.complete x (e.nodes x ∙ i);
  reached = λ x d r l. IsDistance-same g h root x d e (v.reached x d r l);
  unreached = λ x c r w. v.unreached x c r (Walk-same h g root x c (SameEdges-sym g h e) w);
  next_hop = λ x d ne r l.
      let (hop, f, n) = v.next_hop x d ne r l in (hop, f, IsNextHop-same g h root hop x d e n);
  no_hop = v.no_hop;
  self = v.self;
  back = λ x d ne r l.
      let (p, a, w, is_prev, reach, fin, k, sum) = v.back x d ne r l in
      (p, a, w, is_prev, reach, fin, sym (e.costs p x) ∙ k, sum);
}
