-- ===== src/Routing/LinkState/Network.antt =====
-- `build_nodes_forwarding_tables` of mp3/src/linkstate.cpp: the tables of all nodes.
use networking_learning.Base.{
  ℕ, ◌≡◌, ◌≢◌, ◌∙◌, ap, subst, sym, refl, inl, inr, [], ◌∷◌, Option, none, some, arith, Proc, done,
  ◌>>=◌, eq_or_ne, true,
}
use networking_learning.Routing.Map.{
  find, insert, find_nil, find_cons, find_first, find_later, find-insert_same, find-insert_other,
  Option-cases,
}
use networking_learning.Routing.Line.{no_node}
use networking_learning.Routing.LinkState.{Node, Graph, is_some}
use networking_learning.Routing.LinkState.Table.{Tables, build_forwarding_table}
use networking_learning.Routing.LinkState.State.{
  LinkState, store, build_node, build_nodes, build_nodes_forwarding_tables,
}
use networking_learning.Routing.LinkState.Paths.{IsGraph, Fits}
use networking_learning.Routing.LinkState.Routes.{IsRouted, build_forwarding_table_lem}
use networking_learning.Routing.LinkState.Same.{
  SameEdges, SameEdges-sym, SameEdges-trans, Fits-same, IsRouted-same,
}
use networking_learning.Routing.LinkState.Keeping.{
  IsKept, build-IsKept, insert-IsGraph, insert-SameEdges,
}

-- The node `x` has the tables that it should have.
pub record Routed (g : Graph) (ls : LinkState) (x : ℕ) : Type 0 where
  pub tables : Tables
  pub node : find ls.graph x ≡ some tables.node
  pub prevs : find ls.prev_of_that_node x ≡ some tables.prevs
  pub distance : find ls.total_distance x ≡ some tables.distance
  pub routed : IsRouted g x tables

none_same : (o p : Option Node) → o ≡ none → is_some o ≡ is_some p → p ≡ none
none_same o none e s = refl
none_same o (some n) e s = absurd (cc (e, s))

pub is_some_cons :
    (m : Graph) (k : ℕ) (n : Node) (x : ℕ)
    → is_some (find m x) ≡ true
    → is_some (find ((k, n) ∷ m) x) ≡ true
is_some_cons m k n x f = ground (arith, find_cons m k n x)

then_done :
    (p : Proc LinkState) (q : LinkState → Proc LinkState) (a : LinkState) (r : Proc LinkState)
    → p ≡ done a
    → q a ≡ r
    → (p >>= q) ≡ r
then_done p q a r e f = ap (λ z. z >>= q) e ∙ f

build_node_run :
    (k : ℕ) (ls : LinkState) (n : Node) (t : Tables)
    → find ls.graph k ≡ some n
    → build_forwarding_table ls.graph n ≡ done t
    → build_node k ls ≡ done (store k t ls)
unfolding build_node
build_node_run k ls n t f run = rw (f, run)

-- The graph that the program reads, and what holds while the tables of its nodes are built.
module _ (g : Graph) (no_minus : find g no_node ≡ none) (fits : (x : ℕ) → Fits g x) where
  record IsState (ls : LinkState) : Type 0 where
    valid : IsGraph ls.graph
    same : SameEdges g ls.graph

  store-Routed_same :
      (k : ℕ) (t : Tables) (ls : LinkState)
      → t.node.id ≡ k
      → IsRouted g k t
      → Routed g (store k t ls) k
  unfolding store
  store-Routed_same k t ls e r = record {
    tables = t;
    node = find-insert_same ls.graph k t.node;
    prevs =
        subst (λ z. find (insert z t.prevs ls.prev_of_that_node) k ≡ some t.prevs) (sym e)
          (find-insert_same ls.prev_of_that_node k t.prevs);
    distance =
        subst (λ z. find (insert z t.distance ls.total_distance) k ≡ some t.distance) (sym e)
          (find-insert_same ls.total_distance k t.distance);
    routed = r;
  }

  store-Routed :
      (k : ℕ) (t : Tables) (ls : LinkState) (x : ℕ)
      → t.node.id ≡ k
      → IsRouted g k t
      → Routed g ls x
      → Routed g (store k t ls) x
  unfolding store
  store-Routed k t ls x e r old = elim (eq_or_ne k x) [
    | inl q ↦ subst (Routed g (store k t ls)) q (store-Routed_same k t ls e r)
    | inr ne ↦ record {
      tables = old.tables;
      node = find-insert_other ls.graph k t.node x ne ∙ old.node;
      prevs =
          find-insert_other ls.prev_of_that_node t.node.id t.prevs x (subst (λ z. z ≢ x) (sym e) ne)
          ∙ old.prevs;
      distance =
          find-insert_other ls.total_distance t.node.id t.distance x (subst (λ z. z ≢ x) (sym e) ne)
          ∙ old.distance;
      routed = old.routed;
    }
  ]

  build_node_lem :
      (k : ℕ) (ls : LinkState)
      → IsState ls
      → is_some (find g k) ≡ true
      → (ls' : LinkState) × (build_node k ls ≡ done ls')
        × IsState ls'
        × Routed g ls' k
        × ((x : ℕ) → Routed g ls x → Routed g ls' x)
  unfolding store
  build_node_lem k ls v is_node = elim (Option-cases (find ls.graph k)) [
    | inl f ↦ absurd (cc (is_node, let same = v.same in same.nodes k, ap is_some f))
    | inr (n, f) ↦
        let same = v.same in
        let id : n.id ≡ k = v.valid.id_is k n f in
        let (t, run, r) =
          build_forwarding_table_lem ls.graph n v.valid (ap (find ls.graph) id ∙ f)
            (none_same (find g no_node) (find ls.graph no_node) no_minus (same.nodes no_node))
            (Fits-same g ls.graph n.id same (fits n.id)) in
        let routed : IsRouted ls.graph k t = subst (λ z. IsRouted ls.graph z t) id r in
        let kept : IsKept n t.node = build-IsKept ls.graph n t run in
        let back : IsRouted g k t =
          IsRouted-same ls.graph g k t (SameEdges-sym g ls.graph same) routed in
        (
          store k t ls,
          build_node_run k ls n t f run,
          record {
            valid = insert-IsGraph ls.graph k n v.valid f t.node kept routed.self;
            same =
                SameEdges-trans g ls.graph (insert k t.node ls.graph) same
                  (insert-SameEdges ls.graph k n v.valid f t.node kept routed.self);
          },
          store-Routed_same k t ls (kept.id ∙ id) back,
          λ x old. store-Routed k t ls x (kept.id ∙ id) back old,
        )
  ]

  build_nodes_from :
      (rest : Graph) (ls : LinkState)
      → IsState ls
      → ((x : ℕ) → is_some (find rest x) ≡ true → is_some (find g x) ≡ true)
      → (ls' : LinkState) × (build_nodes rest ls ≡ done ls')
        × IsState ls'
        × ((x : ℕ) → is_some (find rest x) ≡ true → Routed g ls' x)
        × ((x : ℕ) → Routed g ls x → Routed g ls' x)
  unfolding build_nodes
  build_nodes_from [] ls v inside =
      (ls, refl, v, λ x f. absurd (cc (f, ap is_some (find_nil {V = Node} x))), λ x r. r)
  build_nodes_from ((k, n) ∷ rest) ls v inside =
      let (ls₁, run, v₁, routed, kept) =
        build_node_lem k ls v (inside k (ap is_some (find_first rest k n))) in
      let (ls₂, run₂, v₂, routed₂, kept₂) =
        build_nodes_from rest ls₁ v₁ (λ x f. inside x (is_some_cons rest k n x f)) in
      (
        ls₂,
        then_done (build_node k ls) (build_nodes rest) ls₁ (done ls₂) run run₂,
        v₂,
        λ x f. elim (eq_or_ne k x) [
          | inl e ↦ kept₂ x (subst (Routed g ls₁) e routed)
          | inr ne ↦ routed₂ x (sym (ap is_some (find_later rest k n x ne)) ∙ f)
        ],
        λ x r. kept₂ x (kept x r),
      )

-- For a well-formed graph with no node called -1 and no sum of a distance and a cost that reaches
-- INT_MAX, the function returns, keeps the graph well-formed and its edges as they are, and every node
-- gets the tables that it should have.
pub build_nodes_lem :
    (ls : LinkState)
    → IsGraph ls.graph
    → find ls.graph no_node ≡ none
    → ((x : ℕ) → Fits ls.graph x)
    → (ls' : LinkState) × (build_nodes_forwarding_tables ls ≡ done ls')
      × IsGraph ls'.graph
      × SameEdges ls.graph ls'.graph
      × ((x : ℕ) → is_some (find ls.graph x) ≡ true → Routed ls.graph ls' x)
unfolding build_nodes_forwarding_tables
build_nodes_lem ls valid no_minus fits =
    let (ls', run, v, routed, kept) =
      build_nodes_from ls.graph no_minus fits ls.graph ls
        (record { valid = valid; same = record { nodes = λ x. refl; costs = λ x y. refl } })
        (λ x f. f) in
    (ls', run, v.valid, v.same, routed)
