-- ===== src/Routing/DistVec/Settled.antt =====
-- A settled network of mp3/src/distvec.cpp is one that the next line can change.
use networking_learning.Base.{
  ℕ, ◌*◌, ◌≤◌, ◌<◌, ◌≡◌, ◌∙◌, ap, subst, sym, inl, inr, true, false, length, some, arith, done,
  lt_or_le, eq_or_ne, [], ◌∷◌,
}
use networking_learning.Http.CString.{ℤ}
use networking_learning.Routing.Map.{find, some_inj, Option-cases, Ascending, Above}
use networking_learning.Routing.LinkState
use networking_learning.Routing.LinkState.{Node, Graph, is_some, contains, int_max}
use networking_learning.Routing.LinkState.Paths.{cost, cost_in, IsGraph, Fits, Distinct}
use networking_learning.Routing.LinkState.Graphs.{change_edge-IsGraph}
use networking_learning.Routing.DistVec.{
  Router, Network, change_edge, build_nodes_forwarding_tables,
}
use networking_learning.Routing.DistVec.Vectors.{far, far_of}
use networking_learning.Routing.DistVec.Rounds.{IsSettled}
use networking_learning.Routing.DistVec.Settling.{rounds-IsSettled}
use networking_learning.Routing.DistVec.Optimal.{settled-IsInformed}
use networking_learning.Routing.DistVec.Views.{view, find-view, node_of}
use networking_learning.Routing.DistVec.Starting.{IsBase}
use networking_learning.Routing.DistVec.Initial.{change_edge-IsBase}
use networking_learning.Routing.DistVec.Beginning.{change_edge-IsNetwork}

Above-view : (k : ℕ) (net : Network) → Above k net → Above k (view net)
Above-view k [] a = tt
Above-view k ((b, r) ∷ net) a = (a.0, Above-view b net a.1)

pub Ascending-view : (net : Network) → Ascending net → Ascending (view net)
Ascending-view [] a = tt
Ascending-view ((k, r) ∷ net) a = Above-view k net a

-- A settled network is one that the next line can change.
module _ (g : Graph) (valid : IsGraph g) (c : ℕ) (net : Network) (settled : IsSettled g c net) where
  pub settled-IsBase : IsBase net
  settled-IsBase = record {
    ascending = settled.ascending;
    still = λ u r f.
        let is_r = settled.router u r f in
        let vector = is_r.vector in
        record {
          ascending = vector.ascending;
          own = vector.own;
          keys_only = λ x i. settled.nodes x ∙ sym (vector.known x) ∙ i;
          home = vector.home;
          small = vector.small;
          idle = settled.idle u r f;
        };
  }

  pub settled-cost : (x y : ℕ) → cost (view net) x y ≡ cost g x y
  settled-cost x y = elim (Option-cases (find net x)) [
    | inl f ↦
        let none_g : is_some (find g x) ≡ false = sym (settled.nodes x) ∙ ap is_some f in
        elim (Option-cases (find g x)) [
          | inl z ↦ ap (λ o. cost_in o y) (find-view net x ∙ ap node_of f ∙ sym z)
          | inr (n, z) ↦ absurd (cc (none_g, ap is_some z))
        ]
    | inr (r, f) ↦
        let is_r = settled.router x r f in
        ap (λ o. cost_in o y) (find-view net x ∙ ap node_of f) ∙ is_r.edges y
  ]

  pub viewed :
      (x : ℕ) (n : Node)
      → find (view net) x ≡ some n
      → (r : Router) × (find net x ≡ some r) × (r.node ≡ n)
  viewed x n f = elim (Option-cases (find net x)) [
    | inl z ↦ absurd (cc (f, find-view net x, ap node_of z))
    | inr (r, z) ↦ (r, z, some_inj (sym (ap node_of z) ∙ sym (find-view net x) ∙ f))
  ]

  pub settled-IsGraph : IsGraph (view net)
  settled-IsGraph = record {
    ascending = Ascending-view net settled.ascending;
    id_is = λ x n f.
        let (r, z, q) = viewed x n f in
        let is_r = settled.router x r z in sym (ap (λ (m : Node). m.id) q) ∙ is_r.id_is;
    listed = λ x n f y.
        let (r, z, q) = viewed x n f in
        let is_r = settled.router x r z in
        subst (λ (m : Node). contains y m.neibours ≡ is_some (find m.edges y)) q
          (is_r.listed y ∙ ap is_some (sym (is_r.edges y)));
    distinct = λ x n f.
        let (r, z, q) = viewed x n f in
        let is_r = settled.router x r z in
        subst (λ (m : Node). Distinct m.neibours) q is_r.distinct;
    own = λ x n f.
        let (r, z, q) = viewed x n f in
        let is_r = settled.router x r z in
        let vector = is_r.vector in
        subst (λ (m : Node). find m.forwarding_table x ≡ some x) q vector.home;
    mutual_ends = λ x y. settled-cost x y ∙ valid.mutual_ends x y ∙ sym (settled-cost y x);
    positive = λ x y w k. valid.positive x y w (sym (settled-cost x y) ∙ k);
  }

  -- No sum that the link state search forms reaches INT_MAX.
  pub settled-Fits :
      (costs : (x y w : ℕ) → cost g x y ≡ some w → w ≤ c) (u : ℕ)
      → is_some (find g u) ≡ true
      → Fits g u
  settled-Fits costs u i x y d w v k = elim (Option-cases (find net u)) [
    | inl z ↦ absurd (cc (i, settled.nodes u, ap is_some z))
    | inr (r, z) ↦
        let informed = settled-IsInformed g valid c costs net settled u r z in
        let inside : is_some (find g x) ≡ true = cost_start x y w k in
        let (e, fe, le) = informed.complete x inside in
        elim (lt_or_le int_max e) [
          | inl l ↦ absurd (omega (arith, l, le))
          | inr l ↦ elim (eq_or_ne e int_max) [
            | inl q ↦ absurd (informed.unreached x d (fe ∙ ap some q) v.walk)
            | inr ne ↦
                let less : e < int_max = omega (arith, l, ne) in
                let is_least = informed.reached x e fe less in
                let same = is_least.least d v.walk in
                let more = v.least e is_least.walk in
                let far_e : far r.distance_to x ≡ e = ap far_of fe in
                let room = settled.room u x r z (omega (arith, far_e, less)) in
                omega (arith, room, far_e, more, same, costs x y w k)
          ]
        ]
  ]
    where
      cost_start : (a y w : ℕ) → cost g a y ≡ some w → is_some (find g a) ≡ true
      cost_start a y w k = elim (Option-cases (find g a)) [
        | inr (n, f) ↦ ap is_some f
        | inl f ↦ absurd (cc (k, ap (λ o. cost_in o y) f))
      ]

pub key_small :
    (net : Network) → IsBase net → (x : ℕ) → is_some (find net x) ≡ true → x < 4294967296
key_small net base x i = elim (Option-cases (find net x)) [
  | inl z ↦ absurd (cc (i, ap is_some z))
  | inr (r, z) ↦ let still = base.still x r z in still.small x x still.home
]

-- After a line, if n nodes with costs of at most `c` have c * n below INT_MAX, the rounds end with a
-- settled network over the graph that the line makes.
pub change_edge-IsSettled :
    (net : Network) (a b : ℕ) (d : ℤ) (c : ℕ)
    → IsBase net
    → IsGraph (view net)
    → a < 4294967296
    → b < 4294967296
    → ((x y w : ℕ) → cost (LinkState.change_edge (view net) a b d) x y ≡ some w → w ≤ c)
    → c * length (change_edge net a b d) < int_max
    → (h : Network) × (build_nodes_forwarding_tables (change_edge net a b d) ≡ done h)
      × IsSettled (LinkState.change_edge (view net) a b d) c h
change_edge-IsSettled net a b d c base valid la lb costs fits =
    let g = LinkState.change_edge (view net) a b d in
    let start = change_edge-IsNetwork net a b d c base valid la lb in
    rounds-IsSettled g c (change_edge net a b d) (change_edge-IsGraph (view net) a b d valid) costs
      (λ x i.
        key_small (change_edge net a b d) (change_edge-IsBase net a b d la lb base) x
          (start.nodes x ∙ i))
      start fits
