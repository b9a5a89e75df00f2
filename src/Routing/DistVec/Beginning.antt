-- ===== src/Routing/DistVec/Beginning.antt =====
-- `build_graph` of mp3/src/distvec.cpp leaves a network from which the rounds start.
use networking_learning.Base.{
  ℕ, ◌<◌, ◌≡◌, ◌≢◌, ◌∙◌, ap, subst, sym, ◌⊎◌, inl, inr, true, false, Option, none, some, arith,
  Bool-cases, eq_or_ne,
}
use networking_learning.Http.CString.{ℤ}
use networking_learning.Routing.Map.{find, some_inj, Option-cases}
use networking_learning.Routing.LinkState
use networking_learning.Routing.LinkState.{Node, Graph, is_some, contains, int_max}
use networking_learning.Routing.LinkState.Paths.{cost_in, IsGraph}
use networking_learning.Routing.LinkState.Graphs.{change_edge-IsGraph}
use networking_learning.Routing.DistVec.{
  Router, Network, start_vector, change_side, initial_all_dist, change_edge, keys,
}
use networking_learning.Routing.DistVec.Vectors.{far, far_of, IsVector}
use networking_learning.Routing.DistVec.Sending.{keys_found}
use networking_learning.Routing.DistVec.Networks.{IsRouter, IsNetwork}
use networking_learning.Routing.DistVec.Views.{
  view, find-view, node_of, view-initial, view-change_edge,
}
use networking_learning.Routing.DistVec.Fresh.{IsFar}
use networking_learning.Routing.DistVec.Starting.{IsBase, change_side-IsBase}
use networking_learning.Routing.DistVec.Initial.{
  find-far_rows, is_some-view, is_some-far_rows, Ascending-far_rows, far-IsStill, budget_own,
}

module _ (m : Network) (base : IsBase m) (valid : IsGraph (view m)) where
  -- A node knows itself, and of the other nodes that they are far.
  data IsEntry (u x : ℕ) (o : Option ℕ) : Type 0 where
    itself : x ≡ u → o ≡ some 0 → IsEntry u x o
    another : x ≢ u → is_some (find m x) ≡ true → o ≡ some int_max → IsEntry u x o
    nobody : x ≢ u → is_some (find m x) ≡ false → o ≡ none → IsEntry u x o

  IsEntry-of :
      (u x : ℕ) (r s : Router)
      → find m u ≡ some r
      → IsFar u (keys m) r s
      → IsEntry u x (find s.distance_to x)
  IsEntry-of u x r s f is_far =
      let still = base.still u r f in
      elim (eq_or_ne x u) [
        | inl q ↦ itself q (ap (find s.distance_to) q ∙ is_far.own ∙ still.own)
        | inr ne ↦ elim (Bool-cases (is_some (find m x))) [
          | inl i ↦ another ne i (is_far.others x (λ q. ne (sym q)) (keys_found m x i))
          | inr i ↦ nobody ne i (elim (Option-cases (find s.distance_to x)) [
            | inl n ↦ n
            | inr (d, e) ↦
                absurd (cc (i, (far-IsStill m u r s is_far still).keys_only x (ap is_some e)))
          ])
        ]
      ]

  entry_some :
      (u x d : ℕ) (o : Option ℕ)
      → IsEntry u x o
      → o ≡ some d
      → ((x ≡ u) × (d ≡ 0)) ⊎ ((x ≢ u) × (d ≡ int_max))
  entry_some u x d o (itself q e) f = inl (q, some_inj (sym f ∙ e))
  entry_some u x d o (another ne i e) f = inr (ne, some_inj (sym f ∙ e))
  entry_some u x d o (nobody ne i e) f = absurd (cc (f, e))

  entry_key :
      (u x : ℕ) (o : Option ℕ)
      → is_some (find m u) ≡ true
      → IsEntry u x o
      → is_some o ≡ is_some (find m x)
  entry_key u x o k (itself q e) = ap is_some e ∙ sym k ∙ ap (λ z. is_some (find m z)) (sym q)
  entry_key u x o k (another ne i e) = ap is_some e ∙ sym i
  entry_key u x o k (nobody ne i e) = ap is_some e ∙ sym i

  entry_far :
      (u x : ℕ) (o : Option ℕ) → IsEntry u x o → far_of o < int_max → (x ≡ u) × (far_of o ≡ 0)
  entry_far u x o (itself q e) l = (q, ap far_of e)
  entry_far u x o (another ne i e) l = absurd (omega (arith, l, ap far_of e))
  entry_far u x o (nobody ne i e) l = absurd (omega (arith, l, ap far_of e))

  fresh-IsVector :
      (u : ℕ) (r s : Router)
      → find m u ≡ some r
      → IsFar u (keys m) r s
      → IsVector (view m) u (start_vector s)
  fresh-IsVector u r s f is_far =
      let still = far-IsStill m u r s is_far (base.still u r f) in
      let entry : (x : ℕ) → IsEntry u x (find s.distance_to x) = λ x. IsEntry-of u x r s f is_far in
      record {
        ascending = still.ascending;
        known = λ x.
            entry_key u x (find s.distance_to x) (ap is_some f) (entry x) ∙ sym (is_some-view m x);
        own = still.own;
        bounded = λ x d e. elim (entry_some u x d (find s.distance_to x) (entry x) e) [
          | inl (p, z) ↦ omega (arith, z)
          | inr (p, z) ↦ omega (arith, z)
        ];
        hop = λ x d ne e l. elim (entry_some u x d (find s.distance_to x) (entry x) e) [
          | inl (p, z) ↦ absurd (ne p)
          | inr (p, z) ↦ absurd (omega (arith, z, l))
        ];
        home = still.home;
        small = still.small;
      }

  fresh-IsRouter :
      (u : ℕ) (r s : Router) → find m u ≡ some r → IsFar u (keys m) r s → IsRouter (view m) u s
  fresh-IsRouter u r s f is_far =
      let at : find (view m) u ≡ some s.node =
        find-view m u ∙ ap node_of f ∙ ap some (sym is_far.node) in
      record {
        id_is = valid.id_is u s.node at;
        edges = λ y. sym (ap (λ o. cost_in o y) at);
        distinct = valid.distinct u s.node at;
        listed = λ y. valid.listed u s.node at y ∙ sym (ap (λ o. is_some (cost_in o y)) at);
        vector = fresh-IsVector u r s f is_far;
      }

  pub fresh-IsNetwork : (c : ℕ) → IsNetwork (view m) c (initial_all_dist m)
  unfolding initial_all_dist
  fresh-IsNetwork c = record {
    ascending = Ascending-far_rows (keys m) m base.ascending;
    nodes = λ x. is_some-far_rows (keys m) m x ∙ sym (is_some-view m x);
    router = λ u s f.
        let (r, fr, is_far) = find-far_rows (keys m) m u s f in fresh-IsRouter u r s fr is_far;
    idle = λ u s f.
        let (r, fr, is_far) = find-far_rows (keys m) m u s f in
        let still = base.still u r fr in is_far.updates ∙ still.idle;
    limited = λ u x s f l.
        let (r, fr, is_far) = find-far_rows (keys m) m u s f in
        let (q, z) = entry_far u x (find s.distance_to x) (IsEntry-of u x r s fr is_far) l in
        omega (arith, z, budget_own c (initial_all_dist m) u x s f l);
    relaxed = λ u v w x s t fs ft k flag l.
        let (r, fr, is_far) = find-far_rows (keys m) m v t ft in
        let (p, fp, _) = find-far_rows (keys m) m u s fs in
        elim (eq_or_ne v u) [
          | inl q ↦
              let same : s ≡ t = some_inj (sym fs ∙ ap (find (initial_all_dist m)) (sym q) ∙ ft) in
              omega (arith, ap (λ (a : Router). far a.distance_to x) same)
          | inr ne ↦ absurd (cc (flag, is_far.flag u ne (keys_found m u (ap is_some fp))))
        ];
  }

-- After a line, whatever the network was.
pub change_edge-IsNetwork :
    (net : Network) (a b : ℕ) (d : ℤ) (c : ℕ)
    → IsBase net
    → IsGraph (view net)
    → a < 4294967296
    → b < 4294967296
    → IsNetwork (LinkState.change_edge (view net) a b d) c (change_edge net a b d)
unfolding change_edge
change_edge-IsNetwork net a b d c base valid l k =
    let m = change_side (change_side net a b d) b a d in
    let same : view m ≡ LinkState.change_edge (view net) a b d =
      sym (view-initial m) ∙ view-change_edge net a b d in
    let is_base =
      change_side-IsBase (change_side net a b d) b a d k (change_side-IsBase net a b d l base) in
    let is_graph = subst IsGraph (sym same) (change_edge-IsGraph (view net) a b d valid) in
    subst (λ g. IsNetwork g c (initial_all_dist m)) same (fresh-IsNetwork m is_base is_graph c)
