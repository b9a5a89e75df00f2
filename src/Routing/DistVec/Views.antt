-- ===== src/Routing/DistVec/Views.antt =====
-- The graph under the network of mp3/src/distvec.cpp: its lines make the same graph as those of
-- mp3/src/linkstate.cpp.
use networking_learning.Base.{
  ℕ, zero, suc, ◌≡◌, ◌∙◌, ap, subst, sym, refl, inl, inr, ltb, ◌==◌, List, [], ◌∷◌, Option, none,
  some, Bool-cases, eq_or_ne,
}
use networking_learning.Http.CString.{ℤ, pos, negsuc}
use networking_learning.Routing.Map.{find, insert, find_nil, find_first, find_later}
use networking_learning.Routing.LinkState
use networking_learning.Routing.LinkState.{
  Node, Graph, new_node, remove_nei, add_or_update_nei, change_nei,
}
use networking_learning.Routing.LinkState.Graphs.{stored, change_side-insert}
use networking_learning.Routing.DistVec.{
  Router, Network, new_router, drop_nei, set_nei, change_router, stored_router, change_side,
  far_step, far_row, far_rows, initial_all_dist, change_edge, initial_distance_of_node, keys,
}

abbrev pub view : Network → Graph
view [] = []
view ((k, r) ∷ net) = (k, r.node) ∷ view net

abbrev pub node_of : Option Router → Option Node
node_of none = none
node_of (some r) = some r.node

pub find-view : (net : Network) (u : ℕ) → find (view net) u ≡ node_of (find net u)
find-view [] u = find_nil u ∙ ap node_of (sym (find_nil u))
find-view ((k, r) ∷ net) u = elim (eq_or_ne k u) [
  | inl q ↦
      subst (λ z. find (view ((k, r) ∷ net)) z ≡ node_of (find ((k, r) ∷ net) z)) q
        (find_first (view net) k r.node ∙ ap node_of (sym (find_first net k r)))
  | inr ne ↦
      find_later (view net) k r.node u ne
      ∙ find-view net u
      ∙ ap node_of (sym (find_later net k r u ne))
]

view-insert :
    (net : Network) (k : ℕ) (r : Router) → view (insert k r net) ≡ insert k r.node (view net)
unfolding insert
view-insert [] k r = refl
view-insert ((b, s) ∷ net) k r = elim (Bool-cases (b == k)) [
  | inl e ↦ rw e refl
  | inr ne ↦ elim (Bool-cases (ltb k b)) [
    | inl lt ↦ rw (ne, lt) refl
    | inr ge ↦ rw (ne, ge) (ap (λ m. (b, s.node) ∷ m) (view-insert net k r))
  ]
]

stored-node :
    (o : Option Router) (a b : ℕ) (d : ℤ) → (stored_router o a b d).node ≡ stored (node_of o) a b d
unfolding change_router change_nei set_nei drop_nei new_router
stored-node (some r) a b (pos zero) = refl
stored-node (some r) a b (pos (suc k)) = refl
stored-node (some r) a b (negsuc k) = refl
stored-node none a b (pos zero) = refl
stored-node none a b (pos (suc k)) = refl
stored-node none a b (negsuc k) = refl

view-change_side :
    (net : Network) (a b : ℕ) (d : ℤ)
    → view (change_side net a b d) ≡ LinkState.change_side (view net) a b d
unfolding change_side
view-change_side net a b d =
    view-insert net a (stored_router (find net a) a b d)
    ∙ ap (λ n. insert a n (view net))
        (stored-node (find net a) a b d ∙ ap (λ o. stored o a b d) (sym (find-view net a)))
    ∙ sym (change_side-insert (view net) a b d)

far_step-node : (k j : ℕ) (r : Router) → (far_step k j r).node ≡ r.node
unfolding far_step initial_distance_of_node
far_step-node k j r = elim (Bool-cases (k == j)) [ inl e ↦ rw e refl | inr e ↦ rw e refl ]

far_row-node : (k : ℕ) (all : List ℕ) (r : Router) → (far_row k all r).node ≡ r.node
far_row-node k [] r = refl
far_row-node k (j ∷ all) r = far_row-node k all (far_step k j r) ∙ far_step-node k j r

pub view-far_rows : (all : List ℕ) (net : Network) → view (far_rows all net) ≡ view net
view-far_rows all [] = refl
view-far_rows all ((k, r) ∷ net) =
    ap (λ n. (k, n) ∷ view (far_rows all net)) (far_row-node k all r)
    ∙ ap (λ m. (k, r.node) ∷ m) (view-far_rows all net)

pub view-initial : (net : Network) → view (initial_all_dist net) ≡ view net
unfolding initial_all_dist
view-initial net = view-far_rows (keys net) net

-- A line changes the graph under the network as it does in link state routing.
pub view-change_edge :
    (net : Network) (a b : ℕ) (d : ℤ)
    → view (change_edge net a b d) ≡ LinkState.change_edge (view net) a b d
unfolding change_edge initial_all_dist LinkState.change_edge
view-change_edge net a b d =
    view-far_rows (keys (change_side (change_side net a b d) b a d))
      (change_side (change_side net a b d) b a d)
    ∙ view-change_side (change_side net a b d) b a d
    ∙ ap (λ g. LinkState.change_side g b a d) (view-change_side net a b d)
