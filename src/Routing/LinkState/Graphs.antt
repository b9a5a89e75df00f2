-- ===== src/Routing/LinkState/Graphs.antt =====
-- The graph that `build_graph` of mp3/src/linkstate.cpp makes of the lines of its input.
use networking_learning.Base.{
  ℕ, zero, suc, ◌<◌, ◌≡◌, ◌∙◌, ap, subst, sym, refl, inl, inr, Bool, true, false, ◌==◌, ◌&&◌, ◌||◌,
  if◌then◌else◌, [], Option, none, some, arith, eq_or_ne, eq→==, ne→==,
}
use networking_learning.Http.CString.{ℤ, pos, negsuc}
use networking_learning.Routing.Map.{
  find, insert, find-insert, find_nil, Option-cases, Ascending, Ascending-insert, entry-insert,
  some_inj, find-insert_same, find-insert_other,
}
use networking_learning.Routing.LinkState.{
  Node, Graph, is_some, new_node, add_or_update_nei, change_nei, change_side, change_edge,
}
use networking_learning.Routing.LinkState.Paths.{cost, cost_in, IsGraph}
use networking_learning.Routing.LinkState.Edges.{
  wanted, IsNode, change_nei-IsNode, find-change_nei, add-IsNode,
}

-- One side of a graph: everything but that the ends of an edge agree.
pub record IsSide (g : Graph) : Type 0 where
  pub ascending : Ascending g
  pub node : (x : ℕ) (n : Node) → find g x ≡ some n → IsNode x n

-- The node that `change_side` stores.
abbrev pub stored : Option Node → ℕ → ℕ → ℤ → Node
stored (some n) a b d = change_nei n b d
stored none a b (pos zero) = new_node a
stored none a b (pos (suc k)) = add_or_update_nei (new_node a) b (suc k)
stored none a b (negsuc k) = new_node a

change_side_found :
    (g : Graph) (a b : ℕ) (d : ℤ) (n : Node)
    → find g a ≡ some n
    → change_side g a b d ≡ insert a (change_nei n b d) g
unfolding change_side
change_side_found g a b d n e = rw (e, change_side) refl

change_side_missing :
    (g : Graph) (a b : ℕ) (d : ℤ)
    → find g a ≡ none
    → change_side g a b d ≡ insert a (stored none a b d) g
unfolding change_side
change_side_missing g a b (pos zero) e = rw (e, change_side) refl
change_side_missing g a b (pos (suc k)) e = rw (e, change_side) refl
change_side_missing g a b (negsuc k) e = rw (e, change_side) refl

pub change_side-insert :
    (g : Graph) (a b : ℕ) (d : ℤ) → change_side g a b d ≡ insert a (stored (find g a) a b d) g
change_side-insert g a b d = elim (Option-cases (find g a)) [
  | inr (n, e) ↦ change_side_found g a b d n e ∙ ap (λ o. insert a (stored o a b d) g) (sym e)
  | inl e ↦ change_side_missing g a b d e ∙ ap (λ o. insert a (stored o a b d) g) (sym e)
]

new_node-IsNode : (a : ℕ) → IsNode a (new_node a)
unfolding new_node
new_node-IsNode a = record {
  id_is = refl;
  listed = λ y. sym (ap is_some (find_nil {V = ℕ} y));
  distinct = tt;
  own = find-insert_same [] a a;
}

stored-IsNode :
    (g : Graph) (a b : ℕ) (d : ℤ)
    → IsSide g
    → (o : Option Node) → find g a ≡ o
    → IsNode a (stored o a b d)
stored-IsNode g a b d v (some n) e = change_nei-IsNode a n b d (v.node a n e)
stored-IsNode g a b (pos zero) v none e = new_node-IsNode a
stored-IsNode g a b (pos (suc k)) v none e = add-IsNode a (new_node a) b (suc k) (new_node-IsNode a)
stored-IsNode g a b (negsuc k) v none e = new_node-IsNode a

new_node-edges : (a y : ℕ) → find (new_node a).edges y ≡ none
unfolding new_node
new_node-edges a y = find_nil y

find-stored :
    (o : Option Node) (a b y : ℕ) (d : ℤ)
    → find (stored o a b d).edges y ≡ (if b == y then wanted d else cost_in o y)
unfolding add_or_update_nei
find-stored (some n) a b y d = find-change_nei n b y d
find-stored none a b y (pos zero) = rw (new_node-edges a y) (ground arith)
find-stored none a b y (pos (suc k)) =
    find-insert (new_node a).edges b (suc k) y ∙ (rw (new_node-edges a y) refl)
find-stored none a b y (negsuc k) = rw (new_node-edges a y) (ground arith)

change_side-IsSide : (g : Graph) (a b : ℕ) (d : ℤ) → IsSide g → IsSide (change_side g a b d)
change_side-IsSide g a b d v = subst IsSide (sym (change_side-insert g a b d)) (record {
  ascending = Ascending-insert g a (stored (find g a) a b d) v.ascending;
  node = λ x n f. elim (entry-insert g a (stored (find g a) a b d) x n f) [
    | inl (e, n_is) ↦
        subst (λ z. IsNode z n) e (subst (IsNode a) n_is (stored-IsNode g a b d v (find g a) refl))
    | inr (ne, h) ↦ v.node x n h
  ];
})

-- One side of the edge is set, or removed, and nothing else changes.
cost-change_side :
    (g : Graph) (a b : ℕ) (d : ℤ) (x y : ℕ)
    → cost (change_side g a b d) x y ≡ (if a == x && b == y then wanted d else cost g x y)
cost-change_side g a b d x y =
    ap (λ h. cost h x y) (change_side-insert g a b d) ∙ (elim (eq_or_ne a x) [
      | inr ne ↦
          ap (λ o. cost_in o y) (find-insert_other g a (stored (find g a) a b d) x ne)
          ∙ (rw (ne→== a x ne) refl)
      | inl e ↦
          subst
            (λ z.
              cost (insert a (stored (find g a) a b d) g) z y
              ≡ (if a == z && b == y then wanted d else cost g z y))
            e
            (ap (λ o. cost_in o y) (find-insert_same g a (stored (find g a) a b d))
              ∙ find-stored (find g a) a b y d
              ∙ (rw (eq→== a a refl) refl))
    ])

if_twice :
    (p q : Bool) (u c : Option ℕ)
    → (if p then u else if q then u else c) ≡ (if q || p then u else c)
if_twice true true u c = refl
if_twice true false u c = refl
if_twice false true u c = refl
if_twice false false u c = refl

ap2_cost :
    (g : Graph) (a b : ℕ) (d : ℤ) (x y : ℕ)
    → (if (b == x && a == y) || (a == x && b == y) then wanted d else cost g y x)
      ≡ (if (a == y && b == x) || (b == y && a == x) then wanted d else cost g y x)
ap2_cost g a b d x y =
    ap (λ p. if p then wanted d else cost g y x) (or_flip (b == x) (a == y) (a == x) (b == y))
  where
    or_flip : (p q r t : Bool) → (p && q) || (r && t) ≡ (q && p) || (t && r)
    or_flip p q r t = ground arith

-- A line sets the cost of its edge in both directions, or removes it if the number is not positive;
-- the costs of the other edges stay.
pub change_edge-cost :
    (g : Graph) (a b : ℕ) (d : ℤ) (x y : ℕ)
    → cost (change_edge g a b d) x y
      ≡ (if (a == x && b == y) || (b == x && a == y) then wanted d else cost g x y)
unfolding change_edge
change_edge-cost g a b d x y =
    cost-change_side (change_side g a b d) b a d x y
    ∙ ap (λ c. if b == x && a == y then wanted d else c) (cost-change_side g a b d x y)
    ∙ if_twice (b == x && a == y) (a == x && b == y) (wanted d) (cost g x y)

wanted-positive : (d : ℤ) (w : ℕ) → wanted d ≡ some w → 0 < w
wanted-positive (pos zero) w e = absurd (cc e)
wanted-positive (pos (suc k)) w e = let f = some_inj e in omega (arith, f)
wanted-positive (negsuc k) w e = absurd (cc e)

if_flip :
    (p q : Bool) (u c c' : Option ℕ)
    → c ≡ c'
    → (if p || q then u else c) ≡ (if q || p then u else c')
if_flip true true u c c' e = refl
if_flip true false u c c' e = refl
if_flip false true u c c' e = refl
if_flip false false u c c' e = e

IsGraph→IsSide : (g : Graph) → IsGraph g → IsSide g
IsGraph→IsSide g v = record {
  ascending = v.ascending;
  node = λ x n e. record {
    id_is = v.id_is x n e;
    listed = v.listed x n e;
    distinct = v.distinct x n e;
    own = v.own x n e;
  };
}

if_positive :
    (p : Bool) (d : ℤ) (c : Option ℕ) (w : ℕ)
    → ((w : ℕ) → c ≡ some w → 0 < w)
    → (if p then wanted d else c) ≡ some w
    → 0 < w
if_positive true d c w h e = wanted-positive d w e
if_positive false d c w h e = h w e

pub change_edge-IsGraph : (g : Graph) (a b : ℕ) (d : ℤ) → IsGraph g → IsGraph (change_edge g a b d)
unfolding change_edge
change_edge-IsGraph g a b d v =
    let side =
      change_side-IsSide (change_side g a b d) b a d
        (change_side-IsSide g a b d (IsGraph→IsSide g v)) in
    record {
      ascending = side.ascending;
      id_is = λ x n e. let m = side.node x n e in m.id_is;
      listed = λ x n e. let m = side.node x n e in m.listed;
      distinct = λ x n e. let m = side.node x n e in m.distinct;
      own = λ x n e. let m = side.node x n e in m.own;
      mutual_ends = λ x y.
          change_edge-cost g a b d x y
          ∙ if_flip (a == x && b == y) (b == x && a == y) (wanted d) (cost g x y) (cost g y x)
              (v.mutual_ends x y)
          ∙ ap2_cost g a b d x y
          ∙ sym (change_edge-cost g a b d y x);
      positive = λ x y w e.
          if_positive ((a == x && b == y) || (b == x && a == y)) d (cost g x y) w (v.positive x y)
            (sym (change_edge-cost g a b d x y) ∙ e);
    }

pub empty-IsGraph : IsGraph []
empty-IsGraph = record {
  ascending = tt;
  id_is = λ x n e. absurd (cc (find_nil {V = Node} x, e));
  listed = λ x n e. absurd (cc (find_nil {V = Node} x, e));
  distinct = λ x n e. absurd (cc (find_nil {V = Node} x, e));
  own = λ x n e. absurd (cc (find_nil {V = Node} x, e));
  mutual_ends = λ x y.
      ap (λ o. cost_in o y) (find_nil {V = Node} x)
      ∙ sym (ap (λ o. cost_in o x) (find_nil {V = Node} y));
  positive = λ x y w e. absurd (cc (ap (λ o. cost_in o y) (find_nil {V = Node} x), e));
}
