-- ===== src/Routing/DistVec/Initial.antt =====
-- `initial_all_dist` of mp3/src/distvec.cpp, and the network that the lines of the input leave.
use networking_learning.Base.{
  ℕ, ◌≤◌, ◌<◌, ◌≡◌, ◌∙◌, ap, subst, sym, refl, inl, inr, true, ltb, List, [], ◌∷◌, Option, none,
  some, arith, Bool-cases, eq_or_ne, lt→ltb,
}
use networking_learning.Http.CString.{ℤ}
use networking_learning.Routing.Map.{
  find, find_nil, find_first, find_later, some_inj, Ascending, Above,
}
use networking_learning.Routing.LinkState.{Node, is_some, contains, int_max}
use networking_learning.Routing.DistVec.{
  Router, Network, change_side, far_row, far_rows, initial_all_dist, change_edge, keys,
}
use networking_learning.Routing.DistVec.Vectors.{far}
use networking_learning.Routing.DistVec.Networks.{budget}
use networking_learning.Routing.DistVec.Views.{view, find-view, node_of, view-far_rows}
use networking_learning.Routing.DistVec.Fresh.{IsFar, far_row-IsFar}
use networking_learning.Routing.DistVec.Starting.{
  IsStill, IsBase, Key, weaken-IsStill, change_side-IsBase,
}
use networking_learning.Routing.DistVec.Members.{contains_later}

pub find-far_rows :
    (all : List ℕ) (net : Network) (u : ℕ) (s : Router)
    → find (far_rows all net) u ≡ some s
    → (r : Router) × (find net u ≡ some r) × IsFar u all r s
find-far_rows all [] u s f = absurd (cc (f, find_nil {V = Router} u))
find-far_rows all ((k, r) ∷ net) u s f = elim (eq_or_ne k u) [
  | inl q ↦
      let is_s : far_row k all r ≡ s = some_inj (
        sym (find_first (far_rows all net) k (far_row k all r))
        ∙ ap (find (far_rows all ((k, r) ∷ net))) q
        ∙ f) in
      (
        r,
        subst (λ z. find ((k, r) ∷ net) z ≡ some r) q (find_first net k r),
        subst (λ z. IsFar z all r s) q (subst (IsFar k all r) is_s (far_row-IsFar k all r)),
      )
  | inr ne ↦
      let (t, ft, far_t) =
        find-far_rows all net u s
          (sym (find_later (far_rows all net) k (far_row k all r) u ne) ∙ f) in
      (t, find_later net k r u ne ∙ ft, far_t)
]

pub is_some-view : (m : Network) (x : ℕ) → is_some (find (view m) x) ≡ is_some (find m x)
is_some-view m x = ap is_some (find-view m x) ∙ is_some_node (find m x)
  where
    is_some_node : (o : Option Router) → is_some (node_of o) ≡ is_some o
    is_some_node none = refl
    is_some_node (some r) = refl

pub is_some-far_rows :
    (all : List ℕ) (net : Network) (x : ℕ)
    → is_some (find (far_rows all net) x) ≡ is_some (find net x)
is_some-far_rows all net x =
    sym (is_some-view (far_rows all net) x)
    ∙ ap (λ m. is_some (find m x)) (view-far_rows all net)
    ∙ is_some-view net x

Above-far_rows : (all : List ℕ) (k : ℕ) (net : Network) → Above k net → Above k (far_rows all net)
Above-far_rows all k [] a = tt
Above-far_rows all k ((b, r) ∷ net) a = (a.0, Above-far_rows all b net a.1)

pub Ascending-far_rows :
    (all : List ℕ) (net : Network) → Ascending net → Ascending (far_rows all net)
Ascending-far_rows all [] a = tt
Ascending-far_rows all ((b, r) ∷ net) a = Above-far_rows all b net a

pub find-Key : (net : Network) (v : ℕ) → contains v (keys net) ≡ true → Key net v
find-Key [] v c = absurd (cc c)
find-Key ((k, s) ∷ m) v c = elim (eq_or_ne k v) [
  | inl q ↦ subst (λ z. is_some (find ((k, s) ∷ m) z) ≡ true) q (ap is_some (find_first m k s))
  | inr ne ↦
      ap is_some (find_later m k s v ne) ∙ find-Key m v (sym (contains_later v k (keys m) ne) ∙ c)
]

pub far-IsStill :
    (net : Network) (u : ℕ) (r s : Router)
    → IsFar u (keys net) r s
    → IsStill (Key net) u r
    → IsStill (Key net) u s
far-IsStill net u r s f v = record {
  ascending = f.ascending v.ascending;
  own = f.own ∙ v.own;
  keys_only = λ x i. elim (Bool-cases (contains x (keys net))) [
    | inl c ↦ find-Key net x c
    | inr c ↦ v.keys_only x (sym (ap is_some (f.rest x c)) ∙ i)
  ];
  home = ap (λ (n : Node). find n.forwarding_table u) f.node ∙ v.home;
  small = λ x h e. v.small x h (sym (ap (λ (n : Node). find n.forwarding_table x) f.node) ∙ e);
  idle = f.updates ∙ v.idle;
}

far_rows-IsBase : (net : Network) → IsBase net → IsBase (initial_all_dist net)
unfolding initial_all_dist
far_rows-IsBase net v = record {
  ascending = Ascending-far_rows (keys net) net v.ascending;
  still = λ u s f.
      let (r, fr, is_far) = find-far_rows (keys net) net u s f in
      weaken-IsStill (Key net) (Key (far_rows (keys net) net)) u s
        (λ x i. is_some-far_rows (keys net) net x ∙ i)
        (far-IsStill net u r s is_far (v.still u r fr));
}

pub change_edge-IsBase :
    (net : Network) (a b : ℕ) (d : ℤ)
    → a < 4294967296
    → b < 4294967296
    → IsBase net
    → IsBase (change_edge net a b d)
unfolding change_edge
change_edge-IsBase net a b d l k v =
    far_rows-IsBase (change_side (change_side net a b d) b a d)
      (change_side-IsBase (change_side net a b d) b a d k (change_side-IsBase net a b d l v))

pub budget_own :
    (c : ℕ) (net : Network) (u x : ℕ) (r : Router)
    → find net u ≡ some r
    → far r.distance_to x < int_max
    → c ≤ budget c net x
budget_own c [] u x r f l = absurd (cc (f, find_nil {V = Router} u))
budget_own c ((k, s) ∷ net) u x r f l = elim (eq_or_ne k u) [
  | inl q ↦
      let is_r : s ≡ r = some_inj (sym (find_first net k s) ∙ ap (find ((k, s) ∷ net)) q ∙ f) in
      let less : far s.distance_to x < int_max =
        subst (λ (t : Router). far t.distance_to x < int_max) (sym is_r) l in
      rw (lt→ltb (far s.distance_to x) int_max less) (omega arith)
  | inr ne ↦
      let rest = budget_own c net u x r (sym (find_later net k s u ne) ∙ f) l in
      elim (Bool-cases (ltb (far s.distance_to x) int_max)) [
        | inl e ↦ rw e (omega (arith, rest))
        | inr e ↦ rw e rest
      ]
]
