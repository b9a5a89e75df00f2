-- ===== src/Routing/DistVec/Networks.antt =====
-- What holds of the nodes of mp3/src/distvec.cpp between two rounds.
use networking_learning.Base.{
  ℕ, suc, ◌+◌, ◌*◌, ◌≤◌, ◌<◌, ◌≡◌, ◌∙◌, ap, subst, sym, refl, inl, inr, false, if◌then◌else◌, ltb,
  [], ◌∷◌, length, some, arith, Bool-cases, eq_or_ne, All,
}
use networking_learning.Routing.Map.{
  Map, find, find_first, find_later, find-Above, some_inj, Ascending, Ascending-tail, Option-cases,
}
use networking_learning.Routing.LinkState.{Graph, is_some, contains, int_max}
use networking_learning.Routing.LinkState.Paths.{cost, Walk, here, Distinct}
use networking_learning.Routing.LinkState.Hops.{Walk-cons}
use networking_learning.Routing.DistVec.{Router, Network, Vector, start_vector, keys}
use networking_learning.Routing.DistVec.Vectors.{far, far_of, IsVector}
use networking_learning.Routing.DistVec.Pushing.{bare}

-- The node `u` of the network over the graph `g`.
pub record IsRouter (g : Graph) (u : ℕ) (r : Router) : Type 0 where
  pub id_is : r.node.id ≡ u
  pub edges : (y : ℕ) → find r.node.edges y ≡ cost g u y
  pub listed : (y : ℕ) → contains y r.node.neibours ≡ is_some (cost g u y)
  pub distinct : Distinct r.node.neibours
  pub vector : IsVector g u (start_vector r)

-- As many times `c` as nodes know a finite distance to `x`.
abbrev pub budget : ℕ → Network → ℕ → ℕ
budget c [] x = 0
budget c ((k, r) ∷ net) x =
    let rest = budget c net x in if ltb (far r.distance_to x) int_max then c + rest else rest

pub record IsNetwork (g : Graph) (c : ℕ) (net : Network) : Type 0 where
  pub ascending : Ascending net
  pub nodes : (x : ℕ) → is_some (find net x) ≡ is_some (find g x)
  pub router : (u : ℕ) (r : Router) → find net u ≡ some r → IsRouter g u r
  pub idle : (u : ℕ) (r : Router) → find net u ≡ some r → r.updates ≡ []
  pub limited :
      (u x : ℕ) (r : Router)
      → find net u ≡ some r
      → far r.distance_to x < int_max
      → far r.distance_to x + c ≤ budget c net x
  pub relaxed :
      (u v w x : ℕ) (r s : Router)
      → find net u ≡ some r
      → find net v ≡ some s
      → cost g u v ≡ some w
      → s.be_updated ≡ false
      → far s.distance_to x < int_max
      → far r.distance_to x ≤ w + far s.distance_to x

pub budget-bare : (c : ℕ) (net : Network) (x : ℕ) → budget c (bare net) x ≡ budget c net x
budget-bare c [] x = refl
budget-bare c ((k, r) ∷ net) x =
    ap (λ rest. if ltb (far r.distance_to x) int_max then c + rest else rest) (budget-bare c net x)

pub length-bare : (net : Network) → length (bare net) ≡ length net
length-bare [] = refl
length-bare ((k, r) ∷ net) = ap suc (length-bare net)

pub keys-bare : (net : Network) → keys (bare net) ≡ keys net
keys-bare [] = refl
keys-bare ((k, r) ∷ net) = ap (λ l. k ∷ l) (keys-bare net)

mul_step : (c n : ℕ) → c * suc n ≡ c + c * n
mul_step c n = grind arith

pub budget-le : (c : ℕ) (net : Network) (x : ℕ) → budget c net x ≤ c * length net
budget-le c [] x = omega arith
budget-le c ((k, r) ∷ net) x = elim (Bool-cases (ltb (far r.distance_to x) int_max)) [
  | inl e ↦ rw e (omega (arith, budget-le c net x, mul_step c (length net)))
  | inr e ↦ rw e (omega (arith, budget-le c net x, mul_step c (length net)))
]

far-found : (m : Map ℕ) (x d : ℕ) → find m x ≡ some d → far m x ≡ d
far-found m x d f = ap far_of f

-- A finite distance is there, and is the cost of a walk.
pub vector-Walk :
    (g : Graph) (u : ℕ) (v : Vector)
    → IsVector g u v
    → (x d : ℕ) → find v.distance_to x ≡ some d
    → d < int_max
    → Walk g u x d
vector-Walk g u v valid x d f l = elim (eq_or_ne x u) [
  | inl q ↦ here x d q (some_inj (sym f ∙ ap (find v.distance_to) q ∙ valid.own))
  | inr ne ↦
      let (h, t, n) = valid.hop x d ne f l in
      subst (Walk g u x) n.sum (Walk-cons g u h x n.edge n.rest n.is_edge n.walk)
]

pub far-cases :
    (m : Map ℕ) (x : ℕ) → far m x < int_max → (d : ℕ) × (find m x ≡ some d) × (far m x ≡ d)
far-cases m x l = elim (Option-cases (find m x)) [
  | inl f ↦ absurd (omega (arith, l, ap far_of f))
  | inr (d, f) ↦ (d, f, ap far_of f)
]

-- Every entry of a map in order is found.
pub All-find :
    {V : Type 0} (P : ℕ → V → Type 0) (m : Map V)
    → Ascending m
    → ((x : ℕ) (v : V) → find m x ≡ some v → P x v)
    → All (λ (p : ℕ × V). P p.0 p.1) m
All-find P [] up h = tt
All-find P ((k, v) ∷ m) up h = (
  h k v (find_first m k v),
  All-find P m (Ascending-tail m k up) (λ x w f. elim (eq_or_ne k x) [
    | inl q ↦ absurd (cc (f, find-Above m k x up (omega (arith, q))))
    | inr ne ↦ h x w (find_later m k v x ne ∙ f)
  ]),
)
