-- ===== src/Routing/DistVec/Reread.antt =====
-- A network of mp3/src/distvec.cpp still knows its graph after entries were read.
use networking_learning.Base.{
  ℕ, ◌<◌, ◌≡◌, ◌∙◌, ap, subst, sym, inl, inr, [], ◌∷◌, some, arith, eq_or_ne,
}
use networking_learning.Routing.Map.{
  find, find_nil, find_first, find_later, some_inj, Option-cases, Above, Ascending,
}
use networking_learning.Routing.LinkState.{Node, Graph, is_some, contains}
use networking_learning.Routing.LinkState.Paths.{cost, cost_in, IsGraph, Distinct}
use networking_learning.Routing.DistVec.{Router, Network}
use networking_learning.Routing.DistVec.Optimal.{IsInformed}
use networking_learning.Routing.DistVec.Views.{view, find-view, node_of}
use networking_learning.Routing.DistVec.Starting.{IsStill, Key}
use networking_learning.Routing.DistVec.Settled.{Ascending-view}
use networking_learning.Routing.DistVec.Learning.{IsLearned}
use networking_learning.Routing.DistVec.Reading.{IsRead, AreRead}

find-IsRead :
    (h j : Network) (u : ℕ) (s : Router)
    → AreRead h j
    → find j u ≡ some s
    → (r : Router) × (find h u ≡ some r) × IsRead r s
find-IsRead [] [] u s a f = absurd (cc (f, find_nil {V = Router} u))
find-IsRead [] (p ∷ j) u s a f = absurd a
find-IsRead (p ∷ h) [] u s a f = absurd a
find-IsRead ((k, r) ∷ h) ((k', t) ∷ j) u s (e, v, a) f = elim (eq_or_ne k' u) [
  | inl q ↦
      let is_s : t ≡ s = some_inj (sym (find_first j k' t) ∙ ap (find ((k', t) ∷ j)) q ∙ f) in
      (
        r,
        subst (λ z. find ((k, r) ∷ h) z ≡ some r) (e ∙ q) (find_first h k r),
        subst (IsRead r) is_s v,
      )
  | inr ne ↦
      let (x, fx, vx) = find-IsRead h j u s a (sym (find_later j k' t u ne) ∙ f) in
      (x, find_later h k r u (λ z. ne (sym e ∙ z)) ∙ fx, vx)
]

IsRead-back :
    (h j : Network) (u : ℕ) (r : Router)
    → AreRead h j
    → find h u ≡ some r
    → (s : Router) × (find j u ≡ some s) × IsRead r s
IsRead-back [] [] u r a f = absurd (cc (f, find_nil {V = Router} u))
IsRead-back [] (p ∷ j) u r a f = absurd a
IsRead-back (p ∷ h) [] u r a f = absurd a
IsRead-back ((k, t) ∷ h) ((k', s) ∷ j) u r (e, v, a) f = elim (eq_or_ne k u) [
  | inl q ↦
      let is_r : t ≡ r = some_inj (sym (find_first h k t) ∙ ap (find ((k, t) ∷ h)) q ∙ f) in
      (
        s,
        subst (λ z. find ((k', s) ∷ j) z ≡ some s) (sym e ∙ q) (find_first j k' s),
        subst (λ z. IsRead z s) is_r v,
      )
  | inr ne ↦
      let (x, fx, vx) = IsRead-back h j u r a (sym (find_later h k t u ne) ∙ f) in
      (x, find_later j k' s u (λ z. ne (e ∙ z)) ∙ fx, vx)
]

Above-read : (k : ℕ) (h j : Network) → AreRead h j → Above k h → Above k j
Above-read k [] [] a up = tt
Above-read k [] (p ∷ j) a up = absurd a
Above-read k (p ∷ h) [] a up = absurd a
Above-read k ((b, r) ∷ h) ((b', s) ∷ j) (e, v, a) (l, up) =
    (subst (λ z. k < z) e l, subst (λ z. Above z j) e (Above-read b h j a up))

Ascending-read : (h j : Network) → AreRead h j → Ascending h → Ascending j
Ascending-read [] [] a up = tt
Ascending-read [] (p ∷ j) a up = absurd a
Ascending-read (p ∷ h) [] a up = absurd a
Ascending-read ((b, r) ∷ h) ((b', s) ∷ j) (e, v, a) up =
    subst (λ z. Above z j) e (Above-read b h j a up)

pub cost-view :
    (h : Network) (u : ℕ) (r : Router) (y : ℕ)
    → find h u ≡ some r
    → cost (view h) u y ≡ find r.node.edges y
cost-view h u r y f = ap (λ o. cost_in o y) (find-view h u ∙ ap node_of f)

pub viewed :
    (h : Network) (x : ℕ) (n : Node)
    → find (view h) x ≡ some n
    → (r : Router) × (find h x ≡ some r) × (r.node ≡ n)
viewed h x n f = elim (Option-cases (find h x)) [
  | inl z ↦ absurd (cc (f, find-view h x, ap node_of z))
  | inr (r, z) ↦ (r, z, some_inj (sym (ap node_of z) ∙ sym (find-view h x) ∙ f))
]

module _ (g : Graph) (h j : Network) (learned : IsLearned g h) (read : AreRead h j) where
  read_key : (x : ℕ) → is_some (find j x) ≡ is_some (find h x)
  read_key x = elim (Option-cases (find h x)) [
    | inr (r, f) ↦ let (s, fs, v) = IsRead-back h j x r read f in ap is_some fs ∙ sym (ap is_some f)
    | inl f ↦ elim (Option-cases (find j x)) [
      | inl z ↦ ap is_some z ∙ sym (ap is_some f)
      | inr (s, z) ↦ let (r, fr, v) = find-IsRead h j x s read z in absurd (cc (f, fr))
    ]
  ]

  read_cost : (x y : ℕ) → cost (view j) x y ≡ cost (view h) x y
  read_cost x y = elim (Option-cases (find h x)) [
    | inr (r, f) ↦
        let (s, fs, v) = IsRead-back h j x r read f in
        cost-view j x s y fs ∙ ap (λ m. find m y) v.edges_same ∙ sym (cost-view h x r y f)
    | inl f ↦ elim (Option-cases (find j x)) [
      | inr (s, z) ↦ let (r, fr, v) = find-IsRead h j x s read z in absurd (cc (f, fr))
      | inl z ↦ ap (λ o. cost_in o y) (find-view j x ∙ ap node_of (z ∙ sym f) ∙ sym (find-view h x))
    ]
  ]

  read-IsInformed : (u : ℕ) (r s : Router) → IsRead r s → IsInformed g u r → IsInformed g u s
  read-IsInformed u r s v i =
      let same : (x : ℕ) → find s.distance_to x ≡ find r.distance_to x =
        λ x. ap (λ m. find m x) v.distances in
      record {
        complete = λ x k. let (d, f, l) = i.complete x k in (d, same x ∙ f, l);
        reached = λ x d f l. i.reached x d (sym (same x) ∙ f) l;
        unreached = λ x e f. i.unreached x e (sym (same x) ∙ f);
        next_hop = λ x d ne f l.
            let (a, fa, n) = i.next_hop x d ne (sym (same x) ∙ f) l in (a, v.hops x a fa, n);
      }

  read-IsStill : (u : ℕ) (r s : Router) → IsRead r s → IsStill (Key h) u r → IsStill (Key j) u s
  read-IsStill u r s v i = record {
    ascending = subst Ascending (sym v.distances) i.ascending;
    own = ap (λ m. find m u) v.distances ∙ i.own;
    keys_only =
        λ x k. read_key x ∙ i.keys_only x (sym (ap (λ m. is_some (find m x)) v.distances) ∙ k);
    home = v.hops u u i.home;
    small =
        λ x a f. elim (v.new_hops x a f) [ inl z ↦ i.small x a z | inr (z, q) ↦ omega (arith, q) ];
    idle = v.updates ∙ i.idle;
  }

  read-IsGraph : IsGraph (view h) → IsGraph (view j)
  read-IsGraph valid = record {
    ascending =
        let base = learned.base in Ascending-view j (Ascending-read h j read base.ascending);
    id_is = λ x n f.
        let (s, fs, q) = viewed j x n f in
        let (r, fr, v) = find-IsRead h j x s read fs in
        sym (ap (λ (m : Node). m.id) q)
        ∙ v.id_same
        ∙ valid.id_is x r.node (find-view h x ∙ ap node_of fr);
    listed = λ x n f y.
        let (s, fs, q) = viewed j x n f in
        let (r, fr, v) = find-IsRead h j x s read fs in
        subst (λ (m : Node). contains y m.neibours ≡ is_some (find m.edges y)) q
          (ap (contains y) v.neibours_same
            ∙ valid.listed x r.node (find-view h x ∙ ap node_of fr) y
            ∙ sym (ap (λ m. is_some (find m y)) v.edges_same));
    distinct = λ x n f.
        let (s, fs, q) = viewed j x n f in
        let (r, fr, v) = find-IsRead h j x s read fs in
        subst (λ (m : Node). Distinct m.neibours) q
          (subst Distinct (sym v.neibours_same)
            (valid.distinct x r.node (find-view h x ∙ ap node_of fr)));
    own = λ x n f.
        let (s, fs, q) = viewed j x n f in
        let (r, fr, v) = find-IsRead h j x s read fs in
        subst (λ (m : Node). find m.forwarding_table x ≡ some x) q
          (v.hops x x (valid.own x r.node (find-view h x ∙ ap node_of fr)));
    mutual_ends = λ x y. read_cost x y ∙ valid.mutual_ends x y ∙ sym (read_cost y x);
    positive = λ x y w k. valid.positive x y w (sym (read_cost x y) ∙ k);
  }

  pub read-IsLearned : IsLearned g j
  read-IsLearned = record {
    nodes = λ x. read_key x ∙ learned.nodes x;
    informed = λ u s f.
        let (r, fr, v) = find-IsRead h j u s read f in
        read-IsInformed u r s v (learned.informed u r fr);
    edges = λ x y. read_cost x y ∙ learned.edges x y;
    graph = read-IsGraph learned.graph;
    base =
        let base = learned.base in
        record {
          ascending = Ascending-read h j read base.ascending;
          still = λ u s f.
              let (r, fr, v) = find-IsRead h j u s read f in
              read-IsStill u r s v (base.still u r fr);
        };
  }
