-- ===== src/Routing/LinkState/Hops.antt =====
-- The way back from a node to the root in mp3/src/linkstate.cpp: it ends, and finds the first hop of a
-- shortest way.
use networking_learning.Base.{
  ℕ, zero, suc, ◌+◌, ◌≤◌, ◌<◌, ◌≡◌, ◌≢◌, ◌∙◌, ap, subst, sym, refl, inl, inr, [], some, arith, done,
  eq_or_ne, eq→==, ne→==,
}
use networking_learning.Routing.Map.{Map, find, some_inj, find_nil}
use networking_learning.Routing.LinkState.{Graph, int_max}
use networking_learning.Routing.LinkState.Table.{Search, first_hop}
use networking_learning.Routing.LinkState.Paths.{cost, Walk, here, step, IsGraph}
use networking_learning.Routing.LinkState.Invariant.{IsBefore, IsSearch}

-- An edge before a walk.
pub Walk-cons :
    (g : Graph) (p y x w e : ℕ) → cost g p y ≡ some w → Walk g y x e → Walk g p x (w + e)
Walk-cons g p y x w e k (here x' e' q z) =
    step (here p 0 refl refl) x w (w + e) (ap (cost g p) q ∙ k) (omega arith)
Walk-cons g p y x w e k (step {x = a} {d = b} walk x' c e' k' sum) =
    step (Walk-cons g p y a w b k walk) x c (w + e) k' (omega arith)

-- A hop from `root` to `h`, and then a walk to `x`, cost `d` together.
pub record IsNextHop (g : Graph) (root h x d : ℕ) : Type 0 where
  pub edge : ℕ
  pub is_edge : cost g root h ≡ some edge
  pub rest : ℕ
  pub walk : Walk g h x rest
  pub sum : edge + rest ≡ d

-- The loop, one step back.
first_hop-stop :
    (fuel : ℕ) (prevs : Map ℕ) (id next : ℕ) → first_hop (suc fuel) prevs id next id ≡ done next
unfolding first_hop
first_hop-stop fuel prevs id next = rw (eq→== id id refl)

first_hop-back :
    (fuel : ℕ) (prevs : Map ℕ) (id next p q : ℕ)
    → p ≢ id
    → find prevs p ≡ some q
    → first_hop (suc fuel) prevs id next p ≡ first_hop fuel prevs id p q
unfolding first_hop
first_hop-back fuel prevs id next p q ne f = rw (ne→== p id ne, f)

-- The distance of a visited root is 0.
module _ (g : Graph) (root : ℕ) (valid : IsGraph g) (c : ℕ) (s : Search)
    (v : IsSearch g root c [] s) (end : s.distance_to_root ≡ []) where
  pub root_zero : find s.record_dist root ≡ some 0
  root_zero = elim v.root_is [
    | inr r ↦ r
    | inl l ↦ absurd (cc (sym (find_nil root) ∙ ap (λ m. find m root) (sym end) ∙ l))
  ]

  pub first_hop_lem :
      (fuel next p d x e : ℕ)
      → next ≢ root
      → IsBefore g root s next d p
      → d ≤ fuel
      → d < int_max
      → Walk g next x e
      → (h : ℕ) × (first_hop fuel s.prevs root next p ≡ done h) × IsNextHop g root h x (d + e)
  first_hop_lem zero next p d x e ne b le l walk =
      absurd (omega (arith, valid.positive p next b.edge b.is_edge, b.sum))
  first_hop_lem (suc fuel) next p d x e ne b le l walk = elim (eq_or_ne p root) [
    | inl q ↦
        let zero_dist : b.dist ≡ 0 =
          some_inj (sym b.reached ∙ ap (find s.record_dist) q ∙ root_zero) in
        (
          next,
          subst (λ z. first_hop (suc fuel) s.prevs root next z ≡ done next) (sym q)
              (first_hop-stop fuel s.prevs root next),
          record {
            edge = b.edge;
            is_edge = ap (λ z. cost g z next) (sym q) ∙ b.is_edge;
            rest = e;
            walk = walk;
            sum = omega (arith, b.sum);
          },
        )
    | inr np ↦
        let (q, b') = v.before p b.dist np (inr b.reached) b.finite in
        let (h, run, hop) =
          first_hop_lem fuel p q b.dist x (b.edge + e) np b'
            (omega (arith, valid.positive p next b.edge b.is_edge, b.sum)) b.finite
            (Walk-cons g p next x b.edge e b.is_edge walk) in
        (
          h,
          first_hop-back fuel s.prevs root next p q np b'.found ∙ run,
          subst (IsNextHop g root h x) (omega (arith, b.sum)) hop,
        )
  ]
