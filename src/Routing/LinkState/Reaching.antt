-- ===== src/Routing/LinkState/Reaching.antt =====
-- In the search of mp3/src/linkstate.cpp a walk from the root ends at a visited node, or is no shorter
-- than the least distance that is left.
use networking_learning.Base.{
  ℕ, ◌+◌, ◌≤◌, ◌<◌, ◌≡◌, ◌∙◌, ap, subst, sym, refl, ◌⊎◌, inl, inr, [], some, arith, eq_or_ne,
}
use networking_learning.Routing.Map.{find, Option-cases}
use networking_learning.Routing.LinkState.{Graph, int_max}
use networking_learning.Routing.LinkState.Table.{Search}
use networking_learning.Routing.LinkState.Paths.{cost, Walk, here, step, IsGraph, Fits}
use networking_learning.Routing.LinkState.Invariant.{IsSearch}
use networking_learning.Routing.LinkState.Neighbours.{is_some-cases, cost-node}

module _ (g : Graph) (root : ℕ) (valid : IsGraph g) (fits : Fits g root) (c : ℕ) (s : Search)
    (v : IsSearch g root c [] s) (d : ℕ)
    (least : (x e : ℕ) → find s.distance_to_root x ≡ some e → d ≤ e) where
  settle :
      (x y a w e : ℕ)
      → find s.record_dist x ≡ some a
      → a < int_max
      → Walk g root x e
      → a ≤ e
      → cost g x y ≡ some w
      → Walk g root y (e + w)
      → ((a : ℕ) × (find s.record_dist y ≡ some a) × (a < int_max) × (a ≤ e + w))
        ⊎ ((d ≤ e + w) × (d < int_max))
  settle x y a w e r f wx le k wy = elim (Option-cases (find s.record_dist y)) [
    | inr (b, ry) ↦ elim (eq_or_ne b int_max) [
      | inl far ↦ absurd (v.far y (e + w) (ry ∙ ap some far) wy)
      | inr ne ↦
          let (in_g, b_le) = v.seen_node y b ry in
          let fin : b < int_max = omega arith in
          inl (b, ry, fin, (v.near y b ry fin).least (e + w) wy)
    ]
    | inl unseen ↦
        let back = cost-node g y x w (sym (valid.mutual_ends x y) ∙ k) in
        let (ey, l) = is_some-cases (find s.distance_to_root y) (v.covered y back unseen) in
        let small = fits x y a w (v.near x a r f) k in
        inr (
          omega (arith, least y ey l, v.left_le x y a w ey r f k l (inr refl)),
          omega (arith, least y ey l, v.left_le x y a w ey r f k l (inr refl)),
        )
  ]

  pub reach :
      {x e : ℕ}
      → Walk g root x e
      → ((a : ℕ) × (find s.record_dist x ≡ some a) × (a < int_max) × (a ≤ e))
        ⊎ ((d ≤ e) × (d < int_max))
  reach (here x e p q) = elim v.root_is [
    | inl l ↦ let z = least root 0 l in inr (omega arith, omega arith)
    | inr r ↦ inl (0, ap (find s.record_dist) p ∙ r, omega arith, omega arith)
  ]
  reach (step {x} {d = d₀} walk y w e k sum) = elim (reach walk) [
    | inr (a, b) ↦ inr (omega arith, b)
    | inl (a, r, fin, le) ↦
        subst
          (λ z.
            ((a : ℕ) × (find s.record_dist y ≡ some a) × (a < int_max) × (a ≤ z))
            ⊎ ((d ≤ z) × (d < int_max)))
          (sym sum) (settle x y a w d₀ r fin walk le k (step walk y w (d₀ + w) k refl))
  ]
