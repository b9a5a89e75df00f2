-- ===== src/Routing/LinkState/WayBack.antt =====
-- `next_hops` of mp3/src/linkstate.cpp: the hops that a message takes.
use networking_learning.Base.{
  ℕ, zero, suc, ◌+◌, ◌<◌, ◌≡◌, ◌≢◌, ◌∙◌, ap, refl, inl, inr, List, [], ◌∷◌, ◌++◌, append_assoc,
  Option, some, arith, done, ◌>>=◌, eq_or_ne, eq→==, ne→==,
}
use networking_learning.Routing.Map.{Map, find}
use networking_learning.Routing.LinkState.{Graph, int_max, at_find}
use networking_learning.Routing.LinkState.Table.{Tables}
use networking_learning.Routing.LinkState.State.{LinkState, hops_loop, next_hops}
use networking_learning.Routing.LinkState.Paths.{cost, here, IsGraph, IsDistance}
use networking_learning.Routing.LinkState.Routes.{IsRouted}

-- The hops from `x` back to `root`, nearest to `x` first, with the root once more at the end; the edges
-- between them cost `d` together.
pub data WayBack (g : Graph) (root : ℕ) : ℕ → List ℕ → ℕ → Type 0 where
  arrived :
      (x : ℕ) (hops : List ℕ) (d : ℕ)
      → x ≡ root
      → hops ≡ root ∷ []
      → d ≡ 0
      → WayBack g root x hops d
  back :
      {p : ℕ} {rest : List ℕ} {a : ℕ}
      → WayBack g root p rest a
      → (x : ℕ) (hops : List ℕ) (w d : ℕ) → cost g p x ≡ some w
      → hops ≡ p ∷ rest
      → a + w ≡ d
      → WayBack g root x hops d

hops_loop-stop :
    (fuel : ℕ) (prevs : Map ℕ) (from curr : ℕ) (result : List ℕ)
    → curr ≡ from
    → hops_loop (suc fuel) prevs from curr result ≡ done (result ++ from ∷ [])
unfolding hops_loop
hops_loop-stop fuel prevs from curr result e = rw (eq→== curr from e)

hops_loop-back :
    (fuel : ℕ) (prevs : Map ℕ) (from curr prev : ℕ) (result : List ℕ)
    → curr ≢ from
    → find prevs curr ≡ some prev
    → hops_loop (suc fuel) prevs from curr result
      ≡ hops_loop fuel prevs from prev (result ++ prev ∷ [])
unfolding hops_loop
hops_loop-back fuel prevs from curr prev result ne f = rw (ne→== curr from ne, f)

module _ (g : Graph) (root : ℕ) (t : Tables) (valid : IsGraph g) (routed : IsRouted g root t) where
  hops_loop_lem :
      (fuel x d : ℕ) (result : List ℕ)
      → find t.distance x ≡ some d
      → d < int_max
      → d < fuel
      → (hops : List ℕ) × (hops_loop fuel t.prevs root x result ≡ done (result ++ hops))
        × WayBack g root x hops d
  hops_loop_lem zero x d result r l less = absurd (omega (arith, less))
  hops_loop_lem (suc fuel) x d result r l less = elim (eq_or_ne x root) [
    | inl e ↦ (
      root ∷ [],
      hops_loop-stop fuel t.prevs root x result e,
      arrived x (root ∷ []) d e refl (at_root x d e r l),
    )
    | inr ne ↦
        let (p, a, w, is_prev, reach, fin, k, sum) = routed.back x d ne r l in
        let positive = valid.positive p x w k in
        let (rest, run, way) =
          hops_loop_lem fuel p a (result ++ p ∷ []) reach fin
            (omega (arith, sum, positive, less)) in
        (
          p ∷ rest,
          hops_loop-back fuel t.prevs root x p result ne is_prev
              ∙ run
              ∙ ap done (append_assoc result (p ∷ []) rest),
          back way x (p ∷ rest) w d k refl sum,
        )
  ]
    where
      at_root : (x d : ℕ) → x ≡ root → find t.distance x ≡ some d → d < int_max → d ≡ 0
      at_root x d e r l =
          let v = routed.reached x d r l in omega (arith, v.least 0 (here x 0 e refl))

  hops_run :
      (ls : LinkState) (x : ℕ) (hops : List ℕ)
      → find ls.prev_of_that_node root ≡ some t.prevs
      → hops_loop int_max t.prevs root x [] ≡ done hops
      → next_hops ls root x ≡ done hops
  unfolding next_hops
  hops_run ls x hops f run =
      ap (λ (o : Option (Map ℕ)). at_find o >>= λ prevs. hops_loop int_max prevs root x []) f ∙ run

  -- A message takes the hops of a shortest way.
  pub next_hops_lem :
      (ls : LinkState) (x d : ℕ)
      → find ls.prev_of_that_node root ≡ some t.prevs
      → find t.distance x ≡ some d
      → d < int_max
      → (hops : List ℕ) × (next_hops ls root x ≡ done hops)
        × WayBack g root x hops d
        × IsDistance g root x d
  next_hops_lem ls x d f r l =
      let (hops, run, way) = hops_loop_lem int_max x d [] r l l in
      (hops, hops_run ls x hops f run, way, routed.reached x d r l)
