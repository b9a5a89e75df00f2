-- ===== src/Routing/DistVec/Rounds.antt =====
-- The rounds of `build_nodes_forwarding_tables` of mp3/src/distvec.cpp: each keeps what holds of the
-- network, and they end.
use networking_learning.Base.{
  ℕ, suc, ◌+◌, ◌*◌, ◌≤◌, ◌<◌, ◌≡◌, ◌∙◌, ap, subst, sym, refl, inl, inr, true, false, ltb, List, [],
  ◌∷◌, length, some, arith, done, Bool-cases, eq_or_ne, eq→==, ne→==, All, lt_or_le,
}
use networking_learning.Routing.Map.{
  Map, find, find_first, find_later, find_nil, some_inj, Ascending, Option-cases,
}
use networking_learning.Routing.LinkState.{Graph, is_some, contains, int_max}
use networking_learning.Routing.LinkState.Paths.{cost, cost_in, IsGraph}
use networking_learning.Routing.DistVec.{
  Router, Network, start_vector, update_all, send_all, exchange, rounds, keys, is_cons,
}
use networking_learning.Routing.DistVec.Vectors.{far, far_of}
use networking_learning.Routing.DistVec.Updating.{Has, IsEntry, IsUpdate}
use networking_learning.Routing.DistVec.Pushing.{silent}
use networking_learning.Routing.DistVec.Sending.{vector_of, bare-found, is_some-bare, IsSent}
use networking_learning.Routing.DistVec.Networks.{
  IsRouter, IsNetwork, budget, budget-bare, budget-le, vector-Walk, far-cases, All-find,
}
use networking_learning.Routing.DistVec.Stepping.{Stepped, Quiet, find-Stepped}
use networking_learning.Routing.DistVec.Budgets.{
  Ascending-Stepped, is_some-Stepped, budget-Stepped, budget_new,
}

-- Between a node and its neighbours nothing is left to tell.
pub record IsSettled (g : Graph) (c : ℕ) (net : Network) : Type 0 where
  pub ascending : Ascending net
  pub nodes : (x : ℕ) → is_some (find net x) ≡ is_some (find g x)
  pub router : (u : ℕ) (r : Router) → find net u ≡ some r → IsRouter g u r
  pub idle : (u : ℕ) (r : Router) → find net u ≡ some r → r.updates ≡ []
  pub room :
      (u x : ℕ) (r : Router)
      → find net u ≡ some r
      → far r.distance_to x < int_max
      → far r.distance_to x + c < int_max
  pub relaxed :
      (u v w x : ℕ) (r s : Router)
      → find net u ≡ some r
      → find net v ≡ some s
      → cost g u v ≡ some w
      → far s.distance_to x < int_max
      → far r.distance_to x ≤ w + far s.distance_to x

Has-nothing : (l : List (ℕ × Map ℕ)) → ((b : ℕ × Map ℕ) → ¬ Has b l) → l ≡ []
Has-nothing [] h = refl
Has-nothing (b ∷ l) h = absurd (h b (inl refl))

All-Has :
    (P : ℕ × Map ℕ → Type 0) (l : List (ℕ × Map ℕ)) → ((b : ℕ × Map ℕ) → Has b l → P b) → All P l
All-Has P [] h = tt
All-Has P (b ∷ l) h = (h b (inl refl), All-Has P l (λ a m. h a (inr m)))

silent-IsRouter :
    (g : Graph) (u : ℕ) (r s : Router) → silent s ≡ silent r → IsRouter g u r → IsRouter g u s
silent-IsRouter g u r s e v =
    let w : IsRouter g u (silent r) = record {
      id_is = v.id_is;
      edges = v.edges;
      distinct = v.distinct;
      listed = v.listed;
      vector = v.vector;
    } in
    let z = subst (IsRouter g u) (sym e) w in
    record {
      id_is = z.id_is;
      edges = z.edges;
      distinct = z.distinct;
      listed = z.listed;
      vector = z.vector;
    }

module _ (g : Graph) (valid : IsGraph g) (c : ℕ) (costs : (x y w : ℕ) → cost g x y ≡ some w → w ≤ c)
    (small : (x : ℕ) → is_some (find g x) ≡ true → x < 4294967296) (net : Network)
    (is_net : IsNetwork g c net) (fits : c * length net < int_max) where
  known : (u : ℕ) (r : Router) → find net u ≡ some r → is_some (find g u) ≡ true
  known u r f = sym (is_net.nodes u) ∙ ap is_some f

  neighbour :
      (u v : ℕ) (s : Router)
      → find net v ≡ some s
      → contains u s.node.neibours ≡ is_some (cost g u v)
  neighbour u v s f =
      let is_s = is_net.router v s f in is_s.listed u ∙ ap is_some (valid.mutual_ends v u)

  cost-ends : (u v w : ℕ) → cost g u v ≡ some w → is_some (find g v) ≡ true
  cost-ends u v w k = elim (Option-cases (find g v)) [
    | inr (n, f) ↦ ap is_some f
    | inl f ↦ absurd (cc (sym (valid.mutual_ends u v) ∙ k, ap (λ o. cost_in o u) f))
  ]

  pub neighbours_inside :
      (v : ℕ) (s : Router)
      → find net v ≡ some s
      → (u : ℕ) → contains u s.node.neibours ≡ true
      → is_some (find net u) ≡ true
  neighbours_inside v s f u m = elim (Option-cases (cost g u v)) [
    | inl k ↦ absurd (cc (m, neighbour u v s f, ap is_some k))
    | inr (w, k) ↦ is_net.nodes u ∙ cost-ends v u w (valid.mutual_ends v u ∙ k)
  ]

  told-IsEntry :
      (v w x e : ℕ) (s : Router)
      → find net v ≡ some s
      → w ≤ c
      → find s.distance_to x ≡ some e
      → IsEntry g (budget c net) v w x e
  told-IsEntry v w x e s f l fe =
      let is_s = is_net.router v s f in
      let vector = is_s.vector in
      let bound = budget-le c net x in
      record {
        is_node = sym (vector.known x) ∙ ap is_some fe;
        bound = vector.bounded x e fe;
        walk = λ less. vector-Walk g v (start_vector s) vector x e fe less;
        fits = λ less. omega (
          arith,
          is_net.limited v x s f (omega (arith, less, ap far_of fe)),
          ap far_of fe,
          l,
          bound,
          fits,
        );
        in_limit = λ less.
            omega
              (arith, is_net.limited v x s f (omega (arith, less, ap far_of fe)), ap far_of fe, l);
      }

  told-IsUpdate :
      (u v : ℕ) (s : Router)
      → find net v ≡ some s
      → contains u s.node.neibours ≡ true
      → IsUpdate g (budget c net) u (vector_of s)
  told-IsUpdate u v s f m = elim (Option-cases (cost g u v)) [
    | inl k ↦ absurd (cc (m, neighbour u v s f, ap is_some k))
    | inr (w, k) ↦
        let is_s = is_net.router v s f in
        let vector = is_s.vector in
        record {
          edge = w;
          is_edge = ap (cost g u) is_s.id_is ∙ k;
          small = omega (arith, is_s.id_is, small v (known v s f));
          entries =
              subst (λ z. All (λ (p : ℕ × ℕ). IsEntry g (budget c net) z w p.0 p.1) s.distance_to)
                (sym is_s.id_is)
                (All-find (λ x e. IsEntry g (budget c net) v w x e) s.distance_to vector.ascending
                  (λ x e fe. told-IsEntry v w x e s f (costs u v w k) fe));
        }
  ]

  module _ (h : Network) (sent : IsSent net neighbours_inside h) where
    pub sent-router :
        (u : ℕ) (s : Router)
        → find h u ≡ some s
        → IsRouter g u s × All (IsUpdate g (budget c net) u) s.updates
    sent-router u s f =
        let (r, fr, e) = bare-found net h u s sent.same f in
        (
          silent-IsRouter g u r s e (is_net.router u r fr),
          All-Has (IsUpdate g (budget c net) u) s.updates (λ b has.
              let (v, t, ft, q, flag, m) = sent.sources u s b f has in
              subst (IsUpdate g (budget c net) u) q (told-IsUpdate u v t ft m)),
        )

    sent-nodes : (x : ℕ) → is_some (find h x) ≡ is_some (find g x)
    sent-nodes x = is_some-bare net h x sent.same ∙ is_net.nodes x

    sent-budget : (x : ℕ) → budget c h x ≡ budget c net x
    sent-budget x = sym (budget-bare c h x) ∙ ap (λ m. budget c m x) sent.same ∙ budget-bare c net x

    -- Nobody who has a neighbour has changed.
    pub quiet-IsSettled :
        ((v : ℕ) (r : Router)
          → find net v ≡ some r
          → r.be_updated ≡ true
          → is_cons r.node.neibours ≡ false)
        → IsSettled g c h
    quiet-IsSettled quiet = record {
      ascending = sent.ascending;
      nodes = sent-nodes;
      router = λ u s f. (sent-router u s f).0;
      idle = λ u s f. Has-nothing s.updates (λ b has.
          let (v, t, ft, q, flag, m) = sent.sources u s b f has in
          contains_none u t.node.neibours (quiet v t ft flag) m);
      room = λ u x r f less.
          let (r₀, f₀, e) = bare-found net h u r sent.same f in
          let same = ap (λ (z : Router). far z.distance_to x) e in
          omega (
            arith,
            is_net.limited u x r₀ f₀ (omega (arith, less, same)),
            budget-le c net x,
            fits,
            same,
          );
      relaxed = λ u v w x r s fr fs k less.
          let (r₀, fr₀, er) = bare-found net h u r sent.same fr in
          let (s₀, fs₀, es) = bare-found net h v s sent.same fs in
          let same_r = ap (λ (z : Router). far z.distance_to x) er in
          let same_s = ap (λ (z : Router). far z.distance_to x) es in
          elim (Bool-cases s₀.be_updated) [
            | inl flag ↦ absurd (
                contains_none u s₀.node.neibours (quiet v s₀ fs₀ flag)
                  (neighbour u v s₀ fs₀ ∙ ap is_some k))
            | inr still ↦ omega (
              arith,
              same_r,
              same_s,
              is_net.relaxed u v w x r₀ s₀ fr₀ fs₀ k still (omega (arith, less, same_s)),
            )
          ];
    }
      where
        contains_none : (u : ℕ) (l : List ℕ) → is_cons l ≡ false → contains u l ≡ true → ⊥
        contains_none u [] e m = cc m
        contains_none u (a ∷ l) e m = cc e

    module _ (i : Network) (stepped : Stepped g (budget c net) h i) where
      step-relaxed :
          (u v w x : ℕ) (r s : Router)
          → find i u ≡ some r
          → find i v ≡ some s
          → cost g u v ≡ some w
          → s.be_updated ≡ false
          → far s.distance_to x < int_max
          → far r.distance_to x ≤ w + far s.distance_to x
      step-relaxed u v w x r s fr fs k still less =
          let (r₁, fr₁, step_r) = find-Stepped g (budget c net) h i u r stepped fr in
          let (s₁, fs₁, step_s) = find-Stepped g (budget c net) h i v s stepped fs in
          let (r₀, fr₀, er) = bare-found net h u r₁ sent.same fr₁ in
          let (s₀, fs₀, es) = bare-found net h v s₁ sent.same fs₁ in
          let same_r = ap (λ (z : Router). far z.distance_to x) er in
          let same_s = ap (λ (z : Router). far z.distance_to x) es in
          let same = step_s.unchanged still x in
          let is_s = is_net.router v s₀ fs₀ in
          elim (Bool-cases s₀.be_updated) [
            | inl flag ↦
                let (d, fd, is_d) =
                  far-cases s₀.distance_to x (omega (arith, less, same, same_s)) in
                let has = sent.sends v s₀ fs₀ flag u r₁ (neighbour u v s₀ fs₀ ∙ ap is_some k) fr₁ in
                omega (
                  arith,
                  step_r.short s₀.node.id s₀.distance_to x d w has fd
                      (omega (arith, less, same, same_s, is_d)) (ap (cost g u) is_s.id_is ∙ k),
                  same,
                  same_s,
                  is_d,
                )
            | inr quiet ↦ omega (
              arith,
              is_net.relaxed u v w x r₀ s₀ fr₀ fs₀ k quiet (omega (arith, less, same, same_s)),
              step_r.lower x,
              same,
              same_s,
              same_r,
            )
          ]

      step-limited :
          (u x : ℕ) (r : Router)
          → find i u ≡ some r
          → far r.distance_to x < int_max
          → far r.distance_to x + c ≤ budget c i x
      step-limited u x r fr less =
          let (r₁, fr₁, step_r) = find-Stepped g (budget c net) h i u r stepped fr in
          let (r₀, fr₀, er) = bare-found net h u r₁ sent.same fr₁ in
          let same_r = ap (λ (z : Router). far z.distance_to x) er in
          let more = budget-Stepped c x g (budget c net) h i stepped in
          let same = sent-budget x in
          elim (lt_or_le (far r₁.distance_to x) int_max) [
            | inl old ↦ omega (
              arith,
              is_net.limited u x r₀ fr₀ (omega (arith, old, same_r)),
              step_r.lower x,
              more,
              same,
              same_r,
            )
            | inr far_away ↦
                let one_more =
                  budget_new c x g (budget c net) h i u r₁ r stepped fr₁ fr far_away less in
                elim (step_r.reach x less) [
                  | inl near ↦ absurd (omega (arith, near, far_away))
                  | inr l ↦ omega (arith, l, one_more, same)
                ]
          ]

      pub step-IsNetwork : IsNetwork g c i
      step-IsNetwork = record {
        ascending = Ascending-Stepped g (budget c net) h i stepped sent.ascending;
        nodes = λ x. is_some-Stepped g (budget c net) h i x stepped ∙ sent-nodes x;
        router = λ u r f.
            let (r₁, f₁, step_r) = find-Stepped g (budget c net) h i u r stepped f in step_r.router;
        idle = λ u r f.
            let (r₁, f₁, step_r) = find-Stepped g (budget c net) h i u r stepped f in step_r.idle;
        limited = step-limited;
        relaxed = step-relaxed;
      }

Quiet-found :
    (i : Network) (u : ℕ) (r : Router) → Quiet i → find i u ≡ some r → r.be_updated ≡ false
Quiet-found [] u r q f = absurd (cc (f, find_nil {V = Router} u))
Quiet-found ((k, s) ∷ i) u r q f = elim (eq_or_ne k u) [
  | inl e ↦
      let is_r : s ≡ r = some_inj (sym (find_first i k s) ∙ ap (find ((k, s) ∷ i)) e ∙ f) in
      ap (λ (z : Router). z.be_updated) (sym is_r) ∙ q.0
  | inr ne ↦ Quiet-found i u r q.1 (sym (find_later i k s u ne) ∙ f)
]

pub Quiet-IsSettled :
    (g : Graph) (c : ℕ) (i : Network)
    → IsNetwork g c i
    → c * length i < int_max
    → Quiet i
    → IsSettled g c i
Quiet-IsSettled g c i v fits q = record {
  ascending = v.ascending;
  nodes = v.nodes;
  router = v.router;
  idle = v.idle;
  room = λ u x r f less. omega (arith, v.limited u x r f less, budget-le c i x, fits);
  relaxed = λ u v' w x r s fr fs k l. v.relaxed u v' w x r s fr fs k (Quiet-found i v' s q fs) l;
}

pub exchange-stop :
    (net h : Network) (count : ℕ)
    → send_all (keys net) net 0 ≡ done (h, count)
    → count ≡ 0
    → exchange net ≡ done (h, false)
unfolding exchange
exchange-stop net h count e z = rw (e, eq→== count 0 z) refl

pub exchange-update :
    (net h i : Network) (count changes : ℕ)
    → send_all (keys net) net 0 ≡ done (h, count)
    → 0 < count
    → update_all h ≡ done (i, changes)
    → exchange net ≡ done (i, ltb 0 changes)
unfolding exchange
exchange-update net h i count changes e p f =
    rw (e, ne→== count 0 (λ z. absurd (omega (arith, p, z))), f) refl

pub rounds-stop :
    (fuel : ℕ) (net h : Network) → exchange net ≡ done (h, false) → rounds (suc fuel) net ≡ done h
unfolding rounds
rounds-stop fuel net h e = rw e refl

pub rounds-more :
    (fuel : ℕ) (net h : Network)
    → exchange net ≡ done (h, true)
    → rounds (suc fuel) net ≡ rounds fuel h
unfolding rounds
rounds-more fuel net h e = rw e refl
