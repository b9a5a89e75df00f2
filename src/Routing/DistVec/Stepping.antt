-- ===== src/Routing/DistVec/Stepping.antt =====
-- The second loop of a round in mp3/src/distvec.cpp: every node works off the vectors that wait.
use networking_learning.Base.{
  ℕ, ◌+◌, ◌≤◌, ◌<◌, ◌≡◌, ◌≢◌, ◌∙◌, ap, subst, sym, refl, ◌⊎◌, inl, inr, true, false, List, [], ◌∷◌,
  some, arith, done, Bool-cases, eq_or_ne, All,
}
use networking_learning.Routing.Map.{
  Map, find, find_first, find_later, find_nil, find-Above, some_inj, Ascending, Ascending-tail,
}
use networking_learning.Routing.LinkState.{Graph, is_some, contains, int_max}
use networking_learning.Routing.LinkState.Paths.{cost, IsGraph}
use networking_learning.Routing.DistVec.{
  Router, Network, Vector, start_vector, end_vector, update_router, update_all, count_if,
}
use networking_learning.Routing.DistVec.Vectors.{far, rank}
use networking_learning.Routing.DistVec.Updating.{Has, IsUpdate, update_loop_lem, router_run}
use networking_learning.Routing.DistVec.Networks.{IsRouter}
use networking_learning.Routing.DistVec.Members.{contains_later}

-- What a node's second loop does.
pub record IsStep (g : Graph) (limit : ℕ → ℕ) (u : ℕ) (r r' : Router) : Type 0 where
  pub router : IsRouter g u r'
  pub idle : r'.updates ≡ []
  pub lower : (x : ℕ) → far r'.distance_to x ≤ far r.distance_to x
  pub rank_le : (x : ℕ) → rank (start_vector r') x ≤ rank (start_vector r) x
  pub changed :
      r'.be_updated ≡ true
      → (x : ℕ) × (is_some (find g x) ≡ true) × (rank (start_vector r') x < rank (start_vector r) x)
  pub unchanged : r'.be_updated ≡ false → (x : ℕ) → far r'.distance_to x ≡ far r.distance_to x
  pub reach :
      (x : ℕ)
      → far r'.distance_to x < int_max
      → (far r.distance_to x < int_max) ⊎ (far r'.distance_to x ≤ limit x)
  pub short :
      (nei : ℕ) (m : Map ℕ) (x e w : ℕ)
      → Has (nei, m) r.updates
      → find m x ≡ some e
      → e < int_max
      → cost g u nei ≡ some w
      → far r'.distance_to x ≤ w + e

true_or : (A : Type 0) → (false ≡ true) ⊎ A → A
true_or A (inl e) = absurd (cc e)
true_or A (inr a) = a

pub update_router_lem :
    (g : Graph) (valid : IsGraph g) (limit : ℕ → ℕ) (u : ℕ) (r : Router)
    → IsRouter g u r
    → All (IsUpdate g limit u) r.updates
    → (r' : Router) × (update_router r ≡ done r') × IsStep g limit u r r'
update_router_lem g valid limit u r is_r told =
    let (s, short) =
      update_loop_lem g valid limit u r.node is_r.edges r.updates (start_vector r) told
        is_r.vector in
    let v = s.result in
    let grows = s.grows in
    let is_v = s.is_vector in
    (
      end_vector r v,
      router_run g valid limit u r.node is_r.edges r v s.run,
      record {
        router = record {
          id_is = is_r.id_is;
          edges = is_r.edges;
          distinct = is_r.distinct;
          listed = is_r.listed;
          vector = record {
            ascending = is_v.ascending;
            known = is_v.known;
            own = is_v.own;
            bounded = is_v.bounded;
            hop = is_v.hop;
            home = is_v.home;
            small = is_v.small;
          };
        };
        idle = refl;
        lower = grows.lower;
        rank_le = grows.rank_le;
        changed = λ c. true_or _ (grows.changed c);
        unchanged = λ c. (grows.unchanged c).1;
        reach = grows.reach;
        short = short;
      },
    )

-- The list of nodes before and after.
abbrev pub Stepped : Graph → (ℕ → ℕ) → Network → Network → Type 0
Stepped g limit [] [] = Unit
Stepped g limit ((k, r) ∷ h) ((k', r') ∷ i) = (k ≡ k') × IsStep g limit k r r' × Stepped g limit h i
Stepped g limit [] ((k', r') ∷ i) = ⊥
Stepped g limit ((k, r) ∷ h) [] = ⊥

-- What the rounds lower: the ranks at the nodes of `xs`.
abbrev pub row : List ℕ → Vector → ℕ
row [] v = 0
row (x ∷ xs) v = rank v x + row xs v

abbrev pub total : List ℕ → Network → ℕ
total xs [] = 0
total xs ((k, r) ∷ h) = row xs (start_vector r) + total xs h

row_le : (xs : List ℕ) (v w : Vector) → ((x : ℕ) → rank w x ≤ rank v x) → row xs w ≤ row xs v
row_le [] v w h = omega arith
row_le (x ∷ xs) v w h = omega (arith, row_le xs v w h, h x)

row_lt :
    (xs : List ℕ) (v w : Vector) (x : ℕ)
    → ((x : ℕ) → rank w x ≤ rank v x)
    → contains x xs ≡ true
    → rank w x < rank v x
    → row xs w < row xs v
row_lt [] v w x h c l = absurd (cc c)
row_lt (y ∷ xs) v w x h c l = elim (eq_or_ne y x) [
  | inl q ↦
      let lt : rank w y < rank v y = subst (λ z. rank w z < rank v z) (sym q) l in
      omega (arith, row_le xs v w h, lt)
  | inr ne ↦ omega (arith, row_lt xs v w x h (sym (contains_later x y xs ne) ∙ c) l, h y)
]

abbrev pub Quiet : Network → Type 0
Quiet = All (λ (p : ℕ × Router). p.1.be_updated ≡ false)

all_run :
    (k : ℕ) (r r' : Router) (h i : Network) (c : ℕ)
    → update_router r ≡ done r'
    → update_all h ≡ done (i, c)
    → update_all ((k, r) ∷ h) ≡ done ((k, r') ∷ i, count_if r'.be_updated c)
unfolding update_all
all_run k r r' h i c e f = rw (e, f) refl

find_both :
    (k : ℕ) (r : Router) (h : Network) (u : ℕ) (s : Router)
    → find ((k, r) ∷ h) u ≡ some s
    → (k ≡ u) × (r ≡ s) ⊎ (k ≢ u) × (find h u ≡ some s)
find_both k r h u s f = elim (eq_or_ne k u) [
  | inl q ↦ inl (q, some_inj (sym (find_first h k r) ∙ ap (find ((k, r) ∷ h)) q ∙ f))
  | inr ne ↦ inr (ne, sym (find_later h k r u ne) ∙ f)
]

-- A node after the loop, and what it was before.
pub find-Stepped :
    (g : Graph) (limit : ℕ → ℕ) (h i : Network) (u : ℕ) (r' : Router)
    → Stepped g limit h i
    → find i u ≡ some r'
    → (r : Router) × (find h u ≡ some r) × IsStep g limit u r r'
find-Stepped g limit [] [] u r' s f = absurd (cc (f, find_nil {V = Router} u))
find-Stepped g limit [] ((k', q') ∷ i) u r' s f = absurd s
find-Stepped g limit ((k, q) ∷ h) [] u r' s f = absurd s
find-Stepped g limit ((k, q) ∷ h) ((k', q') ∷ i) u r' (e, s, t) f =
    elim (find_both k' q' i u r' f) [
      | inl (same, is_r) ↦
          let here_u : k ≡ u = e ∙ same in
          (
            q,
            subst (λ z. find ((k, q) ∷ h) z ≡ some q) here_u (find_first h k q),
            subst (λ z. IsStep g limit z q r') here_u (subst (IsStep g limit k q) is_r s),
          )
      | inr (ne, f') ↦
          let (r, fr, step) = find-Stepped g limit h i u r' t f' in
          (r, find_later h k q u (λ z. ne (sym e ∙ z)) ∙ fr, step)
    ]

module _ (g : Graph) (valid : IsGraph g) (limit : ℕ → ℕ) (xs : List ℕ)
    (inside : (x : ℕ) → is_some (find g x) ≡ true → contains x xs ≡ true) where
  -- The outcome of the second loop with `count` changes.
  pub record IsRun (h i : Network) (count : ℕ) : Type 0 where
    pub stepped : Stepped g limit h i
    pub at_zero : count ≡ 0 → Quiet i
    pub total_le : total xs i ≤ total xs h
    pub total_lt : 0 < count → total xs i < total xs h

  IsRun-step :
      (k : ℕ) (r r' : Router) (h i : Network) (count : ℕ)
      → IsStep g limit k r r'
      → IsRun h i count
      → IsRun ((k, r) ∷ h) ((k, r') ∷ i) (count_if r'.be_updated count)
  IsRun-step k r r' h i count s t = elim (Bool-cases r'.be_updated) [
    | inl e ↦
        let (x, is_x, l) = s.changed e in
        let lt = row_lt xs (start_vector r) (start_vector r') x s.rank_le (inside x is_x) l in
        let t_le = t.total_le in
        subst (λ b. IsRun ((k, r) ∷ h) ((k, r') ∷ i) (count_if b count)) (sym e)
          (record {
            stepped = (refl, s, t.stepped);
            at_zero = λ z. absurd (omega (arith, z));
            total_le = omega (arith, lt, t_le);
            total_lt = λ z. omega (arith, lt, t_le);
          })
    | inr e ↦
        let le = row_le xs (start_vector r) (start_vector r') s.rank_le in
        let t_le = t.total_le in
        subst (λ b. IsRun ((k, r) ∷ h) ((k, r') ∷ i) (count_if b count)) (sym e)
          (record {
            stepped = (refl, s, t.stepped);
            at_zero = λ z. (e, t.at_zero z);
            total_le = omega (arith, le, t_le);
            total_lt = λ z. let t_lt = t.total_lt z in omega (arith, le, t_lt);
          })
  ]

  pub update_all_lem :
      (h : Network)
      → Ascending h
      → ((u : ℕ) (r : Router)
          → find h u ≡ some r
          → IsRouter g u r × All (IsUpdate g limit u) r.updates)
      → (i : Network) × (count : ℕ) × (update_all h ≡ done (i, count)) × IsRun h i count
  unfolding update_all
  update_all_lem [] up told = (
    [],
    0,
    refl,
    record {
      stepped = tt;
      at_zero = λ z. tt;
      total_le = omega arith;
      total_lt = λ z. absurd (omega (arith, z));
    },
  )
  update_all_lem ((k, r) ∷ h) up told =
      let (is_r, ups) = told k r (find_first h k r) in
      let (r', run, s) = update_router_lem g valid limit k r is_r ups in
      let (i, count, run', t) = update_all_lem h (Ascending-tail h k up) (λ u q f.
        elim (eq_or_ne k u) [
          | inl e ↦ absurd (cc (f, find-Above h k u up (omega (arith, e))))
          | inr ne ↦ told u q (find_later h k r u ne ∙ f)
        ]) in
      (
        (k, r') ∷ i,
        count_if r'.be_updated count,
        all_run k r r' h i count run run',
        IsRun-step k r r' h i count s t,
      )
