-- ===== src/Routing/DistVec/Updating.antt =====
-- `update_distance_and_forwarding_table` of mp3/src/distvec.cpp.
use networking_learning.Base.{
  ℕ, ◌+◌, ◌≤◌, ◌<◌, ◌≡◌, ◌∙◌, ap, subst, sym, refl, ◌⊎◌, inl, inr, true, ◌==◌, List, [], ◌∷◌, some,
  arith, All, Proc, done, Bool-cases, eq_or_ne, ne→==, le→ltb, lt_or_le,
}
use networking_learning.Routing.Map.{Map, find, find_nil, find_first, find_later, some_inj}
use networking_learning.Routing.LinkState.{Node, Graph, is_some, int_max, get_edge_cost}
use networking_learning.Routing.LinkState.Table.{int_add}
use networking_learning.Routing.LinkState.Paths.{cost, Walk, IsGraph}
use networking_learning.Routing.DistVec.{
  Router, Vector, compare_way, update_entry, update_entries, update_loop, update_router,
  start_vector, end_vector,
}
use networking_learning.Routing.DistVec.Vectors.{far, IsVector, Grows, Grows-refl, Grows-trans}
use networking_learning.Routing.DistVec.Comparing.{compare_way_lem}

-- An element of a list.
abbrev pub Has : ℕ × Map ℕ → List (ℕ × Map ℕ) → Type 0
Has a [] = ⊥
Has a (b ∷ l) = (b ≡ a) ⊎ Has a l

-- A distance `e` to `x` that the node at the other end of an edge of the cost `w` has told.
pub record IsEntry (g : Graph) (limit : ℕ → ℕ) (nei w x e : ℕ) : Type 0 where
  pub is_node : is_some (find g x) ≡ true
  pub bound : e ≤ int_max
  pub walk : e < int_max → Walk g nei x e
  pub fits : e < int_max → w + e < int_max
  pub in_limit : e < int_max → w + e ≤ limit x

-- A vector that the neighbour `nei` of `u` has told.
pub record IsUpdate (g : Graph) (limit : ℕ → ℕ) (u : ℕ) (update : ℕ × Map ℕ) : Type 0 where
  pub edge : ℕ
  pub is_edge : cost g u update.0 ≡ some edge
  pub small : update.0 < 4294967296
  pub entries : All (λ (p : ℕ × ℕ). IsEntry g limit update.0 edge p.0 p.1) update.1

update_entry-skip :
    (n : Node) (nei x w : ℕ) (v : Vector)
    → find n.edges nei ≡ some w
    → update_entry n nei x int_max v ≡ done v
unfolding update_entry get_edge_cost
update_entry-skip n nei x w v f = elim (Bool-cases (w == int_max)) [
  | inl q ↦ rw (f, q) refl
  | inr q ↦ rw (f, q) refl
]

update_entry-compare :
    (n : Node) (nei x w e : ℕ) (v : Vector)
    → find n.edges nei ≡ some w
    → w + e < int_max
    → update_entry n nei x e v ≡ done (compare_way nei x (w + e) v)
unfolding update_entry get_edge_cost int_add
update_entry-compare n nei x w e v f l =
    rw
      (
        f,
        ne→== w int_max (λ q. absurd (omega (arith, l, q))),
        ne→== e int_max (λ q. absurd (omega (arith, l, q))),
        le→ltb int_max (w + e) (omega (arith, l)),
      )
      refl

module _ (g : Graph) (valid : IsGraph g) (limit : ℕ → ℕ) (u : ℕ) (n : Node)
    (edges : (y : ℕ) → find n.edges y ≡ cost g u y) where
  -- What a run from `v` comes to.
  pub record IsUpdated (v : Vector) (r : Proc Vector) : Type 0 where
    pub result : Vector
    pub run : r ≡ done result
    pub is_vector : IsVector g u result
    pub grows : Grows g limit v result

  update_entry_lem :
      (nei x e w : ℕ) (v : Vector)
      → cost g u nei ≡ some w
      → nei < 4294967296
      → IsEntry g limit nei w x e
      → IsVector g u v
      → (s : IsUpdated v (update_entry n nei x e v)) × (e < int_max
          → far s.result.distance_to x ≤ w + e)
  update_entry_lem nei x e w v k small entry is_v = elim (lt_or_le e int_max) [
    | inr ge ↦
        let q : e ≡ int_max = omega (arith, ge, entry.bound) in
        (
          record {
            result = v;
            run =
                ap (λ d. update_entry n nei x d v) q
                ∙ update_entry-skip n nei x w v (edges nei ∙ k);
            is_vector = is_v;
            grows = Grows-refl g limit v;
          },
          λ l. absurd (omega (arith, q, l)),
        )
    | inl l ↦
        let (after, grows, short) =
          compare_way_lem g limit u nei x w e k (entry.walk l) (valid.positive u nei w k)
            (entry.fits l) (entry.in_limit l) entry.is_node small v is_v in
        (
          record {
            result = compare_way nei x (w + e) v;
            run = update_entry-compare n nei x w e v (edges nei ∙ k) (entry.fits l);
            is_vector = after;
            grows = grows;
          },
          λ l'. short,
        )
  ]

  entries_run :
      (nei x e : ℕ) (m : Map ℕ) (v v₁ : Vector) (r : Proc Vector)
      → update_entry n nei x e v ≡ done v₁
      → update_entries n nei m v₁ ≡ r
      → update_entries n nei ((x, e) ∷ m) v ≡ r
  unfolding update_entries
  entries_run nei x e m v v₁ r a b = rw a b

  update_entries_lem :
      (nei w : ℕ) (m : Map ℕ) (v : Vector)
      → cost g u nei ≡ some w
      → nei < 4294967296
      → All (λ (p : ℕ × ℕ). IsEntry g limit nei w p.0 p.1) m
      → IsVector g u v
      → (s : IsUpdated v (update_entries n nei m v)) × ((x e : ℕ)
          → find m x ≡ some e
          → e < int_max
          → far s.result.distance_to x ≤ w + e)
  unfolding update_entries
  update_entries_lem nei w [] v k small told is_v = (
    record { result = v; run = refl; is_vector = is_v; grows = Grows-refl g limit v },
    λ x e f. absurd (cc (f, find_nil {V = ℕ} x)),
  )
  update_entries_lem nei w ((y, d) ∷ m) v k small told is_v =
      let (a, short) = update_entry_lem nei y d w v k small told.0 is_v in
      let (b, shorter) = update_entries_lem nei w m a.result k small told.1 a.is_vector in
      (
        record {
          result = b.result;
          run = entries_run nei y d m v a.result (done b.result) a.run b.run;
          is_vector = b.is_vector;
          grows = Grows-trans g limit v a.result b.result a.grows b.grows;
        },
        λ x e f l. elim (eq_or_ne y x) [
          | inl q ↦
              let same : d ≡ e = some_inj (sym (find_first m y d) ∙ ap (find ((y, d) ∷ m)) q ∙ f) in
              subst (λ z. far b.result.distance_to z ≤ w + e) q
                (let grows = b.grows in
                  omega (arith, short (omega (arith, same, l)), grows.lower y, same))
          | inr ne ↦ shorter x e (sym (find_later m y d x ne) ∙ f) l
        ],
      )

  loop_run :
      (nei : ℕ) (m : Map ℕ) (ups : List (ℕ × Map ℕ)) (v v₁ : Vector) (r : Proc Vector)
      → update_entries n nei m v ≡ done v₁
      → update_loop n ups v₁ ≡ r
      → update_loop n ((nei, m) ∷ ups) v ≡ r
  unfolding update_loop
  loop_run nei m ups v v₁ r a b = rw a b

  pub update_loop_lem :
      (ups : List (ℕ × Map ℕ)) (v : Vector)
      → All (IsUpdate g limit u) ups
      → IsVector g u v
      → (s : IsUpdated v (update_loop n ups v)) × ((nei : ℕ) (m : Map ℕ) (x e w : ℕ)
          → Has (nei, m) ups
          → find m x ≡ some e
          → e < int_max
          → cost g u nei ≡ some w
          → far s.result.distance_to x ≤ w + e)
  unfolding update_loop
  update_loop_lem [] v told is_v = (
    record { result = v; run = refl; is_vector = is_v; grows = Grows-refl g limit v },
    λ nei m x e w h. absurd h,
  )
  update_loop_lem ((a, ma) ∷ ups) v told is_v =
      let (up, rest) = told in
      let (s, short) = update_entries_lem a up.edge ma v up.is_edge up.small up.entries is_v in
      let (t, shorter) = update_loop_lem ups s.result rest s.is_vector in
      (
        record {
          result = t.result;
          run = loop_run a ma ups v s.result (done t.result) s.run t.run;
          is_vector = t.is_vector;
          grows = Grows-trans g limit v s.result t.result s.grows t.grows;
        },
        λ nei m x e w h f l k. elim h [
          | inl q ↦
              let same_nei : a ≡ nei = ap (λ (z : ℕ × Map ℕ). z.0) q in
              let same_map : ma ≡ m = ap (λ (z : ℕ × Map ℕ). z.1) q in
              let same : up.edge ≡ w = some_inj (sym up.is_edge ∙ ap (cost g u) same_nei ∙ k) in
              let grows = t.grows in
              omega (arith, short x e (ap (λ z. find z x) same_map ∙ f) l, grows.lower x, same)
          | inr h' ↦ shorter nei m x e w h' f l k
        ],
      )

  pub router_run :
      (r : Router) (v : Vector)
      → update_loop r.node r.updates (start_vector r) ≡ done v
      → update_router r ≡ done (end_vector r v)
  unfolding update_router
  router_run r v e = rw e refl
