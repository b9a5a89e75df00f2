-- ===== src/Routing/LinkState/Distances.antt =====
-- The search of mp3/src/linkstate.cpp ends, and leaves the distances from its root.
use networking_learning.Base.{
  ℕ, zero, suc, ◌+◌, ◌≤◌, ◌<◌, ◌≡◌, ◌≢◌, ◌∙◌, ap, subst, sym, refl, ◌⊎◌, inl, inr, true,
  if◌then◌else◌, [], ◌∷◌, length, none, some, arith, done, eq_or_ne, eq→==, ne→==, lt→ltb, le→ltb,
  lt_or_le,
}
use networking_learning.Routing.Map.{
  Map, find, insert, erase, some_inj, Option-cases, find-insert_same, find-insert_other,
  find-insert, entry-insert, Ascending, Ascending-insert, length-insert, length-insert_found,
  find-Above, length_zero, find_nil, Ascending-tail, find_cons,
}
use networking_learning.Routing.Line.{no_node}
use networking_learning.Routing.LinkState.{Node, Graph, is_some, int_max}
use networking_learning.Routing.LinkState.Table.{
  Search, visit, visit_neis, get_idx_of_min_cost, search, all_far, init_search,
}
use networking_learning.Routing.LinkState.Paths.{cost_in, Walk, here, IsGraph, Fits}
use networking_learning.Routing.LinkState.Invariant.{IsBefore, Labelled, IsSearch}
use networking_learning.Routing.LinkState.Nearest.{get_idx_of_min_cost_lem}
use networking_learning.Routing.LinkState.Neighbours.{
  is_some-cases, visit_neis-IsSearch, contains-All,
}
use networking_learning.Routing.LinkState.Visiting.{moved-IsSearch, not_visited}

-- What a round does, once the nearest node is known.
abbrev taken : ℕ → ℕ → Search → Search
taken cur d s = record s {
  visited = insert cur tt s.visited;
  record_dist = insert cur d s.record_dist;
  distance_to_root = erase cur s.distance_to_root;
}

visit_far :
    (g : Graph) (s : Search) (cur : ℕ)
    → get_idx_of_min_cost s.distance_to_root ≡ cur
    → find s.distance_to_root cur ≡ some int_max
    → visit g s
      ≡ done (record (taken cur int_max s) {
        forwarding_table = insert cur no_node s.forwarding_table;
        prevs = insert cur no_node s.prevs;
      })
unfolding visit
visit_far g s cur e f = rw (e, f)

visit_near :
    (g : Graph) (s : Search) (cur d : ℕ) (n : Node)
    → get_idx_of_min_cost s.distance_to_root ≡ cur
    → find s.distance_to_root cur ≡ some d
    → d ≢ int_max
    → find g cur ≡ some n
    → visit g s ≡ visit_neis n cur d n.neibours (taken cur d s)
unfolding visit
visit_near g s cur d n e f h k = rw (e, f, ne→== d int_max h, k)

search_step :
    (fuel : ℕ) (g : Graph) (s s₁ : Search)
    → length s.visited < length g
    → visit g s ≡ done s₁
    → search (suc fuel) g s ≡ search fuel g s₁
unfolding search
search_step fuel g s s₁ lt run = rw (lt→ltb (length s.visited) (length g) lt, search, run)

search_stop :
    (fuel : ℕ) (g : Graph) (s : Search) → length g ≤ length s.visited → search fuel g s ≡ done s
unfolding search
search_stop zero g s le = rw (le→ltb (length s.visited) (length g) le)
search_stop (suc fuel) g s le = rw (le→ltb (length s.visited) (length g) le, search)

-- The nearest node that is left, and what the invariant says of it.
module _ (g : Graph) (root : ℕ) (valid : IsGraph g) (fits : Fits g root) where
  visit-IsSearch :
      (c : ℕ) (s : Search)
      → IsSearch g root c [] s
      → length s.visited < length g
      → (s' : Search) × (visit g s ≡ done s')
        × ((c' : ℕ) × IsSearch g root c' [] s')
        × (length s'.visited ≡ suc (length s.visited))
  visit-IsSearch c s v h =
      let (d, found, least) =
        get_idx_of_min_cost_lem s.distance_to_root v.ascending
          (λ x e f. let (a, b, k) = v.left_node x e f in k) (omega (arith, v.sizes)) in
      let cur = get_idx_of_min_cost s.distance_to_root in
      elim (eq_or_ne d int_max) [
        | inl far ↦
            let prevs' = insert cur no_node s.prevs in
            let table' = insert cur no_node s.forwarding_table in
            (
              record (taken cur int_max s) { forwarding_table = table'; prevs = prevs' },
              visit_far g s cur refl (found ∙ ap some far),
              (
                cur,
                moved-IsSearch g root valid fits c s v cur int_max (found ∙ ap some far)
                    (λ x e f. subst (λ z. z ≤ e) far (least x e f)) prevs' table' []
                    (λ x ne. find-insert_other s.prevs cur no_node x ne) (λ l. absurd (omega arith))
                    (λ l. find-insert_same s.prevs cur no_node)
                    (λ x ne. find-insert_other s.forwarding_table cur no_node x ne)
                    (λ l. absurd (omega arith))
                    (λ l. find-insert_same s.forwarding_table cur no_node)
                    (λ y w l k. absurd (omega arith)),
              ),
              length-insert s.visited cur tt
                  (not_visited g root valid fits c s v cur d found least),
            )
        | inr near ↦
            let (in_g, a, d_le) = v.left_node cur d found in
            let (n, node) = is_some-cases (find g cur) in_g in
            let fin : d < int_max = omega arith in
            let w =
              moved-IsSearch g root valid fits c s v cur d found least s.prevs s.forwarding_table
                n.neibours (λ x ne. refl) (λ l. refl) (λ l. absurd (near l)) (λ x ne. refl)
                (λ l. refl) (λ l. absurd (near l))
                (λ y w l k.
                  valid.listed cur n node y ∙ ap is_some (sym (ap (λ o. cost_in o y) node) ∙ k)) in
            let (s', run, v', same) =
              visit_neis-IsSearch g root valid fits cur d n node fin n.neibours (taken cur d s)
                (contains-All n.neibours) (find-insert_same s.record_dist cur d) w in
            (
              s',
              visit_near g s cur d n refl found near node ∙ run,
              (cur, v'),
              ap length same
                  ∙ length-insert s.visited cur tt
                      (not_visited g root valid fits c s v cur d found least),
            )
      ]

  pub search_lem :
      (fuel c : ℕ) (s : Search)
      → IsSearch g root c [] s
      → length g ≤ length s.visited + fuel
      → (s' : Search) × (search fuel g s ≡ done s')
        × ((c' : ℕ) × IsSearch g root c' [] s')
        × (s'.distance_to_root ≡ [])
  search_lem zero c s v h = (
    s,
    search_stop zero g s (omega arith),
    (c, v),
    length_zero s.distance_to_root (omega (arith, v.sizes)),
  )
  search_lem (suc fuel) c s v h = elim (lt_or_le (length s.visited) (length g)) [
    | inr le ↦ (
      s,
      search_stop (suc fuel) g s le,
      (c, v),
      length_zero s.distance_to_root (omega (arith, v.sizes)),
    )
    | inl lt ↦
        let (s₁, run₁, cv, n) = visit-IsSearch c s v lt in
        let (s₂, run₂, w, e) = search_lem fuel cv.0 s₁ cv.1 (omega arith) in
        (s₂, search_step fuel g s s₁ lt run₁ ∙ run₂, w, e)
  ]

find-all_far :
    (g : Graph) (m : Map ℕ) (j : ℕ)
    → find (all_far g m) j ≡ (if is_some (find g j) then some int_max else find m j)
unfolding all_far
find-all_far [] m j = rw (find_nil {V = Node} j)
find-all_far ((k, n) ∷ g) m j =
    ground
      (arith, find-all_far g (insert k int_max m) j, find-insert m k int_max j, find_cons g k n j)

all_far-out : (g : Graph) (x : ℕ) → find g x ≡ none → find (all_far g []) x ≡ none
all_far-out g x q = rw (find-all_far g [] x, q) (find_nil x)

all_far-in : (g : Graph) (x : ℕ) → is_some (find g x) ≡ true → find (all_far g []) x ≡ some int_max
all_far-in g x q = rw (find-all_far g [] x, q)

Ascending-all_far : (g : Graph) (m : Map ℕ) → Ascending m → Ascending (all_far g m)
unfolding all_far
Ascending-all_far [] m a = a
Ascending-all_far ((k, n) ∷ g) m a =
    Ascending-all_far g (insert k int_max m) (Ascending-insert m k int_max a)

length-all_far :
    (g : Graph) (m : Map ℕ)
    → Ascending g
    → ((x : ℕ) → is_some (find g x) ≡ true → find m x ≡ none)
    → length (all_far g m) ≡ length g + length m
unfolding all_far
length-all_far [] m a h = omega arith
length-all_far ((k, n) ∷ g) m a h =
    let here : is_some (find ((k, n) ∷ g) k) ≡ true = rw (find_cons g k n k, eq→== k k refl) refl in
    let n_k = length-insert m k int_max (h k here) in
    let rest = length-all_far g (insert k int_max m) (Ascending-tail g k a) (λ x e.
      let ne : k ≢ x = λ q. cc (
        sym e
        ∙ ap (λ z. is_some (find g z)) (sym q)
        ∙ ap is_some (find-Above g k k a (omega arith))) in
      find-insert_other m k int_max x ne ∙ h x (rw (find_cons g k n x, ne→== k x ne) e)) in
    omega (arith, rest, n_k)

module _ (g : Graph) (valid : IsGraph g) (n : Node) (node : find g n.id ≡ some n) where
  init-distance_to_root : (init_search g n).distance_to_root ≡ insert n.id 0 (all_far g [])
  unfolding init_search
  init-distance_to_root = refl

  far_entry :
      (x d : ℕ) → find (all_far g []) x ≡ some d → (is_some (find g x) ≡ true) × (d ≡ int_max)
  far_entry x d f = elim (Option-cases (find g x)) [
    | inl q ↦ absurd (cc (sym f ∙ all_far-out g x q))
    | inr (m, q) ↦ (ap is_some q, some_inj (sym f ∙ all_far-in g x (ap is_some q)))
  ]

  root_far : find (all_far g []) n.id ≡ some int_max
  root_far = find-all_far g [] n.id ∙ rw node refl

  init_entry :
      (x d : ℕ)
      → find (insert n.id 0 (all_far g [])) x ≡ some d
      → ((n.id ≡ x) × (0 ≡ d)) ⊎ ((is_some (find g x) ≡ true) × (d ≡ int_max))
  init_entry x d f = elim (entry-insert (all_far g []) n.id 0 x d f) [
    | inl (e, z) ↦ inl (e, z)
    | inr (ne, h) ↦ inr (far_entry x d h)
  ]

  init_covered :
      (x : ℕ)
      → is_some (find g x) ≡ true
      → find {V = ℕ} [] x ≡ none
      → is_some (find (insert n.id 0 (all_far g [])) x) ≡ true
  init_covered x a b = elim (eq_or_ne n.id x) [
    | inl e ↦
        ap is_some (
          ap (find (insert n.id 0 (all_far g []))) (sym e) ∙ find-insert_same (all_far g []) n.id 0)
    | inr ne ↦ ap is_some (find-insert_other (all_far g []) n.id 0 x ne ∙ all_far-in g x a)
  ]

  init_left :
      (x d : ℕ)
      → find (insert n.id 0 (all_far g [])) x ≡ some d
      → (is_some (find g x) ≡ true) × (find {V = ℕ} [] x ≡ none) × (d ≤ int_max)
  init_left x d f = elim (init_entry x d f) [
    | inl (e, z) ↦ (ap (λ z. is_some (find g z)) (sym e) ∙ ap is_some node, find_nil x, omega arith)
    | inr (a, z) ↦ (a, find_nil x, omega arith)
  ]

  init-Walk :
      (x d : ℕ) → find (insert n.id 0 (all_far g [])) x ≡ some d → d < int_max → Walk g n.id x d
  init-Walk x d f l = elim (init_entry x d f) [
    | inl (e, z) ↦ here x d (sym e) (sym z)
    | inr (a, z) ↦ absurd (omega arith)
  ]

  init-IsBefore :
      (x d : ℕ)
      → x ≢ n.id
      → Labelled g n.id (init_search g n) x d
      → d < int_max
      → (p : ℕ) × IsBefore g n.id (init_search g n) x d p
  unfolding init_search
  init-IsBefore x d ne (inl l) f = elim (init_entry x d l) [
    | inl (e, z) ↦ absurd (ne (sym e))
    | inr (a, z) ↦ absurd (omega arith)
  ]
  init-IsBefore x d ne (inr r) f = absurd (cc (sym (find_nil x) ∙ r))

  pub init-IsSearch : IsSearch g n.id n.id [] (init_search g n)
  unfolding init_search
  init-IsSearch = record {
    ascending = Ascending-insert (all_far g []) n.id 0 (Ascending-all_far g [] tt);
    sizes = omega (
      arith,
      length-insert_found (all_far g []) n.id int_max 0 (Ascending-all_far g [] tt) root_far,
      length-all_far g [] valid.ascending (λ x e. find_nil x),
    );
    seen = λ x. ap is_some (find_nil {V = Unit {0}} x) ∙ sym (ap is_some (find_nil {V = ℕ} x));
    covered = init_covered;
    left_node = init_left;
    seen_node = λ x d f. absurd (cc (sym (find_nil x) ∙ f));
    near = λ x d f l. absurd (cc (sym (find_nil x) ∙ f));
    far = λ x e f w. cc (sym (find_nil x) ∙ f);
    left_walk = init-Walk;
    left_le = λ x y d w e f l k h o. absurd (cc (sym (find_nil x) ∙ f));
    root_is = inl (find-insert_same (all_far g []) n.id 0);
    before = init-IsBefore;
    before_far = λ x f. absurd (cc (sym (find_nil x) ∙ f));
    before_root = find-insert_same [] n.id no_node;
    table_far = λ x f. absurd (cc (sym (find_nil x) ∙ f));
    table_root = valid.own n.id n node;
  }
