-- ===== src/Routing/LinkState/Relaxing.antt =====
-- The loop over the neighbours of the visited node in mp3/src/linkstate.cpp keeps the invariant.
use networking_learning.Base.{
  ℕ, ◌+◌, ◌≤◌, ◌<◌, ◌≡◌, ◌≢◌, ◌∙◌, ap, subst, sym, ◌⊎◌, inl, inr, true, false, List, ◌∷◌, none,
  some, arith, eq_or_ne, ne→==,
}
use networking_learning.Routing.Map.{
  find, insert, find-insert_same, find-insert_other, entry-insert, some_inj, Ascending-insert,
  length-insert_found,
}
use networking_learning.Routing.LinkState.{Graph, is_some, contains, int_max}
use networking_learning.Routing.LinkState.Table.{Search, relax}
use networking_learning.Routing.LinkState.Paths.{cost, Walk, step}
use networking_learning.Routing.LinkState.Invariant.{IsBefore, Labelled, IsSearch}
use networking_learning.Routing.LinkState.Improving.{improved, relax_cases}

module _ (g : Graph) (root : ℕ) where
  contains_cons : (y a : ℕ) (l : List ℕ) → a ≢ y → contains y l ≡ false → contains y (a ∷ l) ≡ false
  contains_cons y a l h e = rw (ne→== a y h, e)

  -- The invariant once the neighbour `nei` is dealt with.
  pub drop-IsSearch :
      (cur nei : ℕ) (todo : List ℕ) (s : Search)
      → IsSearch g root cur (nei ∷ todo) s
      → ((x y d c e : ℕ)
          → x ≡ cur
          → y ≡ nei
          → find s.record_dist x ≡ some d
          → cost g x y ≡ some c
          → find s.distance_to_root y ≡ some e
          → e ≤ d + c)
      → IsSearch g root cur todo s
  drop-IsSearch cur nei todo s v h = record {
    ascending = v.ascending;
    sizes = v.sizes;
    seen = v.seen;
    covered = v.covered;
    left_node = v.left_node;
    seen_node = v.seen_node;
    near = v.near;
    far = v.far;
    left_walk = v.left_walk;
    left_le = λ x y d c e r f k l o. elim (eq_or_ne x cur) [
      | inr ne ↦ v.left_le x y d c e r f k l (inl ne)
      | inl ex ↦ elim (eq_or_ne y nei) [
        | inl ey ↦ h x y d c e ex ey r k l
        | inr ne ↦
            v.left_le x y d c e r f k l (elim o [
              | inl a ↦ inl a
              | inr b ↦ inr (contains_cons y nei todo (λ q. ne (sym q)) b)
            ])
      ]
    ];
    root_is = v.root_is;
    before = v.before;
    before_far = v.before_far;
    before_root = v.before_root;
    table_far = v.table_far;
    table_root = v.table_root;
  }

  module _ (cur nei old new w dist : ℕ) (todo : List ℕ) (s : Search)
      (v : IsSearch g root cur (nei ∷ todo) s) (reached : find s.record_dist cur ≡ some dist)
      (finite : dist < int_max) (edge : cost g cur nei ≡ some w)
      (left : find s.distance_to_root nei ≡ some old) (sum : dist + w ≡ new) (small : new < int_max)
      (pos : 0 < w) where
    -- The edge that is looked at.
    edge_sum :
        (x y d c : ℕ)
        → x ≡ cur
        → y ≡ nei
        → find s.record_dist x ≡ some d
        → cost g x y ≡ some c
        → d + c ≡ new
    edge_sum x y d c ex ey r k =
        let d_is : d ≡ dist = some_inj (sym r ∙ ap (find s.record_dist) ex ∙ reached) in
        let c_is : c ≡ w = some_inj (sym k ∙ ap (λ z. cost g z y) ex ∙ ap (cost g cur) ey ∙ edge) in
        omega arith

    -- The other edges to nodes that are left.
    other_le :
        (x y d c e : ℕ)
        → (x ≢ cur) ⊎ (y ≢ nei)
        → find s.record_dist x ≡ some d
        → d < int_max
        → cost g x y ≡ some c
        → find s.distance_to_root y ≡ some e
        → (x ≢ cur) ⊎ (contains y todo ≡ false)
        → e ≤ d + c
    other_le x y d c e h r f k l (inl ne) = v.left_le x y d c e r f k l (inl ne)
    other_le x y d c e (inl ne) r f k l (inr o) = v.left_le x y d c e r f k l (inl ne)
    other_le x y d c e (inr ne) r f k l (inr o) =
        v.left_le x y d c e r f k l (inr (contains_cons y nei todo (λ q. ne (sym q)) o))

    unchanged-IsSearch : old ≤ new → IsSearch g root cur todo s
    unchanged-IsSearch le = drop-IsSearch cur nei todo s v λ x y d c e ex ey r k l.
        let e_is : e ≡ old = some_inj (sym l ∙ ap (find s.distance_to_root) ey ∙ left) in
        omega (arith, edge_sum x y d c ex ey r k)

    nei_left : find s.record_dist nei ≡ none
    nei_left = let (a, b, c) = v.left_node nei old left in b

    old-ne-zero : new ≤ old → old ≢ 0
    old-ne-zero le = omega arith

    -- A visited node is not the neighbour.
    seen-ne-nei : (x d : ℕ) → find s.record_dist x ≡ some d → nei ≢ x
    seen-ne-nei x d r e = cc (sym nei_left ∙ ap (find s.record_dist) e ∙ r)

    nei-ne-root : new ≤ old → nei ≢ root
    nei-ne-root le e = elim v.root_is [
      | inl l ↦ old-ne-zero le (some_inj (sym left ∙ ap (find s.distance_to_root) e ∙ l))
      | inr r ↦ absurd (cc (sym nei_left ∙ ap (find s.record_dist) e ∙ r))
    ]

    improved_le :
        new ≤ old
        → (x y d c e : ℕ) → find s.record_dist x ≡ some d
        → d < int_max
        → cost g x y ≡ some c
        → find (insert nei new s.distance_to_root) y ≡ some e
        → (x ≢ cur) ⊎ (contains y todo ≡ false)
        → e ≤ d + c
    improved_le le x y d c e r f k l o = elim (entry-insert s.distance_to_root nei new y e l) [
      | inr (ne, l') ↦ other_le x y d c e (inr (λ q. ne (sym q))) r f k l' o
      | inl (ey, e_is) ↦ elim (eq_or_ne x cur) [
        | inl ex ↦ omega (arith, edge_sum x y d c ex (sym ey) r k)
        | inr ne ↦
            let old_le =
              v.left_le x y d c old r f k (sym (ap (find s.distance_to_root) ey) ∙ left) (inl ne) in
            omega arith
      ]
    ]

    improved_node :
        new ≤ old
        → (x d : ℕ) → find (insert nei new s.distance_to_root) x ≡ some d
        → (is_some (find g x) ≡ true) × (find s.record_dist x ≡ none) × (d ≤ int_max)
    improved_node le x d f = elim (entry-insert s.distance_to_root nei new x d f) [
      | inr (ne, l) ↦ v.left_node x d l
      | inl (e, d_is) ↦
          let (a, b, c) = v.left_node nei old left in
          (
            sym (ap (λ z. is_some (find g z)) e) ∙ a,
            sym (ap (find s.record_dist) e) ∙ b,
            omega arith,
          )
    ]

    improved-Walk :
        (x d : ℕ)
        → find (insert nei new s.distance_to_root) x ≡ some d
        → d < int_max
        → Walk g root x d
    improved-Walk x d f l = elim (entry-insert s.distance_to_root nei new x d f) [
      | inr (ne, h) ↦ v.left_walk x d h l
      | inl (e, d_is) ↦
          subst (λ z. Walk g root z d) e
            (step (v.near cur dist reached finite).walk nei w d edge (omega arith))
    ]

    improved_covered :
        (x : ℕ)
        → is_some (find g x) ≡ true
        → find s.record_dist x ≡ none
        → is_some (find (insert nei new s.distance_to_root) x) ≡ true
    improved_covered x a b = elim (eq_or_ne nei x) [
      | inl e ↦ ap is_some (
          sym (ap (find (insert nei new s.distance_to_root)) e)
          ∙ find-insert_same s.distance_to_root nei new)
      | inr ne ↦ ap is_some (find-insert_other s.distance_to_root nei new x ne) ∙ v.covered x a b
    ]

    improved_root : new ≤ old → Labelled g root (improved cur nei new s) root 0
    improved_root le = elim v.root_is [
      | inl l ↦ inl (find-insert_other s.distance_to_root nei new root (nei-ne-root le) ∙ l)
      | inr r ↦ inr r
    ]

    -- The predecessors of other nodes stay.
    other-IsBefore :
        (x d : ℕ)
        → nei ≢ x
        → x ≢ root
        → Labelled g root s x d
        → d < int_max
        → (p : ℕ) × IsBefore g root (improved cur nei new s) x d p
    other-IsBefore x d ne n l f =
        let (p, b) = v.before x d n l f in
        (
          p,
          record {
            found = find-insert_other s.prevs nei cur x ne ∙ b.found;
            dist = b.dist;
            reached = b.reached;
            finite = b.finite;
            edge = b.edge;
            is_edge = b.is_edge;
            sum = b.sum;
          },
        )

    nei-IsBefore : (x : ℕ) → nei ≡ x → IsBefore g root (improved cur nei new s) x new cur
    nei-IsBefore x e = record {
      found = sym (ap (find (insert nei cur s.prevs)) e) ∙ find-insert_same s.prevs nei cur;
      dist = dist;
      reached = reached;
      finite = finite;
      edge = w;
      is_edge = sym (ap (cost g cur) e) ∙ edge;
      sum = sum;
    }

    improved-IsBefore :
        (x d : ℕ)
        → x ≢ root
        → Labelled g root (improved cur nei new s) x d
        → d < int_max
        → (p : ℕ) × IsBefore g root (improved cur nei new s) x d p
    improved-IsBefore x d n (inl l) f = elim (entry-insert s.distance_to_root nei new x d l) [
      | inr (ne, h) ↦ other-IsBefore x d ne n (inl h) f
      | inl (e, d_is) ↦ (
        cur,
        subst (λ z. IsBefore g root (improved cur nei new s) x z cur) d_is (nei-IsBefore x e),
      )
    ]
    improved-IsBefore x d n (inr r) f = other-IsBefore x d (seen-ne-nei x d r) n (inr r) f

    improved-IsSearch : new ≤ old → IsSearch g root cur todo (improved cur nei new s)
    improved-IsSearch le = record {
      ascending = Ascending-insert s.distance_to_root nei new v.ascending;
      sizes =
          omega
            (arith, v.sizes, length-insert_found s.distance_to_root nei old new v.ascending left);
      seen = v.seen;
      covered = improved_covered;
      left_node = improved_node le;
      seen_node = v.seen_node;
      near = v.near;
      far = v.far;
      left_walk = improved-Walk;
      left_le = improved_le le;
      root_is = improved_root le;
      before = improved-IsBefore;
      before_far =
          λ x f. find-insert_other s.prevs nei cur x (seen-ne-nei x int_max f) ∙ v.before_far x f;
      before_root = find-insert_other s.prevs nei cur root (nei-ne-root le) ∙ v.before_root;
      table_far = v.table_far;
      table_root = v.table_root;
    }

    predecessor : new ≡ old → (p : ℕ) × (find s.prevs nei ≡ some p)
    predecessor e =
        let (p, b) = v.before nei old (nei-ne-root (omega arith)) (inl left) (omega arith) in
        (p, b.found)

    pub relax-IsSearch : IsSearch g root cur todo (relax cur nei old new s)
    relax-IsSearch = elim (relax_cases cur nei old new s predecessor) [
      | inl (e, le) ↦ subst (IsSearch g root cur todo) (sym e) (improved-IsSearch le)
      | inr (e, le) ↦ subst (IsSearch g root cur todo) (sym e) (unchanged-IsSearch le)
    ]
