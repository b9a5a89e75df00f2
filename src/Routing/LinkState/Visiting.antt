-- ===== src/Routing/LinkState/Visiting.antt =====
-- One round of the search of mp3/src/linkstate.cpp keeps the invariant.
use networking_learning.Base.{
  ℕ, ◌+◌, ◌≤◌, ◌<◌, ◌≡◌, ◌≢◌, ◌∙◌, ap, subst, sym, refl, ◌⊎◌, inl, inr, true, false, List, [], none,
  some, arith, eq_or_ne,
}
use networking_learning.Routing.Map.{
  Map, find, insert, erase, Option-cases, find-insert_same, find-insert_other, find-erase_other,
  entry-insert, entry-erase, Ascending-erase, length-insert, length-erase,
}
use networking_learning.Routing.Line.{no_node}
use networking_learning.Routing.LinkState.{Graph, is_some, contains, int_max}
use networking_learning.Routing.LinkState.Table.{Search}
use networking_learning.Routing.LinkState.Paths.{cost, Walk, IsDistance, IsGraph, Fits}
use networking_learning.Routing.LinkState.Invariant.{IsBefore, Labelled, IsSearch}
use networking_learning.Routing.LinkState.Reaching.{reach}

module _ (g : Graph) (root : ℕ) (valid : IsGraph g) (fits : Fits g root) (c : ℕ) (s : Search)
    (v : IsSearch g root c [] s) (cur d : ℕ) (found : find s.distance_to_root cur ≡ some d)
    (least : (x e : ℕ) → find s.distance_to_root x ≡ some e → d ≤ e) where
  unseen : find s.record_dist cur ≡ none
  unseen = let (a, b, e) = v.left_node cur d found in b

  -- A visited node is not the one that is visited now.
  seen-ne : (x e : ℕ) → find s.record_dist x ≡ some e → cur ≢ x
  seen-ne x e r q = cc (sym unseen ∙ ap (find s.record_dist) q ∙ r)

  cur-IsDistance : d < int_max → IsDistance g root cur d
  cur-IsDistance l = record {
    walk = v.left_walk cur d found l;
    least = λ e w. elim (reach g root valid fits c s v d least w) [
      | inl (a, r, p, q) ↦ absurd (cc (sym unseen ∙ r))
      | inr (p, q) ↦ p
    ];
  }

  cur_far : d ≡ int_max → (e : ℕ) → ¬ Walk g root cur e
  cur_far h e w = elim (reach g root valid fits c s v d least w) [
    | inl (a, r, p, q) ↦ absurd (cc (sym unseen ∙ r))
    | inr (p, q) ↦ omega arith
  ]

  pub not_visited : find s.visited cur ≡ none
  not_visited = elim (Option-cases (find s.visited cur)) [
    | inl e ↦ e
    | inr (a, e) ↦ absurd (cc (sym (ap is_some unseen) ∙ sym (v.seen cur) ∙ ap is_some e))
  ]

  -- The state once the node has moved to the visited ones; its entries among the predecessors and in
  -- the table change only where it is out of reach.
  module _ (prevs' table' : Map ℕ) (todo : List ℕ)
      (prevs_other : (x : ℕ) → cur ≢ x → find prevs' x ≡ find s.prevs x)
      (prevs_near : d < int_max → find prevs' cur ≡ find s.prevs cur)
      (prevs_far : d ≡ int_max → find prevs' cur ≡ some no_node)
      (table_other : (x : ℕ) → cur ≢ x → find table' x ≡ find s.forwarding_table x)
      (table_near : d < int_max → find table' cur ≡ find s.forwarding_table cur)
      (table_far : d ≡ int_max → find table' cur ≡ some no_node)
      (listed : (y w : ℕ) → d < int_max → cost g cur y ≡ some w → contains y todo ≡ true) where
    abbrev pub moved : Search
    moved = record s {
      visited = insert cur tt s.visited;
      record_dist = insert cur d s.record_dist;
      distance_to_root = erase cur s.distance_to_root;
      prevs = prevs';
      forwarding_table = table';
    }

    d_le : d ≤ int_max
    d_le = let (a, b, e) = v.left_node cur d found in e

    root_near : d ≡ int_max → cur ≢ root
    root_near h q = elim v.root_is [
      | inl l ↦ omega (arith, least root 0 l)
      | inr r ↦ seen-ne root 0 r q
    ]

    moved_seen : (x : ℕ) → is_some (find moved.visited x) ≡ is_some (find moved.record_dist x)
    moved_seen x = elim (eq_or_ne cur x) [
      | inl e ↦
          ap (λ z. is_some (find moved.visited z)) (sym e)
          ∙ ap is_some (find-insert_same s.visited cur tt)
          ∙ sym (ap is_some (find-insert_same s.record_dist cur d))
          ∙ ap (λ z. is_some (find moved.record_dist z)) e
      | inr ne ↦
          ap is_some (find-insert_other s.visited cur tt x ne)
          ∙ v.seen x
          ∙ sym (ap is_some (find-insert_other s.record_dist cur d x ne))
    ]

    moved_covered :
        (x : ℕ)
        → is_some (find g x) ≡ true
        → find moved.record_dist x ≡ none
        → is_some (find moved.distance_to_root x) ≡ true
    moved_covered x a b = elim (eq_or_ne cur x) [
      | inl e ↦
          absurd
            (cc (sym (find-insert_same s.record_dist cur d) ∙ ap (find moved.record_dist) e ∙ b))
      | inr ne ↦
          ap is_some (find-erase_other s.distance_to_root cur x ne)
          ∙ v.covered x a (sym (find-insert_other s.record_dist cur d x ne) ∙ b)
    ]

    moved_left :
        (x e : ℕ)
        → find moved.distance_to_root x ≡ some e
        → (is_some (find g x) ≡ true) × (find moved.record_dist x ≡ none) × (e ≤ int_max)
    moved_left x e f =
        let (ne, h) = entry-erase s.distance_to_root cur x e f in
        let (a, b, k) = v.left_node x e h in (a, find-insert_other s.record_dist cur d x ne ∙ b, k)

    moved_node :
        (x e : ℕ) → find moved.record_dist x ≡ some e → (is_some (find g x) ≡ true) × (e ≤ int_max)
    moved_node x e f = elim (entry-insert s.record_dist cur d x e f) [
      | inr (ne, h) ↦ v.seen_node x e h
      | inl (q, e_is) ↦
          let (a, b, k) = v.left_node cur d found in
          (sym (ap (λ z. is_some (find g z)) q) ∙ a, omega arith)
    ]

    moved_near : (x e : ℕ) → find moved.record_dist x ≡ some e → e < int_max → IsDistance g root x e
    moved_near x e f l = elim (entry-insert s.record_dist cur d x e f) [
      | inr (ne, h) ↦ v.near x e h l
      | inl (q, e_is) ↦
          subst (λ z. IsDistance g root z e) q
            (subst (IsDistance g root cur) e_is (cur-IsDistance (omega arith)))
    ]

    moved_far : (x e : ℕ) → find moved.record_dist x ≡ some int_max → ¬ Walk g root x e
    moved_far x e f = elim (entry-insert s.record_dist cur d x int_max f) [
      | inr (ne, h) ↦ v.far x e h
      | inl (q, e_is) ↦ subst (λ z. ¬ Walk g root z e) q (cur_far e_is e)
    ]

    moved_le :
        (x y a w e : ℕ)
        → find moved.record_dist x ≡ some a
        → a < int_max
        → cost g x y ≡ some w
        → find moved.distance_to_root y ≡ some e
        → (x ≢ cur) ⊎ (contains y todo ≡ false)
        → e ≤ a + w
    moved_le x y a w e r f k l o = elim (entry-insert s.record_dist cur d x a r) [
      | inr (ne, h) ↦
          let (ne', h') = entry-erase s.distance_to_root cur y e l in
          v.left_le x y a w e h f k h' (inr refl)
      | inl (q, a_is) ↦ elim o [
        | inl ne ↦ absurd (ne (sym q))
        | inr out ↦ absurd (cc (sym (listed y w (omega arith) (ap (λ z. cost g z y) q ∙ k)) ∙ out))
      ]
    ]

    moved_root : Labelled g root moved root 0
    moved_root = elim (eq_or_ne cur root) [
      | inr ne ↦ elim v.root_is [
        | inl l ↦ inl (find-erase_other s.distance_to_root cur root ne ∙ l)
        | inr r ↦ inr (find-insert_other s.record_dist cur d root ne ∙ r)
      ]
      | inl e ↦ elim v.root_is [
        | inl l ↦ inr (
            ap (find moved.record_dist) (sym e)
            ∙ find-insert_same s.record_dist cur d
            ∙ sym found
            ∙ ap (find s.distance_to_root) e
            ∙ l)
        | inr r ↦ absurd (seen-ne root 0 r e)
      ]
    ]

    -- The predecessor of a node that is in reach.
    keep-IsBefore :
        (x e p : ℕ)
        → find prevs' x ≡ find s.prevs x
        → IsBefore g root s x e p
        → IsBefore g root moved x e p
    keep-IsBefore x e p h b = record {
      found = h ∙ b.found;
      dist = b.dist;
      reached = find-insert_other s.record_dist cur d p (seen-ne p b.dist b.reached) ∙ b.reached;
      finite = b.finite;
      edge = b.edge;
      is_edge = b.is_edge;
      sum = b.sum;
    }

    moved-IsBefore :
        (x e : ℕ)
        → x ≢ root
        → Labelled g root moved x e
        → e < int_max
        → (p : ℕ) × IsBefore g root moved x e p
    moved-IsBefore x e n (inl l) f =
        let (ne, h) = entry-erase s.distance_to_root cur x e l in
        let (p, b) = v.before x e n (inl h) f in (p, keep-IsBefore x e p (prevs_other x ne) b)
    moved-IsBefore x e n (inr r) f = elim (entry-insert s.record_dist cur d x e r) [
      | inr (ne, h) ↦
          let (p, b) = v.before x e n (inr h) f in (p, keep-IsBefore x e p (prevs_other x ne) b)
      | inl (q, e_is) ↦
          let (p, b) =
            v.before x e n (inl (ap (find s.distance_to_root) (sym q) ∙ found ∙ ap some e_is)) f in
          (
            p,
            keep-IsBefore x e p
                (ap (find prevs') (sym q) ∙ prevs_near (omega arith) ∙ ap (find s.prevs) q) b,
          )
    ]

    moved_before_far :
        (x : ℕ) → find moved.record_dist x ≡ some int_max → find prevs' x ≡ some no_node
    moved_before_far x f = elim (entry-insert s.record_dist cur d x int_max f) [
      | inr (ne, h) ↦ prevs_other x ne ∙ v.before_far x h
      | inl (q, e_is) ↦ ap (find prevs') (sym q) ∙ prevs_far e_is
    ]

    moved_table_far :
        (x : ℕ) → find moved.record_dist x ≡ some int_max → find table' x ≡ some no_node
    moved_table_far x f = elim (entry-insert s.record_dist cur d x int_max f) [
      | inr (ne, h) ↦ table_other x ne ∙ v.table_far x h
      | inl (q, e_is) ↦ ap (find table') (sym q) ∙ table_far e_is
    ]

    -- The root's own entry does not change.
    root_entry :
        (m m' : Map ℕ)
        → ((x : ℕ) → cur ≢ x → find m' x ≡ find m x)
        → (d < int_max → find m' cur ≡ find m cur)
        → find m' root ≡ find m root
    root_entry m m' other near = elim (eq_or_ne cur root) [
      | inr ne ↦ other root ne
      | inl e ↦
          let ne_max : d ≢ int_max = λ h. root_near h e in
          ap (find m') (sym e) ∙ near (omega (arith, d_le)) ∙ ap (find m) e
    ]

    pub moved-IsSearch : IsSearch g root cur todo moved
    moved-IsSearch = record {
      ascending = Ascending-erase s.distance_to_root cur v.ascending;
      sizes = omega (
        arith,
        v.sizes,
        length-erase s.distance_to_root cur d v.ascending found,
        length-insert s.visited cur tt not_visited,
      );
      seen = moved_seen;
      covered = moved_covered;
      left_node = moved_left;
      seen_node = moved_node;
      near = moved_near;
      far = moved_far;
      left_walk =
          λ x e f l. let (ne, h) = entry-erase s.distance_to_root cur x e f in v.left_walk x e h l;
      left_le = moved_le;
      root_is = moved_root;
      before = moved-IsBefore;
      before_far = moved_before_far;
      before_root = root_entry s.prevs prevs' prevs_other prevs_near ∙ v.before_root;
      table_far = moved_table_far;
      table_root = root_entry s.forwarding_table table' table_other table_near ∙ v.table_root;
    }
