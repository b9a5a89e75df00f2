-- ===== src/Routing/DistVec/Comparing.antt =====
-- One comparison in `update_distance_and_forwarding_table` of mp3/src/distvec.cpp.
use networking_learning.Base.{
  ℕ, ◌+◌, ◌≤◌, ◌<◌, ◌≡◌, ◌≢◌, ◌∙◌, ap, subst, sym, refl, inl, inr, true, some, arith, eq_or_ne,
  eq→==, ne→==, lt_or_le, lt→ltb, le→ltb,
}
use networking_learning.Routing.Map.{
  find, insert, find-insert_same, find-insert_other, some_inj, Option-cases, Ascending,
  Ascending-insert,
}
use networking_learning.Routing.LinkState.{Graph, is_some, int_max}
use networking_learning.Routing.LinkState.Table.{value_at, touch}
use networking_learning.Routing.LinkState.Paths.{cost, Walk}
use networking_learning.Routing.DistVec.{Vector, cost_at, touch_cost, compare_way}
use networking_learning.Routing.DistVec.Vectors.{
  far, far_of, hop_of, value_at-find, rank, IsVector, Grows, Grows-refl,
}

-- An assignment that leaves the vector as good as it was, with a distance that is not longer.
module _ (g : Graph) (limit : ℕ → ℕ) (u nei dest w e : ℕ) (edge : cost g u nei ≡ some w)
    (walk : Walk g nei dest e) (pos_w : 0 < w) (finite : w + e < int_max)
    (in_limit : w + e ≤ limit dest) (is_node : is_some (find g dest) ≡ true)
    (small_nei : nei < 4294967296) where
  -- The vector `v` with the way by `nei` to `dest`.
  record IsStored (v v' : Vector) : Type 0 where
    up : Ascending v'.distance_to
    at_dist : find v'.distance_to dest ≡ some (w + e)
    other_dist : (x : ℕ) → dest ≢ x → find v'.distance_to x ≡ find v.distance_to x
    at_hop : find v'.forwarding_table dest ≡ some nei
    other_hop : (x : ℕ) → dest ≢ x → find v'.forwarding_table x ≡ find v.forwarding_table x
    is_changed : v'.is_changed ≡ true

  module _ (v : Vector) (valid : IsVector g u v) (old : ℕ)
      (found : find v.distance_to dest ≡ some old) where
    dest_ne : w + e ≤ old → dest ≢ u
    dest_ne l q =
        let zero_old : old ≡ 0 = some_inj (sym found ∙ ap (find v.distance_to) q ∙ valid.own) in
        absurd (omega (arith, l, zero_old, pos_w))

    set-IsVector : (v' : Vector) → w + e ≤ old → IsStored v v' → IsVector g u v'
    set-IsVector v' l s = record {
      ascending = s.up;
      known = λ x. elim (eq_or_ne dest x) [
        | inl q ↦
            subst (λ z. is_some (find v'.distance_to z) ≡ is_some (find g z)) q
              (ap is_some s.at_dist ∙ sym is_node)
        | inr ne ↦ ap is_some (s.other_dist x ne) ∙ valid.known x
      ];
      own = s.other_dist u (dest_ne l) ∙ valid.own;
      bounded = λ x d f. elim (eq_or_ne dest x) [
        | inl q ↦
            let same : w + e ≡ d = some_inj (sym s.at_dist ∙ ap (find v'.distance_to) q ∙ f) in
            omega (arith, same, finite)
        | inr ne ↦ valid.bounded x d (sym (s.other_dist x ne) ∙ f)
      ];
      hop = λ x d ne f less. elim (eq_or_ne dest x) [
        | inl q ↦
            let same : w + e ≡ d = some_inj (sym s.at_dist ∙ ap (find v'.distance_to) q ∙ f) in
            (
              nei,
              sym (ap (find v'.forwarding_table) q) ∙ s.at_hop,
              record {
                edge = w;
                is_edge = edge;
                rest = e;
                walk = subst (λ z. Walk g nei z e) q walk;
                sum = same;
              },
            )
        | inr other ↦
            let (h, t, n) = valid.hop x d ne (sym (s.other_dist x other) ∙ f) less in
            (h, s.other_hop x other ∙ t, n)
      ];
      home = s.other_hop u (dest_ne l) ∙ valid.home;
      small = λ x h f. elim (eq_or_ne dest x) [
        | inl q ↦
            let same : nei ≡ h = some_inj (sym s.at_hop ∙ ap (find v'.forwarding_table) q ∙ f) in
            omega (arith, same, small_nei)
        | inr other ↦ valid.small x h (sym (s.other_hop x other) ∙ f)
      ];
    }

    far_set : (v' : Vector) → IsStored v v' → far v'.distance_to dest ≡ w + e
    far_set v' s = ap far_of s.at_dist

    far_old : far v.distance_to dest ≡ old
    far_old = ap far_of found

    set-Grows :
        (v' : Vector)
        → w + e ≤ old
        → rank v' dest < rank v dest
        → IsStored v v'
        → Grows g limit v v'
    set-Grows v' l r s = record {
      lower = λ x. elim (eq_or_ne dest x) [
        | inl q ↦
            subst (λ z. far v'.distance_to z ≤ far v.distance_to z) q
              (omega (arith, far_set v' s, far_old, l))
        | inr ne ↦ omega (arith, ap far_of (s.other_dist x ne))
      ];
      rank_le = λ x. elim (eq_or_ne dest x) [
        | inl q ↦ subst (λ z. rank v' z ≤ rank v z) q (omega (arith, r))
        | inr ne ↦ omega (arith, ap far_of (s.other_dist x ne), ap hop_of (s.other_hop x ne))
      ];
      changed = λ c. inr (dest, is_node, r);
      unchanged = λ c. absurd (cc (c, s.is_changed));
      reach = λ x f. elim (eq_or_ne dest x) [
        | inl q ↦
            inr (
              subst (λ z. far v'.distance_to z ≤ limit z) q (omega (arith, far_set v' s, in_limit)))
        | inr ne ↦ inl (subst (λ z. z < int_max) (ap far_of (s.other_dist x ne)) f)
      ];
    }

    touched : touch_cost v.distance_to dest ≡ v.distance_to
    unfolding touch_cost
    touched = rw found refl

    cost_is : cost_at v.distance_to dest ≡ old
    unfolding cost_at
    cost_is = rw (found, cost_at) refl

    shorter_run :
        w + e < old
        → compare_way nei dest (w + e) v ≡ record {
          distance_to = insert dest (w + e) v.distance_to;
          forwarding_table = insert dest nei v.forwarding_table;
          is_changed = true;
        }
    unfolding compare_way
    shorter_run l = rw (cost_is, touched, lt→ltb (w + e) old l) refl

    longer_run : old < w + e → compare_way nei dest (w + e) v ≡ v
    unfolding compare_way
    longer_run l =
        rw
          (
            cost_is,
            touched,
            le→ltb (w + e) old (omega (arith, l)),
            ne→== old (w + e) (λ q. absurd (omega (arith, l, q))),
          )
          refl

    module _ (h : ℕ) (table : find v.forwarding_table dest ≡ some h) where
      value_is : value_at v.forwarding_table dest ≡ h
      value_is = value_at-find v.forwarding_table dest ∙ ap hop_of table

      touched_hop : touch v.forwarding_table dest ≡ v.forwarding_table
      unfolding touch
      touched_hop = rw table refl

      nearer_run :
          old ≡ w + e
          → nei < h
          → compare_way nei dest (w + e) v ≡ record {
            distance_to = v.distance_to;
            forwarding_table = insert dest nei v.forwarding_table;
            is_changed = true;
          }
      unfolding compare_way
      nearer_run q l =
          rw
            (
              cost_is,
              touched,
              le→ltb (w + e) old (omega (arith, q)),
              eq→== old (w + e) q,
              value_is,
              lt→ltb nei h l,
            )
            refl

      same_run : old ≡ w + e → h ≤ nei → compare_way nei dest (w + e) v ≡ v
      unfolding compare_way
      same_run q l =
          rw
            (
              cost_is,
              touched,
              le→ltb (w + e) old (omega (arith, q)),
              eq→== old (w + e) q,
              value_is,
              le→ltb nei h l,
              touched_hop,
            )
            refl

    -- What a comparison leaves.
    record IsCompared (v' : Vector) : Type 0 where
      valid_after : IsVector g u v'
      grows : Grows g limit v v'
      short : far v'.distance_to dest ≤ w + e

    set-IsCompared :
        (v' : Vector) → w + e ≤ old → rank v' dest < rank v dest → IsStored v v' → IsCompared v'
    set-IsCompared v' l r s = record {
      valid_after = set-IsVector v' l s;
      grows = set-Grows v' l r s;
      short = omega (arith, far_set v' s);
    }

    left-IsCompared : (v' : Vector) → old ≤ w + e → v' ≡ v → IsCompared v'
    left-IsCompared v' l q = subst IsCompared (sym q) (record {
      valid_after = valid;
      grows = Grows-refl g limit v;
      short = omega (arith, far_old, l);
    })

    shorter-IsCompared : w + e < old → IsCompared (compare_way nei dest (w + e) v)
    shorter-IsCompared l = subst IsCompared (sym (shorter_run l)) (
        let v' : Vector = record {
          distance_to = insert dest (w + e) v.distance_to;
          forwarding_table = insert dest nei v.forwarding_table;
          is_changed = true;
        } in
        let s : IsStored v v' = record {
          up = Ascending-insert v.distance_to dest (w + e) valid.ascending;
          at_dist = find-insert_same v.distance_to dest (w + e);
          other_dist = find-insert_other v.distance_to dest (w + e);
          at_hop = find-insert_same v.forwarding_table dest nei;
          other_hop = find-insert_other v.forwarding_table dest nei;
          is_changed = refl;
        } in
        set-IsCompared v' (omega (arith, l))
          (omega (arith, far_set v' s, far_old, l, small_nei, ap hop_of s.at_hop)) s)

    nearer-IsCompared :
        (h : ℕ)
        → find v.forwarding_table dest ≡ some h
        → old ≡ w + e
        → nei < h
        → IsCompared (compare_way nei dest (w + e) v)
    nearer-IsCompared h table q l = subst IsCompared (sym (nearer_run h table q l)) (
        let v' : Vector = record {
          distance_to = v.distance_to;
          forwarding_table = insert dest nei v.forwarding_table;
          is_changed = true;
        } in
        let s : IsStored v v' = record {
          up = valid.ascending;
          at_dist = found ∙ ap some q;
          other_dist = λ x ne. refl;
          at_hop = find-insert_same v.forwarding_table dest nei;
          other_hop = find-insert_other v.forwarding_table dest nei;
          is_changed = refl;
        } in
        set-IsCompared v' (omega (arith, q))
          (omega (arith, far_set v' s, far_old, q, l, ap hop_of s.at_hop, ap hop_of table)) s)

    compare_way-IsCompared : IsCompared (compare_way nei dest (w + e) v)
    compare_way-IsCompared = elim (lt_or_le (w + e) old) [
      | inl l ↦ shorter-IsCompared l
      | inr ge ↦ elim (eq_or_ne old (w + e)) [
        | inr ne ↦
            left-IsCompared (compare_way nei dest (w + e) v) ge (longer_run (omega (arith, ge, ne)))
        | inl q ↦
            let (h, table, n) =
              valid.hop dest old (dest_ne (omega (arith, q))) found (omega (arith, q, finite)) in
            elim (lt_or_le nei h) [
              | inl l ↦ nearer-IsCompared h table q l
              | inr le ↦ left-IsCompared (compare_way nei dest (w + e) v) ge (same_run h table q le)
            ]
      ]
    ]

  -- After a comparison the vector is as good as before, no rank has risen, and the distance of `dest` is
  -- at most that of the way by `nei`.
  pub compare_way_lem :
      (v : Vector)
      → IsVector g u v
      → IsVector g u (compare_way nei dest (w + e) v)
        × Grows g limit v (compare_way nei dest (w + e) v)
        × (far (compare_way nei dest (w + e) v).distance_to dest ≤ w + e)
  compare_way_lem v valid = elim (Option-cases (find v.distance_to dest)) [
    | inl f ↦ absurd (cc (ap is_some f, valid.known dest, is_node))
    | inr (old, f) ↦
        let c = compare_way-IsCompared v valid old f in (c.valid_after, c.grows, c.short)
  ]
