-- ===== src/Routing/LinkState/Keeping.antt =====
-- A node whose table is built keeps its edges, in mp3/src/linkstate.cpp.
use networking_learning.Base.{
  ℕ, ◌≡◌, ◌≢◌, ◌∙◌, ap, subst, sym, refl, ◌⊎◌, inl, inr, length, some, Proc, done, exited, blocked,
  fault, ◌>>=◌, eq_or_ne,
}
use networking_learning.Routing.Map.{
  Map, find, insert, find-insert_same, find-insert_other, Ascending-insert, entry-insert,
}
use networking_learning.Routing.LinkState.{Node, Graph, is_some, contains, int_max}
use networking_learning.Routing.LinkState.Table.{
  Tables, Search, search, init_search, fill_table, build_forwarding_table,
}
use networking_learning.Routing.LinkState.Paths.{cost_in, Distinct, IsGraph}
use networking_learning.Routing.LinkState.Same.{SameEdges}

-- What stays of a node.
pub record IsKept (n m : Node) : Type 0 where
  pub id : m.id ≡ n.id
  pub neibours : m.neibours ≡ n.neibours
  pub edges : m.edges ≡ n.edges

done_inj : {a b : Tables} → done a ≡ done b → a ≡ b
done_inj h = cc h

fill-IsKept :
    (n : Node) (s : Search) (r : Proc (Map ℕ × Map ℕ)) (t : Tables)
    → (r >>= λ q. done (record {
      node = record n { forwarding_table = q.1 };
      distance = s.record_dist;
      prevs = q.0;
    }))
      ≡ done t
    → IsKept n t.node
fill-IsKept n s (done q) t e =
    subst (λ (u : Tables). IsKept n u.node) (done_inj e)
      (record { id = refl; neibours = refl; edges = refl })
fill-IsKept n s exited t e = absurd (cc e)
fill-IsKept n s blocked t e = absurd (cc e)
fill-IsKept n s fault t e = absurd (cc e)

search-IsKept :
    (g : Graph) (n : Node) (r : Proc Search) (t : Tables)
    → (r >>= λ s. fill_table int_max g n.id s.prevs s.forwarding_table >>= λ q. done (record {
      node = record n { forwarding_table = q.1 };
      distance = s.record_dist;
      prevs = q.0;
    }))
      ≡ done t
    → IsKept n t.node
search-IsKept g n (done s) t e =
    fill-IsKept n s (fill_table int_max g n.id s.prevs s.forwarding_table) t e
search-IsKept g n exited t e = absurd (cc e)
search-IsKept g n blocked t e = absurd (cc e)
search-IsKept g n fault t e = absurd (cc e)

pub build-IsKept :
    (g : Graph) (n : Node) (t : Tables) → build_forwarding_table g n ≡ done t → IsKept n t.node
unfolding build_forwarding_table
build-IsKept g n t e = search-IsKept g n (search (length g) g (init_search g n)) t e

cost_kept : (n m : Node) (y : ℕ) → IsKept n m → cost_in (some m) y ≡ cost_in (some n) y
cost_kept n m y kept = ap (λ e. find e y) kept.edges

module _ (g : Graph) (k : ℕ) (n : Node) (valid : IsGraph g) (found : find g k ≡ some n) (m : Node)
    (kept : IsKept n m) (own_route : find m.forwarding_table k ≡ some k) where
  some_node :
      (x : ℕ)
      → (find (insert k m g) x ≡ some m) × (k ≡ x) ⊎ (k ≢ x) × (find (insert k m g) x ≡ find g x)
  some_node x = elim (eq_or_ne k x) [
    | inl e ↦ inl (subst (λ z. find (insert k m g) z ≡ some m) e (find-insert_same g k m), e)
    | inr ne ↦ inr (ne, find-insert_other g k m x ne)
  ]

  -- A node with another table is as good for the edges.
  pub insert-SameEdges : SameEdges g (insert k m g)
  insert-SameEdges = record {
    nodes = λ x. elim (some_node x) [
      | inl (f, e) ↦ ap is_some (ap (find g) (sym e) ∙ found) ∙ sym (ap is_some f)
      | inr (ne, f) ↦ sym (ap is_some f)
    ];
    costs = λ x y. elim (some_node x) [
      | inl (f, e) ↦
          ap (λ o. cost_in o y) (ap (find g) (sym e) ∙ found)
          ∙ sym (cost_kept n m y kept)
          ∙ sym (ap (λ o. cost_in o y) f)
      | inr (ne, f) ↦ sym (ap (λ o. cost_in o y) f)
    ];
  }

  node_is :
      (x : ℕ) (o : Node)
      → find (insert k m g) x ≡ some o
      → ((k ≡ x) × (m ≡ o)) ⊎ ((k ≢ x) × (find g x ≡ some o))
  node_is x o f = entry-insert g k m x o f

  pub insert-IsGraph : IsGraph (insert k m g)
  insert-IsGraph = record {
    ascending = Ascending-insert g k m valid.ascending;
    id_is = λ x o f. elim (node_is x o f) [
      | inl (e, q) ↦ ap (λ (z : Node). z.id) (sym q) ∙ kept.id ∙ valid.id_is k n found ∙ e
      | inr (ne, h) ↦ valid.id_is x o h
    ];
    listed = λ x o f y. elim (node_is x o f) [
      | inl (e, q) ↦
          subst (λ (z : Node). contains y z.neibours ≡ is_some (find z.edges y)) q
            (ap (contains y) kept.neibours
              ∙ valid.listed k n found y
              ∙ sym (ap (λ e'. is_some (find e' y)) kept.edges))
      | inr (ne, h) ↦ valid.listed x o h y
    ];
    distinct = λ x o f. elim (node_is x o f) [
      | inl (e, q) ↦
          subst (λ (z : Node). Distinct z.neibours) q
            (subst Distinct (sym kept.neibours) (valid.distinct k n found))
      | inr (ne, h) ↦ valid.distinct x o h
    ];
    mutual_ends = λ x y.
        let same = insert-SameEdges in
        sym (same.costs x y) ∙ valid.mutual_ends x y ∙ same.costs y x;
    positive = λ x y w f. let same = insert-SameEdges in valid.positive x y w (same.costs x y ∙ f);
    own = λ x o f. elim (node_is x o f) [
      | inl (e, q) ↦
          subst (λ z. find o.forwarding_table z ≡ some z) e
            (subst (λ (z : Node). find z.forwarding_table k ≡ some k) q own_route)
      | inr (ne, h) ↦ valid.own x o h
    ];
  }
