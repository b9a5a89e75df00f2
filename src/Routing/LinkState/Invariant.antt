-- ===== src/Routing/LinkState/Invariant.antt =====
-- What holds between two rounds of the search of mp3/src/linkstate.cpp, and within a round.
use networking_learning.Base.{
  ℕ, ◌+◌, ◌≤◌, ◌<◌, ◌≡◌, ◌≢◌, ◌⊎◌, true, false, List, length, none, some,
}
use networking_learning.Routing.Map.{find, Ascending}
use networking_learning.Routing.Line.{no_node}
use networking_learning.Routing.LinkState.{Graph, is_some, contains, int_max}
use networking_learning.Routing.LinkState.Table.{Search}
use networking_learning.Routing.LinkState.Paths.{cost, Walk, IsDistance}

module _ (g : Graph) (root : ℕ) where
  -- `p` stands before `x` on a shortest way: it is visited, and its distance and the cost of the edge
  -- to `x` make `d`.
  pub record IsBefore (s : Search) (x d p : ℕ) : Type 0 where
    pub found : find s.prevs x ≡ some p
    pub dist : ℕ
    pub reached : find s.record_dist p ≡ some dist
    pub finite : dist < int_max
    pub edge : ℕ
    pub is_edge : cost g p x ≡ some edge
    pub sum : dist + edge ≡ d

  -- The tentative or the final distance of `x`.
  abbrev pub Labelled : Search → ℕ → ℕ → Type 0
  Labelled s x d = (find s.distance_to_root x ≡ some d) ⊎ (find s.record_dist x ≡ some d)

  -- Within the round of the node `cur`, with the neighbours `todo` still to come. Between two rounds
  -- `todo` is empty.
  pub record IsSearch (cur : ℕ) (todo : List ℕ) (s : Search) : Type 0 where
    pub ascending : Ascending s.distance_to_root
    pub sizes : length s.visited + length s.distance_to_root ≡ length g
    pub seen : (x : ℕ) → is_some (find s.visited x) ≡ is_some (find s.record_dist x)
    pub covered :
        (x : ℕ)
        → is_some (find g x) ≡ true
        → find s.record_dist x ≡ none
        → is_some (find s.distance_to_root x) ≡ true
    pub left_node :
        (x d : ℕ)
        → find s.distance_to_root x ≡ some d
        → (is_some (find g x) ≡ true) × (find s.record_dist x ≡ none) × (d ≤ int_max)
    pub seen_node :
        (x d : ℕ) → find s.record_dist x ≡ some d → (is_some (find g x) ≡ true) × (d ≤ int_max)
    pub near : (x d : ℕ) → find s.record_dist x ≡ some d → d < int_max → IsDistance g root x d
    pub far : (x e : ℕ) → find s.record_dist x ≡ some int_max → ¬ Walk g root x e
    pub left_walk : (x d : ℕ) → find s.distance_to_root x ≡ some d → d < int_max → Walk g root x d
    pub left_le :
        (x y d w e : ℕ)
        → find s.record_dist x ≡ some d
        → d < int_max
        → cost g x y ≡ some w
        → find s.distance_to_root y ≡ some e
        → (x ≢ cur) ⊎ (contains y todo ≡ false)
        → e ≤ d + w
    pub root_is : Labelled s root 0
    pub before : (x d : ℕ) → x ≢ root → Labelled s x d → d < int_max → (p : ℕ) × IsBefore s x d p
    pub before_far : (x : ℕ) → find s.record_dist x ≡ some int_max → find s.prevs x ≡ some no_node
    pub before_root : find s.prevs root ≡ some no_node
    pub table_far :
        (x : ℕ) → find s.record_dist x ≡ some int_max → find s.forwarding_table x ≡ some no_node
    pub table_root : find s.forwarding_table root ≡ some root
