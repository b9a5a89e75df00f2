-- ===== src/Routing/LinkState/Paths.antt =====
-- What the tables of mp3/src/linkstate.cpp are about: the edges of the graph, the walks along them,
-- and distances. The search and its data structures do not occur here.
use networking_learning.Base.{ℕ, ◌+◌, ◌≤◌, ◌<◌, ◌≡◌, false, Option, none, some, List, [], ◌∷◌}
use networking_learning.Routing.Map.{find, Ascending}
use networking_learning.Routing.LinkState.{Node, Graph, is_some, contains, int_max}

-- The cost of the edge from `x` to `y`.
abbrev pub cost_in : Option Node → ℕ → Option ℕ
cost_in none y = none
cost_in (some n) y = find n.edges y

abbrev pub cost : Graph → ℕ → ℕ → Option ℕ
cost g x y = cost_in (find g x) y

-- A walk from `root` to `x` along edges that cost `d` together.
pub data Walk (g : Graph) (root : ℕ) : ℕ → ℕ → Type 0 where
  here : (x d : ℕ) → x ≡ root → d ≡ 0 → Walk g root x d
  step :
      {x d : ℕ} → Walk g root x d → (y w e : ℕ) → cost g x y ≡ some w → e ≡ d + w → Walk g root y e

pub record IsDistance (g : Graph) (root x d : ℕ) : Type 0 where
  pub walk : Walk g root x d
  pub least : (e : ℕ) → Walk g root x e → d ≤ e

-- No number twice.
abbrev pub Distinct : List ℕ → Type 0
Distinct [] = Unit
Distinct (a ∷ l) = (contains a l ≡ false) × Distinct l

-- What `build_graph` keeps: every node lists the ends of its edges, both ends of an edge are nodes
-- and see the same cost, every cost is positive, and a node forwards to itself what is for itself.
pub record IsGraph (g : Graph) : Type 0 where
  pub ascending : Ascending g
  pub id_is : (x : ℕ) (n : Node) → find g x ≡ some n → n.id ≡ x
  pub listed :
      (x : ℕ) (n : Node)
      → find g x ≡ some n
      → (y : ℕ) → contains y n.neibours ≡ is_some (find n.edges y)
  pub distinct : (x : ℕ) (n : Node) → find g x ≡ some n → Distinct n.neibours
  pub mutual_ends : (x y : ℕ) → cost g x y ≡ cost g y x
  pub positive : (x y w : ℕ) → cost g x y ≡ some w → 0 < w
  pub own : (x : ℕ) (n : Node) → find g x ≡ some n → find n.forwarding_table x ≡ some x

-- No sum that the search forms reaches INT_MAX.
abbrev pub Fits : Graph → ℕ → Type 0
Fits g root = (x y d w : ℕ) → IsDistance g root x d → cost g x y ≡ some w → d + w < int_max
