-- ===== src/Routing/LinkState/Edges.antt =====
-- The lines of the input of mp3/src/linkstate.cpp: each sets or removes one edge, seen from both ends.
use networking_learning.Base.{
  ℕ, zero, suc, ◌≡◌, ◌∙◌, ap, refl, inl, inr, true, false, ◌==◌, if◌then◌else◌, List, [], ◌∷◌, ◌++◌,
  Option, none, some, arith, Bool-cases,
}
use networking_learning.Http.CString.{ℤ, pos, negsuc}
use networking_learning.Routing.Map.{find, find-insert, find-erase, Option-cases}
use networking_learning.Routing.LinkState.{
  Node, is_some, contains, erase_first, remove_nei, add_or_update_nei, change_nei,
}
use networking_learning.Routing.LinkState.Paths.{Distinct}

contains-erase_first :
    (l : List ℕ) (b y : ℕ)
    → Distinct l
    → contains y (erase_first b l) ≡ (if b == y then false else contains y l)
contains-erase_first [] b y h = ground arith
contains-erase_first (a ∷ l) b y h = ground (arith, contains-erase_first l b y h.1, h.0)

contains-append :
    (l : List ℕ) (b y : ℕ) → contains y (l ++ b ∷ []) ≡ (if b == y then true else contains y l)
contains-append [] b y = refl
contains-append (a ∷ l) b y = ground (arith, contains-append l b y)

Distinct-erase_first : (l : List ℕ) (b : ℕ) → Distinct l → Distinct (erase_first b l)
Distinct-erase_first [] b h = tt
Distinct-erase_first (a ∷ l) b h = elim (Bool-cases (a == b)) [
  | inl e ↦ rw e h.1
  | inr e ↦
      rw e
        ((rw (contains-erase_first l b a h.1) (ground (arith, h.0))), Distinct-erase_first l b h.1)
]

Distinct-append : (l : List ℕ) (b : ℕ) → contains b l ≡ false → Distinct l → Distinct (l ++ b ∷ [])
Distinct-append [] b e h = (refl, tt)
Distinct-append (a ∷ l) b e h =
    (rw (contains-append l b a) (ground (arith, h.0)), Distinct-append l b (ground arith) h.1)

-- The cost that a line asks for; none removes the edge.
abbrev pub wanted : ℤ → Option ℕ
wanted (pos zero) = none
wanted (pos (suc k)) = some (suc k)
wanted (negsuc k) = none

-- What holds of a node of the graph.
pub record IsNode (x : ℕ) (n : Node) : Type 0 where
  pub id_is : n.id ≡ x
  pub listed : (y : ℕ) → contains y n.neibours ≡ is_some (find n.edges y)
  pub distinct : Distinct n.neibours
  pub own : find n.forwarding_table x ≡ some x

find-remove_nei :
    (n : Node) (b y : ℕ) → find (remove_nei n b).edges y ≡ (if b == y then none else find n.edges y)
unfolding remove_nei
find-remove_nei n b y = elim (Option-cases (find n.edges b)) [
  | inl e ↦ rw e (ground arith)
  | inr (v, e) ↦ rw e (find-erase n.edges b y)
]

remove_nei-IsNode : (x : ℕ) (n : Node) (b : ℕ) → IsNode x n → IsNode x (remove_nei n b)
unfolding remove_nei
remove_nei-IsNode x n b v = elim (Option-cases (find n.edges b)) [
  | inl e ↦ rw e v
  | inr (w, e) ↦ rw e (record {
    id_is = v.id_is;
    listed = λ y.
        ground (
          arith,
          find-erase n.edges b y,
          contains-erase_first n.neibours b y v.distinct,
          v.listed y,
        );
    distinct = Distinct-erase_first n.neibours b v.distinct;
    own = v.own;
  })
]

pub add-IsNode : (x : ℕ) (n : Node) (b w : ℕ) → IsNode x n → IsNode x (add_or_update_nei n b w)
unfolding add_or_update_nei
add-IsNode x n b w v = elim (Option-cases (find n.edges b)) [
  | inl e ↦ rw e (record {
    id_is = v.id_is;
    listed =
        λ y. ground (arith, find-insert n.edges b w y, contains-append n.neibours b y, v.listed y);
    distinct = Distinct-append n.neibours b (v.listed b ∙ ap is_some e) v.distinct;
    own = v.own;
  })
  | inr (u, e) ↦ rw e (record {
    id_is = v.id_is;
    listed = λ y. ground (arith, find-insert n.edges b w y, v.listed y, v.listed b, e);
    distinct = v.distinct;
    own = v.own;
  })
]

pub change_nei-IsNode :
    (x : ℕ) (n : Node) (b : ℕ) (d : ℤ) → IsNode x n → IsNode x (change_nei n b d)
unfolding change_nei
change_nei-IsNode x n b (pos zero) v = remove_nei-IsNode x n b v
change_nei-IsNode x n b (pos (suc k)) v = add-IsNode x n b (suc k) v
change_nei-IsNode x n b (negsuc k) v = remove_nei-IsNode x n b v

pub find-change_nei :
    (n : Node) (b y : ℕ) (d : ℤ)
    → find (change_nei n b d).edges y ≡ (if b == y then wanted d else find n.edges y)
unfolding change_nei add_or_update_nei
find-change_nei n b y (pos zero) = find-remove_nei n b y
find-change_nei n b y (pos (suc k)) = find-insert n.edges b (suc k) y
find-change_nei n b y (negsuc k) = find-remove_nei n b y
