-- ===== src/Routing/LinkState/Neighbours.antt =====
-- The loop over all neighbours of the visited node in mp3/src/linkstate.cpp.
use networking_learning.Base.{
  ℕ, ◌+◌, ◌<◌, ◌≡◌, ◌∙◌, ap, sym, refl, inl, inr, true, false, List, [], ◌∷◌, Option, none, some,
  arith, done, All, Bool-cases, le→ltb, ◌==◌, eq→==,
}
use networking_learning.Routing.Map.{find, Option-cases}
use networking_learning.Routing.LinkState.{Node, Graph, is_some, contains, int_max, get_edge_cost}
use networking_learning.Routing.LinkState.Table.{Search, relax, visit_nei, visit_neis, int_add}
use networking_learning.Routing.LinkState.Paths.{cost, cost_in, IsGraph, Fits}
use networking_learning.Routing.LinkState.Invariant.{IsSearch}
use networking_learning.Routing.LinkState.Improving.{relax-record_dist, relax-visited}
use networking_learning.Routing.LinkState.Relaxing.{drop-IsSearch, relax-IsSearch}

pub is_some-cases {ℓ} : {A : Type ℓ} (o : Option A) → is_some o ≡ true → (a : A) × (o ≡ some a)
is_some-cases none h = absurd (cc h)
is_some-cases (some a) h = (a, refl)

pub cost-node : (g : Graph) (x y w : ℕ) → cost g x y ≡ some w → is_some (find g x) ≡ true
cost-node g x y w h = elim (Option-cases (find g x)) [
  | inl e ↦ absurd (cc (rw e at h))
  | inr (n, e) ↦ rw e refl
]

int_add_lem : (a b : ℕ) → a + b < int_max → int_add a b ≡ done (a + b)
unfolding int_add
int_add_lem a b h = rw (le→ltb int_max (a + b) (omega arith))

visit_nei_run :
    (n : Node) (cur dist nei old w : ℕ) (s : Search)
    → is_some (find s.visited nei) ≡ false
    → find s.distance_to_root nei ≡ some old
    → find n.edges nei ≡ some w
    → dist + w < int_max
    → visit_nei n cur dist nei s ≡ done (relax cur nei old (dist + w) s)
unfolding visit_nei get_edge_cost
visit_nei_run n cur dist nei old w s new left edge small =
    rw (new, left, edge, int_add_lem dist w small)

visit_nei_skip :
    (n : Node) (cur dist nei : ℕ) (s : Search)
    → is_some (find s.visited nei) ≡ true
    → visit_nei n cur dist nei s ≡ done s
unfolding visit_nei
visit_nei_skip n cur dist nei s seen = rw seen

module _ (g : Graph) (root : ℕ) (valid : IsGraph g) (fits : Fits g root) (cur dist : ℕ) (n : Node)
    (node : find g cur ≡ some n) (finite : dist < int_max) where
  cost-edge : (y : ℕ) → cost g cur y ≡ find n.edges y
  cost-edge y = ap (λ o. cost_in o y) node

  visit_nei-IsSearch :
      (nei : ℕ) (todo : List ℕ) (s : Search)
      → contains nei n.neibours ≡ true
      → find s.record_dist cur ≡ some dist
      → IsSearch g root cur (nei ∷ todo) s
      → (s' : Search) × (visit_nei n cur dist nei s ≡ done s')
        × IsSearch g root cur todo s'
        × (s'.record_dist ≡ s.record_dist)
        × (s'.visited ≡ s.visited)
  visit_nei-IsSearch nei todo s c reached v = elim (Bool-cases (is_some (find s.visited nei))) [
    | inl seen ↦
        let (d, r) = is_some-cases (find s.record_dist nei) (sym (v.seen nei) ∙ seen) in
        (
          s,
          visit_nei_skip n cur dist nei s seen,
          drop-IsSearch g root cur nei todo s v (λ x y d c e ex ey r' k l.
              let (a, b, m) = v.left_node y e l in
              absurd (cc (sym b ∙ ap (find s.record_dist) ey ∙ r))),
          refl,
          refl,
        )
    | inr new ↦
        let (w, edge) = is_some-cases (find n.edges nei) (sym (valid.listed cur n node nei) ∙ c) in
        let is_edge = cost-edge nei ∙ edge in
        let back = sym (valid.mutual_ends cur nei) ∙ is_edge in
        let left_none : find s.record_dist nei ≡ none =
          elim (Option-cases (find s.record_dist nei)) [
            | inl e ↦ e
            | inr (d, e) ↦ absurd (cc (sym new ∙ v.seen nei ∙ ap is_some e))
          ] in
        let (old, left) =
          is_some-cases (find s.distance_to_root nei)
            (v.covered nei (cost-node g nei cur w back) left_none) in
        let small = fits cur nei dist w (v.near cur dist reached finite) is_edge in
        (
          relax cur nei old (dist + w) s,
          visit_nei_run n cur dist nei old w s new left edge small,
          relax-IsSearch g root cur nei old (dist + w) w dist todo s v reached finite is_edge left
              refl small (valid.positive cur nei w is_edge),
          relax-record_dist cur nei old (dist + w) s,
          relax-visited cur nei old (dist + w) s,
        )
  ]

  pub visit_neis-IsSearch :
      (todo : List ℕ) (s : Search)
      → All (λ y. contains y n.neibours ≡ true) todo
      → find s.record_dist cur ≡ some dist
      → IsSearch g root cur todo s
      → (s' : Search) × (visit_neis n cur dist todo s ≡ done s')
        × IsSearch g root cur [] s'
        × (s'.visited ≡ s.visited)
  unfolding visit_neis
  visit_neis-IsSearch [] s h r v = (s, refl, v, refl)
  visit_neis-IsSearch (nei ∷ todo) s h r v =
      let (s₁, run₁, v₁, same, seen₁) = visit_nei-IsSearch nei todo s h.0 r v in
      let (s₂, run₂, v₂, seen₂) =
        visit_neis-IsSearch todo s₁ h.1 (ap (λ m. find m cur) same ∙ r) v₁ in
      (s₂, rw run₁ run₂, v₂, seen₂ ∙ seen₁)

contains_more :
    (l m : List ℕ) (a : ℕ)
    → All (λ y. contains y l ≡ true) m
    → All (λ y. contains y (a ∷ l) ≡ true) m
contains_more l [] a h = tt
contains_more l (y ∷ m) a h = (
  elim (Bool-cases (a == y)) [ inl e ↦ rw e refl | inr e ↦ rw (e, h.0) refl ],
  contains_more l m a h.1,
)

pub contains-All : (l : List ℕ) → All (λ y. contains y l ≡ true) l
contains-All [] = tt
contains-All (a ∷ l) = (rw (eq→== a a refl) refl, contains_more l l a (contains-All l))
