-- ===== src/Routing/DistVec/Kept.antt =====
-- The tables that mp3/src/distvec.cpp prints, and what printing them keeps.
use networking_learning.Base.{
  ℕ, ◌<◌, ◌≡◌, ◌≢◌, ◌∙◌, ap, sym, refl, ◌⊎◌, inl, inr, true, List, [], ◌∷◌, ◌++◌, some, arith, All,
  eq_or_ne, ne→==,
}
use networking_learning.Http.CString.{bytes}
use networking_learning.Http.Response.{print_int}
use networking_learning.Routing.Map.{find}
use networking_learning.Routing.LinkState.{Graph, is_some, contains, int_max}
use networking_learning.Routing.LinkState.Paths.{Walk, IsDistance}
use networking_learning.Routing.LinkState.Hops.{IsNextHop}
use networking_learning.Routing.LinkState.Output.{print_id}
use networking_learning.Routing.DistVec.{Router, Network, keys}
use networking_learning.Routing.DistVec.Networks.{All-find}
use networking_learning.Routing.DistVec.Vectors.{value_at-find}
use networking_learning.Routing.DistVec.Starting.{Key}
use networking_learning.Routing.DistVec.Initial.{find-Key}
use networking_learning.Routing.DistVec.Learning.{IsLearned}
use networking_learning.Routing.DistVec.Output.{entry_text, print_tables}
use networking_learning.Routing.DistVec.Reading.{tables_text, tables_read, cost_at-find}
use networking_learning.Routing.DistVec.Reread.{read-IsLearned}
use networking_learning.Routing.DistVec.Members.{contains_first, contains_weaken}

-- A line of the table: nothing where no walk leads, else the distance and the first hop of a shortest
-- way, or the node itself.
pub data IsLine (g : Graph) (u x : ℕ) (text : List ℕ) : Type 0 where
  unreachable : text ≡ [] → ((e : ℕ) → ¬ Walk g u x e) → IsLine g u x text
  reachable :
      (h d : ℕ)
      → text ≡ print_id x ++ bytes " " ++ print_id h ++ bytes " " ++ print_int d ++ bytes "\n"
      → IsDistance g u x d
      → (x ≡ u) × (h ≡ u) ⊎ IsNextHop g u h x d
      → IsLine g u x text

entry_text-none : (r : Router) (x : ℕ) → find r.distance_to x ≡ some int_max → entry_text r x ≡ []
unfolding entry_text
entry_text-none r x f = rw (cost_at-find r.distance_to x int_max f) refl

entry_text-some :
    (r : Router) (x h d : ℕ)
    → find r.distance_to x ≡ some d
    → d ≢ int_max
    → find r.node.forwarding_table x ≡ some h
    → entry_text r x
      ≡ print_id x ++ bytes " " ++ print_id h ++ bytes " " ++ print_int d ++ bytes "\n"
unfolding entry_text
entry_text-some r x h d f ne fh =
    rw
      (
        cost_at-find r.distance_to x d f,
        value_at-find r.node.forwarding_table x,
        fh,
        ne→== d int_max ne,
      )
      refl

entry-IsLine :
    (g : Graph) (h : Network) (u x : ℕ) (r : Router)
    → IsLearned g h
    → find h u ≡ some r
    → is_some (find g x) ≡ true
    → IsLine g u x (entry_text r x)
entry-IsLine g h u x r learned f i =
    let informed = learned.informed u r f in
    let base = learned.base in
    let still = base.still u r f in
    let (d, fd, ld) = informed.complete x i in
    elim (eq_or_ne d int_max) [
      | inl q ↦
          let at = fd ∙ ap some q in
          unreachable (entry_text-none r x at) (λ e. informed.unreached x e at)
      | inr ne ↦
          let less : d < int_max = omega (arith, ne, ld) in
          let near = informed.reached x d fd less in
          elim (eq_or_ne x u) [
            | inl q ↦
                reachable u d
                  (entry_text-some r x u d fd ne (ap (find r.node.forwarding_table) q ∙ still.home))
                  near (inl (q, refl))
            | inr other ↦
                let (v, fv, hop) = informed.next_hop x d other fd less in
                reachable v d (entry_text-some r x v d fd ne fv) near (inr hop)
          ]
    ]

All-keys : (P : ℕ → Type 0) (m : Network) → ((x : ℕ) → Key m x → P x) → All P (keys m)
All-keys P m f = all_of (keys m) (λ x c. f x (find-Key m x c))
  where
    all_of : (l : List ℕ) → ((x : ℕ) → contains x l ≡ true → P x) → All P l
    all_of [] f = tt
    all_of (x ∷ l) f = (f x (contains_first x l), all_of l (λ y c. f y (contains_weaken y x l c)))

-- The tables of the network that the rounds leave: the lines of every node for every node, in order,
-- each as `IsLine` says, and the network that reading its entries leaves is as the rounds left it.
pub print_tables_lem :
    (g : Graph) (h : Network)
    → IsLearned g h
    → ((print_tables (keys h) h).1 ≡ tables_text (keys h) h)
      × ((u x : ℕ) (r : Router)
          → find h u ≡ some r
          → is_some (find g x) ≡ true
          → IsLine g u x (entry_text r x))
      × IsLearned g (print_tables (keys h) h).0
print_tables_lem g h learned =
    let base = learned.base in
    let inside =
      All-find (λ u r. All (λ x. is_some (find r.distance_to x) ≡ true) (keys h)) h base.ascending
        (λ u r f.
          let informed = learned.informed u r f in
          All-keys (λ x. is_some (find r.distance_to x) ≡ true) h
            (λ x k.
              let (d, fd, l) = informed.complete x (sym (learned.nodes x) ∙ k) in ap is_some fd)) in
    let (read, text) = tables_read (keys h) h inside in
    (
      text,
      λ u x r f i. entry-IsLine g h u x r learned f i,
      read-IsLearned g h (print_tables (keys h) h).0 learned read,
    )
