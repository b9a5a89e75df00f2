-- ===== src/Routing/DistVec/Starting.antt =====
-- What holds of the network of mp3/src/distvec.cpp after a line of its input.
use networking_learning.Base.{
  ℕ, zero, suc, ◌<◌, ◌≡◌, ◌∙◌, ap, subst, sym, refl, inl, inr, true, [], Option, none, some, arith,
  Bool-cases, eq_or_ne,
}
use networking_learning.Http.CString.{ℤ, pos, negsuc}
use networking_learning.Routing.Map.{
  Map, find, insert, find_nil, find-insert_same, find-insert_other, entry-insert, Option-cases,
  Ascending, Ascending-insert,
}
use networking_learning.Routing.LinkState.{Node, is_some, remove_nei, add_or_update_nei, new_node}
use networking_learning.Routing.DistVec.{
  Router, Network, new_router, drop_nei, set_nei, change_router, first_router, stored_router,
  change_side,
}

-- What a node keeps whatever lines are read; `is_key` are the nodes that there are.
pub record IsStill (is_key : ℕ → Type 0) (u : ℕ) (r : Router) : Type 0 where
  pub ascending : Ascending r.distance_to
  pub own : find r.distance_to u ≡ some 0
  pub keys_only : (x : ℕ) → is_some (find r.distance_to x) ≡ true → is_key x
  pub home : find r.node.forwarding_table u ≡ some u
  pub small : (x h : ℕ) → find r.node.forwarding_table x ≡ some h → h < 4294967296
  pub idle : r.updates ≡ []

abbrev pub Key : Network → ℕ → Type 0
Key net x = is_some (find net x) ≡ true

pub record IsBase (net : Network) : Type 0 where
  pub ascending : Ascending net
  pub still : (u : ℕ) (r : Router) → find net u ≡ some r → IsStill (Key net) u r

pub empty-IsBase : IsBase []
empty-IsBase = record { ascending = tt; still = λ u r f. absurd (cc (f, find_nil {V = Router} u)) }

pub Key-insert : (net : Network) (a : ℕ) (r : Router) (x : ℕ) → Key net x → Key (insert a r net) x
Key-insert net a r x k = elim (eq_or_ne a x) [
  | inl q ↦
      subst (λ z. is_some (find (insert a r net) z) ≡ true) q
        (ap is_some (find-insert_same net a r))
  | inr ne ↦ ap is_some (find-insert_other net a r x ne) ∙ k
]

remove_nei-table : (n : Node) (b : ℕ) → (remove_nei n b).forwarding_table ≡ n.forwarding_table
unfolding remove_nei
remove_nei-table n b = elim (Bool-cases (is_some (find n.edges b))) [
  | inl e ↦ rw e refl
  | inr e ↦ rw e refl
]

add-table : (n : Node) (b w : ℕ) → (add_or_update_nei n b w).forwarding_table ≡ n.forwarding_table
unfolding add_or_update_nei
add-table n b w = refl

-- A node with other edges.
edges-IsStill :
    (is_key : ℕ → Type 0) (u : ℕ) (r s : Router)
    → s.distance_to ≡ r.distance_to
    → s.updates ≡ r.updates
    → s.node.forwarding_table ≡ r.node.forwarding_table
    → IsStill is_key u r
    → IsStill is_key u s
edges-IsStill is_key u r s d up t v = record {
  ascending = subst Ascending (sym d) v.ascending;
  own = ap (λ m. find m u) d ∙ v.own;
  keys_only = λ x i. v.keys_only x (sym (ap (λ m. is_some (find m x)) d) ∙ i);
  home = ap (λ m. find m u) t ∙ v.home;
  small = λ x h f. v.small x h (sym (ap (λ m. find m x) t) ∙ f);
  idle = up ∙ v.idle;
}

change_router-IsStill :
    (is_key : ℕ → Type 0) (u : ℕ) (r : Router) (b : ℕ) (d : ℤ)
    → IsStill is_key u r
    → IsStill is_key u (change_router r b d)
unfolding change_router set_nei drop_nei
change_router-IsStill is_key u r b (pos zero) v =
    edges-IsStill is_key u r (drop_nei r b) refl refl (remove_nei-table r.node b) v
change_router-IsStill is_key u r b (pos (suc k)) v =
    edges-IsStill is_key u r (set_nei r b (suc k)) refl refl (add-table r.node b (suc k)) v
change_router-IsStill is_key u r b (negsuc k) v =
    edges-IsStill is_key u r (drop_nei r b) refl refl (remove_nei-table r.node b) v

one_key :
    {V : Type 0} (a : ℕ) (v : V) (x : ℕ) (w : V)
    → find (insert a v []) x ≡ some w
    → (a ≡ x) × (v ≡ w)
one_key a v x w f = elim (entry-insert [] a v x w f) [
  | inl e ↦ e
  | inr (ne, h) ↦ absurd (cc (h, find_nil {V = _} x))
]

new_router-IsStill :
    (is_key : ℕ → Type 0) (a : ℕ) → is_key a → a < 4294967296 → IsStill is_key a (new_router a)
unfolding new_router new_node
new_router-IsStill is_key a k l = record {
  ascending = Ascending-insert {V = ℕ} [] a 0 tt;
  own = find-insert_same {V = ℕ} [] a 0;
  keys_only = λ x i.
      let m : Map ℕ = insert a 0 [] in
      elim (Option-cases (find m x)) [
        | inl f ↦ absurd (cc (sym i ∙ ap is_some f))
        | inr (w, f) ↦ subst is_key (one_key a 0 x w f).0 k
      ];
  home = find-insert_same {V = ℕ} [] a a;
  small = λ x h f. let (p, q) = one_key a a x h f in omega (arith, l, q);
  idle = refl;
}

first_router-IsStill :
    (is_key : ℕ → Type 0) (a b : ℕ) (d : ℤ)
    → is_key a
    → a < 4294967296
    → IsStill is_key a (first_router a b d)
unfolding set_nei
first_router-IsStill is_key a b (pos zero) k l = new_router-IsStill is_key a k l
first_router-IsStill is_key a b (pos (suc j)) k l =
    edges-IsStill is_key a (new_router a) (set_nei (new_router a) b (suc j)) refl refl
      (add-table (new_router a).node b (suc j)) (new_router-IsStill is_key a k l)
first_router-IsStill is_key a b (negsuc j) k l = new_router-IsStill is_key a k l

pub weaken-IsStill :
    (p q : ℕ → Type 0) (u : ℕ) (r : Router) → ((x : ℕ) → p x → q x) → IsStill p u r → IsStill q u r
weaken-IsStill p q u r h v = record {
  ascending = v.ascending;
  own = v.own;
  keys_only = λ x i. h x (v.keys_only x i);
  home = v.home;
  small = v.small;
  idle = v.idle;
}

stored-IsStill :
    (net : Network) (a b : ℕ) (d : ℤ) (new : Router)
    → IsBase net
    → a < 4294967296
    → (o : Option Router) → find net a ≡ o
    → IsStill (Key (insert a new net)) a (stored_router o a b d)
stored-IsStill net a b d new v l (some r) f =
    change_router-IsStill (Key (insert a new net)) a r b d (
      weaken-IsStill (Key net) (Key (insert a new net)) a r (λ x. Key-insert net a new x)
        (v.still a r f))
stored-IsStill net a b d new v l none f =
    first_router-IsStill (Key (insert a new net)) a b d (ap is_some (find-insert_same net a new)) l

pub change_side-IsBase :
    (net : Network) (a b : ℕ) (d : ℤ) → a < 4294967296 → IsBase net → IsBase (change_side net a b d)
unfolding change_side
change_side-IsBase net a b d l v =
    let new = stored_router (find net a) a b d in
    record {
      ascending = Ascending-insert net a new v.ascending;
      still = λ u r f. elim (entry-insert net a new u r f) [
        | inl (e, q) ↦
            subst (λ z. IsStill (Key (insert a new net)) z r) e
              (subst (IsStill (Key (insert a new net)) a) q
                (stored-IsStill net a b d new v l (find net a) refl))
        | inr (ne, h) ↦
            weaken-IsStill (Key net) (Key (insert a new net)) u r (λ x. Key-insert net a new x)
              (v.still u r h)
      ];
    }
