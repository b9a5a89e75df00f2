-- ===== src/Routing/DistVec/Fresh.antt =====
-- `build_graph` of mp3/src/distvec.cpp: after a line every node starts again.
use networking_learning.Base.{
  ℕ, ◌≡◌, ◌≢◌, ◌∙◌, subst, sym, refl, inl, inr, true, false, List, [], ◌∷◌, some, Bool-cases,
  eq_or_ne, eq→==, ne→==,
}
use networking_learning.Routing.Map.{
  find, find-insert_same, find-insert_other, Ascending, Ascending-insert,
}
use networking_learning.Routing.LinkState.{contains, int_max}
use networking_learning.Routing.DistVec.{Router, far_step, far_row, initial_distance_of_node}
use networking_learning.Routing.DistVec.Members.{contains_later}

-- The row of the node `k` after the inner loop.
pub record IsFar (k : ℕ) (all : List ℕ) (r s : Router) : Type 0 where
  pub node : s.node ≡ r.node
  pub updates : s.updates ≡ r.updates
  pub ascending : Ascending r.distance_to → Ascending s.distance_to
  pub own : find s.distance_to k ≡ find r.distance_to k
  pub others : (x : ℕ) → k ≢ x → contains x all ≡ true → find s.distance_to x ≡ some int_max
  pub rest : (x : ℕ) → contains x all ≡ false → find s.distance_to x ≡ find r.distance_to x
  pub flag : (x : ℕ) → k ≢ x → contains x all ≡ true → s.be_updated ≡ true
  pub stays : r.be_updated ≡ true → s.be_updated ≡ true

far_step_same : (k : ℕ) (r : Router) → far_step k k r ≡ r
unfolding far_step
far_step_same k r = rw (eq→== k k refl) refl

far_step_other : (k j : ℕ) (r : Router) → k ≢ j → far_step k j r ≡ initial_distance_of_node r j
unfolding far_step
far_step_other k j r ne = rw (ne→== k j ne) refl

pub far_row-IsFar : (k : ℕ) (all : List ℕ) (r : Router) → IsFar k all r (far_row k all r)
unfolding initial_distance_of_node
far_row-IsFar k [] r = record {
  node = refl;
  updates = refl;
  ascending = λ a. a;
  own = refl;
  others = λ x ne c. absurd (cc c);
  rest = λ x c. refl;
  flag = λ x ne c. absurd (cc c);
  stays = λ c. c;
}
far_row-IsFar k (j ∷ all) r = elim (eq_or_ne k j) [
  | inl q ↦
      let s : IsFar k all r (far_row k all (far_step k j r)) =
        subst (λ t. IsFar k all r (far_row k all t))
          (sym (subst (λ z. far_step k z r ≡ r) q (far_step_same k r))) (far_row-IsFar k all r) in
      record {
        node = s.node;
        updates = s.updates;
        ascending = s.ascending;
        own = s.own;
        others = λ x ne c. s.others x ne (sym (contains_later x j all (λ z. ne (q ∙ z))) ∙ c);
        rest = λ x c. s.rest x (not_later x j all c);
        flag = λ x ne c. s.flag x ne (sym (contains_later x j all (λ z. ne (q ∙ z))) ∙ c);
        stays = s.stays;
      }
  | inr ne ↦
      let r₁ = initial_distance_of_node r j in
      let s : IsFar k all r₁ (far_row k all (far_step k j r)) =
        subst (λ t. IsFar k all r₁ (far_row k all t)) (sym (far_step_other k j r ne))
          (far_row-IsFar k all r₁) in
      record {
        node = s.node;
        updates = s.updates;
        ascending = λ a. s.ascending (Ascending-insert r.distance_to j int_max a);
        own = s.own ∙ find-insert_other r.distance_to j int_max k (λ z. ne (sym z));
        others = λ x ne' c. elim (Bool-cases (contains x all)) [
          | inl m ↦ s.others x ne' m
          | inr m ↦ s.rest x m ∙ elim (eq_or_ne j x) [
            | inl q ↦
                subst (λ z. find r₁.distance_to z ≡ some int_max) q
                  (find-insert_same r.distance_to j int_max)
            | inr ne'' ↦ absurd (cc (m, c, contains_later x j all ne''))
          ]
        ];
        rest = λ x c.
            s.rest x (not_later x j all c)
            ∙ find-insert_other r.distance_to j int_max x (not_first x j all c);
        flag = λ x ne' c. s.stays refl;
        stays = λ c. s.stays refl;
      }
]
  where
    not_later : (x j : ℕ) (l : List ℕ) → contains x (j ∷ l) ≡ false → contains x l ≡ false
    not_later x j l c = elim (eq_or_ne j x) [
      | inl q ↦ absurd (cc (rw (eq→== j x q) at c))
      | inr ne ↦ sym (contains_later x j l ne) ∙ c
    ]

    not_first : (x j : ℕ) (l : List ℕ) → contains x (j ∷ l) ≡ false → j ≢ x
    not_first x j l c q = absurd (cc (rw (eq→== j x q) at c))
