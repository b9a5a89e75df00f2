-- ===== src/Routing/LinkState/Filling.antt =====
-- The last loop of `build_forwarding_table` in mp3/src/linkstate.cpp: an entry for each node in reach.
use networking_learning.Base.{
  ℕ, ◌≤◌, ◌<◌, ◌≡◌, ◌≢◌, ◌∙◌, ap, subst, sym, refl, ◌⊎◌, inl, inr, true, [], ◌∷◌, none, some, arith,
  done, eq_or_ne, eq→==, ne→==,
}
use networking_learning.Routing.Map.{
  Map, find, insert, some_inj, find_nil, find_first, find_later, Option-cases, Ascending,
  Ascending-tail, find-Above, find-insert_same, find-insert_other,
}
use networking_learning.Routing.Line.{no_node}
use networking_learning.Routing.LinkState.{Node, Graph, is_some, int_max}
use networking_learning.Routing.LinkState.Table.{Search, first_hop, fill_table, touch, value_at}
use networking_learning.Routing.LinkState.Paths.{here, IsGraph}
use networking_learning.Routing.LinkState.Invariant.{IsSearch}
use networking_learning.Routing.LinkState.Hops.{IsNextHop, first_hop_lem}

value_at-found : (m : Map ℕ) (k v : ℕ) → find m k ≡ some v → value_at m k ≡ v
unfolding value_at
value_at-found m k v e = rw (e, value_at)

fill_self :
    (fuel : ℕ) (k id : ℕ) (n : Node) (rest : Graph) (prevs table : Map ℕ)
    → k ≡ id
    → fill_table fuel ((k, n) ∷ rest) id prevs table ≡ fill_table fuel rest id prevs table
unfolding fill_table
fill_self fuel k id n rest prevs table e = rw (eq→== k id e, fill_table)

fill-far :
    (fuel : ℕ) (k id : ℕ) (n : Node) (rest : Graph) (prevs table : Map ℕ)
    → k ≢ id
    → find prevs k ≡ some no_node
    → fill_table fuel ((k, n) ∷ rest) id prevs table ≡ fill_table fuel rest id prevs table
unfolding fill_table touch
fill-far fuel k id n rest prevs table ne f =
    rw (ne→== k id ne, fill_table, value_at-found prevs k no_node f, f)

fill-near :
    (fuel : ℕ) (k id p h : ℕ) (n : Node) (rest : Graph) (prevs table : Map ℕ)
    → k ≢ id
    → find prevs k ≡ some p
    → p ≢ no_node
    → first_hop fuel prevs id k p ≡ done h
    → fill_table fuel ((k, n) ∷ rest) id prevs table
      ≡ fill_table fuel rest id prevs (insert k h table)
unfolding fill_table
fill-near fuel k id p h n rest prevs table ne f np run = rw (
  ne→== k id ne,
  fill_table,
  value_at-found prevs k p f,
  ne→== p no_node np,
  f,
  value_at-found prevs k p f,
  run,
)

in_tail :
    (k : ℕ) (n : Node) (rest : Graph)
    → Ascending ((k, n) ∷ rest)
    → (x : ℕ) → is_some (find rest x) ≡ true
    → is_some (find ((k, n) ∷ rest) x) ≡ true
in_tail k n rest a x h = elim (eq_or_ne k x) [
  | inl q ↦ ap (λ z. is_some (find ((k, n) ∷ rest) z)) (sym q) ∙ ap is_some (find_first rest k n)
  | inr ne ↦ ap is_some (find_later rest k n x ne) ∙ h
]

module _ (g : Graph) (root : ℕ) (valid : IsGraph g) (no_minus : find g no_node ≡ none) (c : ℕ)
    (s : Search) (v : IsSearch g root c [] s) (end : s.distance_to_root ≡ []) where
  -- Every node has its final distance.
  pub recorded :
      (x : ℕ)
      → is_some (find g x) ≡ true
      → (d : ℕ) × (find s.record_dist x ≡ some d) × (d ≤ int_max)
  recorded x h = elim (Option-cases (find s.record_dist x)) [
    | inl e ↦
        absurd
          (cc (sym (v.covered x h e) ∙ ap (λ m. is_some (find m x)) end ∙ ap is_some (find_nil x)))
    | inr (d, e) ↦ let (a, b) = v.seen_node x d e in (d, e, b)
  ]

  -- The table after the entries for the nodes of `rest`.
  pub record IsFilled (rest : Graph) (table table' : Map ℕ) : Type 0 where
    pub hops :
        (x d : ℕ)
        → is_some (find rest x) ≡ true
        → x ≢ root
        → find s.record_dist x ≡ some d
        → d < int_max
        → (h : ℕ) × (find table' x ≡ some h) × IsNextHop g root h x d
    pub others :
        (x : ℕ)
        → (find rest x ≡ none) ⊎ ((x ≡ root) ⊎ (find s.record_dist x ≡ some int_max))
        → find table' x ≡ find table x

  -- The head of the list gets no entry.
  skip-IsFilled :
      (k : ℕ) (n : Node) (rest : Graph) (table table' : Map ℕ)
      → (k ≡ root) ⊎ (find s.record_dist k ≡ some int_max)
      → IsFilled rest table table'
      → IsFilled ((k, n) ∷ rest) table table'
  skip-IsFilled k n rest table table' why f = record {
    hops = λ x d h ne r l. elim (eq_or_ne k x) [
      | inr nk ↦ f.hops x d (ap is_some (sym (find_later rest k n x nk)) ∙ h) ne r l
      | inl q ↦ elim why [
        | inl w ↦ absurd (ne (sym q ∙ w))
        | inr w ↦
            let e : int_max ≡ d = some_inj (sym w ∙ ap (find s.record_dist) q ∙ r) in
            absurd (omega arith)
      ]
    ];
    others = λ x h. elim (eq_or_ne k x) [
      | inl q ↦ f.others x (
          inr (elim why [
            | inl w ↦ inl (sym q ∙ w)
            | inr w ↦ inr (ap (find s.record_dist) (sym q) ∙ w)
          ]))
      | inr nk ↦
          f.others x (elim h [ inr o ↦ inr o | inl o ↦ inl (sym (find_later rest k n x nk) ∙ o) ])
    ];
  }

  -- A node in reach other than the root has none of the reasons to be left out.
  not_other :
      (k x d : ℕ) (n : Node) (rest : Graph)
      → k ≡ x
      → k ≢ root
      → find s.record_dist k ≡ some d
      → d < int_max
      → ¬ ((find ((k, n) ∷ rest) x ≡ none) ⊎ ((x ≡ root) ⊎ (find s.record_dist x ≡ some int_max)))
  not_other k x d n rest q nr r l (inl o) =
      cc (sym (find_first rest k n) ∙ ap (find ((k, n) ∷ rest)) q ∙ o)
  not_other k x d n rest q nr r l (inr (inl o)) = nr (q ∙ o)
  not_other k x d n rest q nr r l (inr (inr o)) =
      let e : d ≡ int_max = some_inj (sym r ∙ ap (find s.record_dist) q ∙ o) in omega arith

  near-IsFilled :
      (k hop d : ℕ) (n : Node) (rest : Graph) (table table' : Map ℕ)
      → Ascending ((k, n) ∷ rest)
      → k ≢ root
      → find s.record_dist k ≡ some d
      → d < int_max
      → IsNextHop g root hop k d
      → IsFilled rest (insert k hop table) table'
      → IsFilled ((k, n) ∷ rest) table table'
  near-IsFilled k hop d n rest table table' a nr r l is f =
      let own : find table' k ≡ some hop =
        f.others k (inl (find-Above rest k k a (omega arith))) ∙ find-insert_same table k hop in
      record {
        hops = λ x d' h ne r' l'. elim (eq_or_ne k x) [
          | inr nk ↦ f.hops x d' (ap is_some (sym (find_later rest k n x nk)) ∙ h) ne r' l'
          | inl q ↦
              let e : d ≡ d' = some_inj (sym r ∙ ap (find s.record_dist) q ∙ r') in
              (
                hop,
                ap (find table') (sym q) ∙ own,
                subst (λ z. IsNextHop g root hop z d') q (subst (IsNextHop g root hop k) e is),
              )
        ];
        others = λ x h. elim (eq_or_ne k x) [
          | inl q ↦ absurd (not_other k x d n rest q nr r l h)
          | inr nk ↦
              f.others x
                (elim h [ inr o ↦ inr o | inl o ↦ inl (sym (find_later rest k n x nk) ∙ o) ])
              ∙ find-insert_other table k hop x nk
        ];
      }

  pub fill_table_lem :
      (rest : Graph) (table : Map ℕ)
      → Ascending rest
      → ((x : ℕ) → is_some (find rest x) ≡ true → is_some (find g x) ≡ true)
      → (table' : Map ℕ) × (fill_table int_max rest root s.prevs table ≡ done (s.prevs, table'))
        × IsFilled rest table table'
  unfolding fill_table
  fill_table_lem [] table a sub = (
    table,
    refl,
    record {
      hops = λ x d h ne r l. absurd (cc (sym (ap is_some (find_nil {V = Node} x)) ∙ h));
      others = λ x h. refl;
    },
  )
  fill_table_lem ((k, n) ∷ rest) table a sub =
      let tail = Ascending-tail rest k a in
      let sub' = λ (x : ℕ) (h : is_some (find rest x) ≡ true). sub x (in_tail k n rest a x h) in
      let (d, r, d_le) = recorded k (sub k (ap is_some (find_first rest k n))) in
      elim (eq_or_ne k root) [
        | inl q ↦
            let (t, run, f) = fill_table_lem rest table tail sub' in
            (
              t,
              fill_self int_max k root n rest s.prevs table q ∙ run,
              skip-IsFilled k n rest table t (inl q) f,
            )
        | inr nr ↦ elim (eq_or_ne d int_max) [
          | inl far ↦
              let w = r ∙ ap some far in
              let (t, run, f) = fill_table_lem rest table tail sub' in
              (
                t,
                fill-far int_max k root n rest s.prevs table nr (v.before_far k w) ∙ run,
                skip-IsFilled k n rest table t (inr w) f,
              )
          | inr near ↦
              let fin : d < int_max = omega arith in
              let (p, b) = v.before k d nr (inr r) fin in
              let (in_g, p_le) = v.seen_node p b.dist b.reached in
              let not_minus : p ≢ no_node =
                λ q. cc (sym (ap is_some no_minus) ∙ ap (λ z. is_some (find g z)) (sym q) ∙ in_g) in
              let (h, hop_run, hop) =
                first_hop_lem g root valid c s v end int_max k p d k 0 nr b d_le fin
                  (here k 0 refl refl) in
              let is : IsNextHop g root h k d = subst (IsNextHop g root h k) (omega arith) hop in
              let (t, run, f) = fill_table_lem rest (insert k h table) tail sub' in
              (
                t,
                fill-near int_max k root p h n rest s.prevs table nr b.found not_minus hop_run
                    ∙ run,
                near-IsFilled k h d n rest table t a nr r fin is f,
              )
        ]
      ]
