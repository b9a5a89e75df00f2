-- ===== src/Routing/DistVec/Reading.antt =====
-- What printing the tables of mp3/src/distvec.cpp writes, and what reading the entries leaves.
use networking_learning.Base.{
  ℕ, ◌≡◌, ◌∙◌, ap, sym, refl, ◌⊎◌, inl, inr, true, false, List, [], ◌∷◌, ◌++◌, Option, none, some,
  All, Bool-cases, eq_or_ne,
}
use networking_learning.Routing.Map.{
  Map, find, insert, find-insert_same, find-insert_other, some_inj, Option-cases,
}
use networking_learning.Routing.LinkState.{is_some}
use networking_learning.Routing.LinkState.Table.{value_at, touch, zero_id}
use networking_learning.Routing.DistVec.{Router, Network, cost_at, touch_cost}
use networking_learning.Routing.DistVec.Vectors.{hop_of, value_at-find}
use networking_learning.Routing.DistVec.Output.{read_entries, entry_text, print_row, print_tables}

-- `s` is `r` after some entries were read: hops that were missing may be there as 0.
pub record IsRead (r s : Router) : Type 0 where
  pub distances : s.distance_to ≡ r.distance_to
  pub updates : s.updates ≡ r.updates
  pub id_same : s.node.id ≡ r.node.id
  pub neibours_same : s.node.neibours ≡ r.node.neibours
  pub edges_same : s.node.edges ≡ r.node.edges
  pub hops :
      (x h : ℕ) → find r.node.forwarding_table x ≡ some h → find s.node.forwarding_table x ≡ some h
  pub new_hops :
      (x h : ℕ)
      → find s.node.forwarding_table x ≡ some h
      → (find r.node.forwarding_table x ≡ some h)
        ⊎ (find r.node.forwarding_table x ≡ none) × (h ≡ zero_id)

IsRead-refl : (r : Router) → IsRead r r
IsRead-refl r = record {
  distances = refl;
  updates = refl;
  id_same = refl;
  neibours_same = refl;
  edges_same = refl;
  hops = λ x h f. f;
  new_hops = λ x h f. inl f;
}

touch-hops : (m : Map ℕ) (k x h : ℕ) → find m x ≡ some h → find (touch m k) x ≡ some h
unfolding touch
touch-hops m k x h f = elim (Bool-cases (is_some (find m k))) [
  | inl e ↦ rw e f
  | inr e ↦ elim (eq_or_ne k x) [
    | inl q ↦ absurd (cc (e, ap is_some (ap (find m) q ∙ f)))
    | inr ne ↦ rw e (find-insert_other m k zero_id x ne ∙ f)
  ]
]

touch_new :
    (m : Map ℕ) (k x h : ℕ)
    → find (touch m k) x ≡ some h
    → (find m x ≡ some h) ⊎ (find m x ≡ none) × (h ≡ zero_id)
unfolding touch
touch_new m k x h f = elim (Option-cases (find m x)) [
  | inr (j, z) ↦ inl (z ∙ sym (touch-hops m k x j z) ∙ f)
  | inl z ↦ inr (
    z,
    elim (Bool-cases (is_some (find m k))) [
      | inl e ↦ absurd (cc (sym z ∙ ap (λ n. find n x) (sym (touch_there m k e)) ∙ f))
      | inr e ↦ elim (eq_or_ne k x) [
        | inl q ↦ some_inj (
            sym f
            ∙ ap (λ n. find n x) (touch_missing m k e)
            ∙ ap (λ j. find (insert j zero_id m) x) q
            ∙ find-insert_same m x zero_id)
        | inr ne ↦ absurd (
            cc (
              sym z
              ∙ sym (find-insert_other m k zero_id x ne)
              ∙ ap (λ n. find n x) (sym (touch_missing m k e))
              ∙ f))
      ]
    ],
  )
]
  where
    touch_there : (m : Map ℕ) (k : ℕ) → is_some (find m k) ≡ true → touch m k ≡ m
    touch_there m k e = rw e refl

    touch_missing :
        (m : Map ℕ) (k : ℕ) → is_some (find m k) ≡ false → touch m k ≡ insert k zero_id m
    touch_missing m k e = rw e refl

pub cost_at-find : (m : Map ℕ) (x d : ℕ) → find m x ≡ some d → cost_at m x ≡ d
unfolding cost_at
cost_at-find m x d f = rw (f, cost_at) refl

pub touch_cost_there : (m : Map ℕ) (k : ℕ) → is_some (find m k) ≡ true → touch_cost m k ≡ m
unfolding touch_cost
touch_cost_there m k e = rw e refl

IsRead-step :
    (r s : Router) (x : ℕ)
    → IsRead r s
    → is_some (find r.distance_to x) ≡ true
    → IsRead r (read_entries s x)
IsRead-step r s x v i = record {
  distances =
      touch_cost_there s.distance_to x (ap (λ m. is_some (find m x)) v.distances ∙ i) ∙ v.distances;
  updates = v.updates;
  id_same = v.id_same;
  neibours_same = v.neibours_same;
  edges_same = v.edges_same;
  hops = λ y h f. touch-hops s.node.forwarding_table x y h (v.hops y h f);
  new_hops = λ y h f. elim (touch_new s.node.forwarding_table x y h f) [
    | inl e ↦ v.new_hops y h e
    | inr (e, z) ↦ elim (Option-cases (find r.node.forwarding_table y)) [
      | inl n ↦ inr (n, z)
      | inr (j, n) ↦ absurd (cc (e, v.hops y j n))
    ]
  ];
}

value_at-IsRead :
    (r s : Router) (x : ℕ)
    → IsRead r s
    → value_at s.node.forwarding_table x ≡ value_at r.node.forwarding_table x
value_at-IsRead r s x v =
    value_at-find s.node.forwarding_table x
    ∙ same (find s.node.forwarding_table x) refl
    ∙ sym (value_at-find r.node.forwarding_table x)
  where
    same :
        (o : Option ℕ)
        → find s.node.forwarding_table x ≡ o
        → hop_of o ≡ hop_of (find r.node.forwarding_table x)
    same none e = elim (Option-cases (find r.node.forwarding_table x)) [
      | inl n ↦ ap hop_of (sym n)
      | inr (j, n) ↦ absurd (cc (e, v.hops x j n))
    ]
    same (some h) e = elim (v.new_hops x h e) [
      | inl n ↦ ap hop_of (sym n)
      | inr (n, z) ↦ z ∙ ap hop_of (sym n)
    ]

entry_text-IsRead : (r s : Router) (x : ℕ) → IsRead r s → entry_text s x ≡ entry_text r x
unfolding entry_text
entry_text-IsRead r s x v = rw (v.distances, value_at-IsRead r s x v) refl

-- The lines for the nodes of the list, all of the same router.
abbrev pub row_text : List ℕ → Router → List ℕ
row_text [] r = []
row_text (x ∷ l) r = entry_text r x ++ row_text l r

abbrev pub tables_text : List ℕ → Network → List ℕ
tables_text all [] = []
tables_text all ((k, r) ∷ net) = row_text all r ++ tables_text all net

print_row_lem :
    (all : List ℕ) (r s : Router)
    → IsRead r s
    → All (λ x. is_some (find r.distance_to x) ≡ true) all
    → IsRead r (print_row all s).0 × ((print_row all s).1 ≡ row_text all r)
unfolding print_row
print_row_lem [] r s v i = (v, refl)
print_row_lem (x ∷ l) r s v i =
    let (rest, text) = print_row_lem l r (read_entries s x) (IsRead-step r s x v i.0) i.1 in
    (
      rest,
      ap (λ t. entry_text s x ++ t) text ∙ ap (λ t. t ++ row_text l r) (entry_text-IsRead r s x v),
    )

-- The routers of `j` are those of `h` after reading.
abbrev pub AreRead : Network → Network → Type 0
AreRead [] [] = Unit
AreRead ((k, r) ∷ h) ((k', s) ∷ j) = (k ≡ k') × IsRead r s × AreRead h j
AreRead [] (s ∷ j) = ⊥
AreRead (r ∷ h) [] = ⊥

pub tables_read :
    (all : List ℕ) (h : Network)
    → All (λ (p : ℕ × Router). All (λ x. is_some (find p.1.distance_to x) ≡ true) all) h
    → AreRead h (print_tables all h).0 × ((print_tables all h).1 ≡ tables_text all h)
unfolding print_tables
tables_read all [] i = (tt, refl)
tables_read all ((k, r) ∷ h) i =
    let (v, text) = print_row_lem all r r (IsRead-refl r) i.0 in
    let (vs, texts) = tables_read all h i.1 in
    (
      (refl, v, vs),
      ap (λ t. t ++ (print_tables all h).1) text ∙ ap (λ t. row_text all r ++ t) texts,
    )
