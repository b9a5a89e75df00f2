-- ===== src/Routing/DistVec/Budgets.antt =====
-- What the second loop of a round leaves of the nodes and of the number of known distances, in
-- mp3/src/distvec.cpp.
use networking_learning.Base.{
  ℕ, ◌+◌, ◌≤◌, ◌<◌, ◌≡◌, ◌∙◌, ap, subst, sym, refl, inl, inr, if◌then◌else◌, ltb, [], ◌∷◌, some,
  arith, eq_or_ne, lt_or_le, lt→ltb, le→ltb,
}
use networking_learning.Routing.Map.{
  find, find_first, find_later, find_nil, some_inj, Above, Ascending,
}
use networking_learning.Routing.LinkState.{Graph, is_some, int_max}
use networking_learning.Routing.DistVec.{Router, Network, keys}
use networking_learning.Routing.DistVec.Vectors.{far}
use networking_learning.Routing.DistVec.Networks.{budget}
use networking_learning.Routing.DistVec.Stepping.{Stepped}

Above-Stepped :
    (g : Graph) (limit : ℕ → ℕ) (k : ℕ) (h i : Network)
    → Stepped g limit h i
    → Above k h
    → Above k i
Above-Stepped g limit k [] [] s a = tt
Above-Stepped g limit k [] ((b, q) ∷ i) s a = absurd s
Above-Stepped g limit k ((b, q) ∷ h) [] s a = absurd s
Above-Stepped g limit k ((b, q) ∷ h) ((b', q') ∷ i) (e, s, t) (l, a) =
    (omega (arith, l, e), Above-Stepped g limit b' h i t (subst (λ z. Above z h) e a))

pub Ascending-Stepped :
    (g : Graph) (limit : ℕ → ℕ) (h i : Network) → Stepped g limit h i → Ascending h → Ascending i
Ascending-Stepped g limit [] [] s a = tt
Ascending-Stepped g limit [] ((b, q) ∷ i) s a = absurd s
Ascending-Stepped g limit ((b, q) ∷ h) [] s a = absurd s
Ascending-Stepped g limit ((b, q) ∷ h) ((b', q') ∷ i) (e, s, t) a =
    Above-Stepped g limit b' h i t (subst (λ z. Above z h) e a)

pub keys-Stepped :
    (g : Graph) (limit : ℕ → ℕ) (h i : Network) → Stepped g limit h i → keys i ≡ keys h
keys-Stepped g limit [] [] s = refl
keys-Stepped g limit [] ((b, q) ∷ i) s = absurd s
keys-Stepped g limit ((b, q) ∷ h) [] s = absurd s
keys-Stepped g limit ((b, q) ∷ h) ((b', q') ∷ i) (e, s, t) =
    ap (λ z. z ∷ keys i) (sym e) ∙ ap (λ l. b ∷ l) (keys-Stepped g limit h i t)

pub is_some-Stepped :
    (g : Graph) (limit : ℕ → ℕ) (h i : Network) (x : ℕ)
    → Stepped g limit h i
    → is_some (find i x) ≡ is_some (find h x)
is_some-Stepped g limit [] [] x s = refl
is_some-Stepped g limit [] ((b, q) ∷ i) x s = absurd s
is_some-Stepped g limit ((b, q) ∷ h) [] x s = absurd s
is_some-Stepped g limit ((b, q) ∷ h) ((b', q') ∷ i) x (e, s, t) = elim (eq_or_ne b x) [
  | inl same ↦
      ap is_some (subst (λ z. find ((b', q') ∷ i) z ≡ some q') (sym e ∙ same) (find_first i b' q'))
      ∙ sym (ap is_some (subst (λ z. find ((b, q) ∷ h) z ≡ some q) same (find_first h b q)))
  | inr ne ↦
      ap is_some (find_later i b' q' x (λ z. ne (e ∙ z)))
      ∙ is_some-Stepped g limit h i x t
      ∙ sym (ap is_some (find_later h b q x ne))
]

module _ (c : ℕ) (x : ℕ) where
  finite_more :
      (d d' m n : ℕ)
      → d' ≤ d
      → m ≤ n
      → (if ltb d int_max then c + m else m) ≤ (if ltb d' int_max then c + n else n)
  finite_more d d' m n l k = elim (lt_or_le d int_max) [
    | inl a ↦ rw (lt→ltb d int_max a, lt→ltb d' int_max (omega (arith, l, a))) (omega (arith, k))
    | inr a ↦ elim (lt_or_le d' int_max) [
      | inl b ↦ rw (le→ltb d int_max a, lt→ltb d' int_max b) (omega (arith, k))
      | inr b ↦ rw (le→ltb d int_max a, le→ltb d' int_max b) k
    ]
  ]

  finite_new :
      (d d' m n : ℕ)
      → int_max ≤ d
      → d' < int_max
      → m ≤ n
      → (if ltb d int_max then c + m else m) + c ≤ (if ltb d' int_max then c + n else n)
  finite_new d d' m n a b k = rw (le→ltb d int_max a, lt→ltb d' int_max b) (omega (arith, k))

  pub budget-Stepped :
      (g : Graph) (limit : ℕ → ℕ) (h i : Network)
      → Stepped g limit h i
      → budget c h x ≤ budget c i x
  budget-Stepped g limit [] [] s = omega arith
  budget-Stepped g limit [] ((b, q) ∷ i) s = absurd s
  budget-Stepped g limit ((b, q) ∷ h) [] s = absurd s
  budget-Stepped g limit ((b, q) ∷ h) ((b', q') ∷ i) (e, s, t) =
      finite_more (far q.distance_to x) (far q'.distance_to x) (budget c h x) (budget c i x)
        (s.lower x) (budget-Stepped g limit h i t)

  pub budget_new :
      (g : Graph) (limit : ℕ → ℕ) (h i : Network) (u : ℕ) (r r' : Router)
      → Stepped g limit h i
      → find h u ≡ some r
      → find i u ≡ some r'
      → int_max ≤ far r.distance_to x
      → far r'.distance_to x < int_max
      → budget c h x + c ≤ budget c i x
  budget_new g limit [] i u r r' s f f' a b = absurd (cc (f, find_nil {V = Router} u))
  budget_new g limit ((k, q) ∷ h) [] u r r' s f f' a b = absurd s
  budget_new g limit ((k, q) ∷ h) ((k', q') ∷ i) u r r' (e, s, t) f f' a b = elim (eq_or_ne k u) [
    | inl z ↦
        let is_r : q ≡ r = some_inj (sym (find_first h k q) ∙ ap (find ((k, q) ∷ h)) z ∙ f) in
        let is_r' : q' ≡ r' =
          some_inj (sym (find_first i k' q') ∙ ap (find ((k', q') ∷ i)) (sym e ∙ z) ∙ f') in
        finite_new (far q.distance_to x) (far q'.distance_to x) (budget c h x) (budget c i x)
          (subst (λ (o : Router). int_max ≤ far o.distance_to x) (sym is_r) a)
          (subst (λ (o : Router). far o.distance_to x < int_max) (sym is_r') b)
          (budget-Stepped g limit h i t)
    | inr ne ↦
        let rest =
          budget_new g limit h i u r r' t (sym (find_later h k q u ne) ∙ f)
            (sym (find_later i k' q' u (λ z. ne (e ∙ z))) ∙ f') a b in
        let more = s.lower x in
        finite_more_c (far q.distance_to x) (far q'.distance_to x) (budget c h x) (budget c i x)
          more rest
  ]
    where
      finite_more_c :
          (d d' m n : ℕ)
          → d' ≤ d
          → m + c ≤ n
          → (if ltb d int_max then c + m else m) + c ≤ (if ltb d' int_max then c + n else n)
      finite_more_c d d' m n l k = elim (lt_or_le d int_max) [
        | inl a' ↦
            rw (lt→ltb d int_max a', lt→ltb d' int_max (omega (arith, l, a'))) (omega (arith, k))
        | inr a' ↦ elim (lt_or_le d' int_max) [
          | inl b' ↦ rw (le→ltb d int_max a', lt→ltb d' int_max b') (omega (arith, k))
          | inr b' ↦ rw (le→ltb d int_max a', le→ltb d' int_max b') k
        ]
      ]
