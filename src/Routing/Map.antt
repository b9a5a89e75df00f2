-- ===== src/Routing/Map.antt =====
-- What mp3/src uses of the C++ maps and sets: association lists in the order of their keys. The order
-- of an `unordered_map` is unspecified, and no result below depends on it.
use networking_learning.Base.{
  ℕ, suc, ◌≤◌, ◌<◌, ◌≡◌, ◌≢◌, ◌∙◌, ap, subst, refl, ltb, ◌==◌, if◌then◌else◌, List, [], ◌∷◌, length,
  arith, Option, none, some, Bool-cases, ==→eq, ==→ne, eq→==, ne→==, eq_or_ne, ltb→lt, ltb→le, ◌⊎◌,
  inl, inr, sym,
}

abbrev pub Map {ℓ} : Type ℓ → Type ℓ
Map V = List (ℕ × V)

module _ {ℓ} {V : Type ℓ} where
  -- `find`, and the value that it points to; `none` is `end()`.
  unfoldable pub find : Map V → ℕ → Option V
  find [] k = none
  find ((a, v) ∷ m) k = let rest = find m k in if a == k then some v else rest

  -- Assignment to `m[k]`.
  unfoldable pub insert : ℕ → V → Map V → Map V
  insert k v [] = (k, v) ∷ []
  insert k v ((a, w) ∷ m) =
      let rest = insert k v m in
      if a == k then (k, v) ∷ m else if ltb k a then (k, v) ∷ (a, w) ∷ m else (a, w) ∷ rest

  unfoldable pub erase : ℕ → Map V → Map V
  erase k [] = []
  erase k ((a, v) ∷ m) = let rest = erase k m in if a == k then rest else (a, v) ∷ rest

  pub find_nil : (k : ℕ) → find [] k ≡ none
  unfolding find
  find_nil k = refl

  pub find_cons :
      (m : Map V) (a : ℕ) (v : V) (k : ℕ)
      → find ((a, v) ∷ m) k ≡ (if a == k then some v else find m k)
  unfolding find
  find_cons m a v k = refl

  pub find_first : (m : Map V) (a : ℕ) (v : V) → find ((a, v) ∷ m) a ≡ some v
  find_first m a v = rw (find_cons m a v a, eq→== a a refl)

  pub find_later : (m : Map V) (a : ℕ) (v : V) (k : ℕ) → a ≢ k → find ((a, v) ∷ m) k ≡ find m k
  find_later m a v k h = rw (find_cons m a v k, ne→== a k h)

  pub find-insert :
      (m : Map V) (k : ℕ) (v : V) (j : ℕ)
      → find (insert k v m) j ≡ (if k == j then some v else find m j)
  unfolding find insert
  find-insert [] k v j = refl
  find-insert ((a, w) ∷ m) k v j = ground (arith, find-insert m k v j)

  pub find-erase : (m : Map V) (k j : ℕ) → find (erase k m) j ≡ (if k == j then none else find m j)
  unfolding find erase
  find-erase [] k j = ground arith
  find-erase ((a, w) ∷ m) k j = ground (arith, find-erase m k j)

  pub find-insert_same : (m : Map V) (k : ℕ) (v : V) → find (insert k v m) k ≡ some v
  find-insert_same m k v = find-insert m k v k ∙ rw (eq→== k k refl) refl

  pub find-insert_other :
      (m : Map V) (k : ℕ) (v : V) (j : ℕ) → k ≢ j → find (insert k v m) j ≡ find m j
  find-insert_other m k v j h = find-insert m k v j ∙ rw (ne→== k j h) refl

  pub find-erase_same : (m : Map V) (k : ℕ) → find (erase k m) k ≡ none
  find-erase_same m k = find-erase m k k ∙ rw (eq→== k k refl) refl

  pub find-erase_other : (m : Map V) (k j : ℕ) → k ≢ j → find (erase k m) j ≡ find m j
  find-erase_other m k j h = find-erase m k j ∙ rw (ne→== k j h) refl

  -- Keys in ascending order.
  abbrev pub Above : ℕ → Map V → Type 0
  Above k [] = Unit
  Above k ((a, v) ∷ m) = (k < a) × Above a m

  abbrev pub Ascending : Map V → Type 0
  Ascending [] = Unit
  Ascending ((a, v) ∷ m) = Above a m

  pub Ascending-tail : (m : Map V) (k : ℕ) → Above k m → Ascending m
  Ascending-tail [] k a = tt
  Ascending-tail ((b, v) ∷ m) k a = a.1

  Above-weaken : (m : Map V) (i k : ℕ) → i ≤ k → Above k m → Above i m
  Above-weaken [] i k h a = tt
  Above-weaken ((b, v) ∷ m) i k h a = (omega (arith, a.0), a.1)

  Above-insert : (m : Map V) (i k : ℕ) (v : V) → i < k → Above i m → Above i (insert k v m)
  unfolding insert
  Above-insert [] i k v h a = (h, tt)
  Above-insert ((b, w) ∷ m) i k v h a = elim (Bool-cases (b == k)) [
    | inl e ↦ let f = ==→eq b k e in rw e (h, subst (λ c. Above c m) f a.1)
    | inr ne ↦ elim (Bool-cases (ltb k b)) [
      | inl lt ↦ rw (ne, lt) (h, (ltb→lt k b lt, a.1))
      | inr ge ↦
          rw (ne, ge) (a.0, Above-insert m b k v (omega (arith, ==→ne b k ne, ltb→le k b ge)) a.1)
    ]
  ]

  pub Ascending-insert : (m : Map V) (k : ℕ) (v : V) → Ascending m → Ascending (insert k v m)
  unfolding insert
  Ascending-insert [] k v a = tt
  Ascending-insert ((b, w) ∷ m) k v a = elim (Bool-cases (b == k)) [
    | inl e ↦ let f = ==→eq b k e in rw e (subst (λ c. Above c m) f a)
    | inr ne ↦ elim (Bool-cases (ltb k b)) [
      | inl lt ↦ rw (ne, lt) (ltb→lt k b lt, a)
      | inr ge ↦ rw (ne, ge) (Above-insert m b k v (omega (arith, ==→ne b k ne, ltb→le k b ge)) a)
    ]
  ]

  Above-erase : (m : Map V) (i k : ℕ) → Above i m → Above i (erase k m)
  unfolding erase
  Above-erase [] i k a = tt
  Above-erase ((b, v) ∷ m) i k a = elim (Bool-cases (b == k)) [
    | inl e ↦ rw e (Above-erase m i k (Above-weaken m i b (omega (arith, a.0)) a.1))
    | inr ne ↦ rw ne (a.0, Above-erase m b k a.1)
  ]

  pub Ascending-erase : (m : Map V) (k : ℕ) → Ascending m → Ascending (erase k m)
  unfolding erase
  Ascending-erase [] k a = tt
  Ascending-erase ((b, v) ∷ m) k a = elim (Bool-cases (b == k)) [
    | inl e ↦ rw e (Ascending-tail (erase k m) b (Above-erase m b k a))
    | inr ne ↦ rw ne (Above-erase m b k a)
  ]

  pub find-Above : (m : Map V) (k j : ℕ) → Above k m → j ≤ k → find m j ≡ none
  unfolding find
  find-Above [] k j a h = refl
  find-Above ((b, v) ∷ m) k j a h =
      rw (ne→== b j (omega (arith, a.0)), find-Above m b j a.1 (omega (arith, a.0)))

  erase-Above : (m : Map V) (k : ℕ) → Above k m → erase k m ≡ m
  unfolding erase
  erase-Above [] k a = refl
  erase-Above ((b, v) ∷ m) k a = rw (
    ne→== b k (omega (arith, a.0)),
    erase-Above m k (Above-weaken m k b (omega (arith, a.0)) a.1),
  )

  -- `size` after an assignment to a key that is not there.
  pub length-insert :
      (m : Map V) (k : ℕ) (v : V) → find m k ≡ none → length (insert k v m) ≡ suc (length m)
  unfolding find insert
  length-insert [] k v e = refl
  length-insert ((b, w) ∷ m) k v e = elim (Bool-cases (b == k)) [
    | inl t ↦ absurd (cc (rw t at e))
    | inr ne ↦ elim (Bool-cases (ltb k b)) [
      | inl lt ↦ rw (ne, lt)
      | inr ge ↦ rw (ne, ge) (ap suc (length-insert m k v (rw ne at e)))
    ]
  ]

  -- To a key that is there.
  pub length-insert_found :
      (m : Map V) (k : ℕ) (u v : V)
      → Ascending m
      → find m k ≡ some u
      → length (insert k v m) ≡ length m
  unfolding find insert
  length-insert_found [] k u v a e = absurd (cc e)
  length-insert_found ((b, w) ∷ m) k u v a e = elim (Bool-cases (b == k)) [
    | inl t ↦ rw t
    | inr ne ↦ elim (Bool-cases (ltb k b)) [
      | inl lt ↦ let l = ltb→lt k b lt in absurd (cc (find-Above m b k a (omega arith), rw ne at e))
      | inr ge ↦
          rw (ne, ge) (ap suc (length-insert_found m k u v (Ascending-tail m b a) (rw ne at e)))
    ]
  ]

  pub length-erase :
      (m : Map V) (k : ℕ) (v : V)
      → Ascending m
      → find m k ≡ some v
      → suc (length (erase k m)) ≡ length m
  unfolding find erase
  length-erase [] k v a e = absurd (cc e)
  length-erase ((b, w) ∷ m) k v a e = elim (Bool-cases (b == k)) [
    | inl t ↦ let f = ==→eq b k t in rw (t, erase-Above m k (subst (λ c. Above c m) f a))
    | inr ne ↦ rw ne (ap suc (length-erase m k v (Ascending-tail m b a) (rw ne at e)))
  ]

pub length_zero {ℓ} : {A : Type ℓ} (l : List A) → length l ≡ 0 → l ≡ []
length_zero [] h = refl
length_zero (x ∷ l) h = absurd (omega arith)

pub Option-cases {ℓ} : {A : Type ℓ} (o : Option A) → (o ≡ none) ⊎ ((a : A) × (o ≡ some a))
Option-cases none = inl refl
Option-cases (some a) = inr (a, refl)

pub some_inj {ℓ} : {A : Type ℓ} {a b : A} → some a ≡ some b → a ≡ b
some_inj h = cc h

-- An entry after an assignment is the new one or an old one of another key.
pub entry-insert {ℓ} :
    {V : Type ℓ} (m : Map V) (k : ℕ) (v : V) (j : ℕ) (w : V)
    → find (insert k v m) j ≡ some w
    → ((k ≡ j) × (v ≡ w)) ⊎ ((k ≢ j) × (find m j ≡ some w))
entry-insert m k v j w f = elim (eq_or_ne k j) [
  | inl e ↦ inl (e, some_inj (sym (find-insert_same m k v) ∙ ap (find (insert k v m)) e ∙ f))
  | inr ne ↦ inr (ne, sym (find-insert_other m k v j ne) ∙ f)
]

-- An entry that is left after `erase`.
pub entry-erase {ℓ} :
    {V : Type ℓ} (m : Map V) (k j : ℕ) (w : V)
    → find (erase k m) j ≡ some w
    → (k ≢ j) × (find m j ≡ some w)
entry-erase m k j w f = elim (eq_or_ne k j) [
  | inl e ↦ absurd (cc (sym (find-erase_same m k) ∙ ap (find (erase k m)) e ∙ f))
  | inr ne ↦ (ne, sym (find-erase_other m k j ne) ∙ f)
]
