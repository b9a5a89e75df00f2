-- ===== src/Routing/DistVec/Pushing.antt =====
-- `send_update` of mp3/src/distvec.cpp: the vector is pushed to the neighbours.
use networking_learning.Base.{
  ℕ, ◌≡◌, ◌∙◌, ap, subst, sym, refl, ◌⊎◌, inl, inr, true, ltb, ◌==◌, List, [], ◌∷◌, ◌++◌, Option,
  none, some, arith, Proc, done, Bool-cases, eq_or_ne, ==→eq, ==→ne, ltb→lt,
}
use networking_learning.Routing.Map.{
  Map, find, insert, find_nil, find_first, find_later, find-Above, some_inj, Option-cases,
  Ascending, Ascending-tail, Ascending-insert, entry-insert,
}
use networking_learning.Routing.LinkState.{is_some, contains}
use networking_learning.Routing.DistVec.{Router, Network, with_update, push_loop}
use networking_learning.Routing.DistVec.Updating.{Has}
use networking_learning.Routing.DistVec.Members.{contains_later, contains_first, contains_weaken}

abbrev pub silent : Router → Router
silent r = record r { updates = [] }

-- The network without the vectors that wait at its nodes.
abbrev pub bare : Network → Network
bare [] = []
bare ((k, r) ∷ g) = (k, silent r) ∷ bare g

abbrev pub silent_of : Option Router → Option Router
silent_of none = none
silent_of (some r) = some (silent r)

pub find-bare : (g : Network) (u : ℕ) → find (bare g) u ≡ silent_of (find g u)
find-bare [] u = find_nil u ∙ ap silent_of (sym (find_nil u))
find-bare ((k, r) ∷ g) u = elim (eq_or_ne k u) [
  | inl q ↦
      subst (λ z. find (bare ((k, r) ∷ g)) z ≡ silent_of (find ((k, r) ∷ g) z)) q
        (find_first (bare g) k (silent r) ∙ ap silent_of (sym (find_first g k r)))
  | inr ne ↦
      find_later (bare g) k (silent r) u ne
      ∙ find-bare g u
      ∙ ap silent_of (sym (find_later g k r u ne))
]

bare-insert :
    (g : Network) (k : ℕ) (r : Router) (a : ℕ × Map ℕ)
    → Ascending g
    → find g k ≡ some r
    → bare (insert k (with_update r a) g) ≡ bare g
unfolding insert
bare-insert [] k r a up f = absurd (cc (f, find_nil {V = Router} k))
bare-insert ((b, s) ∷ g) k r a up f = elim (Bool-cases (b == k)) [
  | inl t ↦
      let q = ==→eq b k t in
      let same : s ≡ r = some_inj (sym (find_first g b s) ∙ ap (find ((b, s) ∷ g)) q ∙ f) in
      rw t (ap (λ z. (z, silent r) ∷ bare g) (sym q) ∙ ap (λ z. (b, silent z) ∷ bare g) (sym same))
  | inr ne ↦ elim (Bool-cases (ltb k b)) [
    | inl lt ↦
        let l = ltb→lt k b lt in
        absurd
          (cc (sym (find_later g b s k (==→ne b k ne)) ∙ f, find-Above g b k up (omega (arith, l))))
    | inr ge ↦
        rw (ne, ge)
          (ap (λ z. (b, silent s) ∷ z)
            (bare-insert g k r a (Ascending-tail g b up)
              (sym (find_later g b s k (==→ne b k ne)) ∙ f)))
  ]
]

Has-old : (a b : ℕ × Map ℕ) (l : List (ℕ × Map ℕ)) → Has a l → Has a (l ++ b ∷ [])
Has-old a b [] h = absurd h
Has-old a b (c ∷ l) (inl q) = inl q
Has-old a b (c ∷ l) (inr h) = inr (Has-old a b l h)

Has-new : (b : ℕ × Map ℕ) (l : List (ℕ × Map ℕ)) → Has b (l ++ b ∷ [])
Has-new b [] = inl refl
Has-new b (c ∷ l) = inr (Has-new b l)

Has-cases : (a b : ℕ × Map ℕ) (l : List (ℕ × Map ℕ)) → Has a (l ++ b ∷ []) → Has a l ⊎ (b ≡ a)
Has-cases a b [] (inl q) = inr q
Has-cases a b [] (inr h) = absurd h
Has-cases a b (c ∷ l) (inl q) = inl (inl q)
Has-cases a b (c ∷ l) (inr h) = elim (Has-cases a b l h) [ inl x ↦ inl (inr x) | inr q ↦ inr q ]

-- What pushing the vector `a` to the nodes of `l` leaves at the node `u`.
pub record IsTold (l : List ℕ) (a : ℕ × Map ℕ) (u : ℕ) (before after : List (ℕ × Map ℕ))
    : Type 0 where
  pub keeps : (b : ℕ × Map ℕ) → Has b before → Has b after
  pub sources : (b : ℕ × Map ℕ) → Has b after → Has b before ⊎ (a ≡ b) × (contains u l ≡ true)
  pub tells : contains u l ≡ true → Has a after

pub record IsPushed (l : List ℕ) (a : ℕ × Map ℕ) (g h : Network) : Type 0 where
  pub ascending : Ascending h
  pub same : bare h ≡ bare g
  pub told :
      (u : ℕ) (s : Router)
      → find h u ≡ some s
      → (r : Router) × (find g u ≡ some r) × IsTold l a u r.updates s.updates

IsTold-first :
    (l : List ℕ) (a : ℕ × Map ℕ) (u nei : ℕ) (r s : Router)
    → nei ≡ u
    → IsTold l a u (r.updates ++ a ∷ []) s.updates
    → IsTold (nei ∷ l) a u r.updates s.updates
IsTold-first l a u nei r s q old = record {
  keeps = λ b x. old.keeps b (Has-old b a r.updates x);
  sources = λ b x. elim (old.sources b x) [
    | inl y ↦ elim (Has-cases b a r.updates y) [
      | inl z ↦ inl z
      | inr e ↦ inr (e, subst (λ z. contains z (nei ∷ l) ≡ true) q (contains_first nei l))
    ]
    | inr (y, c) ↦ inr (y, contains_weaken u nei l c)
  ];
  tells = λ c. old.keeps a (Has-new a r.updates);
}

push_run :
    (nei : ℕ) (l : List ℕ) (a : ℕ × Map ℕ) (g : Network) (r : Router) (p : Proc Network)
    → find g nei ≡ some r
    → push_loop l a (insert nei (with_update r a) g) ≡ p
    → push_loop (nei ∷ l) a g ≡ p
unfolding push_loop
push_run nei l a g r p f e = rw f e

pub known_bare :
    (g h : Network) (u : ℕ)
    → bare h ≡ bare g
    → is_some (find g u) ≡ true
    → is_some (find h u) ≡ true
known_bare g h u e i = elim (Option-cases (find h u)) [
  | inr (s, f) ↦ ap is_some f
  | inl f ↦ elim (Option-cases (find g u)) [
    | inl f' ↦ absurd (cc (i, f'))
    | inr (r, f') ↦ absurd (
        cc (
          sym (ap silent_of f)
          ∙ sym (find-bare h u)
          ∙ ap (λ m. find m u) e
          ∙ find-bare g u
          ∙ ap silent_of f'))
  ]
]

pub push_loop_lem :
    (l : List ℕ) (a : ℕ × Map ℕ) (g : Network)
    → Ascending g
    → ((u : ℕ) → contains u l ≡ true → is_some (find g u) ≡ true)
    → (h : Network) × (push_loop l a g ≡ done h) × IsPushed l a g h
unfolding push_loop
push_loop_lem [] a g up inside = (
  g,
  refl,
  record {
    ascending = up;
    same = refl;
    told = λ u s f.
        (s, f, record { keeps = λ b x. x; sources = λ b x. inl x; tells = λ c. absurd (cc c) });
  },
)
push_loop_lem (nei ∷ l) a g up inside = elim (Option-cases (find g nei)) [
  | inl f ↦ absurd (cc (ap is_some f, inside nei (contains_first nei l)))
  | inr (r, f) ↦
      let g₁ = insert nei (with_update r a) g in
      let e = bare-insert g nei r a up f in
      let (h, run, p) =
        push_loop_lem l a g₁ (Ascending-insert g nei (with_update r a) up)
          (λ u c. known_bare g g₁ u e (inside u (contains_weaken u nei l c))) in
      (
        h,
        push_run nei l a g r (done h) f run,
        record {
          ascending = p.ascending;
          same = p.same ∙ e;
          told = λ u s fs.
              let (t, ft, old) = p.told u s fs in
              elim (entry-insert g nei (with_update r a) u t ft) [
                | inl (q, same) ↦ (
                  r,
                  sym (ap (find g) q) ∙ f,
                  IsTold-first l a u nei r s q
                      (subst (λ (z : Router). IsTold l a u z.updates s.updates) (sym same) old),
                )
                | inr (ne, fo) ↦ (
                  t,
                  fo,
                  record {
                    keeps = old.keeps;
                    sources = λ b x. elim (old.sources b x) [
                      | inl y ↦ inl y
                      | inr (y, c) ↦ inr (y, contains_weaken u nei l c)
                    ];
                    tells = λ c. old.tells (sym (contains_later u nei l ne) ∙ c);
                  },
                )
              ];
        },
      )
]
