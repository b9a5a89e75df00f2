-- ===== src/Routing/DistVec/Sending.antt =====
-- The first loop of a round of mp3/src/distvec.cpp: what the nodes are told.
use networking_learning.Base.{
  ℕ, ◌≤◌, ◌≡◌, ◌∙◌, ap, subst, sym, refl, inl, inr, Bool, true, false, List, [], ◌∷◌, Option, none,
  some, arith, Proc, done, Bool-cases, eq_or_ne,
}
use networking_learning.Routing.Map.{
  Map, find, find_nil, find_first, find_later, some_inj, Option-cases, Ascending,
}
use networking_learning.Routing.LinkState.{Node, is_some, contains}
use networking_learning.Routing.DistVec.{
  Router, Network, push_loop, send_update, send_all, is_cons, count_if, keys,
}
use networking_learning.Routing.DistVec.Updating.{Has}
use networking_learning.Routing.DistVec.Pushing.{
  bare, find-bare, known_bare, push_loop_lem, silent, silent_of,
}
use networking_learning.Routing.DistVec.Members.{contains_later, contains_first, contains_weaken}

abbrev pub vector_of : Router → ℕ × Map ℕ
vector_of r = (r.node.id, r.distance_to)

-- Part of the first loop: the nodes of `rest` are still to send.
record IsSending (g : Network) (rest : List ℕ) (h : Network) : Type 0 where
  ascending : Ascending h
  same : bare h ≡ bare g
  sources :
      (u : ℕ) (s : Router) (b : ℕ × Map ℕ)
      → find h u ≡ some s
      → Has b s.updates
      → (v : ℕ) × (r : Router) × (find g v ≡ some r)
        × (vector_of r ≡ b)
        × (r.be_updated ≡ true)
        × (contains u r.node.neibours ≡ true)
  sends :
      (v : ℕ) (r : Router)
      → find g v ≡ some r
      → r.be_updated ≡ true
      → contains v rest ≡ false
      → (u : ℕ) (s : Router) → contains u r.node.neibours ≡ true
      → find h u ≡ some s
      → Has (vector_of r) s.updates

pub silent-eq :
    (r s : Router)
    → silent r ≡ silent s
    → (r.node ≡ s.node) × (r.distance_to ≡ s.distance_to) × (r.be_updated ≡ s.be_updated)
silent-eq r s e = (
  ap (λ (z : Router). z.node) e,
  ap (λ (z : Router). z.distance_to) e,
  ap (λ (z : Router). z.be_updated) e,
)

-- The same node in two networks that differ in what waits at the nodes.
pub bare-found :
    (g h : Network) (u : ℕ) (s : Router)
    → bare h ≡ bare g
    → find h u ≡ some s
    → (r : Router) × (find g u ≡ some r) × (silent s ≡ silent r)
bare-found g h u s e f = elim (Option-cases (find g u)) [
  | inl f' ↦ absurd (
      cc (
        sym (ap silent_of f)
        ∙ sym (find-bare h u)
        ∙ ap (λ m. find m u) e
        ∙ find-bare g u
        ∙ ap silent_of f'))
  | inr (r, f') ↦ (
    r,
    f',
    some_inj (
        sym (ap silent_of f)
        ∙ sym (find-bare h u)
        ∙ ap (λ m. find m u) e
        ∙ find-bare g u
        ∙ ap silent_of f'),
  )
]

send_quiet : (r : Router) (g : Network) → r.be_updated ≡ false → send_update r g ≡ done (false, g)
unfolding send_update
send_quiet r g e = rw e refl

send_push :
    (r : Router) (g h : Network)
    → r.be_updated ≡ true
    → push_loop r.node.neibours (vector_of r) g ≡ done h
    → send_update r g ≡ done (is_cons r.node.neibours, h)
unfolding send_update
send_push r g h e run = rw (e, run) refl

module _ (g : Network)
    (inside : (v : ℕ) (r : Router)
      → find g v ≡ some r
      → (u : ℕ) → contains u r.node.neibours ≡ true
      → is_some (find g u) ≡ true) where
  send_one :
      (k : ℕ) (rest : List ℕ) (h : Network) (s : Router)
      → find h k ≡ some s
      → IsSending g (k ∷ rest) h
      → (b : Bool) × (i : Network) × (send_update s h ≡ done (b, i))
        × IsSending g rest i
        × (b ≡ false → s.be_updated ≡ true → is_cons s.node.neibours ≡ false)
  send_one k rest h s f is_s =
      let (r, fr, e) = bare-found g h k s is_s.same f in
      let (same_node, same_dist, same_flag) = silent-eq s r e in
      let same_vector : vector_of s ≡ vector_of r =
        ap (λ (z : Router). (z.node.id, z.distance_to)) e in
      elim (Bool-cases s.be_updated) [
        | inr quiet ↦ (
          false,
          h,
          send_quiet s h quiet,
          record {
            ascending = is_s.ascending;
            same = is_s.same;
            sources = is_s.sources;
            sends = λ v t ft flag done_v. elim (eq_or_ne k v) [
              | inl q ↦
                  let same_r : r ≡ t = some_inj (sym fr ∙ ap (find g) q ∙ ft) in
                  absurd (cc (flag, ap (λ (z : Router). z.be_updated) same_r, same_flag, quiet))
              | inr ne ↦ is_s.sends v t ft flag (contains_later v k rest ne ∙ done_v)
            ];
          },
          λ b flag. absurd (cc (flag, quiet)),
        )
        | inl flag ↦
            let (i, run, p) = push_loop_lem s.node.neibours (vector_of s) h is_s.ascending (λ u c.
              known_bare g h u is_s.same
                (inside k r fr u (ap (λ (z : Node). contains u z.neibours) (sym same_node) ∙ c))) in
            (
              is_cons s.node.neibours,
              i,
              send_push s h i flag run,
              record {
                ascending = p.ascending;
                same = p.same ∙ is_s.same;
                sources = λ u t b ft has.
                    let (t', ft', told) = p.told u t ft in
                    elim (told.sources b has) [
                      | inl old ↦ is_s.sources u t' b ft' old
                      | inr (q, c) ↦ (
                        k,
                        r,
                        fr,
                        sym same_vector ∙ q,
                        sym same_flag ∙ flag,
                        ap (λ (z : Node). contains u z.neibours) (sym same_node) ∙ c,
                      )
                    ];
                sends = λ v t ft flag_t done_v u t' c ft'.
                    let (t'', ft'', told) = p.told u t' ft' in
                    elim (eq_or_ne k v) [
                      | inl q ↦
                          let same_r : r ≡ t = some_inj (sym fr ∙ ap (find g) q ∙ ft) in
                          subst (λ z. Has z t'.updates) (same_vector ∙ ap vector_of same_r)
                            (told.tells (
                              ap (λ (z : Node). contains u z.neibours) same_node
                              ∙ ap (λ (z : Router). contains u z.node.neibours) same_r
                              ∙ c))
                      | inr ne ↦ told.keeps (vector_of t) (
                          is_s.sends v t ft flag_t (contains_later v k rest ne ∙ done_v) u t'' c
                            ft'')
                    ];
              },
              λ b flag'. b,
            )
      ]

  step_run :
      (k : ℕ) (rest : List ℕ) (h i : Network) (c : ℕ) (s : Router) (b : Bool)
      (p : Proc (Network × ℕ))
      → find h k ≡ some s
      → send_update s h ≡ done (b, i)
      → send_all rest i (count_if b c) ≡ p
      → send_all (k ∷ rest) h c ≡ p
  unfolding send_all
  step_run k rest h i c s b p f e run = rw (f, e) run

  send_all_from :
      (rest : List ℕ) (h : Network) (c : ℕ)
      → IsSending g rest h
      → ((k : ℕ) → contains k rest ≡ true → is_some (find g k) ≡ true)
      → (i : Network) × (c' : ℕ) × (send_all rest h c ≡ done (i, c'))
        × IsSending g [] i
        × (c ≤ c')
        × (c' ≡ c
            → (v : ℕ) (r : Router) → contains v rest ≡ true
            → find g v ≡ some r
            → r.be_updated ≡ true
            → is_cons r.node.neibours ≡ false)
  unfolding send_all
  send_all_from [] h c is_s known = (h, c, refl, is_s, omega arith, λ e v r m. absurd (cc m))
  send_all_from (k ∷ rest) h c is_s known = elim (Option-cases (find h k)) [
    | inl f ↦
        absurd (cc (ap is_some f, known_bare g h k is_s.same (known k (contains_first k rest))))
    | inr (s, f) ↦
        let (b, i, run, is_s', alone) = send_one k rest h s f is_s in
        let (j, c', run', is_s'', le, quiet) =
          send_all_from rest i (count_if b c) is_s' (λ v m. known v (contains_weaken v k rest m)) in
        (
          j,
          c',
          step_run k rest h i c s b (done (j, c')) f run run',
          is_s'',
          count_le b c c' le,
          λ e v r m fr flag.
              let none_sent : b ≡ false = count_same b c c' le e in
              elim (eq_or_ne k v) [
                | inl q ↦
                    let (r', fr', es) = bare-found g h k s is_s.same f in
                    let same_r : r' ≡ r = some_inj (sym fr' ∙ ap (find g) q ∙ fr) in
                    let back : silent s ≡ silent r = es ∙ ap silent same_r in
                    let (same_node, same_dist, same_flag) = silent-eq s r back in
                    ap (λ (z : Node). is_cons z.neibours) (sym same_node)
                    ∙ alone none_sent (same_flag ∙ flag)
                | inr ne ↦
                    quiet (count_none b c c' none_sent e) v r (sym (contains_later v k rest ne) ∙ m)
                      fr flag
              ],
        )
  ]
    where
      count_le : (b : Bool) (c c' : ℕ) → count_if b c ≤ c' → c ≤ c'
      count_le true c c' l = omega (arith, l)
      count_le false c c' l = l

      count_same : (b : Bool) (c c' : ℕ) → count_if b c ≤ c' → c' ≡ c → b ≡ false
      count_same true c c' l e = absurd (omega (arith, l, e))
      count_same false c c' l e = refl

      count_none : (b : Bool) (c c' : ℕ) → b ≡ false → c' ≡ c → c' ≡ count_if b c
      count_none true c c' n e = absurd (cc n)
      count_none false c c' n e = e

  keys-find : (m : Network) (v : ℕ) (r : Router) → find m v ≡ some r → contains v (keys m) ≡ true
  keys-find [] v r f = absurd (cc (f, find_nil {V = Router} v))
  keys-find ((k, s) ∷ m) v r f = elim (eq_or_ne k v) [
    | inl q ↦ subst (λ z. contains z (k ∷ keys m) ≡ true) q (contains_first k (keys m))
    | inr ne ↦ contains_weaken v k (keys m) (keys-find m v r (sym (find_later m k s v ne) ∙ f))
  ]

  find-keys : (m : Network) (v : ℕ) → contains v (keys m) ≡ true → is_some (find m v) ≡ true
  find-keys [] v c = absurd (cc c)
  find-keys ((k, s) ∷ m) v c = elim (eq_or_ne k v) [
    | inl q ↦ subst (λ z. is_some (find ((k, s) ∷ m) z) ≡ true) q (ap is_some (find_first m k s))
    | inr ne ↦
        ap is_some (find_later m k s v ne)
        ∙ find-keys m v (sym (contains_later v k (keys m) ne) ∙ c)
  ]

  -- The first loop leaves every node as it is, but for the vectors that wait there: those of the
  -- neighbours that have changed.
  pub record IsSent (h : Network) : Type 0 where
    pub ascending : Ascending h
    pub same : bare h ≡ bare g
    pub sources :
        (u : ℕ) (s : Router) (b : ℕ × Map ℕ)
        → find h u ≡ some s
        → Has b s.updates
        → (v : ℕ) × (r : Router) × (find g v ≡ some r)
          × (vector_of r ≡ b)
          × (r.be_updated ≡ true)
          × (contains u r.node.neibours ≡ true)
    pub sends :
        (v : ℕ) (r : Router)
        → find g v ≡ some r
        → r.be_updated ≡ true
        → (u : ℕ) (s : Router) → contains u r.node.neibours ≡ true
        → find h u ≡ some s
        → Has (vector_of r) s.updates

  pub send_all_lem :
      Ascending g
      → ((v : ℕ) (r : Router) → find g v ≡ some r → r.updates ≡ [])
      → (h : Network) × (c : ℕ) × (send_all (keys g) g 0 ≡ done (h, c))
        × IsSent h
        × (c ≡ 0
            → (v : ℕ) (r : Router) → find g v ≡ some r
            → r.be_updated ≡ true
            → is_cons r.node.neibours ≡ false)
  send_all_lem up idle =
      let (h, c, run, s, le, quiet) =
        send_all_from (keys g) g 0
          (record {
            ascending = up;
            same = refl;
            sources = λ u s b f has. absurd (subst (Has b) (idle u s f) has);
            sends = λ v r f flag m. absurd (cc (m, keys-find g v r f));
          })
          (find-keys g) in
      (
        h,
        c,
        run,
        record {
          ascending = s.ascending;
          same = s.same;
          sources = s.sources;
          sends = λ v r f flag u t c' f'. s.sends v r f flag refl u t c' f';
        },
        λ e v r f flag. quiet e v r (keys-find g v r f) f flag,
      )

pub is_some-bare :
    (g h : Network) (u : ℕ) → bare h ≡ bare g → is_some (find h u) ≡ is_some (find g u)
is_some-bare g h u e =
    sym (is_some_silent (find h u))
    ∙ ap is_some (sym (find-bare h u) ∙ ap (λ m. find m u) e ∙ find-bare g u)
    ∙ is_some_silent (find g u)
  where
    is_some_silent : (o : Option Router) → is_some (silent_of o) ≡ is_some o
    is_some_silent none = refl
    is_some_silent (some r) = refl

pub keys_found : (m : Network) (v : ℕ) → is_some (find m v) ≡ true → contains v (keys m) ≡ true
keys_found [] v i = absurd (cc (i, ap is_some (find_nil {V = Router} v)))
keys_found ((k, s) ∷ m) v i = elim (eq_or_ne k v) [
  | inl q ↦ subst (λ z. contains z (k ∷ keys m) ≡ true) q (contains_first k (keys m))
  | inr ne ↦
      contains_weaken v k (keys m) (keys_found m v (sym (ap is_some (find_later m k s v ne)) ∙ i))
]
