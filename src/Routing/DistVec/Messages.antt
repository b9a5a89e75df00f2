-- ===== src/Routing/DistVec/Messages.antt =====
-- `print_messages` of mp3/src/distvec.cpp, on the network that the rounds leave.
use networking_learning.Base.{
  ℕ, ◌<◌, ◌≡◌, ◌≢◌, ◌∙◌, ap, subst, sym, refl, ◌⊎◌, inl, inr, true, List, [], ◌∷◌, ◌++◌, drop, some,
  arith, done, eq_or_ne, eq→==, ne→==, Bool-cases, ltb, ltb→lt,
}
use networking_learning.Http.CString.{ℤ, bytes}
use networking_learning.Http.Response.{print_int}
use networking_learning.Routing.Map.{
  find, insert, find_first, find_later, find_nil, find-Above, some_inj, Option-cases, Ascending,
  Ascending-tail,
}
use networking_learning.Routing.Line.{str_split, stoi, id_of, word}
use networking_learning.Routing.LinkState.{Graph, is_some, int_max}
use networking_learning.Routing.LinkState.Output.{print_words}
use networking_learning.Routing.LinkState.Paths.{Walk, IsDistance, IsGraph}
use networking_learning.Routing.DistVec.{Router, Network, cost_at}
use networking_learning.Routing.DistVec.Learning.{IsLearned}
use networking_learning.Routing.DistVec.Output.{
  next_hops, print_hops, message_head, read_distance, send_message, print_message,
}
use networking_learning.Routing.DistVec.Printing.{IsWay, next_hops_lem, hops_loop-last, router_id}
use networking_learning.Routing.DistVec.Reading.{touch_cost_there, cost_at-find}

insert-found :
    (m : Network) (k : ℕ) (r : Router) → Ascending m → find m k ≡ some r → insert k r m ≡ m
unfolding insert
insert-found [] k r up f = absurd (cc (f, find_nil {V = Router} k))
insert-found ((b, s) ∷ m) k r up f = elim (eq_or_ne b k) [
  | inl q ↦
      let same : s ≡ r = some_inj (sym (find_first m b s) ∙ ap (find ((b, s) ∷ m)) q ∙ f) in
      rw (eq→== b k q) (ap (λ z. (z, r) ∷ m) (sym q) ∙ ap (λ t. (b, t) ∷ m) (sym same))
  | inr ne ↦
      let later = sym (find_later m b s k ne) ∙ f in
      elim (Bool-cases (ltb k b)) [
        | inl lt ↦ let l = ltb→lt k b lt in absurd (cc (later, find-Above m b k up (omega arith)))
        | inr ge ↦
            rw (ne→== b k ne, ge)
              (ap (λ n. (b, s) ∷ n) (insert-found m k r (Ascending-tail m b up) later))
      ]
]

-- What is written for a message: no walk leads there, or the distance and the nodes of a shortest way,
-- without the last; for a message to itself, the node.
pub data IsMessage (g : Graph) (from to : ℕ) (message text : List ℕ) : Type 0 where
  lost :
      text ≡ message_head from to ++ bytes " cost infinite hops unreachable message" ++ message
      → ((e : ℕ) → ¬ Walk g from to e)
      → IsMessage g from to message text
  sent :
      (hops : List ℕ) (d : ℕ)
      → text
        ≡ message_head from to
          ++ bytes " cost "
          ++ print_int d
          ++ bytes " hops "
          ++ print_hops hops
          ++ bytes "message"
          ++ message
      → IsDistance g from to d
      → IsWay g to from hops d ⊎ (from ≡ to) × (hops ≡ from ∷ [])
      → IsMessage g from to message text

-- The line names two nodes of the network.
pub record Names (h : Network) (line : List ℕ) : Type 0 where
  pub first : List ℕ
  pub second : List ℕ
  pub node1 : ℤ
  pub node2 : ℤ
  pub word1 : word (str_split line) 0 ≡ done first
  pub read1 : stoi first ≡ done node1
  pub word2 : word (str_split line) 1 ≡ done second
  pub read2 : stoi second ≡ done node2
  pub known1 : is_some (find h (id_of node1)) ≡ true
  pub known2 : is_some (find h (id_of node2)) ≡ true

read_distance-found :
    (h : Network) (from to : ℕ) (r : Router)
    → Ascending h
    → find h from ≡ some r
    → is_some (find r.distance_to to) ≡ true
    → read_distance h from to r ≡ h
read_distance-found h from to r up f i =
    ap (λ m. insert from (record r { distance_to = m }) h) (touch_cost_there r.distance_to to i)
    ∙ insert-found h from r up f

send_message-lost :
    (h : Network) (from to : ℕ) (message : List ℕ) (r : Router)
    → find h from ≡ some r
    → read_distance h from to r ≡ h
    → cost_at r.distance_to to ≡ int_max
    → send_message h from to message
      ≡ done (h, message_head from to ++ bytes " cost infinite hops unreachable message" ++ message)
unfolding send_message
send_message-lost h from to message r f same d = rw (f, same, d) refl

send_message-sent :
    (h : Network) (from to : ℕ) (message : List ℕ) (r : Router) (d : ℕ) (hops : List ℕ)
    → find h from ≡ some r
    → read_distance h from to r ≡ h
    → cost_at r.distance_to to ≡ d
    → d ≢ int_max
    → next_hops h from to ≡ done (h, hops)
    → send_message h from to message
      ≡ done (
        h,
        message_head from to
            ++ bytes " cost "
            ++ print_int d
            ++ bytes " hops "
            ++ print_hops hops
            ++ bytes "message"
            ++ message,
      )
unfolding send_message
send_message-sent h from to message r d hops f same fd ne run =
    rw (f, same, fd, ne→== d int_max ne, run) refl

self_hops :
    (h : Network) (u : ℕ) (r : Router)
    → find h u ≡ some r
    → find r.node.forwarding_table u ≡ some u
    → r.node.id ≡ u
    → next_hops h u u ≡ done (h, u ∷ [])
unfolding next_hops
self_hops h u r f home is_id =
    rw f (hops_loop-last 2147483646 h u r r u u [] home f is_id) ∙ ap (λ i. done (h, i ∷ [])) is_id

print_message_run :
    (h : Network) (line : List ℕ) (n : Names h line) (text : List ℕ)
    → send_message h (id_of n.node1) (id_of n.node2) (print_words (drop 2 (str_split line)))
      ≡ done (h, text)
    → print_message h line ≡ done (h, text)
unfolding print_message
print_message_run h line n text run = rw (n.word1, n.read1, n.word2, n.read2) run

module _ (g : Graph) (valid : IsGraph g) (h : Network) (learned : IsLearned g h) where
  pub send_message_lem :
      (from to : ℕ) (message : List ℕ)
      → is_some (find h from) ≡ true
      → is_some (find h to) ≡ true
      → (text : List ℕ) × (send_message h from to message ≡ done (h, text))
        × IsMessage g from to message text
  send_message_lem from to message k l = elim (Option-cases (find h from)) [
    | inl z ↦ absurd (cc (k, ap is_some z))
    | inr (r, f) ↦
        let informed = learned.informed from r f in
        let base = learned.base in
        let still = base.still from r f in
        let (d, fd, ld) = informed.complete to (sym (learned.nodes to) ∙ l) in
        let same = read_distance-found h from to r base.ascending f (ap is_some fd) in
        elim (eq_or_ne d int_max) [
          | inl q ↦ (
            _,
            send_message-lost h from to message r f same (cost_at-find r.distance_to to d fd ∙ q),
            lost refl (λ e. informed.unreached to e (fd ∙ ap some q)),
          )
          | inr ne ↦
              let less : d < int_max = omega (arith, ne, ld) in
              elim (eq_or_ne from to) [
                | inl q ↦
                    let run =
                      subst (λ z. next_hops h from z ≡ done (h, from ∷ [])) q
                        (self_hops h from r f still.home (router_id g valid h learned from r f)) in
                    (
                      _,
                      send_message-sent h from to message r d (from ∷ []) f same
                          (cost_at-find r.distance_to to d fd) ne run,
                      sent (from ∷ []) d refl (informed.reached to d fd less) (inr (q, refl)),
                    )
                | inr other ↦
                    let (hops, run, way, least) =
                      next_hops_lem g h from to d r valid learned f other fd less in
                    (
                      _,
                      send_message-sent h from to message r d hops f same
                          (cost_at-find r.distance_to to d fd) ne run,
                      sent hops d refl least (inl way),
                    )
              ]
        ]
  ]

  -- On the network that the rounds leave over a well-formed graph, the line of a message between two of
  -- its nodes is written and nothing is changed: infinite cost where no walk leads, or the distance and
  -- the nodes of a shortest way without the last; for a message to itself, the node.
  pub print_message_lem :
      (line : List ℕ) (n : Names h line)
      → (text : List ℕ) × (print_message h line ≡ done (h, text))
        × IsMessage g (id_of n.node1) (id_of n.node2) (print_words (drop 2 (str_split line))) text
  print_message_lem line n =
      let (text, run, is) =
        send_message_lem (id_of n.node1) (id_of n.node2) (print_words (drop 2 (str_split line)))
          n.known1 n.known2 in
      (text, print_message_run h line n text run, is)
