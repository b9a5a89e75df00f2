-- ===== src/Routing/DistVec/Results.antt =====
-- `print_results` of mp3/src/distvec.cpp on the network that the rounds leave.
use networking_learning.Base.{
  ℕ, suc, ◌≡◌, ◌∙◌, ap, sym, refl, inl, inr, true, false, List, [], ◌∷◌, ◌++◌, drop, length, Option,
  arith, done, Bool-cases, leb, eq_or_ne, lt_or_le,
}
use networking_learning.Routing.Map.{
  Map, find, find_nil, find_first, find_later, find-Above, Ascending, Ascending-tail,
}
use networking_learning.Routing.Line.{str_split, id_of}
use networking_learning.Routing.LinkState.{Graph, is_some}
use networking_learning.Routing.LinkState.Output.{print_words}
use networking_learning.Routing.LinkState.Paths.{cost, IsGraph}
use networking_learning.Routing.DistVec.{Network, keys}
use networking_learning.Routing.DistVec.Learning.{IsLearned}
use networking_learning.Routing.DistVec.Output.{
  print_message, print_messages, print_results, print_tables,
}
use networking_learning.Routing.DistVec.Reading.{tables_text}
use networking_learning.Routing.DistVec.Kept.{print_tables_lem}
use networking_learning.Routing.DistVec.Messages.{IsMessage, Names, print_message_lem}

-- The lines name two nodes each.
abbrev pub AllName : Network → List (List ℕ) → Type 0
AllName h [] = Unit
AllName h (line ∷ lines) = Names h line × AllName h lines

pub AllName-more :
    (h j : Network) (lines : List (List ℕ))
    → ((x : ℕ) → is_some (find h x) ≡ true → is_some (find j x) ≡ true)
    → AllName h lines
    → AllName j lines
AllName-more h j [] more n = tt
AllName-more h j (line ∷ lines) more (n, ns) = (
  record {
    first = n.first;
    second = n.second;
    node1 = n.node1;
    node2 = n.node2;
    word1 = n.word1;
    read1 = n.read1;
    word2 = n.word2;
    read2 = n.read2;
    known1 = more (id_of n.node1) n.known1;
    known2 = more (id_of n.node2) n.known2;
  },
  AllName-more h j lines more ns,
)

-- What is written for the messages.
abbrev pub AreMessages :
    Graph → (h : Network) → (lines : List (List ℕ)) → AllName h lines → List ℕ → Type 0
AreMessages g h [] n text = text ≡ []
AreMessages g h (line ∷ lines) (n, ns) text =
    (out rest : List ℕ) × (text ≡ out ++ rest)
    × IsMessage g (id_of n.node1) (id_of n.node2) (print_words (drop 2 (str_split line))) out
    × AreMessages g h lines ns rest

messages_step :
    (h : Network) (line : List ℕ) (lines : List (List ℕ)) (out rest : List ℕ)
    → print_message h line ≡ done (h, out)
    → print_messages h lines ≡ done (h, rest)
    → print_messages h (line ∷ lines) ≡ done (h, out ++ rest)
unfolding print_messages
messages_step h line lines out rest e f = rw (e, f) refl

print_messages_lem :
    (g : Graph) (h : Network)
    → IsGraph g
    → IsLearned g h
    → (lines : List (List ℕ)) (n : AllName h lines)
    → (text : List ℕ) × (print_messages h lines ≡ done (h, text)) × AreMessages g h lines n text
unfolding print_messages
print_messages_lem g h valid learned [] n = ([], refl, refl)
print_messages_lem g h valid learned (line ∷ lines) (n, ns) =
    let (out, run, is) = print_message_lem g valid h learned line n in
    let (rest, runs, are) = print_messages_lem g h valid learned lines ns in
    (out ++ rest, messages_step h line lines out rest run runs, (out, rest, refl, is, are))

-- Maps in order with the same keys have the same length.
pub length_same :
    {V W : Type 0} (m : Map V) (n : Map W)
    → Ascending m
    → Ascending n
    → ((x : ℕ) → is_some (find m x) ≡ is_some (find n x))
    → length m ≡ length n
length_same [] [] a b k = refl
length_same {V} [] ((y, w) ∷ n) a b k =
    absurd (cc (k y, ap is_some (find_first n y w), ap is_some (find_nil {V = V} y)))
length_same {W = W} ((x, v) ∷ m) [] a b k =
    absurd (cc (k x, ap is_some (find_first m x v), ap is_some (find_nil {V = W} x)))
length_same ((x, v) ∷ m) ((y, w) ∷ n) a b k = elim (eq_or_ne x y) [
  | inl q ↦ ap suc (
      length_same m n (Ascending-tail m x a) (Ascending-tail n y b) (λ z. elim (eq_or_ne x z) [
        | inl p ↦
            ap is_some (find-Above m x z a (omega (arith, p)))
            ∙ sym (ap is_some (find-Above n y z b (omega (arith, p, q))))
        | inr ne ↦
            ap is_some (sym (find_later m x v z ne))
            ∙ k z
            ∙ ap is_some (find_later n y w z (λ p. ne (q ∙ p)))
      ]))
  | inr ne ↦ elim (lt_or_le x y) [
    | inl l ↦ absurd (
        cc (
          k x,
          ap is_some (find_first m x v),
          ap is_some (find_later n y w x (λ p. ne (sym p)) ∙ find-Above n y x b (omega (arith, l))),
        ))
    | inr l ↦ absurd (
        cc (
          k y,
          ap is_some (find_first n y w),
          ap is_some (find_later m x v y ne ∙ find-Above m x y a (omega (arith, l))),
        ))
  ]
]

-- What is written after a round: the tables of a network that knows the graph, and with 8 nodes or more
-- the messages; the costs of the graph are given.
pub record IsResults (costs : ℕ → ℕ → Option ℕ) (messages : List (List ℕ)) (text : List ℕ)
    : Type 0 where
  pub g : Graph
  pub graph : IsGraph g
  pub edges : (x y : ℕ) → cost g x y ≡ costs x y
  pub net : Network
  pub learned : IsLearned g net
  pub after : Network
  pub names : AllName after messages
  pub sent : List ℕ
  pub text_is : text ≡ tables_text (keys net) net ++ sent
  pub few : leb 8 (length net) ≡ false → sent ≡ []
  pub many : leb 8 (length net) ≡ true → AreMessages g after messages names sent

results-few :
    (h : Network) (messages : List (List ℕ))
    → leb 8 (length h) ≡ false
    → print_results h messages ≡ done (print_tables (keys h) h)
unfolding print_results
results-few h messages e = rw e refl

results-many :
    (h j : Network) (messages : List (List ℕ)) (tables text : List ℕ)
    → leb 8 (length h) ≡ true
    → print_tables (keys h) h ≡ (j, tables)
    → print_messages j messages ≡ done (j, text)
    → print_results h messages ≡ done (j, tables ++ text)
unfolding print_results
results-many h j messages tables text e t run = rw (e, t, run) refl

append_nil : (l : List ℕ) → l ++ [] ≡ l
append_nil [] = refl
append_nil (a ∷ l) = ap (λ m. a ∷ m) (append_nil l)

-- On the network that the rounds leave over a well-formed graph, where the messages are between its
-- nodes, `print_results` returns; it writes the tables, and the messages if there are 8 nodes or more,
-- and the network that it leaves still knows the graph.
pub print_results_lem :
    (g : Graph) (h : Network) (messages : List (List ℕ))
    → IsGraph g
    → IsLearned g h
    → AllName h messages
    → (j : Network) × (text : List ℕ) × (print_results h messages ≡ done (j, text))
      × IsLearned g j
      × IsResults (cost g) messages text
print_results_lem g h messages valid learned names =
    let (tables, line, kept) = print_tables_lem g h learned in
    let j = (print_tables (keys h) h).0 in
    let names_j =
      AllName-more h j messages (λ x i. kept.nodes x ∙ sym (learned.nodes x) ∙ i) names in
    elim (Bool-cases (leb 8 (length h))) [
      | inl e ↦
          let (text, run, are) = print_messages_lem g j valid kept messages names_j in
          (
            j,
            tables_text (keys h) h ++ text,
            results-many h j messages (tables_text (keys h) h) text e (ap (λ t. (j, t)) tables) run,
            kept,
            record {
              g = g;
              graph = valid;
              edges = λ x y. refl;
              net = h;
              learned = learned;
              after = j;
              names = names_j;
              sent = text;
              text_is = refl;
              few = λ f. absurd (cc (e, f));
              many = λ f. are;
            },
          )
      | inr e ↦ (
        j,
        tables_text (keys h) h,
        results-few h messages e ∙ ap (λ t. done (j, t)) tables,
        kept,
        record {
          g = g;
          graph = valid;
          edges = λ x y. refl;
          net = h;
          learned = learned;
          after = j;
          names = names_j;
          sent = [];
          text_is = sym (append_nil (tables_text (keys h) h));
          few = λ f. refl;
          many = λ f. absurd (cc (e, f));
        },
      )
    ]
