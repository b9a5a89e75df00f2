-- ===== src/Routing/DistVec/Settling.antt =====
-- `build_nodes_forwarding_tables` of mp3/src/distvec.cpp ends, and leaves a settled network.
use networking_learning.Base.{
  ℕ, zero, suc, ◌+◌, ◌*◌, ◌≤◌, ◌<◌, ◌≡◌, ◌∙◌, ap, subst, sym, refl, inl, inr, true, false, List, [],
  ◌∷◌, length, Option, none, some, arith, done, ℕ-cases, All, lt→ltb, le→ltb,
}
use networking_learning.Routing.Map.{find}
use networking_learning.Routing.LinkState.{Graph, is_some, contains, int_max}
use networking_learning.Routing.LinkState.Paths.{cost, IsGraph}
use networking_learning.Routing.DistVec.{
  Router, Network, start_vector, rounds, keys, rounds_bound, build_nodes_forwarding_tables,
  exchange,
}
use networking_learning.Routing.DistVec.Vectors.{far, far_of, hop_of, rank}
use networking_learning.Routing.DistVec.Pushing.{bare}
use networking_learning.Routing.DistVec.Sending.{send_all_lem, keys_found}
use networking_learning.Routing.DistVec.Networks.{
  IsRouter, IsNetwork, All-find, length-bare, budget,
}
use networking_learning.Routing.DistVec.Stepping.{Stepped, total, row, update_all_lem}
use networking_learning.Routing.DistVec.Rounds.{
  IsSettled, neighbours_inside, quiet-IsSettled, sent-router, step-IsNetwork, Quiet-IsSettled,
  exchange-stop, exchange-update, rounds-stop, rounds-more,
}

total-bare : (xs : List ℕ) (net : Network) → total xs (bare net) ≡ total xs net
total-bare xs [] = refl
total-bare xs ((k, r) ∷ net) = ap (λ n. row xs (start_vector r) + n) (total-bare xs net)

length-Stepped :
    (g : Graph) (limit : ℕ → ℕ) (h i : Network) → Stepped g limit h i → length i ≡ length h
length-Stepped g limit [] [] s = refl
length-Stepped g limit [] ((k, r) ∷ i) s = absurd s
length-Stepped g limit ((k, r) ∷ h) [] s = absurd s
length-Stepped g limit ((k, r) ∷ h) ((k', r') ∷ i) (e, s, t) = ap suc (length-Stepped g limit h i t)

module _ (g : Graph) (valid : IsGraph g) (c : ℕ) (costs : (x y w : ℕ) → cost g x y ≡ some w → w ≤ c)
    (small : (x : ℕ) → is_some (find g x) ≡ true → x < 4294967296) (xs : List ℕ)
    (inside : (x : ℕ) → is_some (find g x) ≡ true → contains x xs ≡ true) where
  -- A round settles the network, or lowers the total of the ranks.
  data IsExchange (net : Network) : Type 0 where
    settles : (h : Network) → exchange net ≡ done (h, false) → IsSettled g c h → IsExchange net
    lowers :
        (i : Network)
        → exchange net ≡ done (i, true)
        → IsNetwork g c i
        → length i ≡ length net
        → total xs i < total xs net
        → IsExchange net

  exchange_lem : (net : Network) → IsNetwork g c net → c * length net < int_max → IsExchange net
  exchange_lem net is_net fits =
      let inner = neighbours_inside g valid c costs small net is_net fits in
      let (h, count, run, sent, quiet) = send_all_lem net inner is_net.ascending is_net.idle in
      let same = sent.same in
      let len_h : length h ≡ length net = sym (length-bare h) ∙ ap length same ∙ length-bare net in
      let total_h : total xs h ≡ total xs net =
        sym (total-bare xs h) ∙ ap (total xs) same ∙ total-bare xs net in
      elim (ℕ-cases count) [
        | inl z ↦
            settles h (exchange-stop net h count run z)
              (quiet-IsSettled g valid c costs small net is_net fits h sent (quiet z))
        | inr p ↦
            let (i, changes, run_i, r) =
              update_all_lem g valid (budget c net) xs inside h sent.ascending
                (sent-router g valid c costs small net is_net fits h sent) in
            let is_i = step-IsNetwork g valid c costs small net is_net fits h sent i r.stepped in
            let len : length i ≡ length net =
              length-Stepped g (budget c net) h i r.stepped ∙ len_h in
            elim (ℕ-cases changes) [
              | inl z ↦
                  settles i
                    (exchange-update net h i count changes run p run_i
                      ∙ ap (λ b. done (i, b)) (le→ltb 0 changes (omega (arith, z))))
                    (Quiet-IsSettled g c i is_i (subst (λ n. c * n < int_max) (sym len) fits)
                      (r.at_zero z))
              | inr q ↦
                  lowers i
                    (exchange-update net h i count changes run p run_i
                      ∙ ap (λ b. done (i, b)) (lt→ltb 0 changes q))
                    is_i len (let lt = r.total_lt q in omega (arith, lt, total_h))
            ]
      ]

  rounds_lem :
      (fuel : ℕ) (net : Network)
      → IsNetwork g c net
      → c * length net < int_max
      → total xs net < fuel
      → (h : Network) × (rounds fuel net ≡ done h) × IsSettled g c h
  rounds_lem zero net is_net fits l = absurd (omega (arith, l))
  rounds_lem (suc fuel) net is_net fits l = elim (exchange_lem net is_net fits) [
    | settles h run s ↦ (h, rounds-stop fuel net h run, s)
    | lowers i run is_i len lt ↦
        let (h, run', s) =
          rounds_lem fuel i is_i (subst (λ n. c * n < int_max) (sym len) fits)
            (omega (arith, l, lt)) in
        (h, rounds-more fuel net i run ∙ run', s)
  ]

far_le : (o : Option ℕ) → ((d : ℕ) → o ≡ some d → d ≤ int_max) → far_of o ≤ int_max
far_le none h = omega arith
far_le (some d) h = h d refl

hop_lt : (o : Option ℕ) → ((h : ℕ) → o ≡ some h → h < 4294967296) → hop_of o < 4294967296
hop_lt none h = omega arith
hop_lt (some k) h = h k refl

pub far-IsVector :
    (g : Graph) (u : ℕ) (r : Router) (x : ℕ) → IsRouter g u r → far r.distance_to x ≤ int_max
far-IsVector g u r x v = let vector = v.vector in far_le (find r.distance_to x) (vector.bounded x)

rank-lt :
    (g : Graph) (u : ℕ) (r : Router) (x : ℕ)
    → IsRouter g u r
    → rank (start_vector r) x < 9223372036854775808
rank-lt g u r x v =
    let vector = v.vector in
    omega (
      arith,
      far_le (find r.distance_to x) (vector.bounded x),
      hop_lt (find r.node.forwarding_table x) (vector.small x),
    )

row_bound :
    (xs : List ℕ) (r : Router)
    → ((x : ℕ) → rank (start_vector r) x < 9223372036854775808)
    → row xs (start_vector r) ≤ 9223372036854775808 * length xs
row_bound [] r h = omega arith
row_bound (x ∷ xs) r h = omega (arith, row_bound xs r h, h x)

mul_step : (n m : ℕ) → suc n * m ≡ m + n * m
mul_step n m = grind arith

total_bound :
    (xs : List ℕ) (net : Network)
    → All (λ (p : ℕ × Router). (x : ℕ) → rank (start_vector p.1) x < 9223372036854775808) net
    → total xs net ≤ 9223372036854775808 * (length net * length xs)
total_bound xs [] h = omega arith
total_bound xs ((k, r) ∷ net) h =
    omega (arith, row_bound xs r h.0, total_bound xs net h.1, mul_step (length net) (length xs))

length-keys : (net : Network) → length (keys net) ≡ length net
length-keys [] = refl
length-keys ((k, r) ∷ net) = ap suc (length-keys net)

-- If n nodes with costs of at most `c` have c * n below INT_MAX, the rounds end and nothing is left to
-- tell between neighbours.
pub rounds-IsSettled :
    (g : Graph) (c : ℕ) (net : Network)
    → IsGraph g
    → ((x y w : ℕ) → cost g x y ≡ some w → w ≤ c)
    → ((x : ℕ) → is_some (find g x) ≡ true → x < 4294967296)
    → IsNetwork g c net
    → c * length net < int_max
    → (h : Network) × (build_nodes_forwarding_tables net ≡ done h) × IsSettled g c h
unfolding build_nodes_forwarding_tables
rounds-IsSettled g c net valid costs small is_net fits =
    let xs = keys net in
    let bound = total_bound xs net (
      All-find (λ u r. (x : ℕ) → rank (start_vector r) x < 9223372036854775808) net is_net.ascending
        (λ u r f x. rank-lt g u r x (is_net.router u r f))) in
    let len = length-keys net in
    rounds_lem g valid c costs small xs (λ x i. keys_found net x (is_net.nodes x ∙ i))
      (rounds_bound net) net is_net fits (omega (arith, bound, ap (λ n. length net * n) len))
