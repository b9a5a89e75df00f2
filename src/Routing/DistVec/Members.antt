-- ===== src/Routing/DistVec/Members.antt =====
-- `contains`, the search of mp3/src in a vector of ids, on a longer list.
use networking_learning.Base.{
  ℕ, ◌≡◌, ◌≢◌, inl, inr, true, refl, List, ◌∷◌, Bool-cases, ◌==◌, eq→==, ne→==,
}
use networking_learning.Routing.LinkState.{contains}

pub contains_later : (u k : ℕ) (l : List ℕ) → k ≢ u → contains u (k ∷ l) ≡ contains u l
contains_later u k l ne = rw (ne→== k u ne) refl

pub contains_first : (k : ℕ) (l : List ℕ) → contains k (k ∷ l) ≡ true
contains_first k l = rw (eq→== k k refl) refl

pub contains_weaken : (u k : ℕ) (l : List ℕ) → contains u l ≡ true → contains u (k ∷ l) ≡ true
contains_weaken u k l h = elim (Bool-cases (k == u)) [ inl e ↦ rw e refl | inr e ↦ rw e h ]
