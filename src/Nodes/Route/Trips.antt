-- ===== src/Nodes/Route/Trips.antt =====
-- app/nodes/agent_nodes.py: the trip of one day, `_tour` and `_two_opt`.
use mathlib.Core.List.Perm
use mathlib.Core.List.{Perm, reverse, reverse_perm, head?}
use native.Mathlib.Numerals.{add-one}
use map_service_agent.Prelude.{
  ℕ, zero, suc, ◌+◌, ◌-◌, ◌≤◌, ◌≡◌, refl, Bool, true, false, Option, none, some, List, [], ◌∷◌,
  ◌++◌, length, get_elem?, take, drop, take-append-drop, range, arith, Bool-cases, inl, inr,
}
use map_service_agent.Value.{FloatOps}
use map_service_agent.Schema.Model.{Place}
use map_service_agent.Nodes.Route.{
  extract, reverse_between, nearest_index, nearest_tour, shorter, swap_between, try_swap,
  inner_loop, outer_loop, two_opt, max_rounds, tour_places,
}

pub extract-perm :
    (i : ℕ) (x : Place) (xs : List Place) → Perm ((extract i x xs).0 ∷ (extract i x xs).1) (x ∷ xs)
unfolding extract
extract-perm zero x xs = Perm.refl (x ∷ xs)
extract-perm (suc i) x [] = Perm.refl (x ∷ [])
extract-perm (suc i) x (y ∷ ys) =
    Perm.trans (Perm.swap x (extract i y ys).0 (extract i y ys).1)
      (Perm.cons x (extract-perm i y ys))

pub length-extract : (i : ℕ) (x : Place) (xs : List Place) → length (extract i x xs).1 ≡ length xs
unfolding extract
length-extract zero x xs = refl
length-extract (suc i) x [] = refl
length-extract (suc i) x (y ∷ ys) = omega (arith, length-extract i y ys)

pub reverse_between-perm : (i k : ℕ) (t : List Place) → Perm (reverse_between i k t) t
unfolding reverse_between
reverse_between-perm i k t =
    let front = take (i + 1) t in
    let back = drop (i + 1) t in
    let middle = take (k - i) back in
    let swapped : Perm (front ++ (reverse middle ++ drop (k - i) back))
        (front ++ (middle ++ drop (k - i) back)) =
      Perm.append_left front (Perm.append_right (drop (k - i) back) (reverse_perm middle)) in
    rw (take-append-drop (k - i) back, take-append-drop (i + 1) t) at swapped

-- The first place stays the first.
pub head?-reverse_between :
    (i k : ℕ) (p : Place) (t : List Place) → head? (reverse_between i k (p ∷ t)) ≡ some p
unfolding reverse_between
head?-reverse_between i k p t = rw add-one refl

module _ (fl : FloatOps) where
  pub nearest_tour-perm :
      (n : ℕ) (last : Place) (xs : List Place) → length xs ≤ n → Perm (nearest_tour fl n last xs) xs
  unfolding nearest_tour
  nearest_tour-perm zero last [] h = Perm.refl []
  nearest_tour-perm zero last (x ∷ xs) h = absurd (omega arith)
  nearest_tour-perm (suc n) last [] h = Perm.refl []
  nearest_tour-perm (suc n) last (x ∷ xs) h =
      let i = nearest_index fl last x 0 1 xs in
      Perm.trans
        (Perm.cons (extract i x xs).0 (
          nearest_tour-perm n (extract i x xs).0 (extract i x xs).1
            (omega (arith, length-extract i x xs))))
        (extract-perm i x xs)

  -- What each step of `_two_opt` keeps: the places, and the one that comes first.
  pub record Keeps (t u : List Place) : Type 0 where
    pub places : Perm t u
    pub start : head? t ≡ head? u

  pub Keeps-refl : (t : List Place) → Keeps t t
  Keeps-refl t = record { places = Perm.refl t; start = refl }

  pub Keeps-trans : {t u v : List Place} → Keeps t u → Keeps u v → Keeps t v
  Keeps-trans a b = record { places = Perm.trans a.places b.places; start = cc }

  pub reverse_between-Keeps :
      (i k : ℕ) (t : List Place) (a : Place)
      → get_elem? t i ≡ some a
      → Keeps (reverse_between i k t) t
  reverse_between-Keeps i k [] a h = absurd (cc)
  reverse_between-Keeps i k (p ∷ t) a h = record {
    places = reverse_between-perm i k (p ∷ t);
    start = head?-reverse_between i k p t;
  }

  pub swap-Keeps :
      (i k : ℕ) (t : List Place) (improved : Bool) (a b c d : Option Place)
      → get_elem? t i ≡ a
      → Keeps (swap_between fl i k t improved a b c d).0 t
  unfolding swap_between
  swap-Keeps i k t improved none b c d h = Keeps-refl t
  swap-Keeps i k t improved (some a) none c d h = Keeps-refl t
  swap-Keeps i k t improved (some a) (some b) none d h = Keeps-refl t
  swap-Keeps i k t improved (some a) (some b) (some c) d h =
      elim (Bool-cases (shorter fl a b c d)) [
        | inl e ↦ rw e (reverse_between-Keeps i k t a h)
        | inr e ↦ rw e (Keeps-refl t)
      ]

  pub try_swap-Keeps : (i k : ℕ) (t : List Place) (b : Bool) → Keeps (try_swap fl i k (t, b)).0 t
  unfolding try_swap
  try_swap-Keeps i k t b =
      swap-Keeps i k t b (get_elem? t i) (get_elem? t (i + 1)) (get_elem? t k) (get_elem? t (k + 1))
        refl

  pub inner-Keeps :
      (i : ℕ) (ks : List ℕ) (t : List Place) (b : Bool) → Keeps (inner_loop fl i ks (t, b)).0 t
  unfolding inner_loop
  inner-Keeps i [] t b = Keeps-refl t
  inner-Keeps i (k ∷ ks) t b =
      let next = try_swap fl i k (t, b) in
      Keeps-trans (inner-Keeps i ks next.0 next.1) (try_swap-Keeps i k t b)

  pub outer-Keeps :
      (n : ℕ) (is : List ℕ) (t : List Place) (b : Bool) → Keeps (outer_loop fl n is (t, b)).0 t
  unfolding outer_loop
  outer-Keeps n [] t b = Keeps-refl t
  outer-Keeps n (i ∷ is) t b =
      let next = inner_loop fl i (range (i + 2) (n - (i + 2))) (t, b) in
      Keeps-trans (outer-Keeps n is next.0 next.1) (inner-Keeps i (range (i + 2) (n - (i + 2))) t b)

  pub two_opt-Keeps : (rounds : ℕ) (t : List Place) → Keeps (two_opt fl rounds t) t
  unfolding two_opt
  two_opt-Keeps zero t = Keeps-refl t
  two_opt-Keeps (suc rounds) t =
      let next = outer_loop fl (length t) (range 0 (length t - 2)) (t, false) in
      let kept = outer-Keeps (length t) (range 0 (length t - 2)) t false in
      elim next.1 as (λ b. Keeps (elim b [ true ↦ two_opt fl rounds next.0 | false ↦ next.0 ]) t) [
        | true ↦ Keeps-trans (two_opt-Keeps rounds next.0) kept
        | false ↦ kept
      ]

  pub tour_places-Keeps : (ps : List Place) → Keeps (tour_places fl ps) ps
  unfolding tour_places
  tour_places-Keeps [] = Keeps-refl []
  tour_places-Keeps (p ∷ []) = Keeps-refl (p ∷ [])
  tour_places-Keeps (p ∷ q ∷ []) = Keeps-refl (p ∷ q ∷ [])
  tour_places-Keeps (p ∷ q ∷ r ∷ rest) =
      let others = q ∷ r ∷ rest in
      Keeps-trans (two_opt-Keeps max_rounds (p ∷ nearest_tour fl (length others) p others))
        (record {
          places = Perm.cons p (nearest_tour-perm (length others) p others (omega arith));
          start = refl;
        })
