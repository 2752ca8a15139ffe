-- ===== src/Prelude/Sorting.antt =====
-- `sorted(xs, key=…)`: the stable sort by a number.
use mathlib.Core.List.{Perm}
use mathlib.Core.List.Perm
use mathlib.Core.List.{List, [], ◌∷◌}
use mathlib.Core.Path.{◌≡◌, refl}
use mathlib.Core.Logic.{inl, inr}
use Prim.Native.Nat.{ℕ, suc, ◌≤◌}
use native.Mathlib.Omega.{arith}
use map_service_agent.Prelude.Tests.{if◌then◌else◌, leb, tests, Bool-cases}
use map_service_agent.Prelude.Lists.{length, All}

module _ {ℓ} {A : Type ℓ} (key : A → ℕ) where
  abbrev pub insert_by : A → List A → List A
  insert_by x [] = x ∷ []
  insert_by x (y ∷ ys) = if leb (key x) (key y) then x ∷ y ∷ ys else y ∷ insert_by x ys

  abbrev pub sort_by : List A → List A
  sort_by [] = []
  sort_by (x ∷ xs) = insert_by x (sort_by xs)

  abbrev pub AtLeast : ℕ → List A → Type 0
  AtLeast k [] = Unit
  AtLeast k (x ∷ xs) = (k ≤ key x) × AtLeast k xs

  -- The keys do not fall.
  abbrev pub IsSorted : List A → Type 0
  IsSorted [] = Unit
  IsSorted (x ∷ xs) = AtLeast (key x) xs × IsSorted xs

  AtLeast-weaken : (j k : ℕ) (xs : List A) → j ≤ k → AtLeast k xs → AtLeast j xs
  AtLeast-weaken j k [] h a = tt
  AtLeast-weaken j k (x ∷ xs) h a = (omega (arith, a.0), AtLeast-weaken j k xs h a.1)

  AtLeast-insert :
      (k : ℕ) (x : A) (xs : List A) → k ≤ key x → AtLeast k xs → AtLeast k (insert_by x xs)
  AtLeast-insert k x [] h a = (h, tt)
  AtLeast-insert k x (y ∷ ys) h a = elim (Bool-cases (leb (key x) (key y))) [
    | inl e ↦ rw e (h, a)
    | inr e ↦ rw e (a.0, AtLeast-insert k x ys h a.1)
  ]

  insert-IsSorted : (x : A) (xs : List A) → IsSorted xs → IsSorted (insert_by x xs)
  insert-IsSorted x [] s = (tt, tt)
  insert-IsSorted x (y ∷ ys) s = elim (Bool-cases (leb (key x) (key y))) [
    | inl e ↦ rw e ((omega tests, AtLeast-weaken (key x) (key y) ys (omega tests) s.0), s)
    | inr e ↦ rw e (AtLeast-insert (key y) x ys (ground arith) s.0, insert-IsSorted x ys s.1)
  ]

  pub sort_by-IsSorted : (xs : List A) → IsSorted (sort_by xs)
  sort_by-IsSorted [] = tt
  sort_by-IsSorted (x ∷ xs) = insert-IsSorted x (sort_by xs) (sort_by-IsSorted xs)

  insert-perm : (x : A) (xs : List A) → Perm (insert_by x xs) (x ∷ xs)
  insert-perm x [] = Perm.refl (x ∷ [])
  insert-perm x (y ∷ ys) = elim (Bool-cases (leb (key x) (key y))) [
    | inl e ↦ rw e (Perm.refl (x ∷ y ∷ ys))
    | inr e ↦ rw e (Perm.trans (Perm.cons y (insert-perm x ys)) (Perm.swap x y ys))
  ]

  pub sort_by-perm : (xs : List A) → Perm (sort_by xs) xs
  sort_by-perm [] = Perm.refl []
  sort_by-perm (x ∷ xs) = Perm.trans (insert-perm x (sort_by xs)) (Perm.cons x (sort_by-perm xs))

  module _ {κ} (P : A → Type κ) where
    All-insert : (x : A) (xs : List A) → P x → All P xs → All P (insert_by x xs)
    All-insert x [] p h = (p, tt)
    All-insert x (y ∷ ys) p h = elim (Bool-cases (leb (key x) (key y))) [
      | inl e ↦ rw e (p, h)
      | inr e ↦ rw e (h.0, All-insert x ys p h.1)
    ]

    pub All-sort_by : (xs : List A) → All P xs → All P (sort_by xs)
    All-sort_by [] h = tt
    All-sort_by (x ∷ xs) h = All-insert x (sort_by xs) h.0 (All-sort_by xs h.1)

  length-insert : (x : A) (xs : List A) → length (insert_by x xs) ≡ suc (length xs)
  length-insert x [] = refl
  length-insert x (y ∷ ys) = ground (arith, length-insert x ys)

  pub length-sort_by : (xs : List A) → length (sort_by xs) ≡ length xs
  length-sort_by [] = refl
  length-sort_by (x ∷ xs) = omega (arith, length-insert x (sort_by xs), length-sort_by xs)

  -- A list that is sorted stays as it is.
  insert-eq_cons : (x : A) (xs : List A) → AtLeast (key x) xs → insert_by x xs ≡ x ∷ xs
  insert-eq_cons x [] h = refl
  insert-eq_cons x (y ∷ ys) h = ground arith

  pub sort_by-eq_self : (xs : List A) → IsSorted xs → sort_by xs ≡ xs
  sort_by-eq_self [] h = refl
  sort_by-eq_self (x ∷ xs) h = rw (sort_by-eq_self xs h.1) (insert-eq_cons x xs h.0)
