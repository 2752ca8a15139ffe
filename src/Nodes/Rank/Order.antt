-- ===== src/Nodes/Rank/Order.antt =====
-- app/nodes/agent_nodes.py: the sort by falling scores.
use mathlib.Core.List.{Perm}
use mathlib.Core.List.Perm
use map_service_agent.Prelude.{◌≡◌, Bool, true, false, List, [], ◌∷◌, Bool-cases, inl, inr}
use map_service_agent.Value.{Json}
use map_service_agent.Nodes.Rank.{insert_ranked, ranked}

module _ (less : Json → Json → Bool) where
  -- No candidate has a lower score than the next one.
  abbrev pub Falls : List (Json × Json) → Type 0
  Falls [] = Unit
  Falls (x ∷ []) = Unit
  Falls (x ∷ y ∷ ys) = (less x.0 y.0 ≡ false) × Falls (y ∷ ys)

  pub insert-perm :
      (x : Json × Json) (ys : List (Json × Json)) → Perm (insert_ranked less x ys) (x ∷ ys)
  unfolding insert_ranked
  insert-perm x [] = Perm.refl (x ∷ [])
  insert-perm x (y ∷ ys) = elim (Bool-cases (less x.0 y.0)) [
    | inr e ↦ rw e (Perm.refl (x ∷ y ∷ ys))
    | inl e ↦ rw e (Perm.trans (Perm.cons y (insert-perm x ys)) (Perm.swap x y ys))
  ]

  pub ranked-perm : (xs : List (Json × Json)) → Perm (ranked less xs) xs
  unfolding ranked
  ranked-perm [] = Perm.refl []
  ranked-perm (x ∷ xs) = Perm.trans (insert-perm x (ranked less xs)) (Perm.cons x (ranked-perm xs))

  module _ (asym : (a b : Json) → less a b ≡ true → less b a ≡ false) where
    pub insert-Falls :
        (x : Json × Json) (ys : List (Json × Json)) → Falls ys → Falls (insert_ranked less x ys)
    unfolding insert_ranked
    insert-Falls x [] h = tt
    insert-Falls x (y ∷ []) h = elim (Bool-cases (less x.0 y.0)) [
      | inl e ↦ rw e (asym x.0 y.0 e, tt)
      | inr e ↦ rw e (e, tt)
    ]
    insert-Falls x (y ∷ z ∷ zs) h =
        let rest = insert-Falls x (z ∷ zs) h.1 in
        elim (Bool-cases (less x.0 y.0)) [
          | inr e ↦ rw e (e, h)
          | inl e ↦ elim (Bool-cases (less x.0 z.0)) [
            | inl f ↦ let later = rw f at rest in rw (e, f) (h.0, later)
            | inr f ↦ let later = rw f at rest in rw (e, f) (asym x.0 y.0 e, later)
          ]
        ]

    pub ranked-Falls : (xs : List (Json × Json)) → Falls (ranked less xs)
    unfolding ranked
    ranked-Falls [] = tt
    ranked-Falls (x ∷ xs) = insert-Falls x (ranked less xs) (ranked-Falls xs)
