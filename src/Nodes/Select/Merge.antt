-- ===== src/Nodes/Select/Merge.antt =====
-- app/nodes/agent_nodes.py, `_merge_pinned`: what the places that the user keeps and the new ones become.
use mathlib.Core.List.{Perm}
use mathlib.Core.List.Perm
use map_service_agent.Prelude.{
  ℕ, zero, suc, ◌≤◌, ◌≡◌, refl, sym, ap, ◌∙◌, true, false, not, Option, none, some, List, [], ◌∷◌,
  ◌++◌, map, length, range, subst, AtLeast, IsSorted, sort_by, sort_by-IsSorted, length-sort_by,
  sort_by-perm, length-append, get_elem?, keep, Bool-cases, inl, inr, arith,
}
use map_service_agent.Value.{Str, mem_str, str_eq, str_eq→eq, str_eq_self}
use map_service_agent.Schema.Model.{Place}
use map_service_agent.Nodes.Search.Merged.{Listed}
use map_service_agent.Nodes.Select.{content_ids, is_repeated, merge_pinned, renumbered}

renumbered-numbered :
    (n : ℕ) (ps : List Place) → map (λ p. p.place_id) (renumbered n ps) ≡ range n (length ps)
unfolding renumbered
renumbered-numbered n [] = refl
renumbered-numbered n (p ∷ ps) = ap (λ xs. n ∷ xs) (renumbered-numbered (suc n) ps)

length-renumbered : (n : ℕ) (ps : List Place) → length (renumbered n ps) ≡ length ps
unfolding renumbered
length-renumbered n [] = refl
length-renumbered n (p ∷ ps) = ap suc (length-renumbered (suc n) ps)

renumbered-AtLeast :
    (k n : ℕ) (ps : List Place)
    → AtLeast (λ p. p.day) k ps
    → AtLeast (λ p. p.day) k (renumbered n ps)
unfolding renumbered
renumbered-AtLeast k n [] a = tt
renumbered-AtLeast k n (p ∷ ps) a = (a.0, renumbered-AtLeast k (suc n) ps a.1)

renumbered-IsSorted :
    (n : ℕ) (ps : List Place) → IsSorted (λ p. p.day) ps → IsSorted (λ p. p.day) (renumbered n ps)
unfolding renumbered
renumbered-IsSorted n [] s = tt
renumbered-IsSorted n (p ∷ ps) s =
    (renumbered-AtLeast p.day (suc n) ps s.0, renumbered-IsSorted (suc n) ps s.1)

-- A place that the user keeps already has this id.
abbrev pub IsKept : List Place → Place → Type 0
IsKept pinned p =
    (c : ℕ) × (cs : Str) × (p.content_id ≡ some (c ∷ cs))
    × (q : Place) × Listed pinned q
    × (q.content_id ≡ some (c ∷ cs))

-- The new places without those that the user keeps already.
pub data AreNew (pinned : List Place) : List Place → List Place → Type 0 where
  none_left : AreNew pinned [] []
  kept :
      {p : Place} {fresh added : List Place}
      → IsKept pinned p
      → AreNew pinned fresh added
      → AreNew pinned (p ∷ fresh) added
  new :
      {p : Place} {fresh added : List Place}
      → ¬ IsKept pinned p
      → AreNew pinned fresh added
      → AreNew pinned (p ∷ fresh) (p ∷ added)

-- A place without its number
abbrev pub unnumbered : Place → Place
unnumbered p = record p { place_id = 0 }

-- What the places that the user keeps and the new ones become together: all of those of the user,
-- those of the new ones that the user does not keep already, and nothing else, each as it was but for
-- its number.
pub record IsMerged (pinned fresh ps : List Place) : Type 0 where
  pub numbered : map (λ p. p.place_id) ps ≡ range 0 (length ps)
  pub by_day : IsSorted (λ p. p.day) ps
  pub count : length pinned ≤ length ps
  added : List Place
  additions : AreNew pinned fresh added
  content : Perm (map unnumbered ps) (map unnumbered (pinned ++ added))

-- One of the places has this id.
abbrev HasId : List Place → Str → Type 0
HasId pinned s = (q : Place) × Listed pinned q × (q.content_id ≡ some s)

HasId-later : (p : Place) (ps : List Place) (s : Str) → HasId ps s → HasId (p ∷ ps) s
HasId-later p ps s (q, (n, g), e) = (q, (suc n, g), e)

content_ids-HasId :
    (pinned : List Place) (c : ℕ) (cs : Str)
    → mem_str (c ∷ cs) (content_ids pinned) ≡ true
    → HasId pinned (c ∷ cs)
unfolding content_ids
content_ids-HasId [] c cs h = cc h
content_ids-HasId (p ∷ ps) c cs h = first (content_ids-HasId ps c cs) p.content_id refl h
  where
    first :
        (mem_str (c ∷ cs) (content_ids ps) ≡ true → HasId ps (c ∷ cs))
        → (o : Option Str) → p.content_id ≡ o
        → mem_str (c ∷ cs) (elim o [
          | none ↦ content_ids ps
          | some s ↦ elim s [ [] ↦ content_ids ps | d ∷ ds ↦ (d ∷ ds) ∷ content_ids ps ]
        ])
          ≡ true
        → HasId (p ∷ ps) (c ∷ cs)
    first later none e k = HasId-later p ps (c ∷ cs) (later k)
    first later (some []) e k = HasId-later p ps (c ∷ cs) (later k)
    first later (some (d ∷ ds)) e k = elim (Bool-cases (str_eq (d ∷ ds) (c ∷ cs))) [
      | inl f ↦ (p, (0, refl), e ∙ ap some (str_eq→eq (d ∷ ds) (c ∷ cs) f))
      | inr f ↦
          let m : mem_str (c ∷ cs) (content_ids ps) ≡ true = rw f at k in
          HasId-later p ps (c ∷ cs) (later m)
    ]

content_ids-later :
    (p : Place) (ps : List Place) (s : Str)
    → mem_str s (content_ids ps) ≡ true
    → mem_str s (content_ids (p ∷ ps)) ≡ true
unfolding content_ids
content_ids-later p ps s h = more p.content_id
  where
    more :
        (o : Option Str)
        → mem_str s (elim o [
          | none ↦ content_ids ps
          | some t ↦ elim t [ [] ↦ content_ids ps | d ∷ ds ↦ (d ∷ ds) ∷ content_ids ps ]
        ])
          ≡ true
    more none = h
    more (some []) = h
    more (some (d ∷ ds)) = ground (arith, h)

content_ids-has :
    (pinned : List Place) (c : ℕ) (cs : Str) (n : ℕ) (q : Place)
    → get_elem? pinned n ≡ some q
    → q.content_id ≡ some (c ∷ cs)
    → mem_str (c ∷ cs) (content_ids pinned) ≡ true
unfolding content_ids
content_ids-has [] c cs n q g h = cc g
content_ids-has (p ∷ ps) c cs zero q g h =
    let same : p.content_id ≡ some (c ∷ cs) = ap (λ o. id_in o) g ∙ h in
    rw (content_ids, same) (ground (arith, str_eq_self (c ∷ cs)))
  where
    id_in : Option Place → Option Str
    id_in none = none
    id_in (some r) = r.content_id
content_ids-has (p ∷ ps) c cs (suc n) q g h =
    content_ids-later p ps (c ∷ cs) (content_ids-has ps c cs n q g h)

repeated-IsKept :
    (pinned : List Place) (p : Place)
    → is_repeated (content_ids pinned) p.content_id ≡ true
    → IsKept pinned p
repeated-IsKept pinned p h = known p.content_id refl h
  where
    known :
        (o : Option Str)
        → p.content_id ≡ o
        → is_repeated (content_ids pinned) o ≡ true
        → IsKept pinned p
    known none e k = cc k
    known (some []) e k = cc k
    known (some (c ∷ cs)) e k =
        let (q, l, f) = content_ids-HasId pinned c cs (ground arith) in (c, cs, e, q, l, f)

fresh-not-IsKept :
    (pinned : List Place) (p : Place)
    → is_repeated (content_ids pinned) p.content_id ≡ false
    → ¬ IsKept pinned p
fresh-not-IsKept pinned p h (c, cs, e, q, (n, g), f) =
    let m = content_ids-has pinned c cs n q g f in let k = rw e at h in cc (k, m)

keep-AreNew :
    (pinned fresh : List Place)
    → AreNew pinned fresh (keep (λ p. not (is_repeated (content_ids pinned) p.content_id)) fresh)
keep-AreNew pinned [] = none_left
keep-AreNew pinned (p ∷ fresh) = elim (Bool-cases (is_repeated (content_ids pinned) p.content_id)) [
  | inl e ↦ simp e (kept (repeated-IsKept pinned p e) (keep-AreNew pinned fresh))
  | inr e ↦ simp e (new (fresh-not-IsKept pinned p e) (keep-AreNew pinned fresh))
]

unnumbered-renumbered :
    (n : ℕ) (ps : List Place) → map unnumbered (renumbered n ps) ≡ map unnumbered ps
unfolding renumbered
unnumbered-renumbered n [] = refl
unnumbered-renumbered n (p ∷ ps) = ap (λ qs. unnumbered p ∷ qs) (unnumbered-renumbered (suc n) ps)

-- Merged with the new places, those of the user all stay, and those of the new ones are added that
-- the user does not keep already, and no other; each is as it was but for its number. The whole is
-- numbered from 0 in the order of the days.
pub merge_pinned-IsMerged :
    (pinned fresh : List Place) → IsMerged pinned fresh (merge_pinned pinned fresh)
unfolding merge_pinned
merge_pinned-IsMerged pinned fresh =
    let rest = keep (λ p. not (is_repeated (content_ids pinned) p.content_id)) fresh in
    let sorted = sort_by (λ (p : Place). p.day) (pinned ++ rest) in
    let n = length-renumbered 0 sorted in
    let m = length-sort_by (λ (p : Place). p.day) (pinned ++ rest) in
    let a = length-append pinned rest in
    record {
      numbered = renumbered-numbered 0 sorted ∙ ap (range 0) (sym n);
      by_day = renumbered-IsSorted 0 sorted (sort_by-IsSorted (λ p. p.day) (pinned ++ rest));
      count = omega (arith, n, m, a);
      added = rest;
      additions = keep-AreNew pinned fresh;
      content =
          subst (λ qs. Perm qs (map unnumbered (pinned ++ rest)))
            (sym (unnumbered-renumbered 0 sorted))
            (Perm.map unnumbered (sort_by-perm (λ (p : Place). p.day) (pinned ++ rest)));
    }
