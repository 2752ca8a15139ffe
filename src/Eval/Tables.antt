-- ===== src/Eval/Tables.antt =====
-- The dicts of eval/segment_stats.py: texts with values, in the order of their first use.
use map_service_agent.Prelude.{
  ◌≡◌, refl, ap, sym, subst, ◌∙◌, true, false, Option, none, some, List, [], ◌∷◌, if◌then◌else◌,
  Bool-cases, inl, inr,
}
use map_service_agent.Value.{Str, str_eq, str_eq→eq, str_eq-flip, str_eq_self}
use map_service_agent.Nodes.Candidates.{and_then}

abbrev pub Table {ℓ} : Type ℓ → Type ℓ
Table V = List (Str × V)

-- `table.get(key)`
unfoldable pub value_at {ℓ} : {V : Type ℓ} → Str → Table V → Option V
value_at key [] = none
value_at key ((j, v) ∷ es) = if str_eq j key then some v else value_at key es

-- `table[key] = f(table.get(key))`
unfoldable pub update_at {ℓ} : {V : Type ℓ} → Str → (Option V → V) → Table V → Table V
update_at key f [] = (key, f none) ∷ []
update_at key f ((j, v) ∷ es) =
    if str_eq j key then (j, f (some v)) ∷ es else (j, v) ∷ update_at key f es

unfoldable pub put_some {ℓ} : {W : Type ℓ} → Str → Option W → Table W → Table W
put_some j none es = es
put_some j (some w) es = (j, w) ∷ es

-- The entries that a function does not leave out, with its values
unfoldable pub keep_some {ℓ κ} :
    {V : Type ℓ} {W : Type κ} → (Str → V → Option W) → Table V → Table W
keep_some g [] = []
keep_some g ((j, v) ∷ es) = put_some j (g j v) (keep_some g es)

abbrev pub or_else {ℓ} : {W : Type ℓ} → Option W → Option W → Option W
or_else none o = o
or_else (some w) o = some w

-- No key stands twice.
abbrev pub AreOnce {ℓ} : {V : Type ℓ} → Table V → Type ℓ
AreOnce [] = Unit
AreOnce ((j, v) ∷ es) = (value_at j es ≡ none) × AreOnce es

str_eq-same : (i j k : Str) → str_eq i j ≡ true → str_eq i k ≡ str_eq j k
str_eq-same i j k h = ap (λ x. str_eq x k) (str_eq→eq i j h)

str_eq-apart : (i j k : Str) → str_eq i j ≡ false → str_eq i k ≡ true → str_eq j k ≡ false
str_eq-apart i j k h e = elim (Bool-cases (str_eq j k)) [
  | inr d ↦ d
  | inl d ↦
      let same : str_eq i j ≡ true =
        subst (λ x. str_eq i x ≡ true) (str_eq→eq i k e ∙ sym (str_eq→eq j k d)) (str_eq_self i) in
      cc (h, same)
]

pub value_at-update_at {ℓ} :
    {V : Type ℓ} (key i : Str) (f : Option V → V) (es : Table V)
    → value_at i (update_at key f es)
      ≡ (if str_eq key i then some (f (value_at key es)) else value_at i es)
unfolding value_at update_at
value_at-update_at key i f [] = refl
value_at-update_at key i f ((j, v) ∷ es) = elim (Bool-cases (str_eq j key)) [
  | inl e ↦
      rw (e, str_eq-same j key i e)
        (elim (Bool-cases (str_eq key i)) [ inl h ↦ rw h refl | inr h ↦ rw h refl ])
  | inr e ↦ rw e (elim (Bool-cases (str_eq j i)) [
    | inl h ↦ rw (h, str_eq-apart j key i e h) refl
    | inr h ↦ rw h (value_at-update_at key i f es)
  ])
]

pub AreOnce-update_at {ℓ} :
    {V : Type ℓ} (key : Str) (f : Option V → V) (es : Table V)
    → AreOnce es
    → AreOnce (update_at key f es)
unfolding update_at
AreOnce-update_at key f [] h = (unfold value_at in refl, tt)
AreOnce-update_at key f ((j, v) ∷ es) h = elim (Bool-cases (str_eq j key)) [
  | inl e ↦ rw e h
  | inr e ↦
      rw e (
        value_at-update_at key j f es ∙ rw (str_eq-flip j key e) h.0,
        AreOnce-update_at key f es h.1,
      )
]

value_at-put_some {ℓ} :
    {W : Type ℓ} (i j : Str) (o : Option W) (es : Table W)
    → value_at i (put_some j o es)
      ≡ (if str_eq j i then or_else o (value_at i es) else value_at i es)
unfolding put_some value_at
value_at-put_some i j none es = elim (Bool-cases (str_eq j i)) [
  | inl e ↦ rw e refl
  | inr e ↦ rw e refl
]
value_at-put_some i j (some w) es = refl

or_else-none {ℓ} : {W : Type ℓ} (o : Option W) → or_else o none ≡ o
or_else-none none = refl
or_else-none (some w) = refl

-- Where no key stands twice, what is kept under a key is what the function gives there.
pub value_at-keep_some {ℓ κ} :
    {V : Type ℓ} {W : Type κ} (g : Str → V → Option W) (i : Str) (es : Table V)
    → AreOnce es
    → value_at i (keep_some g es) ≡ and_then (value_at i es) (g i)
unfolding keep_some value_at
value_at-keep_some g i [] h = refl
value_at-keep_some g i ((j, v) ∷ es) h =
    value_at-put_some i j (g j v) (keep_some g es) ∙ elim (Bool-cases (str_eq j i)) [
      | inr e ↦ rw e (value_at-keep_some g i es h.1)
      | inl e ↦
          let k : j ≡ i = str_eq→eq j i e in
          let gone : value_at i es ≡ none = subst (λ x. value_at x es ≡ none) k h.0 in
          rw (e, value_at-keep_some g i es h.1, gone) (or_else-none (g j v) ∙ ap (λ x. g x v) k)
    ]
