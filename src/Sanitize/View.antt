-- ===== src/Sanitize/View.antt =====
-- app/security/sanitize.py, text for prompts: what `sanitize_text` leaves of any text.
use map_service_agent.Prelude.{
  ℕ, ◌≤◌, Bool, true, false, not, ◌||◌, [], ◌∷◌, ◌≡◌, refl, ◌==◌, All, All-take, All-keep_test,
  length, length-take, if◌then◌else◌, arith, Bool-cases, inl, inr,
}
use map_service_agent.Value.{Str, is_space, lstrip, rstrip, strip}
use map_service_agent.Sanitize.{is_control, is_tag, drop_control, collapse, escape, sanitize_text}

-- No invisible character, and no white space but the plain space.
abbrev IsPlain : ℕ → Type 0
IsPlain c = (is_control c ≡ false) × (is_space c ≡ true → c ≡ 32)

-- And no character that could open or close a data tag of the prompt.
abbrev pub IsInert : ℕ → Type 0
IsInert c = (is_tag c ≡ false) × (is_control c ≡ false) × (is_space c ≡ true → c ≡ 32)

drop_control-lem : (s : Str) → All (λ c. not (is_control c) ≡ true) (drop_control s)
drop_control-lem s = All-keep_test (λ c. not (is_control c)) s

spaced : (b : Bool) (rest : Str) → All IsPlain rest → All IsPlain (if b then rest else 32 ∷ rest)
spaced true rest h = h
spaced false rest h = ((unfold is_control in refl, λ _. refl), h)

collapse-IsPlain :
    (b : Bool) (s : Str) → All (λ c. not (is_control c) ≡ true) s → All IsPlain (collapse b s)
unfolding collapse
collapse-IsPlain b [] h = tt
collapse-IsPlain b (c ∷ s) h = elim (Bool-cases (is_space c)) [
  | inl e ↦ rw e (spaced b (collapse true s) (collapse-IsPlain true s h.1))
  | inr e ↦ rw e ((ground arith, (λ x. absurd (cc))), collapse-IsPlain false s h.1)
]

lstrip-IsPlain : (s : Str) → All IsPlain s → All IsPlain (lstrip s)
lstrip-IsPlain [] h = tt
lstrip-IsPlain (c ∷ s) h = elim (is_space c) as (λ b. All IsPlain (if b then lstrip s else c ∷ s)) [
  | true ↦ lstrip-IsPlain s h.1
  | false ↦ h
]

rstrip-IsPlain : (s : Str) → All IsPlain s → All IsPlain (rstrip s)
rstrip-IsPlain [] h = tt
rstrip-IsPlain (c ∷ s) h = go (rstrip s) (rstrip-IsPlain s h.1)
  where
    go :
        (t : Str)
        → All IsPlain t
        → All IsPlain (elim t [ [] ↦ if is_space c then [] else c ∷ [] | d ∷ u ↦ c ∷ d ∷ u ])
    go [] k = elim (is_space c) as (λ b. All IsPlain (if b then [] else c ∷ [])) [
      | true ↦ tt
      | false ↦ (h.0, tt)
    ]
    go (d ∷ u) k = (h.0, k)

abbrev lt_entity : Str → Str
lt_entity rest = b'&' ∷ b'l' ∷ b't' ∷ b';' ∷ rest

abbrev gt_entity : Str → Str
gt_entity rest = b'&' ∷ b'g' ∷ b't' ∷ b';' ∷ rest

lt_entity-IsInert : (rest : Str) → All IsInert rest → All IsInert (lt_entity rest)
unfolding is_tag is_control
lt_entity-IsInert rest h = (
  (refl, refl, λ e. cc),
  ((refl, refl, λ e. cc), ((refl, refl, λ e. cc), ((refl, refl, λ e. cc), h))),
)

gt_entity-IsInert : (rest : Str) → All IsInert rest → All IsInert (gt_entity rest)
unfolding is_tag is_control
gt_entity-IsInert rest h = (
  (refl, refl, λ e. cc),
  ((refl, refl, λ e. cc), ((refl, refl, λ e. cc), ((refl, refl, λ e. cc), h))),
)

escaped-IsInert :
    (c : ℕ) (rest : Str) (b d : Bool)
    → IsPlain c
    → All IsInert rest
    → b ≡ (c == 60 || c == 0xff1c)
    → d ≡ (c == 62 || c == 0xff1e)
    → All IsInert (if b then lt_entity rest else if d then gt_entity rest else c ∷ rest)
escaped-IsInert c rest true d p h e f = lt_entity-IsInert rest h
escaped-IsInert c rest false true p h e f = gt_entity-IsInert rest h
escaped-IsInert c rest false false p h e f = ((unfold is_tag in ground arith, p.0, p.1), h)

escape-IsInert : (s : Str) → All IsPlain s → All IsInert (escape s)
unfolding escape
escape-IsInert [] h = tt
escape-IsInert (c ∷ s) h = escaped-IsInert c (escape s) _ _ h.0 (escape-IsInert s h.1) refl refl

-- Whatever text goes in, the view has at most the given length, and no character of it can open or
-- close a tag, is invisible or starts a new line: all white space is the plain space.
pub sanitize_text-IsInert :
    (s : Str) (n : ℕ) → All IsInert (sanitize_text s n) × (length (sanitize_text s n) ≤ n)
unfolding sanitize_text
sanitize_text-IsInert s n =
    let plain = collapse-IsPlain false (drop_control s) (drop_control-lem s) in
    let text = strip (collapse false (drop_control s)) in
    let stripped = lstrip-IsPlain _ (rstrip-IsPlain _ plain) in
    (
      All-take IsInert n (escape text) (escape-IsInert text stripped),
      omega (arith, length-take n (escape text)),
    )
