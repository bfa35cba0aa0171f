-- ===== src/Text/Split.antt =====
-- Cutting and joining at a separator of one character.
use docker_port_forward.Common.{
  is_nil, ◌∙◌, ap, ℕ, ◌≡◌, refl, Option, none, some, List, [], ◌∷◌, ◌++◌, arith, ◌==◌,
  if◌then◌else◌, All,
}
use docker_port_forward.Text.Base.{is_space, Text, Lacks}

-- `strings.Cut`
unfoldable pub cut : ℕ → Text → Option (Text × Text)
cut sep [] = none
cut sep (c ∷ s) =
    let rest = cut sep s in
    if c == sep then some ([], s) else elim rest [ none ↦ none | some (a, b) ↦ some (c ∷ a, b) ]

-- the parts around the last separator, from `strings.LastIndex`
unfoldable pub cut_last : ℕ → Text → Option (Text × Text)
cut_last sep [] = none
cut_last sep (c ∷ s) = elim (cut_last sep s) [
  | some (a, b) ↦ some (c ∷ a, b)
  | none ↦ if c == sep then some ([], s) else none
]

abbrev pub cons_head : ℕ → List Text → List Text
cons_head c [] = (c ∷ []) ∷ []
cons_head c (p ∷ ps) = (c ∷ p) ∷ ps

-- `strings.Split`
unfoldable pub split : ℕ → Text → List Text
split sep [] = [] ∷ []
split sep (c ∷ s) = let rest = split sep s in if c == sep then [] ∷ rest else cons_head c rest

-- the parts between single white space characters, empty ones included
unfoldable pub space_parts : Text → List Text
space_parts [] = [] ∷ []
space_parts (c ∷ s) = let rest = space_parts s in if is_space c then [] ∷ rest else cons_head c rest

unfoldable pub drop_blank : List Text → List Text
drop_blank [] = []
drop_blank (p ∷ ps) = let rest = drop_blank ps in if is_nil p then rest else p ∷ rest

-- `strings.Fields`
unfoldable pub fields : Text → List Text
unfolding space_parts drop_blank
fields s = drop_blank (space_parts s)

-- `strings.Join`
unfoldable pub join : Text → List Text → Text
join sep [] = []
join sep (p ∷ []) = p
join sep (p ∷ q ∷ ps) = p ++ (sep ++ join sep (q ∷ ps))

pub cut-append : (sep : ℕ) (p s : Text) → Lacks sep p → cut sep (p ++ sep ∷ s) ≡ some (p, s)
unfolding cut
cut-append sep [] s h = ground arith
cut-append sep (c ∷ p) s h = ground (arith, cut-append sep p s h.1)

pub cut_last-Lacks : (sep : ℕ) (p : Text) → Lacks sep p → cut_last sep p ≡ none
unfolding cut_last
cut_last-Lacks sep [] h = refl
cut_last-Lacks sep (c ∷ p) h = ground (arith, cut_last-Lacks sep p h.1)

pub cut_last-append :
    (sep : ℕ) (p s : Text) → Lacks sep s → cut_last sep (p ++ sep ∷ s) ≡ some (p, s)
unfolding cut_last
cut_last-append sep [] s h = ground (arith, cut_last-Lacks sep s h)
cut_last-append sep (c ∷ p) s h = ground (arith, cut_last-append sep p s h)

pub split-Lacks : (sep : ℕ) (p : Text) → Lacks sep p → split sep p ≡ p ∷ []
unfolding split
split-Lacks sep [] h = refl
split-Lacks sep (c ∷ p) h = ground (arith, split-Lacks sep p h.1)

pub split-append : (sep : ℕ) (p s : Text) → Lacks sep p → split sep (p ++ sep ∷ s) ≡ p ∷ split sep s
unfolding split
split-append sep [] s h = ground arith
split-append sep (c ∷ p) s h = ground (arith, split-append sep p s h.1)

-- Splitting what was joined gives the parts back.
pub split-join :
    (sep : ℕ) (p : Text) (ps : List Text)
    → All (Lacks sep) (p ∷ ps)
    → split sep (join (sep ∷ []) (p ∷ ps)) ≡ p ∷ ps
unfolding join
split-join sep p [] h = split-Lacks sep p h.0
split-join sep p (q ∷ ps) h = split-append sep p _ h.0 ∙ ap (λ r. p ∷ r) (split-join sep q ps h.1)
