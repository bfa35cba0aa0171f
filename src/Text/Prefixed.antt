-- ===== src/Text/Prefixed.antt =====
-- `strings.CutPrefix`: a text has the prefix exactly when it is the prefix and what is left.
use docker_port_forward.Common.{
  ap, ◌∙◌, some-injective, ℕ, Option-cases, sym, subst, refl, ◌≡◌, none, some, [], ◌∷◌, ◌++◌, arith,
  ◌==◌, Bool-cases, inl, inr,
}
use docker_port_forward.Text.Base.{Text, cut_prefix, Lacks}
use docker_port_forward.Text.Split.{cut}

pub cut_prefix-append : (p s : Text) → cut_prefix p (p ++ s) ≡ some s
unfolding cut_prefix
cut_prefix-append [] s = refl
cut_prefix-append (c ∷ p) s = ground (arith, cut_prefix-append p s)

pub cut_prefix-some : (p s rest : Text) → cut_prefix p s ≡ some rest → s ≡ p ++ rest
unfolding cut_prefix
cut_prefix-some [] s rest h = cc
cut_prefix-some (c ∷ p) [] rest h = cc
cut_prefix-some (c ∷ p) (d ∷ s) rest h = elim (Bool-cases (c == d)) [
  | inl same ↦
      let heads : c ≡ d = ground arith in
      let tails = cut_prefix-some p s rest (ground arith) in λ i. sym heads i ∷ tails i
  | inr other ↦ absurd (ground arith)
]

pub cut_prefix-none : (p s rest : Text) → cut_prefix p s ≡ none → s ≡ p ++ rest → ⊥
cut_prefix-none p s rest h e =
    let found = subst (λ t. cut_prefix p t ≡ some rest) (sym e) (cut_prefix-append p rest) in cc

abbrev IsCut : ℕ → Text → Text × Text → Type 0
IsCut sep s (p, rest) = (s ≡ p ++ sep ∷ rest) × Lacks sep p

-- `strings.Cut` cuts at the first separator.
pub cut-some :
    (sep : ℕ) (s p rest : Text) → cut sep s ≡ some (p, rest) → (s ≡ p ++ sep ∷ rest) × Lacks sep p
unfolding cut
cut-some sep [] p rest h = cc
cut-some sep (c ∷ s) p rest h = elim (Bool-cases (c == sep)) [
  | inl same ↦
      let opened : cut sep (c ∷ s) ≡ some ([], s) = rw (cut, same) refl in
      let heads : c ≡ sep = ground arith in
      subst (IsCut sep (c ∷ s)) (some-injective (sym opened ∙ h)) ((λ i. heads i ∷ s), tt)
  | inr other ↦ elim (Option-cases (cut sep s)) [
    | inl e ↦
        let opened : cut sep (c ∷ s) ≡ none = rw (cut, other, e) refl in
        absurd (ground (arith, opened))
    | inr ((q, t), e) ↦
        let opened : cut sep (c ∷ s) ≡ some (c ∷ q, t) = rw (cut, other, e) refl in
        let (tails, lacks) = cut-some sep s q t e in
        subst (IsCut sep (c ∷ s)) (some-injective (sym opened ∙ h))
          (ap (λ x. c ∷ x) tails, ((λ f. ground arith), lacks))
  ]
]

pub cut-none : (sep : ℕ) (s : Text) → cut sep s ≡ none → Lacks sep s
unfolding cut
cut-none sep [] h = tt
cut-none sep (c ∷ s) h = elim (Bool-cases (c == sep)) [
  | inl same ↦ absurd (ground arith)
  | inr other ↦ elim (Option-cases (cut sep s)) [
    | inl e ↦ ((λ f. ground arith), cut-none sep s e)
    | inr (q, e) ↦
        let opened : cut sep (c ∷ s) ≡ some (c ∷ q.0, q.1) = rw (cut, other, e) refl in
        absurd (ground (arith, opened))
  ]
]

pub cut-Lacks : (sep : ℕ) (s : Text) → Lacks sep s → cut sep s ≡ none
unfolding cut
cut-Lacks sep [] h = refl
cut-Lacks sep (c ∷ s) h = ground (arith, cut-Lacks sep s h.1)

pub nil_append : (p : Text) (c : ℕ) (s : Text) → [] ≡ p ++ c ∷ s → ⊥
nil_append [] c s h = cc
nil_append (d ∷ p) c s h = cc
