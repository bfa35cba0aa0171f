-- ===== src/Helpers/Names.antt =====
-- internal/forward.go: the names of the networks, sorted as `pickTargetNetwork` does.
use docker_port_forward.Common.{
  In, refl, inl, inr, ◌≡◌, inl, inr, refl, false, List, [], ◌∷◌, All, Bool-cases, subst,
}
use docker_port_forward.Text.{Text, text_lt}
use docker_port_forward.Text.Order.{text_lt_asym, text_lt-trans_not}
use docker_port_forward.Helpers.Network.{insert_text, sort_texts}

-- No name comes before an earlier one.
abbrev pub IsSorted : List Text → Type 0
IsSorted [] = Unit
IsSorted (a ∷ names) = All (λ b. text_lt b a ≡ false) names × IsSorted names

insert-All :
    (P : Text → Type 0) (a : Text) (names : List Text)
    → P a
    → All P names
    → All P (insert_text a names)
unfolding insert_text
insert-All P a [] pa h = (pa, tt)
insert-All P a (b ∷ names) pa h = elim (Bool-cases (text_lt b a)) [
  | inl lt ↦ rw lt (h.0, insert-All P a names pa h.1)
  | inr ge ↦ rw ge (pa, h)
]

not_below_all :
    (a b : Text) (names : List Text)
    → text_lt b a ≡ false
    → All (λ m. text_lt m b ≡ false) names
    → All (λ m. text_lt m a ≡ false) names
not_below_all a b [] h k = tt
not_below_all a b (m ∷ names) h k = (text_lt-trans_not a b m h k.0, not_below_all a b names h k.1)

insert-IsSorted : (a : Text) (names : List Text) → IsSorted names → IsSorted (insert_text a names)
unfolding insert_text
insert-IsSorted a [] h = (tt, tt)
insert-IsSorted a (b ∷ names) h = elim (Bool-cases (text_lt b a)) [
  | inl lt ↦ rw lt (
    insert-All (λ m. text_lt m b ≡ false) a names (text_lt_asym b a lt) h.0,
    insert-IsSorted a names h.1,
  )
  | inr ge ↦ rw ge ((ge, not_below_all a b names ge h.0), h)
]

pub sort-IsSorted : (names : List Text) → IsSorted (sort_texts names)
unfolding sort_texts
sort-IsSorted [] = tt
sort-IsSorted (a ∷ names) = insert-IsSorted a (sort_texts names) (sort-IsSorted names)

All-of_insert :
    (P : Text → Type 0) (a : Text) (names : List Text)
    → All P (insert_text a names)
    → P a × All P names
unfolding insert_text
All-of_insert P a [] h = h
All-of_insert P a (b ∷ names) h = elim (Bool-cases (text_lt b a)) [
  | inl lt ↦
      let opened : insert_text a (b ∷ names) ≡ b ∷ insert_text a names =
        rw (insert_text, lt) refl in
      let (pb, rest) = subst (All P) opened h in
      let (pa, ps) = All-of_insert P a names rest in (pa, (pb, ps))
  | inr ge ↦
      let opened : insert_text a (b ∷ names) ≡ a ∷ b ∷ names = rw (insert_text, ge) refl in
      subst (All P) opened h
]

pub All-of_sort : (P : Text → Type 0) (names : List Text) → All P (sort_texts names) → All P names
unfolding sort_texts
All-of_sort P [] h = tt
All-of_sort P (a ∷ names) h =
    let (pa, ps) = All-of_insert P a (sort_texts names) h in (pa, All-of_sort P names ps)

pub sort-All : (P : Text → Type 0) (names : List Text) → All P names → All P (sort_texts names)
unfolding sort_texts
sort-All P [] h = tt
sort-All P (a ∷ names) h = insert-All P a (sort_texts names) h.0 (sort-All P names h.1)

All-mono :
    (P Q : Text → Type 0)
    → ((a : Text) → P a → Q a)
    → (names : List Text) → All P names
    → All Q names
All-mono P Q f [] h = tt
All-mono P Q f (a ∷ names) h = (f a h.0, All-mono P Q f names h.1)

pub members : (names : List Text) → All (λ m. In m names) names
members [] = tt
members (a ∷ names) =
    (inl refl, All-mono (λ m. In m names) (λ m. In m (a ∷ names)) (λ m. inr) names (members names))
