-- ===== src/Bindings/RoundTrip/Lists.antt =====
-- A list of entries between commas is read back.
use docker_port_forward.Common.{
  map, some, ◌++◌, Option-cases, inl, inr, ◌≡◌, refl, false, Option, List, [], ◌∷◌, is_nil, All,
}
use docker_port_forward.Text.{Text, Lacks, join, split-join}
use docker_port_forward.Bindings.Defs.{keep_some, decode_list, comma}

-- An entry that can stand between commas.
abbrev pub IsEntry : Text → Type 0
IsEntry t = (is_nil t ≡ false) × Lacks b',' t

join-ne-nil : (t : Text) (ts : List Text) → is_nil t ≡ false → is_nil (join comma (t ∷ ts)) ≡ false
unfolding join
join-ne-nil [] ts h = cc
join-ne-nil (c ∷ t) [] h = refl
join-ne-nil (c ∷ t) (u ∷ ts) h = refl

entries-Lacks : (ts : List Text) → All IsEntry ts → All (Lacks b',') ts
entries-Lacks [] h = tt
entries-Lacks (t ∷ ts) h = (h.0.1, entries-Lacks ts h.1)

pub decode_list-join :
    {B : Type 0} (f : Text → Option B) (ts : List Text)
    → All IsEntry ts
    → decode_list f (join comma ts) ≡ keep_some f ts
unfolding decode_list
decode_list-join f [] h = unfold join in refl
decode_list-join f (t ∷ ts) h =
    rw (join-ne-nil t ts h.0.0, split-join b',' t ts (entries-Lacks (t ∷ ts) h)) refl

pub keep_some-map :
    {A B C : Type 0} (f : B → Option C) (g : A → B) (h : A → C) (xs : List A)
    → All (λ x. f (g x) ≡ some (h x)) xs
    → keep_some f (map g xs) ≡ map h xs
keep_some-map f g h [] e = refl
keep_some-map f g h (x ∷ xs) e = rw (keep_some, e.0, keep_some-map f g h xs e.1) refl

pub keep_some-append :
    {B C : Type 0} (f : B → Option C) (xs ys : List B)
    → keep_some f (xs ++ ys) ≡ keep_some f xs ++ keep_some f ys
keep_some-append f [] ys = refl
keep_some-append f (x ∷ xs) ys = elim (Option-cases (f x)) [
  | inl e ↦ rw (keep_some, e, keep_some-append f xs ys) refl
  | inr (z, e) ↦ rw (keep_some, e, keep_some-append f xs ys) refl
]
