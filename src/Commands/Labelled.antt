-- ===== src/Commands/Labelled.antt =====
-- commands/port_forward.go: which label flags `parseLabelFlags` accepts.
use docker_port_forward.Common.{
  Result-cases, ◌≡◌, ◌≢◌, ◌↔◌, inl, inr, refl, sym, ap, ◌∙◌, Option, none, some, List, [], ◌∷◌,
  ◌++◌, ok, err, All, map, ok-injective,
}
use docker_port_forward.Text.{Text, Lacks, cut, cut-append}
use docker_port_forward.Text.Prefixed.{cut-some}
use docker_port_forward.Docker.{Labels}
use docker_port_forward.Commands.Flags.{label_entry, add_labels, parse_label_flags}

abbrev pub written : Text × Text → Text
written (key, value) = key ++ b'=' ∷ value

-- a key that is not empty and has no equals sign
abbrev pub IsKey : Text × Text → Type 0
IsKey (key, value) = (key ≢ []) × Lacks b'=' key

-- onto a list, so that the last one stands first
abbrev pub set_each : Labels → Labels → Labels
set_each out [] = out
set_each out (l ∷ labels) = set_each (l ∷ out) labels

label_entry-ok :
    (entry : Text) (o : Option (Text × Text)) (l : Text × Text)
    → label_entry entry o ≡ ok l
    → (o ≡ some l) × (l.0 ≢ [])
label_entry-ok entry none l e = cc
label_entry-ok entry (some ([], value)) l e = cc
label_entry-ok entry (some (c ∷ key, value)) l e =
    (ap (λ x. some x) (ok-injective e), (λ n. let f = ap (λ x. x.0) (ok-injective e) in cc))

entry_written :
    (entry : Text) (l : Text × Text)
    → label_entry entry (cut b'=' entry) ≡ ok l
    → (entry ≡ written l) × IsKey l
entry_written entry (key, value) e =
    let (cuts, nonempty) = label_entry-ok entry (cut b'=' entry) (key, value) e in
    let (same, lacks) = cut-some b'=' entry key value cuts in (same, (nonempty, lacks))

written_entry : (l : Text × Text) → IsKey l → label_entry (written l) (cut b'=' (written l)) ≡ ok l
written_entry ([], value) (nonempty, lacks) = absurd (nonempty refl)
written_entry (c ∷ key, value) (nonempty, lacks) = rw (cut-append b'=' (c ∷ key) value lacks) refl

-- the entries, and the labels that they were read as
abbrev pub AreWritten : Labels → List Text → Labels → Type 0
AreWritten out entries labels =
    (given : Labels) × (entries ≡ map written given)
    × All IsKey given
    × (labels ≡ set_each out given)

add_labels-AreWritten :
    (out labels : Labels) (entries : List Text)
    → add_labels out entries ≡ ok labels
    → AreWritten out entries labels
unfolding add_labels
add_labels-AreWritten out labels [] e = ([], refl, tt, sym (ok-injective e))
add_labels-AreWritten out labels (entry ∷ entries) e =
    elim (Result-cases (label_entry entry (cut b'=' entry))) [
      | inl (l, good) ↦
          let opened : add_labels out (entry ∷ entries) ≡ add_labels (l ∷ out) entries =
            rw (add_labels, good) refl in
          let (given, es, keys, ls) =
            add_labels-AreWritten (l ∷ out) labels entries (sym opened ∙ e) in
          let (same, key) = entry_written entry l good in
          (l ∷ given, (λ i. same i ∷ es i), (key, keys), ls)
      | inr (f, bad) ↦
          let opened : add_labels out (entry ∷ entries) ≡ err f = rw (add_labels, bad) refl in
          let clash : err f ≡ ok labels = sym opened ∙ e in cc
    ]

written-add_labels :
    (out : Labels) (given : Labels)
    → All IsKey given
    → add_labels out (map written given) ≡ ok (set_each out given)
unfolding add_labels
written-add_labels out [] keys = refl
written-add_labels out (l ∷ given) (key, keys) =
    rw (add_labels, written_entry l key) (written-add_labels (l ∷ out) given keys)

-- `parseLabelFlags` accepts exactly the lists whose entries are a key, an equals sign and a value, where
-- the key is not empty and the value may hold further equals signs. The labels are those keys with
-- their values; of two with the same key the later one stands in front, where it is found.
pub parse_label_flags_iff :
    (entries : List Text) (labels : Labels)
    → (parse_label_flags entries ≡ ok labels) ↔ AreWritten [] entries labels
unfolding parse_label_flags
parse_label_flags_iff entries labels = (add_labels-AreWritten [] labels entries, written_back)
  where
    written_back : AreWritten [] entries labels → add_labels [] entries ≡ ok labels
    written_back (given, es, keys, ls) = rw (es, ls) (written-add_labels [] given keys)
