-- ===== src/Start/Recorded.antt =====
-- internal/forward.go: a helper is found again by the labels that it was given.
use docker_port_forward.Common.{
  ◌≡◌, refl, sym, subst, ap, ◌∙◌, Bool, true, false, In, inl, inr, Bool-cases, List, [], ◌∷◌, ◌++◌,
  All, any, map, arith, int_eq_refl, is_nil,
}
use docker_port_forward.Text.{Text, text_eq, text_eq_refl}
use docker_port_forward.Ports.{
  PortPair, Protocol, unset, tcp, udp, other, protocol_eq, normalize_protocol,
}
use docker_port_forward.Bindings.{encode_port_pairs, decode_port_pairs}
use docker_port_forward.Bindings.RoundTrip.{IsRecordable, recorded, decode-encode_port_pairs}
use docker_port_forward.Docker.{Labels, Summary, label}
use docker_port_forward.Options.{source_range_label}
use docker_port_forward.Helpers.{
  label_ports, overlaps, summary_running, recorded_pairs, shares_pair, wanted, wanted_key,
  normalized, pair_eq,
}
use docker_port_forward.Start.Labels.{HelperConfig, own_labels, helper_labels}

-- The labels do not set the key.
abbrev pub Leaves : Text → Labels → Type 0
Leaves key = All (λ e. text_eq key e.0 ≡ false)

pub label-Leaves :
    (key : Text) (before after : Labels)
    → Leaves key before
    → label key (before ++ after) ≡ label key after
unfolding label
label-Leaves key [] after h = refl
label-Leaves key ((k, v) ∷ before) after h = rw (label, h.0) (label-Leaves key before after h.1)

any-In : {A : Type 0} (f : A → Bool) (x : A) (xs : List A) → In x xs → f x ≡ true → any f xs ≡ true
any-In f x [] i h = elim i [ ]
any-In f x (y ∷ xs) (inl e) h = let first : f y ≡ true = ap f (sym e) ∙ h in ground (arith, first)
any-In f x (y ∷ xs) (inr i) h = ground (arith, any-In f x xs i h)

In-map : {A B : Type 0} (f : A → B) (x : A) (xs : List A) → In x xs → In (f x) (map f xs)
In-map f x [] i = elim i [ ]
In-map f x (y ∷ xs) (inl e) = inl (ap f e)
In-map f x (y ∷ xs) (inr i) = inr (In-map f x xs i)

protocol_eq_refl : (p : Protocol) → protocol_eq p p ≡ true
unfolding protocol_eq
protocol_eq_refl unset = refl
protocol_eq_refl tcp = refl
protocol_eq_refl udp = refl
protocol_eq_refl (other o) = text_eq_refl o

normalize_twice : (p : Protocol) → normalize_protocol (normalize_protocol p) ≡ normalize_protocol p
unfolding normalize_protocol
normalize_twice unset = refl
normalize_twice tcp = refl
normalize_twice udp = refl
normalize_twice (other o) = refl

pair_eq_refl : (p : PortPair) → pair_eq p p ≡ true
unfolding pair_eq
pair_eq_refl p = ground (
  arith,
  text_eq_refl p.address,
  int_eq_refl p.local_port,
  int_eq_refl p.remote_port,
  protocol_eq_refl p.protocol,
)

normalized-recorded : (p : PortPair) → normalized (recorded p) ≡ wanted_key p
normalized-recorded p = λ i. record (wanted_key p) { protocol = normalize_twice p.protocol i }

labels_ports :
    (parses_port : Text → Bool) (h : HelperConfig)
    → Leaves label_ports h.extra_labels
    → label label_ports (helper_labels parses_port h) ≡ encode_port_pairs h.pairs
unfolding helper_labels own_labels label text_eq
labels_ports parses_port h leaves =
    label-Leaves label_ports h.extra_labels _ leaves
    ∙ elim (Bool-cases (is_nil (source_range_label h.source_range))) [
      | inl none_given ↦ rw none_given refl
      | inr given ↦ rw given refl
    ]

-- The helper that is created for a request is found again: the ports label reads back as the pairs
-- of the request, and once the helper runs it covers every request that shares a local port, a
-- remote port and a protocol with it, if its ports fit into an `int`, its protocols are known, and
-- the user's labels do not set the ports label.
pub helper_labels-overlaps :
    (parses_port : Text → Bool) (h : HelperConfig) (s : Summary) (requested : List PortPair)
    (p q : PortPair)
    → All IsRecordable h.pairs
    → Leaves label_ports h.extra_labels
    → s.labels ≡ helper_labels parses_port h
    → summary_running s ≡ true
    → In p h.pairs
    → In q requested
    → wanted_key p ≡ wanted_key q
    → (recorded_pairs s ≡ map recorded h.pairs) × (overlaps (wanted requested) s ≡ true)
unfolding overlaps shares_pair wanted recorded_pairs
helper_labels-overlaps parses_port h s requested p q recordable leaves labels running ip iq same =
    let text : label label_ports s.labels ≡ encode_port_pairs h.pairs =
      subst (λ l. label label_ports l ≡ encode_port_pairs h.pairs) (sym labels)
        (labels_ports parses_port h leaves) in
    let pairs : recorded_pairs s ≡ map recorded h.pairs =
      ap decode_port_pairs text ∙ decode-encode_port_pairs h.pairs recordable in
    let hit : pair_eq (normalized (recorded p)) (wanted_key q) ≡ true =
      ap (λ k. pair_eq k (wanted_key q)) (normalized-recorded p ∙ same)
      ∙ pair_eq_refl (wanted_key q) in
    let wants : any (pair_eq (normalized (recorded p))) (map wanted_key requested) ≡ true =
      any-In (pair_eq (normalized (recorded p))) (wanted_key q) (map wanted_key requested)
        (In-map wanted_key q requested iq) hit in
    let shares : shares_pair (map wanted_key requested) (map recorded h.pairs) ≡ true =
      any-In (λ r. any (pair_eq (normalized r)) (map wanted_key requested)) (recorded p)
        (map recorded h.pairs) (In-map recorded p h.pairs ip) wants in
    let found : shares_pair (map wanted_key requested) (recorded_pairs s) ≡ true =
      subst (λ l. shares_pair (map wanted_key requested) l ≡ true) (sym pairs) shares in
    (pairs, ground (arith, found, running))
