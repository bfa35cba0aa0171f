-- ===== src/Bindings/RoundTrip/Bound.antt =====
-- `DecodeBindings` undoes `EncodeBindings`.
use mathlib.Core.Path.{ap₂}
use docker_port_forward.Common.{
  ◌≡◌, refl, ◌∙◌, some, List, [], ◌∷◌, ◌++◌, map, All, All-append, arith, ap,
}
use docker_port_forward.Text.{Text, Lacks}
use docker_port_forward.Ports.{
  Protocol, tcp, udp, normalize_protocol, protocol_suffix, PortPair, pair_string, parse_port_spec,
}
use docker_port_forward.Ports.RoundTrip.{
  IsKnown, IsCanonical, IsForeign, parse-string, pair_string-IsEntry,
}
use docker_port_forward.Bindings.Defs.{
  keep_some, concat_map, binding_texts, pair_addresses, to_option, encode_bindings, decode_bindings,
}
use docker_port_forward.Bindings.RoundTrip.Lists.{
  IsEntry, decode_list-join, keep_some-map, keep_some-append,
}

-- A pair that can be printed at a bind address, in a label whose entries stand between commas.
pub record IsBindable (p : PortPair) (a : Text) : Type 0 where
  pub canonical : IsCanonical (record p { address = a })
  pub no_comma : Lacks b',' a

-- What the label keeps of a pair: one pair for each address, with the protocol normalised.
abbrev pub bound : List Text → PortPair → List PortPair
bound defaults p =
    map (λ a. record p { address = a; protocol = normalize_protocol p.protocol })
      (pair_addresses p defaults)

suffix-Lacks : (proto : Protocol) → IsKnown proto → Lacks b',' (protocol_suffix proto)
unfolding protocol_suffix
suffix-Lacks tcp known = tt
suffix-Lacks udp known = ground arith
suffix-Lacks _ known = elim known [ ]

comma-IsForeign : IsForeign b','
comma-IsForeign = ((λ h. omega arith), (λ e. omega arith), (λ e. omega arith), λ e. omega arith)

module _ (p : PortPair) where
  entries :
      (addrs : List Text)
      → All (IsBindable p) addrs
      → All IsEntry (map (λ a. pair_string (record p { address = a })) addrs)
  entries [] h = tt
  entries (a ∷ addrs) h = (
    pair_string-IsEntry b',' _ h.0.canonical comma-IsForeign h.0.no_comma
        (suffix-Lacks _ h.0.canonical.known),
    entries addrs h.1,
  )

  parsed :
      (addrs : List Text)
      → All (IsBindable p) addrs
      → All
          (λ a.
            to_option (parse_port_spec (pair_string (record p { address = a })))
            ≡ some (record p { address = a; protocol = normalize_protocol p.protocol }))
          addrs
  parsed [] h = tt
  parsed (a ∷ addrs) h = (ap to_option (parse-string _ h.0.canonical), parsed addrs h.1)

module _ (defaults : List Text) where
  -- Every pair can be printed at each of its addresses.
  abbrev pub AllBindable : List PortPair → Type 0
  AllBindable = All (λ p. All (IsBindable p) (pair_addresses p defaults))

  all_entries :
      (ps : List PortPair) → AllBindable ps → All IsEntry (concat_map (binding_texts defaults) ps)
  unfolding binding_texts
  all_entries [] h = tt
  all_entries (p ∷ ps) h =
      All-append IsEntry (binding_texts defaults p) _ (entries p _ h.0) (all_entries ps h.1)

  keep_some-concat_map :
      (ps : List PortPair)
      → AllBindable ps
      → keep_some (λ tok. to_option (parse_port_spec tok)) (concat_map (binding_texts defaults) ps)
        ≡ concat_map (bound defaults) ps
  unfolding binding_texts
  keep_some-concat_map [] h = refl
  keep_some-concat_map (p ∷ ps) h =
      keep_some-append (λ tok. to_option (parse_port_spec tok)) (binding_texts defaults p) _
      ∙ ap₂ ◌++◌
          (keep_some-map (λ tok. to_option (parse_port_spec tok))
            (λ a. pair_string (record p { address = a }))
            (λ a. record p { address = a; protocol = normalize_protocol p.protocol })
            (pair_addresses p defaults) (parsed p _ h.0))
          (keep_some-concat_map ps h.1)

-- The bindings label is read back as one pair for each pair and each of its addresses, in order, if
-- each can be printed as a port spec there and no address holds a comma.
pub decode-encode_bindings :
    (ps : List PortPair) (defaults : List Text)
    → AllBindable defaults ps
    → decode_bindings (encode_bindings ps defaults) ≡ concat_map (bound defaults) ps
unfolding decode_bindings encode_bindings
decode-encode_bindings ps defaults h =
    decode_list-join (λ tok. to_option (parse_port_spec tok)) _ (all_entries defaults ps h)
    ∙ keep_some-concat_map defaults ps h
