-- ===== src/Launch/Published.antt =====
-- internal/forward.go: the bindings that `buildHelperContainerConfig` publishes.
use docker_port_forward.Text.{itoa, text_eq_comm, Text, text_eq, text_eq_sound}
use docker_port_forward.Ports.{protocol_text, normalize_protocol, PortPair}
use docker_port_forward.Netip.{parse_addr}
use docker_port_forward.Common.{
  ◌∙◌, ◌≡◌, refl, sym, ap, Bool, true, false, Option, none, some, List, [], ◌∷◌, ◌++◌, map,
  Bool-cases, inl, inr, append-nil, append_assoc, if◌then◌else◌,
}
use docker_port_forward.Bindings.{pair_addresses, concat_map}
use docker_port_forward.Start.{port_name}
use docker_port_forward.Launch.Machine.{PortBinding}
use docker_port_forward.Launch.Config.{
  add_binding, add_bindings, bind_pair, binding_on, port_bindings, build_helper_container_config,
  HelperSpec,
}

-- what the map holds at a port
abbrev pub bindings_at : Text → List (Text × List PortBinding) → List PortBinding
bindings_at port [] = []
bindings_at port ((key, list) ∷ rest) = if text_eq port key then list else bindings_at port rest

-- What a pair asks for at a port, if that is the pair's own: a binding on each of its addresses, which
-- has the pair's local port.
abbrev pub own_bindings : Text → List Text → PortPair → Option Text → List PortBinding
own_bindings port defaults p none = []
own_bindings port defaults p (some key) =
    if text_eq port key
    then map (λ addr. record { host_ip = parse_addr addr; host_port = itoa p.local_port })
        (pair_addresses p defaults)
    else []

-- the remote port and the protocol of a pair, as they are written for Docker
abbrev pub remote_text : PortPair → Text
remote_text p = itoa p.remote_port ++ (b'/' ∷ protocol_text (normalize_protocol p.protocol))

abbrev if_own : Bool → List PortBinding → List PortBinding
if_own true list = list
if_own false list = []

bindings_at-add_binding :
    (port key : Text) (b : PortBinding) (out : List (Text × List PortBinding))
    → bindings_at port (add_binding key b out)
      ≡ bindings_at port out ++ if_own (text_eq port key) (b ∷ [])
unfolding add_binding
bindings_at-add_binding port key b [] = elim (Bool-cases (text_eq port key)) [
  | inl t ↦ rw t refl
  | inr f ↦ rw f refl
]
bindings_at-add_binding port key b ((k, list) ∷ rest) = elim (Bool-cases (text_eq key k)) [
  | inl t ↦
      let e = text_eq_sound key k t in
      elim (Bool-cases (text_eq port k)) [
        | inl u ↦ let v : text_eq port key ≡ true = rw e u in rw (if◌then◌else◌, t, u, v) refl
        | inr u ↦
            let v : text_eq port key ≡ false = rw e u in
            rw (if◌then◌else◌, t, u, v) (sym (append-nil (bindings_at port rest)))
      ]
  | inr t ↦ elim (Bool-cases (text_eq port k)) [
    | inl u ↦
        let v : text_eq port key ≡ false = rw (text_eq_sound port k u, text_eq_comm k key) t in
        rw (if◌then◌else◌, t, u, v) (sym (append-nil list))
    | inr u ↦ rw (if◌then◌else◌, t, u) (bindings_at-add_binding port key b rest)
  ]
]

joined :
    (own : Bool) (list : List PortBinding) (b : PortBinding) (others : List PortBinding)
    → (list ++ if_own own (b ∷ [])) ++ if_own own others ≡ list ++ if_own own (b ∷ others)
joined true list b others = append_assoc list (b ∷ []) others
joined false list b others = append_assoc list [] []

owned :
    (port key : Text) (list : List PortBinding)
    → if_own (text_eq port key) list ≡ (if text_eq port key then list else [])
owned port key list = elim (Bool-cases (text_eq port key)) [
  | inl t ↦ rw (if◌then◌else◌, t) refl
  | inr f ↦ rw (if◌then◌else◌, f) refl
]

bindings_at-add_bindings :
    (port key : Text) (p : PortPair) (addrs : List Text) (out : List (Text × List PortBinding))
    → bindings_at port (add_bindings key p addrs out)
      ≡ bindings_at port out ++ if_own (text_eq port key) (map (binding_on p) addrs)
bindings_at-add_bindings port key p [] out = elim (Bool-cases (text_eq port key)) [
  | inl t ↦ rw t (sym (append-nil (bindings_at port out)))
  | inr f ↦ rw f (sym (append-nil (bindings_at port out)))
]
bindings_at-add_bindings port key p (addr ∷ addrs) out =
    bindings_at-add_bindings port key p addrs (add_binding key (binding_on p addr) out)
    ∙ ap (λ l. l ++ if_own (text_eq port key) (map (binding_on p) addrs))
        (bindings_at-add_binding port key (binding_on p addr) out)
    ∙ joined (text_eq port key) (bindings_at port out) (binding_on p addr)
        (map (binding_on p) addrs)

bindings_at-bind_pair :
    (port : Text) (defaults : List Text) (p : PortPair) (o : Option Text)
    (out : List (Text × List PortBinding))
    → bindings_at port (bind_pair defaults p o out)
      ≡ bindings_at port out ++ own_bindings port defaults p o
bindings_at-bind_pair port defaults p none out = sym (append-nil (bindings_at port out))
bindings_at-bind_pair port defaults p (some key) out =
    bindings_at-add_bindings port key p (pair_addresses p defaults) out
    ∙ ap (λ l. bindings_at port out ++ l)
        (owned port key (map (binding_on p) (pair_addresses p defaults)))

bindings_at-port_bindings :
    (parse_port : Text → Option Text) (port : Text) (defaults : List Text)
    (out : List (Text × List PortBinding)) (pairs : List PortPair)
    → bindings_at port (port_bindings parse_port defaults out pairs)
      ≡ bindings_at port out
        ++ concat_map (λ p. own_bindings port defaults p (parse_port (port_name p))) pairs
unfolding port_bindings
bindings_at-port_bindings parse_port port defaults out [] = sym (append-nil (bindings_at port out))
bindings_at-port_bindings parse_port port defaults out (p ∷ pairs) =
    bindings_at-port_bindings parse_port port defaults
      (bind_pair defaults p (parse_port (port_name p)) out) pairs
    ∙ ap (λ l. l ++ concat_map (λ p. own_bindings port defaults p (parse_port (port_name p))) pairs)
        (bindings_at-bind_pair port defaults p (parse_port (port_name p)) out)
    ∙ append_assoc (bindings_at port out) _ _

-- The helper publishes exactly the bindings that are asked for. At each port they are, in the order of
-- the pairs, one for each address that a pair with that remote port and protocol is bound on: the
-- parsed address, with the pair's local port in decimal. A pair whose remote port is no port publishes
-- nothing.
pub published_eq :
    (parse_port : Text → Option Text) (spec : HelperSpec) (port : Text)
    → bindings_at port (build_helper_container_config parse_port spec).bindings
      ≡ concat_map
          (λ p. own_bindings port spec.labelled.addresses p (parse_port (remote_text p)))
          spec.labelled.pairs
unfolding build_helper_container_config port_name
published_eq parse_port spec port =
    bindings_at-port_bindings parse_port port spec.labelled.addresses [] spec.labelled.pairs
