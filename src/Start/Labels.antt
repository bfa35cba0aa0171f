-- ===== src/Start/Labels.antt =====
-- internal/forward.go: the labels that `buildHelperContainerConfig` gives a helper.
use docker_port_forward.Common.{Bool, List, [], ◌∷◌, ◌++◌, if◌then◌else◌, is_nil}
use docker_port_forward.Text.{Text, codes, join, itoa}
use docker_port_forward.Netip.{Prefix}
use docker_port_forward.Ports.{PortPair, normalize_protocol, protocol_text}
use docker_port_forward.Bindings.{
  add_address, pair_addresses, encode_port_pairs, encode_bindings, comma,
}
use docker_port_forward.Docker.{Labels}
use docker_port_forward.Options.{source_range_label}
use docker_port_forward.Helpers.{
  label_port_forward, label_target, label_target_name, label_target_network, label_target_address,
  label_session, label_name, label_ports, label_bindings, label_addresses, label_source_range,
  sort_texts,
}

-- The fields of `helperConfig` that the labels are made from.
pub record HelperConfig : Type 0 where
  pub target_id : Text
  pub target_name : Text
  pub target_network : Text
  pub target_address : Text
  pub pairs : List PortPair
  pub addresses : List Text
  pub name : Text
  pub session : Text
  pub extra_labels : Labels
  pub source_range : Prefix

abbrev pub add_all : List Text → List Text → List Text
add_all out [] = out
add_all out (a ∷ rest) = add_all (add_address out a) rest

-- the remote port and protocol, as `network.ParsePort` reads them
unfoldable pub port_name : PortPair → Text
port_name p = itoa p.remote_port ++ (b'/' ∷ protocol_text (normalize_protocol p.protocol))

-- Whether `network.ParsePort` gives no error; a pair for which it does is not bound.
module _ (parses_port : Text → Bool) where
  -- The keys of the map `boundAddresses`.
  unfoldable pub bound_addresses : List Text → List Text → List PortPair → List Text
  bound_addresses defaults out [] = out
  bound_addresses defaults out (p ∷ pairs) =
      bound_addresses defaults
        (if parses_port (port_name p) then add_all out (pair_addresses p defaults) else out) pairs

  unfoldable pub own_labels : HelperConfig → Labels
  own_labels h =
      (label_port_forward, codes "true")
      ∷ (label_target, h.target_id)
      ∷ (label_target_name, h.target_name)
      ∷ (label_target_network, h.target_network)
      ∷ (label_target_address, h.target_address)
      ∷ (label_session, h.session)
      ∷ (label_name, h.name)
      ∷ (label_ports, encode_port_pairs h.pairs)
      ∷ (label_bindings, encode_bindings h.pairs h.addresses)
      ∷ (label_addresses, join comma (sort_texts (bound_addresses h.addresses [] h.pairs)))
      ∷ []

  abbrev pub range_labels : Text → Labels
  range_labels range = if is_nil range then [] else (label_source_range, range) ∷ []

  -- A label that is set later stands in front, and the user's labels are set last.
  unfoldable pub helper_labels : HelperConfig → Labels
  helper_labels h =
      h.extra_labels ++ (range_labels (source_range_label h.source_range) ++ own_labels h)
