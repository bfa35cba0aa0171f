-- ===== src/Helpers/Labels.antt =====
-- internal/forward.go: the labels of a helper container.
use docker_port_forward.Common.{[], ◌∷◌}
use docker_port_forward.Text.{Text, codes}
use docker_port_forward.Docker.{Summary}

abbrev pub label_port_forward : Text
label_port_forward = codes "com.dokku.port-forward"

abbrev pub label_target : Text
label_target = codes "com.dokku.port-forward.target"

abbrev pub label_ports : Text
label_ports = codes "com.dokku.port-forward.ports"

abbrev pub label_target_network : Text
label_target_network = codes "com.dokku.port-forward.target-network"

abbrev pub label_target_address : Text
label_target_address = codes "com.dokku.port-forward.target-address"

abbrev pub label_bindings : Text
label_bindings = codes "com.dokku.port-forward.bindings"

abbrev pub label_target_name : Text
label_target_name = codes "com.dokku.port-forward.target-name"

abbrev pub label_session : Text
label_session = codes "com.dokku.port-forward.session"

abbrev pub label_name : Text
label_name = codes "com.dokku.port-forward.name"

abbrev pub label_addresses : Text
label_addresses = codes "com.dokku.port-forward.addresses"

abbrev pub label_source_range : Text
label_source_range = codes "com.dokku.port-forward.source-range"

unfoldable pub helper_name : Summary → Text
helper_name c = elim c.names [ [] ↦ c.id | name ∷ _ ↦ name ]
