-- ===== src/Helpers/Network.antt =====
-- internal/forward.go: `pickTargetNetwork`, the network that the helper joins and what it dials there.
use docker_port_forward.Common.{
  Bool, true, false, not, ◌&&◌, ◌||◌, Option, none, some, List, [], ◌∷◌, ◌++◌, if◌then◌else◌,
  Result, ok, err, is_nil,
}
use docker_port_forward.Text.{Text, codes, text_eq, text_lt, trim_prefix}
use docker_port_forward.Netip.{Addr, is_valid, addr_string}
use docker_port_forward.Docker.{
  Client, Inspect, Error, inspecting_network, no_networks, unusable_network, not_attached,
  no_address_on, internal_only, network_is_internal, no_routable_address, M, pure, fail, ◌>>=◌,
  wrap,
}
use docker_port_forward.Helpers.Check.{endpoint, attached_to, bridge}

abbrev pub slash : Text
slash = b'/' ∷ []

-- An address that is valid, as what the helper dials on the network.
abbrev pub dial : Text → Text → Option Addr → Option Text
dial name network none = none
dial name network (some addr) =
    if not (is_valid addr)
    then none
    else if not (text_eq network bridge) && not (is_nil name)
    then some name
    else some (addr_string addr)

unfoldable pub target_address : Inspect → Text → Option Text
target_address info network = dial (trim_prefix slash info.name) network (endpoint info network)

-- `sort.Strings`
unfoldable pub insert_text : Text → List Text → List Text
insert_text a [] = a ∷ []
insert_text a (b ∷ rest) =
    let further = insert_text a rest in if text_lt b a then b ∷ further else a ∷ b ∷ rest

unfoldable pub sort_texts : List Text → List Text
sort_texts [] = []
sort_texts (a ∷ rest) = insert_text a (sort_texts rest)

unfoldable pub is_reserved : Text → Bool
is_reserved name = text_eq name bridge || text_eq name (codes "host") || text_eq name (codes "none")

-- the names of the user-defined networks
unfoldable pub user_defined : List (Text × Option Addr) → List Text
user_defined [] = []
user_defined ((name, _) ∷ rest) =
    let further = user_defined rest in if is_reserved name then further else name ∷ further

-- what is left when no user-defined network will do; `internal` are those that were passed over
unfoldable pub fall_back : Inspect → List Text → Result Error (Text × Text)
fall_back info internal = elim (target_address info bridge) [
  | some addr ↦ ok (bridge, addr)
  | none ↦ err (if is_nil internal then no_routable_address else internal_only internal)
]

module _ (c : Client) where
  unfoldable pub internal_network : Text → M c.World Bool
  internal_network network = wrap (inspecting_network network) (c.network_inspect network)

  -- The loop over the sorted names.
  unfoldable pub first_usable : Inspect → List Text → List Text → M c.World (Text × Text)
  first_usable info internal [] w = (fall_back info internal, w)
  first_usable info internal (name ∷ names) w = elim (target_address info name) [
    | none ↦ first_usable info internal names w
    | some addr ↦
        let (r, w') = internal_network name w in
        elim r [
          | err e ↦ (err e, w')
          | ok true ↦ first_usable info (internal ++ name ∷ []) names w'
          | ok false ↦ (ok (name, addr), w')
        ]
  ]

  -- the network's own checks; the default bridge is not inspected
  unfoldable pub check_requested : Text → Text → M c.World (Text × Text)
  check_requested requested addr = if text_eq requested bridge then pure (requested, addr) else do
    internal ← internal_network requested
    if internal then fail (network_is_internal requested) else pure (requested, addr)

  unfoldable pub pick_requested_network : Inspect → Text → M c.World (Text × Text)
  pick_requested_network info requested =
      if text_eq requested (codes "host") || text_eq requested (codes "none")
      then fail (unusable_network requested)
      else if not (attached_to info requested)
      then fail (not_attached requested)
      else elim (target_address info requested) [
        | none ↦ fail (no_address_on requested)
        | some addr ↦ check_requested requested addr
      ]

  abbrev pub pick_in : Inspect → Text → Option (List (Text × Option Addr)) → M c.World (Text × Text)
  pick_in info requested none = fail no_networks
  pick_in info requested (some []) = fail no_networks
  pick_in info requested (some (n ∷ networks)) =
      if is_nil requested
      then first_usable info [] (sort_texts (user_defined (n ∷ networks)))
      else pick_requested_network info requested

  unfoldable pub pick_target_network : Inspect → Text → M c.World (Text × Text)
  pick_target_network info requested = pick_in info requested info.networks
