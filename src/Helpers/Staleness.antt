-- ===== src/Helpers/Staleness.antt =====
-- internal/drift.go: what a verdict of `CheckHelper` says of the helper's target.
use docker_port_forward.Common.{◌≢◌, Option, ◌≡◌, Bool, true, false, none, some, Result, ok, err}
use docker_port_forward.Text.{Text, text_eq}
use docker_port_forward.Netip.{Addr, is_valid, addr_eq}
use docker_port_forward.Docker.{Client, Inspect, DockerError, is_not_found}
use docker_port_forward.Helpers.Check.{
  StaleReason, on_internal, target_gone, detached, address_changed, endpoint, attached_to,
  is_running, bridge,
}

-- A daemon whose answers do not change while a helper is checked.
pub record Steady (c : Client) : Type 1 where
  pub find : c.World → Text → Result DockerError Inspect
  pub internal : c.World → Text → Result DockerError Bool
  pub inspects : (id : Text) (w : c.World) → c.container_inspect id w ≡ (find w id, w)
  pub inspects_network :
      (name : Text) (w : c.World) → c.network_inspect name w ≡ (internal w name, w)

-- What the two verdicts say, of the recorded address, network and target id, and of the address
-- that the recorded one parses to, when it is one.
module _ (find : Text → Result DockerError Inspect) (internal : Text → Result DockerError Bool)
    (address network target : Text) (parsed : Option Addr) where
  -- The inspection of the target: by the recorded address if that is a name, and else by the id.
  abbrev pub dialled : Text
  dialled = elim parsed [ none ↦ address | some _ ↦ target ]

  abbrev pub IsMissing : Result DockerError Inspect → Type 0
  IsMissing (ok _) = ⊥
  IsMissing (err e) = is_not_found e ≡ true

  abbrev pub IsDetached : Result DockerError Inspect → Type 0
  IsDetached (ok info) = attached_to info network ≡ false
  IsDetached (err _) = ⊥

  abbrev pub Moved : Addr → Addr → Result DockerError Inspect → Type 0
  Moved old new (ok info) =
      (is_running info ≡ true)
      × (endpoint info network ≡ some new)
      × (is_valid new ≡ true)
      × (addr_eq new old ≡ false)
  Moved old new (err _) = ⊥

  abbrev pub Justified : StaleReason → Type 0
  Justified (on_internal name) =
      (name ≡ network) × (text_eq network bridge ≡ false) × (internal network ≡ ok true)
  Justified (target_gone name) = (name ≡ dialled) × IsMissing (find dialled)
  Justified (detached name) = (name ≡ network) × IsDetached (find dialled)
  Justified (address_changed old new) = (parsed ≡ some old) × Moved old new (find target)

  -- The container is attached to the network, under the recorded address if that is known. A
  -- stopped container has no address yet.
  abbrev pub StillThere : Option Addr → Result DockerError Inspect → Type 0
  StillThere none (ok info) = attached_to info network ≡ true
  StillThere (some old) (ok info) =
      (is_running info ≡ true)
      → (attached_to info network ≡ true)
        × ((new : Addr)
            → endpoint info network ≡ some new
            → is_valid new ≡ true
            → addr_eq new old ≡ true)
  StillThere _ (err _) = ⊥

  abbrev pub IsCurrent : Type 0
  IsCurrent =
      (text_eq network bridge ≡ false → internal network ≢ ok true)
      × StillThere parsed (find dialled)

  abbrev pub Holds : Option StaleReason → Type 0
  Holds none = IsCurrent
  Holds (some reason) = Justified reason
