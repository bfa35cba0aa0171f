-- ===== src/Commands/Rows.antt =====
-- commands/port_forward_cleanup.go: `formatHelperRow` and `truncateID`, and the texts of the reasons in
-- internal/drift.go.
use docker_port_forward.Common.{
  ℕ, Bool, none, some, [], ◌++◌, if◌then◌else◌, is_nil, ltb, length, take,
}
use docker_port_forward.Text.{Text, codes}
use docker_port_forward.Netip.{addr_string}
use docker_port_forward.Helpers.{
  StaleReason, on_internal, target_gone, detached, address_changed, Verdict,
}
use docker_port_forward.Library.{Helper}
use docker_port_forward.Commands.Quote.{quote}

-- an id is longer than 12 characters; those of the daemon are ASCII
unfoldable pub truncate_id : Text → Text
truncate_id id = if ltb 12 (length id) then take 12 id else id

unfoldable pub source_range_field : Text → Text
source_range_field range = if is_nil range then [] else codes " source-range=" ++ range

-- what the tables of `strconv.IsPrint` tell
module _ (is_print : ℕ → Bool) where
  unfoldable pub reason_text : StaleReason → Text
  reason_text (on_internal network) =
      codes "network "
      ++ (quote is_print network ++ codes " is internal, so none of its ports are published")
  reason_text (target_gone target) =
      codes "target container " ++ (quote is_print target ++ codes " no longer exists")
  reason_text (detached network) =
      codes "target is no longer attached to network " ++ quote is_print network
  reason_text (address_changed old new) =
      codes "target IP changed from " ++ (addr_string old ++ (codes " to " ++ addr_string new))

  abbrev pub stale_field : Verdict → Text
  stale_field none = []
  stale_field (some reason) = codes " stale=" ++ quote is_print (reason_text reason)

  unfoldable pub detail_fields : Helper → Text
  detail_fields h =
      codes " bindings="
      ++ (h.bindings
          ++ (codes " network="
              ++ (h.target_network
                  ++ (codes " address="
                      ++ (h.target_address ++ source_range_field h.source_range)))))

  unfoldable pub format_helper_row : Helper → Bool → Text
  format_helper_row h detailed =
      truncate_id h.id
      ++ (codes "  name="
          ++ (h.name
              ++ (codes " target="
                  ++ (truncate_id h.target
                      ++ (codes " ports="
                          ++ (h.ports
                              ++ ((if detailed then detail_fields h else [])
                                  ++ stale_field h.stale)))))))
