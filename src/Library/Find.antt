-- ===== src/Library/Find.antt =====
-- portforward/list.go: `findHelpers`.
use docker_port_forward.Common.{
  Bool, not, ◌&&◌, Option, none, some, List, [], ◌∷◌, if◌then◌else◌, Result, ok, err, is_nil,
}
use docker_port_forward.Text.{Text, codes, text_eq, trim_prefix}
use docker_port_forward.Docker.{
  Client, Summary, Inspect, ContainerState, Labels, Error, looking_up_helper, not_a_helper,
  resolving_target, listing_helpers, label, M, pure, wrap, ◌>>=◌,
}
use docker_port_forward.Helpers.{
  label_port_forward, label_target, label_ports, label_bindings, label_target_name,
  label_target_network, label_target_address, label_source_range, slash, list_helpers, check_helper,
  Verdict,
}
use docker_port_forward.Start.{is_current}

-- A helper as it is listed; `stale` has the reason when it is stale.
pub record Helper : Type 0 where
  pub id : Text
  pub name : Text
  pub target : Text
  pub ports : Text
  pub bindings : Text
  pub target_name : Text
  pub target_network : Text
  pub target_address : Text
  pub source_range : Text
  pub stale : Verdict

abbrev pub shown_name : List Text → Text
shown_name [] = []
shown_name (n ∷ _) = trim_prefix slash n

unfoldable pub helper_of : Summary → Verdict → Helper
helper_of s verdict = record {
  id = s.id;
  name = shown_name s.names;
  target = label label_target s.labels;
  ports = label label_ports s.labels;
  bindings = label label_bindings s.labels;
  target_name = label label_target_name s.labels;
  target_network = label label_target_network s.labels;
  target_address = label label_target_address s.labels;
  source_range = label label_source_range s.labels;
  stale = verdict;
}

abbrev pub status_of : Option ContainerState → Text
status_of none = []
status_of (some s) = s.status

abbrev pub summary_of : Text → Inspect → Option Labels → Result Error (List Summary)
summary_of name info none = err (not_a_helper name)
summary_of name info (some labels) =
    if not (text_eq (label label_port_forward labels) (codes "true"))
    then err (not_a_helper name)
    else ok (
        record {
          id = info.id;
          names = info.name ∷ [];
          labels = labels;
          state = status_of info.state;
        }
        ∷ [])

-- with `stale_only` the helpers that are not stale are passed over
abbrev pub keep_helper : Bool → Summary → Verdict → List Helper → List Helper
keep_helper stale_only s verdict rest =
    if stale_only && is_current verdict then rest else helper_of s verdict ∷ rest

module _ (c : Client) where
  unfoldable pub helper_by_name : Text → M c.World (List Summary)
  helper_by_name name = do
    info ← wrap (looking_up_helper name) (c.container_inspect name)
    λ w. (summary_of name info info.config_labels, w)

  unfoldable pub target_id_of : Text → M c.World Text
  target_id_of target =
      if is_nil target
      then pure []
      else do info ← wrap (resolving_target target) (c.container_inspect target); pure info.id

  unfoldable pub helpers_by_target : Text → M c.World (List Summary)
  helpers_by_target target = do
    target_id ← target_id_of target
    wrap listing_helpers (list_helpers c target_id)

  unfoldable pub summaries : Text → Text → M c.World (List Summary)
  summaries name target = if is_nil name then helpers_by_target target else helper_by_name name

  unfoldable pub check_each : Bool → List Summary → M c.World (List Helper)
  check_each stale_only [] w = (ok [], w)
  check_each stale_only (s ∷ list) w =
      let (v, w1) = check_helper c s w in
      elim v [
        | err e ↦ (err e, w1)
        | ok verdict ↦
            let (r, w2) = check_each stale_only list w1 in
            elim r [
              | err e ↦ (err e, w2)
              | ok rest ↦ (ok (keep_helper stale_only s verdict rest), w2)
            ]
      ]

  unfoldable pub find_helpers : Text → Text → Bool → M c.World (List Helper)
  find_helpers name target stale_only w =
      let (r, w') = summaries name target w in
      elim r [ err e ↦ (err e, w') | ok list ↦ check_each stale_only list w' ]
