-- ===== src/Target/Tests.antt =====
-- The theorems on targets at concrete inputs.
use docker_port_forward.Target.Parse.{parse_trimmed_target, service, ParsedTarget, parse_target}
use docker_port_forward.Text.{
  is_space, cut_prefix, trim_prefix, text_eq, atoi, Text, codes, trim_space,
}
use docker_port_forward.Target.Resolve.{
  insert_summary, container_number, sort_summaries, running_only, service_filters, resolve_service,
  compose_container_num_label,
}
use docker_port_forward.Docker.{label, Client, Summary, DockerError, listing_containers}
use docker_port_forward.Helpers.{summary_running}
use docker_port_forward.Common.{◌≡◌, ◌≢◌, ◌↔◌, refl, true, List, [], ◌∷◌, ok, err}
use docker_port_forward.Target.Parsed.{IsWritten, parse_target_iff}
use docker_port_forward.Target.Resolved.{Picks, resolve_service-Picks}

abbrev replica : Text → Text → Text → Summary
replica id state number = record {
  id = id;
  names = codes "/web" ∷ [];
  labels = (compose_container_num_label, number) ∷ [];
  state = state;
}

-- The first replica has stopped, and one has no number.
abbrev replicas : List Summary
replicas =
    replica (codes "a") (codes "exited") (codes "1")
    ∷ replica (codes "b") (codes "running") []
    ∷ replica (codes "c") (codes "running") (codes "3")
    ∷ replica (codes "d") (codes "running") (codes "3")
    ∷ []

abbrev gone : DockerError
gone = record { message = []; not_found = true }

abbrev compose : Client
compose = record {
  World = Unit {0};
  container_inspect = λ id w. (err gone, w);
  container_list = λ filters w. (ok replicas, w);
  container_remove = λ id w. (err gone, w);
  network_inspect = λ name w. (err gone, w);
}

web_found :
    (resolve_service compose (codes "demo") (codes "web") tt).0
    ≡ ok (record { container_id = codes "c"; container_name = codes "web" })
unfolding resolve_service sort_summaries running_only summary_running text_eq insert_summary
    container_number atoi label trim_prefix
web_found = refl

resolve_service-Picks_example :
    ((list : List Summary)
      → (compose.container_list (service_filters (codes "demo") (codes "web")) tt).0 ≡ ok list
      → Picks
          (codes "demo")
          (codes "web")
          list
          (resolve_service compose (codes "demo") (codes "web") tt).0)
    × ((e : DockerError)
        → (compose.container_list (service_filters (codes "demo") (codes "web")) tt).0 ≡ err e
        → (resolve_service compose (codes "demo") (codes "web") tt).0 ≡ err (listing_containers e))
resolve_service-Picks_example = resolve_service-Picks compose (codes "demo") (codes "web") tt

abbrev web : ParsedTarget
web = record { type = service; name = codes "web" }

parse_web : parse_target (codes " service/web\n") ≡ ok web
unfolding parse_target parse_trimmed_target trim_space is_space cut_prefix
parse_web = refl

parse_target_iff_example :
    (parse_target (codes " service/web\n") ≡ ok web)
    ↔ ((web.name ≢ []) × IsWritten (trim_space (codes " service/web\n")) web.type web.name)
parse_target_iff_example = parse_target_iff (codes " service/web\n") web
