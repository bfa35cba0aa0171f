-- ===== src/Target/Resolve.antt =====
-- internal/target.go: `ResolveTarget`.
use docker_port_forward.Common.{
  ◌++◌, ℕ, ◌-◌, ◌^◌, Bool, false, Option, some, List, [], ◌∷◌, if◌then◌else◌, Result, ok, err,
  is_nil, ltb, ℤ, pos, ◌==◌,
}
use docker_port_forward.Text.{Text, codes, trim_prefix, atoi}
use docker_port_forward.Docker.{
  Client, Summary, Inspect, DockerError, Labels, label, is_not_found, is_no_such_container, Error,
  docker, listing_containers, not_running, no_project, no_container, no_service_container, M, fail,
  wrap,
}
use docker_port_forward.Helpers.{is_running, slash, summary_running}
use docker_port_forward.Target.Parse.{container, service, auto, ParsedTarget}

pub record ResolvedTarget : Type 0 where
  pub container_id : Text
  pub container_name : Text

abbrev pub compose_project_label : Text
compose_project_label = codes "com.docker.compose.project"

abbrev pub compose_service_label : Text
compose_service_label = codes "com.docker.compose.service"

abbrev pub compose_container_num_label : Text
compose_container_num_label = codes "com.docker.compose.container-number"

-- 1<<31 - 1, for a container with no number above zero
abbrev pub no_number : ℕ
no_number = 2 ^ 31 - 1

abbrev pub number_of : Option ℤ → ℕ
number_of (some (pos n)) = if n == 0 then no_number else n
number_of _ = no_number

unfoldable pub container_number : Labels → ℕ
container_number labels = number_of (atoi (label compose_container_num_label labels))

unfoldable pub running_only : List Summary → List Summary
running_only [] = []
running_only (s ∷ rest) =
    let further = running_only rest in if summary_running s then s ∷ further else further

-- `sort.SliceStable` by the container number
unfoldable pub insert_summary : Summary → List Summary → List Summary
insert_summary s [] = s ∷ []
insert_summary s (t ∷ rest) =
    let further = insert_summary s rest in
    if ltb (container_number t.labels) (container_number s.labels)
    then t ∷ further
    else s ∷ t ∷ rest

unfoldable pub sort_summaries : List Summary → List Summary
sort_summaries [] = []
sort_summaries (s ∷ rest) = insert_summary s (sort_summaries rest)

abbrev pub first_name : List Text → Text
first_name [] = []
first_name (n ∷ _) = trim_prefix slash n

abbrev pub choose : Text → Text → List Summary → Result Error ResolvedTarget
choose project service_name [] = err (no_service_container service_name project)
choose project service_name (s ∷ _) =
    ok (record { container_id = s.id; container_name = first_name s.names })

unfoldable pub service_filters : Text → Text → List (Text × Text)
service_filters project service_name =
    (compose_project_label, project) ∷ (compose_service_label, service_name) ∷ []

-- The result of the inspection: an error of the API is passed on.
abbrev pub container_result : Text → Result DockerError Inspect → Result Error ResolvedTarget
container_result name (err e) = err (docker e)
container_result name (ok info) =
    if is_running info
    then ok (record { container_id = info.id; container_name = trim_prefix slash info.name })
    else err (not_running name)

-- The text of the error; the words that are searched for hold nothing that `%q` escapes.
unfoldable pub not_running_message : Text → Text
not_running_message name = codes "container \"" ++ (name ++ codes "\" is not running")

-- Whether an error of `resolveContainer` is `isNotFound`. The error for a container that is not
-- running quotes its name, so a name that holds the words would count.
abbrev pub misses : Error → Bool
misses (docker e) = is_not_found e
misses (not_running name) =
    is_no_such_container (record { message = not_running_message name; not_found = false })
misses _ = false

module _ (c : Client) where
  unfoldable pub resolve_container : Text → M c.World ResolvedTarget
  resolve_container name w =
      let (r, w') = c.container_inspect name w in (container_result name r, w')

  unfoldable pub resolve_service : Text → Text → M c.World ResolvedTarget
  resolve_service project service_name w =
      let (r, w') =
        wrap listing_containers (c.container_list (service_filters project service_name)) w in
      elim r [
        | err e ↦ (err e, w')
        | ok list ↦ (choose project service_name (sort_summaries (running_only list)), w')
      ]

  abbrev service_or : Error → Text → Text → M c.World ResolvedTarget
  service_or e project name = if is_nil project then fail e else resolve_service project name

  unfoldable pub resolve_target : ParsedTarget → Text → M c.World ResolvedTarget
  resolve_target t project w = elim t.type [
    | container ↦ resolve_container t.name w
    | service ↦ service_or no_project project t.name w
    | auto ↦
        let (r, w') = resolve_container t.name w in
        elim r [
          | ok found ↦ (ok found, w')
          | err e ↦
              if misses e then service_or (no_container t.name) project t.name w' else (err e, w')
        ]
  ]
