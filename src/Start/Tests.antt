-- ===== src/Start/Tests.antt =====
-- The loop over existing helpers on a daemon with one stale helper.
use docker_port_forward.Common.{
  ◌++◌, zero, ◌≤◌, Result, suc, ◌-◌, ℕ, In, ◌≡◌, ◌<◌, refl, sym, subst, ok-injective, Bool, true,
  false, some, List, [], ◌∷◌, ok, err, if◌then◌else◌, arith, pos, inl, inr, length, map, All, any,
}
use docker_port_forward.Probe.{
  listener_less, sort_listeners, insert_listener, add_listener, Listener, mem_listener, listener_eq,
}
use docker_port_forward.Text.{
  itoa, Text, codes, text_eq, split, trim_space, is_space, cut_last, cut, atoi, to_lower, contains,
  cut_prefix, contains_char,
}
use docker_port_forward.Start.Command.{distinct_keys, shell_command, socat_keys}
use docker_port_forward.Options.{socat_range_options}
use docker_port_forward.Ports.{PortPair, tcp, normalize_protocol, protocol_eq, to_protocol, udp}
use docker_port_forward.Docker.{
  Client, Summary, DockerError, label, is_not_found, is_no_such_container,
}
use docker_port_forward.Helpers.{
  label_target, label_ports, label_target_network, label_target_address, list_helpers,
  find_overlapping_helper, first_overlap, wanted, overlaps, shares_pair, pair_eq, summary_running,
  recorded_pairs, helper_filters, check_helper, check_labels, check_internal, check_target,
  check_by_address, check_by_name, attached_to, endpoint, is_running, check_network, remove_helpers,
  is_tolerated, helper_name,
}
use docker_port_forward.Helpers.Staleness.{Steady}
use docker_port_forward.Start.Labels.{HelperConfig, helper_labels}
use docker_port_forward.Start.Recorded.{Leaves, helper_labels-overlaps}
use docker_port_forward.Bindings.RoundTrip.{IsRecordable, recorded}
use docker_port_forward.Netip.{no_prefix, parse_addr}
use docker_port_forward.Start.Keys.{is_on, texts, listens_text, shell_command-Listens}
use docker_port_forward.Probe.Sorted.{IsAscending}
use docker_port_forward.Ports.RoundTrip.{IsKnown}
use docker_port_forward.Start.Existing.{reuse_helper, serves, Request, fresh}
use docker_port_forward.Bindings.{decode_port_pairs, decode_list, decode_ports, decode_token}
use docker_port_forward.Start.Settled.{IsSettled, reuse_helper-IsSettled}
use docker_port_forward.Start.Dwindling.{Dwindles, size, rounds}

abbrev nothing : DockerError
nothing = record { message = codes "No such container"; not_found = true }

-- A helper whose target is gone.
abbrev lost : Summary
lost = record {
  id = codes "lost";
  names = [];
  labels =
      (label_target, codes "app")
      ∷ (label_ports, codes "8080:80")
      ∷ (label_target_network, codes "bridge")
      ∷ (label_target_address, codes "172.17.0.2")
      ∷ [];
  state = codes "running";
}

abbrev present : ℕ → List Summary
present zero = []
present (suc left) = lost ∷ []

abbrev busy : DockerError
busy = record { message = codes "removal is already in progress"; not_found = false }

-- Another removal of the helper is in progress, for all but the last of the removals.
abbrev removal : ℕ → Result DockerError (Unit {0}) × ℕ
removal zero = (err nothing, zero)
removal (suc zero) = (ok tt, zero)
removal (suc (suc left)) = (err busy, suc left)

-- How many removals it takes until the helper is gone.
abbrev single : Client
single = record {
  World = ℕ;
  container_inspect = λ id left. (err nothing, left);
  container_list = λ filters left. (ok (present left), left);
  container_remove =
      λ id left. if text_eq id (codes "lost") then removal left else (err nothing, left);
  network_inspect = λ name left. (ok false, left);
}

abbrev request : Request
request = record {
  target_id = codes "app";
  pairs = record { address = []; local_port = pos 8080; remote_port = pos 80; protocol = tcp } ∷ [];
  wanted_range = [];
  network = [];
}

single_steady : Steady single
single_steady = record {
  find = λ left id. err nothing;
  internal = λ left name. ok false;
  inspects = λ id left. refl;
  inspects_network = λ name left. refl;
}

listed : (left : ℕ) → list_helpers single request.target_id left ≡ (ok (present left), left)
unfolding list_helpers
listed left = refl

removed_lost :
    (s : Summary) (left : ℕ)
    → In s (present left)
    → single.container_remove s.id left ≡ removal left
unfolding text_eq
removed_lost s zero i = elim i [ ]
removed_lost s (suc left) (inl e) =
    subst (λ t. single.container_remove t.id (suc left) ≡ removal (suc left)) (sym e) refl
removed_lost s (suc left) (inr i) = elim i [ ]

after_deleted :
    (left : ℕ)
    → (removal left).0 ≡ ok tt
    → (length (present (removal left).1) < length (present left))
      × ((removal left).1 - 1 ≤ left - 1)
after_deleted zero h = absurd (ground (arith, h))
after_deleted (suc zero) h = omega arith
after_deleted (suc (suc left)) h = absurd (ground (arith, h))

after_refused :
    (left : ℕ) (e : DockerError)
    → length (present left) ≡ 1
    → (removal left).0 ≡ err e
    → (length (present (removal left).1) ≤ length (present left))
      × ((removal left).1 - 1 < left - 1)
after_refused zero e one h = absurd (omega arith)
after_refused (suc zero) e one h = absurd (ground (arith, h))
after_refused (suc (suc left)) e one h = omega arith

one_present : (s : Summary) (left : ℕ) → In s (present left) → length (present left) ≡ 1
one_present s zero i = elim i [ ]
one_present s (suc left) i = refl

abbrev dwindles : Dwindles single request.target_id
dwindles = record {
  helpers = λ left. ok (present left);
  pending = λ left. left - 1;
  lists = listed;
  steady = single_steady;
  deleted = λ s list left e i h.
      let j = subst (In s) (sym (ok-injective e)) i in
      subst
        (λ l.
          (size (ok (present (single.container_remove s.id left).1)) < length l)
          × ((single.container_remove s.id left).1 - 1 ≤ left - 1))
        (ok-injective e)
        (rw (removed_lost s left j)
          (after_deleted left (subst (λ r. r.0 ≡ ok tt) (removed_lost s left j) h)));
  in_progress = λ s list left f e i h t.
      let j = subst (In s) (sym (ok-injective e)) i in
      subst
        (λ l.
          (size (ok (present (single.container_remove s.id left).1)) ≤ length l)
          × ((single.container_remove s.id left).1 - 1 < left - 1))
        (ok-injective e)
        (rw (removed_lost s left j) (
          after_refused left f (one_present s left j)
            (subst (λ r. r.0 ≡ err f) (removed_lost s left j) h)));
}

-- the first removal only finds that one is in progress
replaced : reuse_helper single request 3 0 2 ≡ (ok (some (fresh 2)), 0)
unfolding reuse_helper serves find_overlapping_helper list_helpers first_overlap wanted overlaps
    shares_pair pair_eq summary_running recorded_pairs helper_filters check_helper check_labels
    check_internal check_target check_by_address check_by_name attached_to endpoint is_running
    check_network remove_helpers is_tolerated helper_name decode_port_pairs decode_list decode_ports
    decode_token text_eq split trim_space is_space cut_last cut atoi to_lower contains cut_prefix
    contains_char normalize_protocol protocol_eq to_protocol label is_not_found is_no_such_container
    parse_addr
replaced = refl

enough : rounds single request.target_id dwindles 2 < 3
enough = omega arith

reuse_helper-IsSettled_example :
    IsSettled single request dwindles (reuse_helper single request 3 0 2)
reuse_helper-IsSettled_example = reuse_helper-IsSettled single request dwindles 3 0 2 enough

abbrev dns : PortPair
dns = record { address = []; local_port = pos 5353; remote_port = pos 53; protocol = udp }

abbrev config : HelperConfig
config = record {
  target_id = codes "app";
  target_name = codes "web";
  target_network = codes "net";
  target_address = codes "web";
  pairs = dns ∷ [];
  addresses = [];
  name = codes "pf";
  session = codes "0a";
  extra_labels = (codes "team", codes "a") ∷ [];
  source_range = no_prefix;
}

abbrev all_ports : Text → Bool
all_ports t = true

abbrev created : Summary
created = record {
  id = codes "new";
  names = [];
  labels = helper_labels all_ports config;
  state = codes "running";
}

abbrev dns_anywhere : PortPair
dns_anywhere = record dns { address = codes "*" }

dns-IsRecordable : IsRecordable dns
unfolding normalize_protocol
dns-IsRecordable = record { known = tt; local_fits = omega arith; remote_fits = omega arith }

extra-Leaves : Leaves label_ports config.extra_labels
unfolding text_eq
extra-Leaves = (refl, tt)

created_running : summary_running created ≡ true
unfolding summary_running text_eq
created_running = refl

helper_labels-overlaps_example :
    (recorded_pairs created ≡ map recorded (dns ∷ []))
    × (overlaps (wanted (dns_anywhere ∷ [])) created ≡ true)
helper_labels-overlaps_example =
    helper_labels-overlaps all_ports config created (dns_anywhere ∷ []) dns dns_anywhere
      (dns-IsRecordable, tt) extra-Leaves refl created_running (inl refl) (inl refl) refl

abbrev forwarded : List PortPair
forwarded =
    dns
    ∷ record { address = []; local_port = pos 8080; remote_port = pos 80; protocol = tcp }
    ∷ record { address = codes "::1"; local_port = pos 53; remote_port = pos 53; protocol = udp }
    ∷ []

command :
    shell_command (pos 60) [] no_prefix (codes "web") forwarded
    ≡ codes
        "trap 'kill 0' EXIT; socat TCP-LISTEN:80,fork,reuseaddr TCP:web:80 & socat -T 60 UDP-LISTEN:53,fork,reuseaddr UDP:web:53 & wait"
unfolding shell_command socat_keys sort_listeners distinct_keys add_listener listener_eq protocol_eq
    normalize_protocol insert_listener listener_less itoa socat_range_options
command = refl

forwarded-IsKnown : All (λ p. IsKnown (normalize_protocol p.protocol)) forwarded
unfolding normalize_protocol
forwarded-IsKnown = (tt, (tt, (tt, tt)))

shell_command-Listens_example :
    (ls : List Listener) × (shell_command (pos 60) [] no_prefix (codes "web") forwarded
      ≡ codes "trap 'kill 0' EXIT; "
        ++ texts (listens_text (pos 60) [] (socat_range_options no_prefix) (codes "web")) ls)
    × ((l : Listener) → mem_listener l ls ≡ any (is_on l) forwarded)
    × IsAscending ls
shell_command-Listens_example =
    shell_command-Listens (pos 60) [] no_prefix (codes "web") forwarded forwarded-IsKnown
