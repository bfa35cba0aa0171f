-- ===== src/Helpers/Tests.antt =====
-- A daemon with one container and one helper, and the theorems on it.
use docker_port_forward.Common.{
  is_nil, subst, sym, ◌∙◌, ok-injective, ◌≡◌, ◌≤◌, ◌≢◌, ◌⊎◌, refl, Bool, true, false, ◌&&◌, Option,
  none, some, List, [], ◌∷◌, Result, ok, err, All, if◌then◌else◌, Bool-cases, inl, inr, arith, pos,
}
use docker_port_forward.Helpers.Network.{
  first_usable, insert_text, internal_network, target_address, sort_texts, is_reserved,
  pick_target_network, user_defined,
}
use docker_port_forward.Text.{
  trim_prefix, text_eq_sound, Text, codes, text_eq, split, trim_space, is_space, cut_last, cut,
  atoi, to_lower, contains, cut_prefix, contains_char, fields,
}
use docker_port_forward.Helpers.Check.{
  endpoint, check_internal, check_labels, check_target, is_running, attached_to, check_by_address,
  check_helper, address_changed,
}
use docker_port_forward.Netip.{is_valid, addr_eq, parse_addr, v4, Addr}
use docker_port_forward.Docker.{
  label, Client, Inspect, Summary, DockerError, is_not_found, is_no_such_container,
}
use docker_port_forward.Helpers.Remove.{
  cleanup_stale_helpers, remove_helpers, list_helpers, is_tolerated, helper_filters,
}
use docker_port_forward.Ports.{PortPair, tcp, normalize_protocol, protocol_eq, to_protocol}
use docker_port_forward.Helpers.Removal.{Removes, remove_helpers-all_gone}
use docker_port_forward.Helpers.Orphans.{Keeps, remove_orphaned_helpers-Inv}
use docker_port_forward.Helpers.Staleness.{Steady, Holds}
use docker_port_forward.Helpers.Verdicts.{check_helper-Holds}
use docker_port_forward.Helpers.Picked.{pick_target_network-IsBest}
use docker_port_forward.Helpers.Overlap.{
  remove_orphaned_helpers, remove_orphans, is_candidate, summary_running, collides, recorded_pairs,
  same_host_port,
}
use docker_port_forward.Helpers.Best.{IsBest, IsAsked}
use docker_port_forward.Helpers.Labels.{
  helper_name, label_target, label_target_network, label_target_address, label_ports,
  label_port_forward,
}
use docker_port_forward.Bindings.{
  decode_port_pairs, decode_list, decode_ports, decode_token, keep_some,
}

abbrev missing : DockerError
missing = record { message = codes "No such container"; not_found = true }

abbrev app : Inspect
app = record {
  id = codes "app";
  name = codes "/web";
  state = some (record { running = true; status = codes "running"; exit_code = pos 0 });
  config_labels = none;
  networks = some (
      (codes "bridge", some (v4 (172 ∷ 17 ∷ 0 ∷ 3 ∷ [])))
      ∷ (codes "net", some (v4 (172 ∷ 18 ∷ 0 ∷ 2 ∷ [])))
      ∷ []);
}

abbrev fwd : Summary
fwd = record {
  id = codes "fwd";
  names = codes "/port-forward-web" ∷ [];
  labels =
      (label_port_forward, codes "true")
      ∷ (label_target, codes "app")
      ∷ (label_ports, codes "8080:80")
      ∷ (label_target_network, codes "bridge")
      ∷ (label_target_address, codes "172.17.0.2")
      ∷ [];
  state = codes "running";
}

-- A helper of a container that is gone.
abbrev old : Summary
old = record fwd {
  id = codes "old";
  labels =
      (label_port_forward, codes "true")
      ∷ (label_target, codes "gone")
      ∷ (label_ports, codes "8080:80")
      ∷ [];
}

-- Whether the container and the old helper are there.
abbrev Daemon : Type 0
Daemon = Bool × Bool

abbrev find_container : Text → Daemon → Result DockerError Inspect
find_container id d = if text_eq id (codes "app") && d.0 then ok app else err missing

abbrev find_network : Text → Result DockerError Bool
find_network name = ok (text_eq name (codes "inner"))

abbrev remove_container : Text → Daemon → Result DockerError (Unit {0}) × Daemon
remove_container id (a, f) =
    if text_eq id (codes "old")
    then (if f then ok tt else err missing, (a, false))
    else if text_eq id (codes "app")
    then (if a then ok tt else err missing, (false, f))
    else (err missing, (a, f))

abbrev daemon : Client
daemon = record {
  World = Daemon;
  container_inspect = λ id d. (find_container id d, d);
  container_list = λ filters d. (ok (if d.1 then old ∷ [] else []), d);
  container_remove = remove_container;
  network_inspect = λ name d. (find_network name, d);
}

abbrev Absent : Text → Daemon → Type 0
Absent id d =
    (text_eq id (codes "old") ≡ true → d.1 ≡ false)
    × (text_eq id (codes "app") ≡ true → d.0 ≡ false)

abbrev requested : List PortPair
requested =
    record { address = []; local_port = pos 8080; remote_port = pos 8000; protocol = tcp } ∷ []

not_both : (id : Text) → text_eq id (codes "old") ≡ true → text_eq id (codes "app") ≡ true → ⊥
unfolding text_eq
not_both id h k =
    let e = text_eq_sound id (codes "old") h in
    let clash : false ≡ true = subst (λ x. text_eq x (codes "app") ≡ true) e k in cc

removed_old :
    (id : Text) (a f : Bool)
    → text_eq id (codes "old") ≡ true
    → (remove_container id (a, f)).1.1 ≡ false
removed_old id a f h = rw h refl

removed_app :
    (id : Text) (a f : Bool)
    → text_eq id (codes "app") ≡ true
    → (remove_container id (a, f)).1.0 ≡ false
removed_app id a f h = elim (Bool-cases (text_eq id (codes "old"))) [
  | inl is_old ↦ absurd (not_both id is_old h)
  | inr other ↦ rw (other, h) refl
]

old_stays_gone : (id : Text) (a : Bool) → (remove_container id (a, false)).1.1 ≡ false
old_stays_gone id a = ground arith

app_stays_gone : (id : Text) (f : Bool) → (remove_container id (false, f)).1.0 ≡ false
app_stays_gone id f = ground arith

removes : Removes daemon
removes = record {
  Gone = Absent;
  counted = λ id w h. (removed_old id w.0 w.1, removed_app id w.0 w.1);
  stays_gone = λ id j w h. (
    (λ e.
        subst (λ f. (remove_container id (w.0, f)).1.1 ≡ false) (sym (h.0 e))
          (old_stays_gone id w.0)),
    (λ e.
        subst (λ a. (remove_container id (a, w.1)).1.0 ≡ false) (sym (h.1 e))
          (app_stays_gone id w.1)),
  );
}

listed_old : (f : Bool) → All (λ s. s.id ≡ codes "old") (if f then old ∷ [] else [])
listed_old true = (refl, tt)
listed_old false = tt

old_removed : (id : Text) (a f : Bool) → id ≡ codes "old" → (remove_container id (a, f)).1.0 ≡ a
unfolding text_eq
old_removed id a f h = subst (λ x. (remove_container x (a, f)).1.0 ≡ a) (sym h) refl

keeps : Keeps daemon (codes "app") requested
unfolding list_helpers
keeps = record {
  Inv = λ d. d.0 ≡ true;
  IsHelper = λ s. s.id ≡ codes "old";
  listed = λ w list h. subst (All (λ s. s.id ≡ codes "old")) (ok-injective h) (listed_old w.1);
  list_keeps = λ w h. h;
  inspect_keeps = λ id w h. h;
  remove_keeps = λ s w hs hc hg h. old_removed s.id w.0 w.1 hs ∙ h;
}

steady : Steady daemon
steady = record {
  find = λ d id. find_container id d;
  internal = λ d name. find_network name;
  inspects = λ id w. refl;
  inspects_network = λ name w. refl;
}

remove_helpers-all_gone_example :
    ((remove_helpers daemon (codes "old" ∷ codes "app" ∷ []) (true, true)).0 ≤ 2)
    × ((remove_helpers daemon (codes "old" ∷ codes "app" ∷ []) (true, true)).0 ≡ 2
        → All
            (λ id.
              Absent id (remove_helpers daemon (codes "old" ∷ codes "app" ∷ []) (true, true)).1)
            (codes "old" ∷ codes "app" ∷ []))
unfolding removes
remove_helpers-all_gone_example =
    remove_helpers-all_gone daemon removes (codes "old" ∷ codes "app" ∷ []) (true, true)

remove_orphaned_helpers-Inv_example :
    (remove_orphaned_helpers daemon (codes "app") requested (true, true)).1.0 ≡ true
unfolding keeps
remove_orphaned_helpers-Inv_example =
    remove_orphaned_helpers-Inv daemon (codes "app") requested keeps (true, true) refl

-- the orphan is removed
orphan_removed :
    remove_orphaned_helpers daemon (codes "app") requested (true, true) ≡ (ok 1, (true, false))
unfolding remove_orphaned_helpers list_helpers remove_orphans is_candidate summary_running text_eq
    label collides recorded_pairs decode_port_pairs decode_list decode_ports decode_token split
    trim_space is_space cut_last cut atoi same_host_port normalize_protocol protocol_eq to_protocol
    to_lower is_not_found is_no_such_container contains cut_prefix helper_name helper_filters
    remove_helpers is_tolerated contains_char fields keep_some
orphan_removed = refl

moved :
    (check_helper daemon fwd (true, true)).0
    ≡ ok (some (address_changed (v4 (172 ∷ 17 ∷ 0 ∷ 2 ∷ [])) (v4 (172 ∷ 17 ∷ 0 ∷ 3 ∷ []))))
unfolding check_helper check_labels label text_eq check_internal check_target parse_addr
    check_by_address is_running attached_to endpoint is_valid addr_eq
moved = refl

address_nil : is_nil (label label_target_address fwd.labels) ≡ false
unfolding label text_eq
address_nil = refl

network_nil : is_nil (label label_target_network fwd.labels) ≡ false
unfolding label text_eq
network_nil = refl

check_helper-Holds_example :
    Holds
      (steady.find (true, true))
      (steady.internal (true, true))
      (label label_target_address fwd.labels)
      (label label_target_network fwd.labels)
      (label label_target fwd.labels)
      (parse_addr (label label_target_address fwd.labels))
      (some (address_changed (v4 (172 ∷ 17 ∷ 0 ∷ 2 ∷ [])) (v4 (172 ∷ 17 ∷ 0 ∷ 3 ∷ []))))
check_helper-Holds_example =
    check_helper-Holds daemon steady fwd (true, true)
      (some (address_changed (v4 (172 ∷ 17 ∷ 0 ∷ 2 ∷ [])) (v4 (172 ∷ 17 ∷ 0 ∷ 3 ∷ [])))) address_nil
      network_nil moved

abbrev app_networks : List (Text × Option Addr)
app_networks =
    (codes "bridge", some (v4 (172 ∷ 17 ∷ 0 ∷ 3 ∷ [])))
    ∷ (codes "net", some (v4 (172 ∷ 18 ∷ 0 ∷ 2 ∷ [])))
    ∷ []

picked : (pick_target_network daemon app [] (true, true)).0 ≡ ok (codes "net", codes "web")
unfolding pick_target_network first_usable sort_texts user_defined is_reserved text_eq insert_text
    target_address endpoint is_valid trim_prefix internal_network
picked = refl

pick_target_network-IsBest_example :
    ((◌≡◌ {A = Text} [] [])
      × IsBest app find_network (user_defined app_networks) (codes "net") (codes "web"))
    ⊎ ((◌≢◌ {A = Text} [] []) × IsAsked app find_network [] (codes "net") (codes "web"))
unfolding steady
pick_target_network-IsBest_example =
    pick_target_network-IsBest daemon steady app app_networks [] (true, true) (codes "net")
      (codes "web") refl picked

-- the helper of the list is removed, and the target stays
stale_cleaned : cleanup_stale_helpers daemon [] (true, true) ≡ (true, false)
unfolding cleanup_stale_helpers list_helpers remove_helpers text_eq
stale_cleaned = refl
