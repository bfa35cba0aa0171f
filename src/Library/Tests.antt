-- ===== src/Library/Tests.antt =====
-- Listing and cleaning up on a daemon with one stale helper.
use docker_port_forward.Common.{
  inl, ◌&&◌, not, Result, ◌≡◌, refl, Bool, true, false, some, List, [], ◌∷◌, ok, err, if◌then◌else◌,
}
use docker_port_forward.Helpers.{
  remove_helpers, counts, check_labels, check_target, check_by_name, check_internal, check_helper,
  list_helpers, label_port_forward, label_target, label_target_network, label_target_address,
  target_gone,
}
use docker_port_forward.Text.{Text, codes, text_eq}
use docker_port_forward.Netip.{parse_addr}
use docker_port_forward.Docker.{is_not_found, label, Client, Summary, DockerError, Error}
use docker_port_forward.Library.Find.{
  check_each, target_id_of, helpers_by_target, Helper, helper_of, summaries, find_helpers,
}
use docker_port_forward.Helpers.Staleness.{Steady}
use docker_port_forward.Library.Cleanup.{cleanup}
use docker_port_forward.Library.Emptied.{cleanup-Empties}
use docker_port_forward.Library.Listed.{Dwindles}
use docker_port_forward.Helpers.Removal.{Removes}
use docker_port_forward.Library.Cleaned.{IsCleaned, cleanup-IsCleaned}

abbrev nothing : DockerError
nothing = record { message = codes "No such container"; not_found = true }

abbrev lost : Summary
lost = record {
  id = codes "lost";
  names = codes "/pf" ∷ [];
  labels =
      (label_port_forward, codes "true")
      ∷ (label_target, codes "app")
      ∷ (label_target_network, codes "bridge")
      ∷ (label_target_address, codes "web")
      ∷ [];
  state = codes "running";
}

-- Whether the helper is there.
abbrev shop : Client
shop = record {
  World = Bool;
  container_inspect = λ id here. (err nothing, here);
  container_list = λ filters here. (ok (if here then lost ∷ [] else []), here);
  container_remove =
      λ id here. if text_eq id (codes "lost") then (ok tt, false) else (err nothing, here);
  network_inspect = λ name here. (ok false, here);
}

abbrev shop_steady : Steady shop
shop_steady = record {
  find = λ here id. err nothing;
  internal = λ here name. ok false;
  inspects = λ id here. refl;
  inspects_network = λ name here. refl;
}

abbrev gone : Helper
gone = helper_of lost (some (target_gone (codes "web")))

found : (find_helpers shop [] [] true true).0 ≡ ok (gone ∷ [])
unfolding find_helpers summaries helpers_by_target target_id_of list_helpers check_each check_helper
    check_labels label text_eq check_internal check_target parse_addr check_by_name is_not_found
found = refl

cleanup-IsCleaned_example :
    ((helpers : List Helper)
      → (find_helpers shop [] [] true true).0 ≡ ok helpers
      → IsCleaned shop false
          (find_helpers shop [] [] true true).1
          helpers
          (cleanup shop [] [] true false true))
    × ((e : Error)
        → (find_helpers shop [] [] true true).0 ≡ err e
        → cleanup shop [] [] true false true ≡ (err e, (find_helpers shop [] [] true true).1))
cleanup-IsCleaned_example = cleanup-IsCleaned shop [] [] true false true

-- A removal takes its time: the helper is still listed. The state says whether it stays.
abbrev removal : Bool → Bool → Result DockerError (Unit {0}) × Bool
removal found stays = if found then (ok tt, false) else (err nothing, stays)

abbrev slow_shop : Client
slow_shop = record {
  World = Bool;
  container_inspect = λ id stays. (err nothing, stays);
  container_list = λ filters stays. (ok (lost ∷ []), stays);
  container_remove = λ id stays. removal (text_eq id (codes "lost")) stays;
  network_inspect = λ name stays. (ok false, stays);
}

abbrev slow_steady : Steady slow_shop
slow_steady = record {
  find = λ stays id. err nothing;
  internal = λ stays name. ok false;
  inspects = λ id stays. refl;
  inspects_network = λ name stays. refl;
}

abbrev is_going : Text → Bool → Bool
is_going id stays = not (text_eq id (codes "lost") && stays)

counted_at :
    (found stays : Bool)
    → counts slow_shop (removal found stays).0 ≡ true
    → not (found && (removal found stays).1) ≡ true
counted_at true stays e = refl
counted_at false stays e = refl

stays_at :
    (found same stays : Bool)
    → not (same && stays) ≡ true
    → not (same && (removal found stays).1) ≡ true
stays_at true true stays e = refl
stays_at true false stays e = refl
stays_at false same stays e = e

slow_removes : Removes slow_shop
slow_removes = record {
  Gone = λ id stays. is_going id stays ≡ true;
  counted = λ id stays e. counted_at (text_eq id (codes "lost")) stays e;
  stays_gone =
      λ id j stays e. stays_at (text_eq id (codes "lost")) (text_eq j (codes "lost")) stays e;
}

slow_dwindles : Dwindles slow_shop
slow_dwindles = record {
  unchanged = λ filters stays. refl;
  stays_listed = λ filters id j stays h. h;
}

abbrev slow_state : Bool
slow_state = (cleanup slow_shop [] [] false false true).1

removed_all :
    (cleanup slow_shop [] [] false false true).0 ≡ ok (record { helpers = gone ∷ []; removed = 1 })
unfolding cleanup find_helpers summaries helpers_by_target target_id_of list_helpers check_each
    check_helper check_labels label text_eq check_internal check_target parse_addr check_by_name
    is_not_found remove_helpers helper_of
removed_all = refl

still_listed : (find_helpers slow_shop [] [] false slow_state).0 ≡ ok (gone ∷ [])
unfolding cleanup find_helpers summaries helpers_by_target target_id_of list_helpers check_each
    check_helper check_labels label text_eq check_internal check_target parse_addr check_by_name
    is_not_found remove_helpers helper_of
still_listed = refl

cleanup-Empties_example : is_going (codes "lost") slow_state ≡ true
unfolding slow_removes helper_of
cleanup-Empties_example =
    cleanup-Empties slow_shop slow_steady slow_removes slow_dwindles false true
      (record { helpers = gone ∷ []; removed = 1 }) (gone ∷ []) removed_all refl still_listed gone
      (inl refl)
