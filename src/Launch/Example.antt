-- ===== src/Launch/Example.antt =====
-- A host with one target, where a helper can be created and removed.
use docker_port_forward.Launch.Served.{Reliable}
use docker_port_forward.Start.Dwindling.{rounds, Dwindles}
use docker_port_forward.Ports.{PortPair}
use docker_port_forward.Common.{
  int_eq, Bool-cases, In, ◌≡◌, ◌<◌, ◌+◌, ℕ, refl, sym, subst, ok-injective, Bool, true, false,
  Option, none, some, List, [], ◌∷◌, ok, err, if◌then◌else◌, arith, pos, inl, inr, length, Result,
}
use docker_port_forward.Launch.Loops.{try_ports}
use docker_port_forward.Text.{text_eq_refl, Text, codes, text_eq}
use docker_port_forward.Netip.{v4}
use docker_port_forward.Docker.{Client, Summary, DockerError, Inspect}
use docker_port_forward.Helpers.{counts, summary_running, list_helpers}
use docker_port_forward.Helpers.Removal.{Removes}
use docker_port_forward.Helpers.Staleness.{Steady}
use docker_port_forward.Launch.Free.{Listens, preflight_host_ports_iff}
use docker_port_forward.Launch.Resolved.{Assigns}
use docker_port_forward.Launch.Launched.{TicksAll, RemovesAll}
use docker_port_forward.Launch.Machine.{Host, finished, ContainerConfig}
use docker_port_forward.Launch.Polled.{Ticks, period}

-- The time, and the helper if there is one.
pub record Site : Type 0 where
  pub clock : ℕ
  pub helper : Option Summary

abbrev nothing : DockerError
nothing = record { message = codes "No such container"; not_found = true }

abbrev pub up : Bool → Text → Text → Inspect
up running id name = record {
  id = id;
  name = name;
  state = some (record { running = running; status = codes "running"; exit_code = pos 0 });
  config_labels = none;
  networks = some ((codes "net", some (v4 (172 ∷ 18 ∷ 0 ∷ 2 ∷ []))) ∷ []);
}

abbrev inspect_helper : Option Summary → Result DockerError Inspect
inspect_helper none = err nothing
inspect_helper (some s) = ok (up (summary_running s) s.id (codes "/pf"))

abbrev inspect_in : Option Summary → Text → Result DockerError Inspect
inspect_in helper id =
    if text_eq id (codes "app") then ok (up true id (codes "/web")) else inspect_helper helper

abbrev pub listed : Option Summary → List Summary
listed none = []
listed (some s) = s ∷ []

abbrev removed : Text → Option Summary → Result DockerError (Unit {0}) × Option Summary
removed id none = (err nothing, none)
removed id (some s) = if text_eq id s.id then (ok tt, none) else (err nothing, some s)

abbrev started : Option Summary → Option Summary
started none = none
started (some s) = some (record s { state = codes "running" })

abbrev pub place : Client
place = record {
  World = Site;
  container_inspect = λ id site. (inspect_in site.helper id, site);
  container_list = λ filters site. (ok (listed site.helper), site);
  container_remove =
      λ id site. ((removed id site.helper).0, record site { helper = (removed id site.helper).1 });
  network_inspect = λ name site. (ok false, site);
}

abbrev created : ContainerConfig → Summary
created config = record {
  id = codes "new";
  names = [];
  labels = config.labels;
  state = codes "created";
}

abbrev pub host : Host
host = record {
  client = place;
  container_create =
      λ config name site. (ok (codes "new"), record site { helper = some (created config) });
  container_start = λ id site. (ok tt, record site { helper = started site.helper });
  container_stop = λ id site. (ok tt, site);
  force_remove =
      λ id site. ((removed id site.helper).0, record site { helper = (removed id site.helper).1 });
  container_wait = λ id site. (finished, site);
  container_logs = λ id site. (ok (ok (codes "===tcp===")), site);
  image_inspect = λ ref site. (err nothing, site);
  image_pull = λ ref site. (ok (ok tt), site);
  listen_tcp = λ bind site. (ok (pos 40000), site);
  listen_udp = λ bind site. (ok (pos 40001), site);
  now = λ site. site.clock;
  pause = λ site. (none, record site { clock = site.clock + period });
  context_done = λ site. site;
  random_bytes = λ n site. (some (171 ∷ []), site);
  parse_port = λ t. some t;
}

pub assigns : Assigns host
assigns = record {
  tcp_port = λ bind w port e. subst (λ p. int_eq p (pos 0) ≡ false) (ok-injective e) refl;
  udp_port = λ bind w port e. subst (λ p. int_eq p (pos 0) ≡ false) (ok-injective e) refl;
}

pub ticks : TicksAll host
ticks = record {
  starting = λ id retry. record { kept = λ w. omega arith; paused = λ w e. omega arith };
  running = λ id. record { kept = λ w. omega arith; paused = λ w e. omega arith };
}

abbrev Lacks : Text → Option Summary → Type 0
Lacks id none = Unit
Lacks id (some s) = text_eq id s.id ≡ false

removed-Lacks :
    (id : Text) (helper : Option Summary)
    → counts place (removed id helper).0 ≡ true
    → Lacks id (removed id helper).1
removed-Lacks id none e = tt
removed-Lacks id (some s) e = elim (Bool-cases (text_eq id s.id)) [
  | inl t ↦ rw (removed, t) tt
  | inr f ↦ rw (removed, f) f
]

stays_removed :
    (id j : Text) (helper : Option Summary) → Lacks j helper → Lacks j (removed id helper).1
stays_removed id j none e = tt
stays_removed id j (some s) e = elim (Bool-cases (text_eq id s.id)) [
  | inl t ↦ rw (removed, t) tt
  | inr f ↦ rw (removed, f) e
]

pub removes : Removes place
removes = record {
  Gone = λ id site. Lacks id site.helper;
  counted = λ id site e. removed-Lacks id site.helper e;
  stays_gone = λ id j site e. stays_removed id j site.helper e;
}

pub removes_all : RemovesAll host
unfolding removes
removes_all = record { listed = removes; forced = λ id site e. removed-Lacks id site.helper e }

abbrev pub place_steady : Steady place
place_steady = record {
  find = λ site id. inspect_in site.helper id;
  internal = λ site name. ok false;
  inspects = λ id site. refl;
  inspects_network = λ name site. refl;
}

pub lists_all :
    (id : Text) (site : Site) → list_helpers place id site ≡ (ok (listed site.helper), site)
unfolding list_helpers
lists_all id site = refl

pub fewer :
    (s : Summary) (helper : Option Summary)
    → In s (listed helper)
    → length (listed (removed s.id helper).1) < length (listed helper)
fewer s none i = elim i [ ]
fewer s (some t) (inl e) =
    let same : text_eq s.id t.id ≡ true = rw e (text_eq_refl t.id) in
    rw (removed, same) (omega arith)
fewer s (some t) (inr i) = elim i [ ]

pub never_refused :
    (s : Summary) (helper : Option Summary) (e : DockerError)
    → In s (listed helper)
    → (removed s.id helper).0 ≡ err e
    → ⊥
never_refused s none e i h = elim i [ ]
never_refused s (some t) e (inl same) h =
    let found : text_eq s.id t.id ≡ true = rw same (text_eq_refl t.id) in
    let done : (removed s.id (some t)).0 ≡ ok tt = rw (removed, found) refl in
    absurd (ground (arith, done, h))
never_refused s (some t) e (inr i) h = elim i [ ]

unfoldable pub dwindles : (id : Text) → Dwindles place id
dwindles id = record {
  helpers = λ site. ok (listed site.helper);
  pending = λ site. 0;
  lists = λ site. lists_all id site;
  steady = place_steady;
  deleted = λ s list site e i h. (
    subst (λ l. length (listed (removed s.id site.helper).1) < length l) (ok-injective e)
        (fewer s site.helper (subst (In s) (sym (ok-injective e)) i)),
    omega arith,
  );
  in_progress = λ s list site f e i h t.
      absurd (never_refused s site.helper f (subst (In s) (sym (ok-injective e)) i) h);
}

pub listens : Listens host
listens = record {
  tries_tcp = λ bind site. ok (pos 40000);
  tries_udp = λ bind site. ok (pos 40001);
  tcp_same = λ bind site. refl;
  udp_same = λ bind site. refl;
}

pub ports_tick :
    (defaults : List Text) (pairs : List PortPair) → Ticks host (try_ports host defaults pairs)
ports_tick defaults pairs = record {
  kept = λ w.
      let same : (try_ports host defaults pairs w).1 ≡ w =
        (preflight_host_ports_iff host listens defaults pairs w).1 in
      rw same (omega arith);
  paused = λ w e. omega arith;
}

few : (helper : Option Summary) → length (listed helper) + 0 < 302
few none = omega arith
few (some s) = omega arith

pub reliable : (id : Text) → Reliable host id
reliable id = record {
  assigns = assigns;
  removes = removes_all;
  ticks = ticks;
  ticks_ports = ports_tick;
  dwindles = dwindles id;
}

pub at_most_one : (id : Text) (w : Site) → rounds place id (reliable id).dwindles w < 302
unfolding reliable dwindles
at_most_one id w = few w.helper
