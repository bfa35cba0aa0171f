-- ===== src/Target/Resolved.antt =====
-- internal/target.go: the container that `resolveService` returns.
use docker_port_forward.Common.{
  Result, ◌≡◌, ◌≤◌, ◌<◌, ◌⊎◌, refl, sym, subst, ap, true, false, List, [], ◌∷◌, ◌++◌, ok, err, inl,
  inr, Bool-cases, All, All-append, arith, ltb,
}
use docker_port_forward.Text.{Text}
use docker_port_forward.Docker.{
  Client, Summary, DockerError, Error, listing_containers, no_service_container, wrap,
}
use docker_port_forward.Helpers.{summary_running}
use docker_port_forward.Target.Resolve.{
  ResolvedTarget, container_number, running_only, insert_summary, sort_summaries, choose,
  service_filters, resolve_service, first_name,
}

-- A running container before `s` in the list has a larger number, and one after it no smaller one.
abbrev pub Before : Summary → Summary → Type 0
Before s t = summary_running t ≡ true → container_number s.labels < container_number t.labels

abbrev pub NotAfter : Summary → Summary → Type 0
NotAfter s t = summary_running t ≡ true → container_number s.labels ≤ container_number t.labels

-- The running container with the least number, and the first of those in the list.
abbrev pub IsFirst : List Summary → Summary → Type 0
IsFirst list s =
    (before : List Summary) × (after : List Summary) × (list ≡ before ++ s ∷ after)
    × (summary_running s ≡ true)
    × All (Before s) before
    × All (NotAfter s) after

abbrev Outcome : List Summary → List Summary → Type 0
Outcome list [] = All (λ s. summary_running s ≡ false) list
Outcome list (s ∷ _) = IsFirst list s

All-mono :
    (P Q : Summary → Type 0)
    → ((s : Summary) → P s → Q s)
    → (list : List Summary) → All P list
    → All Q list
All-mono P Q f [] h = tt
All-mono P Q f (s ∷ list) h = (f s h.0, All-mono P Q f list h.1)

stopped_NotAfter : (s t : Summary) → summary_running t ≡ false → NotAfter s t
stopped_NotAfter s t h k = cc

Before-trans :
    (s t u : Summary)
    → container_number s.labels ≤ container_number t.labels
    → Before t u
    → NotAfter s u
Before-trans s t u h k r = omega (arith, k r)

NotAfter-trans :
    (s t u : Summary)
    → container_number s.labels ≤ container_number t.labels
    → NotAfter t u
    → NotAfter s u
NotAfter-trans s t u h k r = omega (arith, k r)

insert-Outcome :
    (s : Summary) (list sorted : List Summary)
    → summary_running s ≡ true
    → Outcome list sorted
    → Outcome (s ∷ list) (insert_summary s sorted)
unfolding insert_summary
insert-Outcome s list [] r h = (
  [],
  list,
  refl,
  r,
  tt,
  All-mono (λ t. summary_running t ≡ false) (NotAfter s) (stopped_NotAfter s) list h,
)
insert-Outcome s list (t ∷ sorted) r (before, after, e, rt, hb, ha) =
    elim (Bool-cases (ltb (container_number t.labels) (container_number s.labels))) [
      | inl lt ↦ rw lt (s ∷ before, after, ap (λ l. s ∷ l) e, rt, ((λ k. ground arith), hb), ha)
      | inr ge ↦ rw ge (
        [],
        list,
        refl,
        r,
        tt,
        subst (All (NotAfter s)) (sym e) (
            All-append (NotAfter s) before (t ∷ after)
              (All-mono (Before t) (NotAfter s) (λ u. Before-trans s t u (ground arith)) before hb)
              (
                (λ k. ground arith),
                All-mono (NotAfter t) (NotAfter s) (λ u. NotAfter-trans s t u (ground arith)) after
                    ha,
              )),
      )
    ]

skip-Outcome :
    (s : Summary) (list sorted : List Summary)
    → summary_running s ≡ false
    → Outcome list sorted
    → Outcome (s ∷ list) sorted
skip-Outcome s list [] r h = (r, h)
skip-Outcome s list (t ∷ sorted) r (before, after, e, rt, hb, ha) =
    (s ∷ before, after, ap (λ l. s ∷ l) e, rt, ((λ k. cc), hb), ha)

sort-Outcome : (list : List Summary) → Outcome list (sort_summaries (running_only list))
unfolding sort_summaries running_only
sort-Outcome [] = tt
sort-Outcome (s ∷ list) = elim (Bool-cases (summary_running s)) [
  | inl r ↦ rw (running_only, r) (insert-Outcome s list _ r (sort-Outcome list))
  | inr r ↦ rw (running_only, r) (skip-Outcome s list _ r (sort-Outcome list))
]

-- What the containers of the service give: an error when none of them is running, and else the
-- running one with the least number, and the first of those in the daemon's list.
abbrev pub Picks : Text → Text → List Summary → Result Error ResolvedTarget → Type 0
Picks project service_name list result =
    (All (λ s. summary_running s ≡ false) list
      × (result ≡ err (no_service_container service_name project)))
    ⊎ ((s : Summary) × IsFirst list s
        × (result ≡ ok (record { container_id = s.id; container_name = first_name s.names })))

choose-Picks :
    (project service_name : Text) (list sorted : List Summary)
    → Outcome list sorted
    → Picks project service_name list (choose project service_name sorted)
choose-Picks project service_name list [] h = inl (h, refl)
choose-Picks project service_name list (s ∷ sorted) h = inr (s, h, refl)

-- A service is resolved to its running container with the least container number, and the first of
-- those in the daemon's list, where a number that is missing or not above zero counts as the
-- largest; with none that is running it is an error. When the daemon fails to list the containers,
-- that error is returned.
pub resolve_service-Picks :
    (c : Client) (project service_name : Text) (w : c.World)
    → ((list : List Summary)
        → (c.container_list (service_filters project service_name) w).0 ≡ ok list
        → Picks project service_name list (resolve_service c project service_name w).0)
      × ((e : DockerError)
          → (c.container_list (service_filters project service_name) w).0 ≡ err e
          → (resolve_service c project service_name w).0 ≡ err (listing_containers e))
unfolding resolve_service
resolve_service-Picks c project service_name w = (
  (λ list e.
      rw (resolve_service, wrap, e) (choose-Picks project service_name list _ (sort-Outcome list))),
  (λ f e. rw (resolve_service, wrap, e) refl),
)
