-- ===== src/Library/Cleaned.antt =====
-- portforward/cleanup.go: what `Cleanup` removes.
use docker_port_forward.Common.{
  suc, ◌≡◌, ◌≤◌, refl, subst, ap, Bool, true, false, List, [], ◌∷◌, map, length, Result, ok, ℕ,
  if◌then◌else◌, Bool-cases, inl, inr, err, arith,
}
use docker_port_forward.Text.{Text}
use docker_port_forward.Docker.{Client, Error}
use docker_port_forward.Helpers.{remove_helpers, counts}
use docker_port_forward.Helpers.Removal.{remove_helpers-le}
use docker_port_forward.Library.Find.{Helper, find_helpers}
use docker_port_forward.Library.Cleanup.{CleanupResult, cleanup, remove_found}

abbrev pub ids_of : List Helper → List Text
ids_of = map (λ h. h.id)

pub length-ids_of : (hs : List Helper) → length (ids_of hs) ≡ length hs
length-ids_of [] = refl
length-ids_of (h ∷ hs) = ap (λ n. suc n) (length-ids_of hs)

-- The removals of the containers, one after the other, with the number of those that count: the
-- ones that succeed, or fail since the container is gone or going.
pub data Removed (c : Client) : List Text → ℕ → c.World → c.World → Type 0 where
  all_done : (w : c.World) → Removed c [] 0 w w
  counted :
      (id : Text) (ids : List Text) (n : ℕ) (w w' : c.World)
      → counts c (c.container_remove id w).0 ≡ true
      → Removed c ids n (c.container_remove id w).1 w'
      → Removed c (id ∷ ids) (suc n) w w'
  failed :
      (id : Text) (ids : List Text) (n : ℕ) (w w' : c.World)
      → counts c (c.container_remove id w).0 ≡ false
      → Removed c ids n (c.container_remove id w).1 w'
      → Removed c (id ∷ ids) n w w'

abbrev pub IsCleaned :
    (c : Client) → Bool → c.World → List Helper → Result Error CleanupResult × c.World → Type 0
IsCleaned c dry_run w helpers (err e, w') = ⊥
IsCleaned c dry_run w helpers (ok r, w') =
    (r.helpers ≡ helpers)
    × (r.removed ≤ length helpers)
    × (dry_run ≡ true → (r.removed ≡ 0) × (w' ≡ w))
    × (dry_run ≡ false → Removed c (ids_of helpers) r.removed w w')

remove_helpers-Removed :
    (c : Client) (ids : List Text) (w : c.World)
    → Removed c ids (remove_helpers c ids w).0 w (remove_helpers c ids w).1
unfolding remove_helpers
remove_helpers-Removed c [] w = all_done w
remove_helpers-Removed c (id ∷ ids) w =
    let rest = remove_helpers-Removed c ids (c.container_remove id w).1 in
    elim (Bool-cases (counts c (c.container_remove id w).0)) [
      | inl t ↦ rw (if◌then◌else◌, t) (counted id ids _ w _ t rest)
      | inr f ↦ rw (if◌then◌else◌, f) (failed id ids _ w _ f rest)
    ]

remove_found-IsCleaned :
    (c : Client) (dry_run : Bool) (helpers : List Helper) (w : c.World)
    → IsCleaned c dry_run w helpers (remove_found c dry_run helpers w)
remove_found-IsCleaned c true [] w = (refl, omega arith, (λ k. (refl, refl)), (λ k. cc))
remove_found-IsCleaned c false [] w = (refl, omega arith, (λ k. cc), (λ k. all_done w))
remove_found-IsCleaned c true (h ∷ hs) w = (refl, omega arith, (λ k. (refl, refl)), (λ k. cc))
remove_found-IsCleaned c false (h ∷ hs) w = (
  refl,
  subst (λ n. (remove_helpers c (ids_of (h ∷ hs)) w).0 ≤ n) (length-ids_of (h ∷ hs))
      (remove_helpers-le c (ids_of (h ∷ hs)) w),
  (λ k. cc),
  (λ k. remove_helpers-Removed c (ids_of (h ∷ hs)) w),
)

-- `Cleanup` returns the helpers that `findHelpers` found, and its error when there is one. A dry run
-- changes nothing and counts none. Else there is one removal of each of these helpers, in their order,
-- and nothing else changes the state; the count is the number of the removals that succeed, or that
-- fail since the container is gone or going.
pub cleanup-IsCleaned :
    (c : Client) (name target : Text) (stale_only dry_run : Bool) (w : c.World)
    → ((helpers : List Helper)
        → (find_helpers c name target stale_only w).0 ≡ ok helpers
        → IsCleaned c dry_run
            (find_helpers c name target stale_only w).1
            helpers
            (cleanup c name target stale_only dry_run w))
      × ((e : Error)
          → (find_helpers c name target stale_only w).0 ≡ err e
          → cleanup c name target stale_only dry_run w
            ≡ (err e, (find_helpers c name target stale_only w).1))
unfolding cleanup
cleanup-IsCleaned c name target stale_only dry_run w = (
  (λ helpers e.
      rw (cleanup, e)
        (remove_found-IsCleaned c dry_run helpers (find_helpers c name target stale_only w).1)),
  (λ f e. rw (cleanup, e) refl),
)
