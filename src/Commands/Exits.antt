-- ===== src/Commands/Exits.antt =====
-- commands/port_forward_cleanup.go: what the exit code of cleanup says.
use docker_port_forward.Library.Cleaned.{length-ids_of, ids_of}
use docker_port_forward.Common.{
  ℕ, ◌≡◌, ◌<◌, ◌⊎◌, inl, inr, refl, Bool, true, false, some, List, [], ◌∷◌, Result, ok, err, arith,
  All, length, ◌==◌, Bool-cases,
}
use docker_port_forward.Docker.{Client, Error}
use docker_port_forward.Helpers.{remove_helpers}
use docker_port_forward.Helpers.Removal.{Removes, remove_helpers-all_gone}
use docker_port_forward.Library.{Helper, CleanupResult, find_helpers, cleanup, remove_found}
use docker_port_forward.Commands.Run.{Output, HelperFlags, cleanup_output, run_cleanup}

module _ (c : Client) (d : Removes c) where
  -- the helpers that were found are gone, unless it was a dry run
  abbrev pub AllGone : Bool → List Helper → c.World → Type 0
  AllGone true helpers w = Unit
  AllGone false helpers w = All (λ id. d.Gone id w) (ids_of helpers)

  -- after `findHelpers`, in the state `found`
  abbrev pub IsExit : Bool → c.World → Result Error (List Helper) → Output × c.World → Type 0
  IsExit dry_run found (err e) (out, w) = out.exit_code ≡ 1
  IsExit dry_run found (ok helpers) (out, w) =
      ((out.exit_code ≡ 0) × AllGone dry_run helpers w)
      ⊎ ((out.exit_code ≡ 1)
          × (dry_run ≡ false)
          × ((remove_helpers c (ids_of helpers) found).0 < length helpers))

  module _ (is_print : ℕ → Bool) where
    abbrev output_of : Bool → Result Error CleanupResult × c.World → Output × c.World
    output_of dry_run (r, w) = (cleanup_output is_print dry_run r, w)

    removal-IsExit :
        (dry_run : Bool) (helpers : List Helper) (w : c.World)
        → IsExit dry_run w (ok helpers) (output_of dry_run (remove_found c dry_run helpers w))
    unfolding cleanup_output
    removal-IsExit true [] w = inl (refl, tt)
    removal-IsExit false [] w = inl (refl, tt)
    removal-IsExit true (h ∷ hs) w = inl (refl, tt)
    removal-IsExit false (h ∷ hs) w =
        let (most, gone) = remove_helpers-all_gone c d (ids_of (h ∷ hs)) w in
        elim (Bool-cases ((remove_helpers c (ids_of (h ∷ hs)) w).0 == length (h ∷ hs))) [
          | inl all ↦ inl (rw all refl, gone (ground (arith, length-ids_of (h ∷ hs), all)))
          | inr some_left ↦
              inr (rw some_left refl, refl, ground (arith, most, length-ids_of (h ∷ hs), some_left))
        ]

    found-IsExit :
        (dry_run : Bool) (found : Result Error (List Helper)) (w : c.World)
        → IsExit dry_run w found (
            output_of dry_run (elim found as (λ _. Result Error CleanupResult × c.World) [
              | err e ↦ (err e, w)
              | ok helpers ↦ remove_found c dry_run helpers w
            ]))
    unfolding cleanup_output
    found-IsExit dry_run (err e) w = refl
    found-IsExit dry_run (ok helpers) w = removal-IsExit dry_run helpers w

-- With a UI of its own kind, the exit code of cleanup is 1 when the helpers could not be found, or
-- when a removal did not count and it is no dry run. Else it is 0, and unless it is a dry run every
-- helper that was found is gone, on a daemon where a removal that counts has that effect and none
-- brings a container back.
pub run_cleanup-IsExit :
    (c : Client) (d : Removes c) (is_print : ℕ → Bool) (flags : HelperFlags) (w : c.World)
    → IsExit c d flags.dry_run
        (find_helpers c flags.name flags.target flags.stale w).1
        (find_helpers c flags.name flags.target flags.stale w).0
        (run_cleanup is_print c true (some flags) w)
unfolding run_cleanup cleanup
run_cleanup-IsExit c d is_print flags w =
    found-IsExit c d is_print flags.dry_run (find_helpers c flags.name flags.target flags.stale w).0
      (find_helpers c flags.name flags.target flags.stale w).1
