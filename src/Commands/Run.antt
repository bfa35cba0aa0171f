-- ===== src/Commands/Run.antt =====
-- commands/: the `Run` methods of list, cleanup and port-forward. Errors that are shown are left out of
-- the output, which has the lines that `Info` prints.
use docker_port_forward.Common.{
  true, false, ℕ, Bool, Option, none, some, List, [], ◌∷◌, ◌++◌, Result, ok, err, map, length, ◌==◌,
  if◌then◌else◌,
}
use docker_port_forward.Text.{Text, codes, format_nat}
use docker_port_forward.Docker.{Client, Error, DockerError}
use docker_port_forward.Options.{RestartPolicy}
use docker_port_forward.Library.{Helper, CleanupResult, find_helpers, cleanup}
use docker_port_forward.Launch.{Host}
use docker_port_forward.Entry.{Settings, Forwarded, ForwardError, forward}
use docker_port_forward.Commands.Rows.{format_helper_row}
use docker_port_forward.Commands.Flags.{FlagError, parse_label_flags, parse_log_opt_flags}

pub record Output : Type 0 where
  pub lines : List Text
  pub exit_code : ℕ

abbrev pub silent : ℕ → Output
silent code = record { lines = []; exit_code = code }

abbrev pub no_helpers : Output
no_helpers = record { lines = codes "No helper containers found." ∷ []; exit_code = 0 }

-- The flags of list and cleanup.
pub record HelperFlags : Type 0 where
  pub name : Text
  pub target : Text
  pub stale : Bool
  pub dry_run : Bool

abbrev pub would_remove : ℕ → Text
would_remove n = codes "--dry-run: would remove " ++ (format_nat n ++ codes " helper container(s)")

abbrev pub removed_of : ℕ → ℕ → Text
removed_of removed n =
    codes "Removed "
    ++ (format_nat removed ++ (codes " of " ++ (format_nat n ++ codes " helper container(s).")))

module _ (is_print : ℕ → Bool) where
  abbrev pub rows : Bool → List Helper → List Text
  rows detailed = map (λ h. format_helper_row is_print h detailed)

  unfoldable pub cleanup_output : Bool → Result Error CleanupResult → Output
  cleanup_output dry_run (err e) = silent 1
  cleanup_output dry_run (ok r) = elim r.helpers [
    | [] ↦ no_helpers
    | h ∷ helpers ↦
        if dry_run
        then record {
          lines = rows false (h ∷ helpers) ++ would_remove (length (h ∷ helpers)) ∷ [];
          exit_code = 0;
        }
        else record {
          lines = rows false (h ∷ helpers) ++ removed_of r.removed (length (h ∷ helpers)) ∷ [];
          exit_code = if r.removed == length (h ∷ helpers) then 0 else 1;
        }
  ]

  unfoldable pub list_output : Result Error (List Helper) → Output
  list_output (err e) = silent 1
  list_output (ok []) = no_helpers
  list_output (ok (h ∷ helpers)) = record { lines = rows true (h ∷ helpers); exit_code = 0 }

  -- The flags are `none` when they could not be parsed; cleanup asks for a UI of its own kind.
  module _ (c : Client) where
    abbrev pub cleanup_with : HelperFlags → c.World → Output × c.World
    cleanup_with flags w =
        let (r, w') = cleanup c flags.name flags.target flags.stale flags.dry_run w in
        (cleanup_output flags.dry_run r, w')

    unfoldable pub run_cleanup : Bool → Option HelperFlags → c.World → Output × c.World
    run_cleanup zerolog none w = (silent 1, w)
    run_cleanup zerolog (some flags) w = if zerolog then cleanup_with flags w else (silent 1, w)

    unfoldable pub run_list : Option HelperFlags → c.World → Output × c.World
    run_list none w = (silent 1, w)
    run_list (some flags) w =
        let (r, w') = find_helpers c flags.name flags.target flags.stale w in (list_output r, w')

-- The flags of port-forward as they are given, and the arguments behind them.
pub record ForwardFlags : Type 0 where
  pub settings : Settings
  pub label_flags : List Text
  pub log_opt_flags : List Text
  pub args : List Text

abbrev pub given_settings : ForwardFlags → Text → List Text → List (Text × Text) → Settings
given_settings flags target ports labels = record flags.settings {
  target = target;
  ports = ports;
  labels = labels;
  log_opts = parse_log_opt_flags flags.log_opt_flags;
}

abbrev pub forward_code : Result ForwardError (Option Forwarded) → Option ℕ
forward_code (ok none) = none
forward_code (ok (some _)) = some 0
forward_code (err _) = some 1

-- whether the UI is one of its own kind
module _ (validate is_none : RestartPolicy → Bool) (exists : Text → Bool)
    (absolute : Text → Option Text) (h : Host) (opened : Result DockerError (Unit {0}))
    (zerolog : Bool) (fuel : ℕ) where
  abbrev pub forward_with : Settings → h.client.World → Option ℕ × h.client.World
  forward_with settings w =
      let (r, w') = forward validate is_none exists absolute h opened fuel settings w in
      (forward_code r, w')

  abbrev pub run_with_labels :
      ForwardFlags
      → Text
      → List Text
      → Result FlagError (List (Text × Text))
      → h.client.World
      → Option ℕ × h.client.World
  run_with_labels flags target ports (err e) w = (some 1, w)
  run_with_labels flags target ports (ok labels) w =
      if zerolog then forward_with (given_settings flags target ports labels) w else (some 1, w)

  abbrev pub run_with_args : ForwardFlags → List Text → h.client.World → Option ℕ × h.client.World
  run_with_args flags [] w = (some 1, w)
  run_with_args flags (target ∷ ports) w =
      run_with_labels flags target ports (parse_label_flags flags.label_flags) w

  -- The exit code; none is left when the fuel ends.
  unfoldable pub run_forward : Option ForwardFlags → h.client.World → Option ℕ × h.client.World
  run_forward none w = (some 1, w)
  run_forward (some flags) w = run_with_args flags flags.args w
