-- ===== src/Commands/Tests.antt =====
-- The commands at concrete inputs.
use docker_port_forward.Text.{Text, cut, text_eq, codes}
use docker_port_forward.Common.{List, ◌≡◌, ◌↔◌, ℕ, refl, Bool, true, false, some, [], ◌∷◌, ok}
use docker_port_forward.Commands.Defaults.{zero_settings, flag_defaults}
use docker_port_forward.Commands.Run.{given_settings, HelperFlags, run_cleanup}
use docker_port_forward.Commands.Flags.{add_opts, parse_label_flags, parse_log_opt_flags, cli_args}
use docker_port_forward.Entry.{fill_defaults}
use docker_port_forward.Commands.Rows.{
  reason_text, truncate_id, detail_fields, source_range_field, format_helper_row,
}
use docker_port_forward.Commands.Quote.{is_printable, escape, escape_all, quote}
use docker_port_forward.Library.{Helper, find_helpers}
use docker_port_forward.Helpers.{target_gone}
use docker_port_forward.Docker.{Summary}
use docker_port_forward.Launch.Example.{place, removes, Site}
use docker_port_forward.Commands.Labelled.{AreWritten, parse_label_flags_iff}
use docker_port_forward.Commands.Exits.{IsExit, run_cleanup-IsExit}

abbrev no_other : ℕ → Bool
no_other c = false

quoted : quote no_other (codes "a\"b\n") ≡ codes "\"a\\\"b\\n\""
unfolding quote escape_all escape is_printable
quoted = refl

abbrev helper : Helper
helper = record {
  id = codes "0123456789abcdef";
  name = codes "pf";
  target = codes "app";
  ports = codes "8080:80";
  bindings = codes "*:8080:80";
  target_name = codes "web";
  target_network = codes "net";
  target_address = codes "web";
  source_range = [];
  stale = some (target_gone (codes "web"));
}

row :
    format_helper_row no_other helper true
    ≡ codes
        "0123456789ab  name=pf target=app ports=8080:80 bindings=*:8080:80 network=net address=web stale=\"target container \\\"web\\\" no longer exists\""
unfolding format_helper_row truncate_id detail_fields source_range_field quote escape_all
    reason_text escape is_printable
row = refl

args : cli_args true (codes "pf" ∷ codes "web" ∷ []) ≡ codes "port-forward" ∷ codes "web" ∷ []
unfolding cli_args text_eq
args = refl

options :
    parse_log_opt_flags (codes "max-size=10m" ∷ codes "compress" ∷ [])
    ≡ (codes "compress", []) ∷ (codes "max-size", codes "10m") ∷ []
unfolding parse_log_opt_flags add_opts cut
options = refl

abbrev running : Summary
running = record {
  id = codes "pf1";
  names = codes "/pf" ∷ [];
  labels = [];
  state = codes "running";
}

abbrev site : Site
site = record { clock = 0; helper = some running }

abbrev flags : HelperFlags
flags = record { name = []; target = []; stale = false; dry_run = false }

run_cleanup-IsExit_example :
    IsExit place removes false
      (find_helpers place [] [] false site).1
      (find_helpers place [] [] false site).0
      (run_cleanup no_other place true (some flags) site)
run_cleanup-IsExit_example = run_cleanup-IsExit place removes no_other flags site

parse_label_flags_iff_example :
    (parse_label_flags (codes "team=a=b" ∷ []) ≡ ok ((codes "team", codes "a=b") ∷ []))
    ↔ AreWritten [] (codes "team=a=b" ∷ []) ((codes "team", codes "a=b") ∷ [])
parse_label_flags_iff_example =
    parse_label_flags_iff (codes "team=a=b" ∷ []) ((codes "team", codes "a=b") ∷ [])

-- The command with no flags does what the library does with no options.
same_defaults :
    (args : List Text) (target : Text) (ports : List Text)
    → fill_defaults (given_settings (flag_defaults args) target ports [])
      ≡ fill_defaults (record zero_settings { target = target; ports = ports })
unfolding fill_defaults flag_defaults parse_log_opt_flags add_opts
same_defaults given target ports = refl
