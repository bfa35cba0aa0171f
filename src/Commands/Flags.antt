-- ===== src/Commands/Flags.antt =====
-- commands/port_forward.go: `parseLabelFlags` and `parseLogOptFlags`, and main.go: the arguments.
use docker_port_forward.Common.{
  Bool, ◌&&◌, Option, none, some, List, [], ◌∷◌, Result, ok, err, if◌then◌else◌,
}
use docker_port_forward.Text.{Text, codes, text_eq, cut}
use docker_port_forward.Docker.{Labels}

pub data FlagError : Type 0 where
  bad_label : Text → FlagError

-- the two parts of an entry; the key may not be empty
abbrev pub label_entry : Text → Option (Text × Text) → Result FlagError (Text × Text)
label_entry entry none = err (bad_label entry)
label_entry entry (some ([], value)) = err (bad_label entry)
label_entry entry (some (c ∷ key, value)) = ok (c ∷ key, value)

-- The map, in which the entry that is set last stands first.
unfoldable pub add_labels : Labels → List Text → Result FlagError Labels
add_labels out [] = ok out
add_labels out (entry ∷ entries) = elim (label_entry entry (cut b'=' entry)) [
  | ok parsed ↦ add_labels (parsed ∷ out) entries
  | err e ↦ err e
]

unfoldable pub parse_label_flags : List Text → Result FlagError Labels
parse_label_flags = add_labels []

abbrev pub opt_entry : Text → Option (Text × Text) → Text × Text
opt_entry entry none = (entry, [])
opt_entry entry (some parts) = parts

unfoldable pub add_opts : Labels → List Text → Labels
add_opts out [] = out
add_opts out (entry ∷ entries) = add_opts (opt_entry entry (cut b'=' entry) ∷ out) entries

unfoldable pub parse_log_opt_flags : List Text → Labels
parse_log_opt_flags = add_opts []

-- main.go: the arguments behind the program's name, when Docker calls it as a plugin or not.
unfoldable pub cli_args : Bool → List Text → List Text
cli_args as_plugin [] = []
cli_args as_plugin (arg ∷ args) =
    (if as_plugin && text_eq arg (codes "pf") then codes "port-forward" else arg) ∷ args
