-- ===== src/Entry/Project.antt =====
-- portforward/forward.go: `resolveProjectName`, and internal/compose.go: `ComposeFile`.
use docker_port_forward.Common.{
  ◌==◌, Bool, true, false, Option, none, some, List, [], ◌∷◌, if◌then◌else◌, is_nil, ◌||◌,
}
use docker_port_forward.Text.{Text, codes, text_eq, split, cut_last}
use docker_port_forward.Target.{TargetType, container, service, auto}

abbrev pub dot : Text
dot = b'.' ∷ []

abbrev pub dot_dot : Text
dot_dot = b'.' ∷ b'.' ∷ []

abbrev pub is_rooted : Text → Bool
is_rooted [] = false
is_rooted (c ∷ _) = c == b'/'

-- One element of a path in `filepath.Clean`, onto the ones before it, the last of which stands first.
unfoldable pub clean_part : Bool → List Text → Text → List Text
clean_part rooted out part =
    if is_nil part || text_eq part dot
    then out
    else if text_eq part dot_dot
    then elim out [
      | [] ↦ if rooted then [] else dot_dot ∷ []
      | last ∷ rest ↦ if text_eq last dot_dot then dot_dot ∷ last ∷ rest else rest
    ]
    else part ∷ out

unfoldable pub clean_parts : Bool → List Text → List Text → List Text
clean_parts rooted out [] = out
clean_parts rooted out (part ∷ parts) = clean_parts rooted (clean_part rooted out part) parts

abbrev pub base_of : Bool → List Text → Text
base_of rooted (last ∷ _) = last
base_of true [] = b'/' ∷ []
base_of false [] = dot

abbrev pub dir_of : Text → Option (Text × Text) → Text
dir_of path none = dot
dir_of path (some (dir, _)) =
    base_of (is_rooted path) (clean_parts (is_rooted path) [] (split b'/' dir))

-- `filepath.Base(filepath.Dir(path))`, where a slash separates
unfoldable pub base_of_dir : Text → Text
base_of_dir path = dir_of path (cut_last b'/' path)

-- `os.Stat` gives no error, and `filepath.Abs`.
module _ (exists : Text → Bool) (absolute : Text → Option Text) where
  unfoldable pub first_file : List Text → Option Text
  first_file [] = none
  first_file (name ∷ names) =
      let rest = first_file names in if exists name then absolute name else rest

  unfoldable pub compose_file : Option Text
  compose_file = first_file (codes "docker-compose.yaml" ∷ codes "docker-compose.yml" ∷ [])

  abbrev pub needs_compose : TargetType → Bool
  needs_compose container = false
  needs_compose service = true
  needs_compose auto = true

  abbrev pub project_of : Option Text → Text
  project_of none = []
  project_of (some file) = base_of_dir file

  -- the option for the name, that for the files, and the type of the target
  unfoldable pub resolve_project_name : Text → List Text → TargetType → Text
  resolve_project_name (c ∷ name) files type = c ∷ name
  resolve_project_name [] (file ∷ files) type = base_of_dir file
  resolve_project_name [] [] type = if needs_compose type then project_of compose_file else []
