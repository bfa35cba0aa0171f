-- ===== src/Target/Parse.antt =====
-- internal/target.go: `ParseTarget`.
use docker_port_forward.Common.{none, some, if◌then◌else◌, Result, ok, err, is_nil}
use docker_port_forward.Text.{Text, codes, trim_space, cut_prefix}

pub data TargetType : Type 0 where
  container service auto : TargetType

pub record ParsedTarget : Type 0 where
  pub type : TargetType
  pub name : Text

pub data TargetError : Type 0 where
  target_required container_name_empty service_name_empty : TargetError

abbrev pub container_prefix : Text
container_prefix = codes "container/"

abbrev pub service_prefix : Text
service_prefix = codes "service/"

-- A name behind a prefix, which may not be empty.
abbrev pub named : TargetType → TargetError → Text → Result TargetError ParsedTarget
named type e name = if is_nil name then err e else ok (record { type = type; name = name })

-- a target without white space around it
unfoldable pub parse_trimmed_target : Text → Result TargetError ParsedTarget
parse_trimmed_target s =
    if is_nil s then err target_required else elim (cut_prefix container_prefix s) [
      | some name ↦ named container container_name_empty name
      | none ↦ elim (cut_prefix service_prefix s) [
        | some name ↦ named service service_name_empty name
        | none ↦ ok (record { type = auto; name = s })
      ]
    ]

unfoldable pub parse_target : Text → Result TargetError ParsedTarget
parse_target s = parse_trimmed_target (trim_space s)
