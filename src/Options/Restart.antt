-- ===== src/Options/Restart.antt =====
-- internal/restart.go: `ParseRestartPolicy`.
use docker_port_forward.Common.{
  Bool, not, ◌&&◌, Option, none, some, [], ◌∷◌, if◌then◌else◌, ℤ, pos, Result, ok, err,
}
use docker_port_forward.Text.{Text, codes, cut, atoi}

-- `container.RestartPolicy`
pub record RestartPolicy : Type 0 where
  pub name : Text
  pub max_retries : ℤ

pub data RestartError : Type 0 where
  no_policy not_an_integer refused conflicting : RestartError

-- unless-stopped for a detached helper, and no restart for an attached one
unfoldable pub default_policy : Bool → RestartPolicy
default_policy detach = record {
  name = if detach then codes "unless-stopped" else codes "no";
  max_retries = pos 0;
}

-- `container.ValidateRestartPolicy` gives no error, and `RestartPolicy.IsNone`.
module _ (validate is_none : RestartPolicy → Bool) where
  abbrev pub checked : Bool → RestartPolicy → Result RestartError RestartPolicy
  checked detach rp =
      if not (validate rp)
      then err refused
      else if not detach && not (is_none rp)
      then err conflicting
      else ok rp

  -- an empty count is none
  abbrev pub with_count : Bool → Text → Text → Result RestartError RestartPolicy
  with_count detach name [] = checked detach (record { name = name; max_retries = pos 0 })
  with_count detach name (c ∷ count) = elim (atoi (c ∷ count)) [
    | none ↦ err not_an_integer
    | some n ↦ checked detach (record { name = name; max_retries = n })
  ]

  abbrev pub around_colon : Bool → Text → Option (Text × Text) → Result RestartError RestartPolicy
  around_colon detach policy none = with_count detach policy []
  around_colon detach policy (some ([], count)) = err no_policy
  around_colon detach policy (some (c ∷ name, count)) = with_count detach (c ∷ name) count

  unfoldable pub parse_restart_policy : Text → Bool → Result RestartError RestartPolicy
  parse_restart_policy [] detach = ok (default_policy detach)
  parse_restart_policy (c ∷ policy) detach =
      around_colon detach (c ∷ policy) (cut b':' (c ∷ policy))
