-- ===== src/Entry/Checks.antt =====
-- portforward/forward.go: the options of `Forward`, their default values and checks.
use docker_port_forward.Common.{
  Bool, ◌&&◌, ◌||◌, not, ℤ, pos, List, [], ◌∷◌, Result, ok, err, ◌>>=◌, ◌>>◌, if◌then◌else◌, is_nil,
  int_lt,
}
use docker_port_forward.Text.{Text, codes, text_eq}
use docker_port_forward.Netip.{Prefix}
use docker_port_forward.Ports.{
  PortPair, AddressError, SpecError, validate_addresses, parse_port_specs, localhost,
}
use docker_port_forward.Options.{
  RestartPolicy, RestartError, RangeError, parse_restart_policy, parse_source_range,
}
use docker_port_forward.Docker.{Labels}
use docker_port_forward.Target.{ParsedTarget, TargetError, parse_target}
use docker_port_forward.Launch.{
  or_default, or_timeout, default_helper_image, default_running_timeout, default_udp_timeout,
  pull_always, pull_missing, pull_never,
}

-- `Options`: the ones that the program uses; durations are in nanoseconds.
pub record Settings : Type 0 where
  pub target : Text
  pub ports : List Text
  pub addresses : List Text
  pub detach : Bool
  pub restart_policy : Text
  pub log_driver : Text
  pub log_opts : Labels
  pub running_timeout : ℤ
  pub files : List Text
  pub helper_image : Text
  pub labels : Labels
  pub name : Text
  pub network : Text
  pub project_name : Text
  pub pull : Text
  pub skip_preflight : Bool
  pub udp_timeout : ℤ
  pub tcp_half_close_timeout : ℤ
  pub source_range : Text

abbrev pub addresses_or_localhost : List Text → List Text
addresses_or_localhost [] = localhost ∷ []
addresses_or_localhost (a ∷ addresses) = a ∷ addresses

unfoldable pub fill_defaults : Settings → Settings
fill_defaults o = record o {
  pull = or_default pull_missing o.pull;
  helper_image = or_default default_helper_image o.helper_image;
  addresses = addresses_or_localhost o.addresses;
  running_timeout = pos (or_timeout default_running_timeout o.running_timeout);
  udp_timeout = pos (or_timeout default_udp_timeout o.udp_timeout);
}

pub data SettingsError : Type 0 where
  bad_pull : Text → SettingsError
  bad_restart : RestartError → SettingsError
  bad_log_opts : SettingsError
  bad_addresses : AddressError → SettingsError
  negative_half_close : SettingsError
  bad_range : RangeError → SettingsError
  bad_target : TargetError → SettingsError
  bad_ports : SpecError → SettingsError

-- What the options are parsed to; there are no pairs when they are to be detected.
pub record ParsedSettings : Type 0 where
  pub restart_policy : RestartPolicy
  pub source_range : Prefix
  pub target : ParsedTarget
  pub pairs : List PortPair

unfoldable pub is_pull_policy : Text → Bool
is_pull_policy pull =
    text_eq pull pull_always || (text_eq pull pull_missing || text_eq pull pull_never)

-- internal/logging.go: `ValidateLogConfig` gives no error.
unfoldable pub log_config_valid : Text → Labels → Bool
log_config_valid driver opts = not (text_eq driver (codes "none") && not (is_nil opts))

abbrev pub with_error : {E F A : Type 0} → (E → F) → Result E A → Result F A
with_error f (ok a) = ok a
with_error f (err e) = err (f e)

abbrev pub require : SettingsError → Bool → Result SettingsError (Unit {0})
require e test = if test then ok tt else err e

unfoldable pub pairs_given : List Text → Result SettingsError (List PortPair)
pairs_given [] = ok []
pairs_given (s ∷ specs) = with_error bad_ports (parse_port_specs (s ∷ specs))

-- `container.ValidateRestartPolicy` gives no error, and `RestartPolicy.IsNone`.
module _ (validate is_none : RestartPolicy → Bool) where
  unfoldable pub parse_settings : Settings → Result SettingsError ParsedSettings
  parse_settings o = do
    require (bad_pull o.pull) (is_pull_policy o.pull)
    restart_policy ←
        with_error bad_restart (parse_restart_policy validate is_none o.restart_policy o.detach)
    require bad_log_opts (log_config_valid o.log_driver o.log_opts)
    with_error bad_addresses (validate_addresses o.addresses)
    require negative_half_close (not (int_lt o.tcp_half_close_timeout (pos 0)))
    source_range ← with_error bad_range (parse_source_range o.source_range)
    target ← with_error bad_target (parse_target o.target)
    pairs ← pairs_given o.ports
    ok (record {
      restart_policy = restart_policy;
      source_range = source_range;
      target = target;
      pairs = pairs;
    })
