-- ===== src/Options/Tests.antt =====
-- The theorems on options at concrete inputs.
use docker_port_forward.Netip.{parse_prefix, Prefix, prefix_of, v4, masked}
use docker_port_forward.Text.{atoi, cut, codes, text_eq, contains_char}
use docker_port_forward.Common.{
  ◌≡◌, ◌↔◌, ◌⊎◌, ◌||◌, ◌&&◌, refl, Bool, true, [], ◌∷◌, pos, int_eq, ok,
}
use docker_port_forward.Options.Restart.{RestartPolicy, default_policy, parse_restart_policy}
use docker_port_forward.Options.Restarted.{Describes, IsAllowed, parse_restart_policy_iff}
use docker_port_forward.Options.Range.{parse_source_range}
use docker_port_forward.Options.Ranged.{IsRange, parse_source_range-IsRange}

abbrev is_none : RestartPolicy → Bool
is_none rp = text_eq rp.name (codes "no")

-- A count of retries is for on-failure only.
abbrev validate : RestartPolicy → Bool
validate rp =
    text_eq rp.name (codes "on-failure")
    || ((text_eq rp.name (codes "always") || text_eq rp.name (codes "no"))
        && int_eq rp.max_retries (pos 0))

abbrev on_failure : RestartPolicy
on_failure = record { name = codes "on-failure"; max_retries = pos 3 }

parse_on_failure : parse_restart_policy validate is_none (codes "on-failure:3") true ≡ ok on_failure
unfolding parse_restart_policy cut atoi text_eq
parse_on_failure = refl

parse_restart_policy_iff_example :
    (parse_restart_policy validate is_none (codes "on-failure:3") true ≡ ok on_failure) ↔ (
      ((codes "on-failure:3" ≡ []) × (on_failure ≡ default_policy true))
      ⊎ (Describes (codes "on-failure:3") on_failure × IsAllowed validate is_none true on_failure))
parse_restart_policy_iff_example =
    parse_restart_policy_iff validate is_none (codes "on-failure:3") true on_failure

abbrev private_range : Prefix
private_range = prefix_of (v4 (10 ∷ 0 ∷ 0 ∷ 0 ∷ [])) 8

parse_private : parse_source_range (codes "10.1.2.3/8") ≡ ok private_range
unfolding parse_source_range contains_char parse_prefix masked
parse_private = refl

parse_source_range-IsRange_example : IsRange (codes "10.1.2.3/8") private_range
parse_source_range-IsRange_example =
    parse_source_range-IsRange (codes "10.1.2.3/8") private_range parse_private
