-- ===== src/Entry/Accepted.antt =====
-- portforward/forward.go: which options `Forward` accepts, and what it does with others.
use docker_port_forward.Common.{
  subst, ℕ, ◌≡◌, ◌≢◌, ◌↔◌, ◌⊎◌, inl, inr, refl, true, false, not, List, [], ◌∷◌, Result, ok, err,
  ok-injective, arith, Bool, Option, pos, int_lt, >>=-eq-ok, ◌>>=◌, Bool-cases,
}
use docker_port_forward.Text.{Text, codes, text_eq, text_eq_sound, text_eq_refl}
use docker_port_forward.Ports.{PortPair, parse_port_specs, validate_addresses}
use docker_port_forward.Options.{RestartPolicy, parse_restart_policy, parse_source_range}
use docker_port_forward.Docker.{DockerError, Labels}
use docker_port_forward.Target.{parse_target}
use docker_port_forward.Launch.{Host, pull_always, pull_missing, pull_never}
use docker_port_forward.Entry.Checks.{
  Settings, SettingsError, ParsedSettings, fill_defaults, parse_settings, is_pull_policy,
  log_config_valid, with_error, require, pairs_given, bad_ports, bad_pull, bad_restart,
  bad_log_opts, bad_addresses, negative_half_close, bad_range, bad_target,
}
use docker_port_forward.Entry.Forward.{forward, refused}

abbrev pub IsPullPolicy : Text → Type 0
IsPullPolicy pull = (pull ≡ pull_always) ⊎ ((pull ≡ pull_missing) ⊎ (pull ≡ pull_never))

-- no specs, to be detected, or specs that are accepted
abbrev pub AreGiven : List Text → List PortPair → Type 0
AreGiven specs pairs =
    ((specs ≡ []) × (pairs ≡ [])) ⊎ ((specs ≢ []) × (parse_port_specs specs ≡ ok pairs))

policy_named : (pull : Text) → is_pull_policy pull ≡ true → IsPullPolicy pull
unfolding is_pull_policy
policy_named pull h = elim (Bool-cases (text_eq pull pull_always)) [
  | inl t ↦ inl (text_eq_sound pull pull_always t)
  | inr f ↦ elim (Bool-cases (text_eq pull pull_missing)) [
    | inl t ↦ inr (inl (text_eq_sound pull pull_missing t))
    | inr g ↦ inr (inr (text_eq_sound pull pull_never (ground arith)))
  ]
]

named_policy : (pull : Text) → IsPullPolicy pull → is_pull_policy pull ≡ true
unfolding is_pull_policy text_eq
named_policy pull (inl e) = rw e refl
named_policy pull (inr (inl e)) = rw e refl
named_policy pull (inr (inr e)) = rw e refl

without_opts :
    (driver : Text) (opts : Labels)
    → log_config_valid driver opts ≡ true
    → driver ≡ codes "none"
    → opts ≡ []
unfolding log_config_valid
without_opts driver [] h e = refl
without_opts driver (o ∷ opts) h e =
    let same : text_eq driver (codes "none") ≡ true = rw e (text_eq_refl (codes "none")) in
    absurd (ground arith)

opts_valid :
    (driver : Text) (opts : Labels)
    → (driver ≡ codes "none" → opts ≡ [])
    → log_config_valid driver opts ≡ true
unfolding log_config_valid
opts_valid driver opts h = elim (Bool-cases (text_eq driver (codes "none"))) [
  | inl t ↦ let e : opts ≡ [] = h (text_eq_sound driver (codes "none") t) in rw e (ground arith)
  | inr f ↦ ground arith
]

with_error_ok :
    {E F A : Type 0} (f : E → F) (r : Result E A) (a : A) → with_error f r ≡ ok a → r ≡ ok a
with_error_ok f (ok b) a e = cc
with_error_ok f (err g) a e = cc

require_ok : (e : SettingsError) (test : Bool) (u : Unit {0}) → require e test ≡ ok u → test ≡ true
require_ok e true u h = refl
require_ok e false u h = cc

pairs_parsed :
    (specs : List Text) (pairs : List PortPair)
    → pairs_given specs ≡ ok pairs
    → AreGiven specs pairs
unfolding pairs_given
pairs_parsed [] pairs h = inl (refl, cc)
pairs_parsed (s ∷ specs) pairs h = inr ((λ e. cc), with_error_ok bad_ports _ pairs h)

parsed_pairs :
    (specs : List Text) (pairs : List PortPair)
    → AreGiven specs pairs
    → pairs_given specs ≡ ok pairs
unfolding pairs_given
parsed_pairs specs pairs (inl (none_given, e)) = rw (none_given, e) refl
parsed_pairs [] pairs (inr (ne, e)) = absurd (ne refl)
parsed_pairs (s ∷ specs) pairs (inr (ne, e)) = rw e refl

ok_then :
    {E A B : Type 0} (first : Result E A) (next : A → Result E B) {b : B} (a : A)
    → first ≡ ok a
    → next a ≡ ok b
    → (first >>= next) ≡ ok b
ok_then first next a e h = rw e h

-- `ValidateRestartPolicy` gives no error, and `IsNone`.
module _ (validate is_none : RestartPolicy → Bool) where
  -- the options, and what they are parsed to
  pub record IsAccepted (o : Settings) (p : ParsedSettings) : Type 0 where
    pub pull_named : IsPullPolicy o.pull
    pub restart_parsed :
        parse_restart_policy validate is_none o.restart_policy o.detach ≡ ok p.restart_policy
    pub no_opts : o.log_driver ≡ codes "none" → o.log_opts ≡ []
    pub addresses_valid : validate_addresses o.addresses ≡ ok tt
    pub not_negative : int_lt o.tcp_half_close_timeout (pos 0) ≡ false
    pub range_parsed : parse_source_range o.source_range ≡ ok p.source_range
    pub target_parsed : parse_target o.target ≡ ok p.target
    pub pairs_are : AreGiven o.ports p.pairs

  accepted :
      (o : Settings) (p : ParsedSettings)
      → parse_settings validate is_none o ≡ ok p
      → IsAccepted o p
  unfolding parse_settings
  accepted o p h =
      let (_, h1, k1) = >>=-eq-ok (require (bad_pull o.pull) (is_pull_policy o.pull)) _ h in
      let (restart, h2, k2) =
        >>=-eq-ok
          (with_error bad_restart (parse_restart_policy validate is_none o.restart_policy o.detach))
          _ k1 in
      let (_, h3, k3) =
        >>=-eq-ok (require bad_log_opts (log_config_valid o.log_driver o.log_opts)) _ k2 in
      let (_, h4, k4) =
        >>=-eq-ok (with_error bad_addresses (validate_addresses o.addresses)) _ k3 in
      let (_, h5, k5) =
        >>=-eq-ok (require negative_half_close (not (int_lt o.tcp_half_close_timeout (pos 0)))) _
          k4 in
      let (range, h6, k6) =
        >>=-eq-ok (with_error bad_range (parse_source_range o.source_range)) _ k5 in
      let (target, h7, k7) = >>=-eq-ok (with_error bad_target (parse_target o.target)) _ k6 in
      let (pairs, h8, k8) = >>=-eq-ok (pairs_given o.ports) _ k7 in
      subst (IsAccepted o) (ok-injective k8) (record {
        pull_named =
            policy_named o.pull (require_ok (bad_pull o.pull) (is_pull_policy o.pull) _ h1);
        restart_parsed = with_error_ok bad_restart _ restart h2;
        no_opts =
            without_opts o.log_driver o.log_opts
              (require_ok bad_log_opts (log_config_valid o.log_driver o.log_opts) _ h3);
        addresses_valid = with_error_ok bad_addresses _ _ h4;
        not_negative =
            (let t =
                require_ok negative_half_close (not (int_lt o.tcp_half_close_timeout (pos 0))) _
                  h5 in
              ground arith);
        range_parsed = with_error_ok bad_range _ range h6;
        target_parsed = with_error_ok bad_target _ target h7;
        pairs_are = pairs_parsed o.ports pairs h8;
      })

  accepted_back :
      (o : Settings) (p : ParsedSettings)
      → IsAccepted o p
      → parse_settings validate is_none o ≡ ok p
  unfolding parse_settings
  accepted_back o p a =
      ok_then (require (bad_pull o.pull) (is_pull_policy o.pull)) _ tt
        (rw (named_policy o.pull a.pull_named) refl)
        (ok_then
          (with_error bad_restart (parse_restart_policy validate is_none o.restart_policy o.detach))
          _ p.restart_policy (rw a.restart_parsed refl)
          (ok_then (require bad_log_opts (log_config_valid o.log_driver o.log_opts)) _ tt
            (rw (opts_valid o.log_driver o.log_opts a.no_opts) refl)
            (ok_then (with_error bad_addresses (validate_addresses o.addresses)) _ tt
              (rw a.addresses_valid refl)
              (ok_then (require negative_half_close (not (int_lt o.tcp_half_close_timeout (pos 0))))
                _ tt (rw a.not_negative refl)
                (ok_then (with_error bad_range (parse_source_range o.source_range)) _ p.source_range
                  (rw a.range_parsed refl)
                  (ok_then (with_error bad_target (parse_target o.target)) _ p.target
                    (rw a.target_parsed refl)
                    (ok_then (pairs_given o.ports) _ p.pairs
                      (parsed_pairs o.ports p.pairs a.pairs_are) refl)))))))

-- `Forward` accepts its options exactly when the pull policy is a known one, the restart policy, the
-- source range and the target are parsed, the "none" logging driver has no options, the addresses are
-- valid, the half-close timeout is not negative, and each port spec is parsed, where there may be none.
-- What they are parsed to is what `Forward` goes on with.
pub parse_settings_iff :
    (validate is_none : RestartPolicy → Bool) (o : Settings) (p : ParsedSettings)
    → (parse_settings validate is_none o ≡ ok p) ↔ IsAccepted validate is_none o p
parse_settings_iff validate is_none o p =
    (accepted validate is_none o p, accepted_back validate is_none o p)

refused_untouched :
    (validate is_none : RestartPolicy → Bool) (exists : Text → Bool) (absolute : Text → Option Text)
    (h : Host) (opened : Result DockerError (Unit {0})) (fuel : ℕ) (settings : Settings)
    (w : h.client.World) (r : Result SettingsError ParsedSettings)
    → parse_settings validate is_none (fill_defaults settings) ≡ r
    → ((p : ParsedSettings) × IsAccepted validate is_none (fill_defaults settings) p)
      ⊎ ((e : SettingsError) × (forward validate is_none exists absolute h opened fuel settings w
            ≡ (err (refused e), w))
          × ((p : ParsedSettings) → IsAccepted validate is_none (fill_defaults settings) p → ⊥))
unfolding forward
refused_untouched validate is_none exists absolute h opened fuel settings w (ok p) e =
    inl (p, accepted validate is_none (fill_defaults settings) p e)
refused_untouched validate is_none exists absolute h opened fuel settings w (err f) e = inr (
  f,
  rw (forward, e) refl,
  λ p a. let good = accepted_back validate is_none (fill_defaults settings) p a in cc,
)

-- Options that are not accepted, with the default values filled in, are refused by `Forward` before
-- anything else: the error is that of the options, and the daemon and the host are as before, whatever
-- they are.
pub forward-refused :
    (validate is_none : RestartPolicy → Bool) (exists : Text → Bool) (absolute : Text → Option Text)
    (h : Host) (opened : Result DockerError (Unit {0})) (fuel : ℕ) (settings : Settings)
    (w : h.client.World)
    → ((p : ParsedSettings) × IsAccepted validate is_none (fill_defaults settings) p)
      ⊎ ((e : SettingsError) × (forward validate is_none exists absolute h opened fuel settings w
            ≡ (err (refused e), w))
          × ((p : ParsedSettings) → IsAccepted validate is_none (fill_defaults settings) p → ⊥))
forward-refused validate is_none exists absolute h opened fuel settings w =
    refused_untouched validate is_none exists absolute h opened fuel settings w _ refl
