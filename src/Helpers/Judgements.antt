-- ===== src/Helpers/Judgements.antt =====
-- internal/drift.go: the parts of a verdict of `CheckHelper`, against what they say.
use docker_port_forward.Common.{
  ◌≢◌, ◌≡◌, refl, subst, Bool, true, false, none, some, Option, Result, ok, err, Bool-cases, inl,
  inr, arith,
}
use docker_port_forward.Text.{Text, text_eq}
use docker_port_forward.Netip.{Addr, is_valid, addr_eq}
use docker_port_forward.Docker.{Inspect, DockerError, is_not_found, Error}
use docker_port_forward.Helpers.Check.{
  check_network, bridge, StaleReason, on_internal, target_gone, detached, check_by_name,
  check_by_address, compare_address, endpoint, attached_to, is_running,
}
use docker_port_forward.Helpers.Staleness.{dialled, StillThere, Justified}

-- The part of the verdict that follows the inspection of the target.
abbrev pub target_result :
    Text
    → Text
    → Text
    → Option Addr
    → Result DockerError Inspect
    → Result Error (Option StaleReason)
target_result address network target none r = check_by_name address network r
target_result address network target (some ip) r = check_by_address ip target network r

module _ (find : Text → Result DockerError Inspect) (internal : Text → Result DockerError Bool)
    (address network target : Text) where
  abbrev OfTarget : Option Addr → Option StaleReason → Type 0
  OfTarget p none =
      StillThere find internal address network target p p
        (find (dialled find internal address network target p))
  OfTarget p (some reason) = Justified find internal address network target p reason

  becomes :
      (p : Option Addr) {v : Option StaleReason} (u : Option StaleReason)
      → OfTarget p u
      → u ≡ v
      → OfTarget p v
  becomes p u h e = subst (OfTarget p) e h

  compare_address-Holds :
      (old : Addr) (info : Inspect) (e : Option Addr)
      → find target ≡ ok info
      → endpoint info network ≡ e
      → attached_to info network ≡ true
      → is_running info ≡ true
      → OfTarget (some old) (compare_address old e)
  compare_address-Holds old info none hf he ha hr = rw hf (λ h. (ha, λ new h1 h2. cc))
  compare_address-Holds old info (some new) hf he ha hr = elim (Bool-cases (is_valid new)) [
    | inr w ↦ rw (w, hf) (λ h. (ha, λ other h1 h2. cc))
    | inl v ↦ elim (Bool-cases (addr_eq new old)) [
      | inl same ↦ rw (v, same, hf) (λ h. (ha, λ other h1 h2. cc))
      | inr differ ↦ rw (v, differ, hf) (refl, (hr, he, v, differ))
    ]
  ]

  by_address-Holds :
      (old : Addr) (info : Inspect)
      → find target ≡ ok info
      → (v : Option StaleReason) → check_by_address old target network (ok info) ≡ ok v
      → OfTarget (some old) v
  unfolding check_by_address
  by_address-Holds old info hf v h = elim (Bool-cases (is_running info)) [
    | inr stopped ↦ becomes (some old) none (rw hf (λ running. cc)) (ground arith)
    | inl running ↦ elim (Bool-cases (attached_to info network)) [
      | inr away ↦ becomes (some old) (some (detached network)) (rw hf (refl, away)) (ground arith)
      | inl there ↦
          becomes (some old) (compare_address old (endpoint info network))
            (compare_address-Holds old info (endpoint info network) hf refl there running)
            (ground arith)
    ]
  ]

  pub target_result-Holds :
      (p : Option Addr) (r : Result DockerError Inspect) (v : Option StaleReason)
      → find (dialled find internal address network target p) ≡ r
      → target_result address network target p r ≡ ok v
      → OfTarget p v
  unfolding check_by_name check_by_address
  target_result-Holds none (ok info) v hf h = elim (Bool-cases (attached_to info network)) [
    | inl there ↦ becomes none none (rw hf there) (ground arith)
    | inr away ↦ becomes none (some (detached network)) (rw hf (refl, away)) (ground arith)
  ]
  target_result-Holds none (err e) v hf h = elim (Bool-cases (is_not_found e)) [
    | inl gone ↦ becomes none (some (target_gone address)) (rw hf (refl, gone)) (ground arith)
    | inr other ↦ absurd (ground arith)
  ]
  target_result-Holds (some old) (ok info) v hf h = by_address-Holds old info hf v h
  target_result-Holds (some old) (err e) v hf h = elim (Bool-cases (is_not_found e)) [
    | inl gone ↦ becomes (some old) (some (target_gone target)) (rw hf (refl, gone)) (ground arith)
    | inr other ↦ absurd (ground arith)
  ]

  -- the part of the verdict that follows the inspection of the network
  abbrev pub OfNetwork : Option StaleReason → Type 0
  OfNetwork none = text_eq network bridge ≡ false → internal network ≢ ok true
  OfNetwork (some reason) =
      (p : Option Addr) → Justified find internal address network target p reason

  pub check_network-Holds :
      (r : Result DockerError Bool) (v : Option StaleReason)
      → internal network ≡ r
      → text_eq network bridge ≡ false
      → check_network network r ≡ ok v
      → OfNetwork v
  unfolding check_network
  check_network-Holds (ok true) none hi hb h = absurd (ground arith)
  check_network-Holds (ok true) (some reason) hi hb h =
      subst OfNetwork {x = some (on_internal network)} {y = some reason} (ground arith)
        (λ p. (refl, hb, hi))
  check_network-Holds (ok false) v hi hb h =
      subst OfNetwork {x = none} {y = v} (ground arith) (λ k. cc)
  check_network-Holds (err e) v hi hb h = elim (Bool-cases (is_not_found e)) [
    | inl gone ↦ subst OfNetwork {x = none} {y = v} (ground arith) (λ k. cc)
    | inr other ↦ absurd (ground arith)
  ]
