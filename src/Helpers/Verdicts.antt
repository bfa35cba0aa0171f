-- ===== src/Helpers/Verdicts.antt =====
-- internal/drift.go: the verdicts of `CheckHelper`, against what they say.
use docker_port_forward.Common.{
  ◌||◌, ◌∙◌, sym, Option-cases, if◌then◌else◌, is_nil, ◌≡◌, refl, subst, false, none, some, Option,
  Result, ok, err, Bool-cases, inl, inr, arith,
}
use docker_port_forward.Text.{Text, text_eq}
use docker_port_forward.Netip.{parse_addr}
use docker_port_forward.Docker.{◌>>=◌, Client, Error, Summary, label}
use docker_port_forward.Helpers.Check.{
  check_helper, check_labels, check_internal, check_target, check_network, bridge, StaleReason,
}
use docker_port_forward.Helpers.Labels.{label_target, label_target_network, label_target_address}
use docker_port_forward.Helpers.Staleness.{Steady, dialled, Holds}
use docker_port_forward.Helpers.Judgements.{
  target_result, OfNetwork, target_result-Holds, check_network-Holds,
}

module _ (c : Client) (d : Steady c) (w : c.World) (address network target : Text) where
  check_target-eq :
      (check_target c address network target w).0
      ≡ target_result address network target
          (parse_addr address)
          (d.find w (dialled (d.find w) (d.internal w) address network target (parse_addr address)))
  unfolding check_target
  check_target-eq = elim (Option-cases (parse_addr address)) [
    | inl e ↦ rw (check_target, e, d.inspects) refl
    | inr (ip, e) ↦ rw (check_target, e, d.inspects) refl
  ]

  check_internal-eq : check_internal c network w ≡ (
    if text_eq network bridge then ok none else check_network network (d.internal w network),
    w,
  )
  unfolding check_internal
  check_internal-eq = elim (Bool-cases (text_eq network bridge)) [
    | inl e ↦ rw (check_internal, e) refl
    | inr e ↦ rw (check_internal, e, d.inspects_network) refl
  ]

  abbrev Judged : Option StaleReason → Type 0
  Judged = Holds (d.find w) (d.internal w) address network target (parse_addr address)

  -- what `check_labels` does with the verdict on the network
  abbrev then_target : Result Error (Option StaleReason) → Result Error (Option StaleReason)
  then_target (ok none) = (check_target c address network target w).0
  then_target (ok (some reason)) = ok (some reason)
  then_target (err f) = err f

  check_labels-eq :
      (r : Result Error (Option StaleReason))
      → is_nil address ≡ false
      → is_nil network ≡ false
      → check_internal c network w ≡ (r, w)
      → (check_labels c address network target w).0 ≡ then_target r
  unfolding check_labels
  check_labels-eq (ok none) ha hn e = rw (check_labels, ha, hn, if◌then◌else◌, ◌>>=◌, e, e) refl
  check_labels-eq (ok (some reason)) ha hn e =
      rw (check_labels, ha, hn, if◌then◌else◌, ◌>>=◌, e) refl
  check_labels-eq (err f) ha hn e = rw (check_labels, ha, hn, if◌then◌else◌, ◌>>=◌, e) refl

  after_network :
      (r : Result Error (Option StaleReason))
      → ((u : Option StaleReason)
          → r ≡ ok u
          → OfNetwork (d.find w) (d.internal w) address network target u)
      → (v : Option StaleReason) → then_target r ≡ ok v
      → Judged v
  after_network (ok none) hr none h = (
    hr none refl,
    target_result-Holds (d.find w) (d.internal w) address network target (parse_addr address) _ none
        refl (sym check_target-eq ∙ h),
  )
  after_network (ok none) hr (some reason) h =
      target_result-Holds (d.find w) (d.internal w) address network target (parse_addr address) _
        (some reason) refl (sym check_target-eq ∙ h)
  after_network (ok (some reason)) hr v h =
      subst Judged {x = some reason} {y = v} (ground arith)
        (hr (some reason) refl (parse_addr address))
  after_network (err f) hr v h = absurd (ground arith)

  network_verdict-Holds :
      (v : Option StaleReason)
      → (if text_eq network bridge then ok none else check_network network (d.internal w network))
        ≡ ok v
      → OfNetwork (d.find w) (d.internal w) address network target v
  network_verdict-Holds v h = elim (Bool-cases (text_eq network bridge)) [
    | inl default ↦
        subst (OfNetwork (d.find w) (d.internal w) address network target) {x = none} {y = v}
          (ground arith) (λ other. cc)
    | inr other ↦
        check_network-Holds (d.find w) (d.internal w) address network target (d.internal w network)
          v refl other (ground arith)
  ]

  check_target_steady : (check_target c address network target w).1 ≡ w
  unfolding check_target
  check_target_steady = elim (Option-cases (parse_addr address)) [
    | inl e ↦ rw (check_target, e, d.inspects) refl
    | inr (ip, e) ↦ rw (check_target, e, d.inspects) refl
  ]

  after_internal_steady :
      (r : Result Error (Option StaleReason))
      → is_nil address || is_nil network ≡ false
      → check_internal c network w ≡ (r, w)
      → (check_labels c address network target w).1 ≡ w
  unfolding check_labels
  after_internal_steady (ok none) h e =
      rw (check_labels, h, if◌then◌else◌, ◌>>=◌, e, e) check_target_steady
  after_internal_steady (ok (some reason)) h e =
      rw (check_labels, h, if◌then◌else◌, ◌>>=◌, e, e) refl
  after_internal_steady (err f) h e = rw (check_labels, h, if◌then◌else◌, ◌>>=◌, e, e) refl

  check_labels_steady : (check_labels c address network target w).1 ≡ w
  unfolding check_labels
  check_labels_steady = elim (Bool-cases (is_nil address || is_nil network)) [
    | inl blank ↦ rw (check_labels, blank, if◌then◌else◌) refl
    | inr labelled ↦ after_internal_steady _ labelled check_internal-eq
  ]

pub check_helper_steady :
    (c : Client) (d : Steady c) (s : Summary) (w : c.World) → (check_helper c s w).1 ≡ w
unfolding check_helper
check_helper_steady c d s w = check_labels_steady c d w _ _ _

-- On a daemon whose answers do not change during the check, the verdict on a helper that records
-- an address and a network is right. A reason for staleness says what was found. When there is none
-- the network, unless it is the default bridge, is not internal, and the inspection finds the target:
-- one that is dialled by its name is attached to the network; one that is dialled by an IP and runs
-- is attached to it under that IP, as far as its address there is known; of one that is dialled by an
-- IP and is stopped nothing more is said.
pub check_helper-Holds :
    (c : Client) (d : Steady c) (s : Summary) (w : c.World) (v : Option StaleReason)
    → is_nil (label label_target_address s.labels) ≡ false
    → is_nil (label label_target_network s.labels) ≡ false
    → (check_helper c s w).0 ≡ ok v
    → Holds
        (d.find w)
        (d.internal w)
        (label label_target_address s.labels)
        (label label_target_network s.labels)
        (label label_target s.labels)
        (parse_addr (label label_target_address s.labels))
        v
unfolding check_helper
check_helper-Holds c d s w v ha hn h =
    let address = label label_target_address s.labels in
    let network = label label_target_network s.labels in
    let target = label label_target s.labels in
    after_network c d w address network target _
      (network_verdict-Holds c d w address network target) v
      (sym (
          check_labels-eq c d w address network target _ ha hn
            (check_internal-eq c d w address network target))
        ∙ h)
