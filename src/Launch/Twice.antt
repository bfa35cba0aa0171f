-- ===== src/Launch/Twice.antt =====
-- internal/forward.go: a second `StartForward` after the one that created the helper.
use docker_port_forward.Common.{
  ◌++◌, In, ℕ, suc, ◌≡◌, refl, sym, subst, ap, ◌∙◌, ◌⊎◌, inl, inr, Bool, true, none, some, List, [],
  ◌∷◌, ok, All, arith, map, is_nil, Bool-cases, if◌then◌else◌,
}
use docker_port_forward.Text.{Text, text_eq, text_eq_refl}
use docker_port_forward.Ports.{PortPair, is_some}
use docker_port_forward.Bindings.RoundTrip.{IsRecordable}
use docker_port_forward.Docker.{Summary, Inspect, Labels, label}
use docker_port_forward.Options.{source_range_label}
use docker_port_forward.Helpers.{
  label_ports, label_source_range, label_target_network, normalized, wanted, overlaps,
  first_overlap, check_helper, pick_target_network, summary_running,
}
use docker_port_forward.Start.{HelperConfig, helper_labels, own_labels, serves}
use docker_port_forward.Start.Dwindling.{Dwindles}
use docker_port_forward.Start.Recorded.{Leaves, label-Leaves, helper_labels-overlaps}
use docker_port_forward.Launch.Machine.{Host}
use docker_port_forward.Launch.Config.{build_helper_container_config}
use docker_port_forward.Launch.Start.{
  ForwardInput, Plan, request_of, existing_result, helper_spec, start_forward, check_input,
}
use docker_port_forward.Launch.Again.{HasLocal, start_forward-unchanged}

module _ (parses_port : Text → Bool) (c : HelperConfig) where
  label-source_range :
      Leaves label_source_range c.extra_labels
      → label label_source_range (helper_labels parses_port c) ≡ source_range_label c.source_range
  unfolding helper_labels own_labels label text_eq
  label-source_range leaves =
      label-Leaves label_source_range c.extra_labels _ leaves
      ∙ range (source_range_label c.source_range)
    where
      range :
          (r : Text)
          → label label_source_range
              ((if is_nil r then [] else (label_source_range, r) ∷ []) ++ own_labels parses_port c)
            ≡ r
      range [] = refl
      range (x ∷ r) = refl

  label-target_network :
      Leaves label_target_network c.extra_labels
      → label label_target_network (helper_labels parses_port c) ≡ c.target_network
  unfolding helper_labels own_labels label text_eq
  label-target_network leaves =
      label-Leaves label_target_network c.extra_labels _ leaves
      ∙ elim (Bool-cases (is_nil (source_range_label c.source_range))) [
        | inl t ↦ rw t refl
        | inr f ↦ rw f refl
      ]

first_overlap-head :
    (want : List PortPair) (s : Summary) (rest : List Summary)
    → overlaps want s ≡ true
    → first_overlap want (s ∷ rest) ≡ some s
unfolding first_overlap
first_overlap-head want s rest h = rw (first_overlap, h, if◌then◌else◌) refl

-- The labels that the program reads again, which the user's own labels leave alone.
pub record LeavesAll (extra : Labels) : Type 0 where
  pub leaves_ports : Leaves label_ports extra
  pub leaves_range : Leaves label_source_range extra
  pub leaves_network : Leaves label_target_network extra

serves-created :
    (input : ForwardInput) (pairs : List PortPair) (s : Summary)
    → label label_source_range s.labels ≡ source_range_label input.source_range
    → (input.network ≡ []) ⊎ (label label_target_network s.labels ≡ input.network)
    → serves (request_of input pairs) s none ≡ true
unfolding serves
serves-created input pairs s range (inl network) =
    let same : text_eq (label label_source_range s.labels) (source_range_label input.source_range)
        ≡ true =
      rw range (text_eq_refl (source_range_label input.source_range)) in
    let any_network : is_nil input.network ≡ true = ap is_nil network in
    ground (arith, same, any_network)
serves-created input pairs s range (inr network) =
    let same : text_eq (label label_source_range s.labels) (source_range_label input.source_range)
        ≡ true =
      rw range (text_eq_refl (source_range_label input.source_range)) in
    let same_network : text_eq (label label_target_network s.labels) input.network ≡ true =
      rw network (text_eq_refl input.network) in
    ground (arith, same, same_network)

module _ (h : Host) (input : ForwardInput) (fuel : ℕ) (plan : Plan) (name session : Text) where
  -- The helper that `StartForward` creates for the plan, once it runs. The plan is on the network that
  -- was asked for, if one was.
  pub record IsCreated (s : Summary) : Type 0 where
    pub labelled :
        s.labels
        ≡ (build_helper_container_config h.parse_port
            (helper_spec h fuel input plan name session)).labels
    pub runs : summary_running s ≡ true
    pub pairs_planned : plan.pairs ≡ map normalized input.pairs
    pub network_planned : (input.network ≡ []) ⊎ (plan.network ≡ input.network)

  abbrev made : HelperConfig
  made = (helper_spec h fuel input plan name session).labelled

  abbrev parses : Text → Bool
  parses t = is_some (h.parse_port t)

  made_labels : (s : Summary) → IsCreated s → s.labels ≡ helper_labels parses made
  unfolding build_helper_container_config
  made_labels s c = c.labelled

  made_serves :
      (s : Summary) (pairs : List PortPair)
      → IsCreated s
      → LeavesAll input.extra_labels
      → serves (request_of input pairs) s none ≡ true
  made_serves s pairs c leaves =
      serves-created input pairs s
        (ap (label label_source_range) (made_labels s c)
          ∙ label-source_range parses made leaves.leaves_range)
        (named c.network_planned)
    where
      network : label label_target_network s.labels ≡ plan.network
      network =
          ap (label label_target_network) (made_labels s c)
          ∙ label-target_network parses made leaves.leaves_network

      named :
          (input.network ≡ []) ⊎ (plan.network ≡ input.network)
          → (input.network ≡ []) ⊎ (label label_target_network s.labels ≡ input.network)
      named (inl e) = inl e
      named (inr e) = inr (network ∙ e)

  made_overlaps :
      (s : Summary) (p : PortPair)
      → IsCreated s
      → LeavesAll input.extra_labels
      → All IsRecordable (map normalized input.pairs)
      → In p (map normalized input.pairs)
      → overlaps (wanted (map normalized input.pairs)) s ≡ true
  made_overlaps s p c leaves recordable i =
      (helper_labels-overlaps parses made s (map normalized input.pairs) p p
        (subst (All IsRecordable) (sym c.pairs_planned) recordable) leaves.leaves_ports
        (made_labels s c) c.runs (subst (In p) (sym c.pairs_planned) i) i refl).1

-- Calling twice is calling once. When the first helper that the daemon lists is the one that
-- `StartForward` created for a request with local ports, runs and is not stale, then `StartForward`
-- for the same request returns that helper, and the daemon and the host are as before. The pairs fit
-- into the labels, the user's own labels leave those of the program alone, the daemon answers without
-- changing, and the choice of the network succeeds.
pub start_forward-twice :
    (h : Host) (input : ForwardInput) (d : Dwindles h.client input.target.container_id)
    (fuel first_fuel : ℕ) (plan : Plan) (name session : Text) (info : Inspect)
    (picked : Text × Text) (s : Summary) (rest : List Summary) (p : PortPair) (w : h.client.World)
    → check_input input ≡ ok tt
    → All HasLocal input.pairs
    → All IsRecordable (map normalized input.pairs)
    → In p (map normalized input.pairs)
    → LeavesAll input.extra_labels
    → IsCreated h input first_fuel plan name session s
    → d.steady.find w input.target.container_id ≡ ok info
    → pick_target_network h.client info input.network w ≡ (ok picked, w)
    → d.helpers w ≡ ok (s ∷ rest)
    → (check_helper h.client s w).0 ≡ ok none
    → start_forward h (suc fuel) input w
      ≡ (ok (some (existing_result (map normalized input.pairs) s)), w)
start_forward-twice h input d fuel first_fuel plan name session info picked s rest p w valid local
      recordable i leaves created there picks listed current =
    start_forward-unchanged h input d fuel info picked (s ∷ rest) s w valid local there picks listed
      (first_overlap-head (wanted (map normalized input.pairs)) s rest
        (made_overlaps h input first_fuel plan name session s p created leaves recordable i))
      current
      (made_serves h input first_fuel plan name session s (map normalized input.pairs) created
        leaves)
