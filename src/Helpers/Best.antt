-- ===== src/Helpers/Best.antt =====
-- internal/forward.go: the loop of `pickTargetNetwork` over the user-defined networks.
use docker_port_forward.Common.{
  In, ◌≡◌, ◌⊎◌, inl, inr, refl, Bool, true, false, none, some, Option-cases, List, [], ◌∷◌, ◌++◌,
  Result, ok, err, Result-cases, ok-injective, sym, ap, ◌∙◌, All, arith, subst,
}
use docker_port_forward.Text.{Text, text_eq, text_lt, codes}
use docker_port_forward.Text.Order.{text_lt_irrefl}
use docker_port_forward.Docker.{wrap, inspecting_network, Client, Inspect, DockerError}
use docker_port_forward.Helpers.Check.{bridge}
use docker_port_forward.Helpers.Network.{
  target_address, sort_texts, fall_back, first_usable, internal_network,
}
use docker_port_forward.Helpers.Staleness.{Steady}
use docker_port_forward.Helpers.Names.{IsSorted, members, sort-All, sort-IsSorted, All-of_sort}

module _ (info : Inspect) (internal : Text → Result DockerError Bool) where
  -- A network without an address to dial, or one that publishes no ports.
  abbrev pub Unusable : Text → Type 0
  Unusable name = (target_address info name ≡ none) ⊎ (internal name ≡ ok true)

  -- A network that is not to be preferred to `chosen`.
  abbrev pub NotPreferred : Text → Text → Type 0
  NotPreferred chosen name = Unusable name ⊎ (text_lt name chosen ≡ false)

  -- The result, of the user-defined networks in `names`.
  abbrev pub IsBest : List Text → Text → Text → Type 0
  IsBest names network addr =
      (target_address info network ≡ some addr)
      × ((In network names × (internal network ≡ ok false) × All (NotPreferred network) names)
          ⊎ ((network ≡ bridge) × All Unusable names))

  -- The result for a network that is asked for.
  abbrev pub IsAsked : Text → Text → Text → Type 0
  IsAsked requested network addr =
      (network ≡ requested)
      × (text_eq network (codes "host") ≡ false)
      × (text_eq network (codes "none") ≡ false)
      × (target_address info network ≡ some addr)
      × ((text_eq network bridge ≡ true) ⊎ (internal network ≡ ok false))

  later_NotPreferred :
      (a : Text) (names : List Text)
      → All (λ m. text_lt m a ≡ false) names
      → All (NotPreferred a) names
  later_NotPreferred a [] h = tt
  later_NotPreferred a (m ∷ names) h = (inr h.0, later_NotPreferred a names h.1)

module _ (c : Client) (d : Steady c) (w : c.World) (info : Inspect) where
  -- the result of the loop, with a property that all names have
  abbrev FromLoop : (Text → Type 0) → List Text → Text → Text → Type 0
  FromLoop P names network addr =
      (target_address info network ≡ some addr)
      × ((P network
            × (d.internal w network ≡ ok false)
            × All (NotPreferred info (d.internal w) network) names)
          ⊎ ((network ≡ bridge) × All (Unusable info (d.internal w)) names))

  skip :
      (P : Text → Type 0) (a : Text) (names : List Text) (network addr : Text)
      → Unusable info (d.internal w) a
      → FromLoop P names network addr
      → FromLoop P (a ∷ names) network addr
  skip P a names network addr u (t, inl (p, i, all)) = (t, inl (p, i, (inl u, all)))
  skip P a names network addr u (t, inr (b, all)) = (t, inr (b, (u, all)))

  fall_back-FromLoop :
      (P : Text → Type 0) (passed : List Text) (network addr : Text)
      → fall_back info passed ≡ ok (network, addr)
      → FromLoop P [] network addr
  unfolding fall_back
  fall_back-FromLoop P passed network addr h = elim (Option-cases (target_address info bridge)) [
    | inl e ↦ absurd (ground (arith, e))
    | inr (found, e) ↦
        let opened : fall_back info passed ≡ ok (bridge, found) = rw (fall_back, e) refl in
        let same : (bridge, found) ≡ (network, addr) = ok-injective (sym opened ∙ h) in
        subst (λ r. FromLoop P [] r.0 r.1) same (e, inr (refl, tt))
  ]

  pub network_found :
      (name : Text) (b : Bool) → d.internal w name ≡ ok b → internal_network c name w ≡ (ok b, w)
  unfolding internal_network
  network_found name b e =
      rw (internal_network, wrap, d.inspects_network, e, d.inspects_network) refl

  pub network_failed :
      (name : Text) (e : DockerError)
      → d.internal w name ≡ err e
      → internal_network c name w ≡ (err (inspecting_network name e), w)
  unfolding internal_network
  network_failed name f e =
      rw (internal_network, wrap, d.inspects_network, e, d.inspects_network) refl

  first_usable-FromLoop :
      (P : Text → Type 0) (names passed : List Text) (network addr : Text)
      → All P names
      → IsSorted names
      → (first_usable c info passed names w).0 ≡ ok (network, addr)
      → FromLoop P names network addr
  unfolding first_usable
  first_usable-FromLoop P [] passed network addr ps hs h =
      fall_back-FromLoop P passed network addr h
  first_usable-FromLoop P (name ∷ names) passed network addr ps hs h =
      elim (Option-cases (target_address info name)) [
        | inl e ↦
            let opened : first_usable c info passed (name ∷ names) w
                ≡ first_usable c info passed names w =
              rw (first_usable, e) refl in
            skip P name names network addr (inl e) (
              first_usable-FromLoop P names passed network addr ps.1 hs.1
                (ap (λ r. r.0) (sym opened) ∙ h))
        | inr (found, e) ↦ elim (Result-cases (d.internal w name)) [
          | inl (true, i) ↦
              let opened : first_usable c info passed (name ∷ names) w
                  ≡ first_usable c info (passed ++ name ∷ []) names w =
                rw (first_usable, e, network_found name true i, network_found name true i) refl in
              skip P name names network addr (inr i) (
                first_usable-FromLoop P names (passed ++ name ∷ []) network addr ps.1 hs.1
                  (ap (λ r. r.0) (sym opened) ∙ h))
          | inl (false, i) ↦
              let opened : (first_usable c info passed (name ∷ names) w).0 ≡ ok (name, found) =
                rw (first_usable, e, network_found name false i) refl in
              let same : (name, found) ≡ (network, addr) = ok-injective (sym opened ∙ h) in
              subst (λ r. FromLoop P (name ∷ names) r.0 r.1) same
                (
                  e,
                  inl (
                    ps.0,
                    i,
                    (
                      inr (text_lt_irrefl name),
                      later_NotPreferred info (d.internal w) name names hs.0,
                    ),
                  ),
                )
          | inr (f, i) ↦
              let opened : (first_usable c info passed (name ∷ names) w).0
                  ≡ err (inspecting_network name f) =
                rw (first_usable, e, network_failed name f i) refl in
              absurd (ground (arith, opened))
        ]
      ]

  pub best :
      (names : List Text) (network addr : Text)
      → (first_usable c info [] (sort_texts names) w).0 ≡ ok (network, addr)
      → IsBest info (d.internal w) names network addr
  best names network addr h =
      let (t, found) =
        first_usable-FromLoop (λ m. In m names) (sort_texts names) [] network addr
          (sort-All (λ m. In m names) names (members names)) (sort-IsSorted names) h in
      elim found [
        | inl (p, i, all) ↦ (t, inl (p, i, All-of_sort _ names all))
        | inr (b, all) ↦ (t, inr (b, All-of_sort _ names all))
      ]
