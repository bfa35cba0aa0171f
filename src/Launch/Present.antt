-- ===== src/Launch/Present.antt =====
-- internal/forward.go: what `ensureHelperImage` does under each policy.
use docker_port_forward.Common.{
  arith, ◌∷◌, true, false, is_nil, ◌||◌, sym, subst, if◌then◌else◌, Bool-cases, refl, inl, inr, ◌≡◌,
  ◌≢◌, ◌⊎◌, [], Result, ok, err,
}
use docker_port_forward.Text.{text_eq_refl, text_eq_sound, text_eq, Text}
use docker_port_forward.Docker.{wrap, image_not_present, Error, DockerError}
use docker_port_forward.Launch.Image.{
  ensure_missing, pull_if_missing, pull_image, pulled, ensure_helper_image, pull_always,
  pull_missing, pull_never,
}
use docker_port_forward.Launch.Machine.{Host}

-- The images of a daemon: inspecting one tells whether it is there, and changes nothing; after a pull
-- that was read to its end it is there.
pub record Images (h : Host) : Type 1 where
  pub Has : Text → h.client.World → Type 0
  pub inspect_keeps : (ref : Text) (w : h.client.World) → (h.image_inspect ref w).1 ≡ w
  pub inspect_finds :
      (ref : Text) (w : h.client.World) → (h.image_inspect ref w).0 ≡ ok tt → Has ref w
  pub pull_gets :
      (ref : Text) (w : h.client.World)
      → (h.image_pull ref w).0 ≡ ok (ok tt)
      → Has ref (h.image_pull ref w).1

module _ (h : Host) (images : Images h) (ref : Text) where
  -- After a success the image is there; it was pulled by the policy "always", or when an inspection
  -- did not find it and the policy was "missing" or none. Else nothing changed.
  abbrev pub IsEnsured : Text → h.client.World → Result Error (Unit {0}) × h.client.World → Type 0
  IsEnsured policy w (ok _, w') =
      images.Has ref w'
      × ((w' ≡ w)
          ⊎ ((w' ≡ (h.image_pull ref w).1)
              × ((policy ≡ pull_always)
                  ⊎ (((policy ≡ pull_missing) ⊎ (policy ≡ []))
                      × ((e : DockerError) × ((h.image_inspect ref w).0 ≡ err e))))))
  IsEnsured policy w (err e, w') =
      (w' ≡ w) ⊎ ((w' ≡ (h.image_pull ref w).1) × (policy ≢ pull_never))

  pulled-IsEnsured :
      (policy : Text) (w : h.client.World)
      → policy ≢ pull_never
      → ((policy ≡ pull_always)
          ⊎ (((policy ≡ pull_missing) ⊎ (policy ≡ []))
              × ((e : DockerError) × ((h.image_inspect ref w).0 ≡ err e))))
      → (r : Result DockerError (Result Text (Unit {0}))) → (h.image_pull ref w).0 ≡ r
      → IsEnsured policy w (pulled ref r, (h.image_pull ref w).1)
  pulled-IsEnsured policy w named reason (ok (ok _)) e =
      (images.pull_gets ref w e, inr (refl, reason))
  pulled-IsEnsured policy w named reason (ok (err _)) e = inr (refl, named)
  pulled-IsEnsured policy w named reason (err _) e = inr (refl, named)

  never_inspected :
      (w : h.client.World) (r : Result DockerError (Unit {0}))
      → (h.image_inspect ref w).0 ≡ r
      → IsEnsured pull_never w (elim r [
        | ok a ↦ (ok a, (h.image_inspect ref w).1)
        | err e ↦ (err (image_not_present ref e), (h.image_inspect ref w).1)
      ])
  never_inspected w (ok a) e = (
    rw (images.inspect_keeps ref w) (images.inspect_finds ref w e),
    inl (images.inspect_keeps ref w),
  )
  never_inspected w (err f) e = inl (images.inspect_keeps ref w)

  missing_inspected :
      (policy : Text) (w : h.client.World)
      → ((policy ≡ pull_missing) ⊎ (policy ≡ []))
      → policy ≢ pull_never
      → (r : Result DockerError (Unit {0})) → (h.image_inspect ref w).0 ≡ r
      → IsEnsured policy w (pull_if_missing h ref r (h.image_inspect ref w).1)
  unfolding pull_image
  missing_inspected policy w p named (ok _) e = (
    rw (images.inspect_keeps ref w) (images.inspect_finds ref w e),
    inl (images.inspect_keeps ref w),
  )
  missing_inspected policy w p named (err f) e =
      rw (pull_if_missing, pull_image, images.inspect_keeps ref w)
        (pulled-IsEnsured policy w named (inr (p, (f, e))) _ refl)

  missing_or_none :
      (policy : Text)
      → (text_eq policy pull_missing || is_nil policy) ≡ true
      → (policy ≡ pull_missing) ⊎ (policy ≡ [])
  missing_or_none [] t = inr refl
  missing_or_none (c ∷ policy) t = inl (text_eq_sound (c ∷ policy) pull_missing (ground arith))

  never_differs : (policy : Text) → text_eq policy pull_never ≡ false → policy ≢ pull_never
  never_differs policy f e =
      let same : text_eq policy pull_never ≡ true = rw e (text_eq_refl pull_never) in cc

  ensure_IsEnsured :
      (policy : Text) (w : h.client.World) → IsEnsured policy w (ensure_helper_image h ref policy w)
  unfolding ensure_helper_image pull_image ensure_missing
  ensure_IsEnsured policy w = elim (Bool-cases (text_eq policy pull_always)) [
    | inl t ↦
        let e = text_eq_sound policy pull_always t in
        rw (ensure_helper_image, t, if◌then◌else◌, pull_image)
          (pulled-IsEnsured policy w (λ other. absurd (cc)) (inl e) _ refl)
    | inr not_always ↦ elim (Bool-cases (text_eq policy pull_never)) [
      | inl t ↦
          let e = text_eq_sound policy pull_never t in
          rw (ensure_helper_image, not_always, t, if◌then◌else◌)
            (subst (λ p. IsEnsured p w (wrap (image_not_present ref) (h.image_inspect ref) w))
              (sym e) (never_inspected w _ refl))
      | inr not_never ↦ elim (Bool-cases (text_eq policy pull_missing || is_nil policy)) [
        | inl t ↦
            rw (ensure_helper_image, not_always, not_never, t, if◌then◌else◌, ensure_missing)
              (missing_inspected policy w (missing_or_none policy t)
                (never_differs policy not_never) _ refl)
        | inr unknown ↦
            rw (ensure_helper_image, not_always, not_never, unknown, if◌then◌else◌) (inl refl)
      ]
    ]
  ]

-- `ensureHelperImage` succeeds only with the image there: as it was, or pulled under the policy
-- "always", or pulled under "missing" or no policy after an inspection that did not find it. On an
-- error nothing changed, or it was pulled under another policy than "never"; so that one never pulls.
-- An inspection changes nothing, and a pull that is read to its end brings the image.
pub ensure_helper_image-IsEnsured :
    (h : Host) (images : Images h) (ref policy : Text) (w : h.client.World)
    → IsEnsured h images ref policy w (ensure_helper_image h ref policy w)
ensure_helper_image-IsEnsured h images ref policy w = ensure_IsEnsured h images ref policy w
