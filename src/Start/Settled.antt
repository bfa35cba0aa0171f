-- ===== src/Start/Settled.antt =====
-- internal/forward.go: how the loop of `StartForward` over existing helpers ends.
use docker_port_forward.Start.Dwindling.{size, Dwindles, rounds, removal-rounds}
use docker_port_forward.Common.{
  In, ◌+◌, ◌≡◌, ◌<◌, ◌⊎◌, inl, inr, refl, sym, subst, true, false, Option, none, some, Result-cases,
  Bool-cases, List, [], ◌∷◌, ℕ, zero, suc, Result, ok, err, All, length, arith, is_nil, ◌==◌,
}
use docker_port_forward.Text.{Text, text_eq}
use docker_port_forward.Docker.{Client, Summary, DockerError, Error, label, wrap, docker, ◌>>=◌}
use docker_port_forward.Ports.{PortPair}
use docker_port_forward.Helpers.{
  label_source_range, label_target_network, find_overlapping_helper, check_helper, remove_helpers,
  Verdict, wanted, overlaps, first_overlap, counts,
}
use docker_port_forward.Helpers.Verdicts.{check_helper_steady}
use docker_port_forward.Start.Existing.{
  Request, Reuse, reused, fresh, serves, reuse_helper, matched, judged, replace,
}

first_overlap-some :
    (want : List PortPair) (list : List Summary) (s : Summary)
    → first_overlap want list ≡ some s
    → In s list × (overlaps want s ≡ true)
unfolding first_overlap
first_overlap-some want [] s h = cc
first_overlap-some want (t ∷ list) s h = elim (Bool-cases (overlaps want t)) [
  | inl this ↦
      let e : t ≡ s = ground arith in (inl (sym e), subst (λ x. overlaps want x ≡ true) e this)
  | inr other ↦ let (i, o) = first_overlap-some want list s (ground arith) in (inr i, o)
]

first_overlap-none :
    (want : List PortPair) (list : List Summary)
    → first_overlap want list ≡ none
    → All (λ s. overlaps want s ≡ false) list
unfolding first_overlap
first_overlap-none want [] h = tt
first_overlap-none want (t ∷ list) h = elim (Bool-cases (overlaps want t)) [
  | inl this ↦ absurd (ground arith)
  | inr other ↦ (other, first_overlap-none want list (ground arith))
]

is_nil_so : (s : Text) → is_nil s ≡ true → s ≡ []
is_nil_so [] h = refl
is_nil_so (c ∷ s) h = cc

module _ (c : Client) (req : Request) (d : Dwindles c req.target_id) where
  -- A helper that is reused is listed, covers a requested pair, is not stale, and has the source
  -- range and the network that are asked for. When a new one is to be made, no helper is left that
  -- covers a requested pair.
  abbrev pub IsSettled : Result Error (Option Reuse) × c.World → Type 0
  IsSettled (err e, w) = Unit
  IsSettled (ok none, w) = ⊥
  IsSettled (ok (some (reused s)), w) =
      ((list : List Summary) × (d.helpers w ≡ ok list) × In s list)
      × (overlaps (wanted req.pairs) s ≡ true)
      × ((check_helper c s w).0 ≡ ok none)
      × (text_eq (label label_source_range s.labels) req.wanted_range ≡ true)
      × ((req.network ≡ []) ⊎ (text_eq (label label_target_network s.labels) req.network ≡ true))
  IsSettled (ok (some (fresh n)), w) =
      (list : List Summary) × (d.helpers w ≡ ok list)
      × All (λ s. overlaps (wanted req.pairs) s ≡ false) list

  pub found_list :
      (list : List Summary) (w : c.World)
      → d.helpers w ≡ ok list
      → find_overlapping_helper c req.target_id req.pairs w
        ≡ (ok (first_overlap (wanted req.pairs) list), w)
  unfolding find_overlapping_helper
  found_list list w e =
      rw (find_overlapping_helper, ◌>>=◌, wrap, d.lists, e, wrap, d.lists, e, d.lists) refl

  found_failed :
      (f : DockerError) (w : c.World)
      → d.helpers w ≡ err f
      → find_overlapping_helper c req.target_id req.pairs w ≡ (err (docker f), w)
  unfolding find_overlapping_helper
  found_failed f w e =
      rw (find_overlapping_helper, ◌>>=◌, wrap, d.lists, e, wrap, d.lists, e, d.lists) refl

  one_removed :
      (s : Summary) (w : c.World)
      → (remove_helpers c (s.id ∷ []) w).1 ≡ (c.container_remove s.id w).1
  unfolding remove_helpers
  one_removed s w = refl

  one_counts :
      (s : Summary) (w : c.World)
      → ((remove_helpers c (s.id ∷ []) w).0 == 1) ≡ true
      → counts c (c.container_remove s.id w).0 ≡ true
  unfolding remove_helpers
  one_counts s w h = ground arith

  serves_so :
      (s : Summary) (v : Verdict) (w : c.World) (list : List Summary)
      → serves req s v ≡ true
      → (check_helper c s w).0 ≡ ok v
      → d.helpers w ≡ ok list
      → In s list
      → overlaps (wanted req.pairs) s ≡ true
      → IsSettled (ok (some (reused s)), w)
  unfolding serves
  serves_so s (some reason) w list h hc hl hi ho = cc
  serves_so s none w list h hc hl hi ho =
      let named : (req.network ≡ [])
          ⊎ (text_eq (label label_target_network s.labels) req.network ≡ true) =
        elim (Bool-cases (is_nil req.network)) [
          | inl e ↦ inl (is_nil_so req.network e)
          | inr e ↦ inr (ground arith)
        ] in
      ((list, hl, hi), ho, hc, ground arith, named)

  -- the loop with less fuel, which the removal of a helper goes on with
  abbrev Settles : ℕ → Type 0
  Settles fuel =
      (removed : ℕ) (w : c.World)
      → rounds c req.target_id d w < fuel
      → IsSettled (reuse_helper c req fuel removed w)

  replace-IsSettled :
      (fuel removed : ℕ) (s : Summary) (list : List Summary) (w : c.World)
      → Settles fuel
      → d.helpers w ≡ ok list
      → In s list
      → length list + d.pending w < suc fuel
      → IsSettled (replace c req (reuse_helper c req fuel) removed s w)
  replace-IsSettled fuel removed s list w next hl hi lt =
      elim (Bool-cases ((remove_helpers c (s.id ∷ []) w).0 == 1)) [
        | inr failed ↦ rw (replace, failed) tt
        | inl done ↦
            let less =
              removal-rounds c req.target_id d s list w _ hl hi refl (one_counts s w done) in
            rw (replace, done)
              (next (suc removed) _ (
                subst (λ w'. rounds c req.target_id d w' < fuel) (sym (one_removed s w))
                  (ground (arith, less))))
      ]

  judged-IsSettled :
      (fuel removed : ℕ) (s : Summary) (list : List Summary) (w : c.World)
      → Settles fuel
      → d.helpers w ≡ ok list
      → In s list
      → overlaps (wanted req.pairs) s ≡ true
      → length list + d.pending w < suc fuel
      → (r : Result Error Verdict) → (check_helper c s w).0 ≡ r
      → IsSettled (judged c req (reuse_helper c req fuel) removed s r w)
  judged-IsSettled fuel removed s list w next hl hi ho lt (err e) hc = tt
  judged-IsSettled fuel removed s list w next hl hi ho lt (ok v) hc =
      elim (Bool-cases (serves req s v)) [
        | inl good ↦ rw (judged, good) (serves_so s v w list good hc hl hi ho)
        | inr bad ↦ rw (judged, bad) (replace-IsSettled fuel removed s list w next hl hi lt)
      ]

  matched-IsSettled :
      (fuel removed : ℕ) (list : List Summary) (w : c.World)
      → Settles fuel
      → d.helpers w ≡ ok list
      → length list + d.pending w < suc fuel
      → (o : Option Summary) → first_overlap (wanted req.pairs) list ≡ o
      → IsSettled (matched c req (reuse_helper c req fuel) removed (ok o) w)
  matched-IsSettled fuel removed list w next hl lt none e =
      (list, hl, first_overlap-none (wanted req.pairs) list e)
  matched-IsSettled fuel removed list w next hl lt (some s) e =
      let (hi, ho) = first_overlap-some (wanted req.pairs) list s e in
      rw (check_helper_steady c d.steady s w)
        (judged-IsSettled fuel removed s list w next hl hi ho lt (check_helper c s w).0 refl)

  reuse_helper-Settles : (fuel : ℕ) → Settles fuel
  unfolding reuse_helper
  reuse_helper-Settles zero removed w lt = absurd (ground arith)
  reuse_helper-Settles (suc fuel) removed w lt = elim (Result-cases (d.helpers w)) [
    | inl (list, e) ↦
        rw (reuse_helper, found_list list w e)
          (matched-IsSettled fuel removed list w (reuse_helper-Settles fuel) e
            (subst (λ r. size r + d.pending w < suc fuel) e lt)
            (first_overlap (wanted req.pairs) list) refl)
    | inr (f, e) ↦ rw (reuse_helper, found_failed f w e) tt
  ]

-- The loop ends with an error, with a helper that is reused, or with no helper left that covers a
-- requested pair. It takes one round more than the target has helpers and the daemon has answers to
-- give to removals while others are in progress. The daemon answers without changing, a removal that
-- succeeds takes the helper off the list, and a removal in progress is done at last. A helper that is
-- reused is listed and running, covers at least one requested pair, is not stale, and has the source
-- range and the network that are asked for.
pub reuse_helper-IsSettled :
    (c : Client) (req : Request) (d : Dwindles c req.target_id) (fuel removed : ℕ) (w : c.World)
    → rounds c req.target_id d w < fuel
    → IsSettled c req d (reuse_helper c req fuel removed w)
reuse_helper-IsSettled c req d fuel removed w lt = reuse_helper-Settles c req d fuel removed w lt
