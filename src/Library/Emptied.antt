-- ===== src/Library/Emptied.antt =====
-- portforward/cleanup.go and portforward/list.go: a listing after a cleanup.
use docker_port_forward.Docker.{Client}
use docker_port_forward.Common.{
  All-In, ◌≡◌, refl, sym, subst, ap, ◌∙◌, ok-injective, Bool, false, In, inl, inr, Result-cases,
  List, [], ◌∷◌, length, All, ok, err, arith,
}
use docker_port_forward.Text.{Text}
use docker_port_forward.Helpers.{remove_helpers, helper_filters}
use docker_port_forward.Helpers.Staleness.{Steady}
use docker_port_forward.Helpers.Removal.{Removes, remove_helpers-all_gone}
use docker_port_forward.Library.Find.{Helper, find_helpers}
use docker_port_forward.Library.Cleanup.{CleanupResult, cleanup, remove_found}
use docker_port_forward.Library.Cleaned.{ids_of, length-ids_of}
use docker_port_forward.Library.Listed.{
  IsListed, Dwindles, found-ids, found-IsListed, find_helpers-unchanged,
}

module _ (c : Client) (k : Dwindles c) where
  IsListed-before :
      (filters : List (Text × Text)) (ids : List Text) (j : Text) (w : c.World)
      → IsListed c filters j (remove_helpers c ids w).1
      → IsListed c filters j w
  unfolding remove_helpers
  IsListed-before filters [] j w h = h
  IsListed-before filters (id ∷ ids) j w h =
      k.stays_listed filters id j w (IsListed-before filters ids j (c.container_remove id w).1 h)

module _ (c : Client) where
  -- What a removal that counts each helper leaves.
  remove_found-gone :
      (d : Removes c) (hs : List Helper) (w : c.World) (r : CleanupResult)
      → (remove_found c false hs w).0 ≡ ok r
      → r.removed ≡ length r.helpers
      → ((remove_found c false hs w).1 ≡ (remove_helpers c (ids_of hs) w).1)
        × All (λ id. d.Gone id (remove_found c false hs w).1) (ids_of hs)
  unfolding remove_helpers
  remove_found-gone d [] w r e all = (refl, tt)
  remove_found-gone d (h ∷ hs) w r e all =
      let result = ok-injective e in
      (
        refl,
        (remove_helpers-all_gone c d (ids_of (h ∷ hs)) w).1 (
            ap (λ x. x.removed) result
            ∙ all
            ∙ ap (λ x. length x.helpers) (sym result)
            ∙ sym (length-ids_of (h ∷ hs))),
      )

module _ (c : Client) (steady : Steady c) (k : Dwindles c) where
  -- A cleanup removes what is found in the state that it starts from.
  cleanup-removes :
      (w : c.World) (r : CleanupResult)
      → (cleanup c [] [] false false w).0 ≡ ok r
      → (hs : List Helper) × ((find_helpers c [] [] false w).0 ≡ ok hs)
        × (cleanup c [] [] false false w ≡ remove_found c false hs w)
  unfolding cleanup
  cleanup-removes w r e = elim (Result-cases (find_helpers c [] [] false w).0) [
    | inr (f, hf) ↦
        let opened : (cleanup c [] [] false false w).0 ≡ err f = rw (cleanup, hf) refl in
        absurd (ground (arith, opened))
    | inl (hs, hf) ↦
        let opened : cleanup c [] [] false false w
            ≡ remove_found c false hs (find_helpers c [] [] false w).1 =
          rw (cleanup, hf) refl in
        (hs, hf, opened ∙ ap (remove_found c false hs) (find_helpers-unchanged c steady k false w))
  ]

-- A cleanup of every helper that counts each that it found leaves none behind: a helper that
-- `findHelpers` returns in the state after it is gone or going. This is on a daemon that answers
-- inspections and listings without changing, where a removal that counts has its effect, none
-- brings a container back, and what is listed after a removal was listed before it.
pub cleanup-Empties :
    (c : Client) (steady : Steady c) (d : Removes c) (k : Dwindles c) (stale_only : Bool)
    (w : c.World) (r : CleanupResult) (left : List Helper)
    → (cleanup c [] [] false false w).0 ≡ ok r
    → r.removed ≡ length r.helpers
    → (find_helpers c [] [] stale_only (cleanup c [] [] false false w).1).0 ≡ ok left
    → (h : Helper) → In h left
    → d.Gone h.id (cleanup c [] [] false false w).1
cleanup-Empties c steady d k stale_only w r left e all l h i =
    let (hs, hf, opened) = cleanup-removes c steady k w r e in
    let (state, gone) = remove_found-gone c d hs w r (ap (λ p. p.0) (sym opened) ∙ e) all in
    let ends = ap (λ p. p.1) opened in
    let listed =
      subst (IsListed c (helper_filters []) h.id) (ends ∙ state)
        (found-IsListed c steady k stale_only _ left l h i) in
    All-In (λ id. d.Gone id (cleanup c [] [] false false w).1) (ids_of hs) h.id
      (subst (λ x. All (λ id. d.Gone id x) (ids_of hs)) (sym ends) gone)
      (found-ids c steady k w hs h.id hf
        (IsListed-before c k (helper_filters []) (ids_of hs) h.id w listed))
