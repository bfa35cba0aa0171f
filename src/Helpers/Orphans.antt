-- ===== src/Helpers/Orphans.antt =====
-- internal/drift.go: what `removeOrphanedHelpers` may remove.
use docker_port_forward.Common.{
  subst, sym, ℕ, suc, ◌≡◌, refl, true, List, [], ◌∷◌, All, Bool-cases, inl, inr, Result, ok, err,
  ◌==◌,
}
use docker_port_forward.Text.{Text}
use docker_port_forward.Ports.{PortPair}
use docker_port_forward.Docker.{DockerError, Client, Summary, label}
use docker_port_forward.Helpers.Labels.{label_target}
use docker_port_forward.Helpers.Remove.{remove_helpers, list_helpers}
use docker_port_forward.Helpers.Overlap.{
  orphans_of, is_candidate, is_gone, remove_orphans, remove_orphaned_helpers,
}

-- A property of the daemon's state that is kept by the calls which `removeOrphanedHelpers` may make:
-- the list of the helpers, whose members satisfy `IsHelper`, an inspection, and the removal of a
-- running helper of another target that holds a requested host port, after an inspection that did
-- not find its target.
pub record Keeps (c : Client) (target_id : Text) (requested : List PortPair) : Type 1 where
  pub Inv : c.World → Type 0
  pub IsHelper : Summary → Type 0
  pub listed :
      (w : c.World) (list : List Summary) → (list_helpers c [] w).0 ≡ ok list → All IsHelper list
  pub list_keeps : (w : c.World) → Inv w → Inv (list_helpers c [] w).1
  pub inspect_keeps : (id : Text) (w : c.World) → Inv w → Inv (c.container_inspect id w).1
  pub remove_keeps :
      (s : Summary) (w : c.World)
      → IsHelper s
      → is_candidate target_id requested s ≡ true
      → is_gone (c.container_inspect (label label_target s.labels) w).0 ≡ true
      → Inv (c.container_inspect (label label_target s.labels) w).1
      → Inv (c.container_remove s.id (c.container_inspect (label label_target s.labels) w).1).1

module _ (c : Client) (target_id : Text) (requested : List PortPair)
    (k : Keeps c target_id requested) where
  remove_one :
      (s : Summary) (w : c.World)
      → (remove_helpers c (s.id ∷ []) w).1 ≡ (c.container_remove s.id w).1
  unfolding remove_helpers
  remove_one s w = refl

  remove_orphans-Inv :
      (list : List Summary) (removed : ℕ) (w : c.World)
      → All k.IsHelper list
      → k.Inv w
      → k.Inv (remove_orphans c target_id requested removed list w).1
  unfolding remove_orphans
  remove_orphans-Inv [] removed w hs h = h
  remove_orphans-Inv (s ∷ list) removed w hs h =
      elim (Bool-cases (is_candidate target_id requested s)) [
        | inr no_candidate ↦
            rw (remove_orphans, no_candidate) (remove_orphans-Inv list removed w hs.1 h)
        | inl candidate ↦
            let target = label label_target s.labels in
            let w1 = (c.container_inspect target w).1 in
            let h1 = k.inspect_keeps target w h in
            elim (Bool-cases (is_gone (c.container_inspect target w).0)) [
              | inr found ↦
                  rw (remove_orphans, candidate, found) (remove_orphans-Inv list removed w1 hs.1 h1)
              | inl gone ↦
                  let h2 =
                    subst k.Inv (sym (remove_one s w1))
                      (k.remove_keeps s w hs.0 candidate gone h1) in
                  elim (Bool-cases ((remove_helpers c (s.id ∷ []) w1).0 == 1)) [
                    | inl removed_one ↦
                        rw (remove_orphans, candidate, gone, removed_one)
                          (remove_orphans-Inv list (suc removed) _ hs.1 h2)
                    | inr failed ↦ rw (remove_orphans, candidate, gone, failed) h2
                  ]
            ]
      ]

  orphans_of-Inv :
      (r : Result DockerError (List Summary)) (w : c.World)
      → ((list : List Summary) → r ≡ ok list → All k.IsHelper list)
      → k.Inv w
      → k.Inv (orphans_of c target_id requested r w).1
  orphans_of-Inv (ok list) w hs h = remove_orphans-Inv list 0 w (hs list refl) h
  orphans_of-Inv (err e) w hs h = h

-- Whatever state property is kept by listing, by inspecting, and by removing a running helper of
-- another target that holds a requested host port and whose target was just not found, is kept by
-- `removeOrphanedHelpers`: it removes nothing else, also when it fails.
pub remove_orphaned_helpers-Inv :
    (c : Client) (target_id : Text) (requested : List PortPair) (k : Keeps c target_id requested)
    (w : c.World)
    → k.Inv w
    → k.Inv (remove_orphaned_helpers c target_id requested w).1
unfolding remove_orphaned_helpers
remove_orphaned_helpers-Inv c target_id requested k w h =
    orphans_of-Inv c target_id requested k _ _ (k.listed w) (k.list_keeps w h)
