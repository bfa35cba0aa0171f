-- ===== src/Library/Listed.antt =====
-- portforward/list.go: the helpers that `findHelpers` returns, and the list of the daemon.
use docker_port_forward.Docker.{wrap, listing_helpers, DockerError, Client, Summary, Error}
use docker_port_forward.Common.{
  In-map, ◌≡◌, refl, sym, subst, ap, ◌∙◌, ok-injective, Bool, false, In, inl, inr, Result-cases,
  List, [], ◌∷◌, map, Result, ok, err, arith,
}
use docker_port_forward.Text.{Text}
use docker_port_forward.Helpers.{check_helper, list_helpers, helper_filters}
use docker_port_forward.Helpers.Staleness.{Steady}
use docker_port_forward.Helpers.Verdicts.{check_helper_steady}
use docker_port_forward.Library.Find.{
  Helper, helper_of, summaries, check_each, find_helpers, helpers_by_target, target_id_of,
}
use docker_port_forward.Library.Found.{find_helpers-Comes}
use docker_port_forward.Library.Cleaned.{ids_of}

-- A container with the id is listed.
abbrev pub IsListed : (c : Client) → List (Text × Text) → Text → c.World → Type 0
IsListed c filters id w =
    (list : List Summary) × ((c.container_list filters w).0 ≡ ok list)
    × In id (map (λ s. s.id) list)

-- What a daemon does on a listing and on a removal: a listing changes nothing, and what is listed
-- after a removal was listed before it.
pub record Dwindles (c : Client) : Type 1 where
  pub unchanged : (filters : List (Text × Text)) (w : c.World) → (c.container_list filters w).1 ≡ w
  pub stays_listed :
      (filters : List (Text × Text)) (id j : Text) (w : c.World)
      → IsListed c filters j (c.container_remove id w).1
      → IsListed c filters j w

module _ {W A : Type 0} (f : DockerError → Error) (w : W) where
  wrap-ok : (p : Result DockerError A × W) (a : A) → (wrap f (λ _. p) w).0 ≡ ok a → p.0 ≡ ok a
  wrap-ok (ok b, w') a e = ap ok (ok-injective e)
  wrap-ok (err d, w') a e = absurd (ground (arith, e))

  wrap-unchanged : (p : Result DockerError A × W) → (wrap f (λ _. p) w).1 ≡ p.1
  wrap-unchanged (ok b, w') = refl
  wrap-unchanged (err d, w') = refl

module _ (c : Client) (k : Dwindles c) where
  summaries-listed :
      (w : c.World) (list : List Summary)
      → (summaries c [] [] w).0 ≡ ok list
      → (c.container_list (helper_filters []) w).0 ≡ ok list
  unfolding summaries helpers_by_target target_id_of list_helpers
  summaries-listed w list e =
      wrap-ok listing_helpers w (c.container_list (helper_filters []) w) list e

  summaries-unchanged : (w : c.World) → (summaries c [] [] w).1 ≡ w
  unfolding summaries helpers_by_target target_id_of list_helpers
  summaries-unchanged w =
      wrap-unchanged listing_helpers w (c.container_list (helper_filters []) w)
      ∙ k.unchanged (helper_filters []) w

module _ (c : Client) where
  check_each-ids :
      (list : List Summary) (hs : List Helper) (w : c.World) (id : Text)
      → (check_each c false list w).0 ≡ ok hs
      → In id (map (λ s. s.id) list)
      → In id (ids_of hs)
  unfolding check_each helper_of
  check_each-ids [] hs w id e i = absurd i
  check_each-ids (s ∷ list) hs w id e i = elim (Result-cases (check_helper c s w).0) [
    | inr (f, hf) ↦
        let opened : (check_each c false (s ∷ list) w).0 ≡ err f = rw (check_each, hf) refl in
        absurd (ground (arith, opened))
    | inl (v, hv) ↦ elim (Result-cases (check_each c false list (check_helper c s w).1).0) [
      | inr (f, hf) ↦
          let opened : (check_each c false (s ∷ list) w).0 ≡ err f = rw (check_each, hv, hf) refl in
          absurd (ground (arith, opened))
      | inl (rest, hr) ↦
          let opened : (check_each c false (s ∷ list) w).0 ≡ ok (helper_of s v ∷ rest) =
            rw (check_each, hv, hr) refl in
          subst (λ l. In id (ids_of l)) (ok-injective (sym opened ∙ e))
            (elim i [
              | inl same ↦ inl same
              | inr j ↦ inr (check_each-ids list rest (check_helper c s w).1 id hr j)
            ])
    ]
  ]

  check_each-unchanged :
      (d : Steady c) (stale_only : Bool) (list : List Summary) (w : c.World)
      → (check_each c stale_only list w).1 ≡ w
  unfolding check_each
  check_each-unchanged d stale_only [] w = refl
  check_each-unchanged d stale_only (s ∷ list) w = elim (Result-cases (check_helper c s w).0) [
    | inr (f, hf) ↦ rw (check_each, hf) (check_helper_steady c d s w)
    | inl (v, hv) ↦ elim (Result-cases (check_each c stale_only list (check_helper c s w).1).0) [
      | inl (rest, hr) ↦
          rw (check_each, hv, hr)
            (check_each-unchanged d stale_only list (check_helper c s w).1
              ∙ check_helper_steady c d s w)
      | inr (f, hr) ↦
          rw (check_each, hv, hr)
            (check_each-unchanged d stale_only list (check_helper c s w).1
              ∙ check_helper_steady c d s w)
    ]
  ]

module _ (c : Client) (steady : Steady c) (k : Dwindles c) where
  -- Every helper of the list is found.
  pub found-ids :
      (w : c.World) (hs : List Helper) (id : Text)
      → (find_helpers c [] [] false w).0 ≡ ok hs
      → IsListed c (helper_filters []) id w
      → In id (ids_of hs)
  unfolding find_helpers
  found-ids w hs id e (list, hl, i) = elim (Result-cases (summaries c [] [] w).0) [
    | inr (f, hf) ↦
        let opened : (find_helpers c [] [] false w).0 ≡ err f = rw (find_helpers, hf) refl in
        absurd (ground (arith, opened))
    | inl (l, hf) ↦
        let opened : (find_helpers c [] [] false w).0
            ≡ (check_each c false l (summaries c [] [] w).1).0 =
          rw (find_helpers, hf) refl in
        check_each-ids c l hs (summaries c [] [] w).1 id (sym opened ∙ e) (
          subst (λ x. In id (map (λ s. s.id) x))
            (ok-injective (sym hl ∙ summaries-listed c k w l hf)) i)
  ]

  -- What is found is listed.
  pub found-IsListed :
      (stale_only : Bool) (w : c.World) (hs : List Helper)
      → (find_helpers c [] [] stale_only w).0 ≡ ok hs
      → (h : Helper) → In h hs
      → IsListed c (helper_filters []) h.id w
  unfolding find_helpers helper_of
  found-IsListed stale_only w hs e h i = elim (Result-cases (summaries c [] [] w).0) [
    | inr (f, hf) ↦
        let opened : (find_helpers c [] [] stale_only w).0 ≡ err f = rw (find_helpers, hf) refl in
        absurd (ground (arith, opened))
    | inl (l, hf) ↦
        let (s, v, j, hv, same, kept) =
          (find_helpers-Comes c steady [] [] stale_only w l hs hf e h).0 i in
        (
          l,
          summaries-listed c k w l hf,
          subst (λ x. In x (map (λ t. t.id) l)) (ap (λ x. x.id) (sym same))
              (In-map (λ t. t.id) s l j),
        )
  ]

  pub find_helpers-unchanged :
      (stale_only : Bool) (w : c.World) → (find_helpers c [] [] stale_only w).1 ≡ w
  unfolding find_helpers
  find_helpers-unchanged stale_only w = elim (Result-cases (summaries c [] [] w).0) [
    | inr (f, hf) ↦ rw (find_helpers, hf) (summaries-unchanged c k w)
    | inl (l, hf) ↦
        rw (find_helpers, hf)
          (check_each-unchanged c steady stale_only l (summaries c [] [] w).1
            ∙ summaries-unchanged c k w)
  ]
