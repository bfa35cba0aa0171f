-- ===== src/Library/Found.antt =====
-- portforward/list.go: the helpers that `findHelpers` returns.
use docker_port_forward.Common.{
  ◌≡◌, ◌↔◌, refl, sym, subst, ap, ◌∙◌, ok-injective, Bool, true, false, ◌&&◌, In, inl, inr,
  Bool-cases, Result-cases, List, [], ◌∷◌, ok, err, arith,
}
use docker_port_forward.Text.{Text}
use docker_port_forward.Docker.{Client, Summary}
use docker_port_forward.Helpers.{check_helper, Verdict}
use docker_port_forward.Helpers.Staleness.{Steady}
use docker_port_forward.Helpers.Verdicts.{check_helper_steady}
use docker_port_forward.Start.{is_current}
use docker_port_forward.Library.Find.{
  Helper, helper_of, keep_helper, summaries, check_each, find_helpers,
}

module _ (c : Client) (w : c.World) (stale_only : Bool) where
  -- A container of the list with its verdict, which is stale if only those are asked for.
  abbrev pub Comes : List Summary → Helper → Type 0
  Comes list h =
      (s : Summary) × (verdict : Verdict) × In s list
      × ((check_helper c s w).0 ≡ ok verdict)
      × (h ≡ helper_of s verdict)
      × (stale_only && is_current verdict ≡ false)

  later : (s : Summary) (list : List Summary) (h : Helper) → Comes list h → Comes (s ∷ list) h
  later s list h (t, v, i, hv, e, stale) = (t, v, inr i, hv, e, stale)

  same_verdict :
      (s t : Summary) (v u : Verdict)
      → (check_helper c s w).0 ≡ ok v
      → (check_helper c t w).0 ≡ ok u
      → t ≡ s
      → u ≡ v
  same_verdict s t v u hs ht e = ok-injective (sym ht ∙ ap (λ x. (check_helper c x w).0) e ∙ hs)

  of_skipped :
      (s : Summary) (list : List Summary) (v : Verdict) (h : Helper)
      → (check_helper c s w).0 ≡ ok v
      → stale_only && is_current v ≡ true
      → Comes (s ∷ list) h
      → Comes list h
  of_skipped s list v h hs skipped (t, u, inr i, hu, e, stale) = (t, u, i, hu, e, stale)
  of_skipped s list v h hs skipped (t, u, inl same, hu, e, stale) =
      let twice = ap (λ x. stale_only && is_current x) (same_verdict s t v u hs hu same) in
      absurd (ground (arith, twice))

  of_kept :
      (s : Summary) (list : List Summary) (v : Verdict) (rest : List Helper) (h : Helper)
      → (check_helper c s w).0 ≡ ok v
      → (Comes list h → In h rest)
      → Comes (s ∷ list) h
      → In h (helper_of s v ∷ rest)
  of_kept s list v rest h hs back (t, u, inr i, hu, e, stale) = inr (back (t, u, i, hu, e, stale))
  of_kept s list v rest h hs back (t, u, inl same, hu, e, stale) =
      let verdicts = same_verdict s t v u hs hu same in
      inl (e ∙ (λ i. helper_of (same i) (verdicts i)))

  keep-Comes :
      (s : Summary) (list : List Summary) (v : Verdict) (rest : List Helper) (h : Helper)
      → (check_helper c s w).0 ≡ ok v
      → (In h rest ↔ Comes list h)
      → (In h (keep_helper stale_only s v rest) ↔ Comes (s ∷ list) h)
  keep-Comes s list v rest h hs (there, back) = elim (Bool-cases (stale_only && is_current v)) [
    | inl skipped ↦
        rw (keep_helper, skipped)
          ((λ i. later s list h (there i)), (λ k. back (of_skipped s list v h hs skipped k)))
    | inr kept ↦
        rw (keep_helper, kept)
          (
            (λ i. elim i [
              | inl e ↦ (s, v, inl refl, hs, e, kept)
              | inr j ↦ later s list h (there j)
            ]),
            (λ k. of_kept s list v rest h hs back k),
          )
  ]

  module _ (d : Steady c) where
    check_each-Comes :
        (list : List Summary) (hs : List Helper)
        → (check_each c stale_only list w).0 ≡ ok hs
        → (h : Helper) → In h hs ↔ Comes list h
    unfolding check_each
    check_each-Comes [] hs e h =
        subst (λ l. In h l ↔ Comes [] h) (ok-injective e) ((λ i. absurd i), (λ k. absurd k.2))
    check_each-Comes (s ∷ list) hs e h = elim (Result-cases (check_helper c s w).0) [
      | inr (f, hf) ↦
          let opened : (check_each c stale_only (s ∷ list) w).0 ≡ err f =
            rw (check_each, hf) refl in
          absurd (ground (arith, opened))
      | inl (v, hv) ↦ elim (Result-cases (check_each c stale_only list w).0) [
        | inr (f, hf) ↦
            let opened : (check_each c stale_only (s ∷ list) w).0 ≡ err f =
              rw (check_each, hv, check_helper_steady c d s w, hf) refl in
            absurd (ground (arith, opened))
        | inl (rest, hr) ↦
            let opened : (check_each c stale_only (s ∷ list) w).0
                ≡ ok (keep_helper stale_only s v rest) =
              rw (check_each, hv, check_helper_steady c d s w, hr) refl in
            subst (λ l. In h l ↔ Comes (s ∷ list) h) (ok-injective (sym opened ∙ e))
              (keep-Comes s list v rest h hv (check_each-Comes list rest hr h))
      ]
    ]

pub find_helpers-Comes :
    (c : Client) (d : Steady c) (name target : Text) (stale_only : Bool) (w : c.World)
    (list : List Summary) (hs : List Helper)
    → (summaries c name target w).0 ≡ ok list
    → (find_helpers c name target stale_only w).0 ≡ ok hs
    → (h : Helper) → In h hs ↔ Comes c (summaries c name target w).1 stale_only list h
unfolding find_helpers
find_helpers-Comes c d name target stale_only w list hs e k =
    let opened : (find_helpers c name target stale_only w).0
        ≡ (check_each c stale_only list (summaries c name target w).1).0 =
      rw (find_helpers, e) refl in
    check_each-Comes c (summaries c name target w).1 stale_only d list hs (sym opened ∙ k)
