-- ===== src/Options/Restarted.antt =====
-- internal/restart.go: what `ParseRestartPolicy` accepts.
use docker_port_forward.Common.{
  ◌≡◌, ◌≢◌, ◌↔◌, ◌⊎◌, inl, inr, refl, sym, subst, ap, ◌∙◌, ok-injective, Bool, true, false, not,
  ◌&&◌, none, some, Option-cases, Bool-cases, [], ◌∷◌, ◌++◌, ℤ, pos, ok, err, arith,
}
use docker_port_forward.Text.{Text, cut, atoi, Lacks, cut-append}
use docker_port_forward.Text.Prefixed.{nil_append, cut-Lacks, cut-some, cut-none}
use docker_port_forward.Options.Restart.{
  no_policy, refused, conflicting, not_an_integer, RestartPolicy, default_policy, checked,
  with_count, around_colon, parse_restart_policy,
}

-- A count behind the colon: none, or a number.
abbrev pub Counts : Text → ℤ → Type 0
Counts count n = ((count ≡ []) × (n ≡ pos 0)) ⊎ (atoi count ≡ some n)

-- A name, and a count if there is a colon.
abbrev pub Describes : Text → RestartPolicy → Type 0
Describes policy rp =
    (rp.name ≢ [])
    × Lacks b':' rp.name
    × (((policy ≡ rp.name) × (rp.max_retries ≡ pos 0))
        ⊎ ((count : Text) × (policy ≡ rp.name ++ b':' ∷ count) × Counts count rp.max_retries))

no_count : (rp : RestartPolicy) → Counts [] rp.max_retries → rp.max_retries ≡ pos 0
unfolding atoi
no_count rp (inl (e, n)) = n
no_count rp (inr n) = cc

not_empty :
    (rp : RestartPolicy)
    → rp.name ≢ []
    → (([] ≡ rp.name) × (rp.max_retries ≡ pos 0))
      ⊎ ((count : Text) × ([] ≡ rp.name ++ b':' ∷ count) × Counts count rp.max_retries)
    → ⊥
not_empty rp ne (inl (e, n)) = ne (sym e)
not_empty rp ne (inr (count, e, counts)) = nil_append rp.name b':' count e

module _ (validate is_none : RestartPolicy → Bool) where
  -- Docker allows it, and an attached helper is not restarted.
  abbrev pub IsAllowed : Bool → RestartPolicy → Type 0
  IsAllowed detach rp = (validate rp ≡ true) × (detach ≡ false → is_none rp ≡ true)

  checked-IsAllowed :
      (detach : Bool) (rp out : RestartPolicy)
      → checked validate is_none detach rp ≡ ok out
      → (rp ≡ out) × IsAllowed detach rp
  checked-IsAllowed detach rp out h = elim (Bool-cases (validate rp)) [
    | inr v ↦
        let opened : checked validate is_none detach rp ≡ err refused = rw (checked, v) refl in
        absurd (ground (arith, opened))
    | inl v ↦ elim (Bool-cases (not detach && not (is_none rp))) [
      | inl k ↦
          let opened : checked validate is_none detach rp ≡ err conflicting =
            rw (checked, v, k) refl in
          absurd (ground (arith, opened))
      | inr k ↦
          let opened : checked validate is_none detach rp ≡ ok rp = rw (checked, v, k) refl in
          (ok-injective (sym opened ∙ h), (v, (λ attached. ground (arith, k))))
    ]
  ]

  checked_allowed :
      (detach : Bool) (rp : RestartPolicy)
      → IsAllowed detach rp
      → checked validate is_none detach rp ≡ ok rp
  checked_allowed true rp (v, k) = rw v refl
  checked_allowed false rp (v, k) = rw (v, k refl) refl

  with_count-Counts :
      (detach : Bool) (name count : Text) (out : RestartPolicy)
      → with_count validate is_none detach name count ≡ ok out
      → (name ≡ out.name) × Counts count out.max_retries × IsAllowed detach out
  with_count-Counts detach name [] out h =
      let (e, allowed) =
        checked-IsAllowed detach (record { name = name; max_retries = pos 0 }) out h in
      (
        ap (λ r. r.name) e,
        inl (refl, ap (λ r. r.max_retries) (sym e)),
        subst (IsAllowed detach) e allowed,
      )
  with_count-Counts detach name (c ∷ count) out h = elim (Option-cases (atoi (c ∷ count))) [
    | inl e ↦
        let opened : with_count validate is_none detach name (c ∷ count) ≡ err not_an_integer =
          rw (with_count, e) refl in
        absurd (ground (arith, opened))
    | inr (n, e) ↦
        let opened : with_count validate is_none detach name (c ∷ count)
            ≡ checked validate is_none detach (record { name = name; max_retries = n }) =
          rw (with_count, e) refl in
        let (same, allowed) =
          checked-IsAllowed detach (record { name = name; max_retries = n }) out (sym opened ∙ h) in
        (
          ap (λ r. r.name) same,
          inr (e ∙ ap (λ r. some r.max_retries) same),
          subst (IsAllowed detach) same allowed,
        )
  ]

  checked_same :
      (detach : Bool) (name : Text) (n : ℤ) (rp : RestartPolicy)
      → name ≡ rp.name
      → n ≡ rp.max_retries
      → IsAllowed detach rp
      → checked validate is_none detach (record { name = name; max_retries = n }) ≡ ok rp
  checked_same detach name n rp e f allowed =
      let same : record { name = name; max_retries = n } ≡ rp =
        λ i. record { name = e i; max_retries = f i } in
      subst (λ r. checked validate is_none detach r ≡ ok rp) (sym same)
        (checked_allowed detach rp allowed)

  with_count_allowed :
      (detach : Bool) (name count : Text) (rp : RestartPolicy)
      → name ≡ rp.name
      → Counts count rp.max_retries
      → IsAllowed detach rp
      → with_count validate is_none detach name count ≡ ok rp
  unfolding atoi
  with_count_allowed detach name [] rp e (inl (c, n)) allowed =
      checked_same detach name (pos 0) rp e (sym n) allowed
  with_count_allowed detach name (c ∷ count) rp e (inl (f, n)) allowed = absurd (ground arith)
  with_count_allowed detach name [] rp e (inr n) allowed = cc
  with_count_allowed detach name (c ∷ count) rp e (inr n) allowed =
      rw (with_count, n) (checked_same detach name rp.max_retries rp e refl allowed)

  cut_policy-Describes :
      (detach : Bool) (policy : Text) (rp : RestartPolicy)
      → policy ≢ []
      → around_colon validate is_none detach policy (cut b':' policy) ≡ ok rp
      → Describes policy rp × IsAllowed detach rp
  cut_policy-Describes detach policy rp ne h = elim (Option-cases (cut b':' policy)) [
    | inl e ↦
        let opened : around_colon validate is_none detach policy (cut b':' policy)
            ≡ with_count validate is_none detach policy [] =
          rw e refl in
        let (same, counts, allowed) = with_count-Counts detach policy [] rp (sym opened ∙ h) in
        (
          (
            (λ k. ne (same ∙ k)),
            subst (Lacks b':') same (cut-none b':' policy e),
            inl (same, no_count rp counts),
          ),
          allowed,
        )
    | inr (([], count), e) ↦
        let opened : around_colon validate is_none detach policy (cut b':' policy) ≡ err no_policy =
          rw e refl in
        absurd (ground (arith, opened))
    | inr ((c ∷ name, count), e) ↦
        let opened : around_colon validate is_none detach policy (cut b':' policy)
            ≡ with_count validate is_none detach (c ∷ name) count =
          rw e refl in
        let (same, counts, allowed) =
          with_count-Counts detach (c ∷ name) count rp (sym opened ∙ h) in
        let (split, lacks) = cut-some b':' policy (c ∷ name) count e in
        (
          (
            (λ k. let bad = same ∙ k in cc),
            subst (Lacks b':') same lacks,
            inr (count, split ∙ ap (λ n. n ++ b':' ∷ count) same, counts),
          ),
          allowed,
        )
  ]

  named_colon :
      (detach : Bool) (policy name count : Text) (rp : RestartPolicy)
      → name ≡ rp.name
      → name ≢ []
      → Lacks b':' name
      → policy ≡ name ++ b':' ∷ count
      → Counts count rp.max_retries
      → IsAllowed detach rp
      → around_colon validate is_none detach policy (cut b':' policy) ≡ ok rp
  named_colon detach policy [] count rp same ne lacks split counts allowed = absurd (ne refl)
  named_colon detach policy (c ∷ name) count rp same ne lacks split counts allowed =
      let e : cut b':' policy ≡ some (c ∷ name, count) =
        subst (λ p. cut b':' p ≡ some (c ∷ name, count)) (sym split)
          (cut-append b':' (c ∷ name) count lacks) in
      rw e (with_count_allowed detach (c ∷ name) count rp same counts allowed)

  policy_described :
      (detach : Bool) (policy : Text) (rp : RestartPolicy)
      → Describes policy rp
      → IsAllowed detach rp
      → around_colon validate is_none detach policy (cut b':' policy) ≡ ok rp
  policy_described detach policy rp (ne, lacks, inl (same, n)) allowed =
      let e : cut b':' policy ≡ none =
        subst (λ p. cut b':' p ≡ none) (sym same) (cut-Lacks b':' rp.name lacks) in
      rw e (with_count_allowed detach policy [] rp same (inl (refl, n)) allowed)
  policy_described detach policy rp (ne, lacks, inr (count, split, counts)) allowed =
      named_colon detach policy rp.name count rp refl ne lacks split counts allowed

-- `ParseRestartPolicy` gives a policy exactly when the text is empty and it is the default, which
-- is unless-stopped for a detached helper and no restart for an attached one; or when the text is the
-- policy's name, with a count of retries behind a colon or none for zero, Docker's validation allows
-- the policy, and for an attached helper it is no restart.
pub parse_restart_policy_iff :
    (validate is_none : RestartPolicy → Bool) (policy : Text) (detach : Bool) (rp : RestartPolicy)
    → (parse_restart_policy validate is_none policy detach ≡ ok rp) ↔ (
        ((policy ≡ []) × (rp ≡ default_policy detach))
        ⊎ (Describes policy rp × IsAllowed validate is_none detach rp))
unfolding parse_restart_policy
parse_restart_policy_iff validate is_none [] detach rp = (
  (λ h. inl (refl, sym (ok-injective h))),
  (λ k. elim k [
    | inl (e, same) ↦ ap ok (sym same)
    | inr ((ne, lacks, rest), allowed) ↦ absurd (not_empty rp ne rest)
  ]),
)
parse_restart_policy_iff validate is_none (c ∷ policy) detach rp = (
  (λ h. inr (cut_policy-Describes validate is_none detach (c ∷ policy) rp (λ k. cc) h)),
  (λ k. elim k [
    | inl (e, same) ↦ absurd (ground arith)
    | inr (d, allowed) ↦ policy_described validate is_none detach (c ∷ policy) rp d allowed
  ]),
)
