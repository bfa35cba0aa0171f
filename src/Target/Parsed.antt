-- ===== src/Target/Parsed.antt =====
-- internal/target.go: what `ParseTarget` accepts.
use docker_port_forward.Common.{
  subst, sym, ◌∙◌, ok-injective, ◌≡◌, ◌≢◌, ◌↔◌, refl, [], ◌∷◌, ◌++◌, ok, Option-cases, inl, inr,
}
use docker_port_forward.Text.{Text, trim_space, cut_prefix}
use docker_port_forward.Text.Prefixed.{cut_prefix-some, cut_prefix-none}
use docker_port_forward.Target.Parse.{
  TargetError, container_name_empty, service_name_empty, named, TargetType, container, service,
  auto, ParsedTarget, container_prefix, service_prefix, parse_trimmed_target, parse_target,
}

-- A text without white space around it that is written for a target.
abbrev pub IsWritten : Text → TargetType → Text → Type 0
IsWritten s container name = s ≡ container_prefix ++ name
IsWritten s service name = s ≡ service_prefix ++ name
IsWritten s auto name =
    (s ≡ name)
    × ((rest : Text) → s ≢ container_prefix ++ rest)
    × ((rest : Text) → s ≢ service_prefix ++ rest)

abbrev IsRead : Text → ParsedTarget → Type 0
IsRead s t = (t.name ≢ []) × IsWritten s t.type t.name

named-IsRead :
    (s : Text) (type : TargetType) (e : TargetError) (name : Text) (t : ParsedTarget)
    → named type e name ≡ ok t
    → IsWritten s type name
    → IsRead s t
named-IsRead s type e [] t h k = cc
named-IsRead s type e (c ∷ name) t h k =
    subst (IsRead s) {x = record { type = type; name = c ∷ name }} {y = t} (ok-injective h)
      ((λ f. cc), k)

parse_trimmed_target-IsRead :
    (s : Text) (t : ParsedTarget) → parse_trimmed_target s ≡ ok t → IsRead s t
unfolding parse_trimmed_target
parse_trimmed_target-IsRead [] t h = cc
parse_trimmed_target-IsRead (c ∷ s) t h =
    elim (Option-cases (cut_prefix container_prefix (c ∷ s))) [
      | inr (name, e) ↦
          let opened : parse_trimmed_target (c ∷ s) ≡ named container container_name_empty name =
            rw (parse_trimmed_target, e) refl in
          named-IsRead (c ∷ s) container container_name_empty name t (sym opened ∙ h)
            (cut_prefix-some container_prefix (c ∷ s) name e)
      | inl e ↦ elim (Option-cases (cut_prefix service_prefix (c ∷ s))) [
        | inr (name, f) ↦
            let opened : parse_trimmed_target (c ∷ s) ≡ named service service_name_empty name =
              rw (parse_trimmed_target, e, f) refl in
            named-IsRead (c ∷ s) service service_name_empty name t (sym opened ∙ h)
              (cut_prefix-some service_prefix (c ∷ s) name f)
        | inl f ↦
            let opened : parse_trimmed_target (c ∷ s) ≡ ok (record { type = auto; name = c ∷ s }) =
              rw (parse_trimmed_target, e, f) refl in
            subst (IsRead (c ∷ s)) (ok-injective (sym opened ∙ h)) (
              (λ k. cc),
              (
                refl,
                (λ rest. cut_prefix-none container_prefix (c ∷ s) rest e),
                (λ rest. cut_prefix-none service_prefix (c ∷ s) rest f),
              ),
            )
      ]
    ]

container_read :
    (name : Text)
    → name ≢ []
    → parse_trimmed_target (container_prefix ++ name)
      ≡ ok (record { type = container; name = name })
unfolding parse_trimmed_target cut_prefix
container_read [] h = absurd (h refl)
container_read (c ∷ name) h = refl

service_read :
    (name : Text)
    → name ≢ []
    → parse_trimmed_target (service_prefix ++ name) ≡ ok (record { type = service; name = name })
unfolding parse_trimmed_target cut_prefix
service_read [] h = absurd (h refl)
service_read (c ∷ name) h = refl

bare_read :
    (s : Text)
    → s ≢ []
    → ((rest : Text) → s ≢ container_prefix ++ rest)
    → ((rest : Text) → s ≢ service_prefix ++ rest)
    → parse_trimmed_target s ≡ ok (record { type = auto; name = s })
unfolding parse_trimmed_target
bare_read [] h k l = absurd (h refl)
bare_read (c ∷ s) h k l = elim (Option-cases (cut_prefix container_prefix (c ∷ s))) [
  | inr (name, e) ↦ absurd (k name (cut_prefix-some container_prefix (c ∷ s) name e))
  | inl e ↦ elim (Option-cases (cut_prefix service_prefix (c ∷ s))) [
    | inr (name, f) ↦ absurd (l name (cut_prefix-some service_prefix (c ∷ s) name f))
    | inl f ↦ rw (parse_trimmed_target, e, f) refl
  ]
]

written :
    (s : Text) (type : TargetType) (name : Text)
    → name ≢ []
    → IsWritten s type name
    → parse_trimmed_target s ≡ ok (record { type = type; name = name })
written s container name h k =
    subst (λ x. parse_trimmed_target x ≡ ok (record { type = container; name = name })) (sym k)
      (container_read name h)
written s service name h k =
    subst (λ x. parse_trimmed_target x ≡ ok (record { type = service; name = name })) (sym k)
      (service_read name h)
written s auto name h (k, nc, ns) =
    subst (λ x. parse_trimmed_target s ≡ ok (record { type = auto; name = x })) k
      (bare_read s (λ e. h (sym k ∙ e)) nc ns)

-- `ParseTarget` reads an argument as a target exactly when the argument, without the white space
-- around it, is `container/` or `service/` and the name, or the bare name with neither prefix, and
-- the name is not empty.
pub parse_target_iff :
    (s : Text) (t : ParsedTarget)
    → (parse_target s ≡ ok t) ↔ ((t.name ≢ []) × IsWritten (trim_space s) t.type t.name)
unfolding parse_target
parse_target_iff s t = (
  parse_trimmed_target-IsRead (trim_space s) t,
  (λ k. written (trim_space s) t.type t.name k.0 k.1),
)
