-- ===== src/Ports/RoundTrip/Body.antt =====
-- internal/ports.go: the address and the ports of a printed pair, cut apart again.
use docker_port_forward.Ports.RoundTrip.Pieces.{
  IsKnown, suffix-NonSpace, remote_of-itoa, itoa-All, is_nil-false, local_of-local_text,
  local_text-All, digits-NonSpace, body_text, split_parts-ports, split_parts-plain,
  split_parts-bracketed, split_protocol-append,
}
use docker_port_forward.Text.Trim.{All-Lacks, itoa-ne-nil, trim_space_fixed, Starts, NonSpace}
use docker_port_forward.Common.{
  sym, All-append, append-nil, append_assoc, ◌⊎◌, subst, ℕ, ◌≤◌, ◌<◌, ◌≡◌, ◌≢◌, refl, ◌∙◌, true,
  false, inl, inr, [], ◌∷◌, ◌++◌, arith, All, Bool-cases, if◌then◌else◌, pos, ok, is_nil,
}
use docker_port_forward.Ports.Address.{address-IsPlain, IsPlain}
use mathlib.Core.List.{append-eq-nil_iff}
use docker_port_forward.Text.{trim_space, Text, IsDigit, Lacks, itoa, contains_char, is_space-ascii}
use docker_port_forward.Ports.Defs.{
  validate_address, is_valid_address, protocol_suffix, Protocol, local_text, format_address,
}
use docker_port_forward.Ports.Parse.{check_address, parse_port_spec, split_parts}

-- What stands before the remote port.
front_text : Text → ℕ → Text
front_text a l =
    if is_nil a
    then local_text (pos l) ++ (b':' ∷ [])
    else format_address a ++ (b':' ∷ local_text (pos l) ++ (b':' ∷ []))

body-front :
    (a : Text) (l r : ℕ) (s : Text) → body_text a l r ++ s ≡ front_text a l ++ (itoa (pos r) ++ s)
unfolding front_text
body-front [] l r s = simp append_assoc
body-front (c ∷ a) l r s = simp append_assoc

is_nil-true : (s : Text) → is_nil s ≡ true → s ≡ []
is_nil-true [] h = refl
is_nil-true (c ∷ s) h = cc

pub is_nil-append_left : (s t : Text) → is_nil s ≡ false → is_nil (s ++ t) ≡ false
is_nil-append_left [] t h = cc
is_nil-append_left (c ∷ s) t h = refl

digits-Starts : (s t : Text) → All IsDigit s → Starts t → Starts (s ++ t)
digits-Starts [] t h start = start
digits-Starts (c ∷ s) t h start = is_space-ascii c (omega arith) (omega arith)

plain-Starts : (s t : Text) → is_nil s ≡ false → All IsPlain s → Starts (s ++ t)
plain-Starts [] t ne h = cc
plain-Starts (c ∷ s) t ne h = is_space-ascii c (omega arith) (omega arith)

-- A character that a printed pair has only inside its address.
abbrev pub IsForeign : ℕ → Type 0
IsForeign b = (¬ IsDigit b) × (b':' ≢ b) × (b'[' ≢ b) × (b']' ≢ b)

front-Lacks : (b : ℕ) (a : Text) (l : ℕ) → IsForeign b → Lacks b a → Lacks b (front_text a l)
unfolding front_text format_address
front-Lacks b a l (nd, nc, not_open, ne) lacks =
    let local_lacks = All-Lacks IsDigit b _ nd (local_text-All l) in
    let ports_lack = All-append _ (local_text (pos l)) (b':' ∷ []) local_lacks (nc, tt) in
    elim (Bool-cases (is_nil a)) [
      | inl e ↦ rw e ports_lack
      | inr e ↦ elim (Bool-cases (contains_char b':' a)) [
        | inl colon ↦
            rw (e, colon)
              (All-append _ (b'[' ∷ a ++ (b']' ∷ [])) _
                (not_open, All-append _ a (b']' ∷ []) lacks (ne, tt)) (nc, ports_lack))
        | inr plain ↦ rw (e, plain) (All-append _ a _ lacks (nc, ports_lack))
      ]
    ]

pub body-Lacks : (b : ℕ) (a : Text) (l r : ℕ) → IsForeign b → Lacks b a → Lacks b (body_text a l r)
body-Lacks b a l r foreign lacks = subst (Lacks b) (append-nil _) (
    rw (body-front a l r []) (
      All-append _ (front_text a l) _ (front-Lacks b a l foreign lacks)
        (All-append _ (itoa (pos r)) [] (All-Lacks IsDigit b _ foreign.0 (itoa-All r)) tt)))

slash-IsForeign : IsForeign b'/'
slash-IsForeign = ((λ h. omega arith), (λ e. omega arith), (λ e. omega arith), λ e. omega arith)

module _ (a : Text) (l : ℕ) (valid : (is_nil a ≡ true) ⊎ (is_valid_address a ≡ true))
    (no_slash : Lacks b'/' a) (no_close : Lacks b']' a) where
  valid_of : is_nil a ≡ false → is_valid_address a ≡ true
  valid_of ne = elim valid [ inl e ↦ absurd (ground arith) | inr v ↦ v ]

  front-Starts : Starts (front_text a l)
  unfolding front_text format_address
  front-Starts = elim (Bool-cases (is_nil a)) [
    | inl e ↦ rw e (
        digits-Starts _ (b':' ∷ []) (local_text-All l)
          (is_space-ascii b':' (omega arith) (omega arith)))
    | inr ne ↦ elim (Bool-cases (contains_char b':' a)) [
      | inl colon ↦ rw (ne, colon) (is_space-ascii b'[' (omega arith) (omega arith))
      | inr plain ↦ rw (ne, plain) (plain-Starts a _ ne (address-IsPlain a (valid_of ne) plain))
    ]
  ]

  module _ (r : ℕ) where
    tail-ne-nil : (s : Text) → itoa (pos r) ++ s ≢ []
    tail-ne-nil s h = itoa-ne-nil (pos r) (append-eq-nil_iff.0 h).0

    trim-body :
        (s : Text) → All NonSpace s → trim_space (body_text a l r ++ s) ≡ body_text a l r ++ s
    trim-body s h = rw (body-front a l r s) (
        trim_space_fixed (front_text a l) (itoa (pos r) ++ s) front-Starts (tail-ne-nil s)
          (All-append _ (itoa (pos r)) s (digits-NonSpace _ (itoa-All r)) h))

    trim-body_alone : trim_space (body_text a l r) ≡ body_text a l r
    trim-body_alone = subst (λ t. trim_space t ≡ t) (append-nil _) (trim-body [] tt)

    pub body-ne-nil : is_nil (body_text a l r) ≡ false
    body-ne-nil =
        is_nil-false _
          λ e. tail-ne-nil [] (append-eq-nil_iff.0 (sym (body-front a l r []) ∙ append-nil _ ∙ e)).1

    split_parts-body : split_parts (body_text a l r) ≡ ok (a, local_text (pos l), itoa (pos r))
    unfolding format_address
    split_parts-body = elim (Bool-cases (is_nil a)) [
      | inl e ↦
          subst (λ t. split_parts (body_text t l r) ≡ ok (t, local_text (pos l), itoa (pos r)))
            (sym (is_nil-true a e)) (split_parts-ports l r)
      | inr ne ↦ elim (Bool-cases (contains_char b':' a)) [
        | inl colon ↦ rw (ne, colon, append_assoc) (split_parts-bracketed l r a ne colon no_close)
        | inr plain ↦
            rw (ne, plain) (split_parts-plain l r a ne (address-IsPlain a (valid_of ne) plain))
      ]
    ]

    check_address-ok : check_address a ≡ ok tt
    unfolding check_address validate_address
    check_address-ok = elim valid [
      | inl e ↦ rw e refl
      | inr v ↦ elim (Bool-cases (is_nil a)) [ inl e ↦ rw e refl | inr ne ↦ rw (ne, v) refl ]
    ]

    pub parse-body :
        (proto : Protocol)
        → IsKnown proto
        → l ≤ 65535
        → 0 < r
        → r ≤ 65535
        → parse_port_spec (body_text a l r ++ protocol_suffix proto)
          ≡ ok (record { address = a; local_port = pos l; remote_port = pos r; protocol = proto })
    unfolding parse_port_spec
    parse-body proto known hl lo hr =
        rw
          (
            parse_port_spec,
            trim-body _ (suffix-NonSpace proto known),
            is_nil-append_left _ _ body-ne-nil,
            split_protocol-append proto _ known body-ne-nil
                (body-Lacks b'/' a l r slash-IsForeign no_slash) trim-body_alone,
            split_parts-body,
            check_address-ok,
            remote_of-itoa r lo hr,
            local_of-local_text l hl,
          )
          refl
