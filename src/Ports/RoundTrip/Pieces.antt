-- ===== src/Ports/RoundTrip/Pieces.antt =====
-- internal/ports.go: the parts of a printed port pair, each read back.
use docker_port_forward.Text.{is_space}
use docker_port_forward.Text.Trim.{NonSpace, All-Lacks, itoa-ne-nil}
use docker_port_forward.Common.{sym}
use docker_port_forward.Text.{cut_last-append}
use docker_port_forward.Text.{cut_last-Lacks}
use docker_port_forward.Common.{append-nil}
use docker_port_forward.Text.{codes}
use docker_port_forward.Text.{is_space}
use docker_port_forward.Ports.Defs.{tcp, udp, to_protocol}
use docker_port_forward.Text.{trim_space}
use docker_port_forward.Ports.Defs.{protocol_suffix}
use docker_port_forward.Ports.Defs.{Protocol}
use docker_port_forward.Text.{to_lower}
use docker_port_forward.Ports.Parse.{split_protocol}
use docker_port_forward.Common.{subst}
use docker_port_forward.Common.{
  ℕ, ◌≤◌, ◌<◌, ◌≡◌, ◌≢◌, refl, ap, ◌∙◌, true, false, inl, inr, none, some, [], ◌∷◌, ◌++◌, arith,
  ◌==◌, All, Bool-cases, if◌then◌else◌, pos, ok, is_nil,
}
use docker_port_forward.Text.{
  cut_prefix, Text, IsDigit, Lacks, cut-append, split-append, split-Lacks, itoa, atoi-itoa_pos,
  format_nat-All, contains_char, split, is_space-ascii,
}
use docker_port_forward.Text.Trim.{NonSpace}
use docker_port_forward.Ports.Defs.{local_text, format_address}
use docker_port_forward.Ports.Parse.{parse_port_number, split_parts, remote_of, local_of}
use docker_port_forward.Ports.Address.{IsPlain}

pub parse_port_number-itoa : (n : ℕ) → n ≤ 65535 → parse_port_number (itoa (pos n)) ≡ some (pos n)
unfolding parse_port_number
parse_port_number-itoa n h = rw (parse_port_number, atoi-itoa_pos n (omega arith)) (ground arith)

pub remote_of-itoa : (n : ℕ) → 0 < n → n ≤ 65535 → remote_of (itoa (pos n)) ≡ ok (pos n)
unfolding remote_of
remote_of-itoa n lo hi = rw (remote_of, parse_port_number-itoa n hi) (ground arith)

pub itoa-All : (n : ℕ) → All IsDigit (itoa (pos n))
unfolding itoa
itoa-All n = format_nat-All n

pub is_nil-false : (s : Text) → s ≢ [] → is_nil s ≡ false
is_nil-false [] h = absurd (h refl)
is_nil-false (c ∷ s) h = refl

pub local_of-local_text : (n : ℕ) → n ≤ 65535 → local_of (local_text (pos n)) ≡ ok (pos n)
unfolding local_of local_text
local_of-local_text n h = elim (Bool-cases (n == 0)) [
  | inl e ↦ rw e (ground arith)
  | inr e ↦ rw (e, is_nil-false _ (itoa-ne-nil (pos n)), parse_port_number-itoa n h) refl
]

pub local_text-All : (n : ℕ) → All IsDigit (local_text (pos n))
unfolding local_text
local_text-All n = elim (Bool-cases (n == 0)) [ inl e ↦ rw e tt | inr e ↦ rw e (itoa-All n) ]

pub digits-NonSpace : (s : Text) → All IsDigit s → All NonSpace s
digits-NonSpace [] h = tt
digits-NonSpace (c ∷ s) h = (is_space-ascii c (omega arith) (omega arith), digits-NonSpace s h.1)

-- The text of the two ports.
abbrev pub ports_text : ℕ → ℕ → Text
ports_text l r = local_text (pos l) ++ (b':' ∷ itoa (pos r))

-- The text of a pair without its protocol.
abbrev pub body_text : Text → ℕ → ℕ → Text
body_text a l r = if is_nil a then ports_text l r else format_address a ++ (b':' ∷ ports_text l r)

pub no_bracket : (s t : Text) → Lacks b'[' s → cut_prefix (b'[' ∷ []) (s ++ (b':' ∷ t)) ≡ none
unfolding cut_prefix
no_bracket [] t h = refl
no_bracket (c ∷ s) t h = ground arith

module _ (l r : ℕ) where
  pub split-ports_text : split b':' (ports_text l r) ≡ local_text (pos l) ∷ itoa (pos r) ∷ []
  split-ports_text =
      split-append b':' _ _ (All-Lacks IsDigit b':' _ (λ h. omega arith) (local_text-All l))
      ∙ ap (λ t. local_text (pos l) ∷ t)
          (split-Lacks b':' _ (All-Lacks IsDigit b':' _ (λ h. omega arith) (itoa-All r)))

  pub split_parts-ports : split_parts (ports_text l r) ≡ ok ([], local_text (pos l), itoa (pos r))
  unfolding split_parts
  split_parts-ports =
      rw
        (
          split_parts,
          no_bracket _ _ (All-Lacks IsDigit b'[' _ (λ h. omega arith) (local_text-All l)),
          split-ports_text,
        )
        refl

  pub split_parts-plain :
      (a : Text)
      → is_nil a ≡ false
      → All IsPlain a
      → split_parts (a ++ (b':' ∷ ports_text l r)) ≡ ok (a, local_text (pos l), itoa (pos r))
  unfolding split_parts
  split_parts-plain a ne h =
      rw
        (
          split_parts,
          no_bracket _ _ (All-Lacks IsPlain b'[' a (λ p. absurd (p.3 refl)) h),
          split-append b':' a (ports_text l r)
              (All-Lacks IsPlain b':' a (λ p. absurd (p.4 refl)) h),
          split-ports_text,
          ne,
        )
        refl

  pub split_parts-bracketed :
      (a : Text)
      → is_nil a ≡ false
      → contains_char b':' a ≡ true
      → Lacks b']' a
      → split_parts (b'[' ∷ a ++ (b']' ∷ b':' ∷ ports_text l r))
        ≡ ok (a, local_text (pos l), itoa (pos r))
  unfolding split_parts cut_prefix
  split_parts-bracketed a ne colon h =
      rw
        (
          cut-append b']' a (b':' ∷ ports_text l r) h,
          cut-append b':' _ (itoa (pos r))
              (All-Lacks IsDigit b':' _ (λ h. omega arith) (local_text-All l)),
          ne,
          colon,
        )
        refl

-- TCP or UDP.
abbrev pub IsKnown : Protocol → Type 0
IsKnown tcp = Unit
IsKnown udp = Unit
IsKnown _ = ⊥

pub udp_name : to_lower (trim_space (codes "udp")) ≡ codes "udp"
unfolding to_lower trim_space is_space
udp_name = refl

pub split_protocol-plain : (body : Text) → Lacks b'/' body → split_protocol body ≡ ok (tcp, body)
unfolding split_protocol
split_protocol-plain body lacks = rw (split_protocol, cut_last-Lacks b'/' body lacks) refl

pub split_protocol-append :
    (proto : Protocol) (body : Text)
    → IsKnown proto
    → is_nil body ≡ false
    → Lacks b'/' body
    → trim_space body ≡ body
    → split_protocol (body ++ protocol_suffix proto) ≡ ok (proto, body)
unfolding split_protocol protocol_suffix to_protocol
split_protocol-append tcp body known ne lacks trim =
    subst (λ t. split_protocol t ≡ ok (tcp, body)) (sym (append-nil body))
      (split_protocol-plain body lacks)
split_protocol-append udp body known ne lacks trim =
    rw (split_protocol, cut_last-append b'/' body (codes "udp") (ground arith), udp_name, trim, ne)
      refl
split_protocol-append _ body known ne lacks trim = elim known [ ]

pub suffix-NonSpace : (proto : Protocol) → IsKnown proto → All NonSpace (protocol_suffix proto)
unfolding protocol_suffix is_space
suffix-NonSpace tcp known = tt
suffix-NonSpace udp known = (refl, (refl, (refl, (refl, tt))))
suffix-NonSpace _ known = elim known [ ]
