-- ===== src/Bindings/RoundTrip/Ports.antt =====
-- `DecodePortPairs` undoes `EncodePortPairs`.
use docker_port_forward.Bindings.RoundTrip.Lists.{keep_some-map, IsEntry, decode_list-join}
use mathlib.Core.List.{append-eq-nil_iff, cons-ne-nil}
use docker_port_forward.Text.Trim.{
  is_nil-append, NonSpace, trim_space_fixed, All-Lacks, All_mono, IsNumeral, IsNumeral-NonSpace,
  itoa-IsNumeral, itoa-ne-nil, Starts-append,
}
use docker_port_forward.Common.{
  ℕ, ◌≡◌, ◌≢◌, refl, sym, ◌∙◌, subst, false, some, List, [], ◌∷◌, ◌++◌, append_assoc, append-nil,
  is_nil, map, All, All-append, arith, ℤ,
}
use docker_port_forward.Text.{
  Text, codes, Lacks, cut-append, cut_last-Lacks, cut_last-append, itoa, atoi-itoa, InRange,
  trim_space, to_lower,
}
use docker_port_forward.Ports.{
  Protocol, tcp, udp, to_protocol, normalize_protocol, protocol_suffix, PortPair,
}
use docker_port_forward.Ports.RoundTrip.{IsKnown, suffix-NonSpace}
use docker_port_forward.Bindings.Defs.{
  port_text, decode_ports, decode_token, encode_port_pairs, decode_port_pairs,
}

-- A pair that the label `LabelPorts` can record: its ports fit into an `int`.
pub record IsRecordable (p : PortPair) : Type 0 where
  pub known : IsKnown (normalize_protocol p.protocol)
  pub local_fits : InRange p.local_port
  pub remote_fits : InRange p.remote_port

-- What the label keeps of a pair.
abbrev pub recorded : PortPair → PortPair
recorded p = record p { address = []; protocol = normalize_protocol p.protocol }

module _ (l r : ℤ) where
  pub pair_text : Text
  pair_text = itoa l ++ (b':' ∷ itoa r)

  pair_text-Lacks : (b : ℕ) → ¬ IsNumeral b → b':' ≢ b → Lacks b pair_text
  unfolding pair_text
  pair_text-Lacks b nb ne =
      All-append _ (itoa l) _ (All-Lacks IsNumeral b _ nb (itoa-IsNumeral l))
        (ne, All-Lacks IsNumeral b _ nb (itoa-IsNumeral r))

  decode_ports-pair_text :
      (proto : Protocol)
      → InRange l
      → InRange r
      → decode_ports proto pair_text
        ≡ some (record { address = []; local_port = l; remote_port = r; protocol = proto })
  unfolding pair_text decode_ports
  decode_ports-pair_text proto hl hr =
      rw
        (
          decode_ports,
          cut-append b':' (itoa l) (itoa r)
              (All-Lacks IsNumeral b':' _ (λ h. omega arith) (itoa-IsNumeral l)),
          atoi-itoa l hl,
          atoi-itoa r hr,
        )
        refl

  is_nil-pair_text : (s : Text) → is_nil (pair_text ++ s) ≡ false
  unfolding pair_text
  is_nil-pair_text s = rw append_assoc (is_nil-append (itoa l) _ (cons-ne-nil b':' (itoa r ++ s)))

  regroup : (s : Text) → pair_text ++ s ≡ (itoa l ++ (b':' ∷ [])) ++ (itoa r ++ s)
  unfolding pair_text
  regroup s = simp append_assoc

  pub trim-pair_text : (s : Text) → All NonSpace s → trim_space (pair_text ++ s) ≡ pair_text ++ s
  trim-pair_text s h =
      let numeral =
        λ (z : ℤ). All_mono IsNumeral NonSpace _ IsNumeral-NonSpace (itoa-IsNumeral z) in
      rw (regroup s) (
        trim_space_fixed (itoa l ++ (b':' ∷ [])) (itoa r ++ s)
          (Starts-append (itoa l) _ (itoa-ne-nil l) (numeral l))
          (λ e. itoa-ne-nil r (append-eq-nil_iff.0 e).0) (All-append _ (itoa r) s (numeral r) h))

  decode_token-plain :
      InRange l
      → InRange r
      → decode_token pair_text
        ≡ some (record { address = []; local_port = l; remote_port = r; protocol = tcp })
  unfolding decode_token
  decode_token-plain hl hr =
      rw
        (
          decode_token,
          subst (λ t. is_nil t ≡ false) (append-nil pair_text) (is_nil-pair_text []),
          cut_last-Lacks b'/' pair_text (pair_text-Lacks b'/' (λ h. h.2 refl) (λ e. omega arith)),
          decode_ports-pair_text tcp hl hr,
        )
        refl

  pub decode_token-pair_text :
      (proto : Protocol)
      → IsKnown proto
      → InRange l
      → InRange r
      → decode_token (pair_text ++ protocol_suffix proto)
        ≡ some (record { address = []; local_port = l; remote_port = r; protocol = proto })
  unfolding decode_token protocol_suffix to_protocol to_lower
  decode_token-pair_text tcp known hl hr =
      subst
        (λ t.
          decode_token t
          ≡ some (record { address = []; local_port = l; remote_port = r; protocol = tcp }))
        (sym (append-nil pair_text)) (decode_token-plain hl hr)
  decode_token-pair_text udp known hl hr =
      rw
        (
          decode_token,
          is_nil-pair_text (codes "/udp"),
          cut_last-append b'/' pair_text (codes "udp") (ground arith),
          decode_ports-pair_text udp hl hr,
        )
        refl
  decode_token-pair_text _ known hl hr = elim known [ ]

suffix-Lacks : (proto : Protocol) → IsKnown proto → Lacks b',' (protocol_suffix proto)
unfolding protocol_suffix
suffix-Lacks tcp known = tt
suffix-Lacks udp known = ground arith
suffix-Lacks _ known = elim known [ ]

port_text-pair_text :
    (p : PortPair)
    → port_text p
      ≡ pair_text p.local_port p.remote_port ++ protocol_suffix (normalize_protocol p.protocol)
unfolding port_text pair_text
port_text-pair_text p = simp append_assoc

entry_of-port_text : (p : PortPair) → IsRecordable p → IsEntry (port_text p)
entry_of-port_text p h = rw (port_text-pair_text p) (
  is_nil-pair_text p.local_port p.remote_port _,
  All-append _ (pair_text p.local_port p.remote_port) _
      (pair_text-Lacks p.local_port p.remote_port b',' (λ n. omega arith) (λ e. omega arith))
      (suffix-Lacks _ h.known),
)

decode-port_text :
    (p : PortPair) → IsRecordable p → decode_token (trim_space (port_text p)) ≡ some (recorded p)
decode-port_text p h =
    rw
      (
        port_text-pair_text p,
        trim-pair_text p.local_port p.remote_port _ (suffix-NonSpace _ h.known),
      )
      (decode_token-pair_text p.local_port p.remote_port _ h.known h.local_fits h.remote_fits)

entries : (ps : List PortPair) → All IsRecordable ps → All IsEntry (map port_text ps)
entries [] h = tt
entries (p ∷ ps) h = (entry_of-port_text p h.0, entries ps h.1)

decoded :
    (ps : List PortPair)
    → All IsRecordable ps
    → All (λ p. decode_token (trim_space (port_text p)) ≡ some (recorded p)) ps
decoded [] h = tt
decoded (p ∷ ps) h = (decode-port_text p h.0, decoded ps h.1)

-- The ports label of any list of pairs whose protocols are empty, TCP or UDP and whose ports fit into
-- an `int` is read back as the same pairs in order, without their addresses and with the protocol
-- normalised.
pub decode-encode_port_pairs :
    (ps : List PortPair)
    → All IsRecordable ps
    → decode_port_pairs (encode_port_pairs ps) ≡ map recorded ps
unfolding decode_port_pairs encode_port_pairs
decode-encode_port_pairs ps h =
    decode_list-join (λ tok. decode_token (trim_space tok)) _ (entries ps h)
    ∙ keep_some-map (λ tok. decode_token (trim_space tok)) port_text recorded ps (decoded ps h)
