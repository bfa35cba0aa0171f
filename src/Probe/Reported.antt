-- ===== src/Probe/Reported.antt =====
-- internal/probe.go: which listeners `ExtractListeners` reports.
use docker_port_forward.Probe.Ports.{IsListener, scan_lines-All}
use docker_port_forward.Common.{
  All, ◌∙◌, int_eq_sound, ◌≡◌, refl, Bool, true, false, ◌||◌, Option, none, some, List, [], ◌∷◌,
  if◌then◌else◌, any, arith, Bool-cases, Option-cases, inl, inr, is_nil, ap,
}
use docker_port_forward.Probe.Listeners.{
  extract_listeners, Listener, listener_eq, mem_listener, add_listener, scan_lines, section_of,
  read_entry,
}
use docker_port_forward.Probe.Sorted.{
  IsAscending, mem-sort, sort-IsAscending, IsListed, sort-All, IsDistinct,
}
use docker_port_forward.Text.{split, text_eq_sound, Text, trim_space}
use docker_port_forward.Ports.{Protocol, unset, tcp, udp, other, protocol_eq}

-- The entries of the text, each with the protocol of the section that it stands in.
unfoldable pub entries : Protocol → List Text → List (Protocol × Text)
entries current [] = []
entries current (raw ∷ lines) =
    let line = trim_space raw in
    let same = entries current lines in
    if is_nil line
    then same
    else elim (section_of line) [ some p ↦ entries p lines | none ↦ (current, line) ∷ same ]

abbrev pub is_listener : Listener → Option Listener → Bool
is_listener l none = false
is_listener l (some m) = listener_eq l m

abbrev pub reports : Listener → Protocol × Text → Bool
reports l (current, line) = is_listener l (read_entry current line)

protocol_eq_sound : (s t : Protocol) → protocol_eq s t ≡ true → s ≡ t
unfolding protocol_eq
protocol_eq_sound unset unset h = refl
protocol_eq_sound tcp tcp h = refl
protocol_eq_sound udp udp h = refl
protocol_eq_sound (other s) (other t) h = ap other (text_eq_sound s t h)
protocol_eq_sound s t h = cc

listener_eq_sound : (l m : Listener) → listener_eq l m ≡ true → l ≡ m
unfolding listener_eq
listener_eq_sound l m h =
    let ports = int_eq_sound l.port m.port (ground arith) in
    let protocols = protocol_eq_sound l.protocol m.protocol (ground arith) in
    λ i. record { port = ports i; protocol = protocols i }

mem_of_eq :
    (l m : Listener) (seen : List Listener)
    → mem_listener m seen ≡ true
    → listener_eq l m ≡ true
    → mem_listener l seen ≡ true
mem_of_eq l m seen h e = rw (listener_eq_sound l m e) h

pub mem-add_listener :
    (l : Listener) (o : Option Listener) (seen : List Listener)
    → mem_listener l (add_listener o seen) ≡ mem_listener l seen || is_listener l o
unfolding add_listener
mem-add_listener l none seen = ground arith
mem-add_listener l (some m) seen = elim (Bool-cases (mem_listener m seen)) [
  | inl old ↦ rw old (ground (arith, mem_of_eq l m seen old))
  | inr new ↦ rw new (ground arith)
]

mem-scan_lines :
    (l : Listener) (lines : List Text) (current : Protocol) (seen : List Listener)
    → mem_listener l (scan_lines current seen lines)
      ≡ mem_listener l seen || any (reports l) (entries current lines)
unfolding scan_lines entries
mem-scan_lines l [] current seen = ground arith
mem-scan_lines l (raw ∷ lines) current seen = elim (Bool-cases (is_nil (trim_space raw))) [
  | inl blank ↦ rw blank (mem-scan_lines l lines current seen)
  | inr text ↦ elim (Option-cases (section_of (trim_space raw))) [
    | inl entry ↦
        rw
          (
            text,
            entry,
            mem-scan_lines l lines current
                (add_listener (read_entry current (trim_space raw)) seen),
            mem-add_listener l (read_entry current (trim_space raw)) seen,
          )
          (ground arith)
    | inr (p, marker) ↦ rw (text, marker) (mem-scan_lines l lines p seen)
  ]
]

pub add_listener-IsDistinct :
    (o : Option Listener) (seen : List Listener)
    → IsDistinct seen
    → IsDistinct (add_listener o seen)
unfolding add_listener
add_listener-IsDistinct none seen h = h
add_listener-IsDistinct (some m) seen h = elim (Bool-cases (mem_listener m seen)) [
  | inl old ↦ rw old h
  | inr new ↦ rw new (new, h)
]

scan_lines-IsDistinct :
    (lines : List Text) (current : Protocol) (seen : List Listener)
    → IsDistinct seen
    → IsDistinct (scan_lines current seen lines)
unfolding scan_lines
scan_lines-IsDistinct [] current seen h = h
scan_lines-IsDistinct (raw ∷ lines) current seen h = elim (Bool-cases (is_nil (trim_space raw))) [
  | inl blank ↦ rw blank (scan_lines-IsDistinct lines current seen h)
  | inr text ↦ elim (Option-cases (section_of (trim_space raw))) [
    | inl entry ↦
        rw (text, entry)
          (scan_lines-IsDistinct lines current _
            (add_listener-IsDistinct (read_entry current (trim_space raw)) seen h))
    | inr (p, marker) ↦ rw (text, marker) (scan_lines-IsDistinct lines p seen h)
  ]
]

IsListed-all : (ls : List Listener) → All IsListener ls → All IsListed ls
IsListed-all [] h = tt
IsListed-all (l ∷ ls) h = (h.0.0, IsListed-all ls h.1)

-- The text of the probe is turned into the listeners that its entries report, each entry read under
-- the protocol of its section and no entry before the first marker: a listener is in the result
-- exactly when an entry reports it. The result is in strictly ascending order, TCP before UDP and
-- then by port, so nothing is in it twice; and every port is above zero.
pub extract_listeners_lem :
    (text : Text)
    → ((l : Listener)
        → mem_listener l (extract_listeners text) ≡ any (reports l) (entries unset (split 10 text)))
      × IsAscending (extract_listeners text)
      × All IsListener (extract_listeners text)
unfolding extract_listeners
extract_listeners_lem text =
    let lines = split 10 text in
    let all = scan_lines-All lines unset [] tt tt in
    (
      (λ l. mem-sort l (scan_lines unset [] lines) ∙ mem-scan_lines l lines unset []),
      sort-IsAscending _ (IsListed-all _ all) (scan_lines-IsDistinct lines unset [] tt),
      sort-All IsListener _ all,
    )
