-- ===== src/Agreement/Firewall.antt =====
-- `[network.firewall].inbound` from the config to the guest's rules.
pub mod Solid
use cargo_unikernel.Common.{
  ℕ, ◌≤◌, ◌≡◌, refl, ap, inl, inr, false, ◌&&◌, not, Option, none, some, List, [], ◌∷◌, Bool-cases,
  Option-cases, arith, ok, traverse, for_each, map, All,
}
use cargo_unikernel.Std.Text.{
  Text, codes, text_eq, text_eq_iff, contains, contains-append, Lack, split_once, split_once-append,
  split_once-eq,
}
use cargo_unikernel.Std.Decimal.{parse_uint, parse_uint-le, parse_uint-Lacks}
use cargo_unikernel.Schema.Types.{InboundPorts}
use cargo_unikernel.Schema.Validate.Entries.{check_inbound, check_port_range, port_ends, u16_max}
use cargo_unikernel.Pipeline.Wire.{inbound_text, encode_inbound}
use cargo_unikernel.Guest.Firewall.Rules.{
  Rule, protocol_number, range_ends, rule_of_range, parse_rule, parse_rules,
}
use cargo_unikernel.Agreement.Lists.{NonEmpty, NonEmpty-append, pieces-join, for_each-All}

-- What the rule of an entry has to be.
pub record RuleFor (e : InboundPorts) (r : Rule) : Type 0 where
  pub protocol : protocol_number e.proto ≡ some r.protocol
  pub first : parse_uint u16_max (port_ends e.ports).0 ≡ some r.first_port
  pub last : parse_uint u16_max (port_ends e.ports).1 ≡ some r.last_port
  pub positive : 1 ≤ r.first_port
  pub ordered : r.first_port ≤ r.last_port
  pub bounded : r.last_port ≤ u16_max

abbrev pub RulesFor : List InboundPorts → List Rule → Type 0
RulesFor [] [] = Unit
RulesFor (e ∷ es) (r ∷ rs) = RuleFor e r × RulesFor es rs
RulesFor _ _ = ⊥

check_port_range-Range :
    (ports : Text) (first last : Option ℕ)
    → check_port_range ports first last ≡ ok tt
    → (f : ℕ) × (l : ℕ) × (first ≡ some f) × (last ≡ some l) × (1 ≤ f) × (f ≤ l)
unfolding check_port_range
check_port_range-Range ports (some f) (some l) h = (f, l, refl, refl, ground arith, ground arith)
check_port_range-Range ports (some f) none h = absurd (cc)
check_port_range-Range ports none last h = absurd (cc)

known_proto :
    (proto : Text)
    → (not (text_eq proto (codes "tcp")) && not (text_eq proto (codes "udp"))) ≡ false
    → (p : ℕ) × (protocol_number proto ≡ some p) × Lack b';' proto × Lack b':' proto
unfolding protocol_number text_eq contains
known_proto proto h = elim (Bool-cases (text_eq proto (codes "tcp"))) [
  | inl tcp ↦ named (codes "tcp") 6 ((text_eq_iff proto (codes "tcp")).0 tcp) refl refl refl
  | inr other ↦
      named (codes "udp") 17 ((text_eq_iff proto (codes "udp")).0 (ground arith)) refl refl refl
]
  where
    named :
        (name : Text) (p : ℕ)
        → proto ≡ name
        → protocol_number name ≡ some p
        → Lack b';' name
        → Lack b':' name
        → (p : ℕ) × (protocol_number proto ≡ some p) × Lack b';' proto × Lack b':' proto
    named name p e n l k = (p, rw e n, rw e l, rw e k)

check_inbound-RuleFor :
    (e : InboundPorts)
    → check_inbound e ≡ ok tt
    → (r : Rule) × RuleFor e r × Lack b';' e.proto × Lack b':' e.proto
unfolding check_inbound
check_inbound-RuleFor e h =
    let (p, protocol, l, k) = known_proto e.proto (ground arith) in
    let (first_port, last_port, first, last, positive, ordered) =
      check_port_range-Range e.ports _ _ (ground arith) in
    (
      record { protocol = p; first_port = first_port; last_port = last_port },
      record {
        protocol = protocol;
        first = first;
        last = last;
        positive = positive;
        ordered = ordered;
        bounded = parse_uint-le u16_max (port_ends e.ports).1 last_port last;
      },
      l,
      k,
    )

-- The guest cuts a port range where the host did.
range_ends-port_ends : (ports : Text) → range_ends ports ≡ port_ends ports
unfolding range_ends port_ends
range_ends-port_ends ports = refl

ports-Lack : (e : InboundPorts) (r : Rule) → RuleFor e r → Lack b';' e.ports
unfolding port_ends contains
ports-Lack e r f = elim (Option-cases (split_once b'-' e.ports)) [
  | inl whole ↦
      rw (whole, port_ends) at (parse_uint-Lacks u16_max b';' _ r.first_port refl refl f.first)
  | inr ((a, b), cut) ↦ ground (
    arith,
    ap (contains b';') (split_once-eq b'-' e.ports a b cut).0,
    contains-append b';' a (b'-' ∷ b),
    parse_uint-Lacks u16_max b';' a r.first_port refl refl (rw (cut, port_ends) at f.first),
    parse_uint-Lacks u16_max b';' b r.last_port refl refl (rw (cut, port_ends) at f.last),
  )
]

parse_rule-inbound_text :
    (e : InboundPorts) (r : Rule)
    → RuleFor e r
    → Lack b':' e.proto
    → parse_rule (inbound_text e) ≡ ok r
unfolding parse_rule inbound_text rule_of_range
parse_rule-inbound_text e r f k =
    rw
      (
        split_once-append b':' e.proto e.ports k,
        f.protocol,
        range_ends-port_ends e.ports,
        f.first,
        f.last,
      )
      (ground arith)

inbound_text-Lack :
    (e : InboundPorts) (r : Rule) → RuleFor e r → Lack b';' e.proto → Lack b';' (inbound_text e)
unfolding inbound_text contains
inbound_text-Lack e r f l =
    ground (arith, contains-append b';' e.proto (b':' ∷ e.ports), ports-Lack e r f)

-- Checked entries are read by the guest, and the `;` that joins them stands in none.
parse_inbound :
    (es : List InboundPorts)
    → All (λ e. check_inbound e ≡ ok tt) es
    → (rs : List Rule) × RulesFor es rs
      × (traverse parse_rule (map inbound_text es) ≡ ok rs)
      × All (Lack b';') (map inbound_text es)
      × All NonEmpty (map inbound_text es)
unfolding traverse inbound_text
parse_inbound [] _ = ([], tt, refl, tt, tt)
parse_inbound (e ∷ es) (h, hs) =
    let (r, f, l, k) = check_inbound-RuleFor e h in
    let (rs, fs, read, lacks, full) = parse_inbound es hs in
    (
      r ∷ rs,
      (f, fs),
      rw (parse_rule-inbound_text e r f k, read),
      (inbound_text-Lack e r f l, lacks),
      (NonEmpty-append e.proto b':' e.ports, full),
    )

-- Every list of entries that passes `check_inbound` reaches the guest as exactly its rules.
pub parse_rules-encode_inbound :
    (es : List InboundPorts)
    → for_each check_inbound es ≡ ok tt
    → (rs : List Rule) × (parse_rules (encode_inbound es) ≡ ok rs) × RulesFor es rs
unfolding parse_rules encode_inbound
parse_rules-encode_inbound es h =
    let (rs, fs, read, lacks, full) = parse_inbound es (for_each-All check_inbound es h) in
    (rs, rw (pieces-join (map inbound_text es) lacks full) read, fs)
