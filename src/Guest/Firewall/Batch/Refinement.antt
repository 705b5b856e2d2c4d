-- ===== src/Guest/Firewall/Batch/Refinement.antt =====
-- `build_batch` of guest/src/firewall.rs writes exactly the messages of the specification.
use cargo_unikernel.Guest.Firewall.Batch.Messages.{
  mark_msg, table_msg, chain_msg, number_rules, batch_msgs, acks_asked, acks_asked-batch_msgs,
}
use cargo_unikernel.Common.{
  ℕ, suc, ◌+◌, ◌^◌, ◌<◌, ◌≡◌, refl, ap, ◌∙◌, sym, Bool, List, [], ◌∷◌, ◌++◌, map, ok, arith, length,
  append-nil, subst,
}
use cargo_unikernel.Guest.Firewall.Rules.{Rule}
use cargo_unikernel.Guest.Firewall.NlBuf.{Act, ◌>>=◌, ◌>>◌, pure, default_buf, finish}
use cargo_unikernel.Guest.Firewall.NlBuf.Laws.{Emits, seq, one, nested-Emits1}
use cargo_unikernel.Guest.Firewall.NlBuf.Messages.{
  Sends, message-Sends, bind, andthen, nothing, encode_msgs,
}
use cargo_unikernel.Guest.Firewall.Tlv.{Attrs, encode_attr, encode_attrs, sizes}
use cargo_unikernel.Guest.Firewall.Exprs.Specs.{text, number-Emits1, text-Emits1}
use cargo_unikernel.Guest.Firewall.Batch.{
  tick, rule, add_table, add_chain, icmpv6, icmpv4, configured, rule_loop, batch_mark, write_batch,
  batch_of, build_batch,
}
use cargo_unikernel.Guest.Firewall.Batch.Specs.{
  Small, rule_msg, rule_specs, icmp_spec, configured_spec, loopback-Emits, established-Emits,
  invalid-Emits, icmpv6-Emits, icmpv4-Emits, configured-Emits, fixed_Small, icmp_spec-Small,
  configured_spec-Small,
}
use cargo_unikernel.Guest.Firewall.Uapi.{
  nfnl_msg_batch_end, nfproto_ipv4, nfproto_ipv6, ipproto_icmp, ipproto_icmpv6, table, chain,
  icmpv6_allowed_types, icmpv4_dest_unreach,
}
use cargo_unikernel.Guest.Firewall.Uapi.Nfta

names_size :
    length (encode_attr (text Nfta.rule_table table))
      + length (encode_attr (text Nfta.rule_chain chain))
    ≡ 32
unfolding encode_attr
names_size = refl

rule-Sends :
    {f : Act (Unit {0})} (ipv6 : Bool) (s : ℕ) (xs : Attrs)
    → Small xs
    → Emits f xs
    → Sends (rule ipv6 s f) tt (rule_msg ipv6 s xs ∷ [])
unfolding rule rule_msg
rule-Sends ipv6 s xs h e = message-Sends (rule_msg ipv6 s xs) (omega (sizes, names_size)) (
    seq (text-Emits1 _ _ (omega arith))
      (seq (text-Emits1 _ _ (omega arith)) (one (nested-Emits1 _ xs (omega arith) e))))

mark-Sends : (msg_type s : ℕ) → Sends (batch_mark msg_type s) tt (mark_msg msg_type s ∷ [])
unfolding batch_mark mark_msg encode_attrs
mark-Sends msg_type s =
    message-Sends (mark_msg msg_type s) (omega arith)
      (record { run = λ b h. ap (λ ys. (tt, record b { bytes = ys })) (sym (append-nil b.bytes)) })

table-Sends : (ipv6 : Bool) → Sends (add_table ipv6 2) tt (table_msg ipv6 ∷ [])
unfolding add_table table_msg encode_attr encode_attrs
table-Sends ipv6 =
    message-Sends (table_msg ipv6) (omega arith) (one (text-Emits1 _ _ (omega arith)))

chain-Sends : (ipv6 : Bool) → Sends (add_chain ipv6 3) tt (chain_msg ipv6 ∷ [])
unfolding add_chain chain_msg encode_attr encode_attrs
chain-Sends ipv6 = message-Sends (chain_msg ipv6) (omega arith) (
    seq (text-Emits1 _ _ (omega arith)) (
      seq (text-Emits1 _ _ (omega arith)) (
        seq (nested-Emits1 _ _ (omega arith) (seq (number-Emits1 _ _) (one (number-Emits1 _ _))))
          (seq (number-Emits1 _ _) (one (text-Emits1 _ _ (omega arith)))))))

tick-suc : (s : ℕ) → s + 1 < 2 ^ 32 → tick s ≡ suc s
unfolding tick
tick-suc s h = omega arith

rule_loop-Sends :
    {A : Type 0} (ipv6 : Bool) (body : A → Act (Unit {0})) (spec : A → Attrs)
    → ((x : A) → Small (spec x))
    → ((x : A) → Emits (body x) (spec x))
    → (s : ℕ) (xs : List A) → s + length xs + 1 < 2 ^ 32
    → Sends (rule_loop ipv6 body s xs) (s + length xs) (number_rules ipv6 (suc s) (map spec xs))
unfolding rule_loop number_rules
rule_loop-Sends ipv6 body spec small emits s [] h =
    subst (λ n. Sends (pure s) n []) (omega arith) (nothing s)
rule_loop-Sends ipv6 body spec small emits s (x ∷ xs) h = rw (tick-suc s (omega arith)) (
    subst
      (λ n.
        Sends (rule ipv6 (suc s) (body x) >> rule_loop ipv6 body (suc s) xs) n
          (number_rules ipv6 (suc s) (map spec (x ∷ xs))))
      (omega arith)
      (andthen (rule-Sends ipv6 (suc s) (spec x) (small x) (emits x))
        (rule_loop-Sends ipv6 body spec small emits (suc s) xs (omega arith))))

close-Sends :
    (s n : ℕ)
    → n ≡ suc s
    → n < 2 ^ 32
    → Sends
        (batch_mark nfnl_msg_batch_end (tick s) >> pure (tick s))
        n
        (mark_msg nfnl_msg_batch_end n ∷ [])
close-Sends s n e h =
    rw (let t : tick s ≡ n = tick-suc s (omega arith) ∙ sym e in t)
      (andthen (mark-Sends nfnl_msg_batch_end n) (nothing n))

abbrev close : ℕ → Act ℕ
close s = batch_mark nfnl_msg_batch_end (tick s) >> pure (tick s)

abbrev after_icmpv6 : Bool → List Rule → ℕ → Act ℕ
after_icmpv6 ipv6 rules s =
    rule ipv6 (tick s) icmpv4 >> (rule_loop ipv6 configured (tick s) rules >>= close)

-- The rules after the first three, and the closing message.
write_rest-Sends :
    (ipv6 : Bool) (rules : List Rule)
    → length rules + 15 < 2 ^ 32
    → Sends
        (rule_loop ipv6 icmpv6 6 icmpv6_allowed_types >>= after_icmpv6 ipv6 rules)
        (14 + length rules)
        (number_rules ipv6 7 (
            map (icmp_spec nfproto_ipv6 ipproto_icmpv6) icmpv6_allowed_types
            ++ icmp_spec nfproto_ipv4 ipproto_icmp icmpv4_dest_unreach ∷ map configured_spec rules)
          ++ mark_msg nfnl_msg_batch_end (14 + length rules) ∷ [])
unfolding tick number_rules
write_rest-Sends ipv6 rules h =
    bind (after_icmpv6 ipv6 rules)
      (rule_loop-Sends ipv6 icmpv6 _ (icmp_spec-Small _ _) icmpv6-Emits 6 icmpv6_allowed_types
        (omega arith))
      (andthen (rule-Sends ipv6 13 _ (icmp_spec-Small _ _ _) icmpv4-Emits) (
        bind close
          (rule_loop-Sends ipv6 configured _ configured_spec-Small configured-Emits 13 rules
            (omega arith))
          (close-Sends (13 + length rules) (14 + length rules) (omega arith) (omega arith))))

pub write_batch-Sends :
    (ipv6 : Bool) (rules : List Rule)
    → length rules + 15 < 2 ^ 32
    → Sends (write_batch ipv6 rules) (14 + length rules) (batch_msgs ipv6 rules)
unfolding write_batch tick batch_msgs rule_specs number_rules
write_batch-Sends ipv6 rules h = andthen (mark-Sends _ _) (
    andthen (table-Sends ipv6) (
      andthen (chain-Sends ipv6) (
        andthen (rule-Sends ipv6 4 _ fixed_Small.0 loopback-Emits) (
          andthen (rule-Sends ipv6 5 _ fixed_Small.1 established-Emits) (
            andthen (rule-Sends ipv6 6 _ fixed_Small.2 invalid-Emits)
              (write_rest-Sends ipv6 rules h))))))

-- For fewer than 2^32 - 15 rules, with and without IPv6, the batch is built: its bytes are those of
-- the messages of the specification, each with its attributes nested, padded and measured, and
-- it waits for as many acknowledgements as messages ask for one.
pub build_batch-batch_msgs :
    (ipv6 : Bool) (rules : List Rule)
    → length rules + 15 < 2 ^ 32
    → build_batch ipv6 rules
      ≡ ok (record {
        bytes = encode_msgs (batch_msgs ipv6 rules);
        ackable = acks_asked (batch_msgs ipv6 rules);
      })
unfolding build_batch batch_of finish default_buf
build_batch-batch_msgs ipv6 rules h =
    ap batch_of ((write_batch-Sends ipv6 rules h).run default_buf refl)
    ∙ ap (λ n. ok (record { bytes = encode_msgs (batch_msgs ipv6 rules); ackable = n }))
        (omega (arith, acks_asked-batch_msgs ipv6 rules))
