-- ===== src/Guest/Firewall/Replies/Install.antt =====
-- `install` of guest/src/firewall.rs: when the boot goes on, and when it stops.
use cargo_unikernel.Common.{
  ◌+◌, ◌^◌, ◌≤◌, ◌<◌, ◌≡◌, ◌≢◌, ap, ◌∙◌, Bool, some, List, ◌∷◌, ◌++◌, length, ok, arith, All, map,
}
use cargo_unikernel.Guest.Firewall.Rules.{Rule}
use cargo_unikernel.Guest.Firewall.Batch.Messages.{batch_msgs, acks_asked, acks_asked-batch_msgs}
use cargo_unikernel.Guest.Firewall.Batch.Refinement.{build_batch-batch_msgs}
use cargo_unikernel.Guest.Firewall.Replies.{
  rejected, saturating_neg, send_batch, after_send, install, installed, install_failed,
}
use cargo_unikernel.Guest.Firewall.Replies.Kernel.{Reply, verdict}
use cargo_unikernel.Guest.Firewall.Replies.Conversation.{
  received, Readable, Acknowledges, total, collect_acks-verdict, verdict-acknowledged,
  verdict-rejected,
}

module _ (ipv6 : Bool) (rules : List Rule) (few : length rules + 15 < 2 ^ 32) where
  -- The batch is built, and the outcome is the verdict on the replies.
  pub install-verdict :
      (groups : List (List Reply))
      → All Readable groups
      → install ipv6 (send_batch (ok tt) (map received groups)) rules
        ≡ after_send (verdict (acks_asked (batch_msgs ipv6 rules)) 0 groups)
  unfolding send_batch install
  install-verdict groups readable =
      rw (install, build_batch-batch_msgs ipv6 rules few)
        (ap after_send (
          collect_acks-verdict (acks_asked (batch_msgs ipv6 rules)) 0 groups readable
            (omega (arith, acks_asked-batch_msgs ipv6 rules))))

  -- For fewer than 2^32 - 15 rules: if the socket opens and takes the batch, and the datagrams that
  -- arrive hold acknowledgements only, in any grouping that fits the buffer and at least as many
  -- as messages ask for one, the filter is installed and the boot goes on.
  pub install-installed :
      (groups : List (List Reply))
      → All Readable groups
      → All Acknowledges groups
      → acks_asked (batch_msgs ipv6 rules) ≤ total groups
      → install ipv6 (send_batch (ok tt) (map received groups)) rules ≡ some installed
  install-installed groups readable acked enough =
      install-verdict groups readable
      ∙ ap after_send (verdict-acknowledged _ 0 groups acked (omega arith))

  -- For fewer than 2^32 - 15 rules: if before enough acknowledgements a datagram has a reply with a
  -- code other than 0, behind acknowledgements only, the boot stops, and names the rejected
  -- message and the code negated.
  pub install-rejected :
      (groups : List (List Reply)) (rs : List Reply) (bad : Reply) (more : List Reply)
      (later : List (List Reply))
      → All Readable (groups ++ (rs ++ bad ∷ more) ∷ later)
      → All Acknowledges groups
      → Acknowledges rs
      → bad.code ≢ 0
      → total groups < acks_asked (batch_msgs ipv6 rules)
      → install ipv6
          (send_batch (ok tt) (map received (groups ++ (rs ++ bad ∷ more) ∷ later)))
          rules
        ≡ some (install_failed (rejected bad.about_seq (saturating_neg bad.code)))
  install-rejected groups rs bad more later readable acked acked_rs failure early =
      install-verdict (groups ++ (rs ++ bad ∷ more) ∷ later) readable
      ∙ ap after_send
          (verdict-rejected _ 0 groups rs bad more later acked acked_rs failure (omega arith))
