-- ===== src/Examples/Filter.antt =====
-- The theorems on the packet filter, at concrete rules and replies.
use cargo_unikernel.Common.{
  ℕ, ◌+◌, ◌≡◌, ◌^◌, suc, zero, ◌≤◌, ◌<◌, refl, true, List, [], ◌∷◌, length, map, All, some, ok,
  arith,
}
use cargo_unikernel.Guest.Firewall.Rules.{Rule}
use cargo_unikernel.Guest.Firewall.NlBuf.Messages.{encode_msgs}
use cargo_unikernel.Guest.Firewall.Batch.{build_batch}
use cargo_unikernel.Guest.Firewall.Batch.Messages.{batch_msgs, acks_asked, acks_asked-batch_msgs}
use cargo_unikernel.Guest.Firewall.Batch.Refinement.{build_batch-batch_msgs}
use cargo_unikernel.Guest.Firewall.Replies.{
  rejected, send_batch, install, installed, install_failed,
}
use cargo_unikernel.Guest.Firewall.Replies.Kernel.{Reply, Fits, encode_reply, encode_replies}
use cargo_unikernel.Guest.Firewall.Replies.Conversation.{received, Readable, Acknowledges, total}
use cargo_unikernel.Guest.Firewall.Replies.Install.{install-installed, install-rejected}

abbrev https : List Rule
https = record { protocol = 6; first_port = 443; last_port = 443 } ∷ []

https_few : length https + 15 < 2 ^ 32
https_few = omega arith

build_batch-batch_msgs_example :
    build_batch true https
    ≡ ok (record {
      bytes = encode_msgs (batch_msgs true https);
      ackable = acks_asked (batch_msgs true https);
    })
build_batch-batch_msgs_example = build_batch-batch_msgs true https https_few

-- What the kernel answers to the message with the number: an acknowledgement, or an error.
abbrev reply_to : ℕ → ℕ → Reply
reply_to seq code = record {
  flags = 0;
  seq = seq;
  port = 0;
  code = code;
  about_len = 20;
  about_type = 2566;
  about_flags = 0x0C05;
  about_seq = seq;
  about_port = 0;
  about_rest = [];
}

reply_to-Fits : (seq code : ℕ) → seq < 2 ^ 32 → code < 2 ^ 32 → Fits (reply_to seq code)
reply_to-Fits seq code s c = record { small = omega arith; code_32 = c; seq_32 = s }

-- Acknowledgements of consecutive messages.
abbrev acks : ℕ → ℕ → List Reply
acks seq zero = []
acks seq (suc n) = reply_to seq 0 ∷ acks (suc seq) n

acks-Fits : (seq n : ℕ) → seq + n < 2 ^ 32 → All Fits (acks seq n)
acks-Fits seq zero h = tt
acks-Fits seq (suc n) h =
    (reply_to-Fits seq 0 (omega arith) (omega arith), acks-Fits (suc seq) n (omega arith))

acks-Acknowledges : (seq n : ℕ) → Acknowledges (acks seq n)
acks-Acknowledges seq zero = tt
acks-Acknowledges seq (suc n) = (refl, acks-Acknowledges (suc seq) n)

-- Thirteen, in two datagrams.
abbrev first_acks : List Reply
first_acks = acks 2 7

abbrev last_acks : List Reply
last_acks = acks 9 6

first_acks-Readable : Readable first_acks
unfolding encode_replies encode_reply
first_acks-Readable = record { fits = acks-Fits 2 7 (omega arith); short = omega arith }

last_acks-Readable : Readable last_acks
unfolding encode_replies encode_reply
last_acks-Readable = record { fits = acks-Fits 9 6 (omega arith); short = omega arith }

enough_acks : acks_asked (batch_msgs true https) ≤ total (first_acks ∷ last_acks ∷ [])
unfolding total
enough_acks = omega (arith, acks_asked-batch_msgs true https)

install-installed_example :
    install true (send_batch (ok tt) (map received (first_acks ∷ last_acks ∷ []))) https
    ≡ some installed
install-installed_example =
    install-installed true https https_few (first_acks ∷ last_acks ∷ [])
      (first_acks-Readable, (last_acks-Readable, tt))
      (acks-Acknowledges 2 7, (acks-Acknowledges 9 6, tt)) enough_acks

-- EINVAL, as the two's complement of -22, for message 9.
abbrev refusal : Reply
refusal = reply_to 9 4294967274

refusal-Readable : Readable (refusal ∷ [])
unfolding encode_replies encode_reply
refusal-Readable = record {
  fits = (reply_to-Fits 9 4294967274 (omega arith) (omega arith), tt);
  short = omega arith;
}

early_refusal : total (first_acks ∷ []) < acks_asked (batch_msgs true https)
unfolding total
early_refusal = omega (arith, acks_asked-batch_msgs true https)

install-rejected_example :
    install true (send_batch (ok tt) (map received (first_acks ∷ (refusal ∷ []) ∷ []))) https
    ≡ some (install_failed (rejected 9 22))
install-rejected_example =
    install-rejected true https https_few (first_acks ∷ []) [] refusal [] []
      (first_acks-Readable, (refusal-Readable, tt)) (acks-Acknowledges 2 7, tt) tt (omega arith)
      early_refusal
