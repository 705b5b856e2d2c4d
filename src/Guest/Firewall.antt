-- ===== src/Guest/Firewall.antt =====
-- guest/src/firewall.rs: the inbound packet filter, from its baked rules to the netlink batch
-- and the kernel's acknowledgements.
pub mod Rules
pub mod Bytes
pub mod NlBuf
pub mod Uapi
pub mod Exprs
pub mod Batch
pub mod Tlv
pub mod Replies
