-- ===== src/Firewall.antt =====
-- ttp/firewall: the nftables table of a session and of an emergency, and what they let through.
pub mod Rule
pub mod Builder
pub mod Nft
pub mod Accepts
pub mod FilterOut
pub mod NatOutput
pub mod Torified
pub mod Emergency
pub mod Samples
pub mod Contract
pub mod Inspect
pub mod Runner
mod Tests
