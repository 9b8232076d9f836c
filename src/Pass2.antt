-- ===== src/Pass2.antt =====
-- go/cmd/spoc2/main.go: the second pass, which optimises the rules of one access list.
pub mod Rules
pub mod Protocol
pub mod Redundant
pub mod Optimize
pub mod Final
pub mod Join
pub mod Supernets
pub mod Order
pub mod Jobs
pub mod Nets
pub mod Combine
pub mod LocalDeny
pub mod Codes
pub mod Bintree
pub mod Groups
