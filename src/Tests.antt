-- ===== src/Tests.antt =====
-- Runs of the models, and each theorem with hypotheses at an input that meets them.
mod SplitRange
mod Optimize
mod Sorting
mod Protocol
mod Final
mod Join
mod Reverse
mod Scanner
mod Paths
mod Order
mod Nets
mod Jobs
mod Combine
mod LocalDeny
mod Codes
mod Bintree
mod Secondary
mod Adjacent
mod Groups
mod Protocols
mod Icmp
mod Conflict
