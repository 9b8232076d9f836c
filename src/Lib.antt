-- ===== src/Lib.antt =====
-- Netspoc compiles a security policy for a whole network into the access lists of its devices. Pass 1
-- (go/pkg/pass1) reads the policy, finds the path of each rule and distributes the rules to the
-- devices. Pass 2 (go/cmd/spoc2/main.go) reads for each device its rules as JSON, optimises them
-- locally and prints them in the syntax of the device. This library models parts of both. Most of
-- them transform rules, and the question is what becomes of packets.
--
-- Pass 2, in go/cmd/spoc2/main.go, where `prepareACLs` treats the rules of one device:
--   Pass2/Protocol.antt: `createPrtObj` and `getPrtObj`, with `GenPortName` of go/pkg/jcode/types.go,
--     the names by which pass 1 and pass 2 speak of protocols. Pass2/Protocol/Names.antt is
--     about the names, Pass2/Protocol/Store.antt about the map from names to objects.
--   Pass2/Rules.antt: the structs `ipNet`, `proto` and `ciscoRule`. Pointers are numbers into stores, so
--     that rules which are changed in place, and objects which are compared by their addresses, are
--     modelled as such.
--   Pass2/Redundant.antt: the nested maps `ruleTree` and `optimizeRedundantRules`. The loops that
--     climb the `up` pointers run on fuel, the field `depth` of `Objects`, which is enough where no
--     chain of `up` is longer. The statements ask for no particular depth.
--   Pass2/Optimize.antt: `optimizeRules`, with a phase for all rules and one for secondary rules. Its
--     children follow which rules are marked as deleted, and why, up to the verdict on a packet.
--   Pass2/Join.antt: `joinRanges`, over the store of rules and the store of protocols. `sort.Slice` is
--     the interface `SortSlice` of Prelude/Sort.antt. The order in which Go visits a map is not fixed;
--     the model takes the order in which the keys come up.
--   Pass2/Nets.antt: `setupIPNetRelation`, with `createIPObj`, `getIPObj` and `getNet00Addr`. The map
--     of the networks by mask and address is an association list; Pass2/Nets/Maps.antt is about it,
--     Pass2/Nets/Above.antt and Pass2/Nets/Opt.antt about the two loops, which Pass2/Nets/Smallest.antt
--     joins. The parser of addresses is a parameter.
--   Pass2/Order.antt: `orderRanges`, `setupPrtRelation` and `addTCPUDPIcmp`. A position in the sorted
--     ranges is the rest of the list behind it; fuel above the number of ranges is enough for
--     `checkSubrange`, and for the loop that calls it. Pass2/Order/Nested.antt is about
--     `checkSubrange`, Pass2/Order/Linked.antt about the loop, Pass2/Order/Ranges.antt about the sort.
--   Pass2/Combine.antt: `combineAdjacentIPMask`, with the position in the list as a rule between those
--     before it and those behind it. Each round takes a rule away or goes on, and goes back only
--     where it takes one away, so that fuel of twice the number of rules is enough.
--     Pass2/Combine/Halves.antt has the arithmetic, Pass2/Combine/Objects.antt the map by names,
--     Pass2/Combine/Cover.antt one round and Pass2/Combine/Loop.antt the loop.
--   Pass2/Bintree.antt: `addBintree` and `genAddrBintree`, the binary tree of networks for chains of
--     iptables. Pass2/Bintree/Masks.antt has the arithmetic of masks, Pass2/Bintree/Lead.antt what a tree
--     leads to and the merge, Pass2/Bintree/Root.antt the common root, Pass2/Bintree/Added.antt and
--     Pass2/Bintree/Built.antt one node and all, and Pass2/Bintree/Whole.antt the sort before.
--   Pass2/Groups.antt: `getGroup` of `findObjectgroups`, which reuses a group with identical elements.
--     Pass2/Groups/Subset.antt compares lists, Pass2/Groups/Found.antt is about the group that is found.
--   Pass2/LocalDeny.antt: `createGroup` and `addLocalDenyRules`. Pass2/LocalDeny/Denied.antt reads the
--     rules as a device does, where an object is a network or a group of networks.
--   Pass2/Supernets.antt: `markSupernetsOfNeedProtect`, whose loop runs on fuel that the longest chain
--     of networks bounds.
--   Pass2/Final.antt: `moveRulesEspAh`, `addProtectRules`, `checkFinalPermit` and
--     `addFinalPermitDenyRule`. Pass2/Final/Match.antt says what a device does with
--     a list, Pass2/Final/Ended.antt what the last rule does.
--   Pass2/Codes.antt: `ciscoPrtCode`, `iptablesPrtCode` and `getCiscoAction`. Pass2/Codes/Ports.antt reads
--     the codes of ports as a device does.
--   Pass2/Jobs.antt: `applyConcurrent`, which runs the pass for each device, as a relation of steps:
--     the function itself, and the jobs that send their results to a channel with bounded room.
--     Pass2/Jobs/Count.antt is about one step, Pass2/Jobs/Finished.antt about whole runs.
--
-- Pass 1, in go/pkg/pass1:
--   SplitRange.antt: `splitIpRange` of convert-hosts.go, which splits a range of addresses into
--     networks, with numbers of 64 bits that wrap round. The loops run on fuel: 65 masks are tried for
--     one block, and a range of n addresses has at most n blocks.
--   Protocols.antt: `expandSplitProtocol` and `classifyProtocols` of protocol.go. The recursion over the
--     parts of a range runs on fuel of the number of its ports. Protocols/Parts.antt is about the parts,
--     Protocols/Classified.antt and Protocols/Whole.antt about the classes.
--   Protocols/Icmp.antt: `orderIcmp` and `orderProto` of order-protocols.go. Protocols/Icmp/Assigned.antt is
--     about the second loop of `orderIcmp`, Protocols/Icmp/Smallest.antt about the first one, and
--     Protocols/Icmp/Larger.antt about both.
--   Adjacent.antt: `combineSubnets` of convert-hosts.go, on fuel above the sum of all prefixes: a subnet
--     that takes the place of another one has a shorter prefix. Adjacent/Cover.antt is about one
--     combination, Adjacent/Pass.antt about the rounds, Adjacent/Whole.antt about addresses.
--   Secondary.antt: `markSecondary` and `markPrimary` of mark-secondary-rules.go, and the loop over all
--     zones. The recursion runs on fuel, of one more than there are zones. Secondary/Grown.antt says how
--     marks grow, Secondary/Visit.antt and Secondary/Zone.antt follow the calls,
--     Secondary/Marked.antt and Secondary/Loop.antt the loop. Secondary/Conflict.antt: `collectConflict`
--     of the same file; Secondary/Conflict/Collected.antt is about the loop over objects,
--     Secondary/Conflict/Side.antt and Secondary/Conflict/Noted.antt about the loop over networks.
--   Reverse.antt: `genReverseRules1` of reverse-rules.go. Which routers a path crosses is a parameter.
--   Duplicates.antt: `removeSimpleDuplicateRules` of remove-dupl-rules.go. Duplicates/Simple.antt is about
--     the rules that have keys, Duplicates/Kept.antt about the rules that are left.
--   Paths.antt: group-path-rules.go, with `getPathNode` of path-walk.go and `getZone` and `zoneEq` of
--     check-supernet.go. Rules are split by the paths of their elements; those inside one zone are taken
--     out and noted at their service. Paths/PrevIp.antt is about `prevIP`, Paths/Split.antt and
--     Paths/Enforce.antt about the two steps, Paths/Zones.antt about the zones of objects, Paths/Pairs.antt
--     about pairs of objects and Paths/Apart.antt about both steps together.
--   Scanner.antt: go/pkg/scanner/scanner.go, which the parser draws its tokens from. A call returns, ends
--     the program with an error, or is out of fuel. Scanner/Reference.antt says on the text that
--     is left what the scanner does on its offsets, and Scanner/Tokens.antt joins the two; fuel for
--     two rounds more than there are bytes is enough.
--
-- Prelude.antt and its children hold what the parts share: tests on numbers, lists, association lists,
-- texts as bytes with decimal numbers, sorts, lists without duplicates. Tests.antt and its children hold
-- runs on concrete input, and a concrete sort.
--
-- Not modelled: the parser and the syntax tree, the setup of objects, zones, NAT, paths and routes,
-- and the checks of pass 1, which work on the whole topology; of the files above, `convertHosts`,
-- `checkConflict` and `orderRanges` of pass 1, which splits ranges that overlap; in pass 2 the loops of
-- `findObjectgroups` around `getGroup`, the chains that are made from binary trees, and most of the
-- printing. Files, JSON and messages are left out.
pub mod Prelude
pub mod SplitRange
pub mod Pass2
pub mod Reverse
pub mod Duplicates
pub mod Paths
pub mod Scanner
pub mod Secondary
pub mod Adjacent
pub mod Protocols
mod Tests
