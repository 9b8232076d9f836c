-- ===== src/Reverse/Answers.antt =====
-- `genReverseRules1` lets the answers pass: for what a rule matches, a reverse rule matches the answer.
use mathlib.Core.List.{Memᴰ}
use netspoc.Prelude.{ℕ, ◌≡◌, ◌⊎◌, Bool, ◌&&◌, List, [], ◌∷◌, ◌==◌, any}
use netspoc.Reverse.{Spoc, GroupedRule}
use netspoc.Reverse.Swap.{Packet, covers, from_range}

-- The rule is for this packet.
unfoldable pub matches : Spoc → GroupedRule → Packet → Bool
matches c r pkt =
    any (λ s. s == pkt.src) r.src
    && any (λ d. d == pkt.dst) r.dst
    && from_range c r.src_range pkt
    && any (λ p. covers (c.prt p) pkt) r.prt

-- The protocol stands in the list for the range.
Has : List (ℕ × List ℕ) → ℕ × ℕ → Type 0
Has [] x = ⊥
Has ((r, ps) ∷ g) x = ((r ≡ x.0) × Memᴰ x.1 ps) ⊎ Has g x
