-- ===== src/Secondary/Linked.antt =====
-- Zones that are connected by routers of one kind.
use mathlib.Core.List.{Memᴰ}
use netspoc.Prelude.{ℕ, ◌≡◌, sym, subst, Bool, true, false}
use netspoc.Secondary.{Topology}

-- Interfaces are in the lists of their zone and of their router, and those of no other.
pub record Wired (t : Topology) : Type 0 where
  pub of_zone :
      (z i : ℕ)
      → Memᴰ i (t.zone_interfaces z)
      → (t.zone_of i ≡ z) × Memᴰ i (t.router_interfaces (t.router_of i))
  pub of_router :
      (r o : ℕ)
      → Memᴰ o (t.router_interfaces r)
      → (t.router_of o ≡ r) × Memᴰ o (t.zone_interfaces (t.zone_of o))

module _ (t : Topology) (passes : ℕ → Bool) where
  -- The zone `w` is at a router of this kind that `v` is at. Secondary addresses do not count.
  pub record Next (v w : ℕ) : Type 0 where
    pub enter : ℕ
    pub leave : ℕ
    pub entered : Memᴰ enter (t.zone_interfaces v)
    pub left : Memᴰ leave (t.router_interfaces (t.router_of enter))
    pub enter_main : t.has_main enter ≡ false
    pub leave_main : t.has_main leave ≡ false
    pub open_router : passes (t.router_of enter) ≡ true
    pub zone : t.zone_of leave ≡ w

  pub data Linked : ℕ → ℕ → Type 0 where
    here : {v : ℕ} → Linked v v
    on : {v w u : ℕ} → Linked v w → Next w u → Linked v u

  pub Linked-trans : {v w u : ℕ} → Linked v w → Linked w u → Linked v u
  Linked-trans l Linked.here = l
  Linked-trans l (Linked.on k n) = Linked.on (Linked-trans l k) n

  Next-back : Wired t → (v w : ℕ) → Next v w → Next w v
  Next-back wired v w n =
      let (z, m) = wired.of_zone v n.enter n.entered in
      let (r, k) = wired.of_router (t.router_of n.enter) n.leave n.left in
      record {
        enter = n.leave;
        leave = n.enter;
        entered = subst (λ u. Memᴰ n.leave (t.zone_interfaces u)) n.zone k;
        left = subst (λ u. Memᴰ n.enter (t.router_interfaces u)) (sym r) m;
        enter_main = n.leave_main;
        leave_main = n.enter_main;
        open_router = subst (λ u. passes u ≡ true) (sym r) n.open_router;
        zone = z;
      }

  pub Linked-back : Wired t → {v w : ℕ} → Linked v w → Linked w v
  Linked-back wired Linked.here = Linked.here
  Linked-back wired (Linked.on {v} {w} {u} l n) =
      Linked-trans (Linked.on Linked.here (Next-back wired w u n)) (Linked-back wired l)
