-- ===== src/Pass2/Join/Step.antt =====
-- One step of `joinRanges`: two rules on adjacent ranges become one.
use text.Mathlib.TextEquality.{eq_iff}
use netspoc.Prelude.{
  ℕ, suc, ◌≤◌, ◌<◌, ◌≡◌, inl, inr, refl, sym, ap, subst, ◌∙◌, Bool, true, false, not, ◌&&◌, ◌||◌,
  Option, none, some, List, ◌==◌, ==_iff, leb, arith, Bool-cases, any,
}
use netspoc.Prelude.Bytes.{Bytes, bytes_eq-eq}
use netspoc.Prelude.Count.{count, count→Mem, any_pair}
use netspoc.Pass2.Rules.{CiscoRule}
use netspoc.Pass2.Protocol.{Protos, gen_port_name, get_prt_obj, create_prt_obj}
use netspoc.Pass2.Protocol.Names.{HasPorts, create_prt_obj-gen_port_name}
use netspoc.Pass2.Protocol.Store.{Named, Got, SamePorts, get_prt_obj-Got}
use netspoc.Pass2.Join.{JoinKey, JoinState, prt_of, join_key, key_eq, bool_eq, opt_eq, join_pair}

-- A question to a list of rules: is there one with this key that is in force for this port, and
-- for established connections only or not?
pub record Query : Type 0 where
  pub key : JoinKey
  pub established : Bool
  pub port : ℕ

unfoldable pub answers : Query → JoinState → ℕ → Bool
answers q s r =
    not (s.rule r).deleted
    && key_eq (join_key s r) q.key
    && bool_eq (prt_of s r).established q.established
    && leb (prt_of s r).low q.port
    && leb q.port (prt_of s r).high

-- The names of protocols are in order, and the rules point to protocols in use.
pub record Sound (s : JoinState) : Type 0 where
  pub named : Named s.protos
  pub used : (r : ℕ) → (s.rule r).prt < s.protos.next

-- A rule that may be joined with the rules of its key.
pub record Fit (s : JoinState) (key : JoinKey) (r : ℕ) : Type 0 where
  pub alive : (s.rule r).deleted ≡ false
  pub keyed : join_key s r ≡ key
  pub ports : HasPorts (prt_of s r).protocol
  pub opened : (prt_of s r).established ≡ false
  pub range : (prt_of s r).low ≤ (prt_of s r).high

-- What changes leave alone.
pub record Frame (s s' : JoinState) : Type 0 where
  pub grows : s.protos.next ≤ s'.protos.next
  pub kept : (p : ℕ) → p < s.protos.next → s'.protos.prt p ≡ s.protos.prt p

opt_eq-eq : (a b : Option ℕ) → opt_eq a b ≡ true → a ≡ b
opt_eq-eq none none e = refl
opt_eq-eq none (some q) e = cc
opt_eq-eq (some p) none e = cc
opt_eq-eq (some p) (some q) e = rw ((==_iff p q).0 e) refl

bool_eq-eq : (a b : Bool) → bool_eq a b ≡ true → a ≡ b
bool_eq-eq true b e = sym e
bool_eq-eq false true e = cc
bool_eq-eq false false e = refl

-- The test on keys finds equal keys only.
pub key_eq-eq : (k l : JoinKey) → key_eq k l ≡ true → k ≡ l
unfolding key_eq
key_eq-eq k l e =
    let deny = bool_eq-eq k.deny l.deny (ground arith) in
    let src : k.src ≡ l.src = ground arith in
    let dst : k.dst ≡ l.dst = ground arith in
    let range = opt_eq-eq k.src_range l.src_range (ground arith) in
    let log = (eq_iff k.log l.log).0 (ground arith) in
    let proto = bytes_eq-eq k.proto l.proto (ground arith) in
    λ i. record {
      deny = deny i;
      src = src i;
      dst = dst i;
      src_range = range i;
      log = log i;
      proto = proto i;
    }

-- The union of two adjacent ranges.
merge :
    (k e : Bool) (al ah bl bh x : ℕ)
    → al ≤ ah
    → suc ah ≡ bl
    → bl ≤ bh
    → (k && e && leb al x && leb x ah || k && e && leb bl x && leb x bh)
      ≡ (k && e && leb al x && leb x bh)
merge k e al ah bl bh x le adj le' = ground arith

module _ (s : JoinState) (key : JoinKey) (a b a1 a2 : ℕ) (proto : Bytes) (sound : Sound s)
    (fa : Fit s key a) (fb : Fit s key b) (differ : (a == b) ≡ false)
    (is_proto : (prt_of s a).protocol ≡ proto) (is_low : (prt_of s a).low ≡ a1)
    (is_high : (prt_of s a).high ≡ a2) (adjacent : suc a2 ≡ (prt_of s b).low) where
  abbrev b2 : ℕ
  b2 = (prt_of s b).high

  abbrev name : Bytes
  name = gen_port_name proto a1 b2

  abbrev pub after : JoinState
  after = join_pair proto a b a1 b2 s

  abbrev taken : ℕ × Protos
  taken = get_prt_obj name s.protos

  got : Got name s.protos taken.0 taken.1
  got = get_prt_obj-Got name s.protos sound.named

  pub rule_other : (r : ℕ) → (r == a) ≡ false → (r == b) ≡ false → after.rule r ≡ s.rule r
  unfolding join_pair
  rule_other r ea eb =
      let ea' : (a == r) ≡ false = ground arith in
      let eb' : (b == r) ≡ false = ground arith in rw (ea', eb') refl

  rule_a' : after.rule a ≡ record (s.rule a) { deleted = true }
  unfolding join_pair
  rule_a' =
      let e : (a == a) ≡ true = ground arith in
      let f : (b == a) ≡ false = ground arith in rw (e, f) refl

  rule_a : (after.rule a).deleted ≡ true
  rule_a = ap (λ (x : CiscoRule). x.deleted) rule_a'

  rule_b : after.rule b ≡ record (s.rule b) { prt = taken.0 }
  unfolding join_pair
  rule_b = let e : (b == b) ≡ true = ground arith in rw (differ, e) refl

  protos_after : after.protos ≡ taken.1
  unfolding join_pair
  protos_after = refl

  prt_other : (r : ℕ) → (r == a) ≡ false → (r == b) ≡ false → prt_of after r ≡ prt_of s r
  prt_other r ea eb =
      ap (λ (x : CiscoRule). after.protos.prt x.prt) (rule_other r ea eb)
      ∙ ap (λ (o : Protos). o.prt (s.rule r).prt) protos_after
      ∙ got.kept (s.rule r).prt (sound.used r)

  pub frame : Frame s after
  frame = record { grows = rw protos_after got.grows; kept = rw protos_after got.kept }

  other_answers :
      (q : Query) (r : ℕ) → (r == a) ≡ false → (r == b) ≡ false → answers q s r ≡ answers q after r
  unfolding answers
  other_answers q r ea eb = rw (rule_other r ea eb, prt_other r ea eb) refl

  prt_b : prt_of after b ≡ taken.1.prt taken.0
  prt_b =
      ap (λ (x : CiscoRule). after.protos.prt x.prt) rule_b
      ∙ ap (λ (o : Protos). o.prt taken.0) protos_after

  made :
      let prt = create_prt_obj name in
      (prt.protocol ≡ proto) × (prt.low ≡ a1) × (prt.high ≡ b2) × (prt.established ≡ false)
  made = create_prt_obj-gen_port_name a1 b2 (subst HasPorts is_proto fa.ports)

  ports_b : SamePorts (prt_of after b) (create_prt_obj name)
  ports_b = subst (λ x. SamePorts x (create_prt_obj name)) (sym prt_b) got.ports

  pub proto_after : (prt_of after b).protocol ≡ proto
  proto_after = ports_b.protocol ∙ made.0

  pub low_after : (prt_of after b).low ≡ a1
  low_after = ports_b.low ∙ made.1

  pub high_after : (prt_of after b).high ≡ b2
  high_after = ports_b.high ∙ made.2

  opened_after : (prt_of after b).established ≡ false
  opened_after = ports_b.established ∙ made.3

  pub proto_b : (prt_of s b).protocol ≡ proto
  proto_b = ap (λ (k : JoinKey). k.proto) (fb.keyed ∙ sym fa.keyed) ∙ is_proto

  key_b : join_key after b ≡ join_key s b
  key_b = rw (rule_b, proto_after ∙ sym proto_b) refl

  alive_b : (after.rule b).deleted ≡ false
  alive_b = rw rule_b fb.alive

  pair_answers :
      (q : Query) → (answers q s a || answers q s b) ≡ (answers q after a || answers q after b)
  unfolding answers
  pair_answers q =
      rw
        (
          rule_a, alive_b, key_b, low_after, high_after, opened_after, fa.alive, fb.alive, fa.keyed,
          fb.keyed, fa.opened, fb.opened, is_low, is_high,
        )
        (merge (key_eq key q.key) (not q.established) a1 a2 (prt_of s b).low b2 q.port
          (ground (arith, fa.range, is_low, is_high)) adjacent fb.range)

  -- The rules answer as before.
  pub same_answers :
      (q : Query) (rs : List ℕ)
      → 1 ≤ count a rs
      → 1 ≤ count b rs
      → any (answers q after) rs ≡ any (answers q s) rs
  same_answers q rs ma mb = sym (
      any_pair (answers q s) (answers q after) rs a b (count→Mem a rs ma) (count→Mem b rs mb)
        (other_answers q) (pair_answers q))

  pub Fit-joined : Fit after key b
  Fit-joined = record {
    alive = rw rule_b fb.alive;
    keyed = key_b ∙ fb.keyed;
    ports = subst HasPorts (proto_b ∙ sym proto_after) fb.ports;
    opened = opened_after;
    range =
        rw (low_after, high_after) (ground (arith, fa.range, fb.range, is_low, is_high, adjacent));
  }

  key_other : (r : ℕ) → (r == a) ≡ false → (r == b) ≡ false → join_key after r ≡ join_key s r
  key_other r ea eb = rw (rule_other r ea eb, prt_other r ea eb) refl

  pub Fit-other : (r : ℕ) → (r == a) ≡ false → (r == b) ≡ false → Fit s key r → Fit after key r
  Fit-other r ea eb f = record {
    alive = rw (rule_other r ea eb) f.alive;
    keyed = key_other r ea eb ∙ f.keyed;
    ports = rw (prt_other r ea eb) f.ports;
    opened = rw (prt_other r ea eb) f.opened;
    range = rw (prt_other r ea eb) f.range;
  }

  used_after : (r : ℕ) → (after.rule r).prt < after.protos.next
  used_after r = elim (Bool-cases (r == b)) [
    | inl e ↦ let same = (==_iff r b).0 e in rw (same, rule_b, protos_after) got.used
    | inr eb ↦ elim (Bool-cases (r == a)) [
      | inl e ↦
          let same = (==_iff r a).0 e in
          rw (same, rule_a', protos_after) (omega (arith, sound.used a, got.grows))
      | inr ea ↦ rw (rule_other r ea eb, protos_after) (omega (arith, sound.used r, got.grows))
    ]
  ]

  pub Sound-after : Sound after
  Sound-after = record { named = rw protos_after got.named; used = used_after }
