-- ===== src/Pass2/Protocol/Store.antt =====
-- `getPrtObj` keeps the map from names to objects in order.
use netspoc.Prelude.{
  ℕ, ◌≤◌, ◌<◌, ◌≡◌, inl, inr, refl, sym, ◌∙◌, subst, true, false, none, some, ◌==◌, arith,
  Bool-cases, Option-cases,
}
use netspoc.Prelude.Bytes.{Bytes, bytes_eq, bytes_eq-eq, bytes_eq_refl}
use netspoc.Pass2.Rules.{Proto}
use netspoc.Pass2.Protocol.Names.{HasPorts, IsPorts, create_prt_obj-gen_port_name}
use netspoc.Pass2.Protocol.{
  gen_port_name, create_prt_obj, Protos, find_name, known_or_new, get_prt_obj,
}

-- Two protocols have the same protocol and ports.
pub record SamePorts (p q : Proto) : Type 0 where
  pub protocol : p.protocol ≡ q.protocol
  pub low : p.low ≡ q.low
  pub high : p.high ≡ q.high
  pub established : p.established ≡ q.established

pub SamePorts-refl : (p : Proto) → SamePorts p p
SamePorts-refl p = record { protocol = refl; low = refl; high = refl; established = refl }

-- What stands under a name is in use, and has the protocol and the ports that the name says.
pub record Named (s : Protos) : Type 0 where
  pub used : (name : Bytes) (p : ℕ) → find_name name s.names ≡ some p → p < s.next
  pub ports :
      (name : Bytes) (p : ℕ)
      → find_name name s.names ≡ some p
      → SamePorts (s.prt p) (create_prt_obj name)

-- What a caller gets: an object as its name says, which is stored under the name and is got again with
-- the next call. For the name of a range of TCP or UDP ports it has that protocol and that range. The
-- objects in use and the other names are as they were.
pub record Got (name : Bytes) (s : Protos) (p : ℕ) (s' : Protos) : Type 0 where
  pub named : Named s'
  pub used : p < s'.next
  pub grows : s.next ≤ s'.next
  pub ports : SamePorts (s'.prt p) (create_prt_obj name)
  pub kept : (q : ℕ) → q < s.next → s'.prt q ≡ s.prt q
  pub stored : find_name name s'.names ≡ some p
  pub others :
      (other : Bytes)
      → bytes_eq name other ≡ false
      → find_name other s'.names ≡ find_name other s.names
  pub again : get_prt_obj name s' ≡ (p, s')
  pub described :
      (protocol : Bytes) (v1 v2 : ℕ)
      → HasPorts protocol
      → name ≡ gen_port_name protocol v1 v2
      → IsPorts protocol v1 v2 (s'.prt p)

found_again :
    (name : Bytes) (p : ℕ) (s : Protos)
    → find_name name s.names ≡ some p
    → get_prt_obj name s ≡ (p, s)
unfolding get_prt_obj known_or_new
found_again name p s e = rw e refl

-- An object as its name says has the ports that the name is made of.
described_ports :
    (name : Bytes) (prt : Proto)
    → SamePorts prt (create_prt_obj name)
    → (protocol : Bytes) (v1 v2 : ℕ) → HasPorts protocol
    → name ≡ gen_port_name protocol v1 v2
    → IsPorts protocol v1 v2 prt
unfolding IsPorts
described_ports name prt same protocol v1 v2 ports e =
    let read : IsPorts protocol v1 v2 (create_prt_obj name) =
      subst (λ n. IsPorts protocol v1 v2 (create_prt_obj n)) (sym e)
        (create_prt_obj-gen_port_name v1 v2 ports) in
    (same.protocol ∙ read.0, same.low ∙ read.1, same.high ∙ read.2, same.established ∙ read.3)

module _ (name : Bytes) (s : Protos) (named : Named s) where
  abbrev grown : Protos
  grown = (known_or_new name none s).1

  grown-prt_old : (q : ℕ) → q < s.next → grown.prt q ≡ s.prt q
  unfolding known_or_new
  grown-prt_old q lt = let ne : (s.next == q) ≡ false = ground arith in rw ne refl

  grown-prt_new : grown.prt s.next ≡ create_prt_obj name
  unfolding known_or_new
  grown-prt_new = let eq : (s.next == s.next) ≡ true = ground arith in rw eq refl

  grown-used : (name' : Bytes) (p : ℕ) → find_name name' grown.names ≡ some p → p < grown.next
  unfolding known_or_new
  grown-used name' p e = elim (Bool-cases (bytes_eq name name')) [
    | inl t ↦ ground arith
    | inr f ↦ let lt = named.used name' p (ground arith) in ground arith
  ]

  grown-ports :
      (name' : Bytes) (p : ℕ)
      → find_name name' grown.names ≡ some p
      → SamePorts (grown.prt p) (create_prt_obj name')
  unfolding known_or_new
  grown-ports name' p e = elim (Bool-cases (bytes_eq name name')) [
    | inl t ↦
        let at_new : s.next ≡ p = ground arith in
        rw (sym at_new, grown-prt_new, bytes_eq-eq name name' t)
          (SamePorts-refl (create_prt_obj name'))
    | inr f ↦
        let found : find_name name' s.names ≡ some p = ground arith in
        rw (grown-prt_old p (named.used name' p found)) (named.ports name' p found)
  ]

  grown-stored : find_name name grown.names ≡ some s.next
  unfolding known_or_new
  grown-stored = rw (bytes_eq_refl name) refl

  grown-others :
      (other : Bytes)
      → bytes_eq name other ≡ false
      → find_name other grown.names ≡ find_name other s.names
  unfolding known_or_new
  grown-others other e = rw e refl

  grown-same : SamePorts (grown.prt s.next) (create_prt_obj name)
  grown-same = rw grown-prt_new (SamePorts-refl (create_prt_obj name))

  -- Where each name in the map leads to an object in use that is as the name says, `getPrtObj` keeps
  -- it so. It returns an object that has the protocol and the ports of its name, and for a name that
  -- `GenPortName` makes for TCP or UDP these are the protocol and the range it was made of. The
  -- object is stored under the name, so that the same call again returns the same object and changes
  -- nothing. No object in use is changed, and no other name leads elsewhere.
  pub get_prt_obj-Got : let (p, s') = get_prt_obj name s in Got name s p s'
  unfolding get_prt_obj
  get_prt_obj-Got = elim (Option-cases (find_name name s.names)) [
    | inl e ↦ rw e record {
      named = record { used = grown-used; ports = grown-ports };
      used = omega arith;
      grows = omega arith;
      ports = grown-same;
      kept = grown-prt_old;
      stored = grown-stored;
      others = grown-others;
      again = found_again name s.next grown grown-stored;
      described = described_ports name (grown.prt s.next) grown-same;
    }
    | inr (p, e) ↦ rw e record {
      named = named;
      used = named.used name p e;
      grows = omega arith;
      ports = named.ports name p e;
      kept = λ q lt. refl;
      stored = e;
      others = λ n ne. refl;
      again = found_again name p s e;
      described = described_ports name (s.prt p) (named.ports name p e);
    }
  ]
