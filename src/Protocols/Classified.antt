-- ===== src/Protocols/Classified.antt =====
-- `classifyProtocols`: which packets the classes match.
use netspoc.Prelude.{
  ℕ, ◌≡◌, refl, sym, ap, ◌∙◌, Bool, true, false, not, ◌&&◌, ◌||◌, Option, none, some, List, [], ◌∷◌,
  ◌++◌, map, if◌then◌else◌, arith, any, any-append, All,
}
use netspoc.Prelude.Bytes.{Bytes, bytes_eq, codes}
use netspoc.Protocols.{
  Protos, ModifiedProto, Classes, expand_split_protocol, expand_src_range, main_proto, has_ports,
  with_src, with_srcs, modified_ports, is_set, join_classes,
}
use netspoc.Protocols.Parts.{in_range, SplitOk, expand_split_protocol-PartsOf}

-- What is asked of the protocols: a range is cut in two parts, and no protocol with ports is an ICMP
-- type without state.
pub record ProtosOk (s : Protos) : Type 0 where
  pub split :
      (p a b : ℕ) → (s.proto p).split ≡ some (a, b) → SplitOk (s.proto p) (s.proto a) (s.proto b)
  pub stateless : (p : ℕ) → (s.proto p).stateless_icmp ≡ true → has_ports (s.proto p) ≡ false

spread : (w r d ds : Bool) → ((w && (r && d)) || (w && (r && ds))) ≡ (w && (r && (d || ds)))
spread w r d ds = ground arith

gather : (w r rs d : Bool) → ((w && (r && d)) || (w && (rs && d))) ≡ (w && ((r || rs) && d))
gather w r rs d = ground arith

-- A packet with protocol and ports; what it has in common with protocols without ports is a parameter.
module _ (s : Protos) (prt : Bytes) (src_port dst_port : ℕ) (other : ℕ → Bool)
    (want : Option ℕ → Bool) where
  abbrev pub dst_hit : ℕ → Bool
  dst_hit p = if has_ports (s.proto p) then in_range prt dst_port (s.proto p) else other p

  abbrev pub src_hit : Option ℕ → Bool
  src_hit none = true
  src_hit (some r) = in_range prt src_port (s.proto r)

  -- The source range of the modifiers counts for protocols with ports.
  abbrev pub modifiers_hit : Option ℕ → Bool
  modifiers_hit none = true
  modifiers_hit (some m) = src_hit (s.src_range m)

  abbrev pub is_complex : ℕ → Bool
  is_complex p = is_set (s.proto p).modifiers || (s.proto (main_proto s p)).stateless_icmp

  abbrev pub as_simple : ℕ → Bool
  as_simple p = not (is_complex p) && dst_hit (main_proto s p)

  abbrev pub as_complex : ℕ → Bool
  as_complex p =
      let m = (s.proto p).modifiers in
      is_complex p
      && (want m
          && ((if has_ports (s.proto (main_proto s p)) then modifiers_hit m else true)
              && dst_hit (main_proto s p)))

  abbrev pub modified_hit : ModifiedProto → Bool
  modified_hit c = want c.modifiers && (src_hit c.src && dst_hit c.prt)

  abbrev pub ClassesOf : Bool → Bool → Option Classes → Type 0
  ClassesOf simple complex o =
      (c : Classes) × (o ≡ some c) × (any dst_hit c.0 ≡ simple) × (any modified_hit c.1 ≡ complex)

  pub joined-ClassesOf :
      (a b a' b' : Bool) (o u : Option Classes)
      → ClassesOf a b o
      → ClassesOf a' b' u
      → ClassesOf (a || a') (b || b') (join_classes o u)
  joined-ClassesOf a b a' b' o u (c, e, f, g) (d, e', f', g') = (
    (c.0 ++ d.0, c.1 ++ d.1),
    ap (λ z. join_classes z u) e ∙ ap (join_classes (some c)) e',
    any-append dst_hit c.0 d.0 ∙ ap (λ z. z || any dst_hit d.0) f ∙ ap (λ z. a || z) f',
    any-append modified_hit c.1 d.1 ∙ ap (λ z. z || any modified_hit d.1) g ∙ ap (λ z. b || z) g',
  )

  and_any : (b : Bool) (p : ℕ → Bool) (xs : List ℕ) → any (λ x. b && p x) xs ≡ (b && any p xs)
  and_any true p xs = refl
  and_any false p [] = refl
  and_any false p (x ∷ xs) = and_any false p xs

  with_src_hit :
      (src : Option ℕ) (m : ℕ) (ds : List ℕ)
      → any modified_hit (with_src src m ds) ≡ (want (some m) && (src_hit src && any dst_hit ds))
  with_src_hit src m [] = ground arith
  with_src_hit src m (d ∷ ds) =
      let ih = with_src_hit src m ds in
      ap (λ z. modified_hit (record { prt = d; src = src; modifiers = some m }) || z) ih
      ∙ spread (want (some m)) (src_hit src) (dst_hit d) (any dst_hit ds)

  with_srcs_hit :
      (ss : List (Option ℕ)) (m : ℕ) (ds : List ℕ)
      → any modified_hit (with_srcs ss m ds) ≡ (want (some m) && (any src_hit ss && any dst_hit ds))
  with_srcs_hit [] m ds = ground arith
  with_srcs_hit (r ∷ ss) m ds =
      any-append modified_hit (with_src r m ds) (with_srcs ss m ds)
      ∙ ap (λ z. z || any modified_hit (with_srcs ss m ds)) (with_src_hit r m ds)
      ∙ ap (λ z. (want (some m) && (src_hit r && any dst_hit ds)) || z) (with_srcs_hit ss m ds)
      ∙ gather (want (some m)) (src_hit r) (any src_hit ss) (any dst_hit ds)

  any-some :
      (rs : List ℕ) → any src_hit (map some rs) ≡ any (λ r. in_range prt src_port (s.proto r)) rs
  any-some [] = refl
  any-some (r ∷ rs) = ap (λ z. in_range prt src_port (s.proto r) || z) (any-some rs)

  module _ (ok : ProtosOk s) where
    parts_hit :
        (p : ℕ) (ps : List ℕ)
        → has_ports (s.proto p) ≡ true
        → All (λ q. (s.proto q).protocol ≡ (s.proto p).protocol) ps
        → any dst_hit ps ≡ any (λ q. in_range prt dst_port (s.proto q)) ps
    unfolding has_ports
    parts_hit p [] h same = refl
    parts_hit p (q ∷ ps) h same =
        let e : has_ports (s.proto q) ≡ true =
          ap (λ n. bytes_eq n (codes "tcp") || bytes_eq n (codes "udp")) same.0 ∙ h in
        ap (λ b. (if b then in_range prt dst_port (s.proto q) else other q) || any dst_hit ps) e
        ∙ ap (λ z. in_range prt dst_port (s.proto q) || z) (parts_hit p ps h same.1)

    -- The parts of a protocol with ports.
    pub expanded :
        (p : ℕ)
        → has_ports (s.proto p) ≡ true
        → (ds : List ℕ) × (expand_split_protocol s.proto p ≡ some ds) × (any dst_hit ds ≡ dst_hit p)
    expanded p h =
        let (ds, ran, e, same) = expand_split_protocol-PartsOf s.proto ok.split p in
        (
          ds,
          ran,
          parts_hit p ds h same
              ∙ e prt dst_port
              ∙ ap (λ b. if b then in_range prt dst_port (s.proto p) else other p) (sym h),
        )

    expanded_src :
        (r : Option ℕ)
        → (ss : List (Option ℕ)) × (expand_src_range s.proto r ≡ some ss)
          × (any src_hit ss ≡ src_hit r)
    unfolding expand_src_range
    expanded_src none = (none ∷ [], refl, refl)
    expanded_src (some r) =
        let (rs, ran, e, same) = expand_split_protocol-PartsOf s.proto ok.split r in
        (map some rs, rw (ran, expand_src_range) refl, any-some rs ∙ e prt src_port)

    pub modified_ports-ClassesOf :
        (p m : ℕ)
        → has_ports (s.proto p) ≡ true
        → ClassesOf false
            (want (some m) && (src_hit (s.src_range m) && dst_hit p))
            (modified_ports s p (some m))
    unfolding modified_ports
    modified_ports-ClassesOf p m h =
        let (ss, ran_s, e) = expanded_src (s.src_range m) in
        let (ds, ran_d, f) = expanded p h in
        (
          ([], with_srcs ss m ds),
          rw (ran_s, ran_d, modified_ports) refl,
          refl,
          with_srcs_hit ss m ds
              ∙ ap (λ z. want (some m) && (z && any dst_hit ds)) e
              ∙ ap (λ z. want (some m) && (src_hit (s.src_range m) && z)) f,
        )
