-- ===== src/Protocols/Whole.antt =====
-- `classifyProtocols`: one protocol, and the list.
use mathlib.Core.Option.{some-injective}
use netspoc.Prelude.{
  ℕ, ◌≡◌, inl, inr, refl, sym, ap, ◌∙◌, subst, Bool, true, false, not, ◌&&◌, ◌||◌, Option, none,
  some, List, [], ◌∷◌, if◌then◌else◌, Bool-cases, Option-cases, arith, any,
}
use netspoc.Prelude.Bytes.{Bytes}
use netspoc.Protocols.{
  Protos, Classes, main_proto, has_ports, modified_ports, is_set, classify_one, classify_protocols,
}
use netspoc.Protocols.Classified.{
  ProtosOk, dst_hit, modifiers_hit, as_simple, as_complex, modified_hit, ClassesOf,
  joined-ClassesOf, expanded, modified_ports-ClassesOf,
}

no_more : (b : Bool) → (b || false) ≡ b
no_more b = ground arith

only : (w d : Bool) → ((w && (true && d)) || false) ≡ (w && (true && d))
only w d = ground arith

module _ (s : Protos) (ok : ProtosOk s) (prt : Bytes) (src_port dst_port : ℕ) (other : ℕ → Bool)
    (want : Option ℕ → Bool) where
  abbrev hit : ℕ → Bool
  hit = dst_hit s prt src_port dst_port other want

  abbrev Of : Bool → Bool → Option Classes → Type 0
  Of = ClassesOf s prt src_port dst_port other want

  -- The tests of `classifyProtocols`, and what they say of the classes.
  abbrev chosen : Bool → Bool → Bool → Option ℕ → Bool × Bool
  chosen complex ports d m = (
    not complex && d,
    complex
        && (want m
            && ((if ports then modifiers_hit s prt src_port dst_port other want m else true) && d)),
  )

  module _ (p : ℕ) where
    abbrev q : ℕ
    q = main_proto s p

    abbrev m : Option ℕ
    m = (s.proto p).modifiers

    abbrev Chosen : Bool → Bool → Type 0
    Chosen c h = Of (chosen c h (hit q) m).0 (chosen c h (hit q) m).1 (classify_one s p)

    moved :
        (c h : Bool)
        → (is_set m || (s.proto q).stateless_icmp) ≡ c
        → has_ports (s.proto q) ≡ h
        → Chosen c h
        → Chosen (is_set m || (s.proto q).stateless_icmp) (has_ports (s.proto q))
    moved c h e f r =
        subst (λ x. Chosen x (has_ports (s.proto q))) (sym e) (subst (Chosen c) (sym f) r)

    plain :
        (is_set m || (s.proto q).stateless_icmp) ≡ false
        → has_ports (s.proto q) ≡ false
        → Chosen false false
    unfolding classify_one
    plain e h = ((q ∷ [], []), rw (e, h, classify_one) refl, no_more (hit q), refl)

    plain_ports :
        (is_set m || (s.proto q).stateless_icmp) ≡ false
        → has_ports (s.proto q) ≡ true
        → Chosen false true
    unfolding classify_one
    plain_ports e h =
        let (ds, ran, f) = expanded s prt src_port dst_port other want ok q h in
        ((ds, []), rw (e, h, ran, classify_one) refl, f, refl)

    complex_plain :
        (is_set m || (s.proto q).stateless_icmp) ≡ true
        → has_ports (s.proto q) ≡ false
        → Chosen true false
    unfolding classify_one
    complex_plain e h = (
      ([], record { prt = q; src = none; modifiers = m } ∷ []),
      rw (e, h, classify_one) refl,
      refl,
      only (want m) (hit q),
    )

    complex_ports :
        (is_set m || (s.proto q).stateless_icmp) ≡ true
        → has_ports (s.proto q) ≡ true
        → Chosen true true
    unfolding classify_one
    complex_ports e h = elim (Option-cases m) [
      | inl n ↦
          let f = sym (ap (λ k. is_set k || (s.proto q).stateless_icmp) n) ∙ e in
          absurd (cc (h, ok.stateless q f))
      | inr (n, f) ↦
          let (c, ran, a, b) =
            modified_ports-ClassesOf s prt src_port dst_port other want ok q n h in
          (
            c,
            rw (e, h, classify_one) (ap (modified_ports s q) f ∙ ran),
            a,
            b
                ∙ ap (λ k. want k && (modifiers_hit s prt src_port dst_port other want k && hit q))
                    (sym f),
          )
    ]

    classify_one-ClassesOf :
        Of
          (as_simple s prt src_port dst_port other want p)
          (as_complex s prt src_port dst_port other want p)
          (classify_one s p)
    classify_one-ClassesOf = elim (Bool-cases (is_set m || (s.proto q).stateless_icmp)) [
      | inl e ↦ elim (Bool-cases (has_ports (s.proto q))) [
        | inl h ↦ moved true true e h (complex_ports e h)
        | inr h ↦ moved true false e h (complex_plain e h)
      ]
      | inr e ↦ elim (Bool-cases (has_ports (s.proto q))) [
        | inl h ↦ moved false true e h (plain_ports e h)
        | inr h ↦ moved false false e h (plain e h)
      ]
    ]

  classes_at :
      (ps : List ℕ)
      → Of
          (any (as_simple s prt src_port dst_port other want) ps)
          (any (as_complex s prt src_port dst_port other want) ps)
          (classify_protocols s ps)
  unfolding classify_protocols
  classes_at [] = (([], []), refl, refl, refl)
  classes_at (p ∷ ps) =
      joined-ClassesOf s prt src_port dst_port other want
        (as_simple s prt src_port dst_port other want p)
        (as_complex s prt src_port dst_port other want p)
        (any (as_simple s prt src_port dst_port other want) ps)
        (any (as_complex s prt src_port dst_port other want) ps) (classify_one s p)
        (classify_protocols s ps) (classify_one-ClassesOf p) (classes_at ps)

-- Where ranges are split in two adjacent parts that are not empty, and no protocol with ports is an ICMP
-- type without state, `classifyProtocols` returns. Its simple protocols match exactly the packets that
-- the main protocols match of those in the list without modifiers and with state. For each choice of
-- modifiers, the others match exactly the packets that the rest of the list with these modifiers
-- matches, source ports included. `other` says which packets protocols without ports match.
pub classify_protocols-hit :
    (s : Protos) (ps : List ℕ)
    → ProtosOk s
    → (c : Classes) × (classify_protocols s ps ≡ some c)
      × ((prt : Bytes) (src_port dst_port : ℕ) (other : ℕ → Bool) (want : Option ℕ → Bool)
          → (any (dst_hit s prt src_port dst_port other want) c.0
              ≡ any (as_simple s prt src_port dst_port other want) ps)
            × (any (modified_hit s prt src_port dst_port other want) c.1
                ≡ any (as_complex s prt src_port dst_port other want) ps))
classify_protocols-hit s ps ok =
    let (c, ran, e, f) = classes_at s ok [] 0 0 (λ p. false) (λ m. false) ps in
    (
      c,
      ran,
      λ prt src_port dst_port other want.
          let (c', ran', e', f') = classes_at s ok prt src_port dst_port other want ps in
          let same = some-injective c c' (sym ran ∙ ran') in
          (
            ap (λ d. any (dst_hit s prt src_port dst_port other want) d.0) same ∙ e',
            ap (λ d. any (modified_hit s prt src_port dst_port other want) d.1) same ∙ f',
          ),
    )
