-- ===== src/Pass2/Combine/Loop.antt =====
-- The loop of `combineAdjacentIPMask`, and the sort in front of it.
use mathlib.Core.List.{Memᴰ}
use mathlib.Core.List.Memᴰ.{head, tail}
use netspoc.Prelude.{
  ℕ, zero, suc, ◌+◌, ◌*◌, ◌≤◌, ◌<◌, ◌≡◌, ◌≢◌, inl, inr, refl, sym, ap, ◌∙◌, subst, Bool, true,
  false, ◌||◌, Option, some, List, [], ◌∷◌, ltb, ◌==◌, arith, Bool-cases, length, All, All-Mem,
  Mem-All, any,
}
use netspoc.Prelude.Sort.{SortSlice, Sorted, any-Perm}
use netspoc.Prelude.Count.{Unique, count-Perm, count_rest, Unique-tail, Mem-Perm}
use netspoc.Pass2.Nets.{NetLib, masked}
use netspoc.Pass2.Combine.{
  Objs, get, element, halves, right_part, joined, rev_onto, combine_at, combine_sorted,
  combine_adjacent_ip_mask,
}
use netspoc.Pass2.Combine.Objects.{Texts, Coherent}
use netspoc.Pass2.Combine.Cover.{
  Rising, Rising-behind, Rising-replaced, before_differ, behind_differ, any-rev_onto, Ok, has,
  joined-Joined,
}

module _ (lib : NetLib) (is_dst : Bool) where
  combine_move :
      (fuel : ℕ) (left : List ℕ) (cur next : ℕ) (right : List ℕ) (s : Objs)
      → halves (element is_dst s cur) (element is_dst s next) ≡ false
      → combine_at lib is_dst (suc fuel) left cur (next ∷ right) s
        ≡ combine_at lib is_dst fuel (cur ∷ left) next right s
  unfolding combine_at
  combine_move fuel left cur next right s e = rw (e, combine_at) refl

  combine_first :
      (fuel cur next : ℕ) (right : List ℕ) (s : Objs)
      → halves (element is_dst s cur) (element is_dst s next) ≡ true
      → combine_at lib is_dst (suc fuel) [] cur (next ∷ right) s
        ≡ combine_at lib is_dst fuel [] cur right (joined lib is_dst cur next s)
  unfolding combine_at
  combine_first fuel cur next right s e = rw (e, combine_at) refl

  combine_back :
      (fuel l : ℕ) (ls : List ℕ) (cur next : ℕ) (right : List ℕ) (s : Objs)
      → halves (element is_dst s cur) (element is_dst s next) ≡ true
      → right_part (element is_dst s cur) ≡ true
      → combine_at lib is_dst (suc fuel) (l ∷ ls) cur (next ∷ right) s
        ≡ combine_at lib is_dst fuel ls l (cur ∷ right) (joined lib is_dst cur next s)
  unfolding combine_at
  combine_back fuel l ls cur next right s e f = rw (e, f, combine_at) refl

  combine_stay :
      (fuel l : ℕ) (ls : List ℕ) (cur next : ℕ) (right : List ℕ) (s : Objs)
      → halves (element is_dst s cur) (element is_dst s next) ≡ true
      → right_part (element is_dst s cur) ≡ false
      → combine_at lib is_dst (suc fuel) (l ∷ ls) cur (next ∷ right) s
        ≡ combine_at lib is_dst fuel (l ∷ ls) cur right (joined lib is_dst cur next s)
  unfolding combine_at
  combine_stay fuel l ls cur next right s e f = rw (e, f, combine_at) refl

module _ (lib : NetLib) (bits : ℕ) (texts : Texts lib bits) (is_dst : Bool) (ip : ℕ → ℕ) where
  abbrev Fine : Objs → ℕ → Type 0
  Fine s r = Ok lib bits texts is_dst ip s r

  abbrev holds : Objs → ℕ → ℕ → Bool
  holds = has bits is_dst

  -- The loop ends, and the rules that are left have the addresses of those that there were.
  abbrev Covered : (ℕ → Bool) → Objs → Option (List ℕ × Objs) → Type 0
  Covered before s result =
      (out : List ℕ) × (t : Objs) × (result ≡ some (out, t))
      × ((x : ℕ) → any (holds t x) out ≡ before x)

  Covered-same :
      (f g : ℕ → Bool) (s s' : Objs) (r r' : Option (List ℕ × Objs))
      → r ≡ r'
      → ((x : ℕ) → g x ≡ f x)
      → Covered g s' r'
      → Covered f s r
  Covered-same f g s s' r r' e same (out, t, returns, covers) =
      (out, t, e ∙ returns, λ x. covers x ∙ same x)

  kept :
      (cur : ℕ) (s t : Objs) (rs : List ℕ)
      → ((q : ℕ)
          → q ≢ cur
          → Fine s q
          → (element is_dst t q ≡ element is_dst s q) × (get is_dst t.rule q < t.nets.next))
      → All (λ q. q ≢ cur) rs
      → All (Fine s) rs
      → All (Fine t) rs × ((x : ℕ) → any (holds t x) rs ≡ any (holds s x) rs)
  kept cur s t [] same ne ok = (tt, λ x. refl)
  kept cur s t (r ∷ rs) same ne ok =
      let (e, lt) = same r ne.0 ok.0 in
      let (ok', covers) = kept cur s t rs same ne.1 ok.1 in
      (
        (
          (
            lt,
            ap (λ n. n.ip) e ∙ ok.0.1,
            ap (λ n. n.bits) e ∙ ok.0.2,
            subst (λ n. n.prefix ≤ bits) (sym e) ok.0.3,
            ap (λ n. masked bits (ip r) n.prefix) e ∙ ok.0.4,
          ),
          ok',
        ),
        λ x.
            ap (λ n. masked bits x n.prefix == n.ip || any (holds t x) rs) e
            ∙ ap (λ b. holds s x r || b) (covers x),
      )

  abbrev around : List ℕ → ℕ → List ℕ → Objs → ℕ → Bool
  around left cur right s x = any (holds s x) left || (holds s x cur || any (holds s x) right)

  abbrev Works : ℕ → Type 0
  Works fuel =
      (left : List ℕ) (cur : ℕ) (right : List ℕ) (s : Objs)
      → Coherent lib bits s.nets
      → Rising ip (rev_onto left (cur ∷ right))
      → All (Fine s) left
      → Fine s cur
      → All (Fine s) right
      → 2 * length right + length left < fuel
      → Covered (around left cur right s) s (combine_at lib is_dst fuel left cur right s)

  module _ (fuel : ℕ) (works : Works fuel) (cur next : ℕ) (right : List ℕ) (s : Objs)
      (e : halves (element is_dst s cur) (element is_dst s next) ≡ true) where
    abbrev after : Objs
    after = joined lib is_dst cur next s

    resumed :
        (left : List ℕ)
        → Coherent lib bits after.nets
        → Fine after cur
        → Rising ip (rev_onto left (cur ∷ right))
        → All (Fine after) left
        → All (Fine after) right
        → 2 * length (next ∷ right) + length left < suc fuel
        → ((x : ℕ) → around left cur right after x ≡ around left cur (next ∷ right) s x)
        → Covered
            (around left cur (next ∷ right) s)
            s
            (combine_at lib is_dst (suc fuel) left cur (next ∷ right) s)
    resumed [] coh okc less ok_l ok_r lt same =
        Covered-same (around [] cur (next ∷ right) s) (around [] cur right after) s after
          (combine_at lib is_dst (suc fuel) [] cur (next ∷ right) s)
          (combine_at lib is_dst fuel [] cur right after)
          (combine_first lib is_dst fuel cur next right s e) same
          (works [] cur right after coh less tt okc ok_r (omega arith))
    resumed (l ∷ ls) coh okc less ok_l ok_r lt same =
        elim (Bool-cases (right_part (element is_dst s cur))) [
          | inl f ↦
              Covered-same (around (l ∷ ls) cur (next ∷ right) s) (around ls l (cur ∷ right) after)
                s after (combine_at lib is_dst (suc fuel) (l ∷ ls) cur (next ∷ right) s)
                (combine_at lib is_dst fuel ls l (cur ∷ right) after)
                (combine_back lib is_dst fuel l ls cur next right s e f)
                (λ x. let u = same x in ground (arith, u))
                (works ls l (cur ∷ right) after coh less ok_l.1 ok_l.0 (okc, ok_r) (omega arith))
          | inr f ↦
              Covered-same (around (l ∷ ls) cur (next ∷ right) s) (around (l ∷ ls) cur right after)
                s after (combine_at lib is_dst (suc fuel) (l ∷ ls) cur (next ∷ right) s)
                (combine_at lib is_dst fuel (l ∷ ls) cur right after)
                (combine_stay lib is_dst fuel l ls cur next right s e f) same
                (works (l ∷ ls) cur right after coh less ok_l okc ok_r (omega arith))
        ]

    combined :
        (left : List ℕ)
        → Coherent lib bits s.nets
        → Rising ip (rev_onto left (cur ∷ (next ∷ right)))
        → All (Fine s) left
        → Fine s cur
        → All (Fine s) (next ∷ right)
        → 2 * length (next ∷ right) + length left < suc fuel
        → Covered
            (around left cur (next ∷ right) s)
            s
            (combine_at lib is_dst (suc fuel) left cur (next ∷ right) s)
    combined left coherent rising ok_l ok ok_r lt =
        let order = Rising-behind ip left (cur ∷ (next ∷ right)) rising in
        let j = joined-Joined lib bits texts is_dst ip s cur next coherent ok ok_r.0 order.0.0 e in
        let less =
          Rising-replaced ip left (cur ∷ (next ∷ right)) (cur ∷ right) rising (order.0.1, order.1.1)
            (λ z a. (a.0, a.1.1)) in
        let (ok_l', in_l) =
          kept cur s after left j.same (before_differ ip left cur (next ∷ right) rising) ok_l in
        let (ok_r', in_r) =
          kept cur s after right j.same (behind_differ ip cur right order.0.1) ok_r.1 in
        resumed left j.coherent j.ok less ok_l' ok_r' lt
          (λ x. rw (in_l x, in_r x, j.both x) (ground arith))

  combine-Covered : (fuel : ℕ) → Works fuel
  unfolding combine_at
  combine-Covered zero left cur right s coherent rising ok_l ok ok_r lt = absurd (omega arith)
  combine-Covered (suc fuel) left cur [] s coherent rising ok_l ok ok_r lt =
      (rev_onto left (cur ∷ []), s, refl, λ x. any-rev_onto (holds s x) left (cur ∷ []))
  combine-Covered (suc fuel) left cur (next ∷ right) s coherent rising ok_l ok ok_r lt =
      elim (Bool-cases (halves (element is_dst s cur) (element is_dst s next))) [
        | inl e ↦
            combined fuel (combine-Covered fuel) cur next right s e left coherent rising ok_l ok
              ok_r lt
        | inr e ↦
            Covered-same (around left cur (next ∷ right) s) (around (cur ∷ left) next right s) s s
              (combine_at lib is_dst (suc fuel) left cur (next ∷ right) s)
              (combine_at lib is_dst fuel (cur ∷ left) next right s)
              (combine_move lib is_dst fuel left cur next right s e) (λ x. ground arith)
              (combine-Covered fuel (cur ∷ left) next right s coherent rising (ok, ok_l) ok_r.0
                ok_r.1 (omega arith))
      ]

  Sorted-Rising :
      (rs : List ℕ)
      → Sorted (λ i j. ltb (ip i) (ip j)) rs
      → Unique rs
      → ((p q : ℕ) → Memᴰ p rs → Memᴰ q rs → p ≢ q → ip p ≢ ip q)
      → Rising ip rs
  Sorted-Rising [] sorted unique differ = tt
  Sorted-Rising (r ∷ rs) sorted unique differ = (
    Mem-All (λ q. ip r < ip q) rs
        (λ q m.
          let le = All-Mem (λ y. ltb (ip y) (ip r) ≡ false) rs q sorted.0 m in
          let ne = differ r q (head refl) (tail m) (count_rest r q rs unique m) in ground arith),
    Sorted-Rising rs sorted.1 (Unique-tail r rs unique) (λ p q m n. differ p q (tail m) (tail n)),
  )

  combine_sorted-Covered :
      (rs : List ℕ) (s : Objs)
      → Coherent lib bits s.nets
      → Rising ip rs
      → All (Fine s) rs
      → Covered (λ x. any (holds s x) rs) s (combine_sorted lib is_dst rs s)
  unfolding combine_sorted
  combine_sorted-Covered [] s coherent rising ok = ([], s, refl, λ x. refl)
  combine_sorted-Covered (r ∷ rs) s coherent rising ok =
      combine-Covered (suc (2 * length rs)) [] r rs s coherent rising tt ok.0 ok.1 (omega arith)

-- The address of the rule's element
abbrev pub ip_of : Bool → Objs → ℕ → ℕ
ip_of is_dst s r = (element is_dst s r).ip

-- If the rules are given once, their elements are networks in the store whose prefixes are not longer
-- than an address and which begin at different addresses, and what the map has under the name of a
-- network is this network, then the loop comes to an end, and an address is in a network of the
-- rules that are left exactly if it was in one of the rules before.
pub combine_adjacent_ip_mask-any :
    (std : SortSlice ℕ) (lib : NetLib) (bits : ℕ) (texts : Texts lib bits) (is_dst : Bool)
    (rules : List ℕ) (s : Objs)
    → Coherent lib bits s.nets
    → Unique rules
    → ((p q : ℕ) → Memᴰ p rules → Memᴰ q rules → p ≢ q → ip_of is_dst s p ≢ ip_of is_dst s q)
    → All (Ok lib bits texts is_dst (ip_of is_dst s) s) rules
    → (out : List ℕ) × (t : Objs) × (combine_adjacent_ip_mask std lib is_dst rules s
        ≡ some (out, t))
      × ((x : ℕ) → any (has bits is_dst t x) out ≡ any (has bits is_dst s x) rules)
unfolding combine_adjacent_ip_mask
combine_adjacent_ip_mask-any std lib bits texts is_dst rules s coherent unique differ ok =
    let ip = ip_of is_dst s in
    let less : ℕ → ℕ → Bool = λ i j. ltb (ip i) (ip j) in
    let sorted = std.sort less rules in
    let perm = std.sort-Perm less rules in
    let rising =
      Sorted-Rising lib bits texts is_dst ip sorted
        (std.sort-Sorted less rules (λ a b e. ground arith, λ a b c e f. ground arith))
        (λ r. omega (arith, unique r, count-Perm r perm))
        (λ p q m n. differ p q (Mem-Perm p perm m) (Mem-Perm q perm n)) in
    let fine =
      Mem-All (Ok lib bits texts is_dst ip s) sorted
        (λ r m. All-Mem (Ok lib bits texts is_dst ip s) rules r ok (Mem-Perm r perm m)) in
    let (out, t, returns, covers) =
      combine_sorted-Covered lib bits texts is_dst ip sorted s coherent rising fine in
    (out, t, returns, λ x. covers x ∙ any-Perm (has bits is_dst s x) perm)
