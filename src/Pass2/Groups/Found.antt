-- ===== src/Pass2/Groups/Found.antt =====
-- The group that `getGroup` returns has the addresses of the elements.
use mathlib.Core.List.{Memᴰ}
use mathlib.Core.List.Memᴰ.{head, tail}
use mathlib.Core.Option.{some-injective}
use netspoc.Prelude.{
  ℕ, suc, ◌<◌, ◌≡◌, ◌≢◌, inl, inr, refl, sym, ap, ◌∙◌, subst, Bool, true, false, ◌&&◌, ◌||◌, some,
  List, [], ◌∷◌, map, if◌then◌else◌, ◌==◌, ==_iff, ==_refl, Bool-cases, Option-cases, arith, length,
  All, All-Mem, All-append, any,
}
use netspoc.Prelude.Bytes.{Bytes, bytes_eq, bytes_eq-eq}
use netspoc.Prelude.Sort.{Pairwise, any-Perm}
use netspoc.Pass2.LocalDeny.{ObjGroup, RouterData, LocalAcl, group_name, create_group}
use netspoc.Pass2.LocalDeny.Denied.{in_obj}
use netspoc.Pass2.Groups.{
  GroupKey, KnownGroup, GroupMap, same_group_key, groups_at, append_group, has_bytes, all_named,
  search_group, smallest_element, get_group,
}
use netspoc.Pass2.Groups.Subset.{subset-Perm}

both_true : (a b : Bool) → (a && b) ≡ true → (a ≡ true) × (b ≡ true)
both_true true b e = (refl, e)
both_true false b e = absurd (cc e)

-- The names with these addresses, as a device sees the group.
module _ (name : ℕ → Bytes) where
  abbrev pub SizeOk : ℕ → ℕ → List ObjGroup → KnownGroup → Type 0
  SizeOk size next gs (ref, href) =
      (length href ≡ size)
      × (ref < next)
      × ((has : Bytes → Bool) → in_obj (λ p. has (name p)) gs ref ≡ any has href)

  -- The groups of the map: as many names as the key says, and the group has what the names have.
  abbrev pub GroupsOk : ℕ → List ObjGroup → GroupMap → Type 0
  GroupsOk next gs m = All (λ e. All (SizeOk e.0.size next gs) e.1) m

  groups_at-All :
      (k : GroupKey) (next : ℕ) (gs : List ObjGroup) (m : GroupMap)
      → GroupsOk next gs m
      → All (SizeOk k.size next gs) (groups_at k m)
  unfolding groups_at
  groups_at-All k next gs [] ok = tt
  groups_at-All k next gs ((l, known) ∷ m) ok = elim (Bool-cases (same_group_key l k)) [
    | inl e ↦
        let size =
          (==_iff l.size k.size).0 (both_true (l.size == k.size) (bytes_eq l.first k.first) e).0 in
        rw (e, groups_at) (subst (λ n. All (SizeOk n next gs) known) size ok.0)
    | inr e ↦ rw (e, groups_at) (groups_at-All k next gs m ok.1)
  ]

  append_group-GroupsOk :
      (k : GroupKey) (g : KnownGroup) (next : ℕ) (gs : List ObjGroup) (m : GroupMap)
      → GroupsOk next gs m
      → SizeOk k.size next gs g
      → GroupsOk next gs (append_group k g m)
  unfolding append_group
  append_group-GroupsOk k g next gs [] ok h = ((h, tt), tt)
  append_group-GroupsOk k g next gs ((l, known) ∷ m) ok h = elim (Bool-cases (same_group_key l k)) [
    | inl e ↦
        let size =
          (==_iff l.size k.size).0 (both_true (l.size == k.size) (bytes_eq l.first k.first) e).0 in
        rw (e, append_group)
          (
            All-append (SizeOk l.size next gs) known (g ∷ []) ok.0
                (subst (λ n. SizeOk n next gs g) (sym size) h, tt),
            ok.1,
          )
    | inr e ↦ rw (e, append_group) (ok.0, append_group-GroupsOk k g next gs m ok.1 h)
  ]

  -- A new group leaves the others as they are.
  old_group :
      (has : ℕ → Bool) (g : ObjGroup) (gs : List ObjGroup) (x : ℕ)
      → x < g.ref
      → in_obj has (g ∷ gs) x ≡ in_obj has gs x
  old_group has g gs x lt =
      let ne : (g.ref == x) ≡ false = ground (arith, lt) in
      ap (λ b. if b then any has g.elements else in_obj has gs x) ne

  SizeOk-new :
      (size : ℕ) (g : ObjGroup) (gs : List ObjGroup) (known : List KnownGroup)
      → All (SizeOk size g.ref gs) known
      → All (SizeOk size (suc g.ref) (g ∷ gs)) known
  SizeOk-new size g gs [] ok = tt
  SizeOk-new size g gs ((ref, href) ∷ known) ok =
      let (n, lt, e) = ok.0 in
      (
        (n, omega (arith, lt), λ has. old_group (λ p. has (name p)) g gs ref lt ∙ e has),
        SizeOk-new size g gs known ok.1,
      )

  GroupsOk-new :
      (g : ObjGroup) (gs : List ObjGroup) (m : GroupMap)
      → GroupsOk g.ref gs m
      → GroupsOk (suc g.ref) (g ∷ gs) m
  GroupsOk-new g gs [] ok = tt
  GroupsOk-new g gs ((l, known) ∷ m) ok =
      (SizeOk-new l.size g gs known ok.0, GroupsOk-new g gs m ok.1)

  search_group-Mem :
      (names : List Bytes) (gs : List KnownGroup) (ref : ℕ)
      → search_group names gs ≡ some ref
      → (href : List Bytes) × Memᴰ (ref, href) gs × (all_named href names ≡ true)
  unfolding search_group
  search_group-Mem names [] ref e = absurd (cc e)
  search_group-Mem names ((r, href) ∷ gs) ref e = elim (Bool-cases (all_named href names)) [
    | inl f ↦
        let same = some-injective r ref (sym (rw (f, search_group) refl) ∙ e) in
        (href, head (ap (λ x. (x, href)) (sym same)), f)
    | inr f ↦
        let (h, k, l) = search_group-Mem names gs ref (sym (rw (f, search_group) refl) ∙ e) in
        (h, tail k, l)
  ]

  has_bytes-Mem : (n : Bytes) (xs : List Bytes) → has_bytes xs n ≡ true → Memᴰ n xs
  has_bytes-Mem n [] e = absurd (cc e)
  has_bytes-Mem n (x ∷ xs) e = elim (Bool-cases (bytes_eq x n)) [
    | inl f ↦ head (sym (bytes_eq-eq x n f))
    | inr f ↦ tail (has_bytes-Mem n xs (sym (ap (λ b. b || has_bytes xs n) f) ∙ e))
  ]

  all_named-All : (href ns : List Bytes) → all_named href ns ≡ true → All (λ n. Memᴰ n href) ns
  all_named-All href [] e = tt
  all_named-All href (n ∷ ns) e =
      let (f, g) = both_true (has_bytes href n) (all_named href ns) e in
      (has_bytes-Mem n href f, all_named-All href ns g)

  any-map : (has : Bytes → Bool) (es : List ℕ) → any has (map name es) ≡ any (λ p. has (name p)) es
  any-map has [] = refl
  any-map has (e ∷ es) = ap (λ b. has (name e) || b) (any-map has es)

  length-map : (es : List ℕ) → length (map name es) ≡ length es
  length-map [] = refl
  length-map (e ∷ es) = ap suc (length-map es)

  -- What `getGroup` returns for these elements, and leaves behind.
  pub record GroupOf (elements : List ℕ) (acl : LocalAcl) (r : RouterData)
      (out : ℕ × LocalAcl × RouterData × GroupMap) : Type 0 where
    pub same_addresses :
        (has : Bytes → Bool)
        → in_obj (λ p. has (name p)) out.1.object_groups out.0 ≡ any (λ p. has (name p)) elements
    pub groups_ok : GroupsOk out.2.next out.1.object_groups out.3
    pub older :
        (has : ℕ → Bool) (x : ℕ)
        → x < r.next
        → in_obj has out.1.object_groups x ≡ in_obj has acl.object_groups x

  new_group-GroupOf :
      (n : Bytes) (elements : List ℕ) (acl : LocalAcl) (r : RouterData) (m : GroupMap)
      (key : GroupKey)
      → key.size ≡ length elements
      → GroupsOk r.next acl.object_groups m
      → GroupOf elements acl r (
        r.next,
        record acl {
          object_groups =
              record { name = n; elements = elements; ref = r.next } ∷ acl.object_groups;
        },
        record r { obj_group_counter = suc r.obj_group_counter; next = suc r.next },
        append_group key (r.next, map name elements) m,
      )
  new_group-GroupOf n elements acl r m key size ok =
      let g : ObjGroup = record { name = n; elements = elements; ref = r.next } in
      let gs = acl.object_groups in
      let new : (has : ℕ → Bool) → in_obj has (g ∷ gs) r.next ≡ any has elements =
        λ has. ap (λ b. if b then any has elements else in_obj has gs r.next) (==_refl r.next) in
      record {
        same_addresses = λ has. new (λ p. has (name p));
        groups_ok =
            append_group-GroupsOk key (r.next, map name elements) (suc r.next) (g ∷ gs) m
              (GroupsOk-new g gs m ok)
              (
                length-map elements ∙ sym size,
                omega arith,
                λ has. new (λ p. has (name p)) ∙ sym (any-map has elements),
              );
        older = λ has x lt. old_group has g gs x lt;
      }

  -- Where the elements have different names, and each group of the map has as many names as its key says
  -- and exactly the addresses of its names: the group that is returned, an older or a new one, has
  -- exactly the addresses of the elements. The map stays as it was asked to be, and each pointer that was in
  -- use still stands for the same addresses.
  pub get_group-GroupOf :
      (ip : ℕ → ℕ) (e : ℕ) (es : List ℕ) (acl : LocalAcl) (r : RouterData) (m : GroupMap)
      → Pairwise (λ x y. x ≢ y) (map name (e ∷ es))
      → GroupsOk r.next acl.object_groups m
      → GroupOf (e ∷ es) acl r (get_group ip name e es acl r m)
  unfolding get_group create_group group_name
  get_group-GroupOf ip e es acl r m differ ok =
      let elements = e ∷ es in
      let names = map name elements in
      let key : GroupKey = record {
        size = length elements;
        first = name (smallest_element ip e es);
      } in
      elim (Option-cases (search_group names (groups_at key m))) [
        | inl none' ↦
            rw (none', get_group)
              (new_group-GroupOf (group_name r.ipv6 r.obj_group_counter) elements acl r m key refl
                ok)
        | inr (ref, found) ↦
            let (href, there, named) = search_group-Mem names (groups_at key m) ref found in
            let (size, lt, has_href) =
              All-Mem (SizeOk key.size r.next acl.object_groups) (groups_at key m) (ref, href)
                (groups_at-All key r.next acl.object_groups m ok) there in
            let perm =
              subset-Perm names href differ (all_named-All href names named)
                (size ∙ sym (length-map elements)) in
            rw (found, get_group)
              record {
                same_addresses = λ has. has_href has ∙ any-Perm has perm ∙ any-map has elements;
                groups_ok = ok;
                older = λ has x lt'. refl;
              }
      ]
