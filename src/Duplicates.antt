-- ===== src/Duplicates.antt =====
-- go/pkg/pass1/remove-dupl-rules.go: `removeSimpleDuplicateRules` on one list of rules, without the
-- message for each rule that is removed.
pub mod Simple
pub mod Kept
use netspoc.Prelude.{
  ℕ, Bool, true, false, not, ◌&&◌, Option, none, some, List, [], ◌∷◌, if◌then◌else◌, ◌==◌, any,
}
use netspoc.Prelude.Bytes.{bytes_eq}
use netspoc.Reverse.{GroupedRule}

-- The type `key`
pub record DuplKey : Type 0 where
  pub src : ℕ
  pub dst : ℕ
  pub prt : ℕ

abbrev no_range : Option ℕ → Bool
no_range none = true
no_range (some _) = false

single_key : List ℕ → List ℕ → List ℕ → Option DuplKey
single_key (s ∷ []) (d ∷ []) (p ∷ []) = some record { src = s; dst = d; prt = p }
single_key _ _ _ = none

-- The key of a simple rule.
pub simple_key : GroupedRule → Option DuplKey
unfolding single_key
simple_key r =
    if no_range r.src_range && bytes_eq r.log [] && not r.oneway && not r.stateless
    then single_key r.src r.dst r.prt
    else none

pub same_key : DuplKey → DuplKey → Bool
same_key k l = k.src == l.src && k.dst == l.dst && k.prt == l.prt

-- `seen[key{s, d, p}]`
is_seen : Option DuplKey → List DuplKey → Bool
unfolding same_key
is_seen none seen = false
is_seen (some k) seen = any (same_key k) seen

mark_seen : Option DuplKey → List DuplKey → List DuplKey
mark_seen none seen = seen
mark_seen (some k) seen = k ∷ seen

-- The loop of the closure `process`.
pub remove_duplicates : List DuplKey → List GroupedRule → List GroupedRule
unfolding is_seen mark_seen simple_key
remove_duplicates seen [] = []
remove_duplicates seen (r ∷ rs) =
    let kept = r ∷ remove_duplicates (mark_seen (simple_key r) seen) rs in
    let skipped = remove_duplicates seen rs in if is_seen (simple_key r) seen then skipped else kept

unfoldable pub remove_simple_duplicate_rules : List GroupedRule → List GroupedRule
unfolding remove_duplicates
remove_simple_duplicate_rules rules = remove_duplicates [] rules
