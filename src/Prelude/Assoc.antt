-- ===== src/Prelude/Assoc.antt =====
-- Maps as association lists over keys with decidable equality.
use mathlib.Core.Path.{◌≡◌, refl, sym, ap, subst, ◌∙◌}
use mathlib.Core.Logic.{◌≢◌, ite, if_pos, if_neg}
use mathlib.Core.List.{List, [], ◌∷◌, Memᴰ}
use mathlib.Core.List.Memᴰ.{head, tail}
use mathlib.Core.Option.{Option, none, some}
use native.Mathlib.Omega.{arith}

module _ {ℓ κ} {K : Type ℓ} (dec : Discrete K) {V : Type κ} where
  abbrev pub lookup : K → List (K × V) → Option V
  lookup k [] = none
  lookup k ((j, v) ∷ m) = ite (dec j k) (some v) (lookup k m)

  -- `m[k] = f(m[k])`, where a missing key is `none`; a new key goes to the end.
  abbrev pub alter : K → (Option V → V) → List (K × V) → List (K × V)
  alter k f [] = (k, f none) ∷ []
  alter k f ((j, v) ∷ m) = ite (dec j k) ((j, f (some v)) ∷ m) ((j, v) ∷ alter k f m)

  pub lookup-alter_self :
      (k : K) (f : Option V → V) (m : List (K × V)) → lookup k (alter k f m) ≡ some (f (lookup k m))
  lookup-alter_self k f [] = if_pos (dec k k) refl _ _
  lookup-alter_self k f ((j, v) ∷ m) = elim (dec j k) [
    | yes e ↦ rw (if_pos (dec j k) e, if_pos (dec j k) e, if_pos (dec j k) e)
    | no e ↦
        rw (if_neg (dec j k) e, if_neg (dec j k) e, if_neg (dec j k) e) (lookup-alter_self k f m)
  ]

  pub lookup-alter_ne :
      (k j : K) (f : Option V → V) (m : List (K × V)) → k ≢ j → lookup j (alter k f m) ≡ lookup j m
  lookup-alter_ne k j f [] ne = if_neg (dec k j) ne _ _
  lookup-alter_ne k j f ((i, v) ∷ m) ne = elim (dec i k) [
    | yes e ↦ rw (if_pos (dec i k) e) (ground (arith, e))
    | no e ↦ rw (if_neg (dec i k) e) (ground (arith, lookup-alter_ne k j f m ne))
  ]

  -- Every key stands once, and the values satisfy `P`.
  abbrev pub Good {μ} : (V → Type μ) → List (K × V) → Type (κ ⊔ μ)
  Good P [] = Unit
  Good P ((k, v) ∷ m) = (lookup k m ≡ none) × P v × Good P m

  pub lookup-Mem {μ} :
      (P : V → Type μ) (k : K) (v : V) (m : List (K × V))
      → Good P m
      → Memᴰ (k, v) m
      → (lookup k m ≡ some v) × P v
  lookup-Mem P k v [] g h = elim h [ ]
  lookup-Mem P k v ((j, w) ∷ m) g (head e) = (
    if_pos (dec j k) (sym (ap (λ p. p.0) e)) _ _ ∙ ap (λ (p : K × V). some p.1) (sym e),
    subst (λ (p : K × V). P p.1) (sym e) g.1,
  )
  lookup-Mem P k v ((j, w) ∷ m) g (tail h) =
      let (found, p) = lookup-Mem P k v m g.2 h in (if_neg (dec j k) (λ e. cc g.0) _ _ ∙ found, p)

  pub alter-Good {μ} :
      (P : V → Type μ) (k : K) (f : Option V → V) (m : List (K × V))
      → P (f none)
      → ((v : V) → P v → P (f (some v)))
      → Good P m
      → Good P (alter k f m)
  alter-Good P k f [] fresh keep g = (refl, fresh, tt)
  alter-Good P k f ((j, v) ∷ m) fresh keep g = elim (dec j k) [
    | yes e ↦ rw (if_pos (dec j k) e) (g.0, keep v g.1, g.2)
    | no e ↦ rw (if_neg (dec j k) e) (
      lookup-alter_ne k j f m (λ same. e (sym same)) ∙ g.0,
      g.1,
      alter-Good P k f m fresh keep g.2,
    )
  ]
