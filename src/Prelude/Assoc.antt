-- ===== src/Prelude/Assoc.antt =====
-- JavaScript's `Map` and plain objects with text keys: entries in the order of their insertion.
use Prim.Native.String.{String}
use mathlib.Core.Path.{◌≡◌, refl}
use mathlib.Core.Bool.{cond}
use mathlib.Core.Option.{Option, none, some}
use mathlib.Core.List.{List, [], ◌∷◌, map}
use native.Mathlib.Omega.{arith}
use text.Mathlib.Text.{◌==◌}
use text.Mathlib.TextEquality.{eq_iff}

abbrev pub Assoc {ℓ} : Type ℓ → Type ℓ
Assoc V = List (String × V)

-- An entry is read by its projections, the key `.0` and the value `.1`.
module _ {ℓ} {V : Type ℓ} where
  -- `m.values()`, `Object.values(m)`
  abbrev pub values : Assoc V → List V
  values = map (λ e. e.1)

  -- `m.get(k)`, `m[k]`
  unfoldable pub lookup : String → Assoc V → Option V
  lookup key [] = none
  lookup key (e ∷ entries) = cond (e.0 == key) (some e.1) (lookup key entries)

  -- `delete m[k]`
  unfoldable pub erase : String → Assoc V → Assoc V
  erase key [] = []
  erase key (e ∷ entries) = cond (e.0 == key) (erase key entries) (e ∷ erase key entries)

  -- What a key has once it is erased, or set to a value.
  pub lookup-erase :
      (gone key : String) (entries : Assoc V)
      → lookup key (erase gone entries) ≡ cond (gone == key) none (lookup key entries)
  unfolding lookup erase
  lookup-erase gone key [] = ground arith
  lookup-erase gone key (e ∷ entries) =
      ground
        (arith, lookup-erase gone key entries, eq_iff e.0 gone, eq_iff e.0 key, eq_iff gone key)

  -- `m.set(k, v)`, `m[k] = v`: a key that is there keeps its place
  unfoldable pub insert : String → V → Assoc V → Assoc V
  insert key v [] = (key, v) ∷ []
  insert key v (e ∷ entries) = cond (e.0 == key) ((e.0, v) ∷ entries) (e ∷ insert key v entries)

  pub lookup-insert :
      (set key : String) (v : V) (entries : Assoc V)
      → lookup key (insert set v entries) ≡ cond (set == key) (some v) (lookup key entries)
  unfolding insert lookup
  lookup-insert set key v [] = refl
  lookup-insert set key v (e ∷ entries) =
      ground
        (arith, eq_iff e.0 set, lookup-insert set key v entries, eq_iff e.0 key, eq_iff set key)

  pub lookup-insert_self :
      (key : String) (v : V) (entries : Assoc V) → lookup key (insert key v entries) ≡ some v
  lookup-insert_self key v entries = ground (arith, eq_iff key key, lookup-insert key key v entries)
