-- ===== src/Answer/Label.antt =====
-- nodejs/common/Label.ts.
use Prim.Native.String.{◌++◌}
use text.Mathlib.Text.{◌==◌}
use text.Mathlib.TextEquality.{eq_iff}
use typedb_client_java.Prelude.{
  String, Option, none, some, Bool, true, false, ◌&&◌, ◌≡◌, ◌↔◌, arith,
}

-- A scope of `null` is `none`.
pub record Label : Type 0 where
  pub scope : Option String
  pub name : String

unfoldable pub of_name : String → Label
of_name name = record { scope = none; name = name }

unfoldable pub scoped : String → String → Label
scoped scope name = record { scope = some scope; name = name }

unfoldable pub scoped_name : Label → String
scoped_name l = elim l.scope [ none ↦ l.name | some s ↦ s ++ (":" ++ l.name) ]

-- `===` on two texts that may be `null`.
same_scope : Option String → Option String → Bool
same_scope none none = true
same_scope (some s) (some t) = s == t
same_scope _ _ = false

unfoldable pub equals : Label → Label → Bool
unfolding same_scope
equals l m = same_scope l.scope m.scope && l.name == m.name

same_scope_iff : (a b : Option String) → (same_scope a b ≡ true) ↔ (a ≡ b)
unfolding same_scope
same_scope_iff none none = ground arith
same_scope_iff none (some t) = ground arith
same_scope_iff (some s) none = ground arith
same_scope_iff (some s) (some t) = ground (arith, eq_iff s t)

-- `equals` decides equality of labels.
pub equals_iff : (l m : Label) → (equals l m ≡ true) ↔ (l ≡ m)
unfolding equals
equals_iff l m = ground (arith, same_scope_iff l.scope m.scope, eq_iff l.name m.name)
