-- ===== src/Concept/RolePlayers.antt =====
-- `getRolePlayers` and `findRole` of nodejs/concept/thing/RelationImpl.ts. The keys of the map are
-- role type objects, which no two of its entries share.
pub mod Grouping
use text.Mathlib.Text.{◌==◌ as same_text}
use text.Mathlib.TextEquality.{eq_iff}
use typedb_client_java.Prelude.{
  List, [], ◌∷◌, ◌++◌, map, filter, String, Option, none, some, Bool, true, false, ◌≡◌, ◌≢◌, refl,
  ap, arith, if◌then◌else◌, append-nil, append_assoc, All, All-append,
}
use typedb_client_java.Stream.{Stream, end, fails, item, for_each}
use typedb_client_java.Effect.{Result, ok, err}
use typedb_client_java.Answer.Label.{scoped_name}
use typedb_client_java.Concept.{SchemaType, label_of}

-- An entry is a role type and its players.
abbrev pub RolePlayers : Type 0 → Type 0
RolePlayers P = List (SchemaType × List P)

-- `roleType.label.scopedName === role.label.scopedName`
unfoldable pub same_role : SchemaType → SchemaType → Bool
same_role r q = same_text (scoped_name (label_of r)) (scoped_name (label_of q))

module _ {P : Type 0} where
  -- `findRole`
  unfoldable pub find_role : RolePlayers P → SchemaType → Option SchemaType
  find_role [] role = none
  find_role (e ∷ es) role = if same_role e.0 role then some e.0 else find_role es role

  -- `rolePlayersMap.get(key).push(player)`, of a key that `findRole` found, the first with its name.
  unfoldable pub push : SchemaType → P → RolePlayers P → RolePlayers P
  push key player [] = []
  push key player (e ∷ es) =
      if same_role e.0 key then (e.0, e.1 ++ player ∷ []) ∷ es else e ∷ push key player es

  -- The callback: a role that is not found is set first, and so is last.
  unfoldable pub add_player : SchemaType × P → RolePlayers P → RolePlayers P
  add_player (role, player) es = elim (find_role es role) [
    | none ↦ push role player (es ++ (role, []) ∷ [])
    | some key ↦ push key player es
  ]

  -- `getRolePlayers`, from the role and the player that each message is read as.
  unfoldable pub role_players : Stream (SchemaType × P) → Result (Unit {0}) × RolePlayers P
  role_players s = for_each add_player s []

  -- The players of the first entry whose role has the name.
  unfoldable pub players_of : String → RolePlayers P → List P
  players_of name [] = []
  players_of name (e ∷ es) =
      if same_text (scoped_name (label_of e.0)) name then e.1 else players_of name es

  -- The players that the server sent for the roles with the name, in order.
  unfoldable pub sent_for : String → Stream (SchemaType × P) → List P
  sent_for name end = []
  sent_for name (fails e) = []
  sent_for name (item (role, player) s) =
      if same_text (scoped_name (label_of role)) name
      then player ∷ sent_for name s
      else sent_for name s
