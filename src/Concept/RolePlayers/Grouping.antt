-- ===== src/Concept/RolePlayers/Grouping.antt =====
-- How `getRolePlayers` of nodejs/concept/thing/RelationImpl.ts groups the players.
use text.Mathlib.Text.{◌==◌ as same_text}
use text.Mathlib.TextEquality.{eq_iff}
use typedb_client_java.Prelude.{
  List, [], ◌∷◌, ◌++◌, map, String, none, some, ◌≡◌, ◌≢◌, refl, sym, ap, ◌∙◌, subst, arith,
  if◌then◌else◌, append-nil, append_assoc, All, All-append, Option-cases, Bool-cases, inl, inr,
}
use typedb_client_java.Stream.{Stream, end, fails, item, for_each}
use typedb_client_java.Answer.Label.{scoped_name}
use typedb_client_java.Concept.{SchemaType, label_of}
use typedb_client_java.Concept.RolePlayers.{
  RolePlayers, same_role, find_role, push, add_player, role_players, players_of, sent_for,
}

abbrev pub role_name : SchemaType → String
role_name r = scoped_name (label_of r)

-- No name occurs twice.
abbrev pub Distinct : List String → Type 0
Distinct [] = Unit
Distinct (n ∷ ns) = All (λ m. m ≢ n) ns × Distinct ns

Distinct-append :
    (ns : List String) (n : String) → All (λ m. m ≢ n) ns → Distinct ns → Distinct (ns ++ n ∷ [])
Distinct-append [] n h d = (tt, tt)
Distinct-append (m ∷ ns) n (h, hs) (d, ds) =
    (All-append (λ k. k ≢ m) ns (n ∷ []) d ((λ e. h (sym e)), tt), Distinct-append ns n hs ds)

module _ {P : Type 0} where
  abbrev pub names : RolePlayers P → List String
  names = map (λ e. role_name e.0)

  -- What a name has, once a player is pushed to a role.
  abbrev with_player : SchemaType → P → String → List P → List P
  with_player role player name ps =
      if same_text (role_name role) name then ps ++ player ∷ [] else ps

  find_role-name :
      (es : RolePlayers P) (role key : SchemaType)
      → find_role es role ≡ some key
      → role_name key ≡ role_name role
  unfolding find_role same_role
  find_role-name [] role key h = cc
  find_role-name (e ∷ es) role key h =
      ground (arith, h, find_role-name es role key, eq_iff (role_name e.0) (role_name role))

  players_of-push :
      (es : RolePlayers P) (role key : SchemaType) (player : P) (name : String)
      → find_role es role ≡ some key
      → players_of name (push key player es) ≡ with_player role player name (players_of name es)
  unfolding find_role push players_of same_role
  players_of-push [] role key player name h = cc
  players_of-push (e ∷ es) role key player name h = ground (
    arith,
    find_role-name (e ∷ es) role key h,
    players_of-push es role key player name,
    eq_iff (role_name e.0) (role_name role),
    eq_iff (role_name e.0) (role_name key),
    eq_iff (role_name e.0) name,
    eq_iff (role_name role) name,
    eq_iff (role_name key) name,
  )

  players_of-new :
      (es : RolePlayers P) (role : SchemaType) (player : P) (name : String)
      → find_role es role ≡ none
      → players_of name (push role player (es ++ (role, []) ∷ []))
        ≡ with_player role player name (players_of name es)
  unfolding find_role push players_of same_role
  players_of-new [] role player name h =
      ground (arith, eq_iff (role_name role) (role_name role), eq_iff (role_name role) name)
  players_of-new (e ∷ es) role player name h = ground (
    arith,
    players_of-new es role player name,
    eq_iff (role_name e.0) (role_name role),
    eq_iff (role_name e.0) name,
    eq_iff (role_name role) name,
  )

  names-push :
      (key : SchemaType) (player : P) (es : RolePlayers P) → names (push key player es) ≡ names es
  unfolding push
  names-push key player [] = refl
  names-push key player (e ∷ es) = ground (arith, names-push key player es)

  names-append :
      (es : RolePlayers P) (role : SchemaType)
      → names (es ++ (role, []) ∷ []) ≡ names es ++ role_name role ∷ []
  names-append [] role = refl
  names-append (e ∷ es) role = ap (λ ns. role_name e.0 ∷ ns) (names-append es role)

  absent-names :
      (es : RolePlayers P) (role : SchemaType)
      → find_role es role ≡ none
      → All (λ n. n ≢ role_name role) (names es)
  unfolding find_role same_role
  absent-names [] role h = tt
  absent-names (e ∷ es) role h =
      ground (arith, absent-names es role, eq_iff (role_name e.0) (role_name role))

  players_of-add_player :
      (role : SchemaType) (player : P) (es : RolePlayers P) (name : String)
      → players_of name (add_player (role, player) es)
        ≡ with_player role player name (players_of name es)
  unfolding add_player
  players_of-add_player role player es name = elim (Option-cases (find_role es role)) [
    | inl new ↦ ground (arith, new, players_of-new es role player name new)
    | inr (key, found) ↦ ground (arith, found, players_of-push es role key player name found)
  ]

  with_player-append :
      (role : SchemaType) (player : P) (name : String) (ps qs : List P)
      → with_player role player name ps ++ qs
        ≡ ps ++ (if same_text (role_name role) name then player ∷ qs else qs)
  with_player-append role player name ps qs = elim (Bool-cases (same_text (role_name role) name)) [
    | inl same ↦ rw same (append_assoc ps (player ∷ []) qs)
    | inr other ↦ rw other refl
  ]

  players_of-for_each :
      (s : Stream (SchemaType × P)) (es : RolePlayers P) (name : String)
      → players_of name (for_each add_player s es).1 ≡ players_of name es ++ sent_for name s
  unfolding for_each sent_for
  players_of-for_each end es name = sym (append-nil (players_of name es))
  players_of-for_each (fails e) es name = sym (append-nil (players_of name es))
  players_of-for_each (item (role, player) s) es name =
      players_of-for_each s (add_player (role, player) es) name
      ∙ ap (λ ps. ps ++ sent_for name s) (players_of-add_player role player es name)
      ∙ with_player-append role player name (players_of name es) (sent_for name s)

  -- The players under a role's name are those that the server sent for roles with that name, in the
  -- order in which they were sent, up to the failure of the stream where there is one.
  pub players_of-role_players :
      (s : Stream (SchemaType × P)) (name : String)
      → players_of name (role_players s).1 ≡ sent_for name s
  unfolding role_players players_of
  players_of-role_players s name = players_of-for_each s [] name

  names-add_player_new :
      (role : SchemaType) (player : P) (es : RolePlayers P)
      → find_role es role ≡ none
      → names (add_player (role, player) es) ≡ names es ++ role_name role ∷ []
  unfolding add_player
  names-add_player_new role player es new =
      ap names (ground (arith, new))
      ∙ names-push role player (es ++ (role, []) ∷ [])
      ∙ names-append es role

  names-add_player_found :
      (role key : SchemaType) (player : P) (es : RolePlayers P)
      → find_role es role ≡ some key
      → names (add_player (role, player) es) ≡ names es
  unfolding add_player
  names-add_player_found role key player es found =
      ap names (ground (arith, found)) ∙ names-push key player es

  add_player-Distinct :
      (role : SchemaType) (player : P) (es : RolePlayers P)
      → Distinct (names es)
      → Distinct (names (add_player (role, player) es))
  add_player-Distinct role player es h = elim (Option-cases (find_role es role)) [
    | inl new ↦
        subst Distinct (sym (names-add_player_new role player es new))
          (Distinct-append (names es) (role_name role) (absent-names es role new) h)
    | inr (key, found) ↦ subst Distinct (sym (names-add_player_found role key player es found)) h
  ]

  for_each-Distinct :
      (s : Stream (SchemaType × P)) (es : RolePlayers P)
      → Distinct (names es)
      → Distinct (names (for_each add_player s es).1)
  unfolding for_each
  for_each-Distinct end es h = h
  for_each-Distinct (fails e) es h = h
  for_each-Distinct (item (role, player) s) es h =
      for_each-Distinct s (add_player (role, player) es) (add_player-Distinct role player es h)

  -- No two keys of the map have one name.
  pub role_players-Distinct : (s : Stream (SchemaType × P)) → Distinct (names (role_players s).1)
  unfolding role_players
  role_players-Distinct s = for_each-Distinct s [] tt
