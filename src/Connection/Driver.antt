-- ===== src/Connection/Driver.antt =====
-- nodejs/connection/TypeDBDriverImpl.ts. The stubs that `openCloud` opens at the same time are opened
-- one after the other. Sessions are objects named by numbers.
pub mod Addressing
pub mod Sessions
use Prim.Native.Char.{code}
use Prim.Native.String.{◌++◌}
use text.Mathlib.Text.{◌==◌ as same_text}
use typedb_client_java.Prelude.{
  ℕ, List, [], ◌∷◌, ◌++◌ as append, map, Option, none, some, is_some, String, Bool, true, false,
  not, ◌&&◌, ◌||◌, leb, ◌==◌, filter, if◌then◌else◌,
}
use typedb_client_java.Prelude.Assoc.{Assoc, lookup, insert, erase, values}
use typedb_client_java.Errors.Templates.{Driver, driver}
use typedb_client_java.Errors.DriverError.{Thrown, raised, js, of_template, fail_with, show_thrown}
use typedb_client_java.Effect.{
  Result, ok, err, Eff, pure, throw, ◌>>=◌, ◌>>◌, try_catch, try_each, modify,
}
use typedb_client_java.Rpc.Messages.{SessionType}
use typedb_client_java.Connection.Network.{ServerDriver}
use typedb_client_java.Connection.Database.{null_error}

-- The parameter `addresses`: a text, an array, or an object from public to private addresses.
pub data Addresses : Type 0 where
  single : String → Addresses
  listed : List String → Addresses
  translated : Assoc String → Addresses

pub record DriverState (W : Type 0) : Type 0 where
  pub is_open : Bool
  pub is_cloud : Bool
  pub init_addresses : Addresses
  pub username : String
  pub server_drivers : Assoc ServerDriver
  -- Whether `_userManager` is set.
  pub user_manager : Bool
  -- `_sessions`, from ids to objects.
  pub sessions : Assoc ℕ
  pub world : W

-- `/:\d+/.test(address)`: a colon before a digit.
is_digit : ℕ → Bool
is_digit c = leb b'0' c && leb c b'9'

starts_with_digit : String → Bool
unfolding is_digit
starts_with_digit String.[] = false
starts_with_digit (String.◌∷◌ c s) = is_digit (code c)

unfoldable pub has_port : String → Bool
unfolding starts_with_digit
has_port String.[] = false
has_port (String.◌∷◌ c s) = code c == b':' && starts_with_digit s || has_port s

-- `Object.entries(addresses)`, without the keys.
unfoldable pub addresses_of : Addresses → List String
addresses_of (single a) = a ∷ []
addresses_of (listed rest) = rest
addresses_of (translated t) = values t

-- `typeof addresses === 'string'`
unfoldable pub as_list : Addresses → Addresses
as_list (single a) = listed (a ∷ [])
as_list a = a

-- The loop of the constructor.
unfoldable pub check_ports : List String → Result (Unit {0})
unfolding has_port
check_ports [] = ok tt
check_ports (a ∷ rest) =
    if has_port a then check_ports rest else err (fail_with (driver Driver.missing_port) (a ∷ []))

-- The constructor; a credential is given by its user's name.
unfoldable pub new_driver : {W : Type 0} → Addresses → Option String → W → Result (DriverState W)
unfolding addresses_of as_list check_ports
new_driver addresses credential w = elim (check_ports (addresses_of (as_list addresses))) [
  | err e ↦ err e
  | ok _ ↦ ok (record {
    is_open = false;
    is_cloud = is_some credential;
    init_addresses = as_list addresses;
    username = elim credential [ none ↦ "" | some name ↦ name ];
    server_drivers = [];
    user_manager = false;
    sessions = [];
    world = w;
  })
]

-- What the driver uses of stubs and sessions.
pub record Peers (W : Type 0) : Type 0 where
  -- `new TypeDBStubImpl(address, credential)`; the address may be `undefined`.
  pub new_stub : Option String → W → ℕ × W
  pub open_stub : ℕ → Eff W (Unit {0})
  pub servers_all : ℕ → Eff W (List String)
  -- A new session object, opened; its number and its id.
  pub open_session : String → SessionType → Eff W (ℕ × String)

abbrev pub lift : {W A : Type 0} → Eff W A → Eff (DriverState W) A
lift m s = let (r, w) = m s.world in (r, record s { world = w })

-- `xs.join(sep)`
join : String → List String → String
join sep [] = ""
join sep (x ∷ []) = x
join sep (x ∷ y ∷ xs) = x ++ (sep ++ join sep (y ∷ xs))

-- `xs.indexOf(x) !== -1`
unfoldable pub contains : List String → String → Bool
contains [] x = false
contains (y ∷ ys) x = same_text y x || contains ys x

-- `Object.keys(t).find((key) => t[key] == private)`; an empty key counts as none.
unfoldable pub has_public : Assoc String → String → Bool
has_public [] address = false
has_public (e ∷ t) address =
    if same_text e.1 address then not (same_text e.0 "") else has_public t address

-- `addressTranslation[address] = address`, for each address.
unfoldable pub identity : List String → Assoc String → Assoc String
identity [] t = t
identity (a ∷ rest) t = identity rest (insert a a t)

unfoldable pub unknown : Assoc String → List String → List String
unfolding contains
unknown t servers = filter (λ a. not (contains servers a)) (values t)

unfoldable pub unmapped : Assoc String → List String → List String
unfolding has_public
unmapped t servers = filter (λ a. not (has_public t a)) servers

unfoldable pub mismatch : List String → List String → Result (Unit {0})
unfolding join
mismatch [] [] = ok tt
mismatch us ms =
    err (fail_with (driver Driver.address_translation_mismatch) (join ", " us ∷ join ", " ms ∷ []))

unfoldable pub checked : Assoc String → Result (Unit {0}) → Result (Assoc String)
checked t (ok _) = ok t
checked t (err e) = err e

-- The address translation of `openCloud`, given the addresses that the servers advertise.
unfoldable pub translation : Addresses → List String → Result (Assoc String)
unfolding identity unknown unmapped mismatch checked
translation (single _) servers = ok (identity servers [])
translation (listed _) servers = ok (identity servers [])
translation (translated t) servers = checked t (mismatch (unknown t servers) (unmapped t servers))

unfoldable pub from_result : {S A : Type 0} → Result A → Eff S A
from_result r s = (r, s)

module _ {W : Type 0} (peers : Peers W) where
  -- `this.serverDrivers.set(id, new ServerDriver(address, stub))`
  unfoldable pub add_driver : String → String → ℕ → Eff (DriverState W) (Unit {0})
  add_driver id address stub = modify λ s. record s {
    server_drivers = insert id (record { address = address; stub = stub }) s.server_drivers;
  }

  unfoldable pub new_stub : Option String → Eff (DriverState W) ℕ
  new_stub address s =
      let (stub, w) = peers.new_stub address s.world in (ok stub, record s { world = w })

  -- The loop over the translation, with the stubs whose opening is awaited.
  unfoldable pub connect : Assoc String → Eff (DriverState W) (List ℕ)
  unfolding add_driver new_stub
  connect [] = pure []
  connect ((id, address) ∷ t) = new_stub (some address) >>= λ stub.
      (add_driver id address stub >> connect t >>= λ stubs. pure (stub ∷ stubs))

  -- `Promise.any`: every stub is opened, and one that opens is enough.
  unfoldable pub open_any : List ℕ → W → Bool × W
  open_any [] w = (false, w)
  open_any (stub ∷ stubs) w =
      let (r, w') = peers.open_stub stub w in
      let (rest, w'') = open_any stubs w' in (elim r [ ok _ ↦ true | err _ ↦ rest ], w'')

  unable : String → Thrown
  unable shown = fail_with (driver Driver.cloud_unable_to_connect) (shown ∷ [])

  unfoldable pub await_any : List ℕ → Eff (DriverState W) (Unit {0})
  unfolding open_any unable
  await_any stubs s =
      let (opened, w) = open_any stubs s.world in
      (
        if opened then ok tt else err (unable "AggregateError: All promises were rejected"),
        record s { world = w },
      )

  unfoldable pub set_open : Eff (DriverState W) (Unit {0})
  set_open = modify λ s. record s { is_open = true }

  -- `this._userManager = new UserManagerImpl(this)`
  unfoldable pub set_user_manager : Eff (DriverState W) (Unit {0})
  set_user_manager = modify λ s. record s { user_manager = true }

  -- `openCloud`, once the servers' addresses are known.
  unfoldable pub open_servers : List String → Eff (DriverState W) (Unit {0})
  unfolding from_result await_any set_user_manager set_open
  open_servers servers s =
      (from_result (translation s.init_addresses servers)
          >>= connect
          >>= await_any
          >> set_user_manager
          >> set_open)
        s

  unfoldable pub fetch_from : String → Eff (DriverState W) (List String)
  unfolding new_stub
  fetch_from address = new_stub (some address) >>= λ stub.
      (lift (peers.open_stub stub) >> lift (peers.servers_all stub))

  -- `fetchCloudServerAddresses`: any error goes on with the next address.
  unfoldable pub fetch_servers : List String → Eff (DriverState W) (List String)
  unfolding fetch_from unable join
  fetch_servers addresses = try_each fetch_from (λ _. true) (unable (join "," addresses)) addresses

  unfoldable pub open_cloud : Eff (DriverState W) (Unit {0})
  unfolding fetch_servers
  open_cloud s = (fetch_servers (addresses_of s.init_addresses) >>= open_servers) s

  -- `(this._initAddresses as string[])[0]`, `undefined` where there is none.
  unfoldable pub first_address : Addresses → Option String
  first_address (single a) = some a
  first_address (listed []) = none
  first_address (listed (a ∷ _)) = some a
  first_address (translated t) = lookup "0" t

  -- `servers[0].address`
  unfoldable pub advertised : List String → Eff (DriverState W) String
  advertised [] = throw null_error
  advertised (a ∷ _) = pure a

  -- `new ServerDriver(serverAddress, serverStub)`; an address that is `undefined` shows as "undefined".
  unfoldable pub or_undefined : Option String → String
  or_undefined none = "undefined"
  or_undefined (some a) = a

  unfoldable pub open_core : Eff (DriverState W) (Unit {0})
  unfolding new_stub first_address advertised add_driver set_open or_undefined
  open_core s =
      (new_stub (first_address s.init_addresses) >>= λ stub.
      (lift (peers.open_stub stub) >> lift (peers.servers_all stub) >>= advertised >>= λ id.
      (add_driver id (or_undefined (first_address s.init_addresses)) stub >> set_open)))
        s

  unfoldable pub open_driver : Eff (DriverState W) (Unit {0})
  unfolding open_cloud open_core
  open_driver s = if s.is_cloud then open_cloud s else open_core s

  -- `if (!this.isOpen()) throw new TypeDBDriverError(DRIVER_NOT_OPEN)`
  unfoldable pub unless_closed : Bool → Result (Unit {0})
  unless_closed true = ok tt
  unless_closed false = err (raised (of_template (driver Driver.driver_not_open)))

  unfoldable pub require_open : Eff (DriverState W) (Unit {0})
  unfolding unless_closed from_result
  require_open s = from_result (unless_closed s.is_open) s

  unfoldable pub register_at : Option ℕ → ℕ → String → Eff (DriverState W) ℕ
  register_at (some _) session id s =
      (err (fail_with (driver Driver.session_id_exists) (id ∷ [])), s)
  register_at none session id s = (ok session, record s { sessions = insert id session s.sessions })

  unfoldable pub register : ℕ × String → Eff (DriverState W) ℕ
  unfolding register_at
  register (session, id) s = register_at (lookup id s.sessions) session id s

  unfoldable pub session : String → SessionType → Eff (DriverState W) ℕ
  unfolding require_open register
  session database type = require_open >> lift (peers.open_session database type) >>= register

  -- `closeSession`, of a session with this id.
  unfoldable pub close_session : String → Eff (DriverState W) (Unit {0})
  close_session id = modify λ s. record s { sessions = erase id s.sessions }

  -- `close`: `Object.values` of a `Map` is empty, so the loop closes nothing.
  unfoldable pub close : Eff (DriverState W) (Unit {0})
  close = modify λ s. record s { is_open = false }
