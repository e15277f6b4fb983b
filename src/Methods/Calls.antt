-- ===== src/Methods/Calls.antt =====
-- The methods `execute` and `stream` of nodejs/concept/type and nodejs/concept/thing, over what the
-- transaction answers to a request and delivers for one.
use typedb_client_java.Prelude.{List, Option, none, some}
use typedb_client_java.Errors.DriverError.{Thrown, js}
use typedb_client_java.Effect.{Result, ok, err, Eff, pure, throw, ◌>>=◌}
use typedb_client_java.Stream.{Stream, fails, array, flat_mapped}
use typedb_client_java.Query.{mapped_try}
use typedb_client_java.Methods.Messages.{
  TransactionReq, TransactionRes, RoleTypeRes, ThingTypeRes, thing_type_res, role_type_res,
  TransactionResPart, RoleTypeResPart, ThingTypeResPart, ThingResPart, role_type_res_part,
  thing_type_res_part, thing_res_part,
}

-- A field is read of what a response does not have.
unfoldable pub no_field : Thrown
no_field = js "TypeError: Cannot read properties of undefined"

unfoldable pub from_result : {W A : Type 0} → Result A → Eff W A
from_result r w = (r, w)

-- What `f` reads of a response, where it is set.
unfoldable pub field : {R A : Type 0} → (R → Result A) → Option R → Result A
unfolding no_field
field f none = err no_field
field f (some r) = f r

module _ {N W : Type 0} (rpc_execute : TransactionReq N → Eff W (TransactionRes N)) where
  -- `(await ext.rpcExecute(request, false)).type_res.thing_type_res`
  unfoldable pub thing_type_execute : TransactionReq N → Eff W (Option (ThingTypeRes N))
  unfolding no_field
  thing_type_execute req = rpc_execute req >>= elim [
    | thing_type_res r ↦ pure (some r)
    | role_type_res r ↦ pure none
    | _ ↦ throw no_field
  ]

  -- `(await ext.rpcExecute(request, false)).type_res.role_type_res`
  unfoldable pub role_type_execute : TransactionReq N → Eff W (Option RoleTypeRes)
  unfolding no_field
  role_type_execute req = rpc_execute req >>= elim [
    | role_type_res r ↦ pure (some r)
    | thing_type_res r ↦ pure none
    | _ ↦ throw no_field
  ]

  -- The answer to a request about a thing is never read.
  unfoldable pub thing_execute : TransactionReq N → Eff W (Unit {0})
  thing_execute req = rpc_execute req >>= λ _. pure tt

  -- A method that awaits the response only.
  unfoldable pub thing_type_run : TransactionReq N → Eff W (Unit {0})
  unfolding thing_type_execute
  thing_type_run req = thing_type_execute req >>= λ _. pure tt

  unfoldable pub role_type_run : TransactionReq N → Eff W (Unit {0})
  unfolding role_type_execute
  role_type_run req = role_type_execute req >>= λ _. pure tt

  -- A method that reads a field of the response.
  unfoldable pub thing_type_read :
      {A : Type 0} → (ThingTypeRes N → Result A) → TransactionReq N → Eff W A
  unfolding thing_type_execute field from_result
  thing_type_read f req = thing_type_execute req >>= λ r. from_result (field f r)

module _ {N : Type 0} where
  -- `res.type_res_part.role_type_res_part` and its like. Where it is `undefined`, the next function
  -- of the stream throws.
  unfoldable pub role_type_part : TransactionResPart N → Result (RoleTypeResPart N)
  unfolding no_field
  role_type_part (role_type_res_part p) = ok p
  role_type_part _ = err no_field

  unfoldable pub thing_type_part : TransactionResPart N → Result (ThingTypeResPart N)
  unfolding no_field
  thing_type_part (thing_type_res_part p) = ok p
  thing_type_part _ = err no_field

  unfoldable pub thing_part : TransactionResPart N → Result (ThingResPart N)
  unfolding no_field
  thing_part (thing_res_part p) = ok p
  thing_part _ = err no_field

-- `Stream.array(part.items)`
unfoldable pub part_array : {R P : Type 0} → (R → Result (List P)) → R → Stream P
part_array items part = elim (items part) [ ok xs ↦ array xs | err e ↦ fails e ]

-- `this.stream(transaction, request).flatMap(part => Stream.array(part.items)).map(read)`
unfoldable pub items_of :
    {M R P A : Type 0}
    → (M → Result R)
    → (R → Result (List P))
    → (P → Result A)
    → Stream M
    → Stream A
unfolding part_array
items_of to_part items read s =
    mapped_try read (flat_mapped (part_array items) (mapped_try to_part s))
