-- ===== src/Connection/Options.antt =====
-- nodejs/api/connection/TypeDBOptions.ts. A field that is not set is `none`. Numbers are integers.
pub mod Bounds
use Prim.Native.String.{◌++◌}
use typedb_client_java.Prelude.{
  ℕ, suc, List, [], ◌∷◌, Option, none, some, String, Bool, true, false, ltb, if◌then◌else◌,
}
use typedb_client_java.Errors.Templates.{Driver, driver}
use typedb_client_java.Errors.DriverError.{Thrown, fail_with}
use typedb_client_java.Errors.Code.{show}
use typedb_client_java.Effect.{Result, ok, err, Eff, pure, throw, ◌>>=◌, ◌>>◌, modify}

-- `negsuc n` is -(n + 1).
pub data ℤ : Type 0 where
  pos : ℕ → ℤ
  negsuc : ℕ → ℤ

-- `value < 1`, and `${value}`.
unfoldable pub below_one : ℤ → Bool
below_one (pos n) = ltb n 1
below_one (negsuc n) = true

show_int : ℤ → String
show_int (pos n) = show n
show_int (negsuc n) = "-" ++ show (suc n)

pub record Options : Type 0 where
  pub infer : Option Bool
  pub trace_inference : Option Bool
  pub explain : Option Bool
  pub parallel : Option Bool
  pub prefetch_size : Option ℤ
  pub prefetch : Option Bool
  pub session_idle_timeout_millis : Option ℤ
  pub transaction_timeout_millis : Option ℤ
  pub schema_lock_acquire_timeout_millis : Option ℤ
  pub read_any_replica : Option Bool

unfoldable pub no_options : Options
no_options = record {
  infer = none;
  trace_inference = none;
  explain = none;
  parallel = none;
  prefetch_size = none;
  prefetch = none;
  session_idle_timeout_millis = none;
  transaction_timeout_millis = none;
  schema_lock_acquire_timeout_millis = none;
  read_any_replica = none;
}

-- An assignment to a field: of a flag, or of a number.
pub data Flag : Type 0 where
  infer trace_inference explain parallel prefetch read_any_replica : Flag

pub data Number : Type 0 where
  prefetch_size session_idle_timeout_millis transaction_timeout_millis : Number
  schema_lock_acquire_timeout_millis : Number

pub data Setting : Type 0 where
  flag : Flag → Bool → Setting
  number : Number → ℤ → Setting

set_flag : Flag → Bool → Options → Options
set_flag infer b o = record o { infer = some b }
set_flag trace_inference b o = record o { trace_inference = some b }
set_flag explain b o = record o { explain = some b }
set_flag parallel b o = record o { parallel = some b }
set_flag prefetch b o = record o { prefetch = some b }
set_flag read_any_replica b o = record o { read_any_replica = some b }

set_number : Number → ℤ → Options → Options
set_number prefetch_size n o = record o { prefetch_size = some n }
set_number session_idle_timeout_millis n o = record o { session_idle_timeout_millis = some n }
set_number transaction_timeout_millis n o = record o { transaction_timeout_millis = some n }
set_number schema_lock_acquire_timeout_millis n o = record o {
  schema_lock_acquire_timeout_millis = some n;
}

-- The setters.
unfoldable pub set : Setting → Eff Options (Unit {0})
unfolding set_flag set_number below_one show_int
set (flag f b) = modify (set_flag f b)
set (number f n) =
    if below_one n
    then throw (fail_with (driver Driver.negative_value_not_allowed) (show_int n ∷ []))
    else modify (set_number f n)

-- `Object.assign(this, obj)`: the setters, in the order of the object's keys.
unfoldable pub assign : List Setting → Eff Options (Unit {0})
unfolding set
assign [] = pure tt
assign (x ∷ xs) = set x >> assign xs

-- The constructor.
unfoldable pub new_options : List Setting → Result (Unit {0}) × Options
unfolding assign no_options
new_options obj = assign obj no_options

-- The message that a request carries: each of its fields is set where the option is.
pub record OptionsProto : Type 0 where
  pub flags : Flag → Option Bool
  pub numbers : Number → Option ℤ

unfoldable pub proto : Options → OptionsProto
proto o = record {
  flags = elim [
    | infer ↦ o.infer
    | trace_inference ↦ o.trace_inference
    | explain ↦ o.explain
    | parallel ↦ o.parallel
    | prefetch ↦ o.prefetch
    | read_any_replica ↦ o.read_any_replica
  ];
  numbers = elim [
    | prefetch_size ↦ o.prefetch_size
    | session_idle_timeout_millis ↦ o.session_idle_timeout_millis
    | transaction_timeout_millis ↦ o.transaction_timeout_millis
    | schema_lock_acquire_timeout_millis ↦ o.schema_lock_acquire_timeout_millis
  ];
}
