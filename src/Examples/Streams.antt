-- ===== src/Examples/Streams.antt =====
-- nodejs/common/util/Stream.ts on streams of numbers.
use typedb_client_java.Prelude.{ℕ, Bool, ltb}
use typedb_client_java.Stream.{Stream, end, item}

abbrev numbers : Stream ℕ
numbers = item 1 (item 5 (item 2 end))

abbrev small : ℕ → Bool
small n = ltb n 4
