-- ===== src/Base/Ids.antt =====
-- Identifiers. `Uuid` values are compared only; `Uuid::new_v4()` is an argument of the code that
-- calls it.
use Prim.Native.Nat.{ℕ}

abbrev pub Uuid : Type 0
Uuid = ℕ
