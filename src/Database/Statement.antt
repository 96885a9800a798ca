-- ===== src/Database/Statement.antt =====
-- SQL statements on the tables `T`: new tables and the answer, or an error and no change.
use merch_store.Base.{ℕ, ◌^◌, ◌-◌, ◌||◌, Result, ok, err, if◌then◌else◌}
use merch_store.Base.Int.{ℤ, pos, negsuc, ltb_ℤ}
use merch_store.Errors.{SqlError, out_of_range}

abbrev pub Sql : Type 0 → Type 0 → Type 0
Sql T A = T → Result SqlError (A × T)

abbrev pub max_int4 : ℕ
max_int4 = 2 ^ 31 - 1

-- A value of type INTEGER.
unfoldable pub int4 : ℤ → Result SqlError ℤ
int4 n = if ltb_ℤ (pos max_int4) n || ltb_ℤ n (negsuc max_int4) then err out_of_range else ok n
