-- ===== src/Base/Words.antt =====
-- Go's integer conversions, and `%d` of `fmt`.
use Prim.Native.String.{◌++◌}
use Prim.Native.Nat.{ℕ, zero, suc, ◌-◌, ◌/◌, ◌%◌, ◌^◌}
use Prim.Native.String.{String}
use merch_store.Base.Tests.{ltb, eqb, if◌then◌else◌}
use merch_store.Base.Int.{ℤ, pos, negsuc}

-- `uint32(n)` for an `int`.
unfoldable pub to_uint32 : ℤ → ℕ
to_uint32 (pos n) = n % 2 ^ 32
to_uint32 (negsuc n) = 2 ^ 32 - 1 - n % 2 ^ 32

-- `int32(n)` for an `int`.
unfoldable pub to_int32 : ℤ → ℤ
unfolding to_uint32
to_int32 n = let m = to_uint32 n in if ltb m (2 ^ 31) then pos m else negsuc (2 ^ 32 - 1 - m)

digit_text : ℕ → String
digit_text n =
    if eqb n 0
    then "0"
    else if eqb n 1
    then "1"
    else if eqb n 2
    then "2"
    else if eqb n 3
    then "3"
    else if eqb n 4
    then "4"
    else if eqb n 5
    then "5"
    else if eqb n 6
    then "6"
    else if eqb n 7
    then "7"
    else if eqb n 8
    then "8"
    else "9"

-- Digits of `n` before `out`; each round divides by ten, so a fuel above `n` is enough.
show_before : ℕ → ℕ → String → String
unfolding digit_text
show_before zero n out = out
show_before (suc fuel) n out =
    let rest = show_before fuel (n / 10) (digit_text (n % 10) ++ out) in
    if ltb n 10 then digit_text n ++ out else rest

-- `fmt.Sprintf("%d", n)`
unfoldable pub show_int : ℤ → String
unfolding show_before
show_int (pos n) = show_before (suc n) n ""
show_int (negsuc n) = "-" ++ show_before (suc (suc n)) (suc n) ""
