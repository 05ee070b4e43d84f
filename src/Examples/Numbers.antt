-- ===== src/Examples/Numbers.antt =====
-- The integer routines at concrete words.
use hellfireos.Base.{◌+◌, ◌-◌, ◌*◌, ◌/◌, ◌%◌, ◌^◌, ◌≡◌, some, arith}
use hellfireos.Libc.Arithmetic.{udivmodsi4}
use hellfireos.Libc.Arithmetic.Divide.{udivmodsi4_lem}
use hellfireos.Libc.Wide.{muldi3, udivmoddi4, moddi3}
use hellfireos.Libc.Wide.Product.{muldi3_lem}
use hellfireos.Libc.Wide.Divide.{udivmoddi4_lem, moddi3_lem}

udivmodsi4_lem_example : (udivmodsi4 1000 7 0 ≡ some 142) × (udivmodsi4 1000 7 1 ≡ some 6)
udivmodsi4_lem_example = udivmodsi4_lem 1000 7 (omega arith) (omega arith)

muldi3_lem_example : muldi3 (2 ^ 40 + 3) (2 ^ 30 + 5) ≡ some ((2 ^ 40 + 3) * (2 ^ 30 + 5) % 2 ^ 64)
muldi3_lem_example = muldi3_lem (2 ^ 40 + 3) (2 ^ 30 + 5) (omega arith) (omega arith)

udivmoddi4_lem_example : udivmoddi4 (2 ^ 40 + 9) 10 ≡ some ((2 ^ 40 + 9) / 10, (2 ^ 40 + 9) % 10)
udivmoddi4_lem_example = udivmoddi4_lem (2 ^ 40 + 9) 10 (omega arith)

-- 7 % -2 is -1 and not 1.
moddi3_lem_example : moddi3 7 (2 ^ 64 - 2) ≡ some (2 ^ 64 - 1)
moddi3_lem_example = moddi3_lem 7 (2 ^ 64 - 2) (omega arith) (omega arith)
