-- ===== src/Mips/Tests.antt =====
-- Runs of the multiplication, and its theorem at two operands.
use nachos_lab.Base.{◌+◌, ◌*◌, ◌-◌, ◌^◌, ◌%◌, ◌<◌, ◌≡◌, refl, true, false, arith, if◌then◌else◌}
use nachos_lab.Mips.{mult, mult_loop}
use nachos_lab.Mips.Decode.{decode, op_sll}
use nachos_lab.Mips.Fields.{immediate_word, register_word, decode-fields}
use nachos_lab.Base.Int.{negsuc, int_of_word}
use nachos_lab.Mips.Product.{magnitude, differ, mult-unsigned, mult-signed}

-- -3 times 5 is -15, and 2 ^ 31 + 1 times 6 has a high word.
tests_mult :
    (mult (2 ^ 32 - 3) 5 true ≡ (2 ^ 32 - 1, 2 ^ 32 - 15)) × (mult (2 ^ 31 + 1) 6 false ≡ (3, 6))
unfolding mult mult_loop
tests_mult = (refl, refl)

tests_mult_unsigned :
    ((mult (2 ^ 31 + 1) 6 false).0 * 2 ^ 32 + (mult (2 ^ 31 + 1) 6 false).1 ≡ (2 ^ 31 + 1) * 6)
    × ((mult (2 ^ 31 + 1) 6 false).0 < 2 ^ 32)
    × ((mult (2 ^ 31 + 1) 6 false).1 < 2 ^ 32)
tests_mult_unsigned = mult-unsigned (2 ^ 31 + 1) 6 (omega arith) (omega arith)

mult-signed_example :
    (if differ (2 ^ 32 - 3) 5
      then ((mult (2 ^ 32 - 3) 5 true).0 * 2 ^ 32
          + (mult (2 ^ 32 - 3) 5 true).1
          + magnitude (2 ^ 32 - 3) * magnitude 5)
        % 2 ^ 64
      else (mult (2 ^ 32 - 3) 5 true).0 * 2 ^ 32 + (mult (2 ^ 32 - 3) 5 true).1)
    ≡ (if differ (2 ^ 32 - 3) 5 then 0 else magnitude (2 ^ 32 - 3) * magnitude 5)
mult-signed_example = mult-signed (2 ^ 32 - 3) 5 (omega arith) (omega arith)

-- `addiu $29, $29, -8`
tests_decode : (decode 0x27bdfff8).extra ≡ 2 ^ 32 - 8
unfolding decode
tests_decode = refl

-- lw $4, -8($29), and sll of register 4 into 8.
decode-fields_example :
    ((decode (immediate_word 35 29 4 65528)).rs ≡ 29)
    × ((decode (immediate_word 35 29 4 65528)).rt ≡ 4)
    × (int_of_word (decode (immediate_word 35 29 4 65528)).extra ≡ negsuc 7)
    × ((decode (register_word 29 4 8 2 0)).op_code ≡ op_sll)
    × ((decode (register_word 29 4 8 2 0)).rs ≡ 29)
    × ((decode (register_word 29 4 8 2 0)).rt ≡ 4)
    × ((decode (register_word 29 4 8 2 0)).rd ≡ 8)
    × ((decode (register_word 29 4 8 2 0)).extra ≡ 2)
decode-fields_example =
    decode-fields 35 29 4 8 2 0 65528 (omega arith) (omega arith) (omega arith) (omega arith)
      (omega arith) (omega arith) (omega arith) refl
