-- ===== src/Wire/Runs.antt =====
-- The wire format on concrete bytes, and its theorems at them.
use cloud_native_tour.Common.{◌+◌, ◌≡◌, ◌≢◌, refl, [], ◌∷◌, ◌++◌, length, arith}
use cloud_native_tour.Wire.Result.{ok, err, stuck, unexpected_eof}
use cloud_native_tour.Wire.Varint.{sov_generated, encode_varint_generated, read_varint}
use cloud_native_tour.Wire.Varint.Groups.{groups, varint}
use cloud_native_tour.Wire.Varint.Size.{sov_generated-varint}
use cloud_native_tour.Wire.Varint.Read.{read_varint-varint}
use cloud_native_tour.Wire.Varint.Encode.{encode_varint_generated-varint}
use cloud_native_tour.Wire.Skip.{skip_generated, skip_loop, skip_round}
use cloud_native_tour.Wire.Skip.Total.{skip_generated-ne-stuck}

sov_300 : sov_generated 300 ≡ 2
unfolding sov_generated
sov_300 = refl

encode_300 : encode_varint_generated (9 ∷ 0 ∷ 0 ∷ 7 ∷ []) 3 300 ≡ ok (9 ∷ 0xac ∷ 0x02 ∷ 7 ∷ [], 1)
unfolding encode_varint_generated
encode_300 = refl

read_300 : read_varint (9 ∷ 0xac ∷ 0x02 ∷ 7 ∷ []) 1 ≡ ok (300, 3)
unfolding read_varint
read_300 = refl

read_cut : read_varint (0xac ∷ []) 0 ≡ err unexpected_eof
unfolding read_varint
read_cut = refl

-- A group with a number in it, then a byte that is not skipped.
skip_group : skip_generated (0x0b ∷ 0x10 ∷ 0x05 ∷ 0x0c ∷ 0xff ∷ []) ≡ ok 4
unfolding skip_generated skip_loop skip_round read_varint
skip_group = refl

sov_generated-varint_example : sov_generated 300 ≡ length (varint 300)
sov_generated-varint_example = sov_generated-varint 300 (omega arith)

read_varint-varint_example :
    read_varint (9 ∷ 0xac ∷ 0x02 ∷ 7 ∷ []) 1 ≡ ok (300, 1 + length (varint 300))
unfolding varint groups
read_varint-varint_example =
    read_varint-varint (9 ∷ 0xac ∷ 0x02 ∷ 7 ∷ []) 1 300 (omega arith)
      (record { front = 9 ∷ []; back = 7 ∷ []; whole = refl; start = refl })

encode_varint_generated-varint_example :
    encode_varint_generated (9 ∷ 0 ∷ 0 ∷ 7 ∷ []) 3 300
    ≡ ok ((9 ∷ []) ++ (varint 300 ++ (7 ∷ [])), 1)
unfolding varint groups
encode_varint_generated-varint_example =
    encode_varint_generated-varint 300 (9 ∷ []) (0 ∷ 0 ∷ []) (7 ∷ []) (omega arith) (omega arith)

skip_generated-ne-stuck_example : skip_generated (0x0b ∷ 0x10 ∷ []) ≢ stuck
skip_generated-ne-stuck_example = skip_generated-ne-stuck (0x0b ∷ 0x10 ∷ []) (omega arith)
