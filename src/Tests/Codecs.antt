-- ===== src/Tests/Codecs.antt =====
-- The encoders of redcli at concrete inputs.
use encoder_rle4k_cpu.Base.{◌≡◌, ◌≢◌, refl, true, [], ◌∷◌, some, arith, ◌++◌}
use encoder_rle4k_cpu.Base.Int.{pos, negsuc, signed32}
use encoder_rle4k_cpu.Bitmap.{Bitmap, ok, throw, validate_bitmap, get_buffer_size, to_int}
use encoder_rle4k_cpu.Libraries.{Verdict}
use encoder_rle4k_cpu.Libraries.Laws.{SameFront}
use encoder_rle4k_cpu.Encoder.{
  gzip, lzo2, snappy, snappy_pack, brotli, get_supported_format, clamp_level, report, gzip_pack,
  internal_pack, pack_result, pack_valid, process_pack,
}
use encoder_rle4k_cpu.Encoder.Levels.{process_pack-RefusesLevels}
use encoder_rle4k_cpu.Encoder.Recovery.{rle4k_decode_payload-process_pack}
use encoder_rle4k_cpu.Decode.{rle4k_decode_payload}
use encoder_rle4k_cpu.Fnv.{rle4k_fnv1a64}
use encoder_rle4k_cpu.Fnv.Detect.{rle4k_fnv1a64_detects}
use encoder_rle4k_cpu.Tests.Toy.{
  toy, block, levels, toy-Documented, toy-RefusesLevels, snappy-Recovers,
}

-- What the copying GZIP makes of the block.
abbrev pub packed : Bitmap
packed = record {
  width = 8;
  height = 2;
  data_length = 2;
  bytes = some (7 ∷ 9 ∷ []);
  source_length = 2;
  format = pos 0x7;
  stride_bytes = 1;
  data_buffer_size = 4;
  compression_ratio = 0;
  raster_elapsed_us = 0;
  encode_elapsed_us = 0;
}

pub packed_lem : process_pack toy gzip (some block) levels ≡ ok packed
unfolding process_pack validate_bitmap pack_valid pack_result internal_pack gzip_pack report
    clamp_level get_supported_format get_buffer_size to_int signed32
packed_lem = refl

snappy_differs : snappy ≢ brotli
snappy_differs e = cc e

snappy_packed_lem :
    process_pack toy snappy (some block) levels ≡ ok (record packed { format = pos 0xA })
unfolding process_pack validate_bitmap pack_valid pack_result internal_pack snappy_pack
    get_supported_format to_int signed32
snappy_packed_lem = refl

rle4k_decode_payload-process_pack_example :
    let v : Verdict =
      rle4k_decode_payload toy
        (get_supported_format snappy)
        (some (record packed { format = pos 0xA }))
        8
        2
        1
        (some (0 ∷ 0 ∷ 0 ∷ []))
        3 in
    (v.done ≡ true) × SameFront 2 v.buffer (some (7 ∷ 9 ∷ []))
rle4k_decode_payload-process_pack_example =
    rle4k_decode_payload-process_pack toy block snappy levels toy-Documented snappy-Recovers
      snappy_differs snappy_packed_lem (some (0 ∷ 0 ∷ 0 ∷ [])) 3 refl (omega arith) (omega arith)
      (omega arith) (omega arith)

process_pack-RefusesLevels_example :
    process_pack toy lzo2 (some block) (record levels { lzo2_level = pos 10 })
    ≡ throw (negsuc 11000)
unfolding validate_bitmap
process_pack-RefusesLevels_example =
    process_pack-RefusesLevels toy block (record levels { lzo2_level = pos 10 }) 10 refl
      (omega arith) toy-RefusesLevels toy-Documented refl

rle4k_fnv1a64_detects_example :
    rle4k_fnv1a64 ((1 ∷ []) ++ 2 ∷ 3 ∷ []) 3 ≢ rle4k_fnv1a64 ((1 ∷ []) ++ 4 ∷ 3 ∷ []) 3
rle4k_fnv1a64_detects_example =
    rle4k_fnv1a64_detects (1 ∷ []) (3 ∷ []) 2 4 3 (omega arith) (omega arith) (omega arith, tt)
      (omega arith) (omega arith) (omega arith)
