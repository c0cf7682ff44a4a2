-- ===== src/Factory.antt =====
-- The registry of encoders (`format_encoder_factory` of redcli/rle4k_format_encoder.h and .cpp) and the
-- choice of formats of a run (redcli/main.cpp). A `std::map` from int is a list of pairs in the order
-- of its keys.
pub mod Serves
use encoder_rle4k_cpu.Base.{
  ℕ, Bool, true, false, List, [], ◌∷◌, ◌++◌, Option, none, some, map, if◌then◌else◌,
}
use encoder_rle4k_cpu.Base.Int.{ℤ, pos, negsuc, ltb_ℤ, eq_ℤ}
use encoder_rle4k_cpu.Format.{map_format_id, format_lut}
use encoder_rle4k_cpu.Encoder.{
  Encoder, rle4k, gzip, lzo2, snappy, zstd, brotli, get_supported_format, get_supported_formats,
}

abbrev pub Processors : Type 0
Processors = List (ℤ × Encoder)

-- `processors.find(fmt)`
unfoldable pub get_encoder : Processors → ℤ → Option Encoder
get_encoder [] fmt = none
get_encoder ((key, e) ∷ rest) fmt = if eq_ℤ fmt key then some e else get_encoder rest fmt

-- `processors[fmt] = …`
unfoldable pub put : ℤ → Encoder → Processors → Processors
put fmt e [] = (fmt, e) ∷ []
put fmt e ((key, f) ∷ rest) =
    let further = put fmt e rest in
    if ltb_ℤ fmt key
    then (fmt, e) ∷ (key, f) ∷ rest
    else if eq_ℤ fmt key
    then (fmt, e) ∷ rest
    else (key, f) ∷ further

unfoldable pub put_all : List ℤ → Encoder → Processors → Processors
unfolding put
put_all [] e processors = processors
put_all (fmt ∷ fmts) e processors = put_all fmts e (put fmt e processors)

-- A null pointer registers nothing.
unfoldable pub register_processor : Option Encoder → Processors → Processors
unfolding put_all get_supported_formats
register_processor none processors = processors
register_processor (some e) processors = put_all (get_supported_formats e) e processors

unfoldable pub is_format_supported : Processors → ℤ → Bool
unfolding get_encoder
is_format_supported processors fmt = elim (get_encoder processors fmt) [
  | some e ↦ true
  | none ↦ false
]

unfoldable pub registered_formats : Processors → List ℤ
registered_formats [] = []
registered_formats ((key, e) ∷ rest) = key ∷ registered_formats rest

unfoldable pub initialize_default_processors : Processors
unfolding register_processor
initialize_default_processors = register_processor (some brotli) (
    register_processor (some zstd) (
      register_processor (some snappy) (
        register_processor (some lzo2)
          (register_processor (some gzip) (register_processor (some rle4k) [])))))

-- The ids of the configuration that the table knows.
unfoldable pub known_formats : List ℤ → List ℤ
unfolding map_format_id
known_formats [] = []
known_formats (id ∷ ids) =
    let rest = known_formats ids in
    if ltb_ℤ (map_format_id id) (pos 0) then rest else map_format_id id ∷ rest

-- `if (fmts.empty()) fmts = {0x4,0x7,0xB,0xA,0x8,0xF};`
abbrev pub or_all : List ℤ → List ℤ
or_all [] = format_lut
or_all (f ∷ fs) = f ∷ fs

-- The formats of a run.
unfoldable pub chosen_formats : List ℤ → List ℤ
unfolding known_formats
chosen_formats ids = or_all (known_formats ids)
