-- ===== src/Tests/Machine.antt =====
-- A concrete machine for the tests: numbers for `double`, a disk that is a list of files, a folder
-- without directories, and a loader whose documents are one block wide.
use encoder_rle4k_cpu.Base.{
  ℕ, ◌+◌, ◌-◌, ◌*◌, ◌/◌, ◌≡◌, refl, ap, Bool, true, false, List, [], ◌∷◌, Option, none, some, arith,
  ltb, ◌==◌, if◌then◌else◌,
}
use encoder_rle4k_cpu.Base.Int.{ℤ, pos, pos_part}
use encoder_rle4k_cpu.Bitmap.{ok}
use encoder_rle4k_cpu.Text.{Text, codes, same}
use encoder_rle4k_cpu.Text.Search.{same_refl}
use encoder_rle4k_cpu.Text.Number.{stoi}
use encoder_rle4k_cpu.Text.Decimal.{show_ℕ, AllDigits, show_ℕ-AllDigits}
use encoder_rle4k_cpu.Double.{Double}
use encoder_rle4k_cpu.System.{System}
use encoder_rle4k_cpu.ConfigFile.Laws.{KeepsFiles}
use encoder_rle4k_cpu.Report.Commas.{commas}
use encoder_rle4k_cpu.Run.{Tools, loaded}
use encoder_rle4k_cpu.Tests.Toy.{toy, block}

abbrev whole : Option ℤ → Option ℕ
whole none = none
whole (some z) = some (pos_part z)

abbrev pub numbers : Double
numbers = record {
  W = ℕ;
  literal = λ n digits. n;
  of_ℤ = pos_part;
  add = λ a b. a + b;
  sub = λ a b. a - b;
  mul = λ a b. a * b;
  div = λ a b. a / b;
  less = ltb;
  to_int = pos;
  ceil_int = pos;
  atof = λ t. 500;
  stod = λ t. whole (stoi t);
  fixed = λ digits x. show_ℕ x;
}

digits_plain : (t : Text) → AllDigits t → commas t ≡ 0
unfolding commas
digits_plain [] all = refl
digits_plain (c ∷ t) all =
    let other : (c == b',') ≡ false = ground arith in rw (other, digits_plain t (all.1)) refl

pub numbers_plain : (digits x : ℕ) → commas (show_ℕ x) ≡ 0
numbers_plain digits x = digits_plain (show_ℕ x) (show_ℕ-AllDigits x)

-- `./` in front names the same file.
abbrev plain_path : Text → Text
plain_path [] = []
plain_path (a ∷ []) = a ∷ []
plain_path (a ∷ b ∷ p) = if same (a ∷ b ∷ []) (codes "./") then p else a ∷ b ∷ p

abbrev Files : Type 0
Files = List (Text × Text)

abbrev look : Files → Text → Option Text
look [] p = none
look ((q, t) ∷ files) p = let rest = look files p in if same p q then some t else rest

abbrev found : Option Text → Bool
found none = false
found (some t) = true

abbrev pub machine : System
machine = record {
  Disk = Files;
  on_windows = false;
  module_file_name = none;
  parent_path = λ p. [];
  filename = λ p. p;
  exists = λ disk p. found (look disk (plain_path p));
  create_directories = λ disk p. disk;
  regular_files = λ disk p. none;
  read = λ disk p. look disk (plain_path p);
  open_out = λ disk p. some ((plain_path p, []) ∷ disk);
  write = λ disk p t. ((plain_path p, t) ∷ disk, true);
  getenv = λ v. none;
  system = λ disk command. (disk, pos 0);
  shell_execute = λ disk p. (disk, pos 33);
}

pub machine-KeepsFiles : KeepsFiles machine
unfolding same
machine-KeepsFiles = record {
  write-exists = λ disk opened p t o done.
      ap (λ b. found (if b then some t else look opened (plain_path p))) (same_refl (plain_path p));
  write-read = λ disk opened p t o done.
      ap (λ b. if b then some t else look opened (plain_path p)) (same_refl (plain_path p));
  exists-dot = λ disk. refl;
  read-dot = λ disk. refl;
}

-- A file with text is a document of one block.
abbrev pub toy_tools : Tools numbers machine
toy_tools = record {
  lib = toy;
  Document = Unit {0};
  load = λ disk file. loaded tt;
  layer_count = λ document. 1;
  min_x = λ document. 0;
  max_x = λ document. 8000000;
  min_y = λ document. 0;
  max_y = λ document. 2000000;
  rasterize = λ document pw width height col row. ok (some block);
  per_us = 1;
  load_clock = λ file. (1000, 2000);
  clock = λ file fi col phase row0 rep. record {
    spawned = 0;
    joined = 1000;
    turns = record { thread = 0; row = row0; started = 0; stopped = 1000 } ∷ [];
    check_started = 1000;
    checked = 2000;
  };
}
