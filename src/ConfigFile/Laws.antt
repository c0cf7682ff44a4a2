-- ===== src/ConfigFile/Laws.antt =====
-- What the configuration file needs of the file system.
use encoder_rle4k_cpu.Base.{◌≡◌, true, some}
use encoder_rle4k_cpu.Text.{Text, codes}
use encoder_rle4k_cpu.System.{System}

pub record KeepsFiles (S : System) : Type 0 where
  -- A text that an `ofstream` has written without an error is in the file.
  pub write-exists :
      (disk opened : S.Disk) (path t : Text)
      → S.open_out disk path ≡ some opened
      → (S.write opened path t).1 ≡ true
      → S.exists (S.write opened path t).0 path ≡ true
  pub write-read :
      (disk opened : S.Disk) (path t : Text)
      → S.open_out disk path ≡ some opened
      → (S.write opened path t).1 ≡ true
      → S.read (S.write opened path t).0 path ≡ some t
  -- `./redcli.json` is `redcli.json`.
  pub exists-dot :
      (disk : S.Disk) → S.exists disk (codes "./redcli.json") ≡ S.exists disk (codes "redcli.json")
  pub read-dot :
      (disk : S.Disk) → S.read disk (codes "./redcli.json") ≡ S.read disk (codes "redcli.json")
