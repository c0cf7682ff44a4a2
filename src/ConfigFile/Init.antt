-- ===== src/ConfigFile/Init.antt =====
-- `redcli init`, and the run that follows it.
use encoder_rle4k_cpu.Base.{◌≡◌, refl, ap, sym, ◌∙◌, subst, Bool, true, false, Option, some, ◌>>=◌}
use encoder_rle4k_cpu.Base.Int.{pos}
use encoder_rle4k_cpu.Text.{Text, codes}
use encoder_rle4k_cpu.Double.{Double}
use encoder_rle4k_cpu.System.{System, World}
use encoder_rle4k_cpu.Config.{BenchConfig, default_config}
use encoder_rle4k_cpu.Config.Documented.{documented_config, read_config-builtin}
use encoder_rle4k_cpu.Config.Builtin.{rle4k_builtin_default_config_json}
use encoder_rle4k_cpu.ConfigFile.{
  resolve_in, rle4k_config_search_dirs, rle4k_resolve_config_path, rle4k_write_default_config,
  rle4k_cmd_init, exit_unless,
}
use encoder_rle4k_cpu.ConfigFile.Start.{
  Loaded, load_config, load_text, load_resolved, report_config, start_config,
}
use encoder_rle4k_cpu.ConfigFile.Laws.{KeepsFiles}
use encoder_rle4k_cpu.ConfigFile.Search.{rle4k_write_default_config-Wrote, write_default-exists}

module _ (D : Double) (S : System) where
  exit_zero :
      (r : World S × Bool)
      → (exit_unless S r).1 ≡ pos 0
      → (r.1 ≡ true) × ((exit_unless S r).0 ≡ r.0)
  exit_zero (w, true) h = (refl, refl)
  exit_zero (w, false) h = cc h

  first_dir :
      (disk : S.Disk)
      → S.exists disk (codes "./redcli.json") ≡ true
      → rle4k_resolve_config_path S disk ≡ codes "./redcli.json"
  unfolding resolve_in rle4k_config_search_dirs
  first_dir disk h = rw h refl

  start_found :
      (w : World S) (cfg : BenchConfig D.W)
      → rle4k_resolve_config_path S w.disk ≡ codes "./redcli.json"
      → load_config D S w.disk (codes "./redcli.json") (default_config D)
        ≡ some (record { done = true; cfg = cfg })
      → (after : World S) × (start_config D S w ≡ some (after, cfg)) × (after.disk ≡ w.disk)
  unfolding start_config
  start_found w cfg path loaded =
      let report : Text → Option (World S × BenchConfig D.W) =
        λ p. load_resolved D S w.disk p >>= λ l. some (report_config D S p w l) in
      let found : Loaded D.W = record { done = true; cfg = cfg } in
      (
        (report_config D S (codes "./redcli.json") w found).0,
        ap report path
            ∙ ap (λ l. l >>= λ l. some (report_config D S (codes "./redcli.json") w l)) loaded,
        refl,
      )

  -- Where redcli.json is missing and `rle4k_cmd_init` returns 0, a run that is started next finds the
  -- file and has the documented settings.
  pub rle4k_cmd_init-start_config :
      (laws : KeepsFiles S) (w : World S)
      → S.exists w.disk (codes "redcli.json") ≡ false
      → (rle4k_cmd_init S w).1 ≡ pos 0
      → (after : World S) × (start_config D S (rle4k_cmd_init S w).0
          ≡ some (after, documented_config D))
        × (after.disk ≡ (rle4k_cmd_init S w).0.disk)
  unfolding rle4k_cmd_init load_config
  rle4k_cmd_init-start_config laws w absent ok =
      let wrote = rle4k_write_default_config S (codes "redcli.json") w in
      let run : rle4k_cmd_init S w ≡ exit_unless S wrote = rw absent refl in
      let (done, same_world) = exit_zero wrote (ap (λ r. r.1) (sym run) ∙ ok) in
      let (opened, o, written, disk_after) =
        rle4k_write_default_config-Wrote S (codes "redcli.json") w done in
      let here =
        laws.exists-dot wrote.0.disk ∙ write_default-exists S laws (codes "redcli.json") w done in
      let text =
        laws.read-dot wrote.0.disk
        ∙ ap (λ disk. S.read disk (codes "redcli.json")) disk_after
        ∙ laws.write-read _ opened (codes "redcli.json") rle4k_builtin_default_config_json o
            written in
      let loaded =
        ap (load_text D S (default_config D)) text
        ∙ ap (λ r. r >>= λ cfg. some (record { done = true; cfg = cfg }))
            (read_config-builtin D (default_config D)) in
      let world = ap (λ r. r.0) run ∙ same_world in
      subst
        (λ v.
          (after : World S) × (start_config D S v ≡ some (after, documented_config D))
          × (after.disk ≡ v.disk))
        (sym world) (start_found wrote.0 (documented_config D) (first_dir wrote.0.disk here) loaded)
