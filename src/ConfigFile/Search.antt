-- ===== src/ConfigFile/Search.antt =====
-- Where redcli.json is found, and what `rle4k_ensure_config_file` leaves.
use encoder_rle4k_cpu.Base.{
  ◌≡◌, ◌≢◌, refl, ap, sym, ◌∙◌, subst, ◌⊎◌, inl, inr, Bool, true, false, List, [], ◌∷◌, ◌++◌,
  Option, none, some, Bool-cases,
}
use encoder_rle4k_cpu.Text.{Text}
use encoder_rle4k_cpu.System.{System, World}
use encoder_rle4k_cpu.Config.Builtin.{rle4k_builtin_default_config_json}
use encoder_rle4k_cpu.ConfigFile.{
  in_dir, resolve_in, rle4k_config_search_dirs, rle4k_resolve_config_path,
  rle4k_default_config_dest, rle4k_write_default_config, write_opened, created, with_directories,
  Ensured, ensure_found, rle4k_ensure_config_file,
}
use encoder_rle4k_cpu.ConfigFile.Laws.{KeepsFiles}

module _ (S : System) where
  -- None of the directories has the file.
  abbrev pub NoneIn : S.Disk → List Text → Type 0
  NoneIn disk [] = Unit {0}
  NoneIn disk (dir ∷ dirs) = (S.exists disk (in_dir S dir) ≡ false) × NoneIn disk dirs

  -- The path is that of the first directory with the file.
  abbrev pub FirstIn : S.Disk → List Text → Text → Type 0
  FirstIn disk dirs path =
      (before : List Text) × (dir : Text) × (after : List Text) × (dirs ≡ before ++ dir ∷ after)
      × NoneIn disk before
      × (S.exists disk (in_dir S dir) ≡ true)
      × (path ≡ in_dir S dir)

  in_dir_solid : (dir : Text) → in_dir S dir ≢ []
  in_dir_solid [] h = cc h
  in_dir_solid (c ∷ dir) h = cc h

  -- The path in the first directory that has the file, and empty exactly where none has it.
  abbrev pub Resolved : S.Disk → List Text → Text → Type 0
  Resolved disk dirs path =
      ((path ≡ []) × NoneIn disk dirs) ⊎ ((path ≢ []) × FirstIn disk dirs path)

  later_found :
      (disk : S.Disk) (dir : Text) (dirs : List Text) (path : Text)
      → S.exists disk (in_dir S dir) ≡ false
      → Resolved disk dirs path
      → Resolved disk (dir ∷ dirs) path
  later_found disk dir dirs path absent (inl (e, all)) = inl (e, (absent, all))
  later_found disk dir dirs path absent
        (inr (solid, (before, found, after, parts, none_before, here, e))) =
      inr (solid, (dir ∷ before, found, after, ap (◌∷◌ dir) parts, (absent, none_before), here, e))

  resolve_in-hit :
      (disk : S.Disk) (dir : Text) (dirs : List Text)
      → S.exists disk (in_dir S dir) ≡ true
      → resolve_in S disk (dir ∷ dirs) ≡ in_dir S dir
  unfolding resolve_in
  resolve_in-hit disk dir dirs here = rw here refl

  resolve_in-miss :
      (disk : S.Disk) (dir : Text) (dirs : List Text)
      → S.exists disk (in_dir S dir) ≡ false
      → resolve_in S disk (dir ∷ dirs) ≡ resolve_in S disk dirs
  unfolding resolve_in
  resolve_in-miss disk dir dirs absent = rw absent refl

  pub resolve_in-Resolved :
      (disk : S.Disk) (dirs : List Text) → Resolved disk dirs (resolve_in S disk dirs)
  unfolding resolve_in
  resolve_in-Resolved disk [] = inl (refl, tt)
  resolve_in-Resolved disk (dir ∷ dirs) = elim (Bool-cases (S.exists disk (in_dir S dir))) [
    | inl here ↦
        subst (Resolved disk (dir ∷ dirs)) (sym (resolve_in-hit disk dir dirs here))
          (inr (in_dir_solid dir, ([], dir, dirs, refl, tt, here, refl)))
    | inr absent ↦
        subst (Resolved disk (dir ∷ dirs)) (sym (resolve_in-miss disk dir dirs absent))
          (later_found disk dir dirs _ absent (resolve_in-Resolved disk dirs))
  ]

  -- A write that returns true has opened the file and written the built-in text.
  abbrev pub Wrote : Text → World S → World S → Type 0
  Wrote path w after =
      let disk = with_directories S w.disk (S.parent_path path) in
      (opened : S.Disk) × (S.open_out disk path ≡ some opened)
      × ((S.write opened path rle4k_builtin_default_config_json).1 ≡ true)
      × (after.disk ≡ (S.write opened path rle4k_builtin_default_config_json).0)

  created_done :
      (path : Text) (r : S.Disk × Bool) (w : World S)
      → (created S path r w).1 ≡ true
      → (r.1 ≡ true) × ((created S path r w).0.disk ≡ r.0)
  created_done path (disk, false) w h = cc h
  created_done path (disk, true) w h = (refl, refl)

  write_opened_done :
      (path : Text) (disk : S.Disk) (o : Option S.Disk) (w : World S)
      → (write_opened S path disk o w).1 ≡ true
      → (opened : S.Disk) × (o ≡ some opened)
        × ((S.write opened path rle4k_builtin_default_config_json).1 ≡ true)
        × ((write_opened S path disk o w).0.disk
            ≡ (S.write opened path rle4k_builtin_default_config_json).0)
  write_opened_done path disk none w h = cc h
  write_opened_done path disk (some opened) w h =
      let (done, e) =
        created_done path (S.write opened path rle4k_builtin_default_config_json) w h in
      (opened, refl, done, e)

  pub rle4k_write_default_config-Wrote :
      (path : Text) (w : World S)
      → (rle4k_write_default_config S path w).1 ≡ true
      → Wrote path w (rle4k_write_default_config S path w).0
  unfolding rle4k_write_default_config
  rle4k_write_default_config-Wrote path w h =
      write_opened_done path _ (S.open_out (with_directories S w.disk (S.parent_path path)) path) w
        h

  module _ (laws : KeepsFiles S) where
    pub write_default-exists :
        (path : Text) (w : World S)
        → (rle4k_write_default_config S path w).1 ≡ true
        → S.exists (rle4k_write_default_config S path w).0.disk path ≡ true
    write_default-exists path w h =
        let (opened, o, done, e) = rle4k_write_default_config-Wrote path w h in
        ap (λ disk. S.exists disk path) e
        ∙ laws.write-exists _ opened path rle4k_builtin_default_config_json o done

    -- What `rle4k_ensure_config_file` leaves, by what the search has found.
    abbrev pub EnsuredFile : World S → Ensured S → Type 0
    EnsuredFile w e =
        (e.done ≡ true → S.exists e.world.disk e.out_path ≡ true)
        × ((NoneIn w.disk (rle4k_config_search_dirs S) × (e.out_path ≡ rle4k_default_config_dest S))
            ⊎ ((e.done ≡ true)
                × (e.world ≡ w)
                × FirstIn w.disk (rle4k_config_search_dirs S) e.out_path))

    ensure_found-EnsuredFile :
        (w : World S) (path : Text)
        → Resolved w.disk (rle4k_config_search_dirs S) path
        → EnsuredFile w (ensure_found S w path)
    ensure_found-EnsuredFile w [] (inl (e, all)) =
        (λ done. write_default-exists (rle4k_default_config_dest S) w done, inl (all, refl))
    ensure_found-EnsuredFile w [] (inr (solid, first)) = elim (solid refl) [ ]
    ensure_found-EnsuredFile w (c ∷ path) (inl (e, all)) = cc e
    ensure_found-EnsuredFile w (c ∷ path)
          (inr (solid, (before, dir, after, parts, none_before, here, e))) =
        (
          λ done. ap (S.exists w.disk) e ∙ here,
          inr (refl, refl, (before, dir, after, parts, none_before, here, e)),
        )

    -- `rle4k_ensure_config_file` returns true only with the path of an existing file. Where one of the
    -- search directories has redcli.json, it returns true with the first of them and changes nothing;
    -- otherwise the path is the default destination.
    pub rle4k_ensure_config_file-EnsuredFile :
        (w : World S) → EnsuredFile w (rle4k_ensure_config_file S w)
    unfolding rle4k_ensure_config_file
    rle4k_ensure_config_file-EnsuredFile w =
        ensure_found-EnsuredFile w (rle4k_resolve_config_path S w.disk)
          (resolve_in-Resolved w.disk (rle4k_config_search_dirs S))
