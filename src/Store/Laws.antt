-- ===== src/Store/Laws.antt =====
-- What MapManager's operations do.
use slam_system_manager.Base.{
  is_empty, ◌≡◌, refl, sym, ap, ◌∙◌, inl, inr, true, false, List, [], ◌∷◌, String, ◌+++◌, str_eq,
  none, some, Option-cases, arith,
}
use slam_system_manager.Outcome.{value, Outcome-cases}
use slam_system_manager.Store.Metadata.{
  members, map_pcd, metadata_yaml, temporary_path, field, read_fields, check_metadata,
  relabelled_io, read_metadata, install, write_metadata,
}
use slam_system_manager.Store.{MapMetadata, written, Files}
use slam_system_manager.Store.Io.{Io, ◌>>=◌}
use slam_system_manager.Store.Names.{is_valid_map_name}

module _ (files : Files) where
  open files use {
    World, FilePath, slash, filename, rename, write_file, Node, load_file, child, as_string, emit,
  }

  -- A call returns this in a state, and changes nothing.
  abbrev pub Answers : {A : Type 0} → Io World A → World → A → Type 0
  Answers m w a = m w ≡ (w, value a)

  -- What a loaded node says under the keys of the members.
  abbrev pub Reads : Node → List (String × String) → Type 0
  Reads root [] = Unit {0}
  Reads root ((key, text) ∷ rest) = (field files root key ≡ value text) × Reads root rest

  -- Metadata that readMetadata accepts in a directory of this name.
  pub record IsDescribed (directory_name : String) (m : MapMetadata) : Type 0 where
    pub named : str_eq m.name directory_name ≡ true
    pub valid : is_valid_map_name m.name ≡ true
    pub map_named : str_eq m.map_file map_pcd ≡ true
    pub framed : is_empty m.frame_id ≡ false

  check_metadata-IsDescribed :
      (directory_name : String) (m m' : MapMetadata) (w w' : World)
      → check_metadata files directory_name m w ≡ (w', value m')
      → IsDescribed directory_name m' × (m ≡ m') × (w ≡ w')
  unfolding check_metadata
  check_metadata-IsDescribed name m m' w w' h = ground arith

  IsDescribed-check_metadata :
      (directory_name : String) (m : MapMetadata) (w : World)
      → IsDescribed directory_name m
      → Answers (check_metadata files directory_name m) w m
  unfolding check_metadata
  IsDescribed-check_metadata name m w d = rw (d.named, d.valid, d.map_named, d.framed) refl

  Reads-read_fields :
      (root : Node) (m : MapMetadata) (w : World)
      → Reads root (members m)
      → Answers (read_fields files root) w m
  unfolding members read_fields
  Reads-read_fields root m w (a, (b, (c, (d, (e, _))))) = rw (a, b, c, d, e) refl

  loaded-read_metadata :
      (directory : FilePath) (root : Node) (m : MapMetadata) (w : World)
      → load_file (slash directory metadata_yaml) w ≡ value root
      → Reads root (members m)
      → IsDescribed (filename directory) m
      → Answers (read_metadata files directory) w m
  unfolding read_metadata
  loaded-read_metadata directory root m w l r d = rw l (
      rw (Reads-read_fields root m w r, relabelled_io, ◌>>=◌)
        (rw (ap (λ u. u.0) (Reads-read_fields root m w r))
          (IsDescribed-check_metadata (filename directory) m w d)))

  -- writeMetadata has written the text to the temporary file and renamed that.
  pub record Installed (directory : FilePath) (m : MapMetadata) (w w' : World) : Type 0 where
    pub text : String
    pub emitted : emit (members m) ≡ some text
    pub stored : (write_file (temporary_path files directory) (text +++ "\n") w).1 ≡ written
    pub renamed :
        rename
          (temporary_path files directory)
          (slash directory metadata_yaml)
          (write_file (temporary_path files directory) (text +++ "\n") w).0
        ≡ (w', none)

  pub write_metadata-Installed :
      (directory : FilePath) (m : MapMetadata) (w w' : World)
      → write_metadata files directory m w ≡ (w', value tt)
      → Installed directory m w w'
  unfolding write_metadata install
  write_metadata-Installed directory m w w' h = elim (Option-cases (emit (members m))) [
    | inl e ↦ absurd (unfold write_metadata in ground arith)
    | inr (text, e) ↦ record {
      text = text;
      emitted = e;
      stored = ground arith;
      renamed = ground arith;
    }
  ]

  read_fields-keeps : (root : Node) (w : World) → (read_fields files root w).0 ≡ w
  unfolding read_fields
  read_fields-keeps root w = ground arith

  pub read_metadata-IsDescribed :
      (directory : FilePath) (m : MapMetadata) (w w' : World)
      → read_metadata files directory w ≡ (w', value m)
      → IsDescribed (filename directory) m × (w ≡ w')
  unfolding read_metadata
  read_metadata-IsDescribed directory m w w' h =
      elim (Outcome-cases (load_file (slash directory metadata_yaml) w)) [
        | inr (why, l) ↦ absurd (unfold read_metadata in ground arith)
        | inl (root, l) ↦ elim (Outcome-cases (read_fields files root w).1) [
          | inr (why, r) ↦ absurd (unfold read_metadata in ground arith)
          | inl (m', r) ↦
              let keeps = read_fields-keeps root w in
              let (d, e, k) =
                check_metadata-IsDescribed (filename directory) m' m (read_fields files root w).0 w'
                  (rw (r, relabelled_io, ◌>>=◌) at (rw (l, read_metadata) at h)) in
              (d, sym keeps ∙ k)
        ]
      ]

-- What yaml-cpp and the file system promise: a map of texts that was emitted, written to one path and renamed to another is
-- loaded from there with the same texts.
pub record Storage (files : Files) : Type 0 where
  pub keeps :
      (m : MapMetadata) (text : String) (temporary path : files.FilePath) (w w' : files.World)
      → files.emit (members m) ≡ some text
      → (files.write_file temporary (text +++ "\n") w).1 ≡ written
      → files.rename temporary path (files.write_file temporary (text +++ "\n") w).0 ≡ (w', none)
      → (root : files.Node) × (files.load_file path w' ≡ value root) × Reads files root (members m)

module _ (files : Files) (storage : Storage files) where
  open files use {World, FilePath, filename}

  -- What writeMetadata has written, readMetadata reads back, where the metadata is one that it accepts.
  pub write_metadata-read_metadata :
      (directory : FilePath) (m : MapMetadata) (w w' : World)
      → IsDescribed files (filename directory) m
      → write_metadata files directory m w ≡ (w', value tt)
      → read_metadata files directory w' ≡ (w', value m)
  write_metadata-read_metadata directory m w w' d h =
      let i = write_metadata-Installed files directory m w w' h in
      let (root, l, r) = storage.keeps m i.text _ _ w w' i.emitted i.stored i.renamed in
      loaded-read_metadata files directory root m w' l r d
