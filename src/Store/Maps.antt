-- ===== src/Store/Maps.antt =====
-- What the operations on maps do.
use text.Mathlib.TextEquality.{eq_iff}
use text.Mathlib.TextPositions.{eq_refl}
use slam_system_manager.Base.{
  is_empty, ◌≡◌, sym, ap, ◌∙◌, ◌⊎◌, inl, inr, subst, true, false, not, ◌&&◌, String, str_eq, arith,
}
use slam_system_manager.Outcome.{value, throws, Outcome-cases}
use slam_system_manager.Store.Metadata.{
  MapManager, map_pcd, read_metadata, write_metadata, has_error,
}
use slam_system_manager.Store.Operations.{map_directory, create_map, load_map}
use slam_system_manager.Store.{MapMetadata, Files}
use slam_system_manager.Store.Names.{is_valid_map_name}
use slam_system_manager.Store.Laws.{
  IsDescribed, Storage, read_metadata-IsDescribed, write_metadata-read_metadata,
}

module _ (files : Files) (manager : MapManager files) where
  open files use {World, FilePath, filename}
  open manager use {map_root, map_frame}

  -- The directory of a name.
  abbrev pub home : String → FilePath
  home name = files.lexically_normal (files.slash map_root name)

  -- What createMap writes, and where it begins to.
  abbrev pub begun : String → World → World
  begun name w = (files.utc_now (files.create_directory (home name) w).0).0

  abbrev pub fresh : String → World → MapMetadata
  fresh name w =
      let now = (files.utc_now (files.create_directory (home name) w).0).1 in
      record {
        name = name;
        created_at = now;
        updated_at = now;
        map_file = map_pcd;
        frame_id = map_frame;
      }

  pub create_map-written :
      (name : String) (m : MapMetadata) (w w' : World)
      → create_map files manager name w ≡ (w', value m)
      → (is_valid_map_name name ≡ true)
        × (m ≡ fresh name w)
        × (write_metadata files (home name) (fresh name w) (begun name w) ≡ (w', value tt))
  unfolding create_map map_directory
  create_map-written name m w w' h = ground arith

  -- createMap that throws leaves the files as they were, unless the directory could not be created or it has removed
  -- the directory of that name again.
  pub create_map-throws :
      (name why : String) (w w' : World)
      → create_map files manager name w ≡ (w', throws why)
      → (w' ≡ w)
        ⊎ (w' ≡ (files.create_directory (home name) w).0)
          × ((files.create_directory (home name) w).1.0
                && not (has_error (files.create_directory (home name) w).1.1)
              ≡ false)
        ⊎ (w'
            ≡ (files.remove_all
                (home name)
                (write_metadata files (home name) (fresh name w) (begun name w)).0).0)
  unfolding create_map map_directory
  create_map-throws name why w w' h = ground arith

  load_map-home :
      (name : String) (p : FilePath) (w w' : World)
      → load_map files manager name w ≡ (w', value p)
      → (m : MapMetadata) × (is_valid_map_name name ≡ true)
        × (read_metadata files (home name) w ≡ (w', value m))
        × (files.is_regular_file (files.slash (home name) m.map_file) w' ≡ value true)
        × (files.weakly_canonical (files.slash (home name) m.map_file) w' ≡ value p)
  unfolding load_map map_directory
  load_map-home name p w w' h = elim (Outcome-cases (read_metadata files (home name) w).1) [
    | inr (why, e) ↦ absurd (unfold load_map in ground arith)
    | inl (m, e) ↦ (m, ground arith, ground arith, ground arith, ground arith)
  ]

  -- loadMap that returns has changed nothing; the name is valid, its directory holds metadata that names it, and the path is
  -- that of the map.pcd in it, a regular file.
  pub load_map-file :
      (name : String) (p : FilePath) (w w' : World)
      → load_map files manager name w ≡ (w', value p)
      → (w ≡ w')
        × (is_valid_map_name name ≡ true)
        × (files.is_regular_file (files.slash (home name) map_pcd) w ≡ value true)
        × (files.weakly_canonical (files.slash (home name) map_pcd) w ≡ value p)
        × ((m : MapMetadata) × (read_metadata files (home name) w ≡ (w, value m))
            × IsDescribed files (filename (home name)) m)
  load_map-file name p w w' h =
      let (m, v, r, f, c) = load_map-home name p w w' h in
      let (d, same) = read_metadata-IsDescribed files (home name) m w w' r in
      let named = (eq_iff m.map_file map_pcd).0 d.map_named in
      (
        same,
        v,
        subst (λ u. files.is_regular_file (files.slash (home name) map_pcd) u ≡ value true)
            (sym same)
            (subst (λ t. files.is_regular_file (files.slash (home name) t) w' ≡ value true) named
              f),
        subst (λ u. files.weakly_canonical (files.slash (home name) map_pcd) u ≡ value p) (sym same)
            (subst (λ t. files.weakly_canonical (files.slash (home name) t) w' ≡ value p) named c),
        (m, r ∙ ap (λ u. (u, value m)) (sym same), d),
      )

  module _ (storage : Storage files) where
    -- Where the map frame is not empty and the directory of a name has that name, the metadata that createMap returns is what
    -- readMetadata then reads back, under the name asked for and in the map frame.
    pub create_map-read_metadata :
        (name : String) (m : MapMetadata) (w w' : World)
        → is_empty map_frame ≡ false
        → filename (home name) ≡ name
        → create_map files manager name w ≡ (w', value m)
        → (read_metadata files (home name) w' ≡ (w', value m))
          × (m.name ≡ name)
          × (m.frame_id ≡ map_frame)
    create_map-read_metadata name m w w' framed named h =
        let (v, e, r) = create_map-written name m w w' h in
        (
          subst (λ x. read_metadata files (home name) w' ≡ (w', value x)) (sym e)
              (write_metadata-read_metadata files storage (home name) (fresh name w) (begun name w)
                w'
                (record {
                  named = subst (λ n. str_eq name n ≡ true) (sym named) (eq_refl name);
                  valid = v;
                  map_named = eq_refl map_pcd;
                  framed = framed;
                })
                r),
          ap (λ x. x.name) e,
          ap (λ x. x.frame_id) e,
        )
