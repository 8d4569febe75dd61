-- ===== src/Store/Operations.antt =====
-- MapManager's operations, each one section under the lock.
use slam_system_manager.Base.{
  ◌==◌, Bool, false, not, ◌||◌, List, [], ◌∷◌, String, ◌+++◌, if◌then◌else◌,
}
use slam_system_manager.Outcome.{value, throws}
use slam_system_manager.Store.{MapMetadata, Files}
use slam_system_manager.Store.Io.{Io, ◌>>=◌, ◌>>◌, done, refuse_io, query, effect}
use slam_system_manager.Store.Names.{is_valid_map_name}
use slam_system_manager.Store.Metadata.{
  has_error, message, sorted, map_pcd, metadata_yaml, MapManager, read_metadata, write_metadata,
}

module _ (files : Files) (manager : MapManager files) where
  open files use {
    World, FilePath, slash, text_of, filename, parent_path, lexically_normal, same_path, from_text,
    is_absolute, weakly_canonical, exists, is_directory, is_regular_file, file_size, scan,
    create_directories, create_directory, remove_all, remove, rename, write_file, utc_now, getpid,
    Node, load_file, child, as_string, undefined, emit,
  }
  open manager use {map_root, map_frame}

  unfoldable pub map_directory : String → Io World FilePath
  map_directory name = do
    refuse_io (not (is_valid_map_name name))
        "Invalid map name. Use 1-64 ASCII letters, digits, '_' or '-', starting with a letter or digit"
    refuse_io (not (same_path (parent_path (lexically_normal (slash map_root name))) map_root))
        "Map path escapes the configured map root"
    done (lexically_normal (slash map_root name))

  -- The loop of listMaps.
  unfoldable pub read_entries : List FilePath → Io World (List MapMetadata)
  read_entries [] = done []
  read_entries (entry ∷ rest) = do
    directory ← query (is_directory entry)
    if not directory || not (is_valid_map_name (filename entry)) then read_entries rest else (do
      described ← query (is_regular_file (slash entry metadata_yaml))
      if not described
          then read_entries rest
          else (do m ← read_metadata files entry; ms ← read_entries rest; done (m ∷ ms)))

  unfoldable pub list_maps : Io World (List MapMetadata)
  list_maps w =
      (do
        maps ← read_entries (scan map_root w).0
        refuse_io (has_error (scan map_root w).1)
            ("Unable to scan map root: " +++ message (scan map_root w).1)
        done (sorted maps))
        w

  -- A `catch (...)` that removes the directory and throws on.
  abbrev pub removing : FilePath → Io World (Unit {0}) → Io World (Unit {0})
  removing directory m w = elim (m w).1 [
    | value done' ↦ m w
    | throws why ↦ ((remove_all directory (m w).0).0, throws why)
  ]

  unfoldable pub create_map : String → Io World MapMetadata
  create_map name = do
    directory ← map_directory name
    there ← query (exists directory)
    refuse_io there ("Map already exists: " +++ name)
    (created, error) ← effect (create_directory directory)
    refuse_io (not created || has_error error)
        ("Unable to create map directory: " +++ message error)
    now ← effect utc_now
    removing directory (
        write_metadata files directory (record {
          name = name;
          created_at = now;
          updated_at = now;
          map_file = map_pcd;
          frame_id = map_frame;
        }))
    done (record {
      name = name;
      created_at = now;
      updated_at = now;
      map_file = map_pcd;
      frame_id = map_frame;
    })

  -- `!is_regular_file(path) || file_size(path, error) == 0U || error`
  unfoldable pub missing_or_empty : FilePath → Io World Bool
  missing_or_empty path w =
      (do
        regular ← query (is_regular_file path)
        done (not regular || (file_size path w).0 == 0 || has_error (file_size path w).1))
        w

  unfoldable pub mark_map_saved : String → Io World MapMetadata
  mark_map_saved name = do
    directory ← map_directory name
    m ← read_metadata files directory
    broken ← missing_or_empty (slash directory m.map_file)
    refuse_io broken
        ("Saved map PCD is missing or empty: " +++ text_of (slash directory m.map_file))
    now ← effect utc_now
    write_metadata files directory (record m { updated_at = now })
    done (record m { updated_at = now })

  unfoldable pub delete_map : String → Io World (Unit {0})
  delete_map name = do
    directory ← map_directory name
    there ← query (is_directory directory)
    refuse_io (not there) ("Map not found: " +++ name)
    (removed, error) ← effect (remove_all directory)
    refuse_io (has_error error || removed == 0)
        ("Unable to delete map '" +++ name +++ "': " +++ message error)

  unfoldable pub load_map : String → Io World FilePath
  load_map name = do
    directory ← map_directory name
    described ← query (is_regular_file (slash directory metadata_yaml))
    refuse_io (not described) ("Map metadata not found: " +++ name)
    m ← read_metadata files directory
    regular ← query (is_regular_file (slash directory m.map_file))
    refuse_io (not regular) ("Map PCD file not found: " +++ text_of (slash directory m.map_file))
    query (weakly_canonical (slash directory m.map_file))

  -- Without mapDirectory: the name is tested, the path is not.
  unfoldable pub map_exists : String → Io World Bool
  map_exists name = if not (is_valid_map_name name) then done false else (do
    there ← query (is_directory (slash map_root name))
    if there
        then query (is_regular_file (slash (slash map_root name) metadata_yaml))
        else done false)

  unfoldable pub get_map_path : String → Io World FilePath
  get_map_path name = do directory ← map_directory name; done (slash directory map_pcd)
