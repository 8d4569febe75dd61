-- ===== src/Store/Metadata.antt =====
-- MapManager: the fields, the constructor, and the metadata of a map.
use Prim.Native.Nat.{Ordering}
use Prim.Native.String.{compare}
use slam_system_manager.Base.{
  is_empty, Bool, true, false, not, ◌||◌, List, [], ◌∷◌, String, ◌+++◌, str_eq, Option, none, some,
  if◌then◌else◌,
}
use slam_system_manager.Outcome.{Outcome, throws, relabelled}
use slam_system_manager.Store.{MapMetadata, written, not_opened, not_written, Files}
use slam_system_manager.Store.Io.{Io, ◌>>=◌, ◌>>◌, done, refused, refuse_io, lift, query, effect}
use slam_system_manager.Store.Names.{is_valid_map_name}

-- `has_error` is `if (error)`, `message` is `error.message()`, empty without an error.
abbrev pub has_error : Option String → Bool
has_error none = false
has_error (some why) = true

abbrev pub message : Option String → String
message none = "Success"
message (some why) = why

-- The comparison of std::sort.
abbrev pub precedes : MapMetadata → MapMetadata → Bool
precedes left right = elim (compare left.name right.name) [
  | Ordering.lt ↦ true
  | Ordering.eq ↦ false
  | Ordering.gt ↦ false
]

unfoldable pub inserted : MapMetadata → List MapMetadata → List MapMetadata
inserted m [] = m ∷ []
inserted m (n ∷ ns) = let rest = inserted m ns in if precedes n m then n ∷ rest else m ∷ n ∷ ns

unfoldable pub sorted : List MapMetadata → List MapMetadata
sorted [] = []
sorted (m ∷ ms) = inserted m (sorted ms)

abbrev pub map_pcd : String
map_pcd = "map.pcd"

abbrev pub metadata_yaml : String
metadata_yaml = "metadata.yaml"

-- The members of the emitted map.
unfoldable pub members : MapMetadata → List (String × String)
members m =
    ("name", m.name)
    ∷ ("created_at", m.created_at)
    ∷ ("updated_at", m.updated_at)
    ∷ ("map_file", m.map_file)
    ∷ ("frame_id", m.frame_id)
    ∷ []

module _ (files : Files) where
  open files use {
    World, FilePath, slash, text_of, filename, parent_path, lexically_normal, same_path, from_text,
    is_absolute, weakly_canonical, exists, is_directory, is_regular_file, file_size, scan,
    create_directories, create_directory, remove_all, remove, rename, write_file, utc_now, getpid,
    Node, load_file, child, as_string, undefined, emit,
  }

  -- The fields of MapManager.
  pub record MapManager : Type 0 where
    pub map_root : FilePath
    pub map_frame : String

  unfoldable pub new_manager : String → String → Io World MapManager
  new_manager map_root map_frame = do
    refuse_io (not (is_absolute (from_text map_root))) "Map root must be an absolute path"
    refuse_io (is_empty map_frame) "Map frame must not be empty"
    error ← effect (create_directories (from_text map_root))
    refuse_io (has_error error)
        ("Unable to create map root '" +++ text_of (from_text map_root) +++ "': " +++ message error)
    root ← query (weakly_canonical (from_text map_root))
    directory ← query (is_directory root)
    refuse_io (not directory) ("Map root is not a directory: " +++ text_of root)
    done (record { map_root = root; map_frame = map_frame })

  abbrev pub field : Node → String → Outcome String
  field root key = elim (child root key) [
    | none ↦ throws (undefined root key)
    | some node ↦ as_string node
  ]

  unfoldable pub read_fields : Node → Io World MapMetadata
  read_fields root = do
    name ← lift (field root "name")
    created_at ← lift (field root "created_at")
    updated_at ← lift (field root "updated_at")
    map_file ← lift (field root "map_file")
    frame_id ← lift (field root "frame_id")
    done (record {
      name = name;
      created_at = created_at;
      updated_at = updated_at;
      map_file = map_file;
      frame_id = frame_id;
    })

  unfoldable pub check_metadata : String → MapMetadata → Io World MapMetadata
  check_metadata directory_name m = do
    refuse_io (not (str_eq m.name directory_name) || not (is_valid_map_name m.name))
        ("Map metadata name does not match its directory: " +++ directory_name)
    refuse_io (not (str_eq m.map_file map_pcd))
        ("Map metadata contains unsupported map_file: " +++ m.map_file)
    refuse_io (is_empty m.frame_id) ("Map metadata frame_id must not be empty: " +++ m.name)
    done m

  -- A handler that puts a text before that of the exception.
  abbrev pub relabelled_io : {A : Type 0} → String → Io World A → Io World A
  relabelled_io label m w = ((m w).0, relabelled label (m w).1)

  unfoldable pub read_metadata : FilePath → Io World MapMetadata
  read_metadata directory = do
    root ←
        relabelled_io ("Unable to read map metadata for '" +++ filename directory +++ "': ")
          (query (load_file (slash directory metadata_yaml)))
    m ←
        relabelled_io ("Invalid map metadata for '" +++ filename directory +++ "': ")
          (read_fields root)
    check_metadata (filename directory) m

  abbrev pub temporary_path : FilePath → FilePath
  temporary_path directory = slash directory (".metadata.yaml.tmp." +++ getpid)

  -- The end of writeMetadata: the temporary file takes the place of the old one.
  unfoldable pub install : FilePath → Io World (Unit {0})
  install directory = do
    error ← effect (rename (temporary_path directory) (slash directory metadata_yaml))
    elim error [
      | none ↦ done tt
      | some why ↦ do
        remove (temporary_path directory)
        refused ("Unable to install map metadata: " +++ why)
    ]

  unfoldable pub write_metadata : FilePath → MapMetadata → Io World (Unit {0})
  write_metadata directory m = elim (emit (members m)) [
    | none ↦ refused ("Unable to serialize metadata for map: " +++ m.name)
    | some text ↦ do
      outcome ← effect (write_file (temporary_path directory) (text +++ "\n"))
      elim outcome [
        | not_opened ↦
            refused
              ("Unable to open temporary metadata file: " +++ text_of (temporary_path directory))
        | not_written ↦
            refused ("Unable to write map metadata: " +++ text_of (temporary_path directory))
        | written ↦ install directory
      ]
  ]
