-- ===== src/Tests/Stores.antt =====
-- The theorems of the map manager at concrete inputs.
use text.Mathlib.TextEquality.{eq_iff}
use slam_system_manager.Base.{
  Every, is_empty, ◌≤◌, ◌≡◌, ◌⊎◌, ◌↔◌, inl, inr, refl, sym, ap, Bool, true, false, if◌then◌else◌,
  Option, none, some, Bool-cases, str_eq, List, [], ◌∷◌, String, arith,
}
use slam_system_manager.Outcome.{value, throws}
use slam_system_manager.Store.Metadata.{
  MapManager, members, read_metadata, read_fields, check_metadata, write_metadata, install, sorted,
  inserted,
}
use slam_system_manager.Store.Operations.{
  map_directory, create_map, load_map, list_maps, read_entries,
}
use slam_system_manager.Store.{MapMetadata, Files, written}
use slam_system_manager.Store.Names.{
  is_valid_map_name, is_map_char, is_alphanumeric, up_to, size, EachChar, Starts,
  is_valid_map_name_iff,
}
use slam_system_manager.Store.Laws.{IsDescribed, Reads, Storage}
use slam_system_manager.Store.Maps.{
  begun, fresh, create_map-read_metadata, create_map-throws, load_map-file,
}
use slam_system_manager.Store.Listing.{IsOrdered, IsListed, list_maps-IsListed}

-- One place for a map, which is named "office".
record Disk : Type 0 where
  there : Bool
  described : Bool

abbrev stored_text : String → String
stored_text key =
    if str_eq key "name"
    then "office"
    else if str_eq key "map_file"
    then "map.pcd"
    else if str_eq key "frame_id"
    then "map"
    else "noon"

abbrev emitted : List (String × String) → Option String
emitted [] = some "office"
emitted ((key, text) ∷ rest) =
    let others = emitted rest in if str_eq text (stored_text key) then others else none

abbrev disk : Files
disk = record {
  World = Disk;
  FilePath = String;
  slash = λ p name. name;
  text_of = λ p. p;
  filename = λ p. p;
  parent_path = λ p. "";
  lexically_normal = λ p. p;
  same_path = λ p q. true;
  from_text = λ s. s;
  is_absolute = λ p. true;
  weakly_canonical = λ p w. value p;
  exists = λ p w. value w.there;
  is_directory = λ p w. value w.there;
  is_regular_file = λ p w. value w.described;
  file_size = λ p w. (1, none);
  scan = λ p w. ("office" ∷ [], none);
  create_directories = λ p w. (w, none);
  create_directory = λ p w. (record w { there = true }, (true, none));
  remove_all = λ p w. (record { there = false; described = false }, (1, none));
  remove = λ p w. (w, value tt);
  rename = λ p q w. (record w { described = true }, none);
  write_file = λ p text w. (w, written);
  utc_now = λ w. (w, "noon");
  getpid = "1";
  Node = String;
  load_file = λ p w. if w.described then value "" else throws "bad file";
  child = λ root key. some key;
  as_string = λ node. value (stored_text node);
  undefined = λ root key. "bad conversion";
  emit = emitted;
}

abbrev keeper : MapManager disk
keeper = record { map_root = "/maps"; map_frame = "map" }

abbrev bare : Disk
bare = record { there = false; described = false }

abbrev full : Disk
full = record { there = true; described = true }

abbrev office_map : MapMetadata
office_map = record {
  name = "office";
  created_at = "noon";
  updated_at = "noon";
  map_file = "map.pcd";
  frame_id = "map";
}

emitted-Reads :
    (l : List (String × String)) (text : String) → emitted l ≡ some text → Reads disk "" l
emitted-Reads [] text h = tt
emitted-Reads ((key, t) ∷ rest) text h = elim (Bool-cases (str_eq t (stored_text key))) [
  | inr e ↦ absurd (ground arith)
  | inl e ↦
      (ap value (sym ((eq_iff t (stored_text key)).0 e)), emitted-Reads rest text (ground arith))
]

disk-Storage : Storage disk
disk-Storage = record {
  keeps = λ m text temporary path w w' e f g. ("", ground arith, emitted-Reads (members m) text e);
}

creates : create_map disk keeper "office" bare ≡ (full, value office_map)
unfolding create_map map_directory is_valid_map_name is_alphanumeric up_to is_map_char
    write_metadata install members
creates = refl

create_map-read_metadata_example :
    (read_metadata disk "office" full ≡ (full, value office_map))
    × (office_map.name ≡ "office")
    × (office_map.frame_id ≡ "map")
unfolding is_empty
create_map-read_metadata_example =
    create_map-read_metadata disk keeper disk-Storage "office" office_map bare full refl refl
      creates

refuses : create_map disk keeper "office" full ≡ (full, throws "Map already exists: office")
unfolding create_map map_directory is_valid_map_name is_alphanumeric up_to is_map_char
    write_metadata install members
refuses = refl

create_map-throws_example :
    (full ≡ full)
    ⊎ (full ≡ (disk.create_directory "office" full).0) × (true ≡ false)
    ⊎ (full
        ≡ (disk.remove_all "office"
            (write_metadata disk "office"
              (fresh disk keeper "office" full)
              (begun disk keeper "office" full)).0).0)
create_map-throws_example =
    create_map-throws disk keeper "office" "Map already exists: office" full full refuses

loads : load_map disk keeper "office" full ≡ (full, value "map.pcd")
unfolding load_map read_metadata read_fields check_metadata map_directory is_valid_map_name
    is_alphanumeric up_to is_map_char is_empty
loads = refl

load_map-file_example :
    (full ≡ full)
    × (is_valid_map_name "office" ≡ true)
    × (disk.is_regular_file "map.pcd" full ≡ value true)
    × (disk.weakly_canonical "map.pcd" full ≡ value "map.pcd")
    × ((m : MapMetadata) × (read_metadata disk "office" full ≡ (full, value m))
        × IsDescribed disk "office" m)
load_map-file_example = load_map-file disk keeper "office" "map.pcd" full full loads

lists : list_maps disk keeper full ≡ (full, value (office_map ∷ []))
unfolding list_maps read_entries sorted inserted read_metadata read_fields check_metadata
    is_valid_map_name is_alphanumeric up_to is_map_char is_empty
lists = refl

list_maps-IsListed_example :
    (full ≡ full)
    × IsOrdered (office_map ∷ [])
    × Every (IsListed disk keeper ("office" ∷ []) full) (office_map ∷ [])
list_maps-IsListed_example = list_maps-IsListed disk keeper (office_map ∷ []) full full lists

is_valid_map_name_iff_example :
    (is_valid_map_name "office" ≡ true)
    ↔ (1 ≤ size "office")
      × (size "office" ≤ 64)
      × EachChar (λ c. is_map_char c ≡ true) "office"
      × Starts (λ c. is_alphanumeric c ≡ true) "office"
is_valid_map_name_iff_example = is_valid_map_name_iff "office"
