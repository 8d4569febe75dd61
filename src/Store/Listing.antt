-- ===== src/Store/Listing.antt =====
-- What listMaps returns.
use Prim.Native.Nat.{Ordering}
use Prim.Native.String.{compare}
use Prim.Native.String.compare
use slam_system_manager.Base.{
  Every, ◌≡◌, refl, sym, ap, ◌∙◌, ◌⊎◌, inl, inr, subst, true, false, not, ◌||◌, List, [], ◌∷◌,
  String, Bool-cases, arith,
}
use slam_system_manager.Outcome.{value, Outcome-cases}
use slam_system_manager.Store.Metadata.{
  MapManager, metadata_yaml, read_metadata, sorted, inserted, precedes,
}
use slam_system_manager.Store.Operations.{list_maps, read_entries}
use slam_system_manager.Store.{MapMetadata, Files}
use slam_system_manager.Store.Names.{is_valid_map_name}
use slam_system_manager.Store.Laws.{IsDescribed, read_metadata-IsDescribed}

-- compare, read from its clauses.
compare_asym : (s t : String) → compare s t ≡ Ordering.lt → compare t s ≡ Ordering.lt → ⊥
compare_asym String.[] String.[] h k = cc (h, compare.nil-nil)
compare_asym String.[] (String.◌∷◌ d t) h k = cc (k, compare.cons-nil d t)
compare_asym (String.◌∷◌ c s) String.[] h k = cc (h, compare.cons-nil c s)
compare_asym (String.◌∷◌ c s) (String.◌∷◌ d t) h k =
    ground (arith, compare.cons-cons c d s t, compare.cons-cons d c t s, compare_asym s t)

precedes-asym : (m n : MapMetadata) → precedes m n ≡ true → precedes n m ≡ false
precedes-asym m n h = ground (arith, compare_asym m.name n.name)

-- No entry stands behind one with a later name.
abbrev pub IsOrdered : List MapMetadata → Type 0
IsOrdered [] = Unit {0}
IsOrdered (m ∷ []) = Unit {0}
IsOrdered (m ∷ n ∷ rest) = (precedes n m ≡ false) × IsOrdered (n ∷ rest)

inserted-IsOrdered :
    (m : MapMetadata) (ms : List MapMetadata) → IsOrdered ms → IsOrdered (inserted m ms)
unfolding inserted
inserted-IsOrdered m [] h = tt
inserted-IsOrdered m (n ∷ []) h = elim (Bool-cases (precedes n m)) [
  | inl e ↦ rw e (precedes-asym n m e, tt)
  | inr e ↦ rw e (e, tt)
]
inserted-IsOrdered m (n ∷ n' ∷ rest) (p, h) =
    let ih = inserted-IsOrdered m (n' ∷ rest) h in
    elim (Bool-cases (precedes n m)) [
      | inr e ↦ rw e (e, (p, h))
      | inl e ↦ elim (Bool-cases (precedes n' m)) [
        | inl e' ↦ rw e (rw e' (p, rw e' at ih))
        | inr e' ↦ rw e (rw e' (precedes-asym n m e, rw e' at ih))
      ]
    ]

sorted-IsOrdered : (ms : List MapMetadata) → IsOrdered (sorted ms)
unfolding sorted
sorted-IsOrdered [] = tt
sorted-IsOrdered (m ∷ ms) = inserted-IsOrdered m (sorted ms) (sorted-IsOrdered ms)

inserted-Every :
    (P : MapMetadata → Type 0) (m : MapMetadata) (ms : List MapMetadata)
    → P m
    → Every P ms
    → Every P (inserted m ms)
unfolding inserted
inserted-Every P m [] h k = (h, tt)
inserted-Every P m (n ∷ ns) h (p, ps) = elim (Bool-cases (precedes n m)) [
  | inl e ↦ rw e (p, inserted-Every P m ns h ps)
  | inr e ↦ rw e (h, (p, ps))
]

sorted-Every : (P : MapMetadata → Type 0) (ms : List MapMetadata) → Every P ms → Every P (sorted ms)
unfolding sorted
sorted-Every P [] h = tt
sorted-Every P (m ∷ ms) (p, ps) = inserted-Every P m (sorted ms) p (sorted-Every P ms ps)

-- A member of a list.
abbrev pub Among : {A : Type 0} → A → List A → Type 0
Among x [] = ⊥
Among x (y ∷ ys) = (x ≡ y) ⊎ Among x ys

module _ (files : Files) (manager : MapManager files) where
  open files use {World, FilePath, filename}
  open manager use {map_root, map_frame}

  -- Metadata that a directory of a valid name, with a metadata.yaml, holds.
  pub record IsListed (entries : List FilePath) (w : World) (m : MapMetadata) : Type 0 where
    pub entry : FilePath
    pub visited : Among entry entries
    pub directory : files.is_directory entry w ≡ value true
    pub described : IsDescribed files (filename entry) m
    pub metadata : read_metadata files entry w ≡ (w, value m)

  IsListed-behind :
      (entry : FilePath) (rest : List FilePath) (w : World) (ms : List MapMetadata)
      → Every (IsListed rest w) ms
      → Every (IsListed (entry ∷ rest) w) ms
  IsListed-behind entry rest w [] h = tt
  IsListed-behind entry rest w (m ∷ ms) (l, h) = (
    record {
      entry = l.entry;
      visited = inr l.visited;
      directory = l.directory;
      described = l.described;
      metadata = l.metadata;
    },
    IsListed-behind entry rest w ms h,
  )

  abbrev Reads : List FilePath → List MapMetadata → World → World → Type 0
  Reads entries ms w w' = Every (IsListed entries w) ms × (w ≡ w')

  skipped :
      (entry : FilePath) (rest : List FilePath) (ms : List MapMetadata) (w w' : World)
      → Reads rest ms w w'
      → Reads (entry ∷ rest) ms w w'
  skipped entry rest ms w w' (h, e) = (IsListed-behind entry rest w ms h, e)

  taken :
      (entry : FilePath) (rest : List FilePath) (m : MapMetadata) (ms : List MapMetadata)
      (w u w' : World)
      → files.is_directory entry w ≡ value true
      → read_metadata files entry w ≡ (u, value m)
      → Reads rest ms u w'
      → Reads (entry ∷ rest) (m ∷ ms) w w'
  taken entry rest m ms w u w' d r (h, e) =
      let (described, same) = read_metadata-IsDescribed files entry m w u r in
      (
        (
          record {
            entry = entry;
            visited = inl refl;
            directory = d;
            described = described;
            metadata = r ∙ ap (λ v. (v, value m)) (sym same);
          },
          subst (λ v. Every (IsListed (entry ∷ rest) v) ms) (sym same)
              (IsListed-behind entry rest u ms h),
        ),
        same ∙ e,
      )

  read_entries-Reads :
      (entries : List FilePath) (ms : List MapMetadata) (w w' : World)
      → read_entries files manager entries w ≡ (w', value ms)
      → Reads entries ms w w'
  unfolding read_entries
  read_entries-Reads [] ms w w' h = (subst (Every (IsListed [] w)) {x = []} (cc) tt, cc)
  read_entries-Reads (entry ∷ rest) ms w w' h = elim (Outcome-cases (files.is_directory entry w)) [
    | inr (why, e) ↦ absurd (unfold read_entries in ground arith)
    | inl (b, e) ↦ elim (Bool-cases (not b || not (is_valid_map_name (filename entry)))) [
      | inl skip ↦
          skipped entry rest ms w w'
            (read_entries-Reads rest ms w w' (rw skip at (rw (e, read_entries) at h)))
      | inr kept ↦
          elim (Outcome-cases (files.is_regular_file (files.slash entry metadata_yaml) w)) [
            | inr (why, f) ↦ absurd (unfold read_entries in ground arith)
            | inl (described, f) ↦ elim (Bool-cases described) [
              | inr absent ↦
                  skipped entry rest ms w w'
                    (read_entries-Reads rest ms w w' (unfold read_entries in ground arith))
              | inl present ↦ elim (Outcome-cases (read_metadata files entry w).1) [
                | inr (why, g) ↦ absurd (unfold read_entries in ground arith)
                | inl (m, g) ↦
                    elim (Outcome-cases
                      (read_entries files manager rest (read_metadata files entry w).0).1) [
                        | inr (why, i) ↦ absurd (unfold read_entries in ground arith)
                        | inl (ms', i) ↦
                            subst (λ l. Reads (entry ∷ rest) l w w') {x = m ∷ ms'}
                              (unfold read_entries in ground arith)
                              (taken entry rest m ms' w (read_metadata files entry w).0 w'
                                (ground arith) (cc)
                                (read_entries-Reads rest ms' (read_metadata files entry w).0 w'
                                  (unfold read_entries in ground arith)))
                      ]
              ]
            ]
          ]
    ]
  ]

  -- listMaps that returns has changed nothing; it returns metadata in the order of the names, each
  -- of it what readMetadata reads from a directory under the map root that it describes.
  pub list_maps-IsListed :
      (ms : List MapMetadata) (w w' : World)
      → list_maps files manager w ≡ (w', value ms)
      → (w ≡ w') × IsOrdered ms × Every (IsListed (files.scan map_root w).0 w) ms
  unfolding list_maps
  list_maps-IsListed ms w w' h =
      elim (Outcome-cases (read_entries files manager (files.scan map_root w).0 w).1) [
        | inr (why, e) ↦ absurd (unfold list_maps in ground arith)
        | inl (found, e) ↦
            let (listed, same) =
              read_entries-Reads (files.scan map_root w).0 found w w'
                (unfold list_maps in ground arith) in
            let all : sorted found ≡ ms = unfold list_maps in ground arith in
            (
              same,
              subst IsOrdered all (sorted-IsOrdered found),
              subst (Every (IsListed (files.scan map_root w).0 w)) all
                  (sorted-Every (IsListed (files.scan map_root w).0 w) found listed),
            )
      ]
