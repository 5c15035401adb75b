-- ===== src/Mesh/Sharing.antt =====
-- `add_folder_handler` of crates/tusher-desktop/src/web.rs and `add_shared_folder` of
-- crates/tusher-ffi/src/lib.rs.
use t_u_s_h_e_r.Base.{
  ◌≡◌, refl, ap, ◌∙◌, ◌≢◌, true, false, some, List, [], ◌∷◌, ◌++◌, map, find?, arith, ◌==◌,
  if◌then◌else◌, bytes_eq, Bool-cases, inl, inr,
}
use t_u_s_h_e_r.Base.Text.{Text}
use t_u_s_h_e_r.Base.Assoc.{get, get-put}
use t_u_s_h_e_r.Metadata.Models.{SharedFolder}
use t_u_s_h_e_r.Metadata.Tables.{MetadataDb, has_folder}
use t_u_s_h_e_r.Metadata.Db
use t_u_s_h_e_r.Metadata.Db.{
  Rusqlite, get_folder, get_file, record_local_upsert, next_version, commit_upsert, log_change,
  file_row, event_row, local_event, normalize_path,
}
use t_u_s_h_e_r.Metadata.Service.{handle_manifest_request}
use t_u_s_h_e_r.Metadata.Service
use t_u_s_h_e_r.Sync.State.{Coordinator, broadcast, trigger_sync}
use t_u_s_h_e_r.Sync.Reconcile.{ignoring_error}
use t_u_s_h_e_r.Sync.Local.{register_folder, initial_scan}
use t_u_s_h_e_r.Mesh.{Host, register_named, share_folder}
use t_u_s_h_e_r.Mesh.Startup.{name_at, get_folder-add_folder}
use t_u_s_h_e_r.Sync.Local.Folders.{
  SameFolders, then?-SameFolders, initial_scan-SameFolders, trigger_sync-SameFolders,
  ignoring_error-SameFolders,
}

module _ (g : SharedFolder) where
  find?-append_absent :
      (rows : List SharedFolder)
      → has_folder rows g.folder_id ≡ false
      → find? (λ x. x.folder_id == g.folder_id) (rows ++ (g ∷ [])) ≡ some g
  find?-append_absent [] e = ground arith
  find?-append_absent (x ∷ rows) e = ground (arith, find?-append_absent rows)

  find?-has_folder :
      (id : Text) (rows : List SharedFolder)
      → has_folder rows id ≡ true
      → (f : SharedFolder) × (find? (λ x. x.folder_id == id) rows ≡ some f) × (f.folder_id ≡ id)
  find?-has_folder id [] e = absurd (ground arith)
  find?-has_folder id (x ∷ rows) e = elim (Bool-cases (x.folder_id == id)) [
    | inl k ↦ (x, rw k refl, ground arith)
    | inr k ↦
        let (f, found, same) = find?-has_folder id rows (ground arith) in (f, rw k found, same)
  ]

  -- The folder that was added is there with its name and its path.
  pub get_folder-add_folder_self :
      (db : MetadataDb)
      → (f : SharedFolder) × (get_folder g.folder_id (Db.add_folder g db) ≡ some f)
        × (f.name ≡ g.name)
        × (f.local_path ≡ g.local_path)
  unfolding get_folder Db.add_folder
  get_folder-add_folder_self db = elim (Bool-cases (has_folder db.shared_folders g.folder_id)) [
    | inl e ↦
        let (f, found, same) = find?-has_folder g.folder_id db.shared_folders e in
        let kept = get_folder-add_folder g db g.folder_id f found in
        let yes' : (f.folder_id == g.folder_id) ≡ true = ground arith in
        (record f { name = g.name; local_path = g.local_path }, rw yes' at kept, refl, refl)
    | inr e ↦ (g, rw e (find?-append_absent db.shared_folders e), refl, refl)
  ]

  find?-update_other :
      (id : Text) (rows : List SharedFolder)
      → id ≢ g.folder_id
      → find?
          (λ x. x.folder_id == id)
          (map
            (λ f.
              if f.folder_id == g.folder_id
              then record f { name = g.name; local_path = g.local_path }
              else f)
            rows)
        ≡ find? (λ x. x.folder_id == id) rows
  find?-update_other id [] h = refl
  find?-update_other id (x ∷ rows) h = elim (Bool-cases (x.folder_id == g.folder_id)) [
    | inl e ↦ ground (arith, h, find?-update_other id rows h)
    | inr e ↦ ground (arith, h, find?-update_other id rows h)
  ]

  find?-append_other :
      (id : Text) (rows : List SharedFolder)
      → id ≢ g.folder_id
      → find? (λ x. x.folder_id == id) (rows ++ (g ∷ [])) ≡ find? (λ x. x.folder_id == id) rows
  find?-append_other id [] h = ground (arith, h)
  find?-append_other id (x ∷ rows) h = ground (arith, h, find?-append_other id rows h)

  pub get_folder-add_folder_other :
      (db : MetadataDb) (id : Text)
      → id ≢ g.folder_id
      → get_folder id (Db.add_folder g db) ≡ get_folder id db
  unfolding get_folder Db.add_folder
  get_folder-add_folder_other db id h =
      elim (Bool-cases (has_folder db.shared_folders g.folder_id)) [
        | inl e ↦ rw e (find?-update_other id db.shared_folders h)
        | inr e ↦ rw e (find?-append_other id db.shared_folders h)
      ]

module _ (host : Host) (id name path : Text) (c : Coordinator) where
  share_folder-SameFolders :
      SameFolders (register_named host id name path c) (share_folder host id name path c).0
  unfolding share_folder
  share_folder-SameFolders =
      let named = register_named host id name path c in
      let scan = initial_scan host.driver host.sha host.now host.walkdir id named in
      then?-SameFolders named (ignoring_error scan)
        (λ scanned. ignoring_error (trigger_sync host.driver id scanned))
        (ignoring_error-SameFolders named scan
          (initial_scan-SameFolders host.driver host.sha host.now id host.walkdir named))
        (λ d.
          ignoring_error-SameFolders d (trigger_sync host.driver id d)
            (trigger_sync-SameFolders host.driver host.sha host.now id d))

  register_named_lem :
      ((f : SharedFolder) × (get_folder id (register_named host id name path c).db ≡ some f)
        × (f.name ≡ name)
        × (f.local_path ≡ path))
      × (get id (register_named host id name path c).registered_folders ≡ some path)
      × ((j : Text)
          → j ≢ id
          → (get_folder j (register_named host id name path c).db ≡ get_folder j c.db)
            × (get j (register_named host id name path c).registered_folders
                ≡ get j c.registered_folders))
  unfolding register_named register_folder broadcast Service.add_folder
  register_named_lem =
      let first : SharedFolder = record {
        folder_id = id;
        name = name_at id path;
        local_path = path;
        created_at = host.now;
      } in
      let second : SharedFolder = record first { name = name } in
      (
        get_folder-add_folder_self second (Db.add_folder first c.db),
        ground (arith, get-put id id path c.registered_folders),
        λ j other. (
          get_folder-add_folder_other second (Db.add_folder first c.db) j other
              ∙ get_folder-add_folder_other first c.db j other,
          ground (arith, other, get-put j id path c.registered_folders),
        ),
      )

pub get_folder_same :
    (id : Text) (db db' : MetadataDb)
    → db'.shared_folders ≡ db.shared_folders
    → get_folder id db' ≡ get_folder id db
unfolding get_folder
get_folder_same id db db' e = ap (find? (λ f. f.folder_id == id)) e

-- Sharing a folder puts it into the catalog under the name and the path that were given, whatever
-- its directory is called, registers its path, and leaves every other folder as it was, whether or
-- not the scan that follows succeeds.
pub share_folder_lem :
    (host : Host) (id name path : Text) (c : Coordinator) (j : Text)
    → j ≢ id
    → let c' = (share_folder host id name path c).0 in
      ((f : SharedFolder) × (get_folder id c'.db ≡ some f)
        × (f.name ≡ name)
        × (f.local_path ≡ path))
      × (get id c'.registered_folders ≡ some path)
      × (get_folder j c'.db ≡ get_folder j c.db)
      × (get j c'.registered_folders ≡ get j c.registered_folders)
share_folder_lem host id name path c j other =
    let named = register_named host id name path c in
    let c' = (share_folder host id name path c).0 in
    let (folders, registered) = share_folder-SameFolders host id name path c in
    let ((f, found, f_name, f_path), path', others) = register_named_lem host id name path c in
    (
      (f, get_folder_same id named.db c'.db folders ∙ found, f_name, f_path),
      ap (get id) registered ∙ path',
      get_folder_same j named.db c'.db folders ∙ (others j other).0,
      ap (get j) registered ∙ (others j other).1,
    )
