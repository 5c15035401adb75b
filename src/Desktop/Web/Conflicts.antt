-- ===== src/Desktop/Web/Conflicts.antt =====
-- The list of conflicts of crates/tusher-desktop/src/web.rs, and the conflict copies that
-- crates/tusher-metadata/src/reconciler.rs names.
use t_u_s_h_e_r.Base.{
  ℕ, ◌^◌, ◌<◌, ◌≡◌, refl, sym, ap, ◌∙◌, Bool, true, false, not, ◌&&◌, List, [], ◌∷◌, ◌++◌, arith,
  In, here, there, ◌==◌, nat_eq, bytes_eq, Bool-cases, inl, inr, ok, >>=-eq-ok, Outcome-cases,
}
use t_u_s_h_e_r.Base.Members.{In-append_left, In-append_right, any-In, In-sort_by}
use mathlib.Core.Path.{subst}
use t_u_s_h_e_r.Base.Int.{ℤ}
use t_u_s_h_e_r.Base.Int
use t_u_s_h_e_r.Base.Text.{Text, ascii, contains}
use t_u_s_h_e_r.Core.Protocol.{SyncEvent, upsert}
use t_u_s_h_e_r.Metadata.Models.{SharedFolder, FileRecord, conflict}
use t_u_s_h_e_r.Metadata.Tables.{EventRow, MetadataDb, has_folder}
use t_u_s_h_e_r.Metadata.Db.{
  Rusqlite, normalize_path, get_folders, get_all_files, normalized, apply_remote_upsert, log_once,
  file_row,
}
use t_u_s_h_e_r.Metadata.Tables.Valid.{upsert_file_ok, insert_event_ok}
use t_u_s_h_e_r.Metadata.Tables.{upsert_file}
use t_u_s_h_e_r.Metadata.Db.Lookup.{record_of}
use t_u_s_h_e_r.Metadata.Db.Remote.{apply_remote_upsert_lem}
use t_u_s_h_e_r.Metadata.Service.{apply_reconciliation_action, action_event}
use t_u_s_h_e_r.Mesh.{Host}
use t_u_s_h_e_r.Metadata.Reconciler.{generate_conflict_path}
use t_u_s_h_e_r.Desktop.Web.{
  DesktopState, ConflictDto, conflicts_among, conflicts_in, get_conflicts_handler,
}
use t_u_s_h_e_r.Metadata.Reconciler.Names.{
  marker, contains-append, normalize_path-Marked, generate_conflict_path-Marked,
}
use t_u_s_h_e_r.Metadata.Db.Listing.{get_all_files-In}

abbrev pub conflict_dto : Text → FileRecord → ConflictDto
conflict_dto folder r = record {
  folder_id = folder;
  relative_path = r.relative_path;
  file_size = r.size_bytes;
  modified_at = r.modified_at;
}

conflicts_among-In :
    (folder : Text) (files : List FileRecord) (r : FileRecord)
    → In r files
    → r.is_deleted ≡ false
    → contains marker r.relative_path ≡ true
    → In (conflict_dto folder r) (conflicts_among folder files)
unfolding conflicts_among
conflicts_among-In folder [] r m live marked = elim m [ ]
conflicts_among-In folder (f ∷ files) r (here same) live marked =
    let listed : (not f.is_deleted && contains marker f.relative_path) ≡ true =
      sym (ap (λ x. not x.is_deleted && contains marker x.relative_path) same)
      ∙ ground (arith, live, marked) in
    rw (listed, conflicts_among) (here (ap (conflict_dto folder) same))
conflicts_among-In folder (f ∷ files) r (there m) live marked =
    let rest = conflicts_among-In folder files r m live marked in
    elim (Bool-cases (not f.is_deleted && contains marker f.relative_path)) [
      | inl e ↦ rw (e, conflicts_among) (there rest)
      | inr e ↦ rw (e, conflicts_among) rest
    ]

conflicts_in-In :
    (driver : Rusqlite) (db : MetadataDb) (folders : List SharedFolder) (f : SharedFolder)
    (files : List FileRecord) (d : ConflictDto)
    → In f folders
    → get_all_files driver f.folder_id db ≡ ok files
    → In d (conflicts_among f.folder_id files)
    → In d (conflicts_in driver db folders)
unfolding conflicts_in
conflicts_in-In driver db [] f files d m e k = elim m [ ]
conflicts_in-In driver db (g ∷ folders) f files d (here same) e k =
    let e' : get_all_files driver g.folder_id db ≡ ok files =
      sym (ap (λ x. get_all_files driver x.folder_id db) same) ∙ e in
    rw (e', conflicts_in)
      (In-append_left d (conflicts_among g.folder_id files) _
        (subst (λ x. In d (conflicts_among x.folder_id files)) same k))
conflicts_in-In driver db (g ∷ folders) f files d (there m) e k =
    let rest = conflicts_in-In driver db folders f files d m e k in
    elim (Outcome-cases (get_all_files driver g.folder_id db)) [
      | inl (gs, eg) ↦
          rw (eg, conflicts_in) (In-append_right d (conflicts_among g.folder_id gs) _ rest)
      | inr (inl (x, eg)) ↦ rw (eg, conflicts_in) rest
      | inr (inr eg) ↦ rw (eg, conflicts_in) rest
    ]

log_once-folders :
    (present : Bool) (row : ℕ → EventRow) (db : MetadataDb) {db' : MetadataDb}
    → log_once present row db ≡ ok db'
    → db'.shared_folders ≡ db.shared_folders
unfolding log_once
log_once-folders true row db e = ground arith
log_once-folders false row db e = ground (arith, (insert_event_ok row db e).1)

-- Remote upserts leave the table of folders alone, and need the folder to be there.
apply_remote_upsert-folders :
    (now : ℤ) (ev : SyncEvent) (db db' : MetadataDb)
    → apply_remote_upsert now ev db ≡ ok db'
    → has_folder db'.shared_folders ev.folder_id ≡ true
unfolding apply_remote_upsert
apply_remote_upsert-folders now ev db db' e =
    let up = record (normalized ev) { event_type = upsert } in
    let (mid, stored, rest) = >>=-eq-ok (upsert_file (file_row up) db) _ e in
    let (known, _, changed) = upsert_file_ok (file_row up) db stored in
    let same : db'.shared_folders ≡ mid.shared_folders = log_once-folders _ _ mid rest in
    let same' : mid.shared_folders ≡ db.shared_folders = ap (λ d. d.shared_folders) changed in
    subst (λ l. has_folder l ev.folder_id ≡ true) (sym (same ∙ same')) known

-- The dashboard shows a conflict: once the conflict that an event is judged to be is recorded under
-- the name that the reconciler gives to the copy, the copy is in the list of conflicts, with its
-- folder, its path in the catalog and its size, if the files of the folder can be read and the size
-- and version are below 2 ^ 63.
pub get_conflicts_handler-conflict :
    (host : Host) (state : DesktopState) (event : SyncEvent) (original path : Text)
    (files : List FileRecord) {db' : MetadataDb}
    → generate_conflict_path host.format_time event.relative_path event.origin_node_id
        event.modified_at
      ≡ ok path
    → event.size_bytes < 2 ^ 63
    → event.version < 2 ^ 63
    → apply_reconciliation_action host.now
        (conflict event.folder_id event.file_id original path event.size_bytes event.content_hash
          event.version event.origin_node_id)
        state.node.coordinator.db
      ≡ ok db'
    → get_all_files host.driver event.folder_id db' ≡ ok files
    → In
        (record {
          folder_id = event.folder_id;
          relative_path = normalize_path path;
          file_size = event.size_bytes;
          modified_at = host.now;
        })
        (get_conflicts_handler host (record state {
          node = record state.node { coordinator = record state.node.coordinator { db = db' } };
        }))
unfolding get_conflicts_handler apply_reconciliation_action get_folders
get_conflicts_handler-conflict host state event original path files {db'} named hs hv e listed =
    let ev =
      action_event upsert event.folder_id (event.file_id ++ ascii "_conflict") path event.version
        event.size_bytes event.content_hash event.origin_node_id host.now in
    let db = state.node.coordinator.db in
    let (found, _, _) = apply_remote_upsert_lem host.driver host.now ev db e hs hv in
    let (f, there_f, same_id) =
      any-In (λ f. f.folder_id == event.folder_id) db'.shared_folders
        (apply_remote_upsert-folders host.now ev db db' e) in
    let (m, same_path) =
      get_all_files-In host.driver event.folder_id path db' (record_of (normalized ev)) files found
        refl listed in
    let (a, s, shape) = normalize_path-Marked path (
      generate_conflict_path-Marked host.format_time event.relative_path event.origin_node_id
        event.modified_at path named) in
    let marked : contains marker (normalize_path path) ≡ true =
      ap (contains marker) shape ∙ contains-append a marker s in
    let dto = conflict_dto event.folder_id (record_of (normalized ev)) in
    let id : f.folder_id ≡ event.folder_id = ground arith in
    conflicts_in-In host.driver db' (get_folders db') f files dto
      (In-sort_by (λ f g. Int.leb f.created_at g.created_at) f db'.shared_folders there_f)
      (ap (λ i. get_all_files host.driver i db') id ∙ listed)
      (subst (λ i. In dto (conflicts_among i files)) (sym id)
        (conflicts_among-In event.folder_id files (record_of (normalized ev)) m refl marked))
