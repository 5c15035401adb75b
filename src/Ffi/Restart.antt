-- ===== src/Ffi/Restart.antt =====
-- What a node of crates/tusher-ffi/src/lib.rs finds again of an earlier run.
use t_u_s_h_e_r.Base.{
  ℕ, ◌≡◌, refl, ap, ◌∙◌, some, none, [], arith, map, ok, guard, ok_or, >>=-eq-ok,
}
use t_u_s_h_e_r.Base.Text.{Text, ascii}
use t_u_s_h_e_r.Base.Assoc.{get}
use t_u_s_h_e_r.Base.FilePath.{join}
use t_u_s_h_e_r.Core.Types.{Platform}
use t_u_s_h_e_r.Core.Keys.{DeviceIdentity, from_verifying_key}
use t_u_s_h_e_r.Core.Identity.{IdentityStore, generate, with_key, public_identity}
use t_u_s_h_e_r.Metadata.Tables.{MetadataDb}
use t_u_s_h_e_r.Metadata.Db.{get_folders}
use t_u_s_h_e_r.Sync.State.{Coordinator}
use t_u_s_h_e_r.Sync.Local.{new_coordinator, start, scan_folders, initial_scan}
use t_u_s_h_e_r.Mesh.{Host, register_existing, launch}
use t_u_s_h_e_r.Ffi.{
  TusherNode, Start, storage_error, new_identity, start_node, new_node, with_coordinator, answer,
  listed_folder, list_shared_folders, scan_and_index_folder,
}

module _ (host : Host) (store : IdentityStore) (current : Platform) (at : Start)
    (data_dir : Text) where
  start_node_fresh :
      (identity : DeviceIdentity) (port discovery_port : ℕ) (db : MetadataDb) (n : TusherNode)
      → start_node host store current at data_dir identity port discovery_port db ≡ ok n
      → (n.identity ≡ identity)
        × (n.node.coordinator.db ≡ db)
        × (n.node.coordinator.registered_folders ≡ [])
  unfolding start_node launch register_existing start scan_folders new_coordinator
  start_node_fresh identity port discovery_port db n h = (ground arith, ground arith, ground arith)

  initial_scan_unregistered :
      (id : Text) (c : Coordinator)
      → c.registered_folders ≡ []
      → initial_scan host.driver host.sha host.now host.walkdir id c ≡ (c, ok tt)
  unfolding initial_scan get
  initial_scan_unregistered id c h =
      let missing : get id c.registered_folders ≡ none = ap (get id) h in
      rw (missing, initial_scan) refl

  scan_unregistered :
      (id : Text) (n : TusherNode)
      → n.node.coordinator.registered_folders ≡ []
      → scan_and_index_folder host id n ≡ (n, ok tt)
  unfolding scan_and_index_folder
  scan_unregistered id n h =
      ap (λ r. (with_coordinator r.0 n, answer r.1))
        (initial_scan_unregistered id n.node.coordinator h)

  -- A node of the FFI that starts over a catalog does not take up an earlier run. Its identity is made of the new random key,
  -- whatever the directory holds. The folders of the catalog are listed, but none is registered: a
  -- scan of any folder succeeds and changes nothing.
  pub new_node_lem :
      (node_name : Text) (port discovery_port : ℕ) (db : MetadataDb) (n : TusherNode) (id : Text)
      → at.opened ≡ some db
      → new_node host store current at data_dir node_name port discovery_port ≡ ok n
      → (n.identity.node_id ≡ from_verifying_key host.crypto (store.verifying_key_of at.random_key))
        × (list_shared_folders host n ≡ map (listed_folder host db) (get_folders db))
        × (n.node.coordinator.registered_folders ≡ [])
        × (scan_and_index_folder host id n ≡ (n, ok tt))
  unfolding new_node new_identity generate with_key public_identity list_shared_folders
  new_node_lem node_name port discovery_port db n id opened h =
      let (u, _, h1) = >>=-eq-ok (guard (at.create_dir_all data_dir) storage_error) _ h in
      let (v, _, h2) =
        >>=-eq-ok (guard (at.create_dir_all (join data_dir (ascii "staging"))) storage_error) _
          h1 in
      let (x, _, h3) =
        >>=-eq-ok (guard (at.create_dir_all (join data_dir (ascii "downloads"))) storage_error) _
          h2 in
      let (db', found, h4) = >>=-eq-ok (ok_or at.opened storage_error) _ h3 in
      let same : db' ≡ db = ground (arith, opened, found) in
      let (who, catalog, registered) =
        start_node_fresh (new_identity host store current at node_name) port discovery_port db' n
          h4 in
      (
        ap (λ i. i.node_id) who,
        ap (λ d. map (listed_folder host d) (get_folders d)) (catalog ∙ same),
        registered,
        scan_unregistered id n registered,
      )
