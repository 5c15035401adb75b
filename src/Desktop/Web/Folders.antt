-- ===== src/Desktop/Web/Folders.antt =====
-- The list of folders of crates/tusher-desktop/src/web.rs.
use t_u_s_h_e_r.Base.{
  ◌≡◌, refl, sym, ap, ◌∙◌, ◌≢◌, true, false, List, [], ◌∷◌, ◌++◌, map, any, arith, In, here, there,
  All, All-append, All-map, Pairwise, Pairwise-append_one, Pairwise-map, Pairwise-sort_by,
  any-eq-false, any-append_one, any-append_mono, ◌==◌, if◌then◌else◌, bytes_eq, Bool-cases, inl,
  inr,
}
use t_u_s_h_e_r.Base.Cuts.{append_assoc, append-nil}
use mathlib.Core.Path.{subst}
use t_u_s_h_e_r.Base.Text.{Text}
use t_u_s_h_e_r.Base.Int
use t_u_s_h_e_r.Core.Types.{NodeId}
use t_u_s_h_e_r.Core.Protocol.{SharedFolderInfo}
use t_u_s_h_e_r.Metadata.Models.{SharedFolder}
use t_u_s_h_e_r.Metadata.Db.{get_folders}
use t_u_s_h_e_r.Mesh.{Host}
use t_u_s_h_e_r.Desktop.Web.{
  DesktopState, FolderDto, RemoteFolders, local_dto, remote_dto, add_peer_folders,
  add_remote_folders, this_pc, get_folders_handler,
}

-- Entries with different ids.
abbrev pub OtherId : FolderDto → FolderDto → Type 0
OtherId a b = a.folder_id ≢ b.folder_id

abbrev pub Distinct : List FolderDto → Type 0
Distinct entries = Pairwise OtherId entries

-- Rows of the catalog under different keys.
abbrev pub OtherFolder : SharedFolder → SharedFolder → Type 0
OtherFolder f g = f.folder_id ≢ g.folder_id

-- A folder of a peer has an entry.
abbrev pub Listed : List FolderDto → SharedFolderInfo → Type 0
Listed entries rf = any (λ e. e.folder_id == rf.folder_id) entries ≡ true

-- An entry that is made of a folder that a peer has told of.
abbrev pub Told : RemoteFolders → FolderDto → Type 0
Told remote e =
    (peer_id : NodeId) × (name : Text) × (platform : Text) × (folders : List SharedFolderInfo)
    × (rf : SharedFolderInfo) × In (peer_id, (name, platform, folders)) remote
    × In rf folders
    × (e ≡ remote_dto name platform rf)

-- Every folder of every peer has an entry.
abbrev pub AllListed : List FolderDto → RemoteFolders → Type 0
AllListed entries remote =
    All (λ (peer_id, (name, platform, folders)). All (Listed entries) folders) remote

module _ (Source : FolderDto → Type 0) where
  -- Entries of peers at the end of a list, each from the source.
  abbrev pub Extends : List FolderDto → List FolderDto → Type 0
  Extends entries entries' =
      (extra : List FolderDto) × (entries' ≡ entries ++ extra)
      × All (λ e. (e.is_local ≡ false) × Source e) extra

  Extends-refl : (entries : List FolderDto) → Extends entries entries
  Extends-refl entries = ([], sym (append-nil entries), tt)

  Extends-trans : (a b c : List FolderDto) → Extends a b → Extends b c → Extends a c
  Extends-trans a b c (x, ex, hx) (y, ey, hy) = (
    x ++ y,
    ey ∙ ap (λ t. t ++ y) ex ∙ append_assoc a x y,
    All-append (λ e. (e.is_local ≡ false) × Source e) x y hx hy,
  )

  Extends-Listed :
      (a b : List FolderDto) (rf : SharedFolderInfo) → Extends a b → Listed a rf → Listed b rf
  Extends-Listed a b rf (x, ex, hx) h =
      subst (λ t. Listed t rf) (sym ex) (any-append_mono (λ e. e.folder_id == rf.folder_id) a x h)

  -- What an entry for a folder of a peer comes to.
  abbrev Added : List FolderDto → List FolderDto → List SharedFolderInfo → Type 0
  Added entries entries' folders =
      Distinct entries' × Extends entries entries' × All (Listed entries') folders

  add_one :
      (name platform : Text) (rf : SharedFolderInfo) (entries : List FolderDto)
      → Source (remote_dto name platform rf)
      → Distinct entries
      → Added entries
          (if any (λ existing. existing.folder_id == rf.folder_id) entries
            then entries
            else entries ++ (remote_dto name platform rf ∷ []))
          (rf ∷ [])
  unfolding remote_dto
  add_one name platform rf entries source h =
      elim (Bool-cases (any (λ existing. existing.folder_id == rf.folder_id) entries)) [
        | inl e ↦ rw e (h, Extends-refl entries, (e, tt))
        | inr e ↦ rw e (
          Pairwise-append_one OtherId entries (remote_dto name platform rf) h (
              All-map (λ x. (x.folder_id == rf.folder_id) ≡ false) (λ x other. ground arith) entries
                (any-eq-false (λ existing. existing.folder_id == rf.folder_id) entries e)),
          (remote_dto name platform rf ∷ [], refl, ((refl, source), tt)),
          (
            any-append_one (λ existing. existing.folder_id == rf.folder_id) entries
                (remote_dto name platform rf) (ground arith),
            tt,
          ),
        )
      ]

  add_peer_folders-Added :
      (name platform : Text) (folders : List SharedFolderInfo) (entries : List FolderDto)
      → ((rf : SharedFolderInfo) → In rf folders → Source (remote_dto name platform rf))
      → Distinct entries
      → Added entries (add_peer_folders name platform folders entries) folders
  unfolding add_peer_folders
  add_peer_folders-Added name platform [] entries source h = (h, Extends-refl entries, tt)
  add_peer_folders-Added name platform (rf ∷ folders) entries source h =
      let one =
        if any (λ existing. existing.folder_id == rf.folder_id) entries
        then entries
        else entries ++ (remote_dto name platform rf ∷ []) in
      let (d1, x1, l1) = add_one name platform rf entries (source rf (here refl)) h in
      let (d2, x2, l2) =
        add_peer_folders-Added name platform folders one (λ r m. source r (there m)) d1 in
      let all = add_peer_folders name platform folders one in
      (d2, Extends-trans entries one all x1 x2, (Extends-Listed one all rf x2 l1.0, l2))

  add_remote_folders_lem :
      (remote : RemoteFolders) (entries : List FolderDto)
      → ((e : FolderDto) → Told remote e → Source e)
      → Distinct entries
      → Distinct (add_remote_folders remote entries)
        × Extends entries (add_remote_folders remote entries)
        × AllListed (add_remote_folders remote entries) remote
  unfolding add_remote_folders
  add_remote_folders_lem [] entries source h = (h, Extends-refl entries, tt)
  add_remote_folders_lem ((peer_id, (name, platform, folders)) ∷ rest) entries source h =
      let one = add_peer_folders name platform folders entries in
      let all = add_remote_folders rest one in
      let (d1, x1, l1) =
        add_peer_folders-Added name platform folders entries
          (λ rf m.
            source (remote_dto name platform rf)
              (peer_id, name, platform, folders, rf, here refl, m, refl))
          h in
      let (d2, x2, l2) =
        add_remote_folders_lem rest one
          (λ e (peer, n, p, fs, rf, m, m', same). source e (peer, n, p, fs, rf, there m, m', same))
          d1 in
      (
        d2,
        Extends-trans entries one all x1 x2,
        (All-map (Listed one) (λ rf. Extends-Listed one all rf x2) folders l1, l2),
      )

pub get_folders_handler_lem :
    (host : Host) (state : DesktopState)
    → Pairwise OtherFolder state.node.coordinator.db.shared_folders
    → Distinct (get_folders_handler host state)
      × Extends
          (Told state.node.coordinator.remote_folders)
          (map
            (local_dto host.driver (this_pc state.node.manager.identity) state.node.coordinator.db)
            (get_folders state.node.coordinator.db))
          (get_folders_handler host state)
      × AllListed (get_folders_handler host state) state.node.coordinator.remote_folders
unfolding get_folders_handler get_folders local_dto
get_folders_handler_lem host state h =
    let db = state.node.coordinator.db in
    let local = local_dto host.driver (this_pc state.node.manager.identity) db in
    add_remote_folders_lem (Told state.node.coordinator.remote_folders)
      state.node.coordinator.remote_folders (map local (get_folders db)) (λ e told. told)
      (Pairwise-map OtherFolder OtherId local (λ f g other. other) (get_folders db)
        (Pairwise-sort_by (λ f g. Int.leb f.created_at g.created_at) OtherFolder
          (λ f g other e. other (sym e)) db.shared_folders h))
