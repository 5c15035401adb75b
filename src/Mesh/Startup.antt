-- ===== src/Mesh/Startup.antt =====
-- The loop over the folders of the catalog at the start of crates/tusher-cli and of
-- crates/tusher-desktop.
use t_u_s_h_e_r.Base.{
  ◌≡◌, refl, sym, ap, ◌∙◌, ◌≢◌, true, false, none, some, List, [], ◌∷◌, ◌++◌, map, any, find?,
  arith, All, All-map, All-sort_by, All-In, sort_by, Pairwise, In, here, there, ◌==◌, if◌then◌else◌,
  bytes_eq, Bool-cases, inl, inr,
}
use t_u_s_h_e_r.Base.Text.{Text}
use t_u_s_h_e_r.Base.Int
use t_u_s_h_e_r.Base.Members.{find?-In, In-any, In-sort_by}
use t_u_s_h_e_r.Base.Assoc.{get, get-put}
use t_u_s_h_e_r.Base.FilePath.{file_name}
use t_u_s_h_e_r.Metadata.Models.{SharedFolder}
use t_u_s_h_e_r.Metadata.Tables.{MetadataDb, has_folder}
use t_u_s_h_e_r.Metadata.Db
use t_u_s_h_e_r.Metadata.Db.{get_folder, get_folders}
use t_u_s_h_e_r.Sync.State.{Coordinator}
use t_u_s_h_e_r.Sync.Local.{register_folder}
use t_u_s_h_e_r.Metadata.Service
use t_u_s_h_e_r.Mesh.{Host, register_existing}

not_there :
    (g : SharedFolder) (rows : List SharedFolder) (id : Text) (f : SharedFolder)
    → has_folder rows g.folder_id ≡ false
    → find? (λ x. x.folder_id == id) rows ≡ some f
    → (f.folder_id == g.folder_id) ≡ false
not_there g [] id f e h = absurd (ground arith)
not_there g (x ∷ rows) id f e h = elim (Bool-cases (x.folder_id == id)) [
  | inl k ↦ ground arith
  | inr k ↦ ground (arith, not_there g rows id f)
]

module _ (g : SharedFolder) where
  abbrev update : SharedFolder → SharedFolder
  update f =
      if f.folder_id == g.folder_id
      then record f { name = g.name; local_path = g.local_path }
      else f

  find?-update :
      (id : Text) (rows : List SharedFolder) (f : SharedFolder)
      → find? (λ x. x.folder_id == id) rows ≡ some f
      → find? (λ x. x.folder_id == id) (map update rows) ≡ some (update f)
  find?-update id [] f h = absurd (ground arith)
  find?-update id (x ∷ rows) f h = elim (Bool-cases (x.folder_id == id)) [
    | inl e ↦ ground arith
    | inr e ↦ ground (arith, find?-update id rows f)
  ]

  find?-append :
      (id : Text) (rows : List SharedFolder) (f : SharedFolder)
      → find? (λ x. x.folder_id == id) rows ≡ some f
      → find? (λ x. x.folder_id == id) (rows ++ (g ∷ [])) ≡ some f
  find?-append id [] f h = absurd (ground arith)
  find?-append id (x ∷ rows) f h = ground (arith, find?-append id rows f)

pub get_folder-add_folder :
    (g : SharedFolder) (db : MetadataDb) (id : Text) (f : SharedFolder)
    → get_folder id db ≡ some f
    → get_folder id (Db.add_folder g db)
      ≡ some (
          if f.folder_id == g.folder_id
          then record f { name = g.name; local_path = g.local_path }
          else f)
unfolding get_folder Db.add_folder
get_folder-add_folder g db id f h = elim (Bool-cases (has_folder db.shared_folders g.folder_id)) [
  | inl e ↦ rw e (find?-update g id db.shared_folders f h)
  | inr e ↦
      let apart : (f.folder_id == g.folder_id) ≡ false = not_there g db.shared_folders id f e h in
      rw (e, apart) (find?-append g id db.shared_folders f h)
]

-- The name that a folder has once it is registered.
abbrev pub name_at : Text → Text → Text
name_at folder_id path = elim (file_name path) [ none ↦ folder_id | some n ↦ n ]

-- Rows of one id have one path.
abbrev pub SamePath : SharedFolder → SharedFolder → Type 0
SamePath f g = g.folder_id ≡ f.folder_id → g.local_path ≡ f.local_path

same_path :
    (f : SharedFolder) (rows : List SharedFolder)
    → Pairwise (λ a b. a.folder_id ≢ b.folder_id) rows
    → In f rows
    → All (SamePath f) rows
same_path f [] h m = elim m [ ]
same_path f (x ∷ rows) (hx, h) (here e) = (
  (λ i. ap (λ t. t.local_path) (sym e)),
  All-map (λ b. x.folder_id ≢ b.folder_id)
      (λ b apart i. absurd (apart (sym (i ∙ ap (λ t. t.folder_id) e)))) rows hx,
)
same_path f (x ∷ rows) (hx, h) (there m) =
    ((λ i. absurd (All-In (λ b. x.folder_id ≢ b.folder_id) rows f hx m i)), same_path f rows h m)

module _ (host : Host) where
  abbrev register : SharedFolder → Coordinator → Coordinator
  register g c = register_folder host.driver host.sha host.now g.folder_id g.local_path c

  register_folder-get_folder :
      (g : SharedFolder) (c : Coordinator) (id : Text) (f : SharedFolder)
      → get_folder id c.db ≡ some f
      → get_folder id (register g c).db
        ≡ some (
            if f.folder_id == g.folder_id
            then record f { name = name_at g.folder_id g.local_path; local_path = g.local_path }
            else f)
  unfolding register_folder Service.add_folder
  register_folder-get_folder g c id f h = get_folder-add_folder _ c.db id f h

  register_folder-registered :
      (g : SharedFolder) (c : Coordinator) (id : Text)
      → get id (register g c).registered_folders
        ≡ (if g.folder_id == id then some g.local_path else get id c.registered_folders)
  unfolding register_folder
  register_folder-registered g c id = get-put id g.folder_id g.local_path c.registered_folders

  register_existing-get_folder :
      (gs : List SharedFolder) (c : Coordinator) (id : Text) (f : SharedFolder) (n : Text)
      → get_folder id c.db ≡ some (record f { name = n })
      → All (SamePath f) gs
      → (get_folder id (register_existing host gs c).db
          ≡ some (record f {
            name =
                if any (λ g. g.folder_id == f.folder_id) gs
                then name_at f.folder_id f.local_path
                else n;
          }))
        × (get f.folder_id (register_existing host gs c).registered_folders ≡ (
            if any (λ g. g.folder_id == f.folder_id) gs
            then some f.local_path
            else get f.folder_id c.registered_folders))
  unfolding register_existing
  register_existing-get_folder [] c id f n h same = (h, refl)
  register_existing-get_folder (g ∷ gs) c id f n h (path, same) =
      let step = register_folder-get_folder g c id (record f { name = n }) h in
      let entry = register_folder-registered g c f.folder_id in
      elim (Bool-cases (g.folder_id == f.folder_id)) [
        | inl e ↦
            let i : g.folder_id ≡ f.folder_id = ground arith in
            let p : g.local_path ≡ f.local_path = path i in
            let step' : get_folder id (register g c).db
                ≡ some (record f { name = name_at f.folder_id f.local_path }) =
              ground (
                arith,
                step,
                i,
                p,
                ap (name_at g.folder_id) p,
                ap (λ j. name_at j f.local_path) i,
              ) in
            let (named, registered) =
              register_existing-get_folder gs (register g c) id f _ step' same in
            rw e (ground (arith, named), ground (arith, registered, entry, p, e))
        | inr e ↦
            let other : (f.folder_id == g.folder_id) ≡ false = ground arith in
            let step' : get_folder id (register g c).db ≡ some (record f { name = n }) =
              rw other at step in
            let (named, registered) =
              register_existing-get_folder gs (register g c) id f n step' same in
            rw e (named, ground (arith, registered, entry, e))
      ]

-- At the start, every folder of the catalog is registered under its path again. This gives it the
-- last part of that path for a name, whatever name it had, and changes nothing else of it. The
-- catalog has no two folders of one id.
pub register_existing_lem :
    (host : Host) (c : Coordinator) (id : Text) (f : SharedFolder)
    → Pairwise (λ a b. a.folder_id ≢ b.folder_id) c.db.shared_folders
    → get_folder id c.db ≡ some f
    → let c' = register_existing host (get_folders c.db) c in
      (get_folder id c'.db ≡ some (record f { name = name_at f.folder_id f.local_path }))
      × (get f.folder_id c'.registered_folders ≡ some f.local_path)
unfolding get_folder get_folders
register_existing_lem host c id f apart h =
    let sorted = sort_by (λ f g. Int.leb f.created_at g.created_at) c.db.shared_folders in
    let (m, e) = find?-In (λ x. x.folder_id == id) c.db.shared_folders f h in
    let same : All (SamePath f) sorted =
      All-sort_by (λ f g. Int.leb f.created_at g.created_at) (SamePath f) c.db.shared_folders
        (same_path f c.db.shared_folders apart m) in
    let there' : any (λ g. g.folder_id == f.folder_id) sorted ≡ true =
      In-any (λ g. g.folder_id == f.folder_id) sorted f
        (In-sort_by (λ f g. Int.leb f.created_at g.created_at) f c.db.shared_folders m)
        (ground arith) in
    let (named, registered) = register_existing-get_folder host sorted c id f f.name h same in
    ((rw there' at named), (rw there' at registered))
