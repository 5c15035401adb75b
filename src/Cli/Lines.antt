-- ===== src/Cli/Lines.antt =====
-- What the command line makes of a line.
use t_u_s_h_e_r.Base.{
  ℕ, ◌≡◌, refl, sym, ap, ◌∙◌, ◌≢◌, ◌⊎◌, inl, inr, some, List, [], ◌∷◌, ◌++◌, map, replicate, arith,
  All, bytes_eq, nat_eq, Outcome-cases,
}
use t_u_s_h_e_r.Base.Text.{Text, ascii}
use t_u_s_h_e_r.Base.Words.{trim, split_whitespace}
use t_u_s_h_e_r.Base.Words.Spaced.{IsWord, spell, split_whitespace-spell}
use t_u_s_h_e_r.Base.Assoc.{get, get-put}
use t_u_s_h_e_r.Metadata.Models.{SharedFolder}
use t_u_s_h_e_r.Metadata.Db.{get_folder}
use t_u_s_h_e_r.Metadata.Service
use t_u_s_h_e_r.Sync.State.{Coordinator, broadcast, trigger_sync}
use t_u_s_h_e_r.Sync.Local.{register_folder}
use t_u_s_h_e_r.Mesh.{Host}
use t_u_s_h_e_r.Mesh.Startup.{name_at}
use t_u_s_h_e_r.Metadata.Service.{handle_manifest_request}
use t_u_s_h_e_r.Mesh.Sharing.{
  get_folder-add_folder_self, get_folder-add_folder_other, get_folder_same,
}
use t_u_s_h_e_r.Cli.{CliNode, go_on, stop, panicked, Ran, print, shutting_down}
use t_u_s_h_e_r.Cli.Folders.{add_folder_command}
use t_u_s_h_e_r.Cli.Dispatch.{Input, dispatch, run_words, run_line, run_lines}

-- A line that spells these words, with any spaces around them.
abbrev pub Spells : Input → Text → List (ℕ × Text) → Type 0
Spells i name words =
    (n : ℕ) × (e : ℕ) × (i.line ≡ replicate n 32 ++ (name ++ spell words e))
    × IsWord name
    × All (λ (k, w). IsWord w) words

-- A line is run as its first word with the others for arguments, whatever the spaces.
pub run_line-Spells :
    (i : Input) (name : Text) (words : List (ℕ × Text)) (s : CliNode)
    → Spells i name words
    → run_line i s ≡ dispatch i name (map (λ (k, w). w) words) s
unfolding run_line run_words
run_line-Spells i name words s (n, e, line, hw, hs) =
    ap (λ l. run_words i (split_whitespace (trim l)) s) line
    ∙ ap (λ l. run_words i l s) (split_whitespace-spell n name words e hw hs)

-- A word that ends the program.
abbrev pub IsQuit : Text → Type 0
IsQuit name = (name ≡ ascii "quit") ⊎ (name ≡ ascii "exit")

dispatch-IsQuit :
    (i : Input) (name : Text) (args : List Text) (s : CliNode)
    → IsQuit name
    → dispatch i name args s ≡ (print shutting_down s, stop)
unfolding dispatch bytes_eq nat_eq
dispatch-IsQuit i name args s (inl e) = rw e refl
dispatch-IsQuit i name args s (inr e) = rw e refl

Ran-cases :
    (r : Ran)
    → ((t : CliNode) × (r ≡ (t, go_on)))
      ⊎ ((t : CliNode) × (r ≡ (t, stop)))
      ⊎ ((t : CliNode) × (r ≡ (t, panicked)))
Ran-cases (t, go_on) = inl (t, refl)
Ran-cases (t, stop) = inr (inl (t, refl))
Ran-cases (t, panicked) = inr (inr (t, refl))

module _ (i : Input) (inputs : List Input) (s t : CliNode) where
  abbrev next_line : Ran → Ran
  next_line r = elim (r.1) as (λ f. Ran) [
    | go_on ↦ run_lines inputs r.0
    | stop ↦ (r.0, stop)
    | panicked ↦ (r.0, panicked)
  ]

  run_lines-go_on : run_line i s ≡ (t, go_on) → run_lines (i ∷ inputs) s ≡ run_lines inputs t
  unfolding run_lines
  run_lines-go_on h = ap next_line h

  run_lines-ended : run_line i s ≡ (t, stop) → run_lines (i ∷ inputs) s ≡ (t, stop)
  unfolding run_lines
  run_lines-ended h = ap next_line h

  run_lines-panicked : run_line i s ≡ (t, panicked) → run_lines (i ∷ inputs) s ≡ (t, panicked)
  unfolding run_lines
  run_lines-panicked h = ap next_line h

-- Input that a line in it ends is not read further.
run_lines-stop :
    (before after : List Input) (q : Input) (s : CliNode)
    → ((t : CliNode) → run_line q t ≡ (print shutting_down t, stop))
    → run_lines (before ++ (q ∷ after)) s ≡ run_lines (before ++ (q ∷ [])) s
run_lines-stop [] after q s h =
    run_lines-ended q after s _ (h s) ∙ sym (run_lines-ended q [] s _ (h s))
run_lines-stop (i ∷ before) after q s h =
    let long = before ++ (q ∷ after) in
    let short = before ++ (q ∷ []) in
    elim (Ran-cases (run_line i s)) [
      | inl (t, e) ↦
          run_lines-go_on i long s t e
          ∙ run_lines-stop before after q t h
          ∙ sym (run_lines-go_on i short s t e)
      | inr (inl (t, e)) ↦ run_lines-ended i long s t e ∙ sym (run_lines-ended i short s t e)
      | inr (inr (t, e)) ↦ run_lines-panicked i long s t e ∙ sym (run_lines-panicked i short s t e)
    ]

-- A line whose first word is `quit` or `exit`, with any spaces and whatever words follow, ends the
-- program there: no line after it is run, and it changes nothing but what is printed.
pub run_lines_quit :
    (before after : List Input) (q : Input) (name : Text) (words : List (ℕ × Text)) (s : CliNode)
    → Spells q name words
    → IsQuit name
    → (run_lines (before ++ (q ∷ after)) s ≡ run_lines (before ++ (q ∷ [])) s)
      × (run_lines (q ∷ after) s ≡ (print shutting_down s, stop))
run_lines_quit before after q name words s spelled quits =
    let ends : (t : CliNode) → run_line q t ≡ (print shutting_down t, stop) = λ t.
      run_line-Spells q name words t spelled
      ∙ dispatch-IsQuit q name (map (λ (k, w). w) words) t quits in
    (run_lines-stop before after q s ends, run_lines-ended q after s _ (ends s))

module _ (host : Host) (id path : Text) (c : Coordinator) where
  abbrev registered_at : Coordinator
  registered_at = register_folder host.driver host.sha host.now id path c

  register_folder-get_folder_self :
      (f : SharedFolder) × (get_folder id registered_at.db ≡ some f)
      × (f.name ≡ name_at id path)
      × (f.local_path ≡ path)
  unfolding register_folder broadcast Service.add_folder
  register_folder-get_folder_self =
      get_folder-add_folder_self
        (record {
          folder_id = id;
          name = name_at id path;
          local_path = path;
          created_at = host.now;
        })
        c.db

  register_folder-get_self : get id registered_at.registered_folders ≡ some path
  unfolding register_folder broadcast
  register_folder-get_self = ground (arith, get-put id id path c.registered_folders)

module _ (host : Host) (id path : Text) (c : Coordinator) (j : Text) (other : j ≢ id) where
  register_folder-get_folder_other :
      get_folder j (registered_at host id path c).db ≡ get_folder j c.db
  unfolding register_folder broadcast Service.add_folder
  register_folder-get_folder_other =
      get_folder-add_folder_other
        (record {
          folder_id = id;
          name = name_at id path;
          local_path = path;
          created_at = host.now;
        })
        c.db j other

  register_folder-get_other :
      get j (registered_at host id path c).registered_folders ≡ get j c.registered_folders
  unfolding register_folder broadcast
  register_folder-get_other = ground (arith, other, get-put j id path c.registered_folders)

trigger_sync-sent :
    (host : Host) (id : Text) (c : Coordinator)
    → let done = (trigger_sync host.driver id c).0 in done ≡ record c { sent = done.sent }
unfolding trigger_sync broadcast
trigger_sync-sent host id c = elim (Outcome-cases (handle_manifest_request host.driver id 0 c.db)) [
  | inl ((events, latest), e) ↦ rw (e, trigger_sync) refl
  | inr (inl (x, e)) ↦ rw (e, trigger_sync) refl
  | inr (inr e) ↦ rw (e, trigger_sync) refl
]

-- What the command does, but for the messages that it sends.
add_folder_command_lem :
    (host : Host) (id name path : Text) (rest : List Text) (s : CliNode)
    → let registered = registered_at host id path s.node.coordinator in
      let done = (add_folder_command host (id ∷ name ∷ path ∷ rest) s).0.node.coordinator in
      done ≡ record registered { sent = done.sent }
unfolding add_folder_command print
add_folder_command_lem host id name path rest s =
    let registered = registered_at host id path s.node.coordinator in
    let step = trigger_sync-sent host id registered in
    elim (Outcome-cases ((trigger_sync host.driver id registered).1)) [
      | inl (u, e) ↦ rw (e, add_folder_command) step
      | inr (inl (x, e)) ↦ rw (e, add_folder_command) step
      | inr (inr e) ↦ rw (e, add_folder_command) step
    ]

-- `add-folder` registers the first of the words that follow the name as the path. The folder gets
-- the last part of that path for a name. But for the messages that are sent, the state is then the
-- one that registering the id at this path gives, so the name that was typed, and all words that
-- follow the first space in a path, have no effect on it; and no other folder is changed.
pub run_line_add_folder :
    (i : Input) (name : Text) (k1 k2 k3 : ℕ) (id path : Text) (words : List (ℕ × Text))
    (s : CliNode) (j : Text)
    → Spells i (ascii "add-folder") ((k1, id) ∷ (k2, name) ∷ (k3, path) ∷ words)
    → j ≢ id
    → let c = s.node.coordinator in
      let c' = (run_line i s).0.node.coordinator in
      ((f : SharedFolder) × (get_folder id c'.db ≡ some f)
        × (f.name ≡ name_at id path)
        × (f.local_path ≡ path))
      × (get id c'.registered_folders ≡ some path)
      × (c' ≡ record (register_folder i.host.driver i.host.sha i.host.now id path c) {
        sent = c'.sent;
      })
      × (get_folder j c'.db ≡ get_folder j c.db)
      × (get j c'.registered_folders ≡ get j c.registered_folders)
unfolding dispatch bytes_eq nat_eq
run_line_add_folder i name k1 k2 k3 id path words s j spelled other =
    let c = s.node.coordinator in
    let host = i.host in
    let rest : List Text = map (λ (k, w). w) words in
    let registered = registered_at host id path c in
    let done = (add_folder_command host (id ∷ name ∷ path ∷ rest) s).0.node.coordinator in
    let ran : run_line i s ≡ add_folder_command host (id ∷ name ∷ path ∷ rest) s =
      run_line-Spells i (ascii "add-folder") ((k1, id) ∷ (k2, name) ∷ (k3, path) ∷ words) s
        spelled in
    let whole = add_folder_command_lem host id name path rest s in
    let folders = ap (λ c. c.db.shared_folders) whole in
    let paths = ap (λ c. c.registered_folders) whole in
    let (f, found, f_name, f_path) = register_folder-get_folder_self host id path c in
    rw ran (
      (f, get_folder_same id registered.db done.db folders ∙ found, f_name, f_path),
      ap (get id) paths ∙ register_folder-get_self host id path c,
      whole,
      get_folder_same j registered.db done.db folders
          ∙ register_folder-get_folder_other host id path c j other,
      ap (get j) paths ∙ register_folder-get_other host id path c j other,
    )
