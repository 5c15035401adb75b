-- ===== src/Cli/Dispatch.antt =====
-- The loop over the lines in `main` of crates/tusher-cli/src/main.rs.
use t_u_s_h_e_r.Base.{ℕ, true, false, List, [], ◌∷◌, if◌then◌else◌, ◌==◌, bytes_eq}
use t_u_s_h_e_r.Base.Text.{Text, ascii}
use t_u_s_h_e_r.Base.Words.{trim, split_whitespace}
use t_u_s_h_e_r.Mesh.{Host}
use t_u_s_h_e_r.Cli.Folders.{
  folders_command, add_folder_command, sync_command, index_command, events_command,
}
use t_u_s_h_e_r.Cli.{
  help_shown, shutting_down, unknown_command, CliNode, go_on, stop, panicked, Ran, print, say,
  peers_command, status_command, invite_command, connect_command, trust_all_command, pair_command,
  send_command, manifest_command, simulate_command,
}

-- A line that is read, with what the program meets while it is run: the host, and what an
-- invitation needs.
pub record Input : Type 1 where
  pub host : Host
  pub token_bytes : List ℕ
  pub instant : ℕ
  pub hint : Text
  pub line : Text

-- The match on the first word.
unfoldable pub dispatch : Input → Text → List Text → CliNode → Ran
dispatch i name args s =
    if name == ascii "peers"
    then peers_command s
    else if name == ascii "status"
    then status_command s
    else if name == ascii "invite"
    then invite_command i.host i.token_bytes i.instant i.hint s
    else if name == ascii "connect"
    then connect_command i.host args s
    else if name == ascii "trust-all"
    then trust_all_command s
    else if name == ascii "pair"
    then pair_command args s
    else if name == ascii "send"
    then send_command i.host args s
    else if name == ascii "folders"
    then folders_command s
    else if name == ascii "add-folder"
    then add_folder_command i.host args s
    else if name == ascii "sync"
    then sync_command i.host args s
    else if name == ascii "index"
    then index_command i.host args s
    else if name == ascii "events"
    then events_command i.host args s
    else if name == ascii "manifest"
    then manifest_command i.host args s
    else if name == ascii "simulate-lan-drop"
    then simulate_command true s
    else if name == ascii "simulate-lan-restore"
    then simulate_command false s
    else if name == ascii "help"
    then say help_shown s
    else if name == ascii "quit"
    then (print shutting_down s, stop)
    else if name == ascii "exit"
    then (print shutting_down s, stop)
    else say (unknown_command name) s

unfoldable pub run_words : Input → List Text → CliNode → Ran
unfolding dispatch
run_words i [] s = (s, go_on)
run_words i (name ∷ args) s = dispatch i name args s

unfoldable pub run_line : Input → CliNode → Ran
unfolding run_words
run_line i s = run_words i (split_whitespace (trim i.line)) s

-- The loop, which ends as well when no line is left.
unfoldable pub run_lines : List Input → CliNode → Ran
unfolding run_line
run_lines [] s = (s, stop)
run_lines (i ∷ inputs) s =
    let (s', flow) = run_line i s in
    elim flow [ go_on ↦ run_lines inputs s' | stop ↦ (s', stop) | panicked ↦ (s', panicked) ]
