-- ===== src/Transfer/Receiver/Names.antt =====
-- The check of file names in `handle_init` of crates/tusher-transfer/src/receiver.rs.
use t_u_s_h_e_r.Base.{◌≡◌, ◌≢◌, some, [], All, arith, bytes_eq}
use t_u_s_h_e_r.Base.Text.{Text, ascii, slash, backslash, replace}
use t_u_s_h_e_r.Base.FilePath.{components_single}
use t_u_s_h_e_r.Transfer.Receiver.{clean_file_name, push_normal}

-- The components are checked before backslashes are replaced: a name without a slash, other than
-- "", "." and "..", is taken as it is, and each backslash in it becomes a slash.
pub clean_file_name-backslash :
    (name : Text)
    → All (λ c. c ≢ slash) name
    → name ≢ []
    → name ≢ ascii "."
    → name ≢ ascii ".."
    → clean_file_name name ≡ some (replace backslash slash name)
unfolding clean_file_name push_normal
clean_file_name-backslash name h not_empty not_cur not_parent =
    rw (components_single name h not_empty not_cur not_parent) (ground arith)
