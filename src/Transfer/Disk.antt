-- ===== src/Transfer/Disk.antt =====
-- The files that crates/tusher-transfer reads and writes, by their paths as texts, and the calls of
-- tokio::fs on them. Directories, permissions and full disks are left out: a call fails where it
-- needs a file that is not there. A file is known by the text of its path: two texts that the system
-- resolves to one file, by `..`, a link or the case of letters, count as two files. The directories
-- are those that the node was given, and a cleaned file name is one ordinary component.
use t_u_s_h_e_r.Base.{
  ℕ, ◌+◌, ◌-◌, Bool, true, false, none, some, List, [], ◌∷◌, ◌++◌, length, take, drop, replicate,
  bytes_eq,
}
use t_u_s_h_e_r.Base.Maps.{Map, insert, remove}
use t_u_s_h_e_r.Base.Text.{Text}

abbrev pub Disk : Type 0
Disk = Map (List ℕ)

-- `path.exists()`
abbrev pub exists : Text → Disk → Bool
exists path disk = elim (disk path) [ none ↦ false | some _ ↦ true ]

-- `File::create` and `set_len` on the new file: it is filled with zeros.
abbrev pub create_with_len : Text → ℕ → Disk → Disk
create_with_len path size disk = insert path (replicate size 0) disk

-- `seek` to an offset and `write_all`: a gap behind the end is filled with zeros, and nothing
-- happens if there is nothing to write.
unfoldable pub write_at : ℕ → List ℕ → List ℕ → List ℕ
write_at offset [] file = file
write_at offset (b ∷ bytes) file =
    take offset (file ++ replicate (offset - length file) 0)
    ++ ((b ∷ bytes) ++ drop (offset + length (b ∷ bytes)) file)

-- `rename`, for a source that is there.
abbrev pub rename : Text → Text → List ℕ → Disk → Disk
rename from to content disk = insert to content (remove from disk)
