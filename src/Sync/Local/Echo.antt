-- ===== src/Sync/Local/Echo.antt =====
-- The listener for local changes in crates/tusher-sync/src/coordinator.rs, on an event seen twice.
use t_u_s_h_e_r.Base.{
  ℕ, ◌+◌, ◌^◌, ◌<◌, ◌≡◌, ◌⊎◌, inl, inr, refl, sym, ap, ◌∙◌, true, false, Bool-cases, Option, none,
  some, arith, nat_eq, bytes_eq, Outcome, ok, err, panic, Outcome-cases,
}
use t_u_s_h_e_r.Base.Int.{ℤ}
use t_u_s_h_e_r.Base.Text.{Text}
use t_u_s_h_e_r.Core.Types.{NodeId}
use t_u_s_h_e_r.Core.Protocol.{SyncEvent, sync_notify}
use t_u_s_h_e_r.Metadata.Models.{FileRecord}
use t_u_s_h_e_r.Metadata.Tables.{MetadataDb, DbError, upsert_file, insert_event}
use t_u_s_h_e_r.Metadata.Db.{
  Rusqlite, get_file, next_version, record_local_upsert, record_local_delete, commit_upsert,
  log_change, delete_existing,
}
use t_u_s_h_e_r.Metadata.Db.Lookup.{record_of}
use t_u_s_h_e_r.Metadata.Db.Changes.{
  OthersKept, get_file-normalize_path, record_local_upsert_lem, record_local_upsert-next_version,
}
use t_u_s_h_e_r.Metadata.Db.Deletions.{record_local_delete_absent, record_local_delete_lem}
use t_u_s_h_e_r.Transfer.Hash.{Sha256}
use t_u_s_h_e_r.Sync.Watcher.{FsChangeEvent, upsert, delete}
use t_u_s_h_e_r.Sync.State.{SyncError, Coordinator, broadcast}
use t_u_s_h_e_r.Sync.Local.{is_echo, record_change, change_folder, change_path, on_fs_event}

-- Another version of the file can be stored.
abbrev pub HasRoom : Rusqlite → Text → Text → MetadataDb → Type 0
HasRoom driver folder_id path db =
    (rec : FileRecord)
    → get_file driver folder_id path db ≡ ok (some rec)
    → rec.version + 1 < 2 ^ 63

next_version_small :
    (existing : Option FileRecord) (hash file_id : Text) (version : ℕ)
    → ((rec : FileRecord) → existing ≡ some rec → rec.version + 1 < 2 ^ 63)
    → next_version existing hash ≡ ok (file_id, version)
    → version < 2 ^ 63
unfolding next_version
next_version_small none hash file_id version room e = ground arith
next_version_small (some rec) hash file_id version room e = ground (arith, room rec refl)

module _ (driver : Rusqlite) (now : ℤ) where
  -- A recorded file reads as the event that was logged for it, and every other file as before.
  pub recorded :
      (folder path hash : Text) (size : ℕ) (origin : NodeId) (db : MetadataDb) {db' : MetadataDb}
      {ev : SyncEvent}
      → size < 2 ^ 63
      → HasRoom driver folder path db
      → record_local_upsert driver now folder path size hash origin db ≡ ok (db', ev)
      → (rec : FileRecord) × (get_file driver folder path db' ≡ ok (some rec))
        × (rec.is_deleted ≡ false)
        × (rec.content_hash ≡ hash)
        × (rec.size_bytes ≡ size)
        × OthersKept driver folder path db db'
  recorded folder path hash size origin db {db'} {ev} hs room e =
      let (existing, found, versioned, sized) =
        record_local_upsert-next_version driver now folder path origin size hash db e in
      let small : ev.version < 2 ^ 63 =
        next_version_small existing hash ev.file_id ev.version (λ rec is. room rec (cc))
          versioned in
      let (existing', found', versioned', after, others, logged, whole) =
        record_local_upsert_lem driver now folder path origin size hash db e hs small in
      (record_of ev, after, refl, ap (λ x. x.content_hash) whole, sized, others)

  unreadable :
      (folder path : Text) (origin : NodeId) (db : MetadataDb) (e : DbError)
      → get_file driver folder path db ≡ err e
      → record_local_delete driver now folder path origin db ≡ err e
  unfolding record_local_delete
  unreadable folder path origin db e h =
      ground (arith, get_file-normalize_path driver folder path db)

-- The catalog has what the event reports.
abbrev pub Known : FsChangeEvent → FileRecord → Type 0
Known (upsert folder path size hash at) rec =
    (rec.is_deleted ≡ false) × (rec.content_hash ≡ hash) × (rec.size_bytes ≡ size)
Known (delete folder path at) rec = rec.is_deleted ≡ true

is_echo-Known :
    (event : FsChangeEvent) (rec : FileRecord) → is_echo event rec ≡ true → Known event rec
unfolding is_echo
is_echo-Known (upsert folder path size hash at) rec h = (ground arith, ground arith, ground arith)
is_echo-Known (delete folder path at) rec h = h

Known-is_echo :
    (event : FsChangeEvent) (rec : FileRecord) → Known event rec → is_echo event rec ≡ true
unfolding is_echo
Known-is_echo (upsert folder path size hash at) rec (active, hashed, sized) = ground arith
Known-is_echo (delete folder path at) rec h = h

-- What was read of the catalog is not what the event reports.
abbrev pub News : FsChangeEvent → Outcome DbError (Option FileRecord) → Type 0
News event (ok (some rec)) = ¬ (Known event rec)
News event (ok none) = Unit
News event (err e) = Unit
News event panic = ⊥

-- Whether a change can be recorded does not depend on the time.
module _ (driver : Rusqlite) (now later : ℤ) (folder path : Text) (origin : NodeId)
    (db : MetadataDb) where
  record_local_upsert-err :
      (size : ℕ) (hash : Text) {e : DbError}
      → record_local_upsert driver now folder path size hash origin db ≡ err e
      → record_local_upsert driver later folder path size hash origin db ≡ err e
  unfolding record_local_upsert commit_upsert log_change upsert_file insert_event
  record_local_upsert-err size hash h = ground arith

  record_local_upsert-panic :
      (size : ℕ) (hash : Text)
      → record_local_upsert driver now folder path size hash origin db ≡ panic
      → record_local_upsert driver later folder path size hash origin db ≡ panic
  unfolding record_local_upsert commit_upsert log_change upsert_file insert_event
  record_local_upsert-panic size hash h = ground arith

  record_local_delete-err :
      {e : DbError}
      → record_local_delete driver now folder path origin db ≡ err e
      → record_local_delete driver later folder path origin db ≡ err e
  unfolding record_local_delete delete_existing log_change insert_event
  record_local_delete-err h = ground arith

  record_local_delete-panic :
      record_local_delete driver now folder path origin db ≡ panic
      → record_local_delete driver later folder path origin db ≡ panic
  unfolding record_local_delete delete_existing log_change insert_event
  record_local_delete-panic h = ground arith

abbrev Step : Type 0
Step = Coordinator × Outcome SyncError (Unit {0})

module _ (driver : Rusqlite) (sha : Sha256) (now : ℤ) where
  is_echo_stays :
      (event : FsChangeEvent) (c : Coordinator) (rec : FileRecord)
      → get_file driver (change_folder event) (change_path event) c.db ≡ ok (some rec)
      → is_echo event rec ≡ true
      → on_fs_event driver sha now event c ≡ (c, ok tt)
  unfolding on_fs_event
  is_echo_stays event c rec found echo = rw (found, echo, on_fs_event) refl

  -- An event that the catalog knows is passed over, a lookup that panics ends the listener, and any
  -- other event is recorded.
  abbrev pub Heard : FsChangeEvent → Coordinator → Type 0
  Heard event c =
      let found = get_file driver (change_folder event) (change_path event) c.db in
      let after = on_fs_event driver sha now event c in
      ((rec : FileRecord) × (found ≡ ok (some rec)) × Known event rec × (after ≡ (c, ok tt)))
      ⊎ ((found ≡ panic) × (after ≡ (c, panic)))
      ⊎ (News event found × (after ≡ record_change driver sha now event c))

  on_fs_event-Heard : (event : FsChangeEvent) (c : Coordinator) → Heard event c
  unfolding on_fs_event
  on_fs_event-Heard event c =
      elim (Outcome-cases (get_file driver (change_folder event) (change_path event) c.db)) [
        | inr (inl (e, h)) ↦ inr (inr (rw (h, on_fs_event) (tt, refl)))
        | inr (inr h) ↦ inr (inl (h, rw (h, on_fs_event) refl))
        | inl (none, h) ↦ inr (inr (rw (h, on_fs_event) (tt, refl)))
        | inl (some rec, h) ↦ elim (Bool-cases (is_echo event rec)) [
          | inl echo ↦ inl (rec, h, is_echo-Known event rec echo, rw (h, echo, on_fs_event) refl)
          | inr fresh ↦ inr (
              inr (
                rw (h, fresh, on_fs_event)
                  ((λ known. ground (arith, Known-is_echo event rec known)), refl)))
        ]
      ]

  -- The listener goes on to record the change.
  abbrev Recorded : FsChangeEvent → Coordinator → Type 0
  Recorded event c = on_fs_event driver sha now event c ≡ record_change driver sha now event c

module _ (driver : Rusqlite) (sha : Sha256) (now later : ℤ) where
  -- The second run, at whatever time, ends as the first.
  abbrev Idempotent : FsChangeEvent → Coordinator → Type 0
  Idempotent event c =
      on_fs_event driver sha later event (on_fs_event driver sha now event c).0
      ≡ on_fs_event driver sha now event c

  unchanged :
      (event : FsChangeEvent) (c : Coordinator) (r : Outcome SyncError (Unit {0}))
      → on_fs_event driver sha now event c ≡ (c, r)
      → on_fs_event driver sha later event c ≡ (c, r)
      → Idempotent event c
  unchanged event c r h h' = ap (λ s. on_fs_event driver sha later event s.0) h ∙ h' ∙ sym h

  settled :
      (event : FsChangeEvent) (c c' : Coordinator)
      → on_fs_event driver sha now event c ≡ (c', ok tt)
      → on_fs_event driver sha later event c' ≡ (c', ok tt)
      → Idempotent event c
  settled event c c' h h' = ap (λ s. on_fs_event driver sha later event s.0) h ∙ h' ∙ sym h

  -- The listener stops, or goes on, whatever the time is.
  record_change_or :
      (event : FsChangeEvent) (c : Coordinator)
      → ((r : Outcome SyncError (Unit {0})) × (on_fs_event driver sha now event c ≡ (c, r))
          × (on_fs_event driver sha later event c ≡ (c, r)))
        ⊎ (Recorded driver sha now event c × Recorded driver sha later event c)
  unfolding on_fs_event
  record_change_or event c =
      elim (Outcome-cases (get_file driver (change_folder event) (change_path event) c.db)) [
        | inr (inl (e, h)) ↦ inr (rw (h, on_fs_event) (refl, refl))
        | inr (inr h) ↦ inl (panic, rw (h, on_fs_event) refl, rw (h, on_fs_event) refl)
        | inl (none, h) ↦ inr (rw (h, on_fs_event) (refl, refl))
        | inl (some rec, h) ↦ elim (Bool-cases (is_echo event rec)) [
          | inl echo ↦ inl (ok tt, rw (h, echo, on_fs_event) refl, rw (h, echo, on_fs_event) refl)
          | inr fresh ↦ inr (rw (h, fresh, on_fs_event) (refl, refl))
        ]
      ]

  upsert_again :
      (folder path hash : Text) (size : ℕ) (at : ℤ) (c : Coordinator)
      → size < 2 ^ 63
      → HasRoom driver folder path c.db
      → Recorded driver sha now (upsert folder path size hash at) c
      → Recorded driver sha later (upsert folder path size hash at) c
      → Idempotent (upsert folder path size hash at) c
  unfolding record_change broadcast is_echo
  upsert_again folder path hash size at c hs room h h' =
      let event = upsert folder path size hash at in
      elim (Outcome-cases (record_local_upsert driver now folder path size hash c.node_id c.db)) [
        | inr (inl (e, k)) ↦
            let k' =
              record_local_upsert-err driver now later folder path c.node_id c.db size hash k in
            unchanged event c (ok tt) (h ∙ rw (k, record_change) refl)
              (h' ∙ rw (k', record_change) refl)
        | inr (inr k) ↦
            let k' =
              record_local_upsert-panic driver now later folder path c.node_id c.db size hash k in
            unchanged event c panic (h ∙ rw (k, record_change) refl)
              (h' ∙ rw (k', record_change) refl)
        | inl ((db, ev), k) ↦
            let c' = broadcast (sync_notify folder ev.event_seq) (record c { db = db }) in
            let (rec, found, active, hashed, sized, others) =
              recorded driver now folder path hash size c.node_id c.db hs room k in
            settled event c c' (h ∙ rw (k, record_change) refl)
              (is_echo_stays driver sha later event c' rec found (ground arith))
      ]

  absent_again :
      (folder path : Text) (at : ℤ) (c : Coordinator)
      → record_local_delete driver now folder path c.node_id c.db ≡ ok (c.db, none)
      → record_local_delete driver later folder path c.node_id c.db ≡ ok (c.db, none)
      → Recorded driver sha now (delete folder path at) c
      → Recorded driver sha later (delete folder path at) c
      → Idempotent (delete folder path at) c
  unfolding record_change
  absent_again folder path at c k k' h h' =
      unchanged (delete folder path at) c (ok tt) (h ∙ rw (k, record_change) refl)
        (h' ∙ rw (k', record_change) refl)

  active_again :
      (folder path : Text) (at : ℤ) (c : Coordinator) (f : FileRecord)
      → get_file driver folder path c.db ≡ ok (some f)
      → f.is_deleted ≡ false
      → f.version + 1 < 2 ^ 63
      → Recorded driver sha now (delete folder path at) c
      → Recorded driver sha later (delete folder path at) c
      → Idempotent (delete folder path at) c
  unfolding record_change broadcast is_echo
  active_again folder path at c f found active room h h' =
      let event = delete folder path at in
      elim (Outcome-cases (record_local_delete driver now folder path c.node_id c.db)) [
        | inr (inl (e, k)) ↦
            let k' = record_local_delete-err driver now later folder path c.node_id c.db k in
            unchanged event c (ok tt) (h ∙ rw (k, record_change) refl)
              (h' ∙ rw (k', record_change) refl)
        | inr (inr k) ↦
            let k' = record_local_delete-panic driver now later folder path c.node_id c.db k in
            unchanged event c panic (h ∙ rw (k, record_change) refl)
              (h' ∙ rw (k', record_change) refl)
        | inl ((db, logged), k) ↦
            let (is_logged, after, others, appended) =
              record_local_delete_lem driver now folder path c.node_id c.db f found active k room in
            let c' = broadcast (sync_notify folder (c.db.last_seq + 1)) (record c { db = db }) in
            let told : record_change driver sha now event c ≡ (c', ok tt) =
              rw (k, is_logged, record_change) refl in
            settled event c c' (h ∙ told) (is_echo_stays driver sha later event c' _ after refl)
      ]

  delete_again :
      (folder path : Text) (at : ℤ) (c : Coordinator)
      → HasRoom driver folder path c.db
      → Recorded driver sha now (delete folder path at) c
      → Recorded driver sha later (delete folder path at) c
      → Idempotent (delete folder path at) c
  unfolding record_change is_echo on_fs_event
  delete_again folder path at c room h h' =
      elim (Outcome-cases (get_file driver folder path c.db)) [
        | inr (inl (e, k)) ↦
            unchanged (delete folder path at) c (ok tt)
              (h ∙ rw (unreadable driver now folder path c.node_id c.db e k, record_change) refl)
              (h' ∙ rw (unreadable driver later folder path c.node_id c.db e k, record_change) refl)
        | inr (inr k) ↦
            unchanged (delete folder path at) c panic (rw (k, on_fs_event) refl)
              (rw (k, on_fs_event) refl)
        | inl (none, k) ↦
            absent_again folder path at c
              (record_local_delete_absent driver now folder path c.node_id c.db none k
                (λ f e. absurd (ground arith)))
              (record_local_delete_absent driver later folder path c.node_id c.db none k
                (λ f e. absurd (ground arith)))
              h h'
        | inl (some f, k) ↦ elim (Bool-cases f.is_deleted) [
          | inl gone ↦
              unchanged (delete folder path at) c (ok tt)
                (is_echo_stays driver sha now (delete folder path at) c f k gone)
                (is_echo_stays driver sha later (delete folder path at) c f k gone)
          | inr active ↦ active_again folder path at c f k active (room f k) h h'
        ]
      ]

  -- The size that an event reports, which the catalog stores as an `i64`.
  abbrev pub change_size : FsChangeEvent → ℕ
  change_size (upsert folder_id relative_path size_bytes content_hash modified_at) = size_bytes
  change_size (delete folder_id relative_path deleted_at) = 0

  by_kind :
      (event : FsChangeEvent) (c : Coordinator)
      → change_size event < 2 ^ 63
      → HasRoom driver (change_folder event) (change_path event) c.db
      → Recorded driver sha now event c
      → Recorded driver sha later event c
      → Idempotent event c
  by_kind (upsert folder path size hash at) c hs room h h' =
      upsert_again folder path hash size at c hs room h h'
  by_kind (delete folder path at) c hs room h h' = delete_again folder path at c room h h'

  -- The listener passes over an event whose size, hash and deletion the catalog has, panics if the
  -- lookup does, and records any other event. On an event that it has just handled, it changes
  -- nothing, sends nothing, and ends as before, whatever the clock says at either time. The size and
  -- the next version of the file have to fit an `i64`.
  pub on_fs_event_again :
      (event : FsChangeEvent) (c : Coordinator)
      → change_size event < 2 ^ 63
      → HasRoom driver (change_folder event) (change_path event) c.db
      → (on_fs_event driver sha later event (on_fs_event driver sha now event c).0
          ≡ on_fs_event driver sha now event c)
        × Heard driver sha now event c
  on_fs_event_again event c hs room = (
    elim (record_change_or event c) [
      | inl (r, h, h') ↦ unchanged event c r h h'
      | inr (h, h') ↦ by_kind event c hs room h h'
    ],
    on_fs_event-Heard driver sha now event c,
  )
