-- ===== src/Tests/Manifest.antt =====
-- A log of 501 events, and what a peer is sent of it.
use t_u_s_h_e_r.Base.{
  ℕ, zero, suc, ◌+◌, ◌≤◌, ◌<◌, ◌≡◌, refl, ◌≢◌, true, Option, none, some, List, [], ◌∷◌, arith, All,
  All-map, Pairwise, In, length, sort_by, bytes_eq, nat_eq, Outcome, ok,
}
use t_u_s_h_e_r.Base.Int.{ℤ, pos, negsuc, as_i64}
use t_u_s_h_e_r.Base.Text.{Text, ascii}
use t_u_s_h_e_r.Core.Protocol.{SyncEvent}
use t_u_s_h_e_r.Metadata.Models.{SharedFolder}
use t_u_s_h_e_r.Metadata.Tables.{MetadataDb, EventRow, DbError, has_folder}
use t_u_s_h_e_r.Metadata.Tables.Valid.{IsValid, Earlier}
use t_u_s_h_e_r.Metadata.Db.{
  Rusqlite, sync_events_of, get_events_since, select_events_since, get_latest_event_seq,
}
use t_u_s_h_e_r.Metadata.Db.Manifest.{pending, select_events_since_complete}
use t_u_s_h_e_r.Metadata.Service.{handle_manifest_request}
use t_u_s_h_e_r.Metadata.Service.Gaps.{handle_manifest_request_gap}

read_u64 : ℤ → Option ℕ
read_u64 (pos n) = some n
read_u64 (negsuc n) = none

abbrev driver : Rusqlite
unfolding read_u64
driver = record { u64_column = read_u64; u64_column-pos = λ n. refl; u64_column-negsuc = λ n. refl }

abbrev docs : Text
docs = ascii "docs"

abbrev row : ℕ → EventRow
row seq = record {
  event_seq = seq;
  folder_id = docs;
  file_id = ascii "f_0";
  relative_path = ascii "a.txt";
  event_type = ascii "UPSERT";
  version = pos seq;
  size_bytes = pos 1;
  content_hash = ascii "00";
  origin_node_id = ascii "tshr_one";
  modified_at = pos 0;
  created_at = pos 0;
}

-- The rows behind `seq`, `n` of them.
rows_from : ℕ → ℕ → List EventRow
rows_from seq zero = []
rows_from seq (suc n) = row (suc seq) ∷ rows_from (suc seq) n

rows_from-above : (n k seq : ℕ) → k ≤ seq → All (λ r. k < r.event_seq) (rows_from seq n)
unfolding rows_from
rows_from-above zero k seq h = tt
rows_from-above (suc n) k seq h = (omega arith, rows_from-above n k (suc seq) (omega arith))

rows_from-ascending : (n seq : ℕ) → Pairwise Earlier (rows_from seq n)
unfolding rows_from
rows_from-ascending zero seq = tt
rows_from-ascending (suc n) seq =
    (rows_from-above n (suc seq) (suc seq) (omega arith), rows_from-ascending n (suc seq))

rows_from-bounded : (n seq : ℕ) → All (λ r. r.event_seq ≤ seq + n) (rows_from seq n)
unfolding rows_from
rows_from-bounded zero seq = tt
rows_from-bounded (suc n) seq =
    (omega arith, All-map _ (λ r h. omega arith) _ (rows_from-bounded n (suc seq)))

rows_from-folder : (n seq : ℕ) → All (λ r. r.folder_id ≡ docs) (rows_from seq n)
unfolding rows_from
rows_from-folder zero seq = tt
rows_from-folder (suc n) seq = (refl, rows_from-folder n (suc seq))

abbrev folder : SharedFolder
folder = record { folder_id = docs; name = docs; local_path = docs; created_at = pos 0 }

abbrev long_db : ℕ → MetadataDb
long_db n = record {
  shared_folders = folder ∷ [];
  files = [];
  sync_events = rows_from 0 n;
  last_seq = n;
}

known : (r : EventRow) → r.folder_id ≡ docs → has_folder (folder ∷ []) r.folder_id ≡ true
known r e = ground arith

long_db-IsValid : (n : ℕ) → IsValid (long_db n)
long_db-IsValid n = record {
  keys = tt;
  ids = tt;
  filed = tt;
  logged = All-map _ known _ (rows_from-folder n 0);
  ascending = rows_from-ascending n 0;
  positive = rows_from-above n 0 0 (omega arith);
  bounded = All-map _ (λ r h. omega arith) _ (rows_from-bounded n 0);
}

events_of : Outcome DbError (List SyncEvent) → List SyncEvent
events_of (ok events) = events
events_of _ = []

sent : List SyncEvent
unfolding events_of sync_events_of select_events_since rows_from sort_by bytes_eq as_i64 read_u64
sent = events_of (sync_events_of driver (select_events_since docs 0 500 (long_db 501)))

response : handle_manifest_request driver docs 0 (long_db 501) ≡ ok (sent, 501)
unfolding handle_manifest_request get_events_since get_latest_event_seq sent
response = refl

handle_manifest_request_gap_example :
    (missed : EventRow) × In missed (long_db 501).sync_events
    × (missed.folder_id ≡ docs)
    × (0 < missed.event_seq)
    × All (λ ev. ev.event_seq ≢ missed.event_seq) sent
    × ((db' : MetadataDb) (events' : List SyncEvent) (latest' : ℕ)
        → IsValid db'
        → handle_manifest_request driver docs 501 db' ≡ ok (events', latest')
        → All (λ ev. ev.event_seq ≢ missed.event_seq) events')
unfolding rows_from bytes_eq as_i64
handle_manifest_request_gap_example =
    handle_manifest_request_gap driver docs 0 (long_db 501) (long_db-IsValid 501) (omega arith)
      (omega arith) (omega arith) response

select_events_since_complete_example :
    All
      (λ r. In r (long_db 3).sync_events × (r.folder_id ≡ docs) × (1 < r.event_seq))
      (select_events_since docs 1 500 (long_db 3))
    × Pairwise Earlier (select_events_since docs 1 500 (long_db 3))
    × (length (select_events_since docs 1 500 (long_db 3)) ≤ 500)
    × (length (pending docs 1 (long_db 3)) ≤ 500
        → (r : EventRow) → In r (long_db 3).sync_events
        → r.folder_id ≡ docs
        → 1 < r.event_seq
        → In r (select_events_since docs 1 500 (long_db 3)))
select_events_since_complete_example =
    select_events_since_complete docs 1 (long_db 3) (long_db-IsValid 3) (omega arith) 500
      (omega arith)
