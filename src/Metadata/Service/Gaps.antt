-- ===== src/Metadata/Service/Gaps.antt =====
-- What `handle_manifest_request` can leave out for good.
use mathlib.Core.Path.{subst, sym}
use t_u_s_h_e_r.Base.{
  ℕ, ◌^◌, ◌<◌, ◌≡◌, ◌≢◌, List, [], ◌∷◌, arith, All, In, length, All-map, ok, >>=-eq-ok,
}
use t_u_s_h_e_r.Base.Text.{Text}
use t_u_s_h_e_r.Core.Protocol.{SyncEvent}
use t_u_s_h_e_r.Metadata.Tables.{EventRow, MetadataDb}
use t_u_s_h_e_r.Metadata.Tables.Valid.{IsValid}
use t_u_s_h_e_r.Metadata.Db.{
  Rusqlite, sync_event, sync_events_of, get_events_since, get_latest_event_seq, select_events_since,
}
use t_u_s_h_e_r.Metadata.Db.Manifest.{
  pending, select_events_since_cut, select_events_since_complete,
}
use t_u_s_h_e_r.Metadata.Service.{handle_manifest_request}

module _ (driver : Rusqlite) where
  sync_event-seq :
      (row : EventRow) (ev : SyncEvent)
      → sync_event driver row ≡ ok ev
      → ev.event_seq ≡ row.event_seq
  unfolding sync_event
  sync_event-seq row ev e = ground (arith, driver.u64_column-pos row.event_seq)

  -- What holds of the numbers of rows holds of the numbers of the events read from them.
  sync_events_of-All :
      (P : ℕ → Type 0) (rows : List EventRow) {events : List SyncEvent}
      → sync_events_of driver rows ≡ ok events
      → All (λ r. P r.event_seq) rows
      → All (λ ev. P ev.event_seq) events
  unfolding sync_events_of
  sync_events_of-All P [] {events} e h = subst (All (λ ev. P ev.event_seq)) {x = []} (cc) tt
  sync_events_of-All P (row ∷ rows) {events} e h =
      let (ev, first, e₁) = >>=-eq-ok (sync_event driver row) _ e in
      let (evs, others, e₂) = >>=-eq-ok (sync_events_of driver rows) _ e₁ in
      subst (All (λ x. P x.event_seq)) {x = ev ∷ evs} (cc)
        (subst P (sym (sync_event-seq row ev first)) h.0, sync_events_of-All P rows others h.1)

  get_events_since-All :
      (P : ℕ → Type 0) (folder_id : Text) (since limit : ℕ) (db : MetadataDb)
      {events : List SyncEvent} {latest : ℕ}
      → get_events_since driver folder_id since limit db ≡ ok (events, latest)
      → All (λ r. P r.event_seq) (select_events_since folder_id since limit db)
      → All (λ ev. P ev.event_seq) events × (latest ≡ get_latest_event_seq folder_id db)
  unfolding get_events_since
  get_events_since-All P folder_id since limit db e h =
      let (evs, decoded, rest) =
        >>=-eq-ok (sync_events_of driver (select_events_since folder_id since limit db)) _ e in
      (
        subst (All (λ x. P x.event_seq)) {x = evs} (cc) (sync_events_of-All P _ decoded h),
        ground arith,
      )

  -- If more than 500 events of a folder are pending, the response leaves one of them out and yet
  -- reports a latest number that is not below it. A peer that goes on from that number, as the
  -- coordinator does, is never sent the event: no later request gives it, whatever the log is by
  -- then.
  pub handle_manifest_request_gap :
      (folder_id : Text) (since : ℕ) (db : MetadataDb) {events : List SyncEvent} {latest : ℕ}
      → IsValid db
      → since < 2 ^ 63
      → latest < 2 ^ 63
      → 500 < length (pending folder_id since db)
      → handle_manifest_request driver folder_id since db ≡ ok (events, latest)
      → (row : EventRow) × In row db.sync_events
        × (row.folder_id ≡ folder_id)
        × (since < row.event_seq)
        × All (λ ev. ev.event_seq ≢ row.event_seq) events
        × ((db' : MetadataDb) (events' : List SyncEvent) (latest' : ℕ)
            → IsValid db'
            → handle_manifest_request driver folder_id latest db' ≡ ok (events', latest')
            → All (λ ev. ev.event_seq ≢ row.event_seq) events')
  unfolding handle_manifest_request
  handle_manifest_request_gap folder_id since db {latest} v small small' more e =
      let (row, logged, ours, above, seen, before) =
        select_events_since_cut folder_id since db v small 500 more (omega arith) in
      let P : ℕ → Type 0 = λ seq. seq ≢ row.event_seq in
      let (absent, reported) =
        get_events_since-All P folder_id since 500 db e
          (All-map _ (λ r lt. omega arith) _ before) in
      (
        row,
        logged,
        ours,
        above,
        absent,
        λ db' events' latest' v' e'.
            (get_events_since-All P folder_id latest 500 db' e' (
              All-map _ (λ r lt. omega arith) _
                (select_events_since_complete folder_id latest db' v' small' 500
                  (omega arith)).0)).0,
      )
