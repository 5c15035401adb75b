-- ===== src/Sync/Reconcile/Resume.antt =====
-- What `reconcile_with_peer` of crates/tusher-sync/src/coordinator.rs leaves in `in_flight_syncs`
-- and `last_seen_seqs`, and what later runs do.
use t_u_s_h_e_r.Base.{
  ℕ, ◌≤◌, ◌≡◌, refl, ap, ◌∙◌, ◌≢◌, ◌⊎◌, inl, inr, true, false, Bool-cases, none, some, Option-cases,
  List, arith, leb, bytes_eq, Outcome, ok, err, panic,
}
use t_u_s_h_e_r.Base.Int.{ℤ}
use t_u_s_h_e_r.Base.Text.{Text}
use t_u_s_h_e_r.Base.Assoc.{get}
use t_u_s_h_e_r.Core.Types.{NodeId}
use t_u_s_h_e_r.Core.Protocol.{SyncEvent, manifest_req, manifest_resp}
use t_u_s_h_e_r.Metadata.Db.{Rusqlite}
use t_u_s_h_e_r.Transfer.Hash.{Sha256}
use t_u_s_h_e_r.Sync.State.{SyncError, Connection, Coordinator, send, connection}
use t_u_s_h_e_r.Sync.Reconcile.{
  ◌then?◌, apply_manifest, do_reconcile, set_last_seen, last_seen, set_in_flight, release,
  reconcile_with_peer,
}
use t_u_s_h_e_r.Sync.Reconcile.Guard.{
  Failed, err-Failed, panic-Failed, Kept, Kept-trans, send-Kept, Recorded, apply_manifest_lem,
}

abbrev Step : Type 0
Step = Coordinator × Outcome SyncError (Unit {0})

module _ (driver : Rusqlite) (sha : Sha256) (format_time : ℤ → Text) (now : ℕ) (timestamp : ℤ) where
  after_send :
      (p : NodeId) (conn : Connection) (f root : Text) (c : Coordinator) (sent : Step)
      → Kept c sent.0
      → Failed driver sha format_time now timestamp c
          (sent then? apply_manifest driver sha format_time now timestamp p conn f root)
        ⊎ Recorded driver sha format_time now timestamp p f conn c
            (sent then? apply_manifest driver sha format_time now timestamp p conn f root)
  after_send p conn f root c (d, err e) k =
      inl (err-Failed driver sha format_time now timestamp c d e k)
  after_send p conn f root c (d, panic) k =
      inl (panic-Failed driver sha format_time now timestamp c d k)
  after_send p conn f root c (d, ok u) k =
      elim (apply_manifest_lem driver sha format_time now timestamp p conn f root d) [
        | inl (k', failed) ↦ inl (
          Kept-trans c d (apply_manifest driver sha format_time now timestamp p conn f root d).0 k
              k',
          failed,
        )
        | inr (e, named, events, latest, answer, k', same) ↦
            inr (e, named, events, latest, answer, Kept-trans c d e k k', same)
      ]

  -- There is nothing to do: no connection, no such folder, or nothing new.
  abbrev pub Idle : NodeId → Text → ℕ → Coordinator → Type 0
  Idle p f n c =
      (connection p c ≡ none)
      ⊎ (get f c.registered_folders ≡ none)
      ⊎ (n ≤ last_seen driver sha format_time now timestamp f p c)

  -- A run that leaves the maps alone, because it failed or had nothing to do.
  abbrev Passed : NodeId → Text → ℕ → Coordinator → Step → Type 0
  Passed p f n c step =
      (Idle p f n c × (step ≡ (c, ok tt))) ⊎ ((¬ Idle p f n c) × Kept c step.0 × (step.1 ≢ ok tt))

  -- A run that records a number: it asked for what follows the last number.
  abbrev Applied : NodeId → Text → ℕ → Coordinator → Step → Type 0
  Applied p f n c step =
      (conn : Connection) × (connection p c ≡ some conn)
      × (¬ Idle p f n c)
      × Recorded driver sha format_time now timestamp p f conn c step

  pub do_reconcile_lem :
      (p : NodeId) (f : Text) (n : ℕ) (c : Coordinator)
      → Passed p f n c (do_reconcile driver sha format_time now timestamp p f n c)
        ⊎ Applied p f n c (do_reconcile driver sha format_time now timestamp p f n c)
  unfolding do_reconcile
  do_reconcile_lem p f n c = elim (Option-cases (connection p c)) [
    | inl h ↦ rw (h, do_reconcile) (inl (inl (inl refl, refl)))
    | inr (conn, h) ↦ elim (Option-cases (get f c.registered_folders)) [
      | inl h' ↦ rw (h, h', do_reconcile) (inl (inl (inr (inl refl), refl)))
      | inr (root, h') ↦
          elim (Bool-cases (leb n (last_seen driver sha format_time now timestamp f p c))) [
            | inl le ↦ rw (h, h', le, do_reconcile) (inl (inl (inr (inr (ground arith)), refl)))
            | inr gt ↦
                rw (h, h', gt, do_reconcile)
                  (elim (after_send p conn f root c
                    (send p conn
                      (manifest_req f (last_seen driver sha format_time now timestamp f p c)) c)
                    (send-Kept p conn _ c)) [
                      | inl (k, failed) ↦ inl (inr ((λ idle. ground (arith, gt)), k, failed))
                      | inr r ↦ inr (conn, refl, (λ idle. ground (arith, gt)), r)
                    ])
          ]
    ]
  ]

  flight_kept :
      (p : NodeId) (f : Text) (n : ℕ) (c : Coordinator)
      → (do_reconcile driver sha format_time now timestamp p f n c).0.in_flight_syncs
        ≡ c.in_flight_syncs
  unfolding set_last_seen
  flight_kept p f n c = elim (do_reconcile_lem p f n c) [
    | inl (inl (idle, same)) ↦ ap (λ s. s.0.in_flight_syncs) same
    | inl (inr (fresh, (seen, flight, folders, conns), failed)) ↦ flight
    | inr
          (
            conn,
            found,
            fresh,
            (d, named, events, latest, answer, (seen, flight, folders, conns), same),
          ) ↦
        ap (λ s. s.0.in_flight_syncs) same ∙ flight
  ]

  busy :
      (p : NodeId) (f : Text) (n : ℕ) (c : Coordinator)
      → c.in_flight_syncs f p ≡ true
      → reconcile_with_peer driver sha format_time now timestamp p f n c ≡ (c, ok tt)
  unfolding reconcile_with_peer
  busy p f n c h = rw (h, reconcile_with_peer) refl

  -- The key is held when the run ends in a panic, and given back otherwise.
  abbrev pub KeyReturned : NodeId → Text → Coordinator → Step → Type 0
  KeyReturned p f c step =
      (step.1 ≢ panic
        → (g : Text) (q : NodeId) → step.0.in_flight_syncs g q ≡ c.in_flight_syncs g q)
      × (step.1 ≡ panic
          → (step.0.in_flight_syncs f p ≡ true)
            × ((m : ℕ)
                → reconcile_with_peer driver sha format_time now timestamp p f m step.0
                  ≡ (step.0, ok tt)))

  given_back :
      (p : NodeId) (f : Text) (c d : Coordinator)
      → c.in_flight_syncs f p ≡ false
      → d.in_flight_syncs
        ≡ (set_in_flight driver sha format_time now timestamp f p true c).in_flight_syncs
      → (g : Text) (q : NodeId)
      → (set_in_flight driver sha format_time now timestamp f p false d).in_flight_syncs g q
        ≡ c.in_flight_syncs g q
  unfolding set_in_flight
  given_back p f c d free same g q =
      ground (arith, bytes_eq, ap (λ m. m g q) same, ap (λ m. m f p) same)

  release_lem :
      (p : NodeId) (f : Text) (c : Coordinator) (step : Step)
      → c.in_flight_syncs f p ≡ false
      → step.0.in_flight_syncs
        ≡ (set_in_flight driver sha format_time now timestamp f p true c).in_flight_syncs
      → KeyReturned p f c (release driver sha format_time now timestamp f p step)
  unfolding release set_in_flight
  release_lem p f c (d, ok u) free same =
      (λ calm. given_back p f c d free same, λ h. absurd (ground arith))
  release_lem p f c (d, err e) free same =
      (λ calm. given_back p f c d free same, λ h. absurd (ground arith))
  release_lem p f c (d, panic) free same =
      let held : d.in_flight_syncs f p ≡ true = ground (arith, ap (λ m. m f p) same) in
      (λ calm. absurd (calm refl), λ h. (held, λ m. busy p f m d held))

  -- A run of `reconcile_with_peer` that returns, with or without an error, leaves `in_flight_syncs`
  -- as it found it. A run that panics keeps its key there, and every later run for the same folder
  -- and peer then does nothing.
  pub reconcile_with_peer-in_flight_syncs :
      (p : NodeId) (f : Text) (n : ℕ) (c : Coordinator)
      → KeyReturned p f c (reconcile_with_peer driver sha format_time now timestamp p f n c)
  unfolding reconcile_with_peer
  reconcile_with_peer-in_flight_syncs p f n c = elim (Bool-cases (c.in_flight_syncs f p)) [
    | inl taken ↦ rw (taken, reconcile_with_peer) (λ calm g q. refl, λ h. absurd (ground arith))
    | inr free ↦
        rw (free, reconcile_with_peer)
          (release_lem p f c
            (do_reconcile driver sha format_time now timestamp p f n
              (set_in_flight driver sha format_time now timestamp f p true c))
            free
            (flight_kept p f n (set_in_flight driver sha format_time now timestamp f p true c)))
  ]

  seen_now :
      (p : NodeId) (f : Text) (latest : ℕ) (d : Coordinator)
      → last_seen driver sha format_time now timestamp f p
          (set_last_seen driver sha format_time now timestamp f p latest d)
        ≡ latest
  unfolding set_last_seen
  seen_now p f latest d = ground (arith, bytes_eq)

  settled :
      (p : NodeId) (f : Text) (m latest : ℕ) (d : Coordinator)
      → m ≤ latest
      → do_reconcile driver sha format_time now timestamp p f m
          (set_last_seen driver sha format_time now timestamp f p latest d)
        ≡ (set_last_seen driver sha format_time now timestamp f p latest d, ok tt)
  unfolding do_reconcile
  settled p f m latest d le =
      let c' = set_last_seen driver sha format_time now timestamp f p latest d in
      let below : leb m (last_seen driver sha format_time now timestamp f p c') ≡ true =
        ground (arith, seen_now p f latest d) in
      elim (Option-cases (connection p c')) [
        | inl h ↦ rw (h, do_reconcile) refl
        | inr (conn, h) ↦ elim (Option-cases (get f c'.registered_folders)) [
          | inl h' ↦ rw (h, h', do_reconcile) refl
          | inr (root, h') ↦ rw (h, h', below, do_reconcile) refl
        ]
      ]

  -- What a run has recorded: the number of a manifest that the peer sent, for whatever folder, up to
  -- which no notification leads to another request.
  abbrev pub SeenAfter : NodeId → Text → Coordinator → Step → Type 0
  SeenAfter p f c step =
      (conn : Connection) × (named : Text) × (events : List SyncEvent) × (latest : ℕ) × (connection
          p c
        ≡ some conn)
      × (conn.manifest ≡ ok (some (manifest_resp named events latest)))
      × (step.1 ≡ ok tt)
      × (last_seen driver sha format_time now timestamp f p step.0 ≡ latest)
      × ((m : ℕ)
          → m ≤ latest
          → do_reconcile driver sha format_time now timestamp p f m step.0 ≡ (step.0, ok tt))

  -- The cases of a run, of which exactly one holds.
  abbrev pub Outcomes : NodeId → Text → ℕ → Coordinator → Step → Type 0
  Outcomes p f n c step =
      (Idle p f n c × (step ≡ (c, ok tt)))
      ⊎ ((¬ Idle p f n c)
          × (((step.0.last_seen_seqs ≡ c.last_seen_seqs) × (step.1 ≢ ok tt))
              ⊎ SeenAfter p f c step))

  -- A run of `do_reconcile` does nothing at all and succeeds if the peer is not connected, the folder
  -- not registered or the notified number not new. Otherwise it leaves `last_seen_seqs` alone and
  -- does not succeed, or it succeeds, and then the answer of the peer was a manifest, for whatever
  -- folder, its number is now the last one seen of the requested folder, and no notification up to
  -- that number leads to another request.
  pub do_reconcile-last_seen_seqs :
      (p : NodeId) (f : Text) (n : ℕ) (c : Coordinator)
      → Outcomes p f n c (do_reconcile driver sha format_time now timestamp p f n c)
  do_reconcile-last_seen_seqs p f n c = elim (do_reconcile_lem p f n c) [
    | inl (inl idle) ↦ inl idle
    | inl (inr (fresh, (seen, flight, folders, conns), failed)) ↦ inr (fresh, inl (seen, failed))
    | inr (conn, found, fresh, (d, named, events, latest, answer, kept, same)) ↦ inr (
      fresh,
      inr (
        conn,
        named,
        events,
        latest,
        found,
        answer,
        ap (λ s. s.1) same,
        ap (λ s. last_seen driver sha format_time now timestamp f p s.0) same
            ∙ seen_now p f latest d,
        λ m le. rw same (settled p f m latest d le),
      ),
    )
  ]
