-- ===== src/Sync/Watcher/Debounce.antt =====
-- The timer of crates/tusher-sync/src/watcher.rs.
use mathlib.Core.Path.{subst}
use t_u_s_h_e_r.Base.{
  ℕ, ◌+◌, ◌≤◌, ◌<◌, ◌≡◌, ◌≢◌, refl, ap, ◌∙◌, Bool, true, false, not, Bool-cases, Option, none, some,
  Option-cases, List, [], ◌∷◌, arith, All, All-map, In, here, there, any, filter, length, ltb, inl,
  inr, bytes_eq,
}
use t_u_s_h_e_r.Base.Int.{ℤ}
use t_u_s_h_e_r.Base.Text.{Text}
use t_u_s_h_e_r.Base.Assoc.{get}
use t_u_s_h_e_r.Transfer.Hash.{Sha256}
use t_u_s_h_e_r.Sync.Watcher.{
  FsChangeEvent, Entry, FolderWatcher, PendingPath, Debouncer, retain_active, is_suppressed,
  normalize_relative_path, earliest_deadline, sleep_duration, change_at, flush_key, flush_keys,
  prepend, is_ready, on_timer,
}

earliest_none : (pending : List PendingPath) → earliest_deadline pending ≡ none → pending ≡ []
unfolding earliest_deadline
earliest_none [] h = refl
earliest_none (p ∷ pending) h = absurd (ground arith)

-- The earliest deadline is one of those pending, and none is before it.
earliest_lem :
    (pending : List PendingPath) (t : ℕ)
    → earliest_deadline pending ≡ some t
    → any (is_ready t) pending ≡ true × All (λ p. t ≤ p.deadline) pending
unfolding earliest_deadline
earliest_lem [] t h = absurd (ground arith)
earliest_lem (p ∷ pending) t h = elim (Option-cases (earliest_deadline pending)) [
  | inl last ↦ rw (earliest_none pending last) (ground arith, (ground arith, tt))
  | inr (u, e) ↦
      let (soon, late) = earliest_lem pending u e in
      elim (Bool-cases (ltb u p.deadline)) [
        | inl before ↦
            let same : u ≡ t = ground arith in
            (
              ground (arith, subst (λ v. any (is_ready v) pending ≡ true) same soon),
              (ground arith, subst (λ v. All (λ q. v ≤ q.deadline) pending) same late),
            )
        | inr behind ↦ (
          ground arith,
          (ground arith, All-map (λ q. u ≤ q.deadline) (λ q le. ground arith) pending late),
        )
      ]
]

sleep_duration_lem :
    (now t : ℕ) (pending : List PendingPath)
    → earliest_deadline pending ≡ some t
    → (t ≤ now + sleep_duration now pending)
      × ((x : ℕ) → now < x → t ≤ x → now + sleep_duration now pending ≤ x)
unfolding sleep_duration
sleep_duration_lem now t pending e = (ground arith, λ x lt le. ground arith)

any-ready :
    (t at : ℕ) (pending : List PendingPath)
    → t ≤ at
    → any (is_ready t) pending ≡ true
    → any (is_ready at) pending ≡ true
any-ready t at [] le h = h
any-ready t at (p ∷ pending) le h = ground (arith, any-ready t at pending le)

length-filter_le :
    (keep : PendingPath → Bool) (pending : List PendingPath)
    → length (filter keep pending) ≤ length pending
length-filter_le keep [] = omega arith
length-filter_le keep (p ∷ pending) = ground (arith, length-filter_le keep pending)

length-filter_some :
    (ready : PendingPath → Bool) (pending : List PendingPath)
    → any ready pending ≡ true
    → length (filter (λ p. not (ready p)) pending) < length pending
length-filter_some ready [] h = absurd (ground arith)
length-filter_some ready (p ∷ pending) h =
    ground (arith, length-filter_some ready pending, length-filter_le (λ p. not (ready p)) pending)

filter_idem {ℓ} : {A : Type ℓ} (p : A → Bool) (xs : List A) → filter p (filter p xs) ≡ filter p xs
filter_idem p [] = refl
filter_idem p (x ∷ xs) = ground (arith, filter_idem p xs)

module _ (sha : Sha256) (entries : Text → Option Entry) (timestamp : ℤ) where
  -- Where an event of the timer comes from: a pending path that is ready, in a folder that is
  -- watched, not suppressed, and with what the file system has there.
  abbrev pub Origin : ℕ → FolderWatcher → List PendingPath → FsChangeEvent → Type 0
  Origin now w keys event =
      (key : PendingPath) × In key keys
      × ((root : Text) × (get key.folder_id w.watched_folders ≡ some root)
          × ((rel : Text) × (normalize_relative_path root key.full_path ≡ some rel)
              × (is_suppressed key.full_path (retain_active now w) ≡ false)
              × (change_at sha entries timestamp key.folder_id rel key.full_path ≡ some event)))

  flush_key-event :
      (now : ℕ) (key : PendingPath) (w : FolderWatcher) (event : FsChangeEvent)
      → (flush_key sha entries timestamp now key w).1 ≡ some event
      → (root : Text) × (get key.folder_id w.watched_folders ≡ some root)
        × ((rel : Text) × (normalize_relative_path root key.full_path ≡ some rel)
            × (is_suppressed key.full_path (retain_active now w) ≡ false)
            × (change_at sha entries timestamp key.folder_id rel key.full_path ≡ some event))
  unfolding flush_key
  flush_key-event now key w event e = elim (Option-cases (get key.folder_id w.watched_folders)) [
    | inl gone ↦ absurd (ground arith)
    | inr (root, watched) ↦ elim (Option-cases (normalize_relative_path root key.full_path)) [
      | inl outside ↦ absurd (ground arith)
      | inr (rel, inside) ↦ (root, watched, (rel, inside, ground arith, ground arith))
    ]
  ]

  retain_active_idem :
      (now : ℕ) (w : FolderWatcher) → retain_active now (retain_active now w) ≡ retain_active now w
  unfolding retain_active
  retain_active_idem now w =
      ap (λ l. record w { suppressed_paths = l }) (filter_idem _ w.suppressed_paths)

  retain_active-folders :
      (now : ℕ) (w : FolderWatcher) → (retain_active now w).watched_folders ≡ w.watched_folders
  unfolding retain_active
  retain_active-folders now w = refl

  flush_key-watcher :
      (now : ℕ) (key : PendingPath) (w : FolderWatcher)
      → let w' = (flush_key sha entries timestamp now key w).0 in
        (w'.watched_folders ≡ w.watched_folders) × (retain_active now w' ≡ retain_active now w)
  unfolding flush_key
  flush_key-watcher now key w =
      ground (arith, retain_active_idem now w, retain_active-folders now w)

  All-prepend :
      {P : FsChangeEvent → Type 0} (o : Option FsChangeEvent) (events : List FsChangeEvent)
      → ((event : FsChangeEvent) → o ≡ some event → P event)
      → All P events
      → All P (prepend o events)
  All-prepend none events h hs = hs
  All-prepend (some event) events h hs = (h event refl, hs)

  flush_keys-Origin :
      (now : ℕ) (keys : List PendingPath) (w w' : FolderWatcher)
      → w'.watched_folders ≡ w.watched_folders
      → retain_active now w' ≡ retain_active now w
      → All (Origin now w keys) (flush_keys sha entries timestamp now keys w').1
  unfolding flush_keys
  flush_keys-Origin now [] w w' e e' = tt
  flush_keys-Origin now (key ∷ keys) w w' e e' =
      let (folders, active) = flush_key-watcher now key w' in
      All-prepend (flush_key sha entries timestamp now key w').1
        (flush_keys sha entries timestamp now keys (flush_key sha entries timestamp now key w').0).1
        (λ event h.
          let (root, watched, (rel, inside, heard, change)) = flush_key-event now key w' event h in
          (key, here refl, (root, cc (watched, e), (rel, inside, cc (heard, e'), change))))
        (All-map (Origin now w keys) (λ event (k, m, origin). (k, there m, origin)) _
          (flush_keys-Origin now keys w (flush_key sha entries timestamp now key w').0 (folders ∙ e)
            (active ∙ e')))

  -- The sleep ends with a path that is ready, so each wake by the timer leaves fewer paths pending,
  -- and it ends no later than the deadline of any path that is not ready before. What the timer then
  -- reports has its origin in a pending path whose deadline has come.
  pub on_timer-sleep_duration :
      (now : ℕ) (d : Debouncer)
      → d.pending_paths ≢ []
      → let at = now + sleep_duration now d.pending_paths in
        let (d', events) = on_timer sha entries timestamp at d in
        (length d'.pending_paths < length d.pending_paths)
        × All (λ p. now < p.deadline → at ≤ p.deadline) d.pending_paths
        × All (Origin at d.watcher (filter (is_ready at) d.pending_paths)) events
  unfolding on_timer
  on_timer-sleep_duration now d some_pending =
      elim (Option-cases (earliest_deadline d.pending_paths)) [
        | inl nothing ↦ absurd (some_pending (earliest_none d.pending_paths nothing))
        | inr (t, e) ↦
            let (soon, late) = earliest_lem d.pending_paths t e in
            let (reached, not_over) = sleep_duration_lem now t d.pending_paths e in
            let at = now + sleep_duration now d.pending_paths in
            (
              length-filter_some (is_ready at) d.pending_paths
                  (any-ready t at d.pending_paths reached soon),
              All-map (λ p. t ≤ p.deadline) (λ p le lt. not_over p.deadline lt le) d.pending_paths
                  late,
              flush_keys-Origin at (filter (is_ready at) d.pending_paths) d.watcher d.watcher refl
                  refl,
            )
      ]
