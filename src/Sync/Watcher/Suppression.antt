-- ===== src/Sync/Watcher/Suppression.antt =====
-- Loop suppression in crates/tusher-sync/src/watcher.rs: what the coordinator writes is not taken
-- for a local change.
use t_u_s_h_e_r.Base.{
  refl, ap, map, not, ◌++◌, ℕ, ◌+◌, ◌≤◌, ◌<◌, ◌≡◌, inl, inr, Bool, true, false, ◌&&◌, Bool-cases,
  Option, none, some, Option-cases, List, [], ◌∷◌, arith, All, All-filter, any, find?, filter, leb,
  ltb, if◌then◌else◌, bytes_eq,
}
use t_u_s_h_e_r.Base.Int.{ℤ}
use t_u_s_h_e_r.Base.Text.{Text}
use t_u_s_h_e_r.Base.FilePath.{path_eq, path_eq_refl, path_eq_third, path_eq_from, path_starts_with}
use t_u_s_h_e_r.Transfer.Hash.{Sha256}
use t_u_s_h_e_r.Sync.Watcher.{
  Entry, FolderWatcher, PendingPath, Debouncer, EventKind, suppress_path, retain_active,
  is_suppressed, should_ignore_path, insert_pending, on_path, on_paths, on_event, flush_key,
  flush_keys, on_timer, Wake, raw_event, slept, on_wake, run_debouncer, is_ready, Access, woken,
  suppressed, added, on_access, run_shared, add_folder,
}

module _ (path : Text) (until : ℕ) where
  -- An entry for the path that lasts at least until then.
  unfoldable pub holds_until : List (Text × ℕ) → Bool
  holds_until [] = false
  holds_until ((p, u) ∷ entries) =
      if path_eq p path && leb until u then true else holds_until entries

  abbrev pub HeldUntil : FolderWatcher → Type 0
  HeldUntil w = holds_until w.suppressed_paths ≡ true

  -- No pending path is this one.
  abbrev pub NotPending : List PendingPath → Type 0
  NotPending = All (λ p. path_eq p.full_path path ≡ false)

  holds-filter :
      (now : ℕ) (entries : List (Text × ℕ))
      → now < until
      → holds_until entries ≡ true
      → holds_until (filter (λ (_, u). ltb now u) entries) ≡ true
  unfolding holds_until
  holds-filter now [] lt h = h
  holds-filter now ((p, u) ∷ entries) lt h = ground (arith, holds-filter now entries lt)

  holds-any :
      (q : Text) (entries : List (Text × ℕ))
      → path_eq q path ≡ true
      → holds_until entries ≡ true
      → any (λ (p, _). path_eq p q) entries ≡ true
  unfolding holds_until
  holds-any q [] same h = h
  holds-any q ((p, u) ∷ entries) same h =
      ground (arith, holds-any q entries same, path_eq_third p q path)

  retain_active-HeldUntil :
      (now : ℕ) (w : FolderWatcher) → now < until → HeldUntil w → HeldUntil (retain_active now w)
  unfolding retain_active holds_until
  retain_active-HeldUntil now w lt h = holds-filter now w.suppressed_paths lt h

  HeldUntil-is_suppressed :
      (q : Text) (w : FolderWatcher)
      → path_eq q path ≡ true
      → HeldUntil w
      → is_suppressed q w ≡ true
  unfolding is_suppressed
  HeldUntil-is_suppressed q w same h = holds-any q w.suppressed_paths same h

  suppress_path-HeldUntil :
      (now duration : ℕ) (w : FolderWatcher)
      → until ≤ now + duration
      → HeldUntil (suppress_path now path duration w)
  unfolding suppress_path holds_until
  suppress_path-HeldUntil now duration w h = ground (arith, path_eq_refl path)

  holds-others :
      (p : Text) (entries : List (Text × ℕ))
      → path_eq p path ≡ false
      → holds_until entries ≡ true
      → holds_until (filter (λ (q, _). not (path_eq q p)) entries) ≡ true
  unfolding holds_until
  holds-others p [] differ h = h
  holds-others p ((q, u) ∷ entries) differ h =
      ground (arith, holds-others p entries differ, path_eq_from p path q)

  suppress_path-kept :
      (now duration : ℕ) (p : Text) (w : FolderWatcher)
      → (path_eq p path ≡ true → until ≤ now + duration)
      → HeldUntil w
      → HeldUntil (suppress_path now p duration w)
  unfolding suppress_path holds_until
  suppress_path-kept now duration p w longer h = elim (Bool-cases (path_eq p path)) [
    | inl same ↦ ground (arith, longer same)
    | inr differ ↦ ground (arith, holds-others p w.suppressed_paths differ h)
  ]

  insert_pending-NotPending :
      (new : PendingPath) (pending : List PendingPath)
      → path_eq new.full_path path ≡ false
      → NotPending pending
      → NotPending (insert_pending new pending)
  unfolding insert_pending
  insert_pending-NotPending new [] h hs = (h, tt)
  insert_pending-NotPending new (p ∷ pending) h (hp, hs) =
      ground (arith, insert_pending-NotPending new pending h hs)

  abbrev Quiet : Debouncer → Type 0
  Quiet d = HeldUntil d.watcher × NotPending d.pending_paths

  on_path_kept :
      (now : ℕ) (q : Text) (d : Debouncer)
      → should_ignore_path q ≡ false
      → is_suppressed q (retain_active now d.watcher) ≡ false
      → path_eq q path ≡ false
      → HeldUntil (retain_active now d.watcher)
      → NotPending d.pending_paths
      → Quiet (on_path now q d)
  unfolding on_path
  on_path_kept now q d kept sup differ held quiet =
      let w = retain_active now d.watcher in
      elim (Option-cases (find? (λ (_, root). path_starts_with q root) w.watched_folders)) [
        | inl outside ↦ rw (kept, sup, outside) (held, quiet)
        | inr ((folder_id, root), inside) ↦
            rw (kept, sup, inside)
              (
                held,
                insert_pending-NotPending
                    (record {
                      folder_id = folder_id;
                      full_path = q;
                      deadline = now + w.debounce_duration;
                    })
                    d.pending_paths differ quiet,
              )
      ]

  on_path-Quiet :
      (now : ℕ) (q : Text) (d : Debouncer) → now < until → Quiet d → Quiet (on_path now q d)
  unfolding on_path
  on_path-Quiet now q d lt (held, quiet) = elim (Bool-cases (should_ignore_path q)) [
    | inl ignored ↦ rw ignored (held, quiet)
    | inr kept ↦
        let w = retain_active now d.watcher in
        let held' : HeldUntil w = retain_active-HeldUntil now d.watcher lt held in
        elim (Bool-cases (is_suppressed q w)) [
          | inl sup ↦ rw (kept, sup) (held', quiet)
          | inr sup ↦ elim (Bool-cases (path_eq q path)) [
            | inl same ↦ absurd (ground (arith, HeldUntil-is_suppressed q w same held'))
            | inr differ ↦ on_path_kept now q d kept sup differ held' quiet
          ]
        ]
  ]

  on_paths-Quiet :
      (now : ℕ) (paths : List Text) (d : Debouncer)
      → now < until
      → Quiet d
      → Quiet (on_paths now paths d)
  unfolding on_paths
  on_paths-Quiet now [] d lt q = q
  on_paths-Quiet now (p ∷ paths) d lt q =
      on_paths-Quiet now paths (on_path now p d) lt (on_path-Quiet now p d lt q)

  on_event-Quiet :
      (now : ℕ) (event : Option (EventKind × List Text)) (d : Debouncer)
      → now < until
      → Quiet d
      → Quiet (on_event now event d)
  unfolding on_event
  on_event-Quiet now none d lt q = q
  on_event-Quiet now (some (EventKind.create, paths)) d lt q = on_paths-Quiet now paths d lt q
  on_event-Quiet now (some (EventKind.modify, paths)) d lt q = on_paths-Quiet now paths d lt q
  on_event-Quiet now (some (EventKind.remove, paths)) d lt q = on_paths-Quiet now paths d lt q
  on_event-Quiet now (some (EventKind.other, paths)) d lt q = q

  filter-NotPending :
      (keep : PendingPath → Bool) (pending : List PendingPath)
      → NotPending pending
      → NotPending (filter keep pending)
  filter-NotPending keep pending h =
      All-filter (λ p. path_eq p.full_path path ≡ false) keep pending h

  module _ (sha : Sha256) where
    flush_key-HeldUntil :
        (entries : Text → Option Entry) (timestamp : ℤ) (now : ℕ) (key : PendingPath)
        (w : FolderWatcher)
        → now < until
        → HeldUntil w
        → HeldUntil (flush_key sha entries timestamp now key w).0
    unfolding flush_key
    flush_key-HeldUntil entries timestamp now key w lt held =
        ground (arith, retain_active-HeldUntil now w lt held)

    flush_keys-HeldUntil :
        (entries : Text → Option Entry) (timestamp : ℤ) (now : ℕ) (keys : List PendingPath)
        (w : FolderWatcher)
        → now < until
        → HeldUntil w
        → HeldUntil (flush_keys sha entries timestamp now keys w).0
    unfolding flush_keys
    flush_keys-HeldUntil entries timestamp now [] w lt held = held
    flush_keys-HeldUntil entries timestamp now (key ∷ keys) w lt held =
        flush_keys-HeldUntil entries timestamp now keys
          (flush_key sha entries timestamp now key w).0 lt
          (flush_key-HeldUntil entries timestamp now key w lt held)

    on_timer-Quiet :
        (entries : Text → Option Entry) (timestamp : ℤ) (now : ℕ) (d : Debouncer)
        → now < until
        → Quiet d
        → Quiet (on_timer sha entries timestamp now d).0
    unfolding on_timer
    on_timer-Quiet entries timestamp now d lt (held, quiet) = (
      flush_keys-HeldUntil entries timestamp now (filter (is_ready now) d.pending_paths) d.watcher
          lt held,
      filter-NotPending _ d.pending_paths quiet,
    )

    on_wake-Quiet :
        (now : ℕ) (wake : Wake) (d : Debouncer)
        → now < until
        → Quiet d
        → Quiet (on_wake sha now wake d).0
    unfolding on_wake
    on_wake-Quiet now (raw_event event) d lt q = on_event-Quiet now event d lt q
    on_wake-Quiet now (slept entries timestamp) d lt q =
        ground (arith, on_timer-Quiet entries timestamp now d lt q)

    -- An access at an instant before the end, which does not suppress the path for a shorter time.
    abbrev pub Within : ℕ × Access → Type 0
    Within (now, woken wake) = now < until
    Within (now, suppressed p duration) =
        (now < until) × (path_eq p path ≡ true → until ≤ now + duration)
    Within (now, added folder_id root) = now < until

    on_access-Quiet :
        (now : ℕ) (access : Access) (d : Debouncer)
        → Within (now, access)
        → Quiet d
        → Quiet (on_access sha now access d).0
    unfolding on_access add_folder
    on_access-Quiet now (woken wake) d lt q = on_wake-Quiet now wake d lt q
    on_access-Quiet now (suppressed p duration) d (lt, longer) (held, quiet) =
        (suppress_path-kept now duration p d.watcher longer held, quiet)
    on_access-Quiet now (added folder_id root) d lt q = q

    run_shared-Quiet :
        (accesses : List (ℕ × Access)) (d : Debouncer)
        → All Within accesses
        → Quiet d
        → Quiet (run_shared sha accesses d).0
    unfolding run_shared
    run_shared-Quiet [] d within q = q
    run_shared-Quiet ((now, access) ∷ accesses) d (first, within) q =
        run_shared-Quiet accesses (on_access sha now access d).0 within
          (on_access-Quiet now access d first q)

-- Without other tasks, it is the loop alone.
run_shared-run_debouncer :
    (sha : Sha256) (wakes : List (ℕ × Wake)) (d : Debouncer)
    → run_shared sha (map (λ (now, wake). (now, woken wake)) wakes) d ≡ run_debouncer sha wakes d
unfolding run_shared run_debouncer on_access
run_shared-run_debouncer sha [] d = refl
run_shared-run_debouncer sha ((now, wake) ∷ wakes) d =
    ap (λ r. (r.0, (on_wake sha now wake d).1 ++ r.1))
      (run_shared-run_debouncer sha wakes (on_wake sha now wake d).0)

-- Once a path is suppressed for a duration and nothing is pending for it, nothing becomes pending
-- for it while the duration lasts, whatever wakes the loop, whatever other paths are suppressed
-- meanwhile and whatever folders are added. The same path may only be suppressed again for a time
-- that does not end sooner, since a later suppression takes the place of an earlier one.
pub run_shared-suppress_path :
    (sha : Sha256) (now duration : ℕ) (path : Text) (accesses : List (ℕ × Access)) (d : Debouncer)
    → All (λ p. path_eq p.full_path path ≡ false) d.pending_paths
    → All (Within path (now + duration) sha) accesses
    → All
        (λ p. path_eq p.full_path path ≡ false)
        (run_shared sha accesses
          (record d { watcher = suppress_path now path duration d.watcher })).0.pending_paths
run_shared-suppress_path sha now duration path accesses d quiet within =
    (run_shared-Quiet path (now + duration) sha accesses
      (record d { watcher = suppress_path now path duration d.watcher }) within
      (suppress_path-HeldUntil path (now + duration) now duration d.watcher (omega arith), quiet)).1
