-- ===== src/Desktop/Tray/Exit.antt =====
-- How the loops of crates/tusher-desktop/src/tray.rs end.
use Prim.Native.Nat.{max}
use t_u_s_h_e_r.Base.{
  ℕ, zero, suc, ◌+◌, ◌*◌, ◌≤◌, ◌<◌, ◌≡◌, refl, sym, ap, ◌∙◌, ◌≢◌, Bool, true, false, Option, some,
  List, [], ◌∷◌, ◌++◌, arith, leb, nat_eq, All, if◌then◌else◌, ◌==◌, Bool-cases, inl, inr,
}
use t_u_s_h_e_r.Base.Text.{Text}
use t_u_s_h_e_r.Desktop.Shell.{Winreg}
use t_u_s_h_e_r.Desktop.Tray.{
  TrayMessage, right_click, double_click, other_message, TrayState, id_exit, id_toggle_sync,
  on_select, on_message, run_tray, run_headless,
}

-- A message that the loop handles and goes on after: the signal is not set, and it is not `Exit`.
abbrev pub GoesOn : Bool × TrayMessage → Type 0
GoesOn (stopped, right_click selected) = (stopped ≡ false) × (selected ≢ id_exit)
GoesOn (stopped, msg) = stopped ≡ false

-- How often `Pause / Resume Sync` is selected.
abbrev pub toggles : List (Bool × TrayMessage) → ℕ
toggles [] = 0
toggles ((stopped, right_click selected) ∷ messages) =
    if selected == id_toggle_sync then suc (toggles messages) else toggles messages
toggles ((stopped, msg) ∷ messages) = toggles messages

-- A flag that is turned over `n` times.
abbrev pub flipped : ℕ → Bool → Bool
flipped zero b = b
flipped (suc n) true = flipped n false
flipped (suc n) false = flipped n true

module _ (w : Winreg) (windows : Bool) (current_exe : Option Text)
    (dashboard_url downloads_dir : Text) where
  abbrev run : List (Bool × TrayMessage) → TrayState w → TrayState w
  run = run_tray w windows current_exe dashboard_url downloads_dir

  abbrev handle : TrayMessage → TrayState w → TrayState w × Bool
  handle = on_message w windows current_exe dashboard_url downloads_dir

  on_message-false :
      (stopped : Bool) (msg : TrayMessage) (s : TrayState w)
      → GoesOn (stopped, msg)
      → (stopped ≡ false)
        × ((handle msg s).1 ≡ false)
        × ((handle msg s).0.shutdown ≡ s.shutdown)
        × ((handle msg s).0.sync_paused ≡ flipped (toggles ((stopped, msg) ∷ [])) s.sync_paused)
  unfolding on_message on_select
  on_message-false stopped (right_click selected) s (h, other) = elim (Bool-cases s.sync_paused) [
    | inl e ↦ ground (arith, h, other)
    | inr e ↦ ground (arith, h, other)
  ]
  on_message-false stopped double_click s h = (h, refl, refl, refl)
  on_message-false stopped other_message s h = (h, refl, refl, refl)

  toggles-cons :
      (m : Bool × TrayMessage) (messages : List (Bool × TrayMessage)) (b : Bool)
      → flipped (toggles (m ∷ messages)) b
        ≡ flipped (toggles messages) (flipped (toggles (m ∷ [])) b)
  toggles-cons (stopped, right_click selected) messages true = ground arith
  toggles-cons (stopped, right_click selected) messages false = ground arith
  toggles-cons (stopped, double_click) messages b = refl
  toggles-cons (stopped, other_message) messages b = refl

  run_tray-cons :
      (stopped : Bool) (msg : TrayMessage) (messages : List (Bool × TrayMessage)) (s : TrayState w)
      → stopped ≡ false
      → (handle msg s).1 ≡ false
      → run ((stopped, msg) ∷ messages) s ≡ run messages (handle msg s).0
  unfolding run_tray
  run_tray-cons stopped msg messages s h k = rw (h, k, run_tray) refl

  -- The tray loop up to `Exit`, which is selected while the stop signal is not set: every message
  -- before it is handled, the sync flag is turned over as often as that was selected, main is told
  -- to end by `Exit` only, and nothing that comes after `Exit` has an effect.
  pub run_tray_exit :
      (before after : List (Bool × TrayMessage)) (s : TrayState w)
      → All GoesOn before
      → (run (before ++ ((false, right_click id_exit) ∷ after)) s
          ≡ record (run before s) { shutdown = true })
        × ((run before s).shutdown ≡ s.shutdown)
        × ((run before s).sync_paused ≡ flipped (toggles before) s.sync_paused)
  unfolding run_tray on_message on_select nat_eq
  run_tray_exit [] after s h = (refl, refl, refl)
  run_tray_exit ((stopped, msg) ∷ before) after s (h, hs) =
      let (live, goes_on, told, paused) = on_message-false stopped msg s h in
      let (ended, same, flag) = run_tray_exit before after (handle msg s).0 hs in
      let first = run_tray-cons stopped msg before s live goes_on in
      let whole =
        run_tray-cons stopped msg (before ++ ((false, right_click id_exit) ∷ after)) s live
          goes_on in
      let count = toggles-cons (stopped, msg) before s.sync_paused in
      (
        whole ∙ ended ∙ ap {A = TrayState w} (λ t. record t { shutdown = true }) (sym first),
        ap (λ t. t.shutdown) first ∙ same ∙ told,
        cc (flag, paused, first, count),
      )

-- Without a tray, the loop ends within half a second of the signal, or at once if the signal was set
-- before. A round for every half second until the signal is fuel enough.
pub run_headless_ends :
    (fuel stop_at now : ℕ)
    → stop_at ≤ now + 500 * fuel
    → (ended : ℕ) × (run_headless (suc fuel) stop_at now ≡ some ended)
      × (stop_at ≤ ended)
      × (ended < max (now + 1) (stop_at + 500))
unfolding run_headless
run_headless_ends zero stop_at now h = (now, ground arith, ground arith, omega arith)
run_headless_ends (suc fuel) stop_at now h = elim (Bool-cases (leb stop_at now)) [
  | inl e ↦ (now, rw e refl, ground arith, omega arith)
  | inr e ↦
      let (ended, found, after, soon) = run_headless_ends fuel stop_at (now + 500) (omega arith) in
      (ended, rw e found, after, ground arith)
]
