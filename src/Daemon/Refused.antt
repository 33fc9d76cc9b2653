-- ===== src/Daemon/Refused.antt =====
-- daemon/daemon_linux_systemd.go and daemon/daemon_darwin.go: without root privileges nothing changes.
use mathlib.Core.Path.{subst}
use runetale.Common.{ℕ, ◌≡◌, refl, sym, ap, ◌≢◌, false, Option, none, some, arith, Error, message}
use runetale.Stored.Files.{and_then}
use runetale.Daemon.Systemd.{
  DaemonCalls, nonroot, SystemdRecord, privileges_of, check_privileges, privileged, load, unload,
  start_daemon, stop_daemon, status_for, daemon_status,
}
use runetale.Daemon.Install.{uninstall, explain, install}
use runetale.Daemon.Launchd

-- The call was refused: it gives an error and leaves the world as it was.
abbrev pub IsRefused : {W : Type 0} → W → Option Error × W → Type 0
IsRefused w (none, w') = ⊥
IsRefused w (some e, w') = w' ≡ w

module _ {W : Type 0} (calls : DaemonCalls W) (s : SystemdRecord) where
  privileges_of-some :
      (g : Option ℕ) → g ≢ some 0 → (e : Error) × (privileges_of calls s g ≡ some e)
  unfolding privileges_of
  privileges_of-some none h = (message "unsupport system", refl)
  privileges_of-some (some gid) h =
      (message "run with root privileges", ground (arith, λ (e : gid ≡ 0). h (ap some e)))

  check_privileges-some :
      (w : W) → calls.group_id w ≢ some 0 → (e : Error) × (check_privileges calls s w ≡ some e)
  unfolding check_privileges
  check_privileges-some w h = privileges_of-some (calls.group_id w) h

  privileged-IsRefused :
      (w : W) (f : W → Option Error × W)
      → calls.group_id w ≢ some 0
      → IsRefused w (privileged calls s w f)
  unfolding privileged and_then
  privileged-IsRefused w f h =
      let (e, is) = check_privileges-some w h in
      subst (λ o. IsRefused w (and_then (o, w) f)) (sym is) refl

  and_then-IsRefused :
      (w : W) (out : Option Error × W) (f : W → Option Error × W)
      → IsRefused w out
      → IsRefused w (and_then out f)
  unfolding and_then
  and_then-IsRefused w (some e, w') f h = h
  and_then-IsRefused w (none, w') f h = absurd h

  explain-IsRefused :
      (w : W) (out : Option Error × W) → IsRefused w out → IsRefused w (explain calls s out)
  unfolding explain
  explain-IsRefused w (none, w') h = h
  explain-IsRefused w (some e, w') h = ground arith

  launchd-IsRefused :
      (w : W)
      → calls.group_id w ≢ some 0
      → IsRefused w (Launchd.install calls s w)
        × IsRefused w (Launchd.uninstall calls s w)
        × IsRefused w (Launchd.load calls s w)
        × IsRefused w (Launchd.unload calls s w)
        × IsRefused w (Launchd.start_daemon calls s w)
        × IsRefused w (Launchd.stop_daemon calls s w)
        × (Launchd.daemon_status calls s w ≡ (nonroot, false))
  unfolding Launchd.install Launchd.install_files Launchd.uninstall Launchd.load Launchd.unload
      Launchd.start_daemon Launchd.stop_daemon Launchd.when_running Launchd.daemon_status status_for
  launchd-IsRefused w h = (
    explain-IsRefused w _ (and_then-IsRefused w _ _ (privileged-IsRefused w _ h)),
    privileged-IsRefused w _ h,
    privileged-IsRefused w _ h,
    privileged-IsRefused w _ h,
    privileged-IsRefused w _ h,
    privileged-IsRefused w _ h,
    (let (e, is) = check_privileges-some w h in ap (λ o. status_for calls s o w) is),
  )

  systemd-IsRefused :
      (w : W)
      → calls.group_id w ≢ some 0
      → IsRefused w (install calls s w)
        × IsRefused w (uninstall calls s w)
        × IsRefused w (load calls s w)
        × IsRefused w (unload calls s w)
        × IsRefused w (start_daemon calls s w)
        × IsRefused w (stop_daemon calls s w)
        × (daemon_status calls s w ≡ (nonroot, false))
  unfolding install uninstall load unload start_daemon stop_daemon daemon_status status_for
  systemd-IsRefused w h = (
    explain-IsRefused w _ (privileged-IsRefused w _ h),
    privileged-IsRefused w _ h,
    privileged-IsRefused w _ h,
    privileged-IsRefused w _ h,
    privileged-IsRefused w _ h,
    privileged-IsRefused w _ h,
    (let (e, is) = check_privileges-some w h in ap (λ o. status_for calls s o w) is),
  )

  -- If the group is not root's, or is not known, then Install, Uninstall, Load, Unload, start and
  -- Stop of either system all fail and leave the system as it was, and Status gives the text for it.
  pub unprivileged-IsRefused :
      (w : W)
      → calls.group_id w ≢ some 0
      → (IsRefused w (install calls s w)
          × IsRefused w (uninstall calls s w)
          × IsRefused w (load calls s w)
          × IsRefused w (unload calls s w)
          × IsRefused w (start_daemon calls s w)
          × IsRefused w (stop_daemon calls s w)
          × (daemon_status calls s w ≡ (nonroot, false)))
        × IsRefused w (Launchd.install calls s w)
        × IsRefused w (Launchd.uninstall calls s w)
        × IsRefused w (Launchd.load calls s w)
        × IsRefused w (Launchd.unload calls s w)
        × IsRefused w (Launchd.start_daemon calls s w)
        × IsRefused w (Launchd.stop_daemon calls s w)
        × (Launchd.daemon_status calls s w ≡ (nonroot, false))
  unprivileged-IsRefused w h =
      let (a, b, c, d, e, f, g) = launchd-IsRefused w h in
      (systemd-IsRefused w h, a, b, c, d, e, f, g)
