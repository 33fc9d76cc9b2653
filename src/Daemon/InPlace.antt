-- ===== src/Daemon/InPlace.antt =====
-- daemon/daemon_linux_systemd.go and daemon/daemon_darwin.go: what a successful Install leaves on disk.
use mathlib.Core.Path.{subst}
use runetale.Common.{
  false, refl, if◌then◌else◌, ◌≡◌, sym, ◌∙◌, ◌≢◌, ◌⊎◌, String, Option, none, some, List, arith,
  Error, value, ◌==◌, inl, inr,
}
use runetale.Daemon.Systemd.{
  Removal, removed, not_exist, not_removed, DaemonCalls, SystemdRecord, is_installed,
}
use runetale.Daemon.Launchd
use runetale.Daemon.Install.{
  install, after_remove_bin, after_remove_unit, uninstall, with_executable, register, install_new,
  explain,
}
use runetale.Daemon.Copied.{
  Success, and_then-Success, Success_lem, Success-none, Disk, Distinct, Holds, copy_binary-Holds,
}
use runetale.Daemon.Commands.{
  privileged-Success, if-Success, start_daemon-Success, load-Success, stop_running-Success,
  launchd_stop-Success, launchd_load-Success,
}

module _ {B W : Type 0} (calls : DaemonCalls W) (content : String → W → Option B)
    (text : String → B) (disk : Disk calls content text) (s : SystemdRecord) (exe : String) where
  -- A file that is neither the unit file nor removed with it keeps its content.
  removed_bin-Keeps :
      (q : String) (c : Option B) (r : Removal × W)
      → content q r.1 ≡ c
      → Success (λ v. content q v ≡ c) (after_remove_bin calls s r)
  unfolding after_remove_bin
  removed_bin-Keeps q c (removed, w) h = h
  removed_bin-Keeps q c (not_exist, w) h = h
  removed_bin-Keeps q c (not_removed e, w) h = tt

  removed_unit-Keeps :
      (q : String) (c : Option B) (r : Removal × W)
      → (q ≢ s.bin_path) ⊎ (r.0 ≡ not_exist)
      → content q r.1 ≡ c
      → Success (λ v. content q v ≡ c) (after_remove_unit calls s r)
  unfolding after_remove_unit
  removed_unit-Keeps q c (not_exist, w) n h = h
  removed_unit-Keeps q c (removed, w) (inl n) h =
      removed_bin-Keeps q c _ (disk.removes_other s.bin_path q w n ∙ h)
  removed_unit-Keeps q c (removed, w) (inr e) h = absurd (ground arith)
  removed_unit-Keeps q c (not_removed x, w) (inl n) h =
      removed_bin-Keeps q c _ (disk.removes_other s.bin_path q w n ∙ h)
  removed_unit-Keeps q c (not_removed x, w) (inr e) h = absurd (ground arith)

  abbrev H : Option B → Option B → String → W → Type 0
  H = Holds calls content text disk s exe

  -- Commands change no file.
  held :
      (c u : Option B) (p : String) (args : List String) (w : W)
      → H c u p w
      → H c u p (calls.control args w).1
  held c u p args w (h, h') =
      (disk.controls args p w ∙ h, disk.controls args s.daemon_file_path w ∙ h')

  explain-Success :
      (P : W → Type 0) (r : Option Error × W) → Success P r → Success P (explain calls s r)
  unfolding explain
  explain-Success P (none, w) h = h
  explain-Success P (some e, w) h = if-Success P (calls.get_uid w == 0) _ _ tt tt

  -- The content of the unit file that both systems write.
  abbrev pub unit_text : Option B
  unit_text = some (text s.system_config)

  module _ (distinct : Distinct calls content text disk s exe)
      (known : (w : W) → calls.executable w ≡ value exe) where
    written :
        (c : Option B) (w : W)
        → content s.bin_path w ≡ c
        → Success (H c unit_text s.bin_path) (calls.write_file s.daemon_file_path s.system_config w)
    written c w h = Success_lem (H c unit_text s.bin_path) _ λ e. (
      disk.writes_other s.daemon_file_path s.system_config s.bin_path w
            (λ same. distinct.unit_bin (sym same))
          ∙ h,
      disk.writes s.daemon_file_path s.system_config w e,
    )

    with_executable-Holds :
        (c u : Option B) (w : W)
        → H c u exe w
        → Success (H c u s.bin_path) (with_executable calls s (calls.executable w) w)
    unfolding with_executable
    with_executable-Holds c u w h =
        subst (λ x. Success (H c u s.bin_path) (with_executable calls s x w)) (sym (known w))
          (copy_binary-Holds calls content text disk s exe distinct c u w h)

    mkdir-Holds :
        (c u : Option B) (w : W) → H c u exe w → Success (H c u exe) (calls.mkdir_all s.bin_path w)
    mkdir-Holds c u w (h, h') =
        Success_lem (H c u exe) _
          λ e. (disk.mkdirs s.bin_path exe w ∙ h, disk.mkdirs s.bin_path s.daemon_file_path w ∙ h')

    -- Under systemd, where the unit file is missing.
    uninstall-Keeps :
        (c : Option B) (w : W)
        → H c none s.bin_path w
        → Success (λ v. content s.bin_path v ≡ c) (uninstall calls s w)
    unfolding uninstall
    uninstall-Keeps c w h =
        privileged-Success calls s (λ v. content s.bin_path v ≡ c)
          (λ args v k. disk.controls args s.bin_path v ∙ k) w _
          (and_then-Success (H c none s.bin_path) (λ v. content s.bin_path v ≡ c) _ _
            (stop_running-Success calls s (H c none s.bin_path) (held c none s.bin_path) w h)
            λ v (k, gone).
              removed_unit-Keeps s.bin_path c _ (inr (disk.missing s.daemon_file_path v gone)) (
                disk.removes_other s.daemon_file_path s.bin_path v
                  (λ same. distinct.unit_bin (sym same))
                ∙ k))

    register-Holds :
        (c : Option B) (w : W)
        → H c none s.bin_path w
        → Success (H c unit_text s.bin_path) (register calls s w)
    unfolding register
    register-Holds c w h =
        let P = H c unit_text s.bin_path in
        and_then-Success (λ v. content s.bin_path v ≡ c) P _ _ (uninstall-Keeps c w h)
          λ w₁ h₁. and_then-Success P P _ _ (written c w₁ h₁) λ w₂ h₂.
            and_then-Success P P _ _ (load-Success calls s P (held c unit_text s.bin_path) w₂ h₂)
              (start_daemon-Success calls s P (held c unit_text s.bin_path))

    install_new-Holds :
        (c : Option B) (w : W)
        → H c none exe w
        → Success (H c unit_text s.bin_path) (install_new calls s w)
    unfolding install_new
    install_new-Holds c w h =
        let P = H c unit_text s.bin_path in
        and_then-Success (H c none exe) P _ _ (mkdir-Holds c none w h) λ w₁ h₁.
          and_then-Success (H c none s.bin_path) P _ _ (with_executable-Holds c none w₁ h₁)
            (register-Holds c)

    -- Under launchd, which removes the files of an older installation first.
    launchd_uninstall-Keeps :
        (c : Option B) (w : W)
        → exe ≢ s.bin_path
        → content exe w ≡ c
        → Success (λ v. content exe v ≡ c) (Launchd.uninstall calls s w)
    unfolding Launchd.uninstall
    launchd_uninstall-Keeps c w n h =
        let P = λ (v : W). content exe v ≡ c in
        privileged-Success calls s P (λ args v k. disk.controls args exe v ∙ k) w _
          (and_then-Success P P _ _
            (launchd_stop-Success calls s P (λ args v k. disk.controls args exe v ∙ k) w h)
            λ v k.
              removed_unit-Keeps exe c _ (inl n)
                (disk.removes_other s.daemon_file_path exe v distinct.exe_unit ∙ k))

    launchd_rest-Holds :
        (c : Option B) (w : W)
        → content exe w ≡ c
        → Success (H c unit_text s.bin_path) (Launchd.install_rest calls s w)
    unfolding Launchd.install_rest
    launchd_rest-Holds c w h =
        let P = H c unit_text s.bin_path in
        let u = content s.daemon_file_path w in
        and_then-Success (H c u exe) P _ _ (mkdir-Holds c u w (h, refl)) λ w₁ h₁.
          and_then-Success (H c u s.bin_path) P _ _ (with_executable-Holds c u w₁ h₁) λ w₂ h₂.
            and_then-Success P P _ _ (written c w₂ h₂.0)
              (launchd_load-Success calls s P (held c unit_text s.bin_path))

    launchd_files-Holds :
        (c : Option B) (w : W)
        → exe ≢ s.bin_path
        → content exe w ≡ c
        → Success (H c unit_text s.bin_path) (Launchd.install_files calls s w)
    unfolding Launchd.install_files
    launchd_files-Holds c w n h =
        and_then-Success (λ v. content exe v ≡ c) (H c unit_text s.bin_path) _ _
          (launchd_uninstall-Keeps c w n h) (launchd_rest-Holds c)

    -- If no unit file is there and Install under systemd succeeds, then the binary has the
    -- content that the running program had, and the unit file has its text.
    pub install-InPlace :
        (w w' : W)
        → calls.file_exists s.daemon_file_path w ≡ false
        → install calls s w ≡ (none, w')
        → (content s.bin_path w' ≡ content exe w) × (content s.daemon_file_path w' ≡ unit_text)
    unfolding install is_installed
    install-InPlace w w' gone run =
        let c = content exe w in
        let P = H c unit_text s.bin_path in
        Success-none P _ w' run (
          explain-Success P _ (
            privileged-Success calls s P (held c unit_text s.bin_path) w _ (
              subst (λ b. Success P (if b then (none, w) else install_new calls s w)) (sym gone)
                (install_new-Holds c w (refl, disk.absent s.daemon_file_path w gone)))))

    -- If the running program is not the binary itself and Install under launchd succeeds, whatever
    -- was installed before, then the binary has the content that the running program had, and the
    -- unit file has its text.
    pub launchd_install-InPlace :
        (w w' : W)
        → exe ≢ s.bin_path
        → Launchd.install calls s w ≡ (none, w')
        → (content s.bin_path w' ≡ content exe w) × (content s.daemon_file_path w' ≡ unit_text)
    unfolding Launchd.install
    launchd_install-InPlace w w' n run =
        Success-none (H (content exe w) unit_text s.bin_path) _ w' run (
          explain-Success (H (content exe w) unit_text s.bin_path) _
            (launchd_files-Holds (content exe w) w n refl))
