-- ===== src/Daemon/Install.antt =====
-- daemon/daemon_linux_systemd.go: Uninstall and Install.
use runetale.Common.{
  String, Option, none, some, ◌==◌, if◌then◌else◌, Error, message, concat, Fallible, value, error,
}
use runetale.Stored.Files.{and_then}
use runetale.Daemon.Systemd.{
  Removal, removed, not_exist, not_removed, DaemonCalls, SystemdRecord, is_installed, is_running,
  privileged, load, unload, start_daemon, stop_daemon,
}

module _ {W : Type 0} (calls : DaemonCalls W) (s : SystemdRecord) where
  unfoldable pub after_remove_bin : Removal × W → Option Error × W
  after_remove_bin (removed, w) = (none, w)
  after_remove_bin (not_exist, w) = (none, w)
  after_remove_bin (not_removed e, w) = (some e, w)

  -- Another error than a missing file is overwritten by the second removal.
  unfoldable pub after_remove_unit : Removal × W → Option Error × W
  after_remove_unit (not_exist, w) = (none, w)
  after_remove_unit (removed, w) = after_remove_bin (calls.remove s.bin_path w)
  after_remove_unit (not_removed e, w) = after_remove_bin (calls.remove s.bin_path w)

  -- Unload and Stop, where the service runs.
  unfoldable pub stop_running : W → Option Error × W
  stop_running w =
      if (is_running calls s w).1
      then and_then (unload calls s w) (stop_daemon calls s)
      else (none, w)

  unfoldable pub uninstall : W → Option Error × W
  uninstall w =
      privileged calls s w λ w₀.
        and_then (stop_running w₀) λ w₁. after_remove_unit (calls.remove s.daemon_file_path w₁)

  -- A failure closes the new file, and its error is returned.
  unfoldable pub or_close : String → Option Error × W → Option Error × W
  or_close tmp (none, w) = (none, w)
  or_close tmp (some e, w) = (some e, (calls.close_file tmp w).1)

  unfoldable pub copy_binary : String → W → Option Error × W
  unfolding or_close
  copy_binary exe w =
      let tmp = concat s.bin_path ".tmp" in
      and_then (calls.create tmp w) λ w₁. and_then (or_close tmp (calls.open_file exe w₁)) λ w₂.
        let (e, w₃) = calls.copy tmp exe w₂ in
        and_then (or_close tmp (e, (calls.close_file exe w₃).1)) λ w₄.
          and_then (calls.close_file tmp w₄)
            λ w₅. and_then (calls.chmod tmp w₅) λ w₆. calls.rename tmp s.bin_path w₆

  unfoldable pub with_executable : Fallible String → W → Option Error × W
  with_executable (error e) w = (some e, w)
  with_executable (value exe) w = copy_binary exe w

  -- The rest of Install, after the binary is in place.
  unfoldable pub register : W → Option Error × W
  register w = and_then (uninstall w) λ w₁.
      and_then (calls.write_file s.daemon_file_path s.system_config w₁)
        λ w₂. and_then (load calls s w₂) (start_daemon calls s)

  unfoldable pub install_new : W → Option Error × W
  install_new w =
      and_then (calls.mkdir_all s.bin_path w)
        λ w₁. and_then (with_executable (calls.executable w₁) w₁) register

  -- The deferred function.
  unfoldable pub explain : Option Error × W → Option Error × W
  explain (none, w) = (none, w)
  explain (some e, w) =
      if calls.get_uid w == 0
      then (some e, w)
      else (some (message "run it again with sudo privileges: %s"), w)

  unfoldable pub install : W → Option Error × W
  install w =
      explain
        (privileged calls s w λ w₀. if is_installed calls s w₀ then (none, w₀) else install_new w₀)
