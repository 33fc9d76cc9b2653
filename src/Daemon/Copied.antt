-- ===== src/Daemon/Copied.antt =====
-- daemon/daemon_linux_systemd.go and daemon/daemon_darwin.go: what a successful copy of the program leaves on disk.
use mathlib.Core.Path.{subst}
use runetale.Common.{false, ◌≡◌, refl, ◌∙◌, ◌≢◌, String, Option, none, some, List, concat, Error}
use runetale.Stored.Files.{and_then}
use runetale.Daemon.Systemd.{not_exist, DaemonCalls, SystemdRecord}
use runetale.Daemon.Install.{or_close, copy_binary}

module _ {W : Type 0} where
  -- What holds where a call succeeds.
  abbrev pub Success : (W → Type 0) → Option Error × W → Type 0
  Success P (none, w) = P w
  Success P (some e, w) = Unit

  pub and_then-Success :
      (P Q : W → Type 0) (r : Option Error × W) (f : W → Option Error × W)
      → Success P r
      → ((w : W) → P w → Success Q (f w))
      → Success Q (and_then r f)
  unfolding and_then
  and_then-Success P Q (none, w) f h k = k w h
  and_then-Success P Q (some e, w) f h k = tt

  pub Success_lem : (P : W → Type 0) (r : Option Error × W) → (r.0 ≡ none → P r.1) → Success P r
  Success_lem P (none, w) h = h refl
  Success_lem P (some e, w) h = tt

  pub Success-none :
      (P : W → Type 0) (r : Option Error × W) (w : W) → r ≡ (none, w) → Success P r → P w
  Success-none P r w e h = subst (Success P) e h

-- The calls on a disk whose file at a path has the content `content`.
pub record Disk {B W : Type 0} (calls : DaemonCalls W) (content : String → W → Option B)
    (text : String → B) : Type 0 where
  pub mkdirs : (p q : String) (w : W) → content q (calls.mkdir_all p w).1 ≡ content q w
  pub creates : (p q : String) (w : W) → q ≢ p → content q (calls.create p w).1 ≡ content q w
  pub opens : (p q : String) (w : W) → content q (calls.open_file p w).1 ≡ content q w
  pub closes : (p q : String) (w : W) → content q (calls.close_file p w).1 ≡ content q w
  pub chmods : (p q : String) (w : W) → content q (calls.chmod p w).1 ≡ content q w
  pub controls :
      (args : List String) (q : String) (w : W) → content q (calls.control args w).1 ≡ content q w
  pub copies :
      (a b : String) (w : W)
      → (calls.copy a b w).0 ≡ none
      → content a (calls.copy a b w).1 ≡ content b w
  pub copies_other : (a b q : String) (w : W) → q ≢ a → content q (calls.copy a b w).1 ≡ content q w
  pub renames :
      (a b : String) (w : W)
      → (calls.rename a b w).0 ≡ none
      → content b (calls.rename a b w).1 ≡ content a w
  pub renames_other :
      (a b q : String) (w : W) → q ≢ a → q ≢ b → content q (calls.rename a b w).1 ≡ content q w
  pub writes :
      (p t : String) (w : W)
      → (calls.write_file p t w).0 ≡ none
      → content p (calls.write_file p t w).1 ≡ some (text t)
  pub writes_other :
      (p t q : String) (w : W) → q ≢ p → content q (calls.write_file p t w).1 ≡ content q w
  pub removes_other : (p q : String) (w : W) → q ≢ p → content q (calls.remove p w).1 ≡ content q w
  pub absent : (p : String) (w : W) → calls.file_exists p w ≡ false → content p w ≡ none
  pub missing : (p : String) (w : W) → content p w ≡ none → (calls.remove p w).0 ≡ not_exist

module _ {B W : Type 0} (calls : DaemonCalls W) (content : String → W → Option B)
    (text : String → B) (disk : Disk calls content text) (s : SystemdRecord) (exe : String) where
  abbrev pub tmp : String
  tmp = concat s.bin_path ".tmp"

  -- The files of the service, its temporary file and the running program are different.
  pub record Distinct : Type 0 where
    pub exe_tmp : exe ≢ tmp
    pub exe_unit : exe ≢ s.daemon_file_path
    pub unit_tmp : s.daemon_file_path ≢ tmp
    pub unit_bin : s.daemon_file_path ≢ s.bin_path

  -- A file has the content `c`, and the unit file the content `u`.
  abbrev pub Holds : Option B → Option B → String → W → Type 0
  Holds c u p w = (content p w ≡ c) × (content s.daemon_file_path w ≡ u)

  module _ (distinct : Distinct) (c u : Option B) where
    kept-Holds :
        (p : String) (w : W) (r : Option Error × W)
        → Holds c u p w
        → ((q : String) → q ≢ tmp → content q r.1 ≡ content q w)
        → content p r.1 ≡ content p w
        → Success (Holds c u p) r
    kept-Holds p w r h k k' =
        Success_lem (Holds c u p) r λ e. (k' ∙ h.0, k s.daemon_file_path distinct.unit_tmp ∙ h.1)

    or_close-Holds :
        (p q : String) (r : Option Error × W)
        → Success (Holds c u q) r
        → Success (Holds c u q) (or_close calls s p r)
    unfolding or_close
    or_close-Holds p q (none, w) h = h
    or_close-Holds p q (some e, w) h = tt

    copied-Holds :
        (w : W)
        → Holds c u exe w
        → Success
            (Holds c u tmp)
            ((calls.copy tmp exe w).0, (calls.close_file exe (calls.copy tmp exe w).1).1)
    copied-Holds w (h, h') = Success_lem (Holds c u tmp) _ λ e. (
      disk.closes exe tmp _ ∙ disk.copies tmp exe w e ∙ h,
      disk.closes exe s.daemon_file_path _
          ∙ disk.copies_other tmp exe s.daemon_file_path w distinct.unit_tmp
          ∙ h',
    )

    -- Closing, permissions and the new name.
    abbrev move : W → Option Error × W
    move w =
        and_then (calls.close_file tmp w)
          λ w₁. and_then (calls.chmod tmp w₁) λ w₂. calls.rename tmp s.bin_path w₂

    moved-Holds : (w : W) → Holds c u tmp w → Success (Holds c u s.bin_path) (move w)
    moved-Holds w h =
        and_then-Success (Holds c u tmp) (Holds c u s.bin_path) _ _
          (kept-Holds tmp w (calls.close_file tmp w) h (λ q n. disk.closes tmp q w)
            (disk.closes tmp tmp w))
          λ w₁ h₁.
            and_then-Success (Holds c u tmp) (Holds c u s.bin_path) _ _
              (kept-Holds tmp w₁ (calls.chmod tmp w₁) h₁ (λ q n. disk.chmods tmp q w₁)
                (disk.chmods tmp tmp w₁))
              λ w₂ h₂. Success_lem (Holds c u s.bin_path) _ λ e. (
                disk.renames tmp s.bin_path w₂ e ∙ h₂.0,
                disk.renames_other tmp s.bin_path s.daemon_file_path w₂ distinct.unit_tmp
                      distinct.unit_bin
                    ∙ h₂.1,
              )

    -- The copy puts the running program in the place of the binary, and leaves the unit file.
    pub copy_binary-Holds :
        (w : W) → Holds c u exe w → Success (Holds c u s.bin_path) (copy_binary calls s exe w)
    unfolding copy_binary
    copy_binary-Holds w h =
        and_then-Success (Holds c u exe) (Holds c u s.bin_path) _ _
          (kept-Holds exe w (calls.create tmp w) h (λ q. disk.creates tmp q w)
            (disk.creates tmp exe w distinct.exe_tmp))
          λ w₁ h₁.
            and_then-Success (Holds c u exe) (Holds c u s.bin_path) _ _
              (or_close-Holds tmp exe _ (
                kept-Holds exe w₁ (calls.open_file exe w₁) h₁ (λ q n. disk.opens exe q w₁)
                  (disk.opens exe exe w₁)))
              λ w₂ h₂.
                and_then-Success (Holds c u tmp) (Holds c u s.bin_path) _ _
                  (or_close-Holds tmp tmp _ (copied-Holds w₂ h₂)) moved-Holds
