-- ===== src/Daemon/Constants.antt =====
-- daemon/runetaled: what the commands pass to NewDaemon on Linux and on Darwin.
use runetale.Common.{String, List, [], ◌∷◌, concat}
use runetale.Daemon.Systemd.{SystemdRecord}

-- A text by its lines.
abbrev pub lines : List String → String
lines [] = ""
lines (l ∷ ls) = concat l (lines ls)

abbrev pub linux_system_config : String
linux_system_config = lines (
    "[Unit]\n" ∷ "Description=runetale daemon\n" ∷ "Requires=NetworkManager.service\n"
    ∷ "After=network-online.target\n"
    ∷ "Wants=network-online.target systemd-networkd-wait-online.service\n" ∷ "\n" ∷ "[Service]\n"
    ∷ "User=root\n" ∷ "Type=simple\n" ∷ "ExecStart=/usr/bin/runetaled up -daemon=false\n"
    ∷ "Restart=on-failure\n" ∷ "RestartSec=15s\n" ∷ "\n" ∷ "[Install]\n"
    ∷ "WantedBy=multi-user.target\n" ∷ [])

abbrev pub linux_service : SystemdRecord
linux_service = record {
  bin_path = "/usr/bin/runetaled";
  service_name = "runetaled";
  daemon_file_path = "/etc/systemd/system/runetaled.service";
  system_config = linux_system_config;
}

abbrev pub darwin_system_config : String
darwin_system_config = lines (
    "\n" ∷ "<?xml version=\"1.0\" encoding=\"UTF-8\"?>\n"
    ∷ "<!DOCTYPE plist PUBLIC \"-//Apple//DTD PLIST 1.0//EN\" \"http://www.apple.com/DTDs/PropertyList-1.0.dtd\">\n"
    ∷ "<plist version=\"1.0\">\n" ∷ "<dict>\n" ∷ "\n" ∷ "  <key>Label</key>\n"
    ∷ "  <string>com.runetale.runetaled</string>\n" ∷ "\n" ∷ "  <key>ProgramArguments</key>\n"
    ∷ "  <array>\n" ∷ "    <string>/usr/local/bin/runetaled</string>\n"
    ∷ "    <string>up</string>\n" ∷ "    <string>-daemon=false</string>\n" ∷ "  </array>\n" ∷ "\n"
    ∷ "  <key>RunAtLoad</key>\n" ∷ "  <true/>\n" ∷ "\n" ∷ "  <key>KeepAlive</key>\n" ∷ "  <true/>\n"
    ∷ "\n" ∷ "  <key>StartInterval</key>\n" ∷ "    <integer>5</integer>\n" ∷ "\n"
    ∷ "  <key>StandardErrorPath</key>\n" ∷ "  <string>/usr/local/var/log/runetaled.err</string>\n"
    ∷ "  <key>StandardOutPath</key>\n" ∷ "  <string>/usr/local/var/log/runetaled.log</string>\n"
    ∷ "\n" ∷ "</dict>\n" ∷ "</plist>\n" ∷ [])

abbrev pub darwin_service : SystemdRecord
darwin_service = record {
  bin_path = "/usr/local/bin/runetaled";
  service_name = "com.runetale.runetaled";
  daemon_file_path = "/Library/LaunchDaemons/com.runetale.runetaled.plist";
  system_config = darwin_system_config;
}
