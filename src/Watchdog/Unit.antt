-- ===== src/Watchdog/Unit.antt =====
-- ttp/watchdog/service.py, `_write_watchdog_service_unit`: the lines of the systemd unit.
use transparent_tor_proxy.Base.{
  ℕ, ◌+◌, ◌*◌, Bool, not, non_empty, String, ◌<>◌, Option, none, some, List, [], ◌∷◌, ◌++◌, leb,
  if◌then◌else◌,
}
use transparent_tor_proxy.Settings.{Settings, defaults, ticks}

abbrev max : ℕ → ℕ → ℕ
max a b = if leb a b then b else a

-- TimeoutStopSec, in ticks.
unfoldable pub stop_timeout : ℕ → Settings → ℕ
stop_timeout second s = max (4 * ticks second s.watchdog.check_timeout + 2 * second) (42 * second)

-- What the host gives: `sys.executable`, whether the account ttp-watchdog exists, `uuid.UUID` in its
-- canonical form (`none` for its `ValueError`), and the format `:g` of a time.
pub record Host : Type 0 where
  pub python_bin : String
  pub has_watchdog_user : Bool
  pub uuid : String → Option String
  pub format : ℕ → String

abbrev user_lines : List String
user_lines =
    "User=ttp-watchdog" ∷ "Group=ttp-watchdog" ∷ "NoNewPrivileges=yes"
    ∷ "CapabilityBoundingSet=CAP_NET_ADMIN" ∷ "AmbientCapabilities=CAP_NET_ADMIN"
    ∷ "StandardOutput=journal" ∷ "StandardError=journal" ∷ []

abbrev sandbox_lines : List String
sandbox_lines =
    "ProtectSystem=strict" ∷ "ReadWritePaths=-/run/ttp/watchdog" ∷ "ProtectHome=read-only"
    ∷ "PrivateTmp=yes" ∷ "ProtectKernelTunables=yes" ∷ "ProtectKernelModules=yes"
    ∷ "ProtectKernelLogs=yes" ∷ "ProtectControlGroups=yes" ∷ "ProtectClock=yes"
    ∷ "ProtectHostname=yes" ∷ "RestrictAddressFamilies=AF_UNIX AF_NETLINK"
    ∷ "RestrictNamespaces=yes" ∷ "RestrictRealtime=yes" ∷ "RestrictSUIDSGID=yes"
    ∷ "LockPersonality=yes" ∷ "SystemCallArchitectures=native" ∷ []

-- The section [Unit], without its comments.
abbrev unit_section : List String
unit_section =
    "[Unit]" ∷ "Description=TTP Session Watchdog & Killswitch"
    ∷ "After=network.target ttp-tor.service" ∷ "Wants=ttp-tor.service" ∷ "StartLimitIntervalSec=60"
    ∷ "StartLimitBurst=5" ∷ "" ∷ "[Service]" ∷ []

-- ` --session {uuid.UUID(session_id)}`, if there is an identity.
abbrev termination_args : Host → Option String → Option String
termination_args h none = some ""
termination_args h (some session) =
    if not (non_empty session)
    then some ""
    else elim (h.uuid session) [ none ↦ none | some id ↦ some (" --session " <> id) ]

module _ (second : ℕ) (h : Host) where
  abbrev service_lines : Settings → String → List String
  service_lines s args =
      "Type=notify"
      ∷ "NotifyAccess=main"
      ∷ ("TimeoutStartSec=" <> h.format (ticks second s.watchdog.readiness_timeout))
      ∷ ("WatchdogSec=" <> h.format (ticks second s.watchdog.service_timeout))
      ∷ "WatchdogSignal=SIGKILL"
      ∷ ("TimeoutStopSec=" <> h.format (stop_timeout second s))
      ∷ ("ExecStart=" <> (h.python_bin <> " -m ttp.cli watchdog run"))
      ∷ ("ExecStopPost=" <> (h.python_bin <> (" -m ttp.cli watchdog terminated" <> args)))
      ∷ "Restart=on-failure"
      ∷ "RestartSec=3"
      ∷ "LimitNOFILE=32768"
      ∷ []

  abbrev or_defaults : Option Settings → Settings
  or_defaults none = defaults
  or_defaults (some s) = s

  -- The unit's lines; `none` for an identity that is no UUID. An empty identity counts as none.
  unfoldable pub unit_lines : Option Settings → Option String → Option (List String)
  unfolding stop_timeout
  unit_lines settings session = elim (termination_args h session) [
    | none ↦ none
    | some args ↦ some (
        unit_section
        ++ (service_lines (or_defaults settings) args
            ++ ((if h.has_watchdog_user then user_lines else []) ++ sandbox_lines)))
  ]
