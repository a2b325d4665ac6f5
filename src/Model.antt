-- ===== src/Model.antt =====
-- src/model.rs: the platform, protocol and permission enums and the system-process policy.
use kickoutchi.Prelude.{
  ℕ, Bool, true, ◌||◌, Option, List, [], ◌∷◌, if◌then◌else◌, leb, ◌==◌, nat_eq, is_some_and, any,
  PartialEq, derive_eq,
}
use kickoutchi.Prelude.Text.{Text, text_eq, codes, eq_ignore_ascii_case}

pub data Platform : Type 0 where
  linux windows macos : Platform

unfoldable pub Platform-discrete : Discrete Platform
Platform-discrete = hlevel

instance abbrev pub platform_eq : PartialEq Platform
platform_eq = derive_eq Platform-discrete

pub data Protocol : Type 0 where
  tcp udp : Protocol

unfoldable pub Protocol-discrete : Discrete Protocol
Protocol-discrete = hlevel

instance abbrev pub protocol_eq : PartialEq Protocol
protocol_eq = derive_eq Protocol-discrete

pub data PermissionStatus : Type 0 where
  full partial : PermissionStatus

pub record SystemProcessCheck : Type 0 where
  pub platform : Platform
  pub pid : Option ℕ
  pub parent_pid : Option ℕ
  pub process_name : Option Text
  pub parent_process_name : Option Text

abbrev windows_system_process_names : List Text
windows_system_process_names =
    codes "System"
    ∷ codes "Registry"
    ∷ codes "smss.exe"
    ∷ codes "csrss.exe"
    ∷ codes "wininit.exe"
    ∷ codes "services.exe"
    ∷ codes "lsass.exe"
    ∷ codes "svchost.exe"
    ∷ codes "winlogon.exe"
    ∷ codes "fontdrvhost.exe"
    ∷ codes "dwm.exe"
    ∷ codes "spoolsv.exe"
    ∷ codes "explorer.exe"
    ∷ []

unfoldable pub is_unix_system_process : SystemProcessCheck → Bool
is_unix_system_process c =
    if is_some_and c.pid (λ pid. leb pid 1) || is_some_and c.parent_pid (λ p. p == 1)
    then true
    else is_some_and c.process_name λ name.
      (name == codes "systemd")
      || (name == codes "launchd")
      || (name == codes "init")
      || (name == codes "WindowServer")

unfoldable pub is_windows_system_process : SystemProcessCheck → Bool
is_windows_system_process c =
    if is_some_and c.pid (λ pid. leb pid 4)
    then true
    else if is_some_and c.parent_process_name
        (λ name. eq_ignore_ascii_case name (codes "services.exe"))
    then true
    else is_some_and c.process_name λ name.
      any (λ system_name. eq_ignore_ascii_case system_name name) windows_system_process_names

system_process_on : Platform → SystemProcessCheck → Bool
system_process_on Platform.windows c = is_windows_system_process c
system_process_on Platform.linux c = is_unix_system_process c
system_process_on Platform.macos c = is_unix_system_process c

unfoldable pub is_system_process : SystemProcessCheck → Bool
unfolding system_process_on
is_system_process c = system_process_on c.platform c
