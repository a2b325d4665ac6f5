-- ===== src/Protection.antt =====
-- src/protection.rs: which process names are protected, on each platform. The build modelled is
-- the one for Linux and macOS.
pub mod Laws
mod Tests
use kickoutchi.Prelude.{
  ℕ, Bool, true, false, not, ◌&&◌, ◌||◌, Option, none, some, List, [], ◌∷◌, if◌then◌else◌, leb, ltb,
  ◌==◌, nat_eq, is_some_and, any, first,
}
use kickoutchi.Prelude.Text.{
  Text, text_eq, byte_len, lossy_prefix, strip_prefix, is_ascii, eq_ignore_ascii_case,
}
use kickoutchi.Model.{Platform, platform_eq}

abbrev pub linux_comm_max_bytes : ℕ
linux_comm_max_bytes = 15

unfoldable pub linux_comm_prefix : Text → Text
linux_comm_prefix name =
    if leb (byte_len name) linux_comm_max_bytes
    then name
    else lossy_prefix linux_comm_max_bytes name

-- `char::is_ascii_whitespace`: space, tab, line feed, form feed, carriage return.
abbrev pub is_ascii_whitespace : ℕ → Bool
is_ascii_whitespace c = (c == 32) || (c == 9) || (c == 10) || (c == 12) || (c == 13)

-- The suffix begins with a process-title delimiter.
abbrev pub starts_title : Text → Bool
starts_title suffix = is_some_and (first suffix) (λ ch. (ch == b':') || is_ascii_whitespace ch)

unfoldable pub macos_process_name_matches : Text → Text → Bool
macos_process_name_matches protected process_name =
    (protected == process_name)
    || (not (protected == []) && strip_prefix protected process_name starts_title)

-- As a Linux or macOS build compiles it, which has no Windows row to compare: the Unicode
-- comparison under `cfg(any(windows, test))` is not modelled.
unfoldable pub windows_process_name_eq : Text → Text → Bool
windows_process_name_eq left right =
    if is_ascii left && is_ascii right
    then eq_ignore_ascii_case left right
    else eq_ignore_ascii_case left right

-- The rule for one configured name.
unfoldable pub name_matches : Platform → Text → Text → Bool
name_matches Platform.windows process_name protected =
    windows_process_name_eq protected process_name
name_matches Platform.linux process_name protected =
    (protected == process_name)
    || (ltb linux_comm_max_bytes (byte_len protected)
        && (linux_comm_prefix protected == process_name))
name_matches Platform.macos process_name protected =
    macos_process_name_matches protected process_name

unfoldable pub is_protected_process_name : Platform → Text → List Text → Bool
is_protected_process_name platform process_name protected_names =
    any (name_matches platform process_name) protected_names

unfoldable pub is_protected_by_names : Platform → Option Text → Option Text → List Text → Bool
is_protected_by_names platform name executable_name protected_names =
    is_some_and name (λ n. is_protected_process_name platform n protected_names)
    || ((platform == Platform.macos)
        && is_some_and executable_name (λ n. any (λ protected. protected == n) protected_names))
