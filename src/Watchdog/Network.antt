-- ===== src/Watchdog/Network.antt =====
-- ttp/watchdog/integrity.py, `is_interface_online` and `has_default_route`.
use transparent_tor_proxy.Base.{
  Bool, true, false, not, ◌&&◌, String, Option, none, some, List, ◌∷◌, str_eq, any_of,
  if◌then◌else◌,
}

-- A file of an interface is absent, cannot be read, or holds a text, given stripped (and, for
-- `operstate`, in lower case).
pub data SysFile : Type 0 where
  absent unreadable : SysFile
  holds : String → SysFile

-- Whether the file does not speak against the interface.
abbrev allows : String → SysFile → Bool
allows down absent = true
allows down unreadable = false
allows down (holds text) = not (str_eq text down)

abbrev pub is_interface_online : Bool → SysFile → SysFile → Bool
is_interface_online present operstate carrier =
    if present then allows "down" operstate && allows "0" carrier else false

-- The words of a line of `/proc/net/route`, of which there must be eight: the second is the
-- destination, the eighth the mask.
abbrev is_default : List String → Bool
is_default (_ ∷ dest ∷ _ ∷ _ ∷ _ ∷ _ ∷ _ ∷ mask ∷ _) =
    str_eq dest "00000000" && str_eq mask "00000000"
is_default _ = false

-- `none` stands for a table that is absent or cannot be read.
abbrev pub has_default_route : Option (List (List String)) → Bool
has_default_route none = false
has_default_route (some lines) = any_of is_default lines
