-- ===== src/Watchdog/Inotify.antt =====
-- ttp/watchdog/inotify.py, `inotify_watch_lost`: the walk over a buffer of inotify events.
pub mod Events
use Prim.Native.Nat.{bit_and}
use transparent_tor_proxy.Base.{
  ℕ, zero, suc, ◌+◌, ◌*◌, Bool, true, false, not, ◌||◌, List, [], ◌∷◌, length, ltb, ◌==◌,
  if◌then◌else◌,
}

-- IN_DELETE_SELF | IN_MOVE_SELF
abbrev pub lost_mask : ℕ
lost_mask = 0xc00

pub is_lost : ℕ → Bool
is_lost mask = not (bit_and mask lost_mask == 0)

-- A 32-bit field of `struct.unpack_from("iIII", …)` on a little-endian host, from its bytes.
abbrev pub u32 : ℕ → ℕ → ℕ → ℕ → ℕ
u32 a b c d = a + 256 * b + 65536 * c + 16777216 * d

abbrev pub drop : ℕ → List ℕ → List ℕ
drop zero bs = bs
drop (suc n) [] = []
drop (suc n) (_ ∷ bs) = drop n bs

-- The bytes at the offset that the fields `mask` and `len` are read from, and the bytes behind the
-- header; `none` stands for fewer than 16 bytes.
pub data Header : Type 0 where
  truncated : Header
  header : ℕ → ℕ → List ℕ → Header

abbrev pub read_header : List ℕ → Header
read_header (_ ∷ _ ∷ _ ∷ _ ∷ m0 ∷ m1 ∷ m2 ∷ m3 ∷ _ ∷ _ ∷ _ ∷ _ ∷ l0 ∷ l1 ∷ l2 ∷ l3 ∷ rest) =
    header (u32 m0 m1 m2 m3) (u32 l0 l1 l2 l3) rest
read_header _ = truncated

-- The loop, over the bytes from `offset` on. Each round but the last takes a header away, so the
-- number of bytes is fuel enough.
pub walk : ℕ → List ℕ → Bool → Bool
walk zero bytes lost = lost
walk (suc fuel) bytes lost = elim (read_header bytes) [
  | truncated ↦ lost
  | header mask len rest ↦ walk fuel (drop len rest) (is_lost mask || lost)
]

-- A buffer shorter than a header holds no event, as `walk` finds too.
pub inotify_watch_lost : List ℕ → Bool
inotify_watch_lost bytes = if ltb (length bytes) 16 then false else walk (length bytes) bytes false
