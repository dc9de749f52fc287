-- ===== src/Watchdog/Inotify/Events.antt =====
-- `inotify_watch_lost` finds in a buffer what the kernel packed into it.
use transparent_tor_proxy.Base.{
  ℕ, zero, suc, ◌*◌, ◌/◌, ◌%◌, ◌≤◌, ◌<◌, ◌≡◌, refl, ap, ◌∙◌, Bool, false, ◌||◌, List, [], ◌∷◌, ◌++◌,
  arith, length, length-append, any_of, All,
}
use transparent_tor_proxy.Watchdog.Inotify.{
  is_lost, u32, drop, truncated, read_header, walk, inotify_watch_lost,
}

-- `struct inotify_event`, with the bytes of its name, padding included.
pub record Event : Type 0 where
  pub wd : ℕ
  pub mask : ℕ
  pub cookie : ℕ
  pub name : List ℕ

-- The fields fit their 32 bits.
abbrev pub Fits : Event → Type 0
Fits e = (e.mask < 4294967296) × (length e.name < 4294967296)

abbrev pub bytes_of : ℕ → List ℕ → List ℕ
bytes_of n rest = (n % 256) ∷ (n / 256 % 256) ∷ (n / 65536 % 256) ∷ (n / 16777216 % 256) ∷ rest

-- The bytes of an event, little-endian.
abbrev pub pack : Event → List ℕ → List ℕ
pack e rest =
    bytes_of e.wd (bytes_of e.mask (bytes_of e.cookie (bytes_of (length e.name) (e.name ++ rest))))

abbrev pub pack_all : List Event → List ℕ → List ℕ
pack_all [] tail = tail
pack_all (e ∷ es) tail = pack e (pack_all es tail)

u32-bytes :
    (n : ℕ)
    → n < 4294967296
    → u32 (n % 256) (n / 256 % 256) (n / 65536 % 256) (n / 16777216 % 256) ≡ n
u32-bytes n h = omega arith

drop-append : (xs ys : List ℕ) → drop (length xs) (xs ++ ys) ≡ ys
drop-append [] ys = refl
drop-append (x ∷ xs) ys = drop-append xs ys

read_header_short : (bytes : List ℕ) → length bytes < 16 → read_header bytes ≡ truncated
read_header_short bytes h = ground arith

-- One round of the loop takes one event.
walk-pack :
    (fuel : ℕ) (e : Event) (rest : List ℕ) (lost : Bool)
    → Fits e
    → walk (suc fuel) (pack e rest) lost ≡ walk fuel rest (is_lost e.mask || lost)
unfolding walk
walk-pack fuel e rest lost (mask_fits, name_fits) =
    (λ i.
      walk fuel (drop (u32-bytes (length e.name) name_fits i) (e.name ++ rest))
        (is_lost (u32-bytes e.mask mask_fits i) || lost))
    ∙ ap (λ bytes. walk fuel bytes (is_lost e.mask || lost)) (drop-append e.name rest)

abbrev pub lost_among : List Event → Bool
lost_among = any_of (λ e. is_lost e.mask)

or_swap : (a b c : Bool) → (b || (a || c)) ≡ ((a || b) || c)
or_swap a b c = ground arith

walk-pack_all :
    (fuel : ℕ) (es : List Event) (tail : List ℕ) (lost : Bool)
    → length tail < 16
    → All Fits es
    → length es ≤ fuel
    → walk fuel (pack_all es tail) lost ≡ (lost_among es || lost)
unfolding walk
walk-pack_all zero [] tail lost short fits enough = refl
walk-pack_all (suc fuel) [] tail lost short fits enough = rw (read_header_short tail short, walk)
walk-pack_all zero (e ∷ es) tail lost short fits enough = absurd (omega arith)
walk-pack_all (suc fuel) (e ∷ es) tail lost short fits enough =
    walk-pack fuel e (pack_all es tail) lost fits.0
    ∙ walk-pack_all fuel es tail (is_lost e.mask || lost) short fits.1 (omega arith)
    ∙ or_swap (is_lost e.mask) (lost_among es) lost

length-pack_all : (es : List Event) (tail : List ℕ) → 16 * length es ≤ length (pack_all es tail)
length-pack_all [] tail = omega arith
length-pack_all (e ∷ es) tail =
    omega (arith, length-append {0} e.name (pack_all es tail), length-pack_all es tail)

or_false : (b : Bool) → (b || false) ≡ b
or_false b = ground arith

walk-pack_all-false :
    (e : Event) (es : List Event) (tail : List ℕ)
    → length tail < 16
    → All Fits (e ∷ es)
    → walk (length (pack_all (e ∷ es) tail)) (pack_all (e ∷ es) tail) false
      ≡ (lost_among (e ∷ es) || false)
walk-pack_all-false e es tail short fits =
    walk-pack_all _ (e ∷ es) tail false short fits (omega (arith, length-pack_all (e ∷ es) tail))

-- A buffer that holds whole events, and perhaps the start of one more, is judged by its whole events:
-- the watch is lost exactly if the mask of one of them says so, whatever the lengths of the names.
pub watch_lost-pack_all :
    (es : List Event) (tail : List ℕ)
    → length tail < 16
    → All Fits es
    → inotify_watch_lost (pack_all es tail) ≡ lost_among es
unfolding inotify_watch_lost
watch_lost-pack_all [] tail short fits = ground arith
watch_lost-pack_all (e ∷ es) tail short fits = ground (
  arith,
  length-pack_all (e ∷ es) tail,
  walk-pack_all-false e es tail short fits,
  or_false (lost_among (e ∷ es)),
)
