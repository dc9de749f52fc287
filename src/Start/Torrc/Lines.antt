-- ===== src/Start/Torrc/Lines.antt =====
-- ttp/tor_config.py, `_build_torrc_content`: the physical lines of the torrc.
use mathlib.Core.List.{append_assoc, append-nil}
use transparent_tor_proxy.Base.{
  ℕ, zero, suc, ◌+◌, ◌/◌, ◌≡◌, refl, sym, ap, ◌∙◌, Bool, true, false, Option, none, some, List, [],
  ◌∷◌, ◌++◌, arith, ltb, ◌==◌, any_of, map, All, if◌then◌else◌, Bool-cases, inl, inr,
}
use transparent_tor_proxy.Start.Torrc.{
  Text, codes, digits, decimal, Library, pt_map, binary_of, same_text, Wanted, ipv6_lines,
  doh_lines, base_lines, fixed_lines, required_transports, binary_path, plugin_line, plugin_lines,
  is_separator, bridge_line, cons_line, bridge_lines, append_lines, torrc_lines, lines_with, render,
  render_all, build_torrc_content,
}

abbrev pub is_newline : ℕ → Bool
is_newline c = c == 10

-- The text is within one line.
abbrev pub IsLine : Text → Type 0
IsLine l = any_of is_newline l ≡ false

abbrev put : ℕ → List Text → List Text
put c [] = (c ∷ []) ∷ []
put c (l ∷ ls) = (c ∷ l) ∷ ls

-- The lines of a text, each ended by a line feed or by the end.
unfoldable pub physical_lines : Text → List Text
physical_lines [] = []
physical_lines (c ∷ s) =
    let rest = physical_lines s in if is_newline c then [] ∷ rest else put c rest

IsLine-append : (l k : Text) → IsLine l → IsLine k → IsLine (l ++ k)
IsLine-append [] k h j = j
IsLine-append (c ∷ l) k h j = ground (arith, h, IsLine-append l k (ground (arith, h)) j)

IsLine-digits : (fuel n : ℕ) → IsLine (digits fuel n)
unfolding digits
IsLine-digits zero n = refl
IsLine-digits (suc fuel) n = elim (Bool-cases (ltb n 10)) [
  | inl e ↦ rw e (ground arith)
  | inr e ↦
      rw e (IsLine-append (digits fuel (n / 10)) _ (IsLine-digits fuel (n / 10)) (ground arith))
]

IsLine-decimal : (n : ℕ) → IsLine (decimal n)
unfolding decimal
IsLine-decimal n = IsLine-digits (n + 1) n

physical-line :
    (l rest : Text) → IsLine l → physical_lines (l ++ (10 ∷ rest)) ≡ l ∷ physical_lines rest
unfolding physical_lines
physical-line [] rest h = refl
physical-line (c ∷ l) rest h = ground (arith, h, physical-line l rest (ground (arith, h)))

physical-render : (ls : List Text) → All IsLine ls → physical_lines (render ls) ≡ ls
unfolding render physical_lines
physical-render [] h = refl
physical-render (l ∷ ls) (h, hs) =
    physical-line l (render ls) h ∙ ap (λ (k : List Text). l ∷ k) (physical-render ls hs)

All-append : (ls ks : List Text) → All IsLine ls → All IsLine ks → All IsLine (ls ++ ks)
All-append [] ks h k = k
All-append (l ∷ ls) ks (h, hs) k = (h, All-append ls ks hs k)

separators-IsLine : (b : Text) → any_of is_separator b ≡ false → IsLine b
separators-IsLine [] h = refl
separators-IsLine (c ∷ b) h = ground (arith, h, separators-IsLine b (ground (arith, h)))

Bridge-IsLine : IsLine (codes "Bridge ")
unfolding codes
Bridge-IsLine = refl

cons-eq :
    (b : Text) (o : Option (List Text)) (ls : List Text)
    → cons_line b o ≡ some ls
    → (more : List Text) × (o ≡ some more) × (bridge_line b ∷ more ≡ ls)
cons-eq b none ls h = absurd (ground (arith, h))
cons-eq b (some more) ls h = (more, refl, ground (arith, h))

-- Bridges that are written stand one in each line.
bridges-AreLines :
    (bridges ls : List Text)
    → bridge_lines bridges ≡ some ls
    → (ls ≡ map bridge_line bridges) × All IsLine ls
unfolding bridge_lines
bridges-AreLines [] ls h = let same : [] ≡ ls = cc in rw (← same) (refl, tt)
bridges-AreLines (b ∷ bridges) ls h = elim (Bool-cases (any_of is_separator b)) [
  | inl e ↦ absurd (ground (arith, h, e))
  | inr e ↦
      let parts = cons-eq b (bridge_lines bridges) ls (rw e at h) in
      let more = bridges-AreLines bridges parts.0 parts.1 in
      rw (← parts.2) (
        ap (λ (k : List Text). bridge_line b ∷ k) more.0,
        (IsLine-append (codes "Bridge ") b Bridge-IsLine (separators-IsLine b e), more.1),
      )
]

same_text-eq : (a b : Text) → same_text a b ≡ true → a ≡ b
same_text-eq [] [] h = refl
same_text-eq [] (d ∷ b) h = absurd (ground (arith, h))
same_text-eq (c ∷ a) [] h = absurd (ground (arith, h))
same_text-eq (c ∷ a) (d ∷ b) h = ground (arith, h, same_text-eq a b (ground (arith, h)))

abbrev AreLines : List (Text × Text) → Type 0
AreLines [] = Unit
AreLines ((k, b) ∷ entries) = IsLine k × IsLine b × AreLines entries

binary-IsLine :
    (pt binary : Text) (entries : List (Text × Text))
    → AreLines entries
    → binary_of pt entries ≡ some binary
    → IsLine pt × IsLine binary
binary-IsLine pt binary [] h e = absurd (ground (arith, e))
binary-IsLine pt binary ((k, b) ∷ entries) (hk, hb, hs) e = elim (Bool-cases (same_text k pt)) [
  | inl s ↦
      let same : b ≡ binary = ground (arith, e, s) in
      (rw (← same_text-eq k pt s) hk, rw (← same) hb)
  | inr s ↦ binary-IsLine pt binary entries hs (rw s at e)
]

pt_map-AreLines : AreLines pt_map
unfolding codes
pt_map-AreLines = (refl, refl, (refl, refl, (refl, refl, tt)))

words-AreLines :
    IsLine (codes "ClientTransportPlugin ")
    × IsLine (codes " exec ")
    × IsLine (codes "/usr/bin/")
    × IsLine (codes "UseBridges 1")
    × IsLine (codes "TransPort ")
    × IsLine (codes "DNSPort ")
    × IsLine (codes "CookieAuthFile ")
    × IsLine (codes "DataDirectory ")
    × IsLine (codes "TransPort [::1]:")
    × IsLine (codes "DNSPort [::1]:")
unfolding codes
words-AreLines = (refl, refl, refl, refl, refl, refl, refl, refl, refl, refl)

-- What the program is given of paths holds no line feed.
abbrev pub HasPaths : Wanted → Type 0
HasPaths w =
    IsLine w.auth_cookie
    × IsLine w.cache_dir
    × ((binary path : Text) → w.resolve_optional binary ≡ some path → IsLine path)

module _ (lib : Library) (w : Wanted) (paths : HasPaths w) where
  path-IsLine :
      (binary : Text) (o : Option Text)
      → w.resolve_optional binary ≡ o
      → IsLine binary
      → IsLine (binary_path lib w binary o)
  path-IsLine binary none e h = IsLine-append (codes "/usr/bin/") binary words-AreLines.2 h
  path-IsLine binary (some path) e h = paths.2 binary path e

  plugin-IsLine :
      (pt : Text) (o : Option Text) → binary_of pt pt_map ≡ o → IsLine (plugin_line lib w pt o)
  plugin-IsLine pt none e = refl
  plugin-IsLine pt (some binary) e =
      let both = binary-IsLine pt binary pt_map pt_map-AreLines e in
      IsLine-append (codes "ClientTransportPlugin ") _ words-AreLines.0 (
        IsLine-append pt _ both.0 (
          IsLine-append (codes " exec ") _ words-AreLines.1
            (path-IsLine binary (w.resolve_optional binary) refl both.1)))

  plugins-AreLines : (pts : List Text) → All IsLine (plugin_lines lib w pts)
  plugins-AreLines [] = tt
  plugins-AreLines (pt ∷ pts) = (plugin-IsLine pt (binary_of pt pt_map) refl, plugins-AreLines pts)

  ipv6-AreLines : All IsLine (ipv6_lines w)
  unfolding codes
  ipv6-AreLines = elim (Bool-cases w.ipv6_avail) [
    | inl e ↦ rw e (
      IsLine-append (codes "TransPort [::1]:") (decimal w.transport_port) refl
          (IsLine-decimal w.transport_port),
      (
        IsLine-append (codes "DNSPort [::1]:") (decimal w.dns_port) refl
            (IsLine-decimal w.dns_port),
        (refl, (refl, tt)),
      ),
    )
    | inr e ↦ rw e (refl, tt)
  ]

  doh-AreLines : (block : Bool) → All IsLine (doh_lines block)
  unfolding codes
  doh-AreLines true = (refl, (refl, (refl, (refl, (refl, (refl, tt))))))
  doh-AreLines false = tt

  base-AreLines : All IsLine (base_lines w)
  unfolding codes
  base-AreLines = (
    refl,
    (
      refl,
      (
        refl,
        (
          IsLine-append (codes "TransPort ") (decimal w.transport_port) refl
              (IsLine-decimal w.transport_port),
          (
            IsLine-append (codes "DNSPort ") (decimal w.dns_port) refl (IsLine-decimal w.dns_port),
            (
              refl,
              (
                refl,
                (
                  refl,
                  (
                    refl,
                    (
                      IsLine-append (codes "CookieAuthFile ") w.auth_cookie refl paths.0,
                      (refl, (refl, tt)),
                    ),
                  ),
                ),
              ),
            ),
          ),
        ),
      ),
    ),
  )

  fixed-AreLines : All IsLine (fixed_lines w)
  unfolding fixed_lines
  fixed-AreLines = All-append (base_lines w) _ base-AreLines (
      All-append (ipv6_lines w) _ ipv6-AreLines (
        IsLine-append (codes "DataDirectory ") w.cache_dir words-AreLines.7 paths.1,
        doh-AreLines w.block_doh,
      ))

-- The lines between the fixed ones and the bridges'.
abbrev pub option_lines : Library → Wanted → List Text → Bool → List Text
option_lines lib w [] on = []
option_lines lib w (b ∷ bridges) true =
    codes "UseBridges 1" ∷ plugin_lines lib w (required_transports lib w [] (b ∷ bridges))
option_lines lib w (b ∷ bridges) false = []

abbrev pub written : List Text → Bool → List Text
written bridges true = bridges
written bridges false = []

append-eq :
    (ls : List Text) (o : Option (List Text)) (all : List Text)
    → append_lines ls o ≡ some all
    → (more : List Text) × (o ≡ some more) × (ls ++ more ≡ all)
append-eq ls none all h = absurd (ground (arith, h))
append-eq ls (some more) all h = (more, refl, ground (arith, h))

render-eq :
    (o : Option (List Text)) (text : Text)
    → render_all o ≡ some text
    → (ls : List Text) × (o ≡ some ls) × (render ls ≡ text)
render-eq none text h = absurd (ground (arith, h))
render-eq (some ls) text h = (ls, refl, ground (arith, h))

module _ (lib : Library) (w : Wanted) (paths : HasPaths w) where
  abbrev Composed : List Text → Bool → List Text → Type 0
  Composed bridges on ls =
      (ls
        ≡ fixed_lines w ++ (option_lines lib w bridges on ++ map bridge_line (written bridges on)))
      × All IsLine ls

  fixed-Composed :
      (ls : List Text) → fixed_lines w ≡ ls → (ls ≡ fixed_lines w ++ []) × All IsLine ls
  fixed-Composed ls same =
      (sym same ∙ sym (append-nil (fixed_lines w)), rw (← same) (fixed-AreLines lib w paths))

  lines-Composed :
      (bridges : List Text) (on : Bool) (ls : List Text)
      → lines_with lib w bridges on ≡ some ls
      → Composed bridges on ls
  lines-Composed [] true ls h = fixed-Composed ls (cc)
  lines-Composed [] false ls h = fixed-Composed ls (cc)
  lines-Composed (b ∷ bridges) false ls h = fixed-Composed ls (cc)
  lines-Composed (b ∷ bridges) true ls h =
      let options : List Text = option_lines lib w (b ∷ bridges) true in
      let parts = append-eq (fixed_lines w ++ options) (bridge_lines (b ∷ bridges)) ls h in
      let bridged = bridges-AreLines (b ∷ bridges) parts.0 parts.1 in
      (
        sym parts.2
            ∙ ap (λ (k : List Text). (fixed_lines w ++ options) ++ k) bridged.0
            ∙ append_assoc (fixed_lines w) options (map bridge_line (b ∷ bridges)),
        rw (← parts.2) (
            All-append (fixed_lines w ++ options) parts.0
              (All-append (fixed_lines w) options (fixed-AreLines lib w paths) (
                words-AreLines.3,
                plugins-AreLines lib w paths (required_transports lib w [] (b ∷ bridges)),
              ))
              bridged.1),
      )

  -- The physical lines of a torrc that is built are the fixed ones, then, if bridges are used, the switch
  -- for them and a line for each transport that they need, and then "Bridge" and the value, one line for
  -- each bridge and in their order: no value adds a line of its own. The paths that the program is given
  -- hold no line feed.
  pub build_torrc_content-lines :
      (text : Text)
      → build_torrc_content lib w ≡ some text
      → physical_lines text
        ≡ fixed_lines w
          ++ (option_lines lib w w.bridges w.use_bridges
              ++ map bridge_line (written w.bridges w.use_bridges))
  unfolding build_torrc_content torrc_lines
  build_torrc_content-lines text h =
      let rendered = render-eq (torrc_lines lib w) text h in
      let composed = lines-Composed w.bridges w.use_bridges rendered.0 rendered.1 in
      ap physical_lines (sym rendered.2) ∙ physical-render rendered.0 composed.1 ∙ composed.0
