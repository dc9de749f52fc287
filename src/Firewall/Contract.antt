-- ===== src/Firewall/Contract.antt =====
-- ttp/firewall/verification.py, `matches_emergency_contract`: whether nft's JSON listing of the table
-- shows the emergency rules and nothing else.
pub mod Count
use transparent_tor_proxy.Base.{
  ℕ, ◌+◌, ◌≡◌, refl, Bool, true, false, not, ◌&&◌, ◌||◌, String, Option, none, some, List, [], ◌∷◌,
  ◌++◌, arith, str_eq, contains, is_some, is_none, all_of, if◌then◌else◌, length, ◌==◌, map,
}
use transparent_tor_proxy.Base.Int.{ℤ, pos}
use transparent_tor_proxy.Base.Json.{
  Value, null, bool, int, float, str, arr, obj, Items, nil, cons, Fields, end, field, get_field,
  as_str, truthy,
}

-- Tables, chains and rules as the loop collects them. `rules` holds a list of `expr` values for each
-- chain named, as `setdefault(name, []).append(...)` builds it.
pub record Collected : Type 0 where
  pub tables : ℕ
  pub chains : List (String × Fields)
  pub rules : List (String × List (Option Value))

abbrev has_str : Option Value → String → Bool
has_str (some (str s)) t = str_eq s t
has_str _ t = false

pub find {ℓ} : {A : Type ℓ} → String → List (String × A) → Option A
find k [] = none
find k ((j, a) ∷ d) = if str_eq j k then some a else find k d

pub append_expr :
    String
    → Option Value
    → List (String × List (Option Value))
    → List (String × List (Option Value))
append_expr k e [] = (k, e ∷ []) ∷ []
append_expr k e ((j, es) ∷ d) =
    if str_eq j k then (j, es ++ e ∷ []) ∷ d else (j, es) ∷ append_expr k e d

add_table : Fields → Collected → Option Collected
add_table item c =
    if not (has_str (get_field "name" item) "ttp") || truthy (get_field "flags" item)
    then none
    else some (record c { tables = c.tables + 1 })

add_chain : Option String → Fields → Collected → Option Collected
add_chain none item c = none
add_chain (some name) item c =
    if is_some (find name c.chains)
    then none
    else some (record c { chains = c.chains ++ (name, item) ∷ [] })

add_rule : Option String → Fields → Collected → Option Collected
add_rule none item c = none
add_rule (some name) item c =
    some (record c { rules = append_expr name (get_field "expr" item) c.rules })

-- One object of the listing that is no `metainfo`; `none` is the early `return False`.
pub collect_item : String → Fields → Collected → Option Collected
collect_item kind item c =
    if not (has_str (get_field "family" item) "inet")
    then none
    else if str_eq kind "table"
    then add_table item c
    else if not (has_str (get_field "table" item) "ttp")
    then none
    else if str_eq kind "chain"
    then add_chain (as_str (get_field "name" item)) item c
    else if str_eq kind "rule"
    then add_rule (as_str (get_field "chain" item)) item c
    else if str_eq kind "counter"
    then some c
    else none

collect_entry : Value → Collected → Option Collected
collect_entry (obj (field kind (obj item) end)) c =
    if str_eq kind "metainfo" then some c else collect_item kind item c
collect_entry (obj (field kind _ end)) c = if str_eq kind "metainfo" then some c else none
collect_entry _ c = none

-- The loop over `payload["nftables"]`.
pub collect : Items → Collected → Option Collected
collect nil c = some c
collect (cons v vs) c = elim (collect_entry v c) [ none ↦ none | some c' ↦ collect vs c' ]

-- `chain["prio"]` is the integer 0, and no boolean.
abbrev is_zero : Option Value → Bool
is_zero (some (int (pos n))) = n == 0
is_zero _ = false

pub chain_fits : String → Option Fields → Bool
chain_fits hook none = false
chain_fits hook (some chain) =
    has_str (get_field "type" chain) "filter"
    && (has_str (get_field "hook" chain) hook
        && (has_str (get_field "policy" chain) "drop"
            && (is_zero (get_field "prio" chain)
                && (is_none (get_field "dev" chain)
                    && (is_none (get_field "device" chain)
                        && (is_none (get_field "devices" chain)
                            && not (truthy (get_field "flags" chain))))))))

-- `expr == _loopback_expression(direction)`: equality of dicts does not look at the order of keys,
-- and no key is twice in a dict.
abbrev three_fields : Fields → Bool
three_fields (field _ _ (field _ _ (field _ _ end))) = true
three_fields _ = false

abbrev is_meta : String → Option Value → Bool
is_meta direction (some (obj (field meta (obj (field key (str d) end)) end))) =
    str_eq meta "meta" && (str_eq key "key" && str_eq d direction)
is_meta direction _ = false

pub is_loopback_match : String → Fields → Bool
is_loopback_match direction m =
    three_fields m
    && (has_str (get_field "op" m) "=="
        && (is_meta direction (get_field "left" m) && has_str (get_field "right" m) "lo"))

pub is_loopback_expression : String → Option Value → Bool
is_loopback_expression direction
      (some (arr (cons (obj (field first (obj m) end)) (cons (obj (field second null end)) nil)))) =
    str_eq first "match" && (is_loopback_match direction m && str_eq second "accept")
is_loopback_expression direction _ = false

abbrev one_loopback : String → Option (List (Option Value)) → Bool
one_loopback direction (some (e ∷ [])) = is_loopback_expression direction e
one_loopback direction _ = false

pub rules_fit : List (String × List (Option Value)) → Bool
rules_fit rules =
    length rules == 2
    && (one_loopback "oifname" (find "filter_out" rules)
        && one_loopback "iifname" (find "filter_input" rules))

abbrev known_chains : List String
known_chains = "filter_out" ∷ "filter_forward" ∷ "filter_input" ∷ "output" ∷ "prerouting" ∷ []

pub collected_fits : Collected → Bool
collected_fits c =
    c.tables == 1
    && (all_of (λ chain. contains (chain.0) known_chains) c.chains
        && (chain_fits "output" (find "filter_out" c.chains)
            && (chain_fits "forward" (find "filter_forward" c.chains)
                && (chain_fits "input" (find "filter_input" c.chains) && rules_fit c.rules))))

abbrev pub nothing_collected : Collected
nothing_collected = record { tables = 0; chains = []; rules = [] }

abbrev pub fits : Option Collected → Bool
fits none = false
fits (some c) = collected_fits c

abbrev listing : Option Value → Bool
listing (some (arr items)) = fits (collect items nothing_collected)
listing _ = false

unfoldable pub matches_emergency_contract : Value → Bool
unfolding add_table add_chain add_rule collect_item collect_entry collect append_expr collected_fits
    chain_fits rules_fit find is_loopback_expression is_loopback_match get_field
matches_emergency_contract (obj payload) = listing (get_field "nftables" payload)
matches_emergency_contract _ = false
