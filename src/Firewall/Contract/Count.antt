-- ===== src/Firewall/Contract/Count.antt =====
-- The contract bounds the number of rules: none can be added to a listing that meets it.
use transparent_tor_proxy.Base.{
  ℕ, ◌+◌, ◌≡◌, ◌≢◌, str_ne, string_discrete, refl, true, String, Option, none, some, List, [], ◌∷◌,
  arith, str_eq, length, length-append, Option-cases, if◌then◌else◌, inl, inr,
}
use transparent_tor_proxy.Base.Json.{
  Value, obj, arr, Items, nil, cons, Fields, end, field, get_field, as_str,
}
use transparent_tor_proxy.Firewall.Contract.{
  Collected, append_expr, add_rule, add_table, add_chain, collect_item, collect_entry, collect,
  find, rules_fit, collected_fits, nothing_collected, fits, matches_emergency_contract,
}

abbrev total : List (String × List (Option Value)) → ℕ
total [] = 0
total ((_, es) ∷ d) = length es + total d

-- How many objects of the listing are rules.
abbrev rule_weight : Value → ℕ
rule_weight (obj (field kind _ end)) = if str_eq kind "rule" then 1 else 0
rule_weight _ = 0

abbrev pub rules_in : Items → ℕ
rules_in nil = 0
rules_in (cons v vs) = rule_weight v + rules_in vs

total-append_expr :
    (k : String) (e : Option Value) (d : List (String × List (Option Value)))
    → total (append_expr k e d) ≡ total d + 1
unfolding append_expr
total-append_expr k e [] = omega arith
total-append_expr k e ((j, es) ∷ d) =
    ground (arith, total-append_expr k e d, length-append es (e ∷ []))

total-add_rule :
    (name : Option String) (item : Fields) (c c' : Collected)
    → add_rule name item c ≡ some c'
    → total c'.rules ≡ total c.rules + 1
unfolding add_rule
total-add_rule none item c c' h = cc
total-add_rule (some name) item c c' h =
    ground (arith, total-append_expr name (get_field "expr" item) c.rules)

rules-add_table :
    (item : Fields) (c c' : Collected) → add_table item c ≡ some c' → c'.rules ≡ c.rules
unfolding add_table
rules-add_table item c c' h = ground arith

rules-add_chain :
    (name : Option String) (item : Fields) (c c' : Collected)
    → add_chain name item c ≡ some c'
    → c'.rules ≡ c.rules
unfolding add_chain
rules-add_chain none item c c' h = cc
rules-add_chain (some name) item c c' h = ground arith

abbrev Differ : String → String → Type 0
Differ s t = s ≢ t

kinds-Differ :
    Differ "table" "rule"
    × Differ "chain" "rule"
    × Differ "counter" "rule"
    × Differ "metainfo" "rule"
    × Differ "filter_out" "filter_input"
unfolding string_discrete
kinds-Differ = (
  str_ne "table" "rule" refl,
  str_ne "chain" "rule" refl,
  str_ne "counter" "rule" refl,
  str_ne "metainfo" "rule" refl,
  str_ne "filter_out" "filter_input" refl,
)

total-collect_item :
    (kind : String) (item : Fields) (c c' : Collected)
    → collect_item kind item c ≡ some c'
    → total c'.rules ≡ (if str_eq kind "rule" then 1 else 0) + total c.rules
unfolding collect_item
total-collect_item kind item c c' h = ground (
  arith,
  kinds-Differ,
  rules-add_table item c c',
  rules-add_chain (as_str (get_field "name" item)) item c c',
  total-add_rule (as_str (get_field "chain" item)) item c c',
)

total-collect_entry :
    (v : Value) (c c' : Collected)
    → collect_entry v c ≡ some c'
    → total c'.rules ≡ rule_weight v + total c.rules
unfolding collect_entry
total-collect_entry (obj (field kind (obj item) end)) c c' h =
    ground (arith, kinds-Differ, total-collect_item kind item c c')
total-collect_entry (obj (field kind _ end)) c c' h = ground (arith, kinds-Differ)
total-collect_entry (obj end) c c' h = cc
total-collect_entry (obj (field _ _ (field _ _ _))) c c' h = cc
total-collect_entry _ c c' h = cc

total-collect :
    (vs : Items) (c c' : Collected)
    → collect vs c ≡ some c'
    → total c'.rules ≡ rules_in vs + total c.rules
unfolding collect
total-collect nil c c' h = ground arith
total-collect (cons v vs) c c' h = elim (Option-cases (collect_entry v c)) [
  | inl e ↦ ground arith
  | inr (d, e) ↦
      omega (arith, total-collect_entry v c d e, total-collect vs d c' (rw (e, collect) at h))
]

total-rules_fit : (d : List (String × List (Option Value))) → rules_fit d ≡ true → total d ≡ 2
unfolding rules_fit find
total-rules_fit [] h = cc
total-rules_fit ((a, es) ∷ []) h = ground arith
total-rules_fit ((a, es) ∷ (b, fs) ∷ []) h = ground (arith, kinds-Differ)
total-rules_fit (_ ∷ _ ∷ _ ∷ _) h = ground arith

abbrev pub join : Items → Items → Items
join nil ys = ys
join (cons x xs) ys = cons x (join xs ys)

-- What nft prints: an object whose one field lists the table's parts.
abbrev pub printed : Items → Value
printed items = obj (field "nftables" (arr items) end)

abbrev pub rule_entry : Value → Value
rule_entry item = obj (field "rule" item end)

collected_fits-two : (c : Collected) → collected_fits c ≡ true → total c.rules ≡ 2
unfolding collected_fits
collected_fits-two c h = ground (arith, total-rules_fit c.rules)

matches-printed :
    (items : Items)
    → matches_emergency_contract (printed items) ≡ fits (collect items nothing_collected)
unfolding matches_emergency_contract string_discrete
matches-printed items = refl

fits-two : (items : Items) → fits (collect items nothing_collected) ≡ true → rules_in items ≡ 2
fits-two items h = elim (Option-cases (collect items nothing_collected)) [
  | inl e ↦ ground arith
  | inr (c, e) ↦
      omega (arith, total-collect items nothing_collected c e, collected_fits-two c (rw e at h))
]

-- A listing that meets the contract has exactly the two rules.
matches-two :
    (items : Items) → matches_emergency_contract (printed items) ≡ true → rules_in items ≡ 2
matches-two items h = fits-two items (rw matches-printed at h)

rules_in-join : (xs ys : Items) → rules_in (join xs ys) ≡ rules_in xs + rules_in ys
rules_in-join nil ys = omega arith
rules_in-join (cons x xs) ys = omega (arith, rules_in-join xs ys)

rule_weight-rule_entry : (item : Value) → rule_weight (rule_entry item) ≡ 1
unfolding string_discrete
rule_weight-rule_entry item = refl

-- Tampering shows: if a listing meets the emergency contract, then the same listing with one rule
-- more, of whatever content and at whatever place, does not; nor does it with a rule left out.
pub matches-rule_entry :
    (xs ys : Items) (item : Value)
    → ¬ (
        (matches_emergency_contract (printed (join xs ys)) ≡ true)
        × (matches_emergency_contract (printed (join xs (cons (rule_entry item) ys))) ≡ true))
matches-rule_entry xs ys item (h, h') = omega (
  arith,
  matches-two _ h,
  matches-two _ h',
  rules_in-join xs ys,
  rules_in-join xs (cons (rule_entry item) ys),
  rule_weight-rule_entry item,
)
