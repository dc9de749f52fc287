-- ===== src/Notifications/Range.antt =====
-- ttp/notifications/delivery.py: the identifiers that a reply can give.
use transparent_tor_proxy.Base.{
  ℕ, ◌<◌, ◌≡◌, inl, inr, Bool, true, false, Option, none, some, List, arith, ltb, length,
  if◌then◌else◌, Bool-cases,
}
use transparent_tor_proxy.Base.Int.{ℤ, pos, negsuc}
use transparent_tor_proxy.Base.Json.{Value, get_field, Items, nil, cons, obj, int, arr}
use transparent_tor_proxy.Notifications.{
  Run, expired, nonzero, not_run, printed, Reply, invalid, identified, reply_of, identifier_of,
  single, numbered, of_loaded, is_unsigned,
}

identifier-range : (k : ℤ) (n : ℕ) → identifier_of k ≡ identified n → (0 < n) × (n < 4294967296)
identifier-range (pos m) n h = ground (arith, h)
identifier-range (negsuc m) n h = absurd (ground (arith, h))

single-range : (items : Items) (n : ℕ) → single items ≡ identified n → (0 < n) × (n < 4294967296)
single-range (cons (int k) nil) n h = identifier-range k n h
single-range (cons (int k) (cons v items)) n h = absurd (ground (arith, h))
single-range nil n h = absurd (ground (arith, h))
single-range (cons Value.null items) n h = absurd (ground (arith, h))
single-range (cons (Value.bool b) items) n h = absurd (ground (arith, h))
single-range (cons (Value.float t) items) n h = absurd (ground (arith, h))
single-range (cons (Value.str t) items) n h = absurd (ground (arith, h))
single-range (cons (Value.obj fs) items) n h = absurd (ground (arith, h))
single-range (cons (Value.arr more) items) n h = absurd (ground (arith, h))

numbered-range : (o : Option Value) (n : ℕ) → numbered o ≡ identified n → (0 < n) × (n < 4294967296)
numbered-range none n h = absurd (ground (arith, h))
numbered-range (some (arr items)) n h = single-range items n h
numbered-range (some Value.null) n h = absurd (ground (arith, h))
numbered-range (some (Value.bool b)) n h = absurd (ground (arith, h))
numbered-range (some (Value.int b)) n h = absurd (ground (arith, h))
numbered-range (some (Value.float t)) n h = absurd (ground (arith, h))
numbered-range (some (Value.str t)) n h = absurd (ground (arith, h))
numbered-range (some (Value.obj fs)) n h = absurd (ground (arith, h))

if-range :
    (b : Bool) (r : Reply) (n : ℕ)
    → ((r ≡ identified n) → (0 < n) × (n < 4294967296))
    → (if b then r else invalid) ≡ identified n
    → (0 < n) × (n < 4294967296)
if-range true r n k h = k h
if-range false r n k h = absurd (ground (arith, h))

loaded-range : (o : Option Value) (n : ℕ) → of_loaded o ≡ identified n → (0 < n) × (n < 4294967296)
loaded-range none n h = absurd (ground (arith, h))
loaded-range (some (obj fs)) n h =
    if-range (is_unsigned (get_field "type" fs)) (numbered (get_field "data" fs)) n
      (numbered-range (get_field "data" fs) n) h
loaded-range (some Value.null) n h = absurd (ground (arith, h))
loaded-range (some (Value.bool b)) n h = absurd (ground (arith, h))
loaded-range (some (Value.int b)) n h = absurd (ground (arith, h))
loaded-range (some (Value.float t)) n h = absurd (ground (arith, h))
loaded-range (some (Value.str t)) n h = absurd (ground (arith, h))
loaded-range (some (Value.arr fs)) n h = absurd (ground (arith, h))

pub reply_of-range :
    (loads : List ℕ → Option Value) (run : Run) (n : ℕ)
    → reply_of loads run ≡ identified n
    → (0 < n) × (n < 4294967296)
unfolding reply_of
reply_of-range loads expired n h = absurd (ground (arith, h))
reply_of-range loads nonzero n h = absurd (ground (arith, h))
reply_of-range loads not_run n h = absurd (ground (arith, h))
reply_of-range loads (printed text) n h = elim (Bool-cases (ltb 4096 (length text))) [
  | inl e ↦ absurd (ground (arith, h, e))
  | inr e ↦ loaded-range (loads text) n (rw e at h)
]
