-- ===== src/Notifications/Accounted.antt =====
-- ttp/notifications/delivery.py, `deliver`: what a receipt says of the attempts, and their number and
-- time.
use transparent_tor_proxy.Base.{
  ℕ, ◌≤◌, ◌<◌, ◌≡◌, refl, ap, sym, ◌∙◌, ◌⊎◌, inl, inr, Bool, true, false, ◌&&◌, String, str_eq,
  Option, none, some, List, [], ◌∷◌, arith, length, All, any_of, if◌then◌else◌, Bool-cases,
  Option-cases,
}
use transparent_tor_proxy.Base.Dict.{lookup}
use transparent_tor_proxy.Base.Json.{Value}
use transparent_tor_proxy.Notifications.{
  Event, events, identified, Limits, Outside, Attempt, Tries, accepted, unconfirmed, failed,
  Receipt, Delivery, Delivered, Outcome, conclude, repeated, deliver, delivered, is_accepted,
}
use transparent_tor_proxy.Notifications.Attempts.{
  is_ambiguous, IsUnidentified, IsLast, IsMade, tries, tries-Sound,
}
use transparent_tor_proxy.Notifications.Range.{reply_of-range}

-- The server's identifier for the last attempt, kept for the next delivery.
abbrev pub IsIdentified : Delivered → Type 0
IsIdentified out =
    (n count : ℕ) × (0 < n)
    × (n < 4294967296)
    × (out.receipt.notification_id ≡ some n)
    × (out.receipt.attempts ≡ some count)
    × (out.delivery.notification_id ≡ n)
    × IsLast (some (n, count)) out.log

-- No attempt, and the last receipt, which is this event's and accepted, with a mark that it is repeated.
abbrev pub IsRepeated : String → Delivery → Delivered → Type 0
IsRepeated name d out =
    (out.log ≡ [])
    × (d.last_event ≡ some name)
    × (out.delivery ≡ d)
    × ((last : Receipt) × (d.last_receipt ≡ some last)
        × (last.state ≡ accepted)
        × (out.receipt ≡ record last { deduplicated = true }))

-- What the state of a receipt says.
abbrev pub Explains : String → Delivery → Delivered → Outcome → Type 0
Explains name d out accepted = IsRepeated name d out ⊎ IsIdentified out
Explains name d out unconfirmed = (any_of is_ambiguous out.log ≡ true) × All IsUnidentified out.log
Explains name d out failed = (any_of is_ambiguous out.log ≡ false) × All IsUnidentified out.log

abbrev state_of : Bool → Outcome
state_of b = if b then unconfirmed else failed

module _ (loads : List ℕ → Option Value) (limits : Limits) (o : Outside) (name : String) where
  made-range :
      (e : Event) (id n : ℕ) (a : Attempt)
      → IsMade loads limits o e id a
      → a.reply ≡ identified n
      → (0 < n) × (n < 4294967296)
  made-range e id n a (timely, i, same) h =
      reply_of-range loads (o.run i) n (ap (λ (x : Attempt). x.reply) (sym same) ∙ h)

  accepted-IsIdentified :
      (e : Event) (id n count : ℕ) (log : List Attempt)
      → All (IsMade loads limits o e id) log
      → IsLast (some (n, count)) log
      → (0 < n) × (n < 4294967296)
  accepted-IsIdentified e id n count [] made h = elim h [ ]
  accepted-IsIdentified e id n count (a ∷ log) (made, rest) (answered, _, _) =
      made-range e id n a made answered

  explain-failure :
      (b : Bool) (d : Delivery) (out : Delivered)
      → b ≡ any_of is_ambiguous out.log
      → All IsUnidentified out.log
      → Explains name d out (state_of b)
  explain-failure true d out h k = (sym h, k)
  explain-failure false d out h k = (sym h, k)

  conclude-Explains :
      (e : Event) (d : Delivery) (t : Tries) (found : Option (ℕ × ℕ))
      → t.ambiguous ≡ any_of is_ambiguous t.log
      → All (IsMade loads limits o e d.notification_id) t.log
      → IsLast found t.log
      → Explains name d
          (conclude name o.end_time d t found)
          (conclude name o.end_time d t found).receipt.state
        × ((conclude name o.end_time d t found).log ≡ t.log)
  conclude-Explains e d t none ambiguous made last =
      (explain-failure t.ambiguous d (conclude name o.end_time d t none) ambiguous last, refl)
  conclude-Explains e d t (some (n, count)) ambiguous made last =
      let range = accepted-IsIdentified e d.notification_id n count t.log made last in
      (inr (n, count, range.0, range.1, refl, refl, refl, last), refl)

  -- The attempts of a delivery, at most so many as the settings allow, and its receipt.
  abbrev pub IsAccounted : Event → Delivery → Delivered → Type 0
  IsAccounted e d out =
      (length out.log ≤ limits.attempts)
      × All (IsMade loads limits o e d.notification_id) out.log
      × Explains name d out out.receipt.state

  is_accepted-eq : (x : Outcome) → is_accepted x ≡ true → x ≡ accepted
  is_accepted-eq x h = ground (arith, h)

  repeated-accepted :
      (last : Option String) (receipt : Option Receipt) (r : Receipt)
      → repeated name last receipt ≡ some r
      → (last ≡ some name) × (receipt ≡ some r) × (r.state ≡ accepted)
  repeated-accepted none receipt r h = absurd (ground (arith, h))
  repeated-accepted (some last) none r h = absurd (ground (arith, h))
  repeated-accepted (some last) (some q) r h =
      elim (Bool-cases (str_eq name last && is_accepted q.state)) [
        | inl e ↦
            let same : q ≡ r = ground (arith, h, e) in
            (
              ground (arith, e),
              ap some same,
              ap (λ (x : Receipt). x.state) (sym same) ∙ is_accepted-eq q.state (ground (arith, e)),
            )
        | inr e ↦ absurd (ground (arith, h, e))
      ]

  delivered-IsAccounted :
      (e : Event) (d : Delivery) (again : Option Receipt)
      → repeated name d.last_event d.last_receipt ≡ again
      → IsAccounted e d (delivered loads limits o name d e again)
  delivered-IsAccounted e d (some r) h =
      let was = repeated-accepted d.last_event d.last_receipt r h in
      (omega arith, tt, rw was.2 (inl (refl, was.0, refl, (r, was.1, was.2, refl))))
  delivered-IsAccounted e d none h =
      let t : Tries = tries loads limits o e d.notification_id in
      let sound = tries-Sound loads limits o e d.notification_id in
      let told = conclude-Explains e d t t.accepted sound.0 sound.1 sound.2 in
      (rw told.1 sound.3, rw told.1 sound.1, told.0)

  -- A delivery makes at most so many calls as the settings allow, each within the call's limit and so that
  -- it ends by the delivery's deadline. Its receipt is "accepted" only with an identifier that the server
  -- gave in the last call, from 1 up to 2^32 - 1, which is kept and counted right, or, without a call, as
  -- the last receipt marked as repeated, if that was the same event's and accepted. It is "failed" only if no call ended by a
  -- timeout or a nonzero status, and "unconfirmed" only if one did; in both no call gave an identifier.
  pub deliver-IsAccounted :
      (d : Delivery) (out : Delivered)
      → deliver loads limits o name d ≡ some out
      → (e : Event) × (lookup name events ≡ some e) × IsAccounted e d out
  unfolding deliver
  deliver-IsAccounted d out h = elim (Option-cases (lookup name events)) [
    | inl none_such ↦ absurd (ground (arith, h, none_such))
    | inr (e, known) ↦
        let same : delivered loads limits o name d e (repeated name d.last_event d.last_receipt)
            ≡ out =
          ground (arith, h, known) in
        (e, known, rw (← same) (delivered-IsAccounted e d _ refl))
  ]
