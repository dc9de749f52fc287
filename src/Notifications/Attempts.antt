-- ===== src/Notifications/Attempts.antt =====
-- ttp/notifications/delivery.py, the loop of `deliver`: the attempts, their number and their times.
use transparent_tor_proxy.Base.{
  ℕ, zero, suc, ◌+◌, ◌≤◌, ◌<◌, ◌≡◌, refl, sym, ◌∙◌, Bool, true, false, Option, none, some, List, [],
  ◌∷◌, arith, leb, length, All, any_of,
}
use transparent_tor_proxy.Base.Json.{Value}
use transparent_tor_proxy.Notifications.{
  Event, Reply, timed_out, unconfirmed_call, invalid, identified, Limits, Outside, Attempt, Tries,
  after_reply, deadline, attempt_at, attempt, no_tries,
}

-- An end that does not show whether the server took the call.
abbrev pub is_ambiguous : Attempt → Bool
is_ambiguous a = elim a.reply [ timed_out ↦ true | unconfirmed_call ↦ true | _ ↦ false ]

-- The call is within its own limit, and ends before the delivery's deadline.
abbrev pub InTime : Limits → Outside → Attempt → Type 0
InTime limits o a =
    (a.timeout ≤ limits.call_timeout) × (a.at + a.timeout ≤ o.start + limits.delivery_timeout)

abbrev pub IsUnidentified : Attempt → Type 0
IsUnidentified a = (n : ℕ) → a.reply ≡ identified n → ⊥

-- The identifier is the last attempt's, and no attempt before had one.
abbrev pub IsLast : Option (ℕ × ℕ) → List Attempt → Type 0
IsLast none log = All IsUnidentified log
IsLast (some (n, count)) [] = ⊥
IsLast (some (n, count)) (a ∷ log) =
    (a.reply ≡ identified n) × (count ≡ suc (length log)) × All IsUnidentified log

module _ (loads : List ℕ → Option Value) (limits : Limits) (o : Outside) (e : Event) (id : ℕ) where
  -- An attempt of this delivery, within its times.
  abbrev pub IsMade : Attempt → Type 0
  IsMade a = InTime limits o a × (i : ℕ) × (a ≡ attempt_at loads limits o e id i)

  abbrev pub Sound : ℕ → Tries → Type 0
  Sound bound t =
      (t.ambiguous ≡ any_of is_ambiguous t.log)
      × All IsMade t.log
      × IsLast t.accepted t.log
      × (length t.log ≤ bound)

  in_time :
      (i : ℕ)
      → leb (deadline loads limits o e id) (o.now i) ≡ false
      → IsMade (attempt_at loads limits o e id i)
  in_time i h = ((omega arith, ground (arith, h)), i, refl)

  choose-Sound :
      (bound : ℕ) (r : Reply) (stop : ℕ → Tries) (rest : Tries)
      → ((n : ℕ) → r ≡ identified n → Sound bound (stop n))
      → (((n : ℕ) → r ≡ identified n → ⊥) → Sound bound rest)
      → Sound bound (elim r [ identified n ↦ stop n | _ ↦ rest ])
  choose-Sound bound (identified n) stop rest h k = h n refl
  choose-Sound bound timed_out stop rest h k = k (λ n p. ground (arith, p))
  choose-Sound bound unconfirmed_call stop rest h k = k (λ n p. ground (arith, p))
  choose-Sound bound invalid stop rest h k = k (λ n p. ground (arith, p))

  last-fresh :
      (o' : Option (ℕ × ℕ)) (log : List Attempt)
      → o' ≡ none
      → IsLast o' log
      → All IsUnidentified log
  last-fresh none log p h = h
  last-fresh (some (n, count)) log p h = absurd (ground (arith, p))

  stop-Sound :
      (i bound n : ℕ) (a : Attempt) (t : Tries)
      → a.reply ≡ identified n
      → IsMade a
      → t.accepted ≡ none
      → i ≡ length t.log
      → i < bound
      → Sound bound t
      → Sound bound (after_reply i a t (identified n))
  stop-Sound i bound n a t answered timely fresh counted room sound = (
    rw answered sound.0,
    (timely, sound.1),
    (answered, omega arith, last-fresh t.accepted t.log fresh sound.2),
    omega arith,
  )

  continue-Sound :
      (i bound : ℕ) (a : Attempt) (t : Tries) (r : Reply)
      → a.reply ≡ r
      → ((n : ℕ) → r ≡ identified n → ⊥)
      → IsMade a
      → t.accepted ≡ none
      → i ≡ length t.log
      → i < bound
      → Sound bound t
      → Sound bound (after_reply i a t r)
        × ((after_reply i a t r).accepted ≡ none)
        × (i + 1 ≡ length (after_reply i a t r).log)
  continue-Sound i bound a t (identified n) answered not_one timely fresh counted room sound =
      absurd (not_one n refl)
  continue-Sound i bound a t timed_out answered not_one timely fresh counted room sound = (
    (
      rw answered refl,
      (timely, sound.1),
      (λ n p. not_one n (sym answered ∙ p), last-fresh t.accepted t.log fresh sound.2),
      omega arith,
    ),
    refl,
    omega arith,
  )
  continue-Sound i bound a t unconfirmed_call answered not_one timely fresh counted room sound = (
    (
      rw answered refl,
      (timely, sound.1),
      (λ n p. not_one n (sym answered ∙ p), last-fresh t.accepted t.log fresh sound.2),
      omega arith,
    ),
    refl,
    omega arith,
  )
  continue-Sound i bound a t invalid answered not_one timely fresh counted room sound = (
    (
      rw answered sound.0,
      (timely, sound.1),
      (λ n p. not_one n (sym answered ∙ p), last-fresh t.accepted t.log fresh sound.2),
      omega arith,
    ),
    refl,
    omega arith,
  )

  early-Sound :
      (bound : ℕ) (late : Bool) (t rest : Tries)
      → Sound bound t
      → (late ≡ false → Sound bound rest)
      → Sound bound (elim late [ true ↦ t | false ↦ rest ])
  early-Sound bound true t rest h k = h
  early-Sound bound false t rest h k = k refl

  attempt-Sound :
      (left i bound : ℕ) (t : Tries)
      → t.accepted ≡ none
      → i ≡ length t.log
      → i + left ≤ bound
      → Sound bound t
      → Sound bound (attempt loads limits o e id left i t)
  unfolding attempt
  attempt-Sound zero i bound t fresh counted room sound = sound
  attempt-Sound (suc left) i bound t fresh counted room sound =
      let a : Attempt = attempt_at loads limits o e id i in
      let rest : Tries = attempt loads limits o e id left (i + 1) (after_reply i a t a.reply) in
      early-Sound bound (leb (deadline loads limits o e id) (o.now i)) t
        (elim a.reply [ identified n ↦ after_reply i a t (identified n) | _ ↦ rest ]) sound
        λ early.
          choose-Sound bound a.reply (λ n. after_reply i a t (identified n)) rest
            (λ n answered.
              stop-Sound i bound n a t answered (in_time i early) fresh counted (omega arith) sound)
            (λ not_one.
              let on =
                continue-Sound i bound a t a.reply refl not_one (in_time i early) fresh counted
                  (omega arith) sound in
              attempt-Sound left (i + 1) bound (after_reply i a t a.reply) on.1 on.2 (omega arith)
                on.0)

  abbrev pub tries : Tries
  tries = attempt loads limits o e id limits.attempts 0 no_tries

  pub tries-Sound : Sound limits.attempts tries
  tries-Sound =
      attempt-Sound limits.attempts 0 limits.attempts no_tries refl refl (omega arith)
        (refl, tt, tt, omega arith)
