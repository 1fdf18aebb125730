-- ===== src/Policy.antt =====
-- Auto-suspension and the caps of a client (internal/policy/policy.go), with the counters that a client
-- shows (internal/db/models.go). A time is a number of nanoseconds, `none` for the zero time.
use openvpnd.Base.{
  ◌+◌, ◌^◌, ◌≤◌, ◌<◌, ◌≡◌, ◌↔◌, refl, Bool, true, false, ◌&&◌, Option, none, some, arith,
  if◌then◌else◌,
}
use openvpnd.Base.Int.{ℤ, pos, pos_part, ◌-ℤ◌, ltb_ℤ, ◌<ℤ◌, wrap64}
use openvpnd.Models.{Client}
use openvpnd.Bandwidth.Rates.{exceeds_traffic_limit, exceeds_traffic_limit_iff}

-- `EffectiveRx` and `EffectiveTx`.
unfoldable pub since_offset : ℤ → ℤ → ℤ
since_offset last offset = let v = wrap64 (last -ℤ offset) in if ltb_ℤ v (pos 0) then pos 0 else v

unfoldable pub effective_rx : Client → ℤ
unfolding since_offset
effective_rx c = since_offset c.last_rx_bytes c.rx_bytes_offset

unfoldable pub effective_tx : Client → ℤ
unfolding since_offset
effective_tx c = since_offset c.last_tx_bytes c.tx_bytes_offset

pub data Reason : Type 0 where
  expired : Reason
  traffic_limit : Reason

unfoldable pub has_expired : Option ℤ → ℤ → Bool
has_expired none now = false
has_expired (some t) now = ltb_ℤ t now

abbrev is_over : Client → Bool
is_over c =
    ltb_ℤ (pos 0) c.traffic_limit_bytes
    && exceeds_traffic_limit (effective_rx c) (effective_tx c) c.traffic_limit_bytes

-- The early returns, in their order, on whether the client is suspended, has expired, and is over its quota.
reason : Bool → Bool → Bool → Option Reason
reason suspended past over =
    if suspended
    then none
    else if past
    then some Reason.expired
    else if over
    then some Reason.traffic_limit
    else none

-- `ShouldAutoSuspend`: the reason, or `none` for false.
unfoldable pub should_auto_suspend : Client → ℤ → Option Reason
unfolding reason has_expired
should_auto_suspend c now = reason c.suspended (has_expired c.expires_at now) (is_over c)

-- `EffectiveBandwidth`.
unfoldable pub effective_bandwidth : ℤ → ℤ → ℤ → ℤ × ℤ
effective_bandwidth rx tx total = if ltb_ℤ (pos 0) total then (total, total) else (rx, tx)

abbrev pub IsPast : Option ℤ → ℤ → Type 0
IsPast none now = ⊥
IsPast (some t) now = t <ℤ now

-- The quota is positive and the shown counters have reached it.
abbrev pub IsOverQuota : Client → Type 0
IsOverQuota c =
    (0 < pos_part c.traffic_limit_bytes)
    × (pos_part c.traffic_limit_bytes ≤ pos_part (effective_rx c) + pos_part (effective_tx c))

has_expired_iff : (o : Option ℤ) (now : ℤ) → (has_expired o now ≡ true) ↔ IsPast o now
unfolding has_expired
has_expired_iff none now = (λ h. cc, λ h. absurd h)
has_expired_iff (some t) now = ground arith

reason_iff :
    (s p o : Bool)
    → ((reason s p o ≡ some Reason.expired) ↔ ((s ≡ false) × (p ≡ true)))
      × ((reason s p o ≡ some Reason.traffic_limit) ↔ ((s ≡ false) × (p ≡ false) × (o ≡ true)))
unfolding reason
reason_iff true p o = ((λ k. cc, λ k. cc (k.0)), (λ k. cc, λ k. cc (k.0)))
reason_iff false true o = ((λ k. (refl, refl), λ k. refl), (λ k. cc, λ k. cc (k.1)))
reason_iff false false true = ((λ k. cc, λ k. cc (k.1)), (λ k. (refl, refl, refl), λ k. refl))
reason_iff false false false = ((λ k. cc, λ k. cc (k.1)), (λ k. cc, λ k. cc (k.2)))

is_over_iff :
    (c : Client)
    → pos_part (effective_rx c) + pos_part (effective_tx c) < 2 ^ 63
    → (is_over c ≡ true) ↔ IsOverQuota c
is_over_iff c h =
    let quota =
      exceeds_traffic_limit_iff (effective_rx c) (effective_tx c) c.traffic_limit_bytes h in
    ground (arith, quota)

-- A client is suspended for its expiry exactly when it is not suspended yet and the time it expires at has
-- passed, and for its traffic exactly when it is not suspended yet, has not expired, and has a positive
-- quota that its shown counters have reached, when their sum is an int64.
pub should_auto_suspend_reasons :
    (c : Client) (now : ℤ)
    → pos_part (effective_rx c) + pos_part (effective_tx c) < 2 ^ 63
    → ((should_auto_suspend c now ≡ some Reason.expired)
        ↔ ((c.suspended ≡ false) × IsPast c.expires_at now))
      × ((should_auto_suspend c now ≡ some Reason.traffic_limit)
          ↔ ((c.suspended ≡ false) × (has_expired c.expires_at now ≡ false) × IsOverQuota c))
unfolding should_auto_suspend
should_auto_suspend_reasons c now h =
    let past = has_expired_iff c.expires_at now in
    let over = is_over_iff c h in
    let why = reason_iff c.suspended (has_expired c.expires_at now) (is_over c) in
    (
      (λ k. let r = why.0.0 k in (r.0, past.0 r.1), λ k. why.0.1 (k.0, past.1 k.1)),
      (λ k. let r = why.1.0 k in (r.0, r.1, over.0 r.2), λ k. why.1.1 (k.0, k.1, over.1 k.2)),
    )
