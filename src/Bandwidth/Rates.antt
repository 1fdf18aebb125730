-- ===== src/Bandwidth/Rates.antt =====
-- The shaper rate, the quota and the burst (internal/bandwidth/bandwidth.go), and their bounds.
use openvpnd.Base.{
  ℕ, ◌+◌, ◌/◌, ◌^◌, ◌≤◌, ◌<◌, ◌≡◌, ◌↔◌, refl, Bool, true, false, List, [], ◌∷◌, All, arith, ltb,
  if◌then◌else◌, ◌==◌, ◌⊎◌, inl, inr, Bool-cases,
}
use openvpnd.Base.Int.{ℤ, pos, negsuc, pos_part, leb_ℤ, ltb_ℤ, ◌≤ℤ◌, wrap64}
use openvpnd.Bandwidth.Plan.{ClientLimit, burst_bytes}

-- The loop's maximum, which starts at 0.
max_bits : ℕ → List ClientLimit → ℕ
max_bits m [] = m
max_bits m (c ∷ cs) =
    let m1 = if ltb m (pos_part c.rx_bps) then pos_part c.rx_bps else m in
    let m2 = if ltb m1 (pos_part c.tx_bps) then pos_part c.tx_bps else m1 in max_bits m2 cs

-- Bytes per second for a number of bits, at least 1 when there is a limit.
abbrev to_bytes : ℕ → ℕ
to_bytes bits = if bits == 0 then 0 else if bits / 8 == 0 then 1 else bits / 8

-- `MaxShaperBytesPerSec`; the result is not negative.
unfoldable pub max_shaper_bytes_per_sec : List ClientLimit → ℕ
unfolding max_bits
max_shaper_bytes_per_sec cs = to_bytes (max_bits 0 cs)

-- `ShaperBytesPerSec`.
unfoldable pub shaper_bytes_per_sec : ℤ → ℤ → ℕ
shaper_bytes_per_sec rx tx =
    let m = if ltb_ℤ rx tx then tx else rx in if leb_ℤ m (pos 0) then 0 else to_bytes (pos_part m)

-- `ExceedsTrafficLimit`; the sum wraps as an int64.
unfoldable pub exceeds_traffic_limit : ℤ → ℤ → ℤ → Bool
exceeds_traffic_limit rx tx limit =
    if leb_ℤ limit (pos 0) then false else leb_ℤ limit (wrap64 (pos (pos_part rx + pos_part tx)))

-- A quota is exceeded exactly when it is positive and the sum of the counters, a negative one taken as
-- 0, has reached it, when that sum is an int64.
pub exceeds_traffic_limit_iff :
    (rx tx limit : ℤ)
    → pos_part rx + pos_part tx < 2 ^ 63
    → (exceeds_traffic_limit rx tx limit ≡ true)
      ↔ ((0 < pos_part limit) × (pos_part limit ≤ pos_part rx + pos_part tx))
unfolding exceeds_traffic_limit wrap64
exceeds_traffic_limit_iff rx tx (pos n) h = ground arith
exceeds_traffic_limit_iff rx tx (negsuc n) h = ground arith

-- The burst lies between 2048 and 524288 bytes, and grows with the rate.
pub burst_bytes_bounds :
    (a b : ℤ)
    → (2048 ≤ burst_bytes a) × (burst_bytes a ≤ 524288) × (a ≤ℤ b → burst_bytes a ≤ burst_bytes b)
unfolding burst_bytes
burst_bytes_bounds a b = (ground arith, ground arith, λ h. ground arith)

max_bits-grows : (m : ℕ) (cs : List ClientLimit) → m ≤ max_bits m cs
unfolding max_bits
max_bits-grows m [] = omega arith
max_bits-grows m (c ∷ cs) =
    let m1 = if ltb m (pos_part c.rx_bps) then pos_part c.rx_bps else m in
    let m2 = if ltb m1 (pos_part c.tx_bps) then pos_part c.tx_bps else m1 in
    let rest = max_bits-grows m2 cs in ground (arith, rest)

abbrev IsServed : ℕ → ClientLimit → Type 0
IsServed m c = (pos_part c.rx_bps ≤ m) × (pos_part c.tx_bps ≤ m)

max_bits-serves : (m : ℕ) (cs : List ClientLimit) → All (IsServed (max_bits m cs)) cs
unfolding max_bits
max_bits-serves m [] = tt
max_bits-serves m (c ∷ cs) =
    let m1 = if ltb m (pos_part c.rx_bps) then pos_part c.rx_bps else m in
    let m2 = if ltb m1 (pos_part c.tx_bps) then pos_part c.tx_bps else m1 in
    let low = max_bits-grows m2 cs in (ground (arith, low), max_bits-serves m2 cs)

-- A client with exactly these bits, in one direction.
abbrev IsPeak : ℕ → ClientLimit → Type 0
IsPeak m c =
    ((pos_part c.rx_bps ≡ m) × (pos_part c.tx_bps ≤ m))
    ⊎ ((pos_part c.tx_bps ≡ m) × (pos_part c.rx_bps ≤ m))

abbrev pub Some : (ClientLimit → Type 0) → List ClientLimit → Type 0
Some P [] = ⊥
Some P (c ∷ cs) = P c ⊎ Some P cs

max_bits-attained :
    (m : ℕ) (cs : List ClientLimit) → (max_bits m cs ≡ m) ⊎ Some (IsPeak (max_bits m cs)) cs
unfolding max_bits
max_bits-attained m [] = inl refl
max_bits-attained m (c ∷ cs) =
    let m1 = if ltb m (pos_part c.rx_bps) then pos_part c.rx_bps else m in
    let m2 = if ltb m1 (pos_part c.tx_bps) then pos_part c.tx_bps else m1 in
    elim (max_bits-attained m2 cs) [
      | inr later ↦ inr (inr later)
      | inl stays ↦ elim (Bool-cases (ltb m1 (pos_part c.tx_bps))) [
        | inl up ↦ inr (inl (inr (ground (arith, stays, up), ground (arith, stays, up))))
        | inr flat ↦ elim (Bool-cases (ltb m (pos_part c.rx_bps))) [
          | inl rise ↦
              inr (inl (inl (ground (arith, stays, flat, rise), ground (arith, stays, flat, rise))))
          | inr low ↦ inl (ground (arith, stays, flat, low))
        ]
      ]
    ]

shaper-IsServed :
    (m : ℕ) (c : ClientLimit) → IsServed m c → shaper_bytes_per_sec c.rx_bps c.tx_bps ≤ to_bytes m
unfolding shaper_bytes_per_sec
shaper-IsServed m c h = ground (arith, h)

All-served :
    (m : ℕ) (cs : List ClientLimit)
    → All (IsServed m) cs
    → All (λ (c : ClientLimit). shaper_bytes_per_sec c.rx_bps c.tx_bps ≤ to_bytes m) cs
All-served m [] h = tt
All-served m (c ∷ cs) h = (shaper-IsServed m c h.0, All-served m cs h.1)

shaper-IsPeak :
    (m : ℕ) (c : ClientLimit) → IsPeak m c → shaper_bytes_per_sec c.rx_bps c.tx_bps ≡ to_bytes m
unfolding shaper_bytes_per_sec
shaper-IsPeak m c (inl h) = ground (arith, h)
shaper-IsPeak m c (inr h) = ground (arith, h)

Some-peak :
    (m : ℕ) (cs : List ClientLimit)
    → Some (IsPeak m) cs
    → Some (λ (c : ClientLimit). shaper_bytes_per_sec c.rx_bps c.tx_bps ≡ to_bytes m) cs
Some-peak m [] h = h
Some-peak m (c ∷ cs) (inl h) = inl (shaper-IsPeak m c h)
Some-peak m (c ∷ cs) (inr h) = inr (Some-peak m cs h)

-- The rate for a list of clients is at least the rate of each of them alone, and it is 0 or the rate
-- of one of them.
pub max_shaper_is_maximum :
    (cs : List ClientLimit)
    → All
        (λ (c : ClientLimit). shaper_bytes_per_sec c.rx_bps c.tx_bps ≤ max_shaper_bytes_per_sec cs)
        cs
      × ((max_shaper_bytes_per_sec cs ≡ 0)
          ⊎ Some
              (λ (c : ClientLimit).
                shaper_bytes_per_sec c.rx_bps c.tx_bps ≡ max_shaper_bytes_per_sec cs)
              cs)
unfolding max_shaper_bytes_per_sec
max_shaper_is_maximum cs = (
  All-served (max_bits 0 cs) cs (max_bits-serves 0 cs),
  elim (max_bits-attained 0 cs) [
    | inl nothing ↦ inl (rw nothing refl)
    | inr peak ↦ inr (Some-peak (max_bits 0 cs) cs peak)
  ],
)
