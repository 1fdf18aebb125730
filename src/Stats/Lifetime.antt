-- ===== src/Stats/Lifetime.antt =====
-- `AccumulateLifetime` (internal/stats/accumulate.go), and a run of it over the samples of a process.
use Prim.Native.Nat.{max}
use native.Mathlib.Nat.{add_assoc}
use openvpnd.Base.{
  ℕ, ◌+◌, ◌-◌, ◌^◌, ◌<◌, ◌≡◌, ◌∙◌, ap, Bool, true, false, Option, none, some, List, [], ◌∷◌, arith,
  leb, if◌then◌else◌,
}
use openvpnd.Base.Int.{ℤ, pos, ◌+ℤ◌, ◌-ℤ◌, ◌≤ℤ◌, leb_ℤ, wrap64, wrap64_fits}

-- The arithmetic is that of int64.
unfoldable pub accumulate_lifetime : ℤ → ℤ → ℤ → Bool → ℤ
accumulate_lifetime lifetime raw prev_raw true =
    if leb_ℤ prev_raw raw
    then wrap64 (lifetime +ℤ wrap64 (raw -ℤ prev_raw))
    else wrap64 (lifetime +ℤ raw)
accumulate_lifetime lifetime raw prev_raw false = if leb_ℤ lifetime raw then raw else lifetime

-- The traffic between two samples of a counter that starts again from 0.
abbrev pub traffic : ℕ → ℕ → ℕ
traffic prev raw = if leb prev raw then raw - prev else raw

wrap64_pos : (n : ℕ) → n < 2 ^ 63 → wrap64 (pos n) ≡ pos n
wrap64_pos n h = wrap64_fits (pos n) h

-- With a previous sample the total grows by exactly the traffic since it.
pub accumulate_lifetime-traffic :
    (lifetime raw prev : ℕ)
    → lifetime + raw < 2 ^ 63
    → accumulate_lifetime (pos lifetime) (pos raw) (pos prev) true
      ≡ pos (lifetime + traffic prev raw)
unfolding accumulate_lifetime ◌+ℤ◌ ◌-ℤ◌
accumulate_lifetime-traffic lifetime raw prev h = ground (
  arith,
  wrap64_pos (raw - prev),
  wrap64_pos (lifetime + raw),
  wrap64_pos (lifetime + (raw - prev)),
)

-- Whatever the previous sample, the total never drops while the sum fits int64.
pub accumulate_lifetime-monotone :
    (lifetime raw prev : ℕ) (has_prev : Bool)
    → lifetime + raw < 2 ^ 63
    → (pos lifetime ≤ℤ accumulate_lifetime (pos lifetime) (pos raw) (pos prev) has_prev)
      × (accumulate_lifetime (pos lifetime) (pos raw) (pos prev) has_prev ≤ℤ pos (lifetime + raw))
accumulate_lifetime-monotone lifetime raw prev true h =
    rw (accumulate_lifetime-traffic lifetime raw prev h) (ground arith)
accumulate_lifetime-monotone lifetime raw prev false h = unfold accumulate_lifetime in ground arith

-- The samples of one process, the first without a previous one, as the reconciler takes them.
unfoldable pub run_samples : ℤ → Option ℤ → List ℤ → ℤ
run_samples lifetime prev [] = lifetime
run_samples lifetime none (raw ∷ rest) =
    run_samples (accumulate_lifetime lifetime raw (pos 0) false) (some raw) rest
run_samples lifetime (some prev) (raw ∷ rest) =
    run_samples (accumulate_lifetime lifetime raw prev true) (some raw) rest

-- The traffic of a whole run.
unfoldable pub total_traffic : ℕ → List ℕ → ℕ
total_traffic prev [] = 0
total_traffic prev (raw ∷ rest) = traffic prev raw + total_traffic raw rest

abbrev pub sum : List ℕ → ℕ
sum [] = 0
sum (n ∷ ns) = n + sum ns

abbrev pub samples : List ℕ → List ℤ
samples [] = []
samples (n ∷ ns) = pos n ∷ samples ns

run_samples-total_traffic :
    (lifetime prev : ℕ) (raws : List ℕ)
    → lifetime + sum raws < 2 ^ 63
    → run_samples (pos lifetime) (some (pos prev)) (samples raws)
      ≡ pos (lifetime + total_traffic prev raws)
unfolding run_samples total_traffic
run_samples-total_traffic lifetime prev [] h = ground arith
run_samples-total_traffic lifetime prev (raw ∷ rest) h =
    rw (accumulate_lifetime-traffic lifetime raw prev (omega arith), run_samples)
      (run_samples-total_traffic (lifetime + traffic prev raw) raw rest (ground arith)
        ∙ ap pos (add_assoc lifetime (traffic prev raw) (total_traffic raw rest)))

first_sample :
    (lifetime raw : ℕ)
    → accumulate_lifetime (pos lifetime) (pos raw) (pos 0) false ≡ pos (max lifetime raw)
unfolding accumulate_lifetime
first_sample lifetime raw = ground arith

-- After a restart of the daemon and any samples, the total is the larger of the durable total and
-- the first sample, plus the traffic that the further samples show, counter resets included. The
-- hypothesis keeps the sums inside int64.
pub run_samples_after_restart :
    (lifetime raw : ℕ) (raws : List ℕ)
    → lifetime + sum (raw ∷ raws) < 2 ^ 63
    → run_samples (pos lifetime) none (samples (raw ∷ raws))
      ≡ pos (max lifetime raw + total_traffic raw raws)
unfolding run_samples
run_samples_after_restart lifetime raw raws h =
    rw (first_sample lifetime raw, run_samples)
      (run_samples-total_traffic (max lifetime raw) raw raws (omega arith))
