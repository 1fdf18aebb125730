-- ===== src/Reconcile/Served.antt =====
-- For which clients a pass leaves limits in the enforcer (internal/reconcile/reconciler.go).
use openvpnd.Base.{◌≡◌, ◌⊎◌, true, false, none, some, List, [], ◌∷◌}
use openvpnd.Base.Int.{ℤ}
use openvpnd.Base.Text.{Bytes, trim_space}
use openvpnd.Models.{Client}
use openvpnd.Policy.{should_auto_suspend}
use openvpnd.Bandwidth.Plan.{needs_shaping}
use openvpnd.Bandwidth.State.{Enforcer}
use openvpnd.Bandwidth.Synced.{Covered}
use openvpnd.Reconcile.Shape.{limit_of}
use openvpnd.Reconcile.Pass.{Outcome}

-- A client that gets a limit under the name.
abbrev Limited : Bytes → Client → Type 0
Limited cn c =
    (trim_space c.common_name ≡ cn)
    × (c.suspended ≡ false)
    × (needs_shaping (limit_of c).static_ip (limit_of c).rx_bps (limit_of c).tx_bps ≡ true)

abbrev Serves : List Client → Bytes → Type 0
Serves [] cn = ⊥
Serves (c ∷ cs) cn = Limited cn c ⊎ Serves cs cn

-- The same of a client as the store has it: it is not suspended, and the policy does not name it.
abbrev IsServed : ℤ → Bytes → Client → Type 0
IsServed now cn c = Limited cn c × (should_auto_suspend c now ≡ none)

-- A name of a client that is to have a limit.
abbrev pub Served : ℤ → List Client → Bytes → Type 0
Served now [] cn = ⊥
Served now (c ∷ cs) cn = IsServed now cn c ⊎ Served now cs cn

-- After a success limits are remembered for wanted clients only, after an error the enforcer is as before.
abbrev pub Limits : Bytes → (Bytes → Type 0) → Enforcer → Outcome → Type 0
Limits name W e (none, r) = Covered name W r.bw
Limits name W e (some error, r) = r.bw ≡ e
