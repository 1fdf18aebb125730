-- ===== src/Snmp/Agent/Sendable.antt =====
-- Every answer can be encoded: the bindings of a response come from the MIB, or echo the request.
use openvpnd.Base.{
  ℕ, zero, suc, inl, inr, Option, none, some, List, [], ◌∷◌, All, All-append, take, drop, length,
  Bool-cases,
}
use openvpnd.Snmp.Oid.{Oid}
use openvpnd.Snmp.Ber.Arcs.{IsEncodable}
use openvpnd.Snmp.Value.RoundTrip.{of_no_such_object, of_no_such_instance, of_end_of_mib_view}
use openvpnd.Snmp.Pdu.{VarBind, Pdu}
use openvpnd.Snmp.Pdu.RoundTrip.{IsSendable}
use openvpnd.Snmp.Pdu.Decoded.{EncodableNames}
use openvpnd.Snmp.Mib.{Variable, Mib, get, get_next}
use openvpnd.Snmp.Mib.Search.{IsSorted, Among, IsGet, IsNext, get-IsGet}
use openvpnd.Snmp.Mib.Walk.{get_next-IsNext}
use openvpnd.Snmp.Agent.{
  of_variable, has_prefix, answer_get, do_get, answer_next, do_get_next, names, Round, repeat_one,
  repeat_round, repeat_rounds, repeaters, clamp_repetitions, clamp_non_repeaters, do_get_bulk,
}

abbrev pub IsSendableMib : Mib → Type 0
IsSendableMib = All (λ (v : Variable). IsSendable (of_variable v))

Among-IsSendable :
    (v : Variable) (m : Mib) → IsSendableMib m → Among v m → IsSendable (of_variable v)
Among-IsSendable v [] h a = absurd a
Among-IsSendable v (w ∷ m) h (inl e) = rw e h.0
Among-IsSendable v (w ∷ m) h (inr a) = Among-IsSendable v m h.1 a

module _ (m : Mib) (sorted : IsSorted m) (sendable : IsSendableMib m) where
  answer_get-IsSendable :
      (oid : Oid) (o : Option Variable)
      → IsGet oid m o
      → IsEncodable oid
      → IsSendable (answer_get m oid o)
  unfolding answer_get
  answer_get-IsSendable oid (some v) g e = Among-IsSendable v m sendable g.0
  answer_get-IsSendable oid none g e = elim (Bool-cases (has_prefix m oid)) [
    | inl h ↦ rw h (record { encodable = e; canonical = of_no_such_instance })
    | inr h ↦ rw h (record { encodable = e; canonical = of_no_such_object })
  ]

  pub do_get-IsSendable : (bs : List VarBind) → EncodableNames bs → All IsSendable (do_get m bs)
  unfolding do_get
  do_get-IsSendable [] h = tt
  do_get-IsSendable (b ∷ bs) h = (
    answer_get-IsSendable b.name (get m b.name) (get-IsGet b.name m sorted) h.0,
    do_get-IsSendable bs h.1,
  )

  answer_next-IsSendable :
      (oid : Oid) (o : Option Variable)
      → IsNext oid m o
      → IsEncodable oid
      → IsSendable (answer_next oid o)
  unfolding answer_next
  answer_next-IsSendable oid (some v) n e = Among-IsSendable v m sendable n.0
  answer_next-IsSendable oid none n e = record { encodable = e; canonical = of_end_of_mib_view }

  pub do_get_next-IsSendable :
      (bs : List VarBind) → EncodableNames bs → All IsSendable (do_get_next m bs)
  unfolding do_get_next
  do_get_next-IsSendable [] h = tt
  do_get_next-IsSendable (b ∷ bs) h = (
    answer_next-IsSendable b.name (get_next m b.name) (get_next-IsNext b.name m sorted) h.0,
    do_get_next-IsSendable bs h.1,
  )

  repeat_one-IsSendable :
      (c : Oid) (o : Option Variable) (r : Round)
      → IsNext c m o
      → IsEncodable c
      → All IsSendable r.out × All IsEncodable r.cursors
      → All IsSendable (repeat_one c o r).out × All IsEncodable (repeat_one c o r).cursors
  unfolding repeat_one
  repeat_one-IsSendable c (some v) r n e h =
      let s = Among-IsSendable v m sendable n.0 in ((s, h.0), (s.encodable, h.1))
  repeat_one-IsSendable c none r n e h =
      ((record { encodable = e; canonical = of_end_of_mib_view }, h.0), (e, h.1))

  repeat_round-IsSendable :
      (cs : List Oid)
      → All IsEncodable cs
      → All IsSendable (repeat_round m cs).out × All IsEncodable (repeat_round m cs).cursors
  unfolding repeat_round
  repeat_round-IsSendable [] h = (tt, tt)
  repeat_round-IsSendable (c ∷ cs) h =
      repeat_one-IsSendable c (get_next m c) (repeat_round m cs) (get_next-IsNext c m sorted) h.0
        (repeat_round-IsSendable cs h.1)

  repeat_rounds-IsSendable :
      (n : ℕ) (cs : List Oid) → All IsEncodable cs → All IsSendable (repeat_rounds n m cs)
  unfolding repeat_rounds
  repeat_rounds-IsSendable zero cs h = tt
  repeat_rounds-IsSendable (suc n) cs h =
      let r = repeat_round m cs in
      let step = repeat_round-IsSendable cs h in
      elim (Bool-cases r.all_end) [
        | inl e ↦ rw e step.0
        | inr e ↦ rw e (
            All-append IsSendable r.out (repeat_rounds n m r.cursors) step.0
              (repeat_rounds-IsSendable n r.cursors step.1))
      ]

  names-IsEncodable : (bs : List VarBind) → EncodableNames bs → All IsEncodable (names bs)
  names-IsEncodable [] h = tt
  names-IsEncodable (b ∷ bs) h = (h.0, names-IsEncodable bs h.1)

  repeaters-IsSendable :
      (n : ℕ) (bs : List VarBind) → EncodableNames bs → All IsSendable (repeaters m n bs)
  unfolding repeaters
  repeaters-IsSendable n [] h = tt
  repeaters-IsSendable n (b ∷ bs) h =
      repeat_rounds-IsSendable n (names (b ∷ bs)) (names-IsEncodable (b ∷ bs) h)

  EncodableNames-take : (n : ℕ) (bs : List VarBind) → EncodableNames bs → EncodableNames (take n bs)
  EncodableNames-take zero bs h = tt
  EncodableNames-take (suc n) [] h = tt
  EncodableNames-take (suc n) (b ∷ bs) h = (h.0, EncodableNames-take n bs h.1)

  EncodableNames-drop : (n : ℕ) (bs : List VarBind) → EncodableNames bs → EncodableNames (drop n bs)
  EncodableNames-drop zero bs h = h
  EncodableNames-drop (suc n) [] h = tt
  EncodableNames-drop (suc n) (b ∷ bs) h = EncodableNames-drop n bs h.1

  pub do_get_bulk-IsSendable :
      (p : Pdu) → EncodableNames p.bindings → All IsSendable (do_get_bulk m p)
  unfolding do_get_bulk
  do_get_bulk-IsSendable p h =
      let k = clamp_non_repeaters p.non_repeaters (length p.bindings) in
      let n = clamp_repetitions p.max_repetitions in
      All-append IsSendable (do_get_next m (take k p.bindings)) (repeaters m n (drop k p.bindings))
        (do_get_next-IsSendable (take k p.bindings) (EncodableNames-take k p.bindings h))
        (repeaters-IsSendable n (drop k p.bindings) (EncodableNames-drop k p.bindings h))
