-- ===== src/Gateway/Audit/Laws.antt =====
-- The audit record of crates/gateway/src/state.rs stays bounded, whatever Alpaca sends.
use st0x_alpaca.Prelude.{
  ℕ, zero, suc, ◌≤◌, ◌*◌, List, [], ◌∷◌, map, Option, none, some, arith, length, take, All,
  length-take, Result, ok, err, length-append,
}
use st0x_alpaca.Gateway.Failure.{Failure}
use st0x_alpaca.Gateway.Admission.{Call, Intent}
use st0x_alpaca.Gateway.Audit.{
  AuditPhase, Traffic, Deployment, event, audit_ids, cut, audit_id_max, audit_ids_max, join,
  object_id,
}

-- Every id is at most 128 characters long.
abbrev pub AllShort : List (List ℕ) → Type 0
AllShort ids = All (λ (id : List ℕ). length id ≤ audit_id_max) ids

kept-AllShort :
    (n : ℕ) (ids : List (List ℕ)) → AllShort (map (λ id. cut id audit_id_max) (take n ids))
unfolding cut
kept-AllShort zero ids = tt
kept-AllShort (suc n) [] = tt
kept-AllShort (suc n) (id ∷ ids) = (omega (arith, length-take audit_id_max id), kept-AllShort n ids)

length-kept :
    (n : ℕ) (ids : List (List ℕ)) → length (map (λ id. cut id audit_id_max) (take n ids)) ≤ n
length-kept zero ids = omega arith
length-kept (suc n) [] = omega arith
length-kept (suc n) (id ∷ ids) = omega (arith, length-kept n ids)

length-join : (ids : List (List ℕ)) → AllShort ids → length (join ids) ≤ 129 * length ids
unfolding join
length-join [] h = omega arith
length-join (id ∷ []) h = omega (arith, h.0)
length-join (id ∷ next ∷ ids) (h, hs) =
    omega (arith, h, length-append id (b',' ∷ join (next ∷ ids)), length-join (next ∷ ids) hs)

-- The length of an optional text.
abbrev pub text_length : Option (List ℕ) → ℕ
text_length none = 0
text_length (some text) = length text

length-object_id : (ids : List (List ℕ)) → text_length (object_id ids) ≤ 12_900
unfolding object_id audit_ids
length-object_id [] = omega arith
length-object_id (id ∷ ids) = omega (
  arith,
  length-join (audit_ids (id ∷ ids)) (kept-AllShort audit_ids_max (id ∷ ids)),
  length-kept audit_ids_max (id ∷ ids),
)

-- Whatever the traffic and the result, the record of a call keeps at most 100 request ids of at
-- most 128 characters each, and an object id text of at most 12,900 characters.
pub event_bounded :
    (stamp : Deployment) (call : Call) (intent : Intent) (phase : AuditPhase) (traffic : Traffic)
    (result : Result (List (List ℕ)) Failure) (at elapsed : ℕ)
    → let e = event stamp call intent phase traffic result at elapsed in
      (length e.alpaca_request_ids ≤ audit_ids_max)
      × AllShort e.alpaca_request_ids
      × (text_length e.alpaca_object_id ≤ 12_900)
unfolding event audit_ids
event_bounded stamp call intent phase traffic (ok ids) at elapsed = (
  length-kept audit_ids_max traffic.request_ids,
  kept-AllShort audit_ids_max traffic.request_ids,
  length-object_id ids,
)
event_bounded stamp call intent phase traffic (err failure) at elapsed = (
  length-kept audit_ids_max traffic.request_ids,
  kept-AllShort audit_ids_max traffic.request_ids,
  length-object_id failure.alpaca_object_ids,
)
