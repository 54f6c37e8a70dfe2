-- ===== src/Ocpp/Invariant.antt =====
-- The invariant of the central system's state (ocpp/handler.go) over every callback.
use smarthouse.Prelude.{
  subst, suc, pos_part, ℤ, pos, ◌≤ℤ◌, Option, none, some, ◌≡◌, arith, bytes_Eq, ◌≤◌, ◌==◌, inl, inr,
  Bool-cases, Bytes,
}
use smarthouse.GoMap.{lookup, lookup-insert}
use smarthouse.Ocpp.Types.{Reply, ChargePointState, CentralSystemHandler, new_handler}
use smarthouse.Ocpp.Handler.{put_charge_point}
use smarthouse.Ocpp.Consistent.{IsConsistent, IsConsistent-mono}

-- Every charge point is consistent, and the next transaction's number is not negative.
pub record IsValid (h : CentralSystemHandler) : Type 0 where
  pub counted : pos 0 ≤ℤ h.next_transaction_id
  pub each :
      (cid : Bytes) (cps : ChargePointState)
      → lookup cid h.charge_points ≡ some cps
      → IsConsistent h.next_transaction_id cps

pub new-IsValid : IsValid new_handler
unfolding lookup
new-IsValid = record { counted = omega arith; each = λ cid cps h. ground arith }

pub put_charge_point-IsValid :
    (h : CentralSystemHandler) (n : ℤ) (cid : Bytes) (info : ChargePointState)
    → IsValid h
    → h.next_transaction_id ≤ℤ n
    → IsConsistent n info
    → IsValid (put_charge_point (record h { next_transaction_id = n }) cid info)
put_charge_point-IsValid h n cid info v up w = record {
  counted = omega (arith, v.counted);
  each = λ did cps e. elim (Bool-cases (cid == did)) [
    | inl same ↦
        subst (IsConsistent n) (ground (arith, lookup-insert cid did info h.charge_points)) w
    | inr other ↦
        IsConsistent-mono h.next_transaction_id n cps up
          (v.each did cps (ground (arith, lookup-insert cid did info h.charge_points)))
  ];
}

-- What a callback leaves behind: a valid state, whose next number is the old one or its successor.
pub record Follows (h h' : CentralSystemHandler) : Type 0 where
  pub valid : IsValid h'
  pub grows : h.next_transaction_id ≤ℤ h'.next_transaction_id
  pub by_one : pos_part h'.next_transaction_id ≤ suc (pos_part h.next_transaction_id)

pub stay-Follows : (h : CentralSystemHandler) → IsValid h → Follows h h
stay-Follows h v = record { valid = v; grows = omega arith; by_one = omega arith }

pub put-Follows :
    (h : CentralSystemHandler) (cid : Bytes) (info : ChargePointState)
    → IsValid h
    → IsConsistent h.next_transaction_id info
    → Follows h (put_charge_point h cid info)
put-Follows h cid info v w = record {
  valid = put_charge_point-IsValid h h.next_transaction_id cid info v (omega arith) w;
  grows = omega arith;
  by_one = omega arith;
}

-- The fields that are neither connectors nor transactions do not matter.
pub other_fields-IsConsistent :
    (n : ℤ) (info info' : ChargePointState)
    → info'.connectors ≡ info.connectors
    → info'.transactions ≡ info.transactions
    → IsConsistent n info
    → IsConsistent n info'
other_fields-IsConsistent n info info' c t v = record {
  keyed = rw t v.keyed;
  fresh = rw t v.fresh;
  running = rw (c, t) v.running;
}

-- A callback that looks the charge point up and, where it is known, writes it.
pub known-Follows :
    (h : CentralSystemHandler) (cid : Bytes) (write : ChargePointState → ChargePointState)
    → IsValid h
    → ((info : ChargePointState)
        → IsConsistent h.next_transaction_id info
        → IsConsistent h.next_transaction_id (write info))
    → (o : Option ChargePointState) → lookup cid h.charge_points ≡ o
    → Follows h (elim o [ none ↦ h | some info ↦ put_charge_point h cid (write info) ])
known-Follows h cid write v keep none e = stay-Follows h v
known-Follows h cid write v keep (some info) e =
    put-Follows h cid (write info) v (keep info (v.each cid info e))

pub known_reply-Follows :
    (h : CentralSystemHandler) (cid : Bytes) (refused accepted : Reply)
    (write : ChargePointState → ChargePointState)
    → IsValid h
    → ((info : ChargePointState)
        → IsConsistent h.next_transaction_id info
        → IsConsistent h.next_transaction_id (write info))
    → (o : Option ChargePointState) → lookup cid h.charge_points ≡ o
    → Follows h
        (elim o as (λ _. Reply × CentralSystemHandler) [
          | none ↦ (refused, h)
          | some info ↦ (accepted, put_charge_point h cid (write info))
        ]).1
known_reply-Follows h cid refused accepted write v keep none e = stay-Follows h v
known_reply-Follows h cid refused accepted write v keep (some info) e =
    put-Follows h cid (write info) v (keep info (v.each cid info e))
