-- ===== src/Maxsender.antt =====
-- include/quicly/maxsender.h: when to announce a new maximum of flow-control credit, and when to
-- say that one is blocked by the peer's. The `int64_t` values are integers: the sender of
-- STREAMS_BLOCKED frames starts at -1. They stay far from the ends of the type, so that no sum wraps.
-- The two bit fields are Booleans.
pub mod Reach
mod Tests
use quicly.Common.{
  ℕ, ◌*◌, ◌/◌, Bool, true, false, ◌&&◌, ◌||◌, ◌==◌, if◌then◌else◌, ℤ, pos, ◌+ℤ◌, ◌-ℤ◌, leb_ℤ, ltb_ℤ,
  eqb_ℤ, to_u64,
}

-- `quicly_maxsender_t`
pub record Maxsender : Type 0 where
  pub committed : ℤ
  pub acked : ℤ
  pub lost : Bool
  pub remote_blocked : Bool

pub init : ℤ → Maxsender
init v = record { committed = v; acked = v; lost = false; remote_blocked = false }

pub blocked : Maxsender → ℕ → Maxsender
blocked m blocked_at =
    if blocked_at == to_u64 m.committed
    then record m { acked = m.committed; lost = false; remote_blocked = true }
    else m

pub should_send_max : Maxsender → ℤ → ℤ → ℕ → ℕ → Bool
should_send_max m buffered_from consumed window_size update_ratio =
    let new_value = buffered_from +ℤ pos window_size in
    let threshold = buffered_from +ℤ pos (window_size * update_ratio / 1024) in
    if m.lost
    then true
    else if ltb_ℤ m.committed new_value
        && (m.remote_blocked || leb_ℤ (m.committed -ℤ consumed) (new_value -ℤ m.committed))
    then true
    else leb_ℤ m.committed threshold

pub should_send_blocked : Maxsender → ℤ → Bool
should_send_blocked m local_max = if m.lost then true else ltb_ℤ m.committed local_max

-- The caller asserts `committed ≤ value`; the value is also what `sent` carries.
pub record_sent : Maxsender → ℤ → Maxsender
record_sent m value = record m {
  committed = value;
  lost = false;
  remote_blocked = if ltb_ℤ m.committed value then false else m.remote_blocked;
}

-- The state and whether `committed` needs to be sent again. The last argument is `acked`.
pub on_ack : Maxsender → ℤ → Bool → Maxsender × Bool
on_ack m sent true =
    let acked = if ltb_ℤ m.acked sent then sent else m.acked in
    (record m { acked = acked; lost = if eqb_ℤ acked m.committed then false else m.lost }, false)
on_ack m sent false =
    if (if eqb_ℤ sent m.committed then eqb_ℤ m.acked m.committed else true)
    then (m, false)
    else (record m { lost = true }, true)
