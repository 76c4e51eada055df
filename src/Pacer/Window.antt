-- ===== src/Pacer/Window.antt =====
-- The window that `get_window` opens: how large it is at least and at most.
use quicly.Common.{
  ℕ, ◌+◌, ◌-◌, ◌*◌, ◌/◌, ◌≤◌, ◌<◌, ◌≡◌, refl, Bool, true, false, Option, none, some, ltb,
  if◌then◌else◌, arith, inl, inr, ◌⊎◌, Bool-cases, subst, sym,
}
use native.Mathlib.Nat.{div-mul-le_self, lt-div-mul-add, mul-le-mul_right}
use quicly.Pacer.{
  Pacer, burst_credit, can_send_at, is_future, burst_window, packets_left, open_window, get_window,
}

-- What the bytes that were sent and the window come to at most: ten packets, or the bytes of a
-- millisecond and two packets.
abbrev pub cap : ℕ → ℕ → ℕ
cap rate mtu = if ltb (8 * mtu) rate then rate + 2 * mtu else 10 * mtu

-- A number that is rounded up to a multiple grows by less than the divisor.
round_up : (n m : ℕ) → 0 < m → (n ≤ (n + m - 1) / m * m) × ((n + m - 1) / m * m ≤ n + m - 1)
round_up n m h =
    ((let above = lt-div-mul-add {a = n + m - 1} h in omega arith), div-mul-le_self (n + m - 1) m)

packets_left-cap :
    (rate mtu left : ℕ)
    → 0 < mtu
    → left < rate + burst_credit rate mtu
    → left + packets_left (burst_window rate mtu) left mtu * mtu ≤ cap rate mtu
packets_left-cap rate mtu left h l =
    let (_, above) = round_up (burst_window rate mtu - left) mtu h in ground arith

packets_left_two : (burst left mtu : ℕ) → 2 ≤ packets_left burst left mtu
packets_left_two burst left mtu = ground arith

-- Once the delay has passed, what is left of the bytes that were sent is less than the bytes of a
-- millisecond and the credit.
left_below :
    (p : Pacer) (t now rate mtu : ℕ)
    → 0 < rate
    → t ≤ now
    → p.at ≡ some t
    → is_future (can_send_at p rate mtu) now ≡ false
    → p.bytes_sent - (now - t) * rate < rate + burst_credit rate mtu
unfolding can_send_at
left_below p t now rate mtu r l e h =
    let credit = burst_credit rate mtu in
    let quotient = (p.bytes_sent - credit) / rate in
    let below = lt-div-mul-add {a = p.bytes_sent - credit} r in
    elim (Bool-cases (ltb p.bytes_sent (rate + credit))) [
      | inl room ↦ ground arith
      | inr full ↦
          let passed : t + quotient ≤ now = ground arith in
          let product : quotient * rate ≤ (now - t) * rate = mul-le-mul_right rate (omega arith) in
          ground arith
    ]

-- The bounds of the window that is opened.
record Opened (p : Pacer) (rate mtu : ℕ) (q : Pacer × ℕ) : Type 0 where
  most : q.0.bytes_sent + q.1 ≤ cap rate mtu
  least : 2 * mtu ≤ q.1

fresh_Opened :
    (p : Pacer) (now rate mtu : ℕ)
    → 0 < mtu
    → Opened p rate mtu
        (record p { at = some now; bytes_sent = 0 }, (burst_window rate mtu + mtu - 1) / mtu * mtu)
fresh_Opened p now rate mtu m =
    let (below, above) = round_up (burst_window rate mtu) mtu m in
    record { most = ground arith; least = ground arith }

left_Opened :
    (p : Pacer) (now left rate mtu : ℕ)
    → 0 < mtu
    → left < rate + burst_credit rate mtu
    → Opened p rate mtu (
      record p { at = some now; bytes_sent = left },
      packets_left (burst_window rate mtu) left mtu * mtu,
    )
left_Opened p now left rate mtu m l = record {
  most = packets_left-cap rate mtu left m l;
  least = mul-le-mul_right mtu (packets_left_two (burst_window rate mtu) left mtu);
}

open_window-Opened :
    (p : Pacer) (now rate mtu : ℕ)
    → 0 < mtu
    → ((t : ℕ) → p.at ≡ some t → p.bytes_sent - (now - t) * rate < rate + burst_credit rate mtu)
    → Opened p rate mtu (open_window p now rate mtu)
unfolding open_window
open_window-Opened p now rate mtu m l = by_clock p.at l
  where
    by_clock :
        (at : Option ℕ)
        → ((t : ℕ) → at ≡ some t → p.bytes_sent - (now - t) * rate < rate + burst_credit rate mtu)
        → Opened p rate mtu (elim at [
          | none ↦ (
            record p { at = some now; bytes_sent = 0 },
            (burst_window rate mtu + mtu - 1) / mtu * mtu,
          )
          | some at ↦
              if ltb ((now - at) * rate) p.bytes_sent
              then (
                record p { at = some now; bytes_sent = p.bytes_sent - (now - at) * rate },
                packets_left (burst_window rate mtu) (p.bytes_sent - (now - at) * rate) mtu * mtu,
              )
              else (
                record p { at = some now; bytes_sent = 0 },
                (burst_window rate mtu + mtu - 1) / mtu * mtu,
              )
        ])
    by_clock none l = fresh_Opened p now rate mtu m
    by_clock (some t) l = by_test (ltb ((now - t) * rate) p.bytes_sent)
      where
        by_test :
            (more : Bool)
            → Opened p rate mtu (
                if more
                then (
                  record p { at = some now; bytes_sent = p.bytes_sent - (now - t) * rate },
                  packets_left (burst_window rate mtu) (p.bytes_sent - (now - t) * rate) mtu * mtu,
                )
                else (
                  record p { at = some now; bytes_sent = 0 },
                  (burst_window rate mtu + mtu - 1) / mtu * mtu,
                ))
        by_test true = left_Opened p now (p.bytes_sent - (now - t) * rate) rate mtu m (l t refl)
        by_test false = fresh_Opened p now rate mtu m

get_window_blocked :
    (p : Pacer) (now rate mtu : ℕ)
    → is_future (can_send_at p rate mtu) now ≡ true
    → get_window p now rate mtu ≡ (p, 0)
unfolding get_window
get_window_blocked p now rate mtu h = ground arith

pub get_window_free :
    (p : Pacer) (now rate mtu : ℕ)
    → is_future (can_send_at p rate mtu) now ≡ false
    → get_window p now rate mtu ≡ open_window p now rate mtu
unfolding get_window
get_window_free p now rate mtu h = ground arith

-- Before the moment that `can_send_at` tells, the window is empty and the pacer is unchanged. From
-- then on it has room for two packets or more, and together with the bytes that are still to be
-- accounted for it does not exceed the cap. The rate and the packet size are positive, and the
-- clock does not run backwards.
pub get_window_lem :
    (p : Pacer) (now rate mtu : ℕ)
    → 0 < rate
    → 0 < mtu
    → ((t : ℕ) → p.at ≡ some t → t ≤ now)
    → ((is_future (can_send_at p rate mtu) now ≡ true) × (get_window p now rate mtu ≡ (p, 0)))
      ⊎ ((is_future (can_send_at p rate mtu) now ≡ false)
          × (2 * mtu ≤ (get_window p now rate mtu).1)
          × ((get_window p now rate mtu).0.bytes_sent + (get_window p now rate mtu).1
              ≤ cap rate mtu))
get_window_lem p now rate mtu r m l = elim (Bool-cases (is_future (can_send_at p rate mtu) now)) [
  | inl future ↦ inl (future, get_window_blocked p now rate mtu future)
  | inr free ↦
      let opened = subst (Opened p rate mtu) (sym (get_window_free p now rate mtu free)) (
        open_window-Opened p now rate mtu m
          (λ t e. left_below p t now rate mtu r (l t e) e free)) in
      inr (free, opened.least, opened.most)
]
