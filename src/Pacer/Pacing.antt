-- ===== src/Pacer/Pacing.antt =====
-- The histories of a pacer, from a reset on: what a sender that keeps to the windows sends in all.
use quicly.Common.{ℕ, ◌+◌, ◌-◌, ◌*◌, ◌≤◌, ◌<◌, ◌≡◌, some, arith, inl, inr, subst, sym, ap, ◌∙◌}
use native.Mathlib.Nat.{add-mul}
use quicly.Pacer.{Pacer, reset, consume_window, open_window, get_window, can_send_at}
use quicly.Pacer.Window.{cap, get_window_lem, get_window_free}

-- The histories at one rate and packet size, with the bytes that were sent since `start`.
pub data Paced (rate mtu start : ℕ) : ℕ → Pacer → Type 0 where
  begin :
      (sent : ℕ)
      → sent ≤ (get_window reset start rate mtu).1
      → Paced rate mtu start sent (consume_window (get_window reset start rate mtu).0 sent)
  next :
      {total : ℕ} {p : Pacer}
      → Paced rate mtu start total p
      → (now sent : ℕ) → ((t : ℕ) → p.at ≡ some t → t ≤ now)
      → sent ≤ (get_window p now rate mtu).1
      → Paced rate mtu start (total + sent) (consume_window (get_window p now rate mtu).0 sent)

record Accounted (rate mtu start total : ℕ) (p : Pacer) : Type 0 where
  clock : ℕ
  clock_is : p.at ≡ some clock
  since : start ≤ clock
  spent : total ≤ (clock - start) * rate + p.bytes_sent
  bounded : p.bytes_sent ≤ cap rate mtu

open_window_spent :
    (p : Pacer) (t now rate mtu : ℕ)
    → p.at ≡ some t
    → ((open_window p now rate mtu).0.at ≡ some now)
      × (p.bytes_sent ≤ (now - t) * rate + (open_window p now rate mtu).0.bytes_sent)
unfolding open_window
open_window_spent p t now rate mtu e = (ground arith, ground arith)

begin_at : (start rate mtu : ℕ) → (get_window reset start rate mtu).0.at ≡ some start
unfolding get_window open_window can_send_at
begin_at start rate mtu = ground arith

begin_Accounted :
    (start rate mtu sent : ℕ)
    → 0 < rate
    → 0 < mtu
    → sent ≤ (get_window reset start rate mtu).1
    → Accounted rate mtu start sent (consume_window (get_window reset start rate mtu).0 sent)
unfolding consume_window
begin_Accounted start rate mtu sent r m s =
    let window = get_window_lem reset start rate mtu r m (λ t e. ground arith) in
    record {
      clock = start;
      clock_is = begin_at start rate mtu;
      since = omega arith;
      spent = omega arith;
      bounded = elim window [
        | inl (_, same) ↦
            let bytes = ap (λ q. q.0.bytes_sent) same in
            let room = ap (λ q. q.1) same in omega arith
        | inr (_, _, most) ↦ omega arith
      ];
    }

next_Accounted :
    (start rate mtu total now sent : ℕ) (p : Pacer)
    → 0 < rate
    → 0 < mtu
    → Accounted rate mtu start total p
    → ((t : ℕ) → p.at ≡ some t → t ≤ now)
    → sent ≤ (get_window p now rate mtu).1
    → Accounted rate mtu start (total + sent) (consume_window (get_window p now rate mtu).0 sent)
unfolding consume_window
next_Accounted start rate mtu total now sent p r m a l s =
    elim (get_window_lem p now rate mtu r m l) [
      | inl (_, same) ↦
          let bytes = ap (λ q. q.0.bytes_sent) same in
          let room = ap (λ q. q.1) same in
          let spent = a.spent in
          let bounded = a.bounded in
          record {
            clock = a.clock;
            clock_is = ap (λ q. q.0.at) same ∙ a.clock_is;
            since = a.since;
            spent = omega arith;
            bounded = omega arith;
          }
      | inr (free, _, most) ↦
          let (at_now, kept) = open_window_spent p a.clock now rate mtu a.clock_is in
          let opened = get_window_free p now rate mtu free in
          let later = l a.clock a.clock_is in
          let bytes = ap (λ q. q.0.bytes_sent) opened in
          let since = a.since in
          let spent = a.spent in
          let together : (a.clock - start) + (now - a.clock) ≡ now - start = omega arith in
          let split =
            ap (λ n. n * rate) (sym together) ∙ add-mul (a.clock - start) (now - a.clock) rate in
          record {
            clock = now;
            clock_is = subst (λ q. q.0.at ≡ some now) (sym opened) at_now;
            since = omega arith;
            spent = omega arith;
            bounded = omega arith;
          }
    ]

Paced-Accounted :
    (start rate mtu total : ℕ) (p : Pacer)
    → 0 < rate
    → 0 < mtu
    → Paced rate mtu start total p
    → Accounted rate mtu start total p
Paced-Accounted start rate mtu _ _ r m (begin sent s) = begin_Accounted start rate mtu sent r m s
Paced-Accounted start rate mtu _ _ r m (next {total} {p} h now sent l s) =
    next_Accounted start rate mtu total now sent p r m
      (Paced-Accounted start rate mtu total p r m h) l s

some_eq : {m n : ℕ} → some m ≡ some n → m ≡ n
some_eq e = ground (arith, e)

-- A sender that keeps to its windows, at one rate and packet size, sends no more than the rate
-- allows from the reset to the last window that was opened, and the cap beside.
pub Paced-total :
    (start rate mtu total t : ℕ) (p : Pacer)
    → 0 < rate
    → 0 < mtu
    → Paced rate mtu start total p
    → p.at ≡ some t
    → (start ≤ t) × (total ≤ (t - start) * rate + cap rate mtu)
Paced-total start rate mtu total t p r m h e =
    let a = Paced-Accounted start rate mtu total p r m h in
    let same : a.clock ≡ t = some_eq (sym a.clock_is ∙ e) in
    let since = a.since in
    let spent = a.spent in
    let bounded = a.bounded in
    (
      subst (λ n. start ≤ n) same a.since,
      subst (λ n. total ≤ (n - start) * rate + cap rate mtu) same (omega arith),
    )
