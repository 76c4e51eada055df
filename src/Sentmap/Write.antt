-- ===== src/Sentmap/Write.antt =====
-- A packet that is written as sentmap.h describes is the last of the list.
use quicly.Common.{
  ℕ, ◌+◌, ◌≡◌, refl, sym, ap, subst, ◌∙◌, Bool, true, false, not, none, some, List, [], ◌∷◌, ◌++◌,
  length, if◌then◌else◌, arith, append_assoc, append-nil, ◌==◌, Option-cases, Bool-cases, inl, inr,
  length-append,
}
use quicly.Common.Errors.{Result, ok, err, no_memory, bind}
use quicly.Sentmap.{
  Packet, FrameData, Sent, packet, frame, Block, Sentmap, on, new_block, push, entry_at,
  set_entry_at, put, allocate, prepare, commit,
}
use quicly.Sentmap.View.{live, Valid}
use quicly.Sentmap.Moves.{live-AtEntry}
use quicly.Sentmap.Edits.{entry-AtEntry, set_entry-AtEntry}
use quicly.Sentmap.Spec.{Represents, entries, flatten, bytes}
use quicly.Sentmap.Refine.{flatten-append, bytes-append, sums}
use quicly.Sentmap.Put.{Placed, PutIn, put-PutIn, put-Placed, put-Valid, put-keeps}

-- The header of a packet that was written.
abbrev pub written : ℕ → ℕ → ℕ → ℕ → Bool → Packet
written packet_number now ack_epoch bytes_in_flight promoted_path = record {
  packet_number = packet_number;
  sent_at = some now;
  ack_epoch = ack_epoch;
  ack_eliciting = not (bytes_in_flight == 0);
  frames_in_flight = true;
  promoted_path = promoted_path;
  cc_bytes_in_flight = bytes_in_flight;
}

abbrev blank : ℕ → ℕ → ℕ → Packet
blank packet_number now ack_epoch = record {
  packet_number = packet_number;
  sent_at = some now;
  ack_epoch = ack_epoch;
  ack_eliciting = false;
  frames_in_flight = false;
  promoted_path = false;
  cc_bytes_in_flight = 0;
}

-- The header of the packet once it is committed.
commit_header :
    (packet_number now ack_epoch bytes_in_flight : ℕ) (promoted_path : Bool)
    → let h = blank packet_number now ack_epoch in
      let counted =
        if bytes_in_flight == 0
        then h
        else record h { ack_eliciting = true; cc_bytes_in_flight = bytes_in_flight } in
      record counted {
        frames_in_flight = true;
        promoted_path = if promoted_path then true else counted.promoted_path;
      }
      ≡ written packet_number now ack_epoch bytes_in_flight promoted_path
commit_header packet_number now ack_epoch bytes_in_flight promoted_path = ground arith

bind-ok :
    {A B : Type 0} (r : Result A) (f : A → Result B) {b : B}
    → bind r f ≡ ok b
    → (a : A) × (r ≡ ok a) × (f a ≡ ok b)
bind-ok (ok a) f e = (a, refl, e)
bind-ok (err x) f e = cc

module _ {C : Type 0} where
  -- One entry for each frame of the packet that is open; `memory n` is whether the malloc of the
  -- `n`-th entry succeeds, if one is made.
  unfoldable pub add_frames : (ℕ → Bool) → ℕ → Sentmap C → List (C × FrameData) → Result (Sentmap C)
  add_frames memory n m [] = ok m
  add_frames memory n m ((c, d) ∷ fs) = elim (allocate (memory n) m (frame c d)) [
    | none ↦ err no_memory
    | some (m', i, p) ↦ add_frames memory (n + 1) m' fs
  ]

  -- The calls that write a packet, in the order of the comment of `struct st_quicly_sentmap_t`.
  unfoldable pub write :
      (ℕ → Bool) → Sentmap C → ℕ → ℕ → ℕ → List (C × FrameData) → ℕ → Bool → Result (Sentmap C)
  write memory m packet_number now ack_epoch fs bytes_in_flight promoted_path =
      bind (prepare (memory 0) m packet_number now ack_epoch) λ opened.
        bind (add_frames memory 1 opened fs)
          λ filled. ok (commit filled bytes_in_flight promoted_path)

  -- The packet with the header `p` is open behind `log`, and has the frames `fs`.
  record Open (m : Sentmap C) (log : List (Packet × List (C × FrameData))) (p : Packet)
      (fs : List (C × FrameData)) : Type 0 where
    valid : Valid m.blocks
    i : ℕ
    slot : ℕ
    pending : m.pending_packet ≡ some (i, slot)
    placed : Placed m.blocks i slot (flatten log) (packet p) (entries fs)
    packets : m.num_packets ≡ length log
    in_flight : m.bytes_in_flight ≡ bytes log

  entries-append : (fs gs : List (C × FrameData)) → entries (fs ++ gs) ≡ entries fs ++ entries gs
  entries-append [] gs = refl
  entries-append ((c, d) ∷ fs) gs = ap (λ z. frame c d ∷ z) (entries-append fs gs)

  err-ne-ok : {m : Sentmap C} → ◌≡◌ {A = Result (Sentmap C)} (err no_memory) (ok m) → ⊥
  err-ne-ok e = cc

  ok_eq : {m m' : Sentmap C} → ◌≡◌ {A = Result (Sentmap C)} (ok m) (ok m') → m ≡ m'
  ok_eq e = cc

  prepare-Open :
      (memory : Bool) (m m' : Sentmap C) (packet_number now ack_epoch : ℕ)
      (log : List (Packet × List (C × FrameData)))
      → Represents m log
      → prepare memory m packet_number now ack_epoch ≡ ok m'
      → Open m' log (blank packet_number now ack_epoch) []
  unfolding prepare allocate
  prepare-Open memory m m' packet_number now ack_epoch log r e =
      let h = packet (blank packet_number now ack_epoch) in
      elim (Option-cases (put memory m.blocks h)) [
        | inl full ↦
            let step : prepare memory m packet_number now ack_epoch ≡ err no_memory =
              rw (full, prepare, allocate) refl in
            absurd (err-ne-ok (sym step ∙ e))
        | inr ((bs, i, slot), there) ↦
            let opened : Sentmap C = record m { blocks = bs; pending_packet = some (i, slot) } in
            let step : prepare memory m packet_number now ack_epoch ≡ ok opened =
              rw (there, prepare, allocate) refl in
            let g = subst (PutIn h m.blocks) there (put-PutIn memory m.blocks h) in
            subst (λ x. Open x log (blank packet_number now ack_epoch) []) (ok_eq (sym step ∙ e))
              (record {
                valid = put-Valid h g r.valid;
                i = i;
                slot = slot;
                pending = refl;
                placed = subst (λ l. Placed bs i slot l h []) r.holds (put-Placed h g);
                packets = r.packets;
                in_flight = r.in_flight;
              })
      ]

  add_frames-Open :
      (fs : List (C × FrameData)) (memory : ℕ → Bool) (n : ℕ) (m m' : Sentmap C)
      (log : List (Packet × List (C × FrameData))) (p : Packet) (before : List (C × FrameData))
      → Open m log p before
      → add_frames memory n m fs ≡ ok m'
      → Open m' log p (before ++ fs)
  unfolding add_frames allocate
  add_frames-Open [] memory n m m' log p before o e =
      subst (λ x. Open x log p (before ++ [])) (ok_eq e)
        (subst (Open m log p) (sym (append-nil before)) o)
  add_frames-Open ((c, d) ∷ fs) memory n m m' log p before o e =
      elim (Option-cases (put (memory n) m.blocks (frame c d))) [
        | inl full ↦
            let step : add_frames memory n m ((c, d) ∷ fs) ≡ err no_memory =
              rw (full, add_frames, allocate) refl in
            absurd (err-ne-ok (sym step ∙ e))
        | inr ((bs, i, slot), there) ↦
            let next : Sentmap C = record m { blocks = bs } in
            let step : add_frames memory n m ((c, d) ∷ fs) ≡ add_frames memory (n + 1) next fs =
              rw (there, add_frames, allocate) refl in
            let g =
              subst (PutIn (frame c d) m.blocks) there
                (put-PutIn (memory n) m.blocks (frame c d)) in
            let placed =
              put-keeps (frame c d) (packet p) o.i o.slot (flatten log) (entries before) g
                o.placed in
            let o' : Open next log p (before ++ ((c, d) ∷ [])) = record {
              valid = put-Valid (frame c d) g o.valid;
              i = o.i;
              slot = o.slot;
              pending = o.pending;
              placed =
                  subst (λ l. Placed bs o.i o.slot (flatten log) (packet p) l)
                    (sym (entries-append before ((c, d) ∷ []))) placed;
              packets = o.packets;
              in_flight = o.in_flight;
            } in
            subst (Open m' log p) (append_assoc before ((c, d) ∷ []) fs) (
              add_frames-Open fs memory (n + 1) next m' log p (before ++ ((c, d) ∷ [])) o'
                (sym step ∙ e))
      ]

  commit-Represents :
      (m : Sentmap C) (log : List (Packet × List (C × FrameData)))
      (packet_number now ack_epoch bytes_in_flight : ℕ) (promoted_path : Bool)
      (fs : List (C × FrameData))
      → Open m log (blank packet_number now ack_epoch) fs
      → Represents
          (commit m bytes_in_flight promoted_path)
          (log ++ ((written packet_number now ack_epoch bytes_in_flight promoted_path, fs) ∷ []))
  unfolding commit
  commit-Represents m log packet_number now ack_epoch bytes_in_flight promoted_path fs o =
      let p = blank packet_number now ack_epoch in
      let p' = written packet_number now ack_epoch bytes_in_flight promoted_path in
      let (c, at) = o.placed in
      let e : entry_at m.blocks o.i o.slot ≡ some (packet p) =
        entry-AtEntry m.blocks (on o.i o.slot c) (flatten log) (packet p) (entries fs) at in
      let bs = set_entry_at m.blocks o.i o.slot (packet p') in
      let is : (commit m bytes_in_flight promoted_path).blocks ≡ bs =
        rw (o.pending, e, commit)
          (ap (λ h. set_entry_at m.blocks o.i o.slot (packet h))
            (commit_header packet_number now ack_epoch bytes_in_flight promoted_path)) in
      let (at', v) =
        set_entry-AtEntry m.blocks (on o.i o.slot c) (flatten log) (packet p) (packet p')
          (entries fs) at o.valid in
      let held : live bs ≡ flatten (log ++ ((p', fs) ∷ [])) =
        live-AtEntry bs (on o.i o.slot c) (flatten log) (packet p') (entries fs) at'
        ∙ simp (flatten-append, append-nil) in
      let totals = sums log [] ((p', fs) ∷ []) in
      record {
        valid = subst Valid (sym is) v;
        holds = ap live is ∙ held;
        packets = omega (arith, o.packets, length-append log ((p', fs) ∷ []));
        in_flight = omega (arith, o.in_flight, bytes-append log ((p', fs) ∷ []));
      }

  -- Where a packet is written with all its frames, it is the last one of the list, with the header
  -- that says what was given, and it is counted with its bytes.
  pub write-Represents :
      (memory : ℕ → Bool) (m m' : Sentmap C) (packet_number now ack_epoch : ℕ)
      (fs : List (C × FrameData)) (bytes_in_flight : ℕ) (promoted_path : Bool)
      (log : List (Packet × List (C × FrameData)))
      → Represents m log
      → write memory m packet_number now ack_epoch fs bytes_in_flight promoted_path ≡ ok m'
      → Represents m'
          (log ++ ((written packet_number now ack_epoch bytes_in_flight promoted_path, fs) ∷ []))
  unfolding write
  write-Represents memory m m' packet_number now ack_epoch fs bytes_in_flight promoted_path log r
        e =
      let (opened, e1, e2) = bind-ok (prepare (memory 0) m packet_number now ack_epoch) _ e in
      let (filled, e3, e4) = bind-ok (add_frames memory 1 opened fs) _ e2 in
      let o = prepare-Open (memory 0) m opened packet_number now ack_epoch log r e1 in
      let o' =
        add_frames-Open fs memory 1 opened filled log (blank packet_number now ack_epoch) [] o e3 in
      subst
        (λ x.
          Represents x
            (log ++ ((written packet_number now ack_epoch bytes_in_flight promoted_path, fs) ∷ [])))
        (ok_eq e4)
        (commit-Represents filled log packet_number now ack_epoch bytes_in_flight promoted_path fs
          o')

  put_total :
      (bs : List (Block C)) (s : Sent C) → (x : List (Block C) × ℕ × ℕ) × (put true bs s ≡ some x)
  unfolding put
  put_total [] s = (_, refl)
  put_total (b ∷ []) s = elim (Bool-cases (length b.slots == 16)) [
    | inl full ↦ ((b ∷ new_block s ∷ [], 1, 0), rw full refl)
    | inr room ↦ ((push b s ∷ [], 0, length b.slots), rw room refl)
  ]
  put_total (b ∷ c ∷ bs) s =
      let ((rest, i, p), e) = put_total (c ∷ bs) s in ((b ∷ rest, i + 1, p), rw (e, put) refl)

  add_frames_total :
      (memory : ℕ → Bool) (n : ℕ) (m : Sentmap C) (fs : List (C × FrameData))
      → ((i : ℕ) → memory i ≡ true)
      → (m' : Sentmap C) × (add_frames memory n m fs ≡ ok m')
  unfolding add_frames allocate
  add_frames_total memory n m [] a = (m, refl)
  add_frames_total memory n m ((c, d) ∷ fs) a =
      let ((bs, i, p), e) = put_total m.blocks (frame c d) in
      let (m', e') = add_frames_total memory (n + 1) (record m { blocks = bs }) fs a in
      (m', rw (a n, e, add_frames, allocate) e')

  -- Where no memory is refused, the whole packet is written.
  pub write_total :
      (memory : ℕ → Bool) (m : Sentmap C) (packet_number now ack_epoch : ℕ)
      (fs : List (C × FrameData)) (bytes_in_flight : ℕ) (promoted_path : Bool)
      → ((i : ℕ) → memory i ≡ true)
      → (m' : Sentmap C) × (write memory m packet_number now ack_epoch fs bytes_in_flight
            promoted_path
          ≡ ok m')
  unfolding write prepare allocate
  write_total memory m packet_number now ack_epoch fs bytes_in_flight promoted_path a =
      let ((bs, i, p), e) = put_total m.blocks (packet (blank packet_number now ack_epoch)) in
      let opened : Sentmap C = record m { blocks = bs; pending_packet = some (i, p) } in
      let (filled, e') = add_frames_total memory 1 opened fs a in
      (
        commit filled bytes_in_flight promoted_path,
        rw (a 0, e, write, prepare, allocate) (rw (e', bind) refl),
      )
