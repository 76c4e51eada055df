-- ===== src/Sentmap/Refine.antt =====
-- The iterator and the updates behave as those of a list of packets.
use quicly.Common.{
  ℕ, suc, ◌+◌, ◌-◌, ◌<◌, ◌≡◌, refl, sym, ap, subst, ◌∙◌, Bool, true, false, not, ◌&&◌, ◌||◌, inr,
  Option, none, some, List, [], ◌∷◌, ◌++◌, length, if◌then◌else◌, arith, append_assoc, append-nil,
  length-append, ◌==◌,
}
use quicly.Common.Errors.{Error}
use quicly.Sentmap.{
  Packet, FrameData, Sent, packet, Block, Sentmap, Iter, Event, acked, pto, lost, expired, Call,
  is_acked, discards, is_pto, entry, set_entry, discard_entry, next_entry, update_from, update,
  total, init_iter,
}
use quicly.Sentmap.View.{somes, live, Valid, AtEntry, Here}
use quicly.Sentmap.Moves.{enter_lem, next_entry-Here, Here-Gap, live-AtEntry}
use quicly.Sentmap.Edits.{entry-AtEntry, set_entry-AtEntry, discard_entry-Gap}
use quicly.Sentmap.Loop.{StartsPacket, kept, outcome, Ends, update_from-Ends}
use quicly.Sentmap.Spec.{Represents, At, entries, flatten, bytes, told, remains, after_event}

module _ {C : Type 0} where
  pub live-Here :
      (bs : List (Block C)) (it : Iter) (before rest : List (Sent C))
      → Here bs it before rest
      → live bs ≡ before ++ rest
  live-Here bs it before [] h = sym h.1 ∙ sym (append-nil before)
  live-Here bs it before (e ∷ after) h = live-AtEntry bs it before e after h

  pub total-live : (bs : List (Block C)) → Valid bs → total bs ≡ length (live bs)
  unfolding total
  total-live [] v = refl
  total-live (b ∷ bs) (ok, v) =
      omega (arith, ok.counted, total-live bs v, length-append (somes b.slots) (live bs))

  pub length-entries : (fs : List (C × FrameData)) → length (entries fs) ≡ length fs
  length-entries [] = refl
  length-entries ((c, d) ∷ fs) = ap suc (length-entries fs)

  pub flatten-append :
      (l k : List (Packet × List (C × FrameData))) → flatten (l ++ k) ≡ flatten l ++ flatten k
  flatten-append [] k = refl
  flatten-append ((p, fs) ∷ l) k = ap (λ z. packet p ∷ z) (simp (flatten-append l k, append_assoc))

  pub bytes-append :
      (l k : List (Packet × List (C × FrameData))) → bytes (l ++ k) ≡ bytes l + bytes k
  bytes-append [] k = omega arith
  bytes-append ((p, fs) ∷ l) k = omega (arith, bytes-append l k)

  pub flatten-StartsPacket :
      (log : List (Packet × List (C × FrameData))) → StartsPacket (flatten log)
  flatten-StartsPacket [] = tt
  flatten-StartsPacket ((p, fs) ∷ log) = tt

  -- The iterator of a map starts at its first packet.
  pub init_iter-At :
      (m : Sentmap C) (log : List (Packet × List (C × FrameData)))
      → Represents m log
      → At m (init_iter m) [] log
  init_iter-At m log r =
      (r, enter_lem [] m.blocks [] (flatten log) 0 refl r.valid refl (sym r.holds))

  after_packet : Bool → List (Sent C) → Packet → List (Sent C)
  after_packet true before p = before
  after_packet false before p = before ++ (packet p ∷ [])

  header_stepped :
      (discard : Bool) (bs : List (Block C)) (it : Iter) (before after : List (Sent C))
      (p p' : Packet)
      → AtEntry bs it before (packet p) after
      → Valid bs
      → let left = set_entry bs it (packet p') in
        let r = if discard then discard_entry left it else (left, it) in
        Here r.0 (next_entry r.0 r.1) (after_packet discard before p') after × Valid r.0
  unfolding after_packet
  header_stepped true bs it before after p p' h v =
      let (h', v') = set_entry-AtEntry bs it before (packet p) (packet p') after h v in
      let left = set_entry bs it (packet p') in
      let (g, v'') = discard_entry-Gap left it before (packet p') after h' v' in
      let r = discard_entry left it in (next_entry-Here r.0 r.1 before after v'' g, v'')
  header_stepped false bs it before after p p' h v =
      let (h', v') = set_entry-AtEntry bs it before (packet p) (packet p') after h v in
      let left = set_entry bs it (packet p') in
      let g = Here-Gap left it before (packet p') after h' in
      (next_entry-Here left it (before ++ (packet p' ∷ [])) after v' (inr g), v')

  pub sums :
      (a b c : List (Packet × List (C × FrameData)))
      → (length ((a ++ b) ++ c) ≡ length a + length b + length c)
        × (bytes ((a ++ b) ++ c) ≡ bytes a + bytes b + bytes c)
  sums a b c = (
    omega (arith, length-append (a ++ b) c, length-append a b),
    omega (arith, bytes-append (a ++ b) c, bytes-append a b),
  )

module _ {C W : Type 0} (call : Call C W) where
  -- The parts of `update` that depend on the event through two tests.
  abbrev run :
      Bool
      → Bool
      → Bool
      → Packet
      → Packet
      → W
      → List (Block C)
      → Iter
      → W × List (Block C) × Iter × Option Error
  run is_ack discard notify p p' w bs it =
      let left = set_entry bs it (packet p') in
      let r = if discard then discard_entry left it else (left, it) in
      update_from call p is_ack discard (suc (total r.0)) w r.0 (next_entry r.0 r.1) notify none

  run-Ends :
      (is_ack discard notify : Bool) (p p' : Packet) (w : W) (bs : List (Block C)) (it : Iter)
      (before : List (Sent C)) (fs : List (C × FrameData)) (rest : List (Sent C))
      → AtEntry bs it before (packet p) (entries fs ++ rest)
      → Valid bs
      → StartsPacket rest
      → Ends call p is_ack discard
          (run is_ack discard notify p p' w bs it)
          (outcome call p is_ack discard notify none w fs)
          (after_packet discard before p')
          rest
  run-Ends is_ack discard notify p p' w bs it before fs rest h v s =
      let left = set_entry bs it (packet p') in
      let r = if discard then discard_entry left it else (left, it) in
      let (here, v') = header_stepped discard bs it before (entries fs ++ rest) p p' h v in
      let b = after_packet discard before p' in
      let enough : length fs < suc (total r.0) = omega (
        arith,
        total-live r.0 v',
        ap length (live-Here r.0 (next_entry r.0 r.1) b (entries fs ++ rest) here),
        length-append b (entries fs ++ rest),
        length-append (entries fs) rest,
        length-entries fs,
      ) in
      update_from-Ends call p is_ack discard fs (suc (total r.0)) w r.0 (next_entry r.0 r.1) notify
        none b rest enough s v' here (λ _. refl)

  abbrev uncounted : Event → Packet → Bool
  uncounted event p = not (p.cc_bytes_in_flight == 0) && not (is_pto event)

  header_lem :
      (event : Event) (p : Packet)
      → record p {
        cc_bytes_in_flight = if uncounted event p then 0 else p.cc_bytes_in_flight;
        frames_in_flight = false;
      }
        ≡ after_event event p
  header_lem acked p = ground arith
  header_lem pto p = ground arith
  header_lem lost p = ground arith
  header_lem expired p = ground arith

  told_lem :
      (event : Event) (p : Packet) (w : W) (fs : List (C × FrameData))
      → outcome call p
          (is_acked event)
          (discards event)
          (is_acked event || p.frames_in_flight)
          none
          w
          fs
        ≡ told call w event p fs
  told_lem acked p w fs = refl
  told_lem pto p w fs = refl
  told_lem lost p w fs = refl
  told_lem expired p w fs = refl

  update-run :
      (w : W) (m : Sentmap C) (it : Iter) (event : Event) (p : Packet)
      → entry m.blocks it ≡ some (packet p)
      → let r =
          run
            (is_acked event)
            (discards event)
            (is_acked event || p.frames_in_flight)
            p
            (after_event event p)
            w
            m.blocks
            it in
        update call w m it event ≡ (
          r.0,
          record m {
            blocks = r.1;
            num_packets = if discards event then m.num_packets - 1 else m.num_packets;
            bytes_in_flight =
                if uncounted event p
                then m.bytes_in_flight - p.cc_bytes_in_flight
                else m.bytes_in_flight;
          },
          r.2,
          r.3,
        )
  unfolding update
  update-run w m it event p e = rw (sym (header_lem event p)) (rw (e, update) refl)

  -- What is counted after an event.
  counted :
      (event : Event) (p : Packet) (fs fs' : List (C × FrameData))
      (done todo : List (Packet × List (C × FrameData))) (num num_bytes : ℕ)
      → num ≡ length (done ++ ((p, fs) ∷ todo))
      → num_bytes ≡ bytes (done ++ ((p, fs) ∷ todo))
      → ((if discards event then num - 1 else num) ≡ length ((done ++ remains event p fs') ++ todo))
        × ((if uncounted event p then num_bytes - p.cc_bytes_in_flight else num_bytes)
            ≡ bytes ((done ++ remains event p fs') ++ todo))
  counted acked p fs fs' done todo num num_bytes n b =
      let (l, c) = sums done (remains acked p fs') todo in
      ground (
        arith,
        l,
        c,
        (sums done [] ((p, fs) ∷ todo)).0,
        (sums done [] ((p, fs) ∷ todo)).1,
        length-append done ((p, fs) ∷ todo),
        bytes-append done ((p, fs) ∷ todo),
      )
  counted pto p fs fs' done todo num num_bytes n b =
      let (l, c) = sums done (remains pto p fs') todo in
      ground (
        arith,
        l,
        c,
        (sums done [] ((p, fs) ∷ todo)).0,
        (sums done [] ((p, fs) ∷ todo)).1,
        length-append done ((p, fs) ∷ todo),
        bytes-append done ((p, fs) ∷ todo),
      )
  counted lost p fs fs' done todo num num_bytes n b =
      let (l, c) = sums done (remains lost p fs') todo in
      ground (
        arith,
        l,
        c,
        (sums done [] ((p, fs) ∷ todo)).0,
        (sums done [] ((p, fs) ∷ todo)).1,
        length-append done ((p, fs) ∷ todo),
        bytes-append done ((p, fs) ∷ todo),
      )
  counted expired p fs fs' done todo num num_bytes n b =
      let (l, c) = sums done (remains expired p fs') todo in
      ground (
        arith,
        l,
        c,
        (sums done [] ((p, fs) ∷ todo)).0,
        (sums done [] ((p, fs) ∷ todo)).1,
        length-append done ((p, fs) ∷ todo),
        bytes-append done ((p, fs) ∷ todo),
      )

  holds_lem :
      (event : Event) (p : Packet) (fs : List (C × FrameData))
      (done : List (Packet × List (C × FrameData)))
      → after_packet (discards event) (flatten done) (after_event event p)
          ++ kept (discards event) fs
        ≡ flatten (done ++ remains event p fs)
  unfolding after_packet
  holds_lem acked p fs done = append-nil (flatten done) ∙ ap flatten (sym (append-nil done))
  holds_lem expired p fs done = append-nil (flatten done) ∙ ap flatten (sym (append-nil done))
  holds_lem pto p fs done = simp (flatten-append, append_assoc, append-nil)
  holds_lem lost p fs done = simp (flatten-append, append_assoc, append-nil)

  abbrev Refined :
      W × Sentmap C × Iter × Option Error
      → W × List (C × FrameData) × Option Error
      → Event
      → Packet
      → List (Packet × List (C × FrameData))
      → List (Packet × List (C × FrameData))
      → Type 0
  Refined u o event p done todo =
      (u.0 ≡ o.0) × (u.3 ≡ o.2) × At u.1 u.2 (done ++ remains event p o.1) todo

  -- An event at a packet does to the map what it does to the list: the state of the connection and
  -- the answer are those of telling the frames in order, up to the first that fails; the packet
  -- stays with its frames, or leaves the list where it is acknowledged or expired; the packets and
  -- the bytes in flight are still counted; and the iterator comes to the next packet.
  pub update_refines :
      (w : W) (m : Sentmap C) (it : Iter) (event : Event) (p : Packet) (fs : List (C × FrameData))
      (done todo : List (Packet × List (C × FrameData)))
      → At m it done ((p, fs) ∷ todo)
      → let (w', m', it', e) = update call w m it event in
        let (w'', fs', e'') = told call w event p fs in
        (w' ≡ w'') × (e ≡ e'') × At m' it' (done ++ remains event p fs') todo
  update_refines w m it event p fs done todo (r, h) =
      let at = entry-AtEntry m.blocks it (flatten done) (packet p) (entries fs ++ flatten todo) h in
      let notify = is_acked event || p.frames_in_flight in
      let r' = run (is_acked event) (discards event) notify p (after_event event p) w m.blocks it in
      let o = outcome call p (is_acked event) (discards event) notify none w fs in
      let ends =
        run-Ends (is_acked event) (discards event) notify p (after_event event p) w m.blocks it
          (flatten done) fs (flatten todo) h r.valid (flatten-StartsPacket todo) in
      let log = done ++ remains event p o.1 in
      let held = holds_lem event p o.1 done in
      let (num, sum) =
        counted event p fs o.1 done todo m.num_packets m.bytes_in_flight r.packets r.in_flight in
      let here : Here r'.1 r'.2 (flatten log) (flatten todo) =
        subst (λ l. Here r'.1 r'.2 l (flatten todo)) held ends.here in
      let holds : live r'.1 ≡ flatten (log ++ todo) =
        live-Here r'.1 r'.2 (flatten log) (flatten todo) here ∙ sym (flatten-append log todo) in
      subst (λ x. Refined (update call w m it event) x event p done todo) (told_lem event p w fs)
        (subst (λ u. Refined u o event p done todo) (sym (update-run w m it event p at))
          (
            ends.world,
            ends.answer,
            (record { valid = ends.valid; holds = holds; packets = num; in_flight = sum }, here),
          ))
