-- ===== src/Sentmap/Skip.antt =====
-- Skipping a packet takes the iterator to the next one.
use quicly.Common.{
  ℕ, zero, suc, ◌<◌, ◌≡◌, refl, sym, ap, subst, inr, none, List, [], ◌∷◌, ◌++◌, length, arith,
  append_assoc, append-nil, length-append,
}
use quicly.Sentmap.{
  get, end_packet, Packet, FrameData, Sent, packet, frame, Block, Sentmap, Iter, entry, next_entry,
  total, skip, skip_from,
}
use quicly.Sentmap.View.{Valid, Here, Gap}
use quicly.Sentmap.Moves.{next_entry-Here, Here-Gap, live-AtEntry}
use quicly.Sentmap.Edits.{entry-AtEntry}
use quicly.Sentmap.Loop.{StartsPacket}
use quicly.Sentmap.Spec.{Represents, At, entries, flatten}
use quicly.Sentmap.Refine.{total-live, length-entries, flatten-StartsPacket, flatten-append}

module _ {C : Type 0} where
  stop_at :
      (fuel : ℕ) (bs : List (Block C)) (it : Iter) (before rest : List (Sent C))
      → StartsPacket rest
      → Here bs (next_entry bs it) before rest
      → skip_from (suc fuel) bs it ≡ next_entry bs it
  unfolding skip_from
  stop_at fuel bs it before [] s h =
      let e : entry bs (next_entry bs it) ≡ none = ap (entry bs) h.0 in rw (e, skip_from) refl
  stop_at fuel bs it before (packet p ∷ l) s h =
      let e = entry-AtEntry bs (next_entry bs it) before (packet p) l h in rw (e, skip_from) refl
  stop_at fuel bs it before (frame c d ∷ l) s h = elim s [ ]

  skip_from-Here :
      (fs : List (C × FrameData)) (fuel : ℕ) (bs : List (Block C)) (it : Iter)
      (before rest : List (Sent C))
      → length fs < fuel
      → Valid bs
      → StartsPacket rest
      → Gap bs it before (entries fs ++ rest)
      → Here bs (skip_from fuel bs it) (before ++ entries fs) rest
  unfolding skip_from
  skip_from-Here fs zero bs it before rest l v s g = elim l [ ]
  skip_from-Here [] (suc fuel) bs it before rest l v s g =
      let h = next_entry-Here bs it before rest v g in
      subst (λ b. Here bs (skip_from (suc fuel) bs it) b rest) (sym (append-nil before))
        (subst (λ i. Here bs i before rest) (sym (stop_at fuel bs it before rest s h)) h)
  skip_from-Here ((c, d) ∷ fs) (suc fuel) bs it before rest l v s g =
      let next = next_entry bs it in
      let h = next_entry-Here bs it before (frame c d ∷ (entries fs ++ rest)) v g in
      let e = entry-AtEntry bs next before (frame c d) (entries fs ++ rest) h in
      let g' = Here-Gap bs next before (frame c d) (entries fs ++ rest) h in
      let ih =
        skip_from-Here fs fuel bs next (before ++ (frame c d ∷ [])) rest (omega arith) v s
          (inr g') in
      let step : skip_from (suc fuel) bs it ≡ skip_from fuel bs next = rw (e, skip_from) refl in
      subst (λ i. Here bs i (before ++ (frame c d ∷ entries fs)) rest) (sym step)
        (subst (λ b. Here bs (skip_from fuel bs next) b rest)
          (append_assoc before (frame c d ∷ []) (entries fs)) ih)

  -- From a packet, `skip` takes the iterator to the next packet, or to the end, and the map stays.
  pub skip_refines :
      (m : Sentmap C) (it : Iter) (p : Packet) (fs : List (C × FrameData))
      (done todo : List (Packet × List (C × FrameData)))
      → At m it done ((p, fs) ∷ todo)
      → At m (skip m it) (done ++ ((p, fs) ∷ [])) todo
  unfolding skip
  skip_refines m it p fs done todo (r, h) =
      let log = done ++ ((p, fs) ∷ []) in
      let rest = entries fs ++ flatten todo in
      let g = Here-Gap m.blocks it (flatten done) (packet p) rest h in
      let enough : length fs < total m.blocks = omega (
        arith,
        total-live m.blocks r.valid,
        ap length (live-AtEntry m.blocks it (flatten done) (packet p) rest h),
        length-append (flatten done) (packet p ∷ rest),
        length-append (entries fs) (flatten todo),
        length-entries fs,
      ) in
      let here =
        skip_from-Here fs (total m.blocks) m.blocks it (flatten done ++ (packet p ∷ []))
          (flatten todo) enough r.valid (flatten-StartsPacket todo) (inr g) in
      let same : (flatten done ++ (packet p ∷ [])) ++ entries fs ≡ flatten log =
        simp (flatten-append, append_assoc, append-nil) in
      (
        subst (Represents m) (sym (append_assoc done ((p, fs) ∷ []) todo)) r,
        subst (λ b. Here m.blocks (skip m it) b (flatten todo)) same here,
      )

  pub get-At :
      (m : Sentmap C) (it : Iter) (done todo : List (Packet × List (C × FrameData))) (p : Packet)
      (fs : List (C × FrameData))
      → At m it done ((p, fs) ∷ todo)
      → get m.blocks it ≡ p
  unfolding get
  get-At m it done todo p fs (r, h) =
      let e = entry-AtEntry m.blocks it (flatten done) (packet p) (entries fs ++ flatten todo) h in
      rw (e, get) refl

  pub get_end :
      (m : Sentmap C) (it : Iter) (done : List (Packet × List (C × FrameData)))
      → At m it done []
      → get m.blocks it ≡ end_packet
  unfolding get
  get_end m it done (r, h) = rw (h.0, get) refl
