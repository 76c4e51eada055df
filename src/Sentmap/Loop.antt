-- ===== src/Sentmap/Loop.antt =====
-- The loop of `update` tells the frames of the packet and ends at the next packet.
use quicly.Common.{
  ℕ, zero, suc, ◌<◌, ◌≡◌, refl, sym, ap, subst, ◌∙◌, Bool, true, false, inr, ◌&&◌, Option, none,
  some, List, [], ◌∷◌, ◌++◌, length, if◌then◌else◌, arith, append_assoc, append-nil,
}
use quicly.Common.Errors.{Error}
use quicly.Sentmap.{
  Packet, FrameData, Sent, packet, frame, Block, Iter, Call, entry, set_entry, discard_entry,
  next_entry, update_from,
}
use quicly.Sentmap.View.{Valid, AtEntry, Here}
use quicly.Sentmap.Moves.{next_entry-Here, Here-Gap}
use quicly.Sentmap.Edits.{entry-AtEntry, set_entry-AtEntry, discard_entry-Gap}
use quicly.Sentmap.Spec.{entries, tell}

module _ {C : Type 0} where
  -- What follows the frames of a packet.
  abbrev pub StartsPacket : List (Sent C) → Type 0
  StartsPacket [] = Unit {0}
  StartsPacket (packet p ∷ l) = Unit {0}
  StartsPacket (frame c d ∷ l) = ⊥

  -- The entries that are left of the frames, by whether they are discarded.
  abbrev pub kept : Bool → List (C × FrameData) → List (Sent C)
  kept true fs = []
  kept false fs = entries fs

  kept-nil : (discard : Bool) → kept discard [] ≡ []
  kept-nil true = refl
  kept-nil false = refl

  -- One round: the entry `frame c d` is left with `d'`, or removed.
  abbrev stepped : Bool → List (Block C) → Iter → C → FrameData → List (Block C) × Iter
  stepped discard bs it c d' =
      let left = set_entry bs it (frame c d') in
      if discard then discard_entry left it else (left, it)

  abbrev passed : Bool → List (Sent C) → C → FrameData → List (Sent C)
  passed true before c d' = before
  passed false before c d' = before ++ (frame c d' ∷ [])

  append-passed :
      (discard : Bool) (before : List (Sent C)) (c : C) (d' : FrameData) (fs : List (C × FrameData))
      → passed discard before c d' ++ kept discard fs ≡ before ++ kept discard ((c, d') ∷ fs)
  append-passed true before c d' fs = refl
  append-passed false before c d' fs = append_assoc before (frame c d' ∷ []) (entries fs)

  stepped-Here :
      (discard : Bool) (bs : List (Block C)) (it : Iter) (before after : List (Sent C)) (c : C)
      (d d' : FrameData)
      → AtEntry bs it before (frame c d) after
      → Valid bs
      → let r = stepped discard bs it c d' in
        Here r.0 (next_entry r.0 r.1) (passed discard before c d') after × Valid r.0
  stepped-Here true bs it before after c d d' h v =
      let (h', v') = set_entry-AtEntry bs it before (frame c d) (frame c d') after h v in
      let left = set_entry bs it (frame c d') in
      let (g, v'') = discard_entry-Gap left it before (frame c d') after h' v' in
      let r = discard_entry left it in (next_entry-Here r.0 r.1 before after v'' g, v'')
  stepped-Here false bs it before after c d d' h v =
      let (h', v') = set_entry-AtEntry bs it before (frame c d) (frame c d') after h v in
      let left = set_entry bs it (frame c d') in
      let g = Here-Gap left it before (frame c d') after h' in
      (next_entry-Here left it (before ++ (frame c d' ∷ [])) after v' (inr g), v')

module _ {C W : Type 0} (call : Call C W) (header : Packet) (is_acked should_discard : Bool) where
  abbrev pub outcome :
      Bool → Option Error → W → List (C × FrameData) → W × List (C × FrameData) × Option Error
  outcome notify ret w fs = if notify then tell call header is_acked w fs else (w, fs, ret)

  pub record Ends (r : W × List (Block C) × Iter × Option Error)
      (o : W × List (C × FrameData) × Option Error) (before rest : List (Sent C)) : Type 0 where
    pub world : r.0 ≡ o.0
    pub answer : r.3 ≡ o.2
    pub valid : Valid r.1
    pub here : Here r.1 r.2 (before ++ kept should_discard o.1) rest

  stops :
      (fuel : ℕ) (w : W) (bs : List (Block C)) (it : Iter) (notify : Bool) (ret : Option Error)
      (before rest : List (Sent C))
      → StartsPacket rest
      → Here bs it before rest
      → update_from call header is_acked should_discard fuel w bs it notify ret ≡ (w, bs, it, ret)
  unfolding update_from
  stops zero w bs it notify ret before rest s h = refl
  stops (suc fuel) w bs it notify ret before [] s h =
      let e : entry bs it ≡ none = ap (entry bs) h.0 in rw (e, update_from) refl
  stops (suc fuel) w bs it notify ret before (packet p ∷ l) s h =
      let e : entry bs it ≡ some (packet p) = entry-AtEntry bs it before (packet p) l h in
      rw (e, update_from) refl
  stops (suc fuel) w bs it notify ret before (frame c d ∷ l) s h = elim s [ ]

  answer_at_stop :
      (w : W) (notify : Bool) (ret : Option Error)
      → (notify ≡ true → ret ≡ none)
      → ret ≡ (outcome notify ret w []).2
  answer_at_stop w true ret clean = clean refl
  answer_at_stop w false ret clean = refl

  world_at_stop : (w : W) (notify : Bool) (ret : Option Error) → w ≡ (outcome notify ret w []).0
  world_at_stop w true ret = refl
  world_at_stop w false ret = refl

  kept_at_stop :
      (before : List (Sent C)) (w : W) (notify : Bool) (ret : Option Error)
      → before ≡ before ++ kept should_discard (outcome notify ret w []).1
  kept_at_stop before w true ret =
      sym (ap (λ z. before ++ z) (kept-nil should_discard) ∙ append-nil before)
  kept_at_stop before w false ret =
      sym (ap (λ z. before ++ z) (kept-nil should_discard) ∙ append-nil before)

  unpass :
      (r : W × List (Block C) × Iter × Option Error) (o : W × List (C × FrameData) × Option Error)
      (before rest : List (Sent C)) (c : C) (d' : FrameData)
      → Ends r o (passed should_discard before c d') rest
      → Ends r (o.0, (c, d') ∷ o.1, o.2) before rest
  unpass r o before rest c d' e = record {
    world = e.world;
    answer = e.answer;
    valid = e.valid;
    here = subst (λ l. Here r.1 r.2 l rest) (append-passed should_discard before c d' o.1) e.here;
  }

  one_step :
      (fuel : ℕ) (w : W) (bs : List (Block C)) (it : Iter) (notify : Bool) (ret : Option Error)
      (c : C) (d : FrameData)
      → entry bs it ≡ some (frame c d)
      → let (w', d', e) = if notify then call c w header is_acked d else (w, d, none) in
        let r = stepped should_discard bs it c d' in
        update_from call header is_acked should_discard (suc fuel) w bs it notify ret
        ≡ update_from call header is_acked should_discard fuel w' r.0
            (next_entry r.0 r.1)
            (notify && elim e as (λ _. Bool) [ none ↦ true | some _ ↦ false ])
            (if notify then e else ret)
  unfolding update_from
  one_step fuel w bs it notify ret c d e = rw (e, update_from) refl

  pub update_from-Ends :
      (fs : List (C × FrameData)) (fuel : ℕ) (w : W) (bs : List (Block C)) (it : Iter)
      (notify : Bool) (ret : Option Error) (before rest : List (Sent C))
      → length fs < fuel
      → StartsPacket rest
      → Valid bs
      → Here bs it before (entries fs ++ rest)
      → (notify ≡ true → ret ≡ none)
      → Ends
          (update_from call header is_acked should_discard fuel w bs it notify ret)
          (outcome notify ret w fs)
          before
          rest
  update_from-Ends [] fuel w bs it notify ret before rest l s v h clean =
      subst (λ r. Ends r (outcome notify ret w []) before rest)
        (sym (stops fuel w bs it notify ret before rest s h))
        (record {
          world = world_at_stop w notify ret;
          answer = answer_at_stop w notify ret clean;
          valid = v;
          here = subst (λ b. Here bs it b rest) (kept_at_stop before w notify ret) h;
        })
  update_from-Ends ((c, d) ∷ fs) zero w bs it notify ret before rest l s v h clean = elim l [ ]
  update_from-Ends ((c, d) ∷ fs) (suc fuel) w bs it true ret before rest l s v h clean =
      let at = entry-AtEntry bs it before (frame c d) (entries fs ++ rest) h in
      let (w', d', e) = call c w header is_acked d in
      let (h', v') = stepped-Here should_discard bs it before (entries fs ++ rest) c d d' h v in
      let r = stepped should_discard bs it c d' in
      let step = one_step fuel w bs it true ret c d at in
      let after = next_entry r.0 r.1 in
      let rest_of = λ (x : Option Error).
        update_from call header is_acked should_discard fuel w' r.0 after
          (true && elim x as (λ _. Bool) [ none ↦ true | some _ ↦ false ]) x in
      let result = λ (x : Option Error).
        let (w'', fs', e') = tell call header is_acked w' fs in
        elim x as (λ _. W × List (C × FrameData) × Option Error) [
          | none ↦ (w'', (c, d') ∷ fs', e')
          | some y ↦ (w', (c, d') ∷ fs, some y)
        ] in
      let branch : (x : Option Error) → Ends (rest_of x) (result x) before rest = λ x.
        elim x as (λ x. Ends (rest_of x) (result x) before rest) [
          | none ↦ unpass _ (tell call header is_acked w' fs) before rest c d' (
              update_from-Ends fs fuel w' r.0 after true none (passed should_discard before c d')
                rest (omega arith) s v' h' (λ _. refl))
          | some y ↦
              unpass _ (w', fs, some y) before rest c d'
                (update_from-Ends fs fuel w' r.0 after false (some y)
                  (passed should_discard before c d') rest (omega arith) s v' h' (λ q. cc))
        ] in
      subst (λ r. Ends r (tell call header is_acked w ((c, d) ∷ fs)) before rest) (sym step)
        (branch e)
  update_from-Ends ((c, d) ∷ fs) (suc fuel) w bs it false ret before rest l s v h clean =
      let at = entry-AtEntry bs it before (frame c d) (entries fs ++ rest) h in
      let (h', v') = stepped-Here should_discard bs it before (entries fs ++ rest) c d d h v in
      let r = stepped should_discard bs it c d in
      subst (λ r. Ends r (w, (c, d) ∷ fs, ret) before rest)
        (sym (one_step fuel w bs it false ret c d at))
        (unpass _ (w, fs, ret) before rest c d
          (update_from-Ends fs fuel w r.0 (next_entry r.0 r.1) false ret
            (passed should_discard before c d) rest (omega arith) s v' h' (λ e. cc)))
