-- ===== src/Sendstate/Sets.antt =====
-- What the operations of a send state do to its two sets of bytes.
use quicly.Common.{
  ℕ, suc, ◌≤◌, ◌<◌, ◌≡◌, refl, not, ◌&&◌, ◌||◌, none, some, List, [], ◌∷◌, ltb, leb, if◌then◌else◌,
  length, arith, Option-cases, ◌⊎◌, inl, inr, lt→ltb, le→ltb, le→leb,
}
use quicly.Common.Errors.{Error, no_memory}
use native.Mathlib.Decide.{dec_lt}
use quicly.Ranges.{Range, Ranges, Allocator, at}
use quicly.Ranges.Rank.{From, IsSorted, within, contains}
use quicly.Ranges.Add.{contains-add, add-IsSorted, add_status}
use quicly.Ranges.Cut.{contains-below}
use quicly.Sendstate.{Allocators, add_missing, lost_loop}

contains-add_missing :
    (alloc : Allocator) (p : Ranges) (start end x : ℕ)
    → IsSorted p.ranges
    → (add_missing alloc p start end).1 ≡ none
    → contains (add_missing alloc p start end).0.ranges x
      ≡ (contains p.ranges x || within start end x)
unfolding add_missing
contains-add_missing alloc p start end x f ok = ground (arith, contains-add alloc p start end x f)

add_missing-IsSorted :
    (alloc : Allocator) (p : Ranges) (start end : ℕ)
    → IsSorted p.ranges
    → IsSorted (add_missing alloc p start end).0.ranges
unfolding add_missing
add_missing-IsSorted alloc p start end f = ground (arith, add-IsSorted alloc p start end f)

-- Where the loop starts to look for lost bytes after the range `r`.
abbrev past : Range → ℕ → ℕ
past r start = if ltb start r.end then r.end else start

lost_loop_last :
    (mem : Allocators) (r next : Range) (rest : List Range) (p : Ranges) (start end : ℕ)
    → start < end
    → end ≤ next.start
    → lost_loop mem (r ∷ next ∷ rest) p start end
      ≡ add_missing (mem (length (next ∷ rest))) p (past r start) end
unfolding lost_loop
lost_loop_last mem r next rest p start end h k = rw (lt→ltb start end h, le→leb end next.start k)

lost_loop_idle :
    (mem : Allocators) (r next : Range) (rest : List Range) (p : Ranges) (start end : ℕ)
    → end ≤ start
    → lost_loop mem (r ∷ next ∷ rest) p start end ≡ (p, none)
unfolding lost_loop
lost_loop_idle mem r next rest p start end h = rw (le→ltb start end h)

lost_loop_more :
    (mem : Allocators) (r next : Range) (rest : List Range) (p : Ranges) (start end : ℕ)
    → start < end
    → next.start < end
    → (add_missing (mem (length (next ∷ rest))) p (past r start) next.start).1 ≡ none
    → lost_loop mem (r ∷ next ∷ rest) p start end
      ≡ lost_loop mem
          (next ∷ rest)
          (add_missing (mem (length (next ∷ rest))) p (past r start) next.start).0
          (past r start)
          end
unfolding lost_loop
lost_loop_more mem r next rest p start end h k ok = ground arith

lost_loop_failed :
    (mem : Allocators) (r next : Range) (rest : List Range) (p : Ranges) (start end : ℕ) (e : Error)
    → start < end
    → next.start < end
    → (add_missing (mem (length (next ∷ rest))) p (past r start) next.start).1 ≡ some e
    → (lost_loop mem (r ∷ next ∷ rest) p start end).1 ≡ some e
unfolding lost_loop
lost_loop_failed mem r next rest p start end e h k failed = ground arith

pub lost_loop-contains :
    (mem : Allocators) (b x : ℕ) (r : Range) (rest : List Range) (p : Ranges) (start end : ℕ)
    → From b (r ∷ rest)
    → IsSorted p.ranges
    → (r.start ≤ start) ⊎ (r.start < end)
    → (lost_loop mem (r ∷ rest) p start end).1 ≡ none
    → contains (lost_loop mem (r ∷ rest) p start end).0.ranges x ≡ (
        contains p.ranges x
        || ((within start end x && leb r.start x) && not (contains (r ∷ rest) x)))
lost_loop-contains mem b x r [] p start end f q h ok =
    unfold lost_loop in ground (arith, contains-add_missing (mem 0) p (past r start) end x q)
lost_loop-contains mem b x r (next ∷ rest) p start end f q h ok =
    let s' = past r start in
    let alloc = mem (length (next ∷ rest)) in
    elim (dec_lt start end) [
      | no idle ↦ rw (lost_loop_idle mem r next rest p start end (omega arith)) (ground arith)
      | yes busy ↦ elim (dec_lt next.start end) [
        | no last ↦
            let step = lost_loop_last mem r next rest p start end busy (omega arith) in
            ground (
              arith,
              step,
              contains-add_missing alloc p s' end x q,
              contains-below next.start x (next ∷ rest) (omega arith, f.2.1, f.2.2),
            )
        | yes more ↦ elim (Option-cases (add_missing alloc p s' next.start).1) [
          | inl done ↦
              let filled = (add_missing alloc p s' next.start).0 in
              let step = lost_loop_more mem r next rest p start end busy more done in
              let ih = lost_loop-contains mem (suc r.end) x next rest filled s' end f.2 in
              let kept = add_missing-IsSorted alloc p s' next.start q in
              let ok' = rw step at ok in
              rw step (
                ground (
                  arith,
                  ih kept (inr more) ok',
                  contains-add_missing alloc p s' next.start x q done,
                  contains-below next.start x (next ∷ rest) (omega arith, f.2.1, f.2.2),
                ))
          | inr (e, failed) ↦
              cc (lost_loop_failed mem r next rest p start end e busy more failed, ok)
        ]
      ]
    ]

pub lost_loop-IsSorted :
    (mem : Allocators) (rs : List Range) (p : Ranges) (start end : ℕ)
    → IsSorted p.ranges
    → IsSorted (lost_loop mem rs p start end).0.ranges
unfolding lost_loop
lost_loop-IsSorted mem [] p start end q = q
lost_loop-IsSorted mem (r ∷ []) p start end q =
    ground (arith, q, add_missing-IsSorted (mem 0) p (past r start) end q)
lost_loop-IsSorted mem (r ∷ next ∷ rest) p start end q =
    let alloc = mem (length (next ∷ rest)) in
    let filled = (add_missing alloc p (past r start) next.start).0 in
    let kept = add_missing-IsSorted alloc p (past r start) next.start q in
    ground (
      arith,
      kept,
      add_missing-IsSorted alloc p (past r start) end q,
      lost_loop-IsSorted mem (next ∷ rest) filled (past r start) end kept,
    )

add_missing_status :
    (alloc : Allocator) (p : Ranges) (start end : ℕ)
    → IsSorted p.ranges
    → ((add_missing alloc p start end).1 ≡ none)
      ⊎ ((add_missing alloc p start end).1 ≡ some no_memory)
unfolding add_missing
add_missing_status alloc p start end q = ground (arith, add_status alloc p start end q)

-- The loop fails only for want of memory.
pub lost_loop_status :
    (mem : Allocators) (rs : List Range) (p : Ranges) (start end : ℕ)
    → IsSorted p.ranges
    → ((lost_loop mem rs p start end).1 ≡ none)
      ⊎ ((lost_loop mem rs p start end).1 ≡ some no_memory)
unfolding lost_loop
lost_loop_status mem [] p start end q = inl refl
lost_loop_status mem (r ∷ []) p start end q =
    ground (arith, add_missing_status (mem 0) p (past r start) end q)
lost_loop_status mem (r ∷ next ∷ rest) p start end q =
    let alloc = mem (length (next ∷ rest)) in
    let filled = (add_missing alloc p (past r start) next.start).0 in
    ground (
      arith,
      add_missing_status alloc p (past r start) next.start q,
      add_missing_status alloc p (past r start) end q,
      lost_loop_status mem (next ∷ rest) filled (past r start) end
          (add_missing-IsSorted alloc p (past r start) next.start q),
    )

-- The whole loop, over acknowledged ranges the first of which starts at byte 0.
pub lost_loop_all :
    (mem : Allocators) (x : ℕ) (rs : List Range) (p : Ranges) (start end : ℕ)
    → IsSorted rs
    → 0 < length rs
    → (at rs 0).start ≡ 0
    → IsSorted p.ranges
    → (lost_loop mem rs p start end).1 ≡ none
    → contains (lost_loop mem rs p start end).0.ranges x
      ≡ (contains p.ranges x || (within start end x && not (contains rs x)))
lost_loop_all mem x [] p start end f some_acked z q ok = absurd (omega arith)
lost_loop_all mem x (r ∷ rest) p start end f some_acked z q ok =
    ground (arith, lost_loop-contains mem 0 x r rest p start end f q (inl (omega arith)) ok)
