-- ===== src/RemoteCid/Scan.antt =====
-- The scan of `do_register` over the entries: what it keeps, and what it stores.
use quicly.Common.{
  ℕ, zero, suc, ◌≡◌, refl, Bool, true, false, List, ◌&&◌, ◌||◌, not, [], ◌∷◌, ◌==◌, if◌then◌else◌,
  length, get_or, arith,
}
use quicly.RemoteCid.{
  RemoteCid, vacant, bytes_equal, is_unavailable, ScanResult, scan, go_on, onto, duplicate,
  conflict, available,
}

-- Some entry has the number.
unfoldable pub numbered : List RemoteCid → ℕ → Bool
numbered [] n = false
numbered (c ∷ cs) n = c.sequence == n || numbered cs n

abbrev pub holds_here : RemoteCid → ℕ → List ℕ → List ℕ → Bool
holds_here c n cid srt =
    c.sequence == n
    && (not (is_unavailable c.state)
        && (bytes_equal c.cid cid && bytes_equal c.stateless_reset_token srt))

-- Some entry that is not reserved has the number, the connection ID and the token.
unfoldable pub holds : List RemoteCid → ℕ → List ℕ → List ℕ → Bool
holds [] n cid srt = false
holds (c ∷ cs) n cid srt = holds_here c n cid srt || holds cs n cid srt

bytes_equal_refl : (xs : List ℕ) → bytes_equal xs xs ≡ true
unfolding bytes_equal
bytes_equal_refl [] = refl
bytes_equal_refl (x ∷ xs) = ground (arith, bytes_equal_refl xs)

abbrev pub ScanOk : List RemoteCid → ℕ → List ℕ → List ℕ → ScanResult → Type 0
ScanOk cs n cid srt (go_on ds) =
    (length ds ≡ length cs)
    × (numbered ds n ≡ holds ds n cid srt)
    × ((j : ℕ) → (get_or ds j (vacant 0)).sequence ≡ (get_or cs j (vacant 0)).sequence)
ScanOk cs n cid srt (duplicate ds) =
    (length ds ≡ length cs)
    × (holds ds n cid srt ≡ true)
    × ((j : ℕ) → (get_or ds j (vacant 0)).sequence ≡ (get_or cs j (vacant 0)).sequence)
ScanOk cs n cid srt (conflict ds) = Unit {0}

onto-ScanOk :
    (c d : RemoteCid) (cs : List RemoteCid) (n : ℕ) (cid srt : List ℕ) (r : ScanResult)
    → d.sequence ≡ c.sequence
    → (d.sequence == n) ≡ holds_here d n cid srt
    → ScanOk cs n cid srt r
    → ScanOk (c ∷ cs) n cid srt (onto d r)
unfolding numbered holds
onto-ScanOk c d cs n cid srt (go_on ds) e h r =
    (ground (arith, r.0), ground (arith, r.1), elim [ zero ↦ e | suc j ↦ r.2 j ])
onto-ScanOk c d cs n cid srt (duplicate ds) e h r =
    (ground (arith, r.0), ground (arith, r.1), elim [ zero ↦ e | suc j ↦ r.2 j ])
onto-ScanOk c d cs n cid srt (conflict ds) e h r = tt

-- One round of the scan, by the answers to its tests.
scan_cons :
    (c : RemoteCid) (cs : List RemoteCid) (n : ℕ) (cid srt : List ℕ) (rest : ScanResult)
    (free same numbered_n same_token : Bool)
    → is_unavailable c.state ≡ free
    → bytes_equal c.cid cid ≡ same
    → (c.sequence == n) ≡ numbered_n
    → bytes_equal c.stateless_reset_token srt ≡ same_token
    → ScanOk cs n cid srt rest
    → ScanOk (c ∷ cs) n cid srt (
        if not free
        then if same
          then if numbered_n && same_token then duplicate (c ∷ cs) else conflict (c ∷ cs)
          else if numbered_n
          then conflict (c ∷ cs)
          else onto c rest
        else if numbered_n
        then onto (record c { state = available; cid = cid; stateless_reset_token = srt }) rest
        else onto c rest)
unfolding numbered holds
scan_cons c cs n cid srt rest true same true same_token f a b t r =
    onto-ScanOk c (record c { state = available; cid = cid; stateless_reset_token = srt }) cs n cid
      srt rest refl (ground (arith, bytes_equal_refl cid, bytes_equal_refl srt)) r
scan_cons c cs n cid srt rest true same false same_token f a b t r =
    onto-ScanOk c c cs n cid srt rest refl (ground arith) r
scan_cons c cs n cid srt rest false true true true f a b t r = (refl, ground arith, λ j. refl)
scan_cons c cs n cid srt rest false true true false f a b t r = tt
scan_cons c cs n cid srt rest false true false same_token f a b t r = tt
scan_cons c cs n cid srt rest false false true same_token f a b t r = tt
scan_cons c cs n cid srt rest false false false same_token f a b t r =
    onto-ScanOk c c cs n cid srt rest refl (ground arith) r

pub scan-ScanOk :
    (cs : List RemoteCid) (n : ℕ) (cid srt : List ℕ) → ScanOk cs n cid srt (scan cs n cid srt)
unfolding scan numbered holds
scan-ScanOk [] n cid srt = (refl, refl, λ j. refl)
scan-ScanOk (c ∷ cs) n cid srt =
    scan_cons c cs n cid srt (scan cs n cid srt) (is_unavailable c.state) (bytes_equal c.cid cid)
      (c.sequence == n) (bytes_equal c.stateless_reset_token srt) refl refl refl refl
      (scan-ScanOk cs n cid srt)
