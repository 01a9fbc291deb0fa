-- ===== src/EventStore/Memory/Since.antt =====
-- `LoadSince` of internal/eventstore/memory/store.go against a page of the log.
use streamledger.Prelude.{
  ℕ, zero, suc, ◌+◌, ◌≤◌, ◌<◌, ◌^◌, ◌≡◌, refl, ap, ◌∙◌, true, false, ◌&&◌, List, [], ◌∷◌, ◌++◌,
  arith, if◌then◌else◌, length, length-append, ℤ, pos, negsuc, ltb_ℤ, leb_ℤ,
}
use streamledger.Int64.{int64, int64-pos}
use streamledger.Outcome.{ok}
use streamledger.EventStore.{Event}
use streamledger.EventStore.Numbering.{Numbered}
use streamledger.EventStore.Memory.{MemoryStore, since, load_since}
use streamledger.EventStore.Memory.Counting.{IsCounted}

-- The first events of a list, n at most.
abbrev pub take : ℕ → List Event → List Event
take zero events = []
take (suc n) [] = []
take (suc n) (e ∷ events) = e ∷ take n events

-- A page of a log: all of it where the limit is not positive.
abbrev pub page : ℤ → List Event → List Event
page (pos zero) events = events
page (pos (suc n)) events = take (suc n) events
page (negsuc n) events = events

module _ (a : ℕ) (small : a < 2 ^ 63) (limit : ℤ) where
  since-old :
      (t n : ℕ) (e : Event) (events : List Event)
      → n < a
      → e.global_seq ≡ int64 (suc n)
      → since (int64 a) limit t (e ∷ events) ≡ since (int64 a) limit t events
  unfolding since
  since-old t n e events h g =
      let old : ltb_ℤ (int64 a) e.global_seq ≡ false =
        ground (arith, int64-pos a small, int64-pos (suc n) (omega arith)) in
      rw old

  since-skip :
      (n : ℕ) (done rest : List Event)
      → Numbered (λ e. e.global_seq) n (done ++ rest)
      → n + length done ≤ a
      → since (int64 a) limit 0 (done ++ rest) ≡ since (int64 a) limit 0 rest
  since-skip n [] rest num le = refl
  since-skip n (e ∷ done) rest num le =
      rw (since-old 0 n e (done ++ rest) (omega arith) num.0)
        (since-skip (suc n) done rest num.1 (omega arith))

  since-new :
      (t n : ℕ) (e : Event) (events : List Event)
      → a ≤ n
      → suc n < 2 ^ 63
      → e.global_seq ≡ int64 (suc n)
      → since (int64 a) limit t (e ∷ events) ≡ (
          if ltb_ℤ (pos 0) limit && leb_ℤ limit (pos (suc t))
          then e ∷ []
          else e ∷ since (int64 a) limit (suc t) events)
  unfolding since
  since-new t n e events h k g =
      let new : ltb_ℤ (int64 a) e.global_seq ≡ true =
        ground (arith, int64-pos a small, int64-pos (suc n) k) in
      rw new

  since-all :
      (t n : ℕ) (events : List Event)
      → ltb_ℤ (pos 0) limit ≡ false
      → a ≤ n
      → n + length events < 2 ^ 63
      → Numbered (λ e. e.global_seq) n events
      → since (int64 a) limit t events ≡ events
  unfolding since
  since-all t n [] off h k num = refl
  since-all t n (e ∷ events) off h k num = rw (
    since-new t n e events h (omega arith) num.0,
    off,
    since-all (suc t) (suc n) events off (omega arith) (omega arith) num.1,
  )

  since-take :
      (t n left : ℕ) (events : List Event)
      → limit ≡ pos (t + suc left)
      → a ≤ n
      → n + length events < 2 ^ 63
      → Numbered (λ e. e.global_seq) n events
      → since (int64 a) limit t events ≡ take (suc left) events
  unfolding since
  since-take t n left [] q h k num = refl
  since-take t n zero (e ∷ events) q h k num =
      let last : (ltb_ℤ (pos 0) limit && leb_ℤ limit (pos (suc t))) ≡ true = ground arith in
      rw (since-new t n e events h (omega arith) num.0, last)
  since-take t n (suc left) (e ∷ events) q h k num =
      let on : (ltb_ℤ (pos 0) limit && leb_ℤ limit (pos (suc t))) ≡ false = ground arith in
      let q' : limit ≡ pos (suc t + suc left) = ground arith in
      rw (
        since-new t n e events h (omega arith) num.0,
        on,
        since-take (suc t) (suc n) left events q' (omega arith) (omega arith) num.1,
      )

pub Numbered-suffix :
    (n : ℕ) (xs ys : List Event)
    → Numbered (λ e. e.global_seq) n (xs ++ ys)
    → Numbered (λ e. e.global_seq) (n + length xs) ys
Numbered-suffix n [] ys h = let p : n + 0 ≡ n = omega arith in rw p h
Numbered-suffix n (x ∷ xs) ys h =
    let p : n + suc (length xs) ≡ suc n + length xs = omega arith in
    rw p (Numbered-suffix (suc n) xs ys h.1)

since-page :
    (a : ℕ) (limit : ℤ) (events : List Event)
    → a + length events < 2 ^ 63
    → Numbered (λ e. e.global_seq) a events
    → since (int64 a) limit 0 events ≡ page limit events
since-page a (pos zero) events k num =
    since-all a (omega arith) (pos 0) 0 a events refl (omega arith) k num
since-page a (pos (suc m)) events k num =
    since-take a (omega arith) (pos (suc m)) 0 a m events (ground arith) (omega arith) k num
since-page a (negsuc m) events k num =
    since-all a (omega arith) (negsuc m) 0 a events (ground arith) (omega arith) k num

-- On a store whose counters are right and whose log has less than 2^63 events, loading since the
-- sequence number of the last event of some beginning of the log gives the rest of the log, cut to
-- the limit where that is positive.
pub load_since_exact :
    (s : MemoryStore) (done rest : List Event) (limit : ℤ)
    → IsCounted s
    → length s.events < 2 ^ 63
    → s.events ≡ done ++ rest
    → load_since (int64 (length done)) limit s ≡ ok (page limit rest)
unfolding load_since
load_since_exact s done rest limit h small split =
    let all : Numbered (λ e. e.global_seq) 0 (done ++ rest) = rw split at h.sequenced in
    let total : length done + length rest < 2 ^ 63 =
      omega (arith, length-append done rest, ap length split) in
    let from : Numbered (λ e. e.global_seq) (length done) rest =
      let p : 0 + length done ≡ length done = omega arith in
      rw p at (Numbered-suffix 0 done rest all) in
    rw split (
      ap ok (
        since-skip (length done) (omega arith) limit 0 done rest all (omega arith)
        ∙ since-page (length done) limit rest total from))
