-- ===== src/EventStore/Postgres/Invariant.antt =====
-- The invariant of the tables: what internal/eventstore/postgres/schema/0001_events.sql says of them in
-- its comment, and that one written event keeps it.
use streamledger.Prelude.{
  ◌≡◌, ◌≢◌, inl, inr, refl, sym, ap, ◌∙◌, true, false, Bool-cases, List, [], ◌∷◌, ◌++◌, String,
  arith, All, length, length-append, select-append, map, ℤ, pos, eqb_ℤ, ◌<ℤ◌, ◌≤ℤ◌, ◌==◌, string_eq,
  eq_iff, lookup, lookup_or,
}
use streamledger.Json.{Payload}
use streamledger.Int64.{wrap64, IsInt64, add64, int64, inc64-int64}
use streamledger.EventStore.{
  AppendEvent, Event, StreamKey, stream_key_eq, stream_key_beq_iff, key_of, target, stream,
  produced_under,
}
use streamledger.EventStore.Numbering.{Numbered, Numbered-append, Ascending}
use streamledger.EventStore.Streams.{stream-snoc}
use streamledger.EventStore.Postgres.{EventRow, scan_event}
use streamledger.EventStore.Postgres.Tables.{Tables, no_rows, has_key, has_link, as_stored}
use streamledger.EventStore.Postgres.Steps.{Inserted}

abbrev pub log_of : Tables → List Event
log_of ts = map scan_event ts.events

-- An event is linked with its key, and with no other.
abbrev pub IsLinked : List (String × ℤ) → Event → Type 0
IsLinked links e =
    (d : String) → d ≢ "" → has_link d e.global_seq links ≡ (e.metadata.dedupe_key == d)

pub record IsSound (ts : Tables) : Type 0 where
  pub rising : Ascending (λ e. e.global_seq) (pos 0) (log_of ts)
  pub top : All (λ (e : Event). e.global_seq ≤ℤ ts.last_value) (log_of ts)
  pub room : pos (length (log_of ts)) ≤ℤ ts.last_value
  pub ranged : IsInt64 ts.last_value
  pub current :
      (k : StreamKey) → lookup_or (pos 0) k ts.versions ≡ int64 (length (stream k (log_of ts)))
  pub versioned : (k : StreamKey) → Numbered (λ e. e.version) 0 (stream k (log_of ts))
  pub keyed : (d : String) → d ≢ "" → has_key d ts.keys ≡ false → produced_under d (log_of ts) ≡ []
  pub linked : All (IsLinked ts.links) (log_of ts)
  pub link_top : (d : String) (n : ℤ) → has_link d n ts.links ≡ true → n ≤ℤ ts.last_value

pub no_rows-IsSound : IsSound no_rows
unfolding lookup int64 wrap64
no_rows-IsSound = record {
  rising = tt;
  top = tt;
  room = omega arith;
  ranged = (omega arith, omega arith);
  current = λ k. refl;
  versioned = λ k. tt;
  keyed = λ d ne h. refl;
  linked = tt;
  link_top = λ d n h. absurd (ground arith);
}

pub map-append :
    (xs ys : List EventRow) → map scan_event (xs ++ ys) ≡ map scan_event xs ++ map scan_event ys
map-append [] ys = refl
map-append (x ∷ xs) ys = ap (λ l. scan_event x ∷ l) (map-append xs ys)

Ascending-snoc :
    (v last : ℤ) (xs : List Event) (e : Event)
    → v ≤ℤ last
    → Ascending (λ e. e.global_seq) v xs
    → All (λ (x : Event). x.global_seq ≤ℤ last) xs
    → last <ℤ e.global_seq
    → Ascending (λ e. e.global_seq) v (xs ++ e ∷ [])
Ascending-snoc v last [] e le rise top new = (omega arith, tt)
Ascending-snoc v last (x ∷ xs) e le rise top new =
    (rise.0, Ascending-snoc x.global_seq last xs e top.0 rise.1 top.1 new)

eqb_refl : (z : ℤ) → eqb_ℤ z z ≡ true
eqb_refl z = ground arith

module _ {P Q : Event → Type 0} where
  All-snoc :
      (step : (x : Event) → P x → Q x) (xs : List Event) (e : Event)
      → All P xs
      → Q e
      → All Q (xs ++ e ∷ [])
  All-snoc step [] e h q = (q, tt)
  All-snoc step (x ∷ xs) e h q = (step x h.0, All-snoc step xs e h.1 q)

module _ (jsonb : Payload → Payload) (d : String) (a : AppendEvent) (before later : Tables)
    (e : Event) (h : IsSound before) (i : Inserted jsonb d a before e later) where
  pub log-Inserted : log_of later ≡ log_of before ++ as_stored jsonb e ∷ []
  log-Inserted =
      ap (map scan_event) i.grown
      ∙ map-append before.events (i.row ∷ [])
      ∙ ap (λ x. log_of before ++ x ∷ []) (sym i.scanned)

  seq_lem : e.global_seq ≡ i.row.global_seq
  seq_lem = ap (λ (x : Event). x.global_seq) i.made

  pub key_lem : key_of e ≡ target a
  key_lem = ap key_of i.made

  version_lem : e.version ≡ add64 i.current (pos 1)
  version_lem = ap (λ (x : Event). x.version) i.made

  pub dedupe_lem : e.metadata.dedupe_key ≡ d
  dedupe_lem = ap (λ (x : Event). x.metadata.dedupe_key) i.made

  Inserted-rising : Ascending (λ e. e.global_seq) (pos 0) (log_of later)
  Inserted-rising = rw log-Inserted (
      Ascending-snoc (pos 0) before.last_value (log_of before) (as_stored jsonb e)
        (omega (arith, h.room)) h.rising h.top (rw seq_lem i.drawn))

  Inserted-top : All (λ (x : Event). x.global_seq ≤ℤ later.last_value) (log_of later)
  Inserted-top =
      let below : before.last_value ≤ℤ later.last_value = rw i.last (omega (arith, i.drawn)) in
      rw log-Inserted (
        All-snoc (λ x p. omega arith) (log_of before) (as_stored jsonb e) h.top
          (rw (seq_lem, i.last) (omega arith)))

  Inserted-room : pos (length (log_of later)) ≤ℤ later.last_value
  Inserted-room =
      rw (log-Inserted, i.last)
        (omega (arith, h.room, i.drawn, length-append (log_of before) (as_stored jsonb e ∷ [])))

  Inserted-current :
      (k : StreamKey)
      → lookup_or (pos 0) k later.versions ≡ int64 (length (stream k (log_of later)))
  Inserted-current k = rw log-Inserted (
      ground (
        arith,
        i.counted k,
        stream-snoc k (log_of before) (as_stored jsonb e),
        length-append (stream k (log_of before)) (as_stored jsonb e ∷ []),
        inc64-int64 (length (stream k (log_of before))),
        h.current k,
        i.was_current,
        stream_key_beq_iff (target a) k,
        key_lem,
      ))

  Inserted-versioned : (k : StreamKey) → Numbered (λ e. e.version) 0 (stream k (log_of later))
  Inserted-versioned k =
      let same_test : (key_of e == k) ≡ (target a == k) = ap (λ j. j == k) key_lem in
      rw (log-Inserted, stream-snoc k (log_of before) (as_stored jsonb e), same_test)
        (elim (Bool-cases (target a == k)) [
          | inl same ↦ rw same (
              Numbered-append _ 0 (length (stream k (log_of before))) _ _ (omega arith)
                (h.versioned k)
                (
                  ground (
                    arith,
                    inc64-int64 (length (stream k (log_of before))),
                    h.current k,
                    i.was_current,
                    version_lem,
                    stream_key_beq_iff (target a) k,
                  ),
                  tt,
                ))
          | inr other ↦ rw other (h.versioned k)
        ])

  Inserted-keyed :
      (d ≢ "" → has_key d before.keys ≡ true)
      → (d' : String) → d' ≢ ""
      → has_key d' later.keys ≡ false
      → produced_under d' (log_of later) ≡ []
  Inserted-keyed used d' ne none_yet =
      let old = h.keyed d' ne (rw i.same_keys at none_yet) in
      let apart : (d == d') ≡ false = elim (Bool-cases (d == d')) [
        | inl same ↦
            let p : d ≡ d' = (eq_iff d d').0 same in
            let seen : has_key d' before.keys ≡ true =
              ap (λ x. has_key x before.keys) (sym p) ∙ used (λ q. ne (sym p ∙ q)) in
            let unseen : has_key d' before.keys ≡ false = rw i.same_keys at none_yet in cc
        | inr other ↦ other
      ] in
      rw (
        log-Inserted,
        select-append (λ x. x.metadata.dedupe_key == d') (log_of before) (as_stored jsonb e ∷ []),
        old,
        dedupe_lem,
        apart,
      )

  old-IsLinked :
      (x : Event)
      → (x.global_seq ≤ℤ before.last_value) × IsLinked before.links x
      → IsLinked later.links x
  old-IsLinked x (le, l) d' ne = rw i.linked (ground (arith, l d' ne, i.drawn))

  new-IsLinked : IsLinked later.links (as_stored jsonb e)
  new-IsLinked d' ne =
      let unseen : has_link d' i.row.global_seq before.links ≡ false =
        elim (Bool-cases (has_link d' i.row.global_seq before.links)) [
          | inl there ↦ absurd (omega (arith, h.link_top d' i.row.global_seq there, i.drawn))
          | inr absent ↦ absent
        ] in
      rw (i.linked, seq_lem, dedupe_lem)
        (ground (arith, unseen, eq_iff d "", eq_iff d d', eqb_refl i.row.global_seq))

  All-both :
      (xs : List Event)
      → All (λ (x : Event). x.global_seq ≤ℤ before.last_value) xs
      → All (IsLinked before.links) xs
      → All (λ (x : Event). (x.global_seq ≤ℤ before.last_value) × IsLinked before.links x) xs
  All-both [] p q = tt
  All-both (x ∷ xs) p q = ((p.0, q.0), All-both xs p.1 q.1)

  Inserted-IsLinked : All (IsLinked later.links) (log_of later)
  Inserted-IsLinked = rw log-Inserted (
      All-snoc old-IsLinked (log_of before) (as_stored jsonb e)
        (All-both (log_of before) h.top h.linked) new-IsLinked)

  Inserted-link_top :
      (d' : String) (n : ℤ) → has_link d' n later.links ≡ true → n ≤ℤ later.last_value
  Inserted-link_top d' n l = rw i.last (ground (arith, rw i.linked at l, h.link_top d' n, i.drawn))

  pub Inserted-IsSound : (d ≢ "" → has_key d before.keys ≡ true) → IsSound later
  Inserted-IsSound used = record {
    rising = Inserted-rising;
    top = Inserted-top;
    room = Inserted-room;
    ranged = rw i.last i.ranged;
    current = Inserted-current;
    versioned = Inserted-versioned;
    keyed = Inserted-keyed used;
    linked = Inserted-IsLinked;
    link_top = Inserted-link_top;
  }
