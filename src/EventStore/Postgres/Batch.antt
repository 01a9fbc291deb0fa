-- ===== src/EventStore/Postgres/Batch.antt =====
-- What `Append` (internal/eventstore/postgres/store.go) does between BEGIN and COMMIT, by its effect on the tables.
use streamledger.Prelude.{
  ◌≡◌, ◌≢◌, ◌⊎◌, inl, inr, refl, sym, ap, ◌∙◌, Bool, true, false, Bool-cases, Option, none, some,
  List, [], ◌∷◌, ◌++◌, map, String, arith, length-append, ◌==◌, string_eq, eq_iff, beq_refl,
}
use streamledger.Json.{Payload}
use streamledger.Outcome.{ok}
use streamledger.Action.{>>=-eq-ok}
use streamledger.EventStore.{
  AppendEvent, Event, StreamKey, stream_key_eq, key_of, target, stream, produced_under,
}
use streamledger.EventStore.Contract.{Lengths, lengths, grow, Admissible, Recorded}
use streamledger.EventStore.Streams.{stream-snoc}
use streamledger.EventStore.Postgres.{
  Database, query, load_dedupe_events, reserve, append_one, append_all, append_in, key_exists,
  key_events, insert_key,
}
use streamledger.EventStore.Postgres.Tables.{Tables, has_key, Serves, after, as_stored}
use streamledger.EventStore.Postgres.Steps.{Inserted, query_ok, append_one-Inserted}
use streamledger.EventStore.Postgres.Invariant.{
  IsSound, log_of, log-Inserted, Inserted-IsSound, key_lem, dedupe_lem,
}
use streamledger.EventStore.Postgres.Reads.{collected, dedupe_rows}

-- The tables after the loop of `Append`.
pub record Appended (jsonb : Payload → Payload) (d : String) (batch : List AppendEvent)
    (before : Tables) (produced : List Event) (later : Tables) : Type 0 where
  pub sound : IsSound later
  pub grown : log_of later ≡ log_of before ++ map (as_stored jsonb) produced
  pub admitted : Admissible (lengths (log_of before)) batch
  pub recorded : Recorded d batch produced

Admissible-same :
    (len len' : Lengths) (batch : List AppendEvent)
    → ((k : StreamKey) → len k ≡ len' k)
    → Admissible len batch
    → Admissible len' batch
Admissible-same len len' [] same h = tt
Admissible-same len len' (e ∷ batch) same h = (
  ground (arith, same (target e), h.0),
  Admissible-same (grow (target e) len) (grow (target e) len') batch (λ k. ground (arith, same k))
      h.1,
)

lengths-snoc :
    (events : List Event) (e : Event) (k : StreamKey)
    → lengths (events ++ e ∷ []) k ≡ grow (key_of e) (lengths events) k
lengths-snoc events e k =
    ground (arith, stream-snoc k events e, length-append (stream k events) (e ∷ []))

append-snoc : (xs : List Event) (e : Event) (zs : List Event) → (xs ++ e ∷ []) ++ zs ≡ xs ++ e ∷ zs
append-snoc [] e zs = refl
append-snoc (x ∷ xs) e zs = ap (λ l. x ∷ l) (append-snoc xs e zs)

append-[] : (xs : List Event) → xs ≡ xs ++ []
append-[] [] = refl
append-[] (x ∷ xs) = ap (λ l. x ∷ l) (append-[] xs)

-- One more event in front.
Appended-cons :
    (jsonb : Payload → Payload) (d : String) (a : AppendEvent) (batch : List AppendEvent)
    (before middle later : Tables) (e : Event) (produced : List Event)
    → IsSound before
    → Inserted jsonb d a before e middle
    → Appended jsonb d batch middle produced later
    → Appended jsonb d (a ∷ batch) before (e ∷ produced) later
Appended-cons jsonb d a batch before middle later e produced h i rest =
    let one = log-Inserted jsonb d a before middle e h i in
    let same = key_lem jsonb d a before middle e h i in
    record {
      sound = rest.sound;
      grown =
          rest.grown
          ∙ ap (λ l. l ++ map (as_stored jsonb) produced) one
          ∙ append-snoc (log_of before) (as_stored jsonb e) (map (as_stored jsonb) produced);
      admitted = (
        ground (arith, i.fits, i.was_current, h.current (target a)),
        Admissible-same _ _ batch
            (λ k.
              ap (λ l. lengths l k) one
              ∙ lengths-snoc (log_of before) (as_stored jsonb e) k
              ∙ ap (λ j. grow j (lengths (log_of before)) k) same)
            rest.admitted,
      );
      recorded = (
        record {
          stored_under = same;
          stored_type = ap (λ (x : Event). x.event_type) i.made;
          stored_payload = ap (λ (x : Event). x.payload) i.made;
          stored_key = dedupe_lem jsonb d a before middle e h i;
        },
        rest.recorded,
      );
    }

-- The outcome of looking for the key's earlier events.
abbrev pub Fresh : String → Tables → Tables → Type 0
Fresh d before later =
    IsSound later
    × (log_of later ≡ log_of before)
    × (d ≢ "" → has_key d later.keys ≡ true)
    × (d ≢ "" → has_key d before.keys ≡ false)
    × (d ≢ "" → produced_under d (log_of before) ≡ [])

module _ {D T : Type 0} (db : Database D T) (jsonb : Payload → Payload) (p : Serves jsonb db) where
  pub append_all-Appended :
      (d : String) (batch : List AppendEvent) (t : T) {produced : List Event}
      → IsSound (p.seen t)
      → (d ≢ "" → has_key d (p.seen t).keys ≡ true)
      → (append_all db d batch t).0 ≡ ok produced
      → Appended jsonb d batch (p.seen t) produced (p.seen (append_all db d batch t).1)
  unfolding append_all
  append_all-Appended d [] t {produced} h used e =
      let same : [] ≡ produced = ground arith in
      rw (← same) (record { sound = h; grown = append-[] _; admitted = tt; recorded = tt })
  append_all-Appended d (a ∷ batch) t {produced} h used e =
      let (event, q₁, h₁, e₁) = >>=-eq-ok (append_one db d a) _ t e in
      let t₁ = (append_one db d a t).1 in
      let (rest, q₂, h₂, e₂) = >>=-eq-ok (append_all db d batch) _ t₁ h₁ in
      let i = append_one-Inserted db jsonb p d a t q₁ in
      let sound = Inserted-IsSound jsonb d a (p.seen t) (p.seen t₁) event h i used in
      let later =
        append_all-Appended d batch t₁ sound (λ ne. ap (has_key d) i.same_keys ∙ used ne) q₂ in
      let same : event ∷ rest ≡ produced = ground arith in
      rw (e₁, e₂, ← same)
        (Appended-cons jsonb d a batch (p.seen t) (p.seen t₁) _ event rest h i later)

  load_dedupe_events_ok :
      (d : String) (t : T) {events : List Event}
      → d ≢ ""
      → IsSound (p.seen t)
      → (load_dedupe_events db d t).0 ≡ ok events
      → (events ≡ produced_under d (log_of (p.seen t)))
        × (p.seen (load_dedupe_events db d t).1 ≡ p.seen t)
  unfolding load_dedupe_events
  load_dedupe_events_ok d t ne h e =
      let (rows, q₁, h₁, e₁) = >>=-eq-ok (query db (key_events d) "query dedupe events") _ t e in
      let answer = query_ok db jsonb p (key_events d) "query dedupe events" t q₁ in
      (
        collected "scan dedupe event" rows _ answer.0 h₁ ∙ dedupe_rows d (p.seen t) ne h.linked,
        rw e₁ answer.1,
      )

  IsSound-with_key :
      (d : String) (ts : Tables) → IsSound ts → IsSound (record ts { keys = d ∷ ts.keys })
  IsSound-with_key d ts h = record {
    rising = h.rising;
    top = h.top;
    room = h.room;
    ranged = h.ranged;
    current = h.current;
    versioned = h.versioned;
    keyed = λ k ne absent. h.keyed k ne (ground arith);
    linked = h.linked;
    link_top = h.link_top;
  }

  pub reserve_ok :
      (d : String) (t : T) {prior : Option (List Event)}
      → IsSound (p.seen t)
      → (reserve db d t).0 ≡ ok prior
      → ((prior ≡ none) × Fresh d (p.seen t) (p.seen (reserve db d t).1))
        ⊎ ((d ≢ "")
            × (has_key d (p.seen t).keys ≡ true)
            × (prior ≡ some (produced_under d (log_of (p.seen t))))
            × (p.seen (reserve db d t).1 ≡ p.seen t))
  unfolding reserve
  reserve_ok d t {prior} h e = elim (Bool-cases (d == "")) [
    | inl empty ↦
        let is : d ≡ "" = (eq_iff d "").0 empty in
        let same : none ≡ prior = let q : ok none ≡ ok prior = rw empty at e in ground arith in
        inl (
          sym same,
          rw empty (h, refl, λ ne. absurd (ne is), λ ne. absurd (ne is), λ ne. absurd (ne is)),
        )
    | inr key ↦
        let ne : d ≢ "" = λ q. (let t : (d == "") ≡ true = (eq_iff d "").1 q in cc) in
        let (exists, q₁, h₁, e₁) =
          >>=-eq-ok (query db (key_exists d) "check dedupe") _ t (rw key at e) in
        let t₁ = (query db (key_exists d) "check dedupe" t).1 in
        let s₁ = query_ok db jsonb p (key_exists d) "check dedupe" t q₁ in
        elim (Bool-cases exists) [
          | inl there ↦
              let (events, q₂, h₂, e₂) =
                >>=-eq-ok (load_dedupe_events db d) _ t₁ (rw there at h₁) in
              let loaded = load_dedupe_events_ok d t₁ ne (rw s₁.1 h) q₂ in
              let same : some events ≡ prior = ground arith in
              inr (
                ne,
                sym s₁.0 ∙ there,
                sym same
                    ∙ ap some loaded.0
                    ∙ ap (λ (ts : Tables). some (produced_under d (log_of ts))) s₁.1,
                rw (key, e₁, there, e₂) (loaded.1 ∙ s₁.1),
              )
          | inr absent ↦
              let (u, q₂, h₂, e₂) =
                >>=-eq-ok (query db (insert_key d) "reserve dedupe key") _ t₁ (rw absent at h₁) in
              let s₂ = (query_ok db jsonb p (insert_key d) "reserve dedupe key" t₁ q₂).1 in
              let same : none ≡ prior = ground arith in
              let tables = s₂ ∙ ap (after jsonb (insert_key d) tt) s₁.1 in
              let unused : has_key d (p.seen t).keys ≡ false = sym s₁.0 ∙ absent in
              inl (
                sym same,
                rw (key, e₁, absent, e₂, tables)
                    (
                      IsSound-with_key d (p.seen t) h,
                      refl,
                      λ _. ground (arith, beq_refl d),
                      λ _. unused,
                      λ ne. h.keyed d ne unused,
                    ),
              )
        ]
  ]

  -- The transaction has brought back what the key produced, or it has written the batch.
  pub append_in_ok :
      (d : String) (batch : List AppendEvent) (t : T) {events : List Event} {dup : Bool}
      → IsSound (p.seen t)
      → (append_in db d batch t).0 ≡ ok (events, dup)
      → ((dup ≡ true)
          × (d ≢ "")
          × (has_key d (p.seen t).keys ≡ true)
          × (events ≡ produced_under d (log_of (p.seen t)))
          × (p.seen (append_in db d batch t).1 ≡ p.seen t))
        ⊎ ((dup ≡ false)
            × Appended jsonb d batch (p.seen t) events (p.seen (append_in db d batch t).1)
            × (d ≢ "" → has_key d (p.seen t).keys ≡ false)
            × (d ≢ "" → produced_under d (log_of (p.seen t)) ≡ []))
  unfolding append_in
  append_in_ok d batch t {events} {dup} h e =
      let (prior, q₁, h₁, e₁) = >>=-eq-ok (reserve db d) _ t e in
      let t₁ = (reserve db d t).1 in
      elim (reserve_ok d t h q₁) [
        | inr (ne, used, found, unchanged) ↦
            let q : ok (produced_under d (log_of (p.seen t)), true) ≡ ok (events, dup) =
              rw found at h₁ in
            inl (ground arith, ne, used, ground arith, rw (e₁, found) unchanged)
        | inl (none_yet, (sound, same, used, unused, fresh)) ↦
            let (produced, q₂, h₂, e₂) =
              >>=-eq-ok (append_all db d batch) _ t₁ (rw none_yet at h₁) in
            let q : ok (produced, false) ≡ ok (events, dup) = h₂ in
            let is : produced ≡ events = ground arith in
            let written = append_all-Appended d batch t₁ sound used q₂ in
            inr (
              ground arith,
              rw (e₁, none_yet, e₂, ← is)
                  (record {
                    sound = written.sound;
                    grown = written.grown ∙ ap (λ l. l ++ map (as_stored jsonb) produced) same;
                    admitted =
                        Admissible-same _ _ batch (λ k. ap (λ l. lengths l k) same)
                          written.admitted;
                    recorded = written.recorded;
                  }),
              unused,
              fresh,
            )
      ]
