-- ===== src/EventStore/Postgres/Steps.antt =====
-- One turn of the loop of `Append` (internal/eventstore/postgres/store.go), by its effect on the tables.
use streamledger.Prelude.{
  ◌≡◌, ◌⊎◌, inl, inr, sym, ap, ◌∙◌, false, not, ◌&&◌, Bool-cases, none, some, [], ◌∷◌, ◌++◌, String,
  arith, if◌then◌else◌, ℤ, pos, eqb_ℤ, ◌<ℤ◌, ◌==◌, string_eq, eq_iff, lookup, lookup_or, insert,
  lookup-insert, beq_refl,
}
use streamledger.Json.{Payload}
use streamledger.Int64.{IsInt64, add64}
use streamledger.Outcome.{ok, err, version_conflict, Outcome-cases}
use streamledger.Action.{>>=-eq-ok}
use streamledger.EventStore.{
  Time, AppendEvent, Event, StreamKey, stream_key_eq, stream_key_beq_iff, target, no_version_check,
}
use streamledger.EventStore.Postgres.{
  EventRow, NewRow, Statement, Answer, Database, scan_event, text_or_empty, query, link, insert_one,
  append_one, ensure_stream, lock_version, insert_event, set_version, link_key,
}
use streamledger.EventStore.Postgres.Tables.{Tables, Answers, after, row_of, Serves, as_stored}

-- The tables after one event was written with the sequence number and the time that were drawn.
pub record Inserted (jsonb : Payload → Payload) (d : String) (a : AppendEvent) (before : Tables)
    (event : Event) (later : Tables) : Type 0 where
  pub current : ℤ
  pub was_current : current ≡ lookup_or (pos 0) (target a) before.versions
  pub fits : (a.expected_version ≡ no_version_check) ⊎ (a.expected_version ≡ current)
  pub row : EventRow
  pub scanned : as_stored jsonb event ≡ scan_event row
  pub made : event ≡ record {
    global_seq = row.global_seq;
    aggregate_type = a.aggregate_type;
    aggregate_id = a.aggregate_id;
    version = add64 current (pos 1);
    event_type = a.event_type;
    payload = a.payload;
    metadata = record { dedupe_key = d; correlation_id = "" };
    created_at = row.created_at;
  }
  pub drawn : before.last_value <ℤ row.global_seq
  pub ranged : IsInt64 row.global_seq
  pub same_keys : later.keys ≡ before.keys
  pub grown : later.events ≡ before.events ++ row ∷ []
  pub last : later.last_value ≡ row.global_seq
  pub linked : later.links ≡ (if d == "" then before.links else (d, row.global_seq) ∷ before.links)
  pub counted :
      (k : StreamKey)
      → lookup_or (pos 0) k later.versions
        ≡ (if target a == k then add64 current (pos 1) else lookup_or (pos 0) k before.versions)

-- The stream's row is there, with version 0 if it is new.
ensured_versions :
    (jsonb : Payload → Payload) (k : StreamKey) (current : ℤ) (before : Tables)
    → lookup k (after jsonb (ensure_stream k) tt before).versions ≡ some current
    → (current ≡ lookup_or (pos 0) k before.versions)
      × ((j : StreamKey)
          → lookup_or (pos 0) j (after jsonb (ensure_stream k) tt before).versions
            ≡ lookup_or (pos 0) j before.versions)
ensured_versions jsonb k current before h = (
  ground (arith, lookup-insert k k (pos 0) before.versions, beq_refl k),
  λ j. ground (arith, lookup-insert k j (pos 0) before.versions, stream_key_beq_iff k j),
)

set_there :
    (jsonb : Payload → Payload) (v : ℤ) (k : StreamKey) (ts : Tables) {old : ℤ}
    → lookup k ts.versions ≡ some old
    → after jsonb (set_version v k) tt ts ≡ record ts { versions = insert k v ts.versions }
set_there jsonb v k ts there = ground arith

ensured_rest :
    (jsonb : Payload → Payload) (k : StreamKey) (ts : Tables)
    → ((after jsonb (ensure_stream k) tt ts).keys ≡ ts.keys)
      × ((after jsonb (ensure_stream k) tt ts).links ≡ ts.links)
      × ((after jsonb (ensure_stream k) tt ts).events ≡ ts.events)
      × ((after jsonb (ensure_stream k) tt ts).last_value ≡ ts.last_value)
ensured_rest jsonb k ts = ground arith

-- Writing after the stream's row was made sure of is writing.
Inserted-ensured :
    (jsonb : Payload → Payload) (d : String) (a : AppendEvent) (before middle : Tables)
    {event : Event} {later : Tables}
    → middle ≡ after jsonb (ensure_stream (target a)) tt before
    → ((k : StreamKey) → lookup_or (pos 0) k middle.versions ≡ lookup_or (pos 0) k before.versions)
    → Inserted jsonb d a middle event later
    → Inserted jsonb d a before event later
Inserted-ensured jsonb d a before middle same counted i =
    let rest = ensured_rest jsonb (target a) before in
    let keys = ap (λ (ts : Tables). ts.keys) same ∙ rest.0 in
    let links = ap (λ (ts : Tables). ts.links) same ∙ rest.1 in
    let events = ap (λ (ts : Tables). ts.events) same ∙ rest.2 in
    let last = ap (λ (ts : Tables). ts.last_value) same ∙ rest.3 in
    record {
      current = i.current;
      was_current = i.was_current ∙ counted (target a);
      fits = i.fits;
      row = i.row;
      scanned = i.scanned;
      made = i.made;
      drawn = rw last at i.drawn;
      ranged = i.ranged;
      same_keys = i.same_keys ∙ keys;
      grown = i.grown ∙ ap (λ l. l ++ i.row ∷ []) events;
      last = i.last;
      linked = i.linked ∙ ap (λ l. if d == "" then l else (d, i.row.global_seq) ∷ l) links;
      counted = λ k.
          i.counted k ∙ ap (λ v. if target a == k then add64 i.current (pos 1) else v) (counted k);
    }

module _ {D T : Type 0} (db : Database D T) (jsonb : Payload → Payload) (p : Serves jsonb db) where
  pub query_ok :
      (q : Statement) (what : String) (t : T) {a : Answer q}
      → (query db q what t).0 ≡ ok a
      → Answers q (p.seen t) a × (p.seen (query db q what t).1 ≡ after jsonb q a (p.seen t))
  unfolding query
  query_ok q what t {a} h = elim (Outcome-cases (db.run q t).0) [
    | inl (b, e) ↦ let same : ok b ≡ ok a = rw e at h in p.runs q t (e ∙ same)
    | inr (x, e) ↦ absurd (ground arith)
  ]

  link_ok :
      (d : String) (n : ℤ) (t : T)
      → (link db d n t).0 ≡ ok tt
      → p.seen (link db d n t).1 ≡ record (p.seen t) {
        links = if d == "" then (p.seen t).links else (d, n) ∷ (p.seen t).links;
      }
  unfolding link
  link_ok d n t h = elim (Bool-cases (d == "")) [
    | inl empty ↦ rw empty
    | inr key ↦ rw key ((query_ok (link_key d n) "link dedupe event" t (rw key at h)).1)
  ]

  module _ (d : String) (a : AppendEvent) where
    abbrev new_row : ℤ → NewRow
    new_row current = record {
      aggregate_type = a.aggregate_type;
      aggregate_id = a.aggregate_id;
      version = add64 current (pos 1);
      event_type = a.event_type;
      payload = a.payload;
      dedupe_key = if d == "" then none else some d;
    }

    -- The event with the key as the row holds it.
    abbrev with_key : ℤ → ℤ × Time → String → Event
    with_key current drawn key = record {
      global_seq = drawn.0;
      aggregate_type = a.aggregate_type;
      aggregate_id = a.aggregate_id;
      version = add64 current (pos 1);
      event_type = a.event_type;
      payload = a.payload;
      metadata = record { dedupe_key = key; correlation_id = "" };
      created_at = drawn.1;
    }

    abbrev made_event : ℤ → ℤ × Time → Event
    made_event current drawn = with_key current drawn d

    key_text : text_or_empty (if d == "" then none else some d) ≡ d
    key_text = ground (arith, eq_iff d "")

    insert_one-Inserted :
        (current : ℤ) (t : T) {event : Event}
        → current ≡ lookup_or (pos 0) (target a) (p.seen t).versions
        → lookup (target a) (p.seen t).versions ≡ some current
        → (a.expected_version ≡ no_version_check) ⊎ (a.expected_version ≡ current)
        → (insert_one db d a current t).0 ≡ ok event
        → Inserted jsonb d a (p.seen t) event (p.seen (insert_one db d a current t).1)
    unfolding insert_one
    insert_one-Inserted current t {event} was there fits h =
        let (drawn, q₁, h₁, e₁) = >>=-eq-ok (query db (insert_event _) "insert event") _ t h in
        let t₁ = (query db (insert_event _) "insert event" t).1 in
        let (u₂, q₂, h₂, e₂) =
          >>=-eq-ok (query db (set_version _ (target a)) "bump stream version") _ t₁ h₁ in
        let t₂ = (query db (set_version _ (target a)) "bump stream version" t₁).1 in
        let (u₃, q₃, h₃, e₃) = >>=-eq-ok (link db d drawn.0) _ t₂ h₂ in
        let row = row_of jsonb (new_row current) drawn in
        let s₁ = query_ok (insert_event (new_row current)) "insert event" t q₁ in
        let s₂ =
          (query_ok (set_version (add64 current (pos 1)) (target a)) "bump stream version" t₁
            q₂).1 in
        let s₃ = link_ok d drawn.0 t₂ q₃ in
        let there₁ : lookup (target a) (p.seen t₁).versions ≡ some current = rw s₁.1 there in
        let whole = e₁ ∙ e₂ ∙ e₃ in
        let tables : p.seen (insert_one db d a current t).1 ≡ record {
          keys = (p.seen t).keys;
          links = if d == "" then (p.seen t).links else (d, drawn.0) ∷ (p.seen t).links;
          versions = insert (target a) (add64 current (pos 1)) (p.seen t).versions;
          events = (p.seen t).events ++ row ∷ [];
          last_value = drawn.0;
        } =
          rw (
            whole,
            s₃,
            s₂,
            set_there jsonb (add64 current (pos 1)) (target a) (p.seen t₁) there₁,
            s₁.1,
          ) in
        let same : ok (made_event current drawn) ≡ ok event = h₃ in
        let is_made : event ≡ made_event current drawn = cc in
        record {
          current = current;
          was_current = was;
          fits = fits;
          row = row;
          scanned =
              ap (as_stored jsonb) is_made
              ∙ ap (λ key. as_stored jsonb (with_key current drawn key)) (sym key_text);
          made = is_made;
          drawn = s₁.0.0;
          ranged = s₁.0.1;
          same_keys = ap (λ (ts : Tables). ts.keys) tables;
          grown = ap (λ (ts : Tables). ts.events) tables;
          last = ap (λ (ts : Tables). ts.last_value) tables;
          linked = ap (λ (ts : Tables). ts.links) tables;
          counted = λ k.
              ap (λ (ts : Tables). lookup_or (pos 0) k ts.versions) tables
              ∙ ground
                  (arith, lookup-insert (target a) k (add64 current (pos 1)) (p.seen t).versions);
        }

    fits_lem :
        (current : ℤ)
        → (not (eqb_ℤ a.expected_version no_version_check)
            && not (eqb_ℤ a.expected_version current))
          ≡ false
        → (a.expected_version ≡ no_version_check) ⊎ (a.expected_version ≡ current)
    fits_lem current h = ground arith

    pub append_one-Inserted :
        (t : T) {event : Event}
        → (append_one db d a t).0 ≡ ok event
        → Inserted jsonb d a (p.seen t) event (p.seen (append_one db d a t).1)
    unfolding append_one
    append_one-Inserted t {event} h =
        let (u₁, ensured, h₁, e₁) =
          >>=-eq-ok (query db (ensure_stream (target a)) "ensure stream row") _ t h in
        let t₁ = (query db (ensure_stream (target a)) "ensure stream row" t).1 in
        let (current, locked, h₂, e₂) =
          >>=-eq-ok (query db (lock_version (target a)) "lock stream row") _ t₁ h₁ in
        let t₂ = (query db (lock_version (target a)) "lock stream row" t₁).1 in
        let s₁ = (query_ok (ensure_stream (target a)) "ensure stream row" t ensured).1 in
        let s₂ = query_ok (lock_version (target a)) "lock stream row" t₁ locked in
        let start = ensured_versions jsonb (target a) current (p.seen t) (rw s₁ at s₂.0) in
        elim (Bool-cases (
          not (eqb_ℤ a.expected_version no_version_check)
          && not (eqb_ℤ a.expected_version current))) [
            | inl conflict ↦ let bad : err version_conflict ≡ ok event = rw conflict at h₂ in cc
            | inr fits ↦
                let same : p.seen t₂ ≡ after jsonb (ensure_stream (target a)) tt (p.seen t) =
                  s₂.1 ∙ s₁ in
                let there : lookup (target a) (p.seen t₂).versions ≡ some current = rw s₂.1 s₂.0 in
                let counted₂ = λ (k : StreamKey).
                  ap (λ (ts : Tables). lookup_or (pos 0) k ts.versions) same ∙ start.1 k in
                let was = start.0 ∙ sym (counted₂ (target a)) in
                let inserted =
                  insert_one-Inserted current t₂ was there (fits_lem current fits)
                    (rw fits at h₂) in
                let whole : append_one db d a t ≡ insert_one db d a current t₂ =
                  e₁ ∙ e₂ ∙ rw fits in
                rw whole (Inserted-ensured jsonb d a (p.seen t) (p.seen t₂) same counted₂ inserted)
          ]
