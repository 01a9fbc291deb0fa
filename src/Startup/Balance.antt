-- ===== src/Startup/Balance.antt =====
-- What cmd/streamledger/main.go opens it also closes, on every path.
use Prim.Native.String.{◌++◌ as str_append}
use streamledger.Prelude.{
  ◌≡◌, ◌++◌, sym, ◌⊎◌, inl, inr, refl, ap, ◌∙◌, List, [], ◌∷◌, String, string_eq,
}
use streamledger.Outcome.{Error, Outcome, ok, err}
use streamledger.Action.{Action, lift, ◌>>=◌}
use streamledger.Startup.{
  Pools, SchemaFiles, NatsClient, Storage, memory, postgres, EventBus, in_memory, nats, failed,
  named, or_else, sort_strings, connect, apply_files, migrate,
}

pub data Handle (P C : Type 0) : Type 0 where
  pool_handle : P → Handle P C
  connection : C → Handle P C

-- The handles that are open, and what the drivers' calls do to them. A NATS connection counts as open
-- until it is closed or told to drain: it closes itself when it has drained, later than Drain returns.
-- Nothing is said of closing a handle that is not open.
pub record Tracks {W P C J : Type 0} (pools : Pools W P) (client : NatsClient W C J) : Type 0 where
  pub open_now : W → List (Handle P C)
  pub opens_pool :
      (url : String) (s : W) {pool : P}
      → (pools.new_pool url s).0 ≡ ok pool
      → open_now (pools.new_pool url s).1 ≡ pool_handle pool ∷ open_now s
  pub opens_none :
      (url : String) (s : W) {e : Error}
      → (pools.new_pool url s).0 ≡ err e
      → open_now (pools.new_pool url s).1 ≡ open_now s
  pub pings : (pool : P) (s : W) → open_now (pools.ping pool s).1 ≡ open_now s
  pub execs : (pool : P) (sql : String) (s : W) → open_now (pools.exec pool sql s).1 ≡ open_now s
  pub closes_pool :
      (pool : P) (s : W) (newer older : List (Handle P C))
      → open_now s ≡ newer ++ pool_handle pool ∷ older
      → open_now (pools.close pool s) ≡ newer ++ older
  pub dials :
      (url : String) (s : W) {nc : C}
      → (client.dial url s).0 ≡ ok nc
      → open_now (client.dial url s).1 ≡ connection nc ∷ open_now s
  pub dials_none :
      (url : String) (s : W) {e : Error}
      → (client.dial url s).0 ≡ err e
      → open_now (client.dial url s).1 ≡ open_now s
  pub jetstreams : (nc : C) (s : W) → open_now (client.new_jetstream nc s).1 ≡ open_now s
  pub streams :
      (js : J) (name : String) (s : W) → open_now (client.create_stream js name s).1 ≡ open_now s
  pub closes_nats :
      (nc : C) (s : W) (newer older : List (Handle P C))
      → open_now s ≡ newer ++ connection nc ∷ older
      → open_now (client.close nc s) ≡ newer ++ older
  pub drains :
      (nc : C) (s : W) (newer older : List (Handle P C))
      → open_now s ≡ newer ++ connection nc ∷ older
      → open_now (client.drain nc s) ≡ newer ++ older

append_assoc {ℓ} : {A : Type ℓ} (xs ys zs : List A) → xs ++ (ys ++ zs) ≡ (xs ++ ys) ++ zs
append_assoc [] ys zs = refl
append_assoc (x ∷ xs) ys zs = ap (λ l. x ∷ l) (append_assoc xs ys zs)

pub step-cases :
    {W A : Type 0} (x : Outcome A × W)
    → ((a : A) × (s : W) × (x ≡ (ok a, s))) ⊎ ((e : Error) × (s : W) × (x ≡ (err e, s)))
step-cases (ok a, s) = inl (a, s, refl)
step-cases (err e, s) = inr (e, s, refl)

module _ {W H : Type 0} (open_now : W → List H) where
  -- Where n are open, an action that fails leaves n, and one that succeeds leaves what its value holds.
  abbrev pub Left : {A : Type 0} → (A → List H) → List H → Outcome A × W → Type 0
  Left held n (err e, s) = open_now s ≡ n
  Left held n (ok a, s) = open_now s ≡ held a ++ n

  pub record Holds {A : Type 0} (held : A → List H) (n : List H) (x : Outcome A × W) : Type 0 where
    pub leaves : Left held n x

  module _ {A B : Type 0} (held : A → List H) (kept : B → List H) where
    -- The second action starts with what the first one holds.
    pub Holds-bind :
        (m : Action W A) (f : A → Action W B) (s : W) (n : List H)
        → Holds held n (m s)
        → ((a : A) (s' : W) → open_now s' ≡ held a ++ n → Holds kept n (f a s'))
        → Holds kept n ((m >>= f) s)
    Holds-bind m f s n h k = elim (step-cases (m s)) [
      | inl (a, s', q) ↦ rw q (k a s' (rw q at h.leaves))
      | inr (x, s', q) ↦ rw q (record { leaves = rw q at h.leaves })
    ]

  module _ {A : Type 0} (held : A → List H) where
    pub Holds-named :
        (what : String) (m : Action W A) (s : W) (n : List H)
        → Holds held n (m s)
        → Holds held n (named what m s)
    Holds-named what m s n h = elim (step-cases (m s)) [
      | inl (a, s', q) ↦ rw q (record { leaves = rw q at h.leaves })
      | inr (x, s', q) ↦ rw q (record { leaves = rw q at h.leaves })
    ]

    -- What is open besides is given back on the way out.
    pub Holds-or_else :
        (undo : W → W) (m : Action W A) (s : W) (n more : List H)
        → ((s' : W) → open_now s' ≡ more ++ n → open_now (undo s') ≡ n)
        → Holds held (more ++ n) (m s)
        → Holds (λ a. held a ++ more) n (or_else undo m s)
    Holds-or_else undo m s n more back h = elim (step-cases (m s)) [
      | inl (a, s', q) ↦
          let here : open_now s' ≡ held a ++ (more ++ n) = rw q at h.leaves in
          rw q (record { leaves = here ∙ append_assoc (held a) more n })
      | inr (x, s', q) ↦ rw q (record { leaves = back s' (rw q at h.leaves) })
    ]

    -- An action that opens nothing and closes nothing.
    pub Holds-still :
        (m : Action W A) (s : W) (n : List H)
        → ((a : A) → held a ≡ [])
        → open_now s ≡ n
        → open_now (m s).1 ≡ open_now s
        → Holds held n (m s)
    Holds-still m s n zero h still = elim (step-cases (m s)) [
      | inl (a, s', q) ↦
          let same : open_now s' ≡ n = rw q at still ∙ h in
          rw q (record { leaves = same ∙ ap (λ l. l ++ n) (sym (zero a)) })
      | inr (x, s', q) ↦
          let same : open_now s' ≡ n = rw q at still ∙ h in rw q (record { leaves = same })
    ]

abbrev pub none_held : {A H : Type 0} → A → List H
none_held a = []

abbrev pub pool_held : {P C : Type 0} → P → List (Handle P C)
pool_held pool = pool_handle pool ∷ []

abbrev pub connection_held : {P C : Type 0} → C → List (Handle P C)
connection_held nc = connection nc ∷ []

-- What a storage holds, and what a bus holds.
abbrev pub pools_of : {P C : Type 0} → Storage P → List (Handle P C)
pools_of memory = []
pools_of (postgres es rm) = pool_handle rm ∷ pool_handle es ∷ []

abbrev pub connections_of : {P C : Type 0} → EventBus C → List (Handle P C)
connections_of in_memory = []
connections_of (nats nc) = connection nc ∷ []

module _ {W P C J : Type 0} (pools : Pools W P) (client : NatsClient W C J)
    (c : Tracks pools client) where
  abbrev pub HoldsNow :
      {A : Type 0} → (A → List (Handle P C)) → List (Handle P C) → Outcome A × W → Type 0
  HoldsNow = Holds c.open_now

  pub lift-Holds :
      {A : Type 0} (r : Outcome A) (s : W) (n : List (Handle P C))
      → c.open_now s ≡ n
      → HoldsNow none_held n (lift r s)
  lift-Holds r s n h = Holds-still c.open_now none_held (lift r) s n (λ a. refl) h refl

  new_pool-Holds :
      (url : String) (s : W) (n : List (Handle P C))
      → c.open_now s ≡ n
      → HoldsNow pool_held n (pools.new_pool url s)
  new_pool-Holds url s n h = elim (step-cases (pools.new_pool url s)) [
    | inl (pool, s', q) ↦
        let more : c.open_now s' ≡ pool_handle pool ∷ c.open_now s =
          rw q at (c.opens_pool url s (ap (λ x. x.0) q)) in
        rw q (record { leaves = more ∙ ap (λ l. pool_handle pool ∷ l) h })
    | inr (x, s', q) ↦
        let same : c.open_now s' ≡ c.open_now s = rw q at (c.opens_none url s (ap (λ x. x.0) q)) in
        rw q (record { leaves = same ∙ h })
  ]

  pub dial-Holds :
      (url : String) (s : W) (n : List (Handle P C))
      → c.open_now s ≡ n
      → HoldsNow connection_held n (client.dial url s)
  dial-Holds url s n h = elim (step-cases (client.dial url s)) [
    | inl (nc, s', q) ↦
        let more : c.open_now s' ≡ connection nc ∷ c.open_now s =
          rw q at (c.dials url s (ap (λ x. x.0) q)) in
        rw q (record { leaves = more ∙ ap (λ l. connection nc ∷ l) h })
    | inr (x, s', q) ↦
        let same : c.open_now s' ≡ c.open_now s = rw q at (c.dials_none url s (ap (λ x. x.0) q)) in
        rw q (record { leaves = same ∙ h })
  ]

  module _ (schema : SchemaFiles) (label : String) where
    pub connect-Holds :
        (url : String) (s : W) (n : List (Handle P C))
        → c.open_now s ≡ n
        → HoldsNow pool_held n (connect pools schema label url s)
    unfolding connect
    connect-Holds url s n h =
        Holds-bind c.open_now pool_held pool_held
          (named (str_append label ": connect") (pools.new_pool url)) _ s n
          (Holds-named c.open_now pool_held (str_append label ": connect") (pools.new_pool url) s n
            (new_pool-Holds url s n h))
          (λ pool s₁ h₁.
            Holds-bind c.open_now (λ _. pool_held pool) pool_held
              (or_else (pools.close pool) (named (str_append label ": ping") (pools.ping pool))) _
              s₁ n
              (Holds-or_else c.open_now none_held (pools.close pool)
                (named (str_append label ": ping") (pools.ping pool)) s₁ n (pool_held pool)
                (λ s₂ h₂. c.closes_pool pool s₂ [] n h₂)
                (Holds-named c.open_now none_held (str_append label ": ping") (pools.ping pool) s₁
                  (pool_handle pool ∷ n)
                  (Holds-still c.open_now none_held (pools.ping pool) s₁ (pool_handle pool ∷ n)
                    (λ a. refl) h₁ (c.pings pool s₁))))
              (λ u s₂ h₂. record { leaves = h₂ }))

    apply_files-Holds :
        (pool : P) (names : List String) (s : W) (n : List (Handle P C))
        → c.open_now s ≡ n
        → HoldsNow none_held n (apply_files pools schema label pool names s)
    unfolding apply_files
    apply_files-Holds pool [] s n h = record { leaves = h }
    apply_files-Holds pool (name ∷ names) s n h =
        Holds-bind c.open_now none_held none_held
          (lift (failed (str_append label (str_append ": read " name)) (schema.read_file name))) _ s
          n (lift-Holds _ s n h)
          (λ text s₁ h₁.
            Holds-bind c.open_now none_held none_held
              (named (str_append label (str_append ": apply " name)) (pools.exec pool text)) _ s₁ n
              (Holds-named c.open_now none_held _ (pools.exec pool text) s₁ n (
                Holds-still c.open_now none_held (pools.exec pool text) s₁ n (λ a. refl) h₁
                  (c.execs pool text s₁)))
              (λ u s₂ h₂. apply_files-Holds pool names s₂ n h₂))

    pub migrate-Holds :
        (pool : P) (s : W) (n : List (Handle P C))
        → c.open_now s ≡ n
        → HoldsNow none_held n (migrate pools schema label pool s)
    unfolding migrate
    migrate-Holds pool s n h =
        Holds-bind c.open_now none_held none_held
          (lift (failed (str_append label ": read schema dir") schema.read_dir)) _ s n
          (lift-Holds _ s n h) (λ names s₁ h₁. apply_files-Holds pool (sort_strings names) s₁ n h₁)
