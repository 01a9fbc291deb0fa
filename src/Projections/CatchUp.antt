-- ===== src/Projections/CatchUp.antt =====
-- `CatchUp` of internal/projections/projector.go on the in-process log.
use mathlib.Core.List.{append-nil, append_assoc}
use streamledger.Prelude.{
  ℕ, zero, suc, ◌+◌, ◌<◌, ◌^◌, ◌≡◌, ◌⊎◌, refl, sym, ap, ◌∙◌, inl, inr, Bool-cases, Option, some,
  List, [], ◌∷◌, ◌++◌, String, arith, if◌then◌else◌, length, length-append, ℤ, pos, negsuc, ltb_ℤ,
  ◌<ℤ◌,
}
use streamledger.Int64.{int64}
use streamledger.Outcome.{Outcome, ok}
use streamledger.EventStore.{Event}
use streamledger.EventStore.Numbering.{Numbered}
use streamledger.EventStore.Memory.{MemoryStore, load_since}
use streamledger.EventStore.Memory.Counting.{IsCounted}
use streamledger.EventStore.Memory.Since.{take, page, Numbered-suffix, load_since_exact}
use streamledger.Projections.Memory.{ReadModels, read_models, get_checkpoint}
use streamledger.Projections.Projector.{account_applier, apply_batch, catch_up}
use streamledger.Projections.Redelivery.{checkpoint_of}
use streamledger.Projections.Mirror.{
  Mirrors, Replayable, Replayable-prefix, accounts_projector, apply_batch-Mirrors,
}

take-split :
    (n : ℕ) (events : List Event)
    → (more : List Event) × (events ≡ take (suc n) events ++ more)
      × (length (take (suc n) events) < suc n → more ≡ [])
take-split n [] = ([], refl, λ h. refl)
take-split zero (e ∷ events) = (events, refl, λ h. absurd (omega arith))
take-split (suc n) (e ∷ events) =
    let (more, p, q) = take-split n events in (more, ap (λ l. e ∷ l) p, λ h. q (omega arith))

-- What a page leaves of the log, and that a page shorter than its limit leaves nothing.
page-split :
    (limit : ℤ) (events : List Event)
    → (more : List Event) × (events ≡ page limit events ++ more)
      × (page limit events ≡ [] → events ≡ [])
      × (pos (length (page limit events)) <ℤ limit → more ≡ [])
page-split (pos zero) events = ([], sym (append-nil events), λ h. h, λ h. refl)
page-split (negsuc n) events = ([], sym (append-nil events), λ h. h, λ h. refl)
page-split (pos (suc n)) [] = ([], refl, λ h. h, λ h. refl)
page-split (pos (suc n)) (e ∷ events) =
    let (more, p, q) = take-split n (e ∷ events) in
    (more, p, λ h. absurd (cc), λ h. q (omega arith))

List-cases : (l : List Event) → (l ≡ []) ⊎ ((e : Event) × (events : List Event) × (l ≡ e ∷ events))
List-cases [] = inl refl
List-cases (e ∷ events) = inr (e, events, refl)

Numbered-prefix :
    (n : ℕ) (xs ys : List Event)
    → Numbered (λ e. e.global_seq) n (xs ++ ys)
    → Numbered (λ e. e.global_seq) n xs
Numbered-prefix n [] ys h = tt
Numbered-prefix n (x ∷ xs) ys h = (h.0, Numbered-prefix (suc n) xs ys h.1)

module _ (name : String) (log : MemoryStore) (counted : IsCounted log)
    (small : length log.events < 2 ^ 63) (able : Replayable log.events) (batch : ℤ) where
  abbrev pub caught_up : ℕ → ℕ → ReadModels → Option (ℕ × Outcome (Unit {0})) × ReadModels
  caught_up = catch_up (accounts_projector name) (λ after limit. load_since after limit log) batch

  -- The run ends without an error, the views show the whole log, and the checkpoint is at its end.
  abbrev pub Caught : ℕ → ℕ → ReadModels → Type 0
  Caught fuel applied s =
      (n : ℕ) × ((caught_up fuel applied s).0 ≡ some (n, ok tt))
      × Mirrors log.events (caught_up fuel applied s).1
      × (checkpoint_of name (account_applier read_models) (caught_up fuel applied s).1
          ≡ int64 (length log.events))

  -- A turn of the loop that finds no event.
  nothing_left :
      (fuel applied : ℕ) (s : ReadModels)
      → load_since (checkpoint_of name (account_applier read_models) s) batch log ≡ ok []
      → caught_up (suc fuel) applied s ≡ (some (applied, ok tt), s)
  unfolding catch_up get_checkpoint
  nothing_left fuel applied s l = rw (catch_up, l)

  -- A turn of the loop that applies a batch.
  applied_batch :
      (fuel applied : ℕ) (s : ReadModels) (e : Event) (events : List Event)
      → load_since (checkpoint_of name (account_applier read_models) s) batch log ≡ ok (e ∷ events)
      → (apply_batch (accounts_projector name) (e ∷ events) applied s).0.1 ≡ ok tt
      → caught_up (suc fuel) applied s ≡ (
          let r = apply_batch (accounts_projector name) (e ∷ events) applied s in
          if ltb_ℤ (pos (length (e ∷ events))) batch
          then (some (r.0.0, ok tt), r.1)
          else caught_up fuel r.0.0 r.1)
  unfolding catch_up get_checkpoint
  applied_batch fuel applied s e events l q = rw (catch_up, l) (rw q)

  -- On an in-process log that is replayable, has right counters and less than 2^63 events, and that
  -- nobody appends to meanwhile: from views and a checkpoint that show some beginning of the log, an
  -- account projector's CatchUp ends without an error after at most one turn more than there are
  -- events left, whatever the batch size, and then the view of every account shows its fold, and the
  -- checkpoint is the number of the log's events.
  pub catch_up-Caught :
      (fuel applied : ℕ) (done rest : List Event) (s : ReadModels)
      → log.events ≡ done ++ rest
      → Mirrors done s
      → checkpoint_of name (account_applier read_models) s ≡ int64 (length done)
      → length rest < fuel
      → Caught fuel applied s
  catch_up-Caught zero applied done rest s split h c enough = absurd (omega arith)
  catch_up-Caught (suc fuel) applied done rest s split h c enough =
      let (more, all, none_left, short) = page-split batch rest in
      let loaded = load_since_exact log done rest batch counted small split in
      let at_checkpoint : load_since (checkpoint_of name (account_applier read_models) s) batch log
          ≡ ok (page batch rest) =
        rw c loaded in
      elim (List-cases (page batch rest)) [
        | inl q ↦
            let step = nothing_left fuel applied s (at_checkpoint ∙ ap ok q) in
            let whole : log.events ≡ done =
              split ∙ ap (λ l. done ++ l) (none_left q) ∙ append-nil done in
            (applied, ap (λ x. x.0) step, rw (step, whole) h, rw (step, whole) c)
        | inr (e, events, q) ↦
            let cut : log.events ≡ (done ++ e ∷ events) ++ more =
              split
              ∙ ap (λ l. done ++ l) (all ∙ ap (λ l. l ++ more) q)
              ∙ sym (append_assoc done (e ∷ events) more) in
            let longer : length done + length (e ∷ events) ≡ length (done ++ e ∷ events) =
              omega (arith, length-append done (e ∷ events)) in
            let bound : length done + length (e ∷ events) < 2 ^ 63 =
              omega (arith, longer, length-append (done ++ e ∷ events) more, ap length cut) in
            let left : length more < fuel =
              omega (arith, ap length all, ap length q, length-append (page batch rest) more) in
            let able₁ = Replayable-prefix (done ++ e ∷ events) more (rw cut at able) in
            let num =
              Numbered-suffix 0 done (e ∷ events)
                (Numbered-prefix 0 (done ++ e ∷ events) more (rw cut at counted.sequenced)) in
            let from : Numbered (λ e. e.global_seq) (length done) (e ∷ events) =
              let p : 0 + length done ≡ length done = omega arith in rw p at num in
            let r = apply_batch-Mirrors name done (e ∷ events) s applied bound able₁ h c from in
            let step = applied_batch fuel applied s e events (at_checkpoint ∙ ap ok q) r.0 in
            let b = apply_batch (accounts_projector name) (e ∷ events) applied s in
            elim (Bool-cases (ltb_ℤ (pos (length (e ∷ events))) batch)) [
              | inl last ↦
                  let stop : caught_up (suc fuel) applied s ≡ (some (b.0.0, ok tt), b.1) =
                    step ∙ rw last in
                  let under : pos (length (e ∷ events)) <ℤ batch = ground arith in
                  let whole : log.events ≡ done ++ e ∷ events =
                    cut
                    ∙ ap (λ l. (done ++ e ∷ events) ++ l) (short (rw q under))
                    ∙ append-nil (done ++ e ∷ events) in
                  (b.0.0, ap (λ x. x.0) stop, rw (stop, whole) r.1, rw (stop, whole) r.2)
              | inr full ↦
                  let on : caught_up (suc fuel) applied s ≡ caught_up fuel b.0.0 b.1 =
                    step ∙ rw full in
                  let (n, end, m, k) =
                    catch_up-Caught fuel b.0.0 (done ++ e ∷ events) more b.1 cut r.1 r.2 left in
                  (n, ap (λ x. x.0) on ∙ end, rw on m, rw on k)
            ]
      ]
