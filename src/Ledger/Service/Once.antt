-- ===== src/Ledger/Service/Once.antt =====
-- Commands on one stream under an idempotency key that was used before.
use streamledger.Prelude.{
  ◌^◌, ◌<◌, ◌≡◌, ◌≢◌, inl, inr, refl, sym, ap, ◌∙◌, List, [], ◌∷◌, ◌++◌, String, length,
  select-append, ◌==◌, string_eq,
}
use streamledger.Outcome.{Outcome}
use streamledger.EventStore.{Event, Store, StreamKey, produced_under}
use streamledger.EventStore.Contract.{Lawful}
use streamledger.Ledger.Command.{World, Others}
use streamledger.Ledger.Interleaving.{Respects, Waits-Continues}
use streamledger.Ledger.Service.{Service, Proposal}
use streamledger.Ledger.Service.Settle.{Silent}
use streamledger.Ledger.Service.Commit.{Sees}
use streamledger.Ledger.Service.Run.{auto_run, run_command-Ends}

nil-append : (xs ys : List Event) → xs ++ ys ≡ [] → xs ≡ []
nil-append [] ys h = refl
nil-append (x ∷ xs) ys h = cc

module _ {S : Type 0} {ops : Store S} (laws : Lawful ops) {others : Others S}
    (r : Respects laws others) (svc : Service) (k : StreamKey) (d : String)
    (propose : List Event → Outcome Proposal) (sees : Sees propose) where
  -- In auto mode, on a valid store, with others that keep it valid and only append, in a log that
  -- stays below 2^63 events: a one-stream command under a key that has produced events changes and
  -- publishes nothing and reports no new result, whatever it asks for and whatever the others do.
  pub used_key-Silent :
      (w : World S)
      → laws.IsValid w.store
      → length (laws.log (auto_run laws r svc k d propose sees w).1.store) < 2 ^ 63
      → d ≢ ""
      → produced_under d (laws.log w.store) ≢ []
      → Silent others w (auto_run laws r svc k d propose sees w)
  used_key-Silent w h small key used =
      elim (run_command-Ends laws r svc k d propose sees w h small) [
        | inl silent ↦ silent
        | inr c ↦
            let (more, q) = (Waits-Continues laws r c.waited h).1 in
            let none_yet = c.first_use key in
            absurd (
              used (
                nil-append _ _ (
                  sym (select-append (λ e. e.metadata.dedupe_key == d) (laws.log w.store) more)
                  ∙ ap (produced_under d) (sym q)
                  ∙ none_yet)))
      ]
