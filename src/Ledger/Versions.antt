-- ===== src/Ledger/Versions.antt =====
-- The version that a folded state carries, which the version check goes by.
use streamledger.Prelude.{ℕ, suc, ◌+◌, ◌≡◌, refl, ◌∙◌, List, [], ◌∷◌, String, arith, length}
use streamledger.Int64.{int64, wrap64}
use streamledger.Outcome.{ok, >>=-eq-ok}
use streamledger.EventStore.{Event}
use streamledger.EventStore.Numbering.{Numbered}
use streamledger.Ledger.State.{
  AccountState, InventoryState, zero_account, zero_inventory, apply_account, apply_inventory,
  fold_account_from, fold_account, fold_inventory_from, fold_inventory,
}

version-apply_account :
    (st : AccountState) (e : Event) (st' : AccountState)
    → apply_account st e ≡ ok st'
    → st'.version ≡ e.version
unfolding apply_account
version-apply_account st e st' h = ground arith

version-apply_inventory :
    (st : InventoryState) (e : Event) (st' : InventoryState)
    → apply_inventory st e ≡ ok st'
    → st'.version ≡ e.version
unfolding apply_inventory
version-apply_inventory st e st' h = ground arith

version-fold_account_from :
    (n m : ℕ) (st : AccountState) (events : List Event) (st' : AccountState)
    → m ≡ n + length events
    → st.version ≡ int64 n
    → Numbered (λ e. e.version) n events
    → fold_account_from st events ≡ ok st'
    → st'.version ≡ int64 m
unfolding fold_account_from
version-fold_account_from n m st [] st' l v h e = let p : m ≡ n = omega arith in rw p (ground arith)
version-fold_account_from n m st (x ∷ events) st' l v h e =
    let (st₁, p, q) = >>=-eq-ok (apply_account st x) (λ s. fold_account_from s events) e in
    version-fold_account_from (suc n) m st₁ events st' (omega arith)
      (version-apply_account st x st₁ p ∙ h.0) h.1 q

-- The state of a well-numbered stream has the stream's length as its version.
pub version-fold_account :
    (id : String) (events : List Event) (st : AccountState)
    → Numbered (λ e. e.version) 0 events
    → fold_account id events ≡ ok st
    → st.version ≡ int64 (length events)
unfolding fold_account int64 wrap64
version-fold_account id events st h e =
    version-fold_account_from 0 (length events) (zero_account id) events st (omega arith) refl h e

version-fold_inventory_from :
    (n m : ℕ) (st : InventoryState) (events : List Event) (st' : InventoryState)
    → m ≡ n + length events
    → st.version ≡ int64 n
    → Numbered (λ e. e.version) n events
    → fold_inventory_from st events ≡ ok st'
    → st'.version ≡ int64 m
unfolding fold_inventory_from
version-fold_inventory_from n m st [] st' l v h e =
    let p : m ≡ n = omega arith in rw p (ground arith)
version-fold_inventory_from n m st (x ∷ events) st' l v h e =
    let (st₁, p, q) = >>=-eq-ok (apply_inventory st x) (λ s. fold_inventory_from s events) e in
    version-fold_inventory_from (suc n) m st₁ events st' (omega arith)
      (version-apply_inventory st x st₁ p ∙ h.0) h.1 q

-- The state of a well-numbered stream has the stream's length as its version.
pub version-fold_inventory :
    (id : String) (events : List Event) (st : InventoryState)
    → Numbered (λ e. e.version) 0 events
    → fold_inventory id events ≡ ok st
    → st.version ≡ int64 (length events)
unfolding fold_inventory int64 wrap64
version-fold_inventory id events st h e =
    version-fold_inventory_from 0 (length events) (zero_inventory id) events st (omega arith) refl h
      e
