-- ===== src/Projections.antt =====
-- internal/projections: the read side, which folds events into views behind a checkpoint.
-- This file is projections.go: the views and the interface of the stores that keep them.
pub mod Memory
pub mod Appliers
pub mod Projector
pub mod Redelivery
pub mod Overtaken
pub mod Behind
pub mod Showing
pub mod Mirror
pub mod Stock
pub mod CatchUp
pub mod Postgres
use streamledger.Prelude.{Bool, List, [], ◌∷◌, String, ℤ, pos, negsuc}
use streamledger.Action.{Action}
use streamledger.Outcome.{Outcome}
use streamledger.EventStore.{Time}

pub record AccountView : Type 0 where
  pub account_id : String
  pub balance_cents : ℤ
  pub version : ℤ
  pub updated_at : Time

pub record InventoryView : Type 0 where
  pub item_id : String
  pub available_quantity : ℤ
  pub reserved_quantity : ℤ
  pub version : ℤ
  pub updated_at : Time

-- time.Time{}: the first instant of year 1
abbrev pub zero_time : Time
zero_time = record { sec = negsuc 62135596799; nsec = 0 }

abbrev pub zero_account_view : AccountView
zero_account_view = record {
  account_id = "";
  balance_cents = pos 0;
  version = pos 0;
  updated_at = zero_time;
}

abbrev pub zero_inventory_view : InventoryView
zero_inventory_view = record {
  item_id = "";
  available_quantity = pos 0;
  reserved_quantity = pos 0;
  version = pos 0;
  updated_at = zero_time;
}

-- Reads leave the store alone. `with_tx` runs a body that reports a Boolean as one unit of work.
pub record ReadModelStore (S : Type 0) : Type 0 where
  pub get_account : String → S → Outcome (AccountView × Bool)
  pub upsert_account : AccountView → Action S (Unit {0})
  pub get_inventory : String → S → Outcome (InventoryView × Bool)
  pub upsert_inventory : InventoryView → Action S (Unit {0})
  pub get_checkpoint : String → S → Outcome ℤ
  pub set_checkpoint : String → ℤ → Action S (Unit {0})
  pub with_tx : Action S Bool → Action S Bool
