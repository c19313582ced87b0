-- ===== src/Budget.antt =====
-- The external-cost ledger of src/model_forensics/budget.py.
pub mod Entry
pub mod Document
pub mod Ceilings
pub mod Store
pub mod Ledger
pub mod Batch
pub mod BatchCall
pub mod Totals
pub mod Valid
pub mod Change
pub mod Fresh
pub mod Inventory
pub mod Calls
pub mod History
pub mod Safety
pub mod Repeats
pub mod Settlement
mod Tests
