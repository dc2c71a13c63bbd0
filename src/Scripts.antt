-- ===== src/Scripts.antt =====
-- The maintenance scripts of scripts/ that have logic of their own. Their printing, the reading of the
-- environment and the loading of classes by name are not modelled.
pub mod ConsolidatePending
pub mod PurgeExpired
