-- ===== src/Dispatch.antt =====
-- common/dispatch: the order and instrument hierarchies beside their std::variant counterparts.
pub mod Float
pub mod Orders
pub mod Instruments
