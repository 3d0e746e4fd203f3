-- ===== src/Orders.antt =====
-- app/orders: placing an order, and the life of a position.
pub mod Gateway
pub mod Service
pub mod Paper
pub mod Position
