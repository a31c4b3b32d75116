-- ===== src/Gateway.antt =====
-- `MQTTGateway` (app/transports/mqtt.py): the control requests with the limiter in front of the database, the other
-- messages, the commands that are sent, and the connection loop.
pub mod Limiter
pub mod Rates
pub mod Spacing
pub mod Messages
pub mod Loop
pub mod Links
pub mod Paces
pub mod Senders
pub mod Conditions
pub mod Checks
pub mod Deliveries
pub mod Deadlines
mod Tests
