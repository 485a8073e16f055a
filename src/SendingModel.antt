-- ===== src/SendingModel.antt =====
-- `sending/model/sending_model.cpp`: the model of what is sent.
pub mod State
pub mod Selection
pub mod Values
pub mod Send
pub mod Tree
pub mod Keys
pub mod Range
pub mod Cache
pub mod Session
mod Tests
