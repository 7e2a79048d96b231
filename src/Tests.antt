-- ===== src/Tests.antt =====
-- Runs of the model on concrete inputs, and the theorems applied to them.
mod Data
mod Frames
mod Pictures
mod Counters
mod Lifecycle
mod Serving
mod Sending
mod Pair
mod Completions
mod Source
mod Receiving
mod Stopping
mod Transmitting
mod Offers
mod Arrivals
