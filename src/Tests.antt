-- ===== src/Tests.antt =====
-- Runs of the models on small inputs.
mod Framing
mod Parsing
mod Storing
mod Answers
mod Gating
mod Sending
mod Checking
mod Together
mod Reading
mod Configuring
mod Starting
mod Showing
mod Watching
mod Saving
mod Serving
