-- ===== src/Rdt/Tests.antt =====
-- Runs of the model of mp2/src at concrete inputs, and its theorems at inputs that meet their
-- hypotheses.
mod Window
mod Sending
mod Receiving
mod Rounds
