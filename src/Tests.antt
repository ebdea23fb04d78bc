-- ===== src/Tests.antt =====
-- Runs of the definitions on concrete inputs, and each theorem at one of them.
mod Samples
mod Val
mod Iterate
mod Path
mod Queue
mod Builder
mod Ojc
mod Parse
mod Client
mod Recv
