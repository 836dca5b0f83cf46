-- ===== src/Examples.antt =====
-- Runs of the models on concrete inputs, one for each result that has conditions.
mod Codec
mod Sniffer
mod Driving
mod Loops
mod Connections
mod Names
mod Datagrams
mod Targets
mod Hardware
mod Service
mod Sessions
mod Sockets
