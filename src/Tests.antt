-- ===== src/Tests.antt =====
-- The theorems at concrete inputs, by component.
mod Agreement
mod Beast
mod Clients
mod Fws
mod FwsClient
mod FwsLoop
mod FwsNetwork
mod FwsServerLoop
mod Usockets
mod UsocketsLoop
mod Uws
mod Wpp
