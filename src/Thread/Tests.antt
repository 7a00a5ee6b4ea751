-- ===== src/Thread/Tests.antt =====
-- The names of some threads.
use tux_base_mmo.Common.{◌≡◌, refl, ascii, decimal}
use tux_base_mmo.Thread.{set_name, thread_name}

named_7 : set_name (λ i. 99) (thread_name 7) ≡ ascii "NetEngineIO_7"
unfolding set_name decimal
named_7 = refl

-- A server of 1024 threads has two of this name.
named_1003 : set_name (λ i. 99) (thread_name 1003) ≡ ascii "NetEngineIO_100"
unfolding set_name decimal
named_1003 = refl
