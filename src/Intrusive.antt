-- ===== src/Intrusive.antt =====
-- foyer-intrusive/src: the intrusive doubly linked list under the eviction containers.
pub mod Dlist
pub mod Tests
