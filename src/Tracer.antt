-- ===== src/Tracer.antt =====
-- The JavaScript tracers that the node embeds (tracers/js/internal/tracers).
pub mod Log
pub mod Hist
pub mod Opcount
pub mod Unigram
pub mod Bigram
pub mod Trigram
pub mod Evmdis
