-- ===== src/Owlhub.antt =====
-- owlclaw/owlhub: the hub's reviews.
pub mod Ids
pub mod Review
