-- ===== src/Answer.antt =====
-- nodejs/concept/answer and nodejs/common/Label.ts: the data that answers are made of.
pub mod ConceptMap
pub mod Label
pub mod Groups
