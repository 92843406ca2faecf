-- ===== src/Text.antt =====
-- Python's `str.strip`, the order of texts, and `sorted` of a set of texts, with `_required` and
-- `_normalized_values` of sovereignflow/domain/models.py. A text is a sequence of code points.
pub mod Strip
pub mod Order
pub mod Normal
pub mod Words
